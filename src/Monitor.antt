-- ===== src/Monitor.antt =====
-- internal/database/netmon_state.go: the state machine of network monitoring. `Target` has the check of
-- one target, `Country` the statuses derived from several; `Outages` is about runs of
-- checks.
pub mod Target
pub mod Country
pub mod Outages
mod Tests
