-- ===== src/Broadcast.antt =====
-- internal/database/broadcast_recipients.go: mass mailings. A row keeps its audience and the outcome of
-- each recipient. `Types` has the rows, `Recipients` the changes of the recipients, `Campaign` the
-- operations of the service, `Advance` and `Final` what they ensure.
pub mod Types
pub mod Recipients
pub mod Campaign
pub mod Advance
pub mod Final
mod Tests
