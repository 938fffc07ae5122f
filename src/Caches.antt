-- ===== src/Caches.antt =====
-- The caches in memory: internal/bot/cache.go, the least-recently-used cache of subscriptions
-- (`Elements` has its pointers and maps, `Rows` the list it stands for), and
-- internal/bot/referral_cache.go (`Referrals`).
pub mod Elements
pub mod Linked
pub mod Removal
pub mod Insertion
pub mod Rows
pub mod Refines
pub mod Setting
pub mod Sweep
pub mod Uses
pub mod Promises
pub mod Referrals
mod Tests
