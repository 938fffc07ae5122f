-- ===== src/AdminAuth.antt =====
-- internal/adminauth/limiter.go: the budget of login attempts. `Limiter` has its state and `allow`,
-- `Budget` what it ensures.
pub mod Limiter
pub mod Budget
pub mod Sessions
pub mod Tokens
pub mod Handler
pub mod Lookups
pub mod Guard
pub mod Keeps
pub mod Visits
pub mod Login
mod Tests
mod SessionTests
