-- ===== src/Payments.antt =====
-- internal/service/order.go: the payment service over the repository. `Outside` has what the
-- service is given, `Confirm` and `Cancel` the two callbacks of the provider, `Request` the payment
-- link, `Fees` the background worker of provider fees.
pub mod Outside
pub mod Confirm
pub mod Cancel
pub mod Request
pub mod Provider
pub mod Link
pub mod Fees
pub mod Follows
pub mod Once
pub mod History
pub mod Decisions
pub mod Late
pub mod Timely
pub mod Quiet
pub mod Blocked
pub mod Uncertain
pub mod Lock
pub mod Exclusion
pub mod Joining
pub mod Release
pub mod Mutex
mod LockTests
mod Tests
