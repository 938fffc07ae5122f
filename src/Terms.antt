-- ===== src/Terms.antt =====
-- The terms of subscriptions: internal/database/subscriptions.go (`Expiring`) and
-- internal/database/subscription_renewal.go (`Renewal`).
pub mod Expiring
pub mod Renewal
pub mod Reminders
pub mod Reminded
pub mod Once
pub mod Scan
pub mod Extension
pub mod Ends
pub mod Promises
mod Tests
