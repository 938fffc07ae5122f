-- ===== src/Orders.antt =====
-- internal/database/orders.go: the order repository. Definitions: `Rows` (lookups and the updates
-- of one table), `Intent` (pending payment intents), `Expiry`, `Journal`, `Confirm` and
-- `Chargeback`. Proofs: see the other children.
pub mod Rows
pub mod Intent
pub mod Expiry
pub mod Journal
pub mod Confirm
pub mod Activation
pub mod PaidTerms
pub mod TermKept
pub mod Chargeback
pub mod Diagram
pub mod Follow
pub mod Once
mod Tests
