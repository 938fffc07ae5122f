-- ===== src/Store.antt =====
-- The rows and the transactions of internal/database that the payment flow works on.
-- `Types` has the rows of models.go, `Monad` the statements and transactions over them, and
-- `Frame`, `Outcome` and `Calm` the rules by which a property of every statement becomes one of every
-- operation: what it keeps, what its success ensures, and that it succeeds if no statement fails.
mod Types
mod Monad
mod Frame
mod Outcome
mod Calm
pub use Types.*
unfoldable pub use Monad.*
pub use Frame.*
pub use Outcome.*
pub use Calm.*
