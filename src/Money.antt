-- ===== src/Money.antt =====
-- internal/service/payment/platega: amounts as the provider writes them. `Text` has the parts of
-- Go's strings and strconv that they use, `Amount` the amount of a callback, `Commission` the fee.
pub mod Text
pub mod Amount
pub mod Commission
pub mod Digits
pub mod Laws
pub mod Rounding
mod Tests
