-- ===== src/Orders/Expiry.antt =====
-- internal/database/orders.go: `CalculatePaymentExpiry`. In UTC a day of `AddDate` is 86400 seconds.
pub mod Laws
use vn_bot.Base.{ℕ, ◌+◌, ◌*◌, ◌&&◌, Option, none, some, ◌==◌, ltb, if◌then◌else◌}
use vn_bot.Store.{Subscription, Product}

abbrev pub day_seconds : ℕ
day_seconds = 86400

-- The time from which the purchased days count.
abbrev pub base_time : ℕ → ℕ → ℕ → Option ℕ → ℕ
base_time now held bought none = now
base_time now held bought (some e) = if held == bought && ltb now e then e else now

unfoldable pub calculate_payment_expiry : ℕ → Option Subscription → Option Product → ℕ
calculate_payment_expiry now sub none = now
calculate_payment_expiry now none (some product) = now + product.duration_days * day_seconds
calculate_payment_expiry now (some sub) (some product) =
    base_time now sub.plan_id product.plan_id sub.expires_at + product.duration_days * day_seconds
