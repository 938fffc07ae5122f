-- ===== src/Payments/Timely.antt =====
-- internal/service/order.go: a confirmation that comes in time.
use vn_bot.Base.{ℕ, ◌+◌, ◌≤◌, ◌≡◌, ◌⊎◌, true, Option, none, some, ℤ, find, count, ◌==◌}
use vn_bot.Store.{Order, OrderStatus, Subscription, Product, Tables}
use vn_bot.Money.Text.{Text}
use vn_bot.Orders.Rows.{subscription_by_id}
use vn_bot.Orders.Confirm.{may_confirm}
use vn_bot.Payments.Outside.{Outside}
use vn_bot.Payments.Confirm.{PaymentConfirmation}

-- The order waits for its payment, or has expired by a deadline that passed 300 seconds ago at most.
abbrev pub IsInGrace : Option ℕ → ℕ → Type 0
IsInGrace none now = ⊥
IsInGrace (some deadline) now = now ≤ deadline + 300

abbrev pub IsTimely : Order → ℕ → Type 0
IsTimely o now =
    (o.status ≡ OrderStatus.pending)
    ⊎ ((o.status ≡ OrderStatus.expired) × IsInGrace o.payment_expires_at now)

module _ (env : Outside) (o : Order) (cents : ℤ) (product : Product) (s : Subscription)
    (timely : IsTimely o env.now) where
  -- The rows that the settlement needs.
  abbrev Rows : Tables → Type 0
  Rows t =
      (find (λ p. p.id == o.product_id) t.products ≡ some product)
      × (find (subscription_by_id o.subscription_id) t.subscriptions ≡ some s)
      × (1 ≤ count (may_confirm o.id) t.orders)

  abbrev IsDone : PaymentConfirmation → Tables → Type 0
  IsDone c t = c.activated ≡ true
