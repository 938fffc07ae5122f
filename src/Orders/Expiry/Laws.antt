-- ===== src/Orders/Expiry/Laws.antt =====
-- internal/database/orders.go: the end of the term that a payment gives.
use vn_bot.Base.{◌==◌, if◌then◌else◌, ℕ, ◌+◌, ◌*◌, ◌≡◌, Option, none, some, arith}
use Prim.Native.Nat.{max}
use vn_bot.Store.{Subscription, Product}
use vn_bot.Orders.Expiry.{calculate_payment_expiry, day_seconds}

-- The later of a payment and the end of a term, if there is a term.
abbrev pub latest : ℕ → Option ℕ → ℕ
latest now none = now
latest now (some e) = max now e

-- The bought days count from the later of the payment and the end of a term of the same plan; from
-- the payment alone where the subscription holds another plan, or no term.
pub calculate_payment_expiry_lem :
    (now : ℕ) (s : Subscription) (p : Product)
    → calculate_payment_expiry now (some s) (some p)
      ≡ (if s.plan_id == p.plan_id then latest now s.expires_at else now)
        + p.duration_days * day_seconds
unfolding calculate_payment_expiry
calculate_payment_expiry_lem now s p = ground arith
