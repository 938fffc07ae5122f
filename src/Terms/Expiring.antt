-- ===== src/Terms/Expiring.antt =====
-- internal/database/subscriptions.go: the end of a term. The rows of the journal are left out: their
-- insert is a statement whose failure is dropped.
use vn_bot.Base.{
  ℕ, Bool, false, not, ◌&&◌, Option, none, some, is_some, ℤ, pos, negsuc, ◌==◌, leb, if◌then◌else◌,
  find,
}
use vn_bot.Store.{
  Subscription, is_active, M, pure, raise, ◌>>=◌, catch, stmt, query, transaction, require,
  subscription_not_found, reload_failed, state_changed,
}
use vn_bot.Orders.Rows.{subscription_by_id, update_subscriptions}
use vn_bot.Orders.Chargeback.{downgraded_row}

-- `recordJournal`: best effort.
unfoldable pub journal_aside : M (Unit {0})
journal_aside = catch stmt (λ _. pure tt)

-- The rows that a selector names, written with themselves: the writer reservation.
abbrev pub reserve : (Subscription → Bool) → M ℕ
reserve p = update_subscriptions p (λ s. s)

-- `claimSubscriptionSnapshot`.
unfoldable pub claim_subscription_snapshot : ℕ → M Subscription
claim_subscription_snapshot id = reserve (subscription_by_id id) >>= λ n.
    if n == 0
    then raise subscription_not_found
    else (query (λ t. find (subscription_by_id id) t.subscriptions) >>= λ found.
        require found reload_failed)

abbrev pub has_ended : Option ℕ → ℕ → Bool
has_ended none now = false
has_ended (some e) now = leb e now

-- `id = ? AND status = ? AND expires_at IS NOT NULL AND expires_at <= ?`.
abbrev pub may_expire : ℕ → ℕ → Subscription → Bool
may_expire id now s = subscription_by_id id s && is_active s.status && has_ended s.expires_at now

abbrev pub is_zero : ℤ → Bool
is_zero (pos n) = n == 0
is_zero (negsuc _) = false

-- The row that another scan has left.
abbrev pub is_downgraded : ℕ → Subscription → Bool
is_downgraded free_plan s =
    is_active s.status
    && s.plan_id == free_plan
    && not (is_some s.expires_at)
    && not (is_some s.product_id)
    && not (is_some s.started_at)
    && is_zero s.price_paid_cents
    && not (is_some s.currency)

abbrev pub settled : ℕ → Option Subscription → M (Unit {0})
settled free_plan none = raise subscription_not_found
settled free_plan (some s) = if is_downgraded free_plan s then pure tt else raise state_changed

-- Behind the update, with the number of rows that it changed.
abbrev pub after_expiry : ℕ → ℕ → ℕ → M (Unit {0})
after_expiry id free_plan changed =
    if changed == 0
    then (query (λ t. find (subscription_by_id id) t.subscriptions) >>= settled free_plan)
    else journal_aside

-- `ExpireSubscriptionWithPlanCAS`.
unfoldable pub expire_subscription_with_plan_cas : ℕ → ℕ → ℕ → M (Unit {0})
expire_subscription_with_plan_cas id free_plan now = transaction (
    claim_subscription_snapshot id >>= λ prior.
    (update_subscriptions (may_expire id now) (downgraded_row free_plan)
      >>= after_expiry id free_plan))

-- `ExpireSubscription`.
unfoldable pub expire_subscription : ℕ → ℕ → M (Unit {0})
expire_subscription id free_plan = transaction (
    claim_subscription_snapshot id >>= λ prior.
    (update_subscriptions (subscription_by_id id) (downgraded_row free_plan) >>= λ changed.
    if changed == 0 then raise subscription_not_found else journal_aside))
