-- ===== src/Orders/Activation.antt =====
-- internal/database/orders.go: ConfirmOrderPaidCAS activates an order that waits for its payment, if the
-- subscription has a row and no statement fails.
use vn_bot.Base.{
  ℕ, ◌≤◌, ◌≡◌, refl, Bool, true, Option, none, some, List, [], ◌∷◌, ℤ, arith, find, count, ◌==◌,
}
use vn_bot.Store.{
  Order, Subscription, Product, Tables, JournalType, DedupFamily, Works, pure-Works, bind-Works,
  query-Works, update-Works, transaction-Works, catch-Works, if-Works, never-Works, require,
  subscription_not_found,
}
use vn_bot.Orders.Rows.{subscription_by_id, update_orders, update_subscriptions}
use vn_bot.Orders.Expiry.{calculate_payment_expiry}
use vn_bot.Orders.Journal.{record_journal, journal_payment, record_payment_journal}
use vn_bot.Orders.Confirm.{may_confirm, grant, confirm_order_paid_cas}

abbrev pub Nothing : Tables → Type 0
Nothing _ = Unit {0}

journaled :
    (type : JournalType) (family : DedupFamily) (id : ℕ)
    → Works Nothing (record_journal type family id) (λ _. Nothing)
unfolding record_journal
journaled type family id = catch-Works _ _ (update-Works _ (λ t p. tt))

payment_journaled :
    (id : ℕ) (renewal : Bool) (o : Option Order)
    → Works Nothing (journal_payment id renewal o) (λ _. Nothing)
unfolding journal_payment
payment_journaled id renewal none = pure-Works tt (λ t p. tt)
payment_journaled id renewal (some o) =
    bind-Works {Q = λ _. Nothing} _ _ (journaled _ _ _) (λ _. journaled _ _ _)

recorded :
    (id : ℕ) (prior : Subscription) (product : Product)
    → Works Nothing (record_payment_journal id prior product) (λ _. Nothing)
unfolding record_payment_journal
recorded id prior product =
    catch-Works _ _
      (bind-Works {Q = λ _. Nothing} _ _ (query-Works _ (λ t p. tt)) (payment_journaled id _))

pub counted :
    (id : ℕ) (xs : List Subscription) {s : Subscription}
    → find (subscription_by_id id) xs ≡ some s
    → 1 ≤ count (subscription_by_id id) xs
counted id [] e = absurd (ground arith)
counted id (x ∷ xs) {s} e = ground (arith, counted id xs {s = s})

-- The order may be confirmed and the subscription has a row.
abbrev pub Ready : ℕ → ℕ → Tables → Type 0
Ready id sub t =
    (1 ≤ count (may_confirm id) t.orders) × (1 ≤ count (subscription_by_id sub) t.subscriptions)

module _ (id now : ℕ) (sub : Subscription) (product : Product) (amount : ℤ) where
  granted :
      (current : Subscription) (expiry n : ℕ)
      → Works
          (λ t. (1 ≤ n) × (1 ≤ count (subscription_by_id sub.id) t.subscriptions))
          (grant id now current sub product expiry n)
          (λ r t. r.0 ≡ true)
  unfolding grant update_subscriptions
  granted current expiry n =
      if-Works (n == 0) (λ z. never-Works _ (λ t p. ground (arith, z, p.0)))
        (λ _. bind-Works {Q = λ m t. 1 ≤ m} _ _ (update-Works _ (λ t p. p.1)) (λ m.
          if-Works (m == 0) (λ z. never-Works _ (λ t p. ground (arith, z, p)))
            (λ _.
              bind-Works {Q = λ _. Nothing} _ _
                (record { at = λ w e p. (recorded id current product).at w e tt })
                (λ _. pure-Works _ (λ t p. refl)))))

  pub confirm_order_paid_cas-Works :
      (s : Subscription)
      → Works
          (λ t. (find (subscription_by_id sub.id) t.subscriptions ≡ some s) × Ready id sub.id t)
          (confirm_order_paid_cas id now now sub product amount)
          (λ r t. r.0 ≡ true)
  unfolding confirm_order_paid_cas update_orders
  confirm_order_paid_cas-Works s = transaction-Works _ (
      bind-Works {Q = λ found t. (found ≡ some s) × Ready id sub.id t} _ _
        (query-Works _ (λ t p. p))
        (λ found. bind-Works {Q = λ _. Ready id sub.id} _ _ (go found) (λ c.
          bind-Works {Q = λ n t. (1 ≤ n) × (1 ≤ count (subscription_by_id sub.id) t.subscriptions)}
            _ _ (update-Works _ (λ t p. p))
            (granted c (calculate_payment_expiry now (some c) (some product))))))
    where
      go :
          (found : Option Subscription)
          → Works
              (λ t. (found ≡ some s) × Ready id sub.id t)
              (require found subscription_not_found)
              (λ _. Ready id sub.id)
      go none = never-Works _ (λ t p. cc p.0)
      go (some c) = pure-Works c (λ t p. p.1)
