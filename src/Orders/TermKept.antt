-- ===== src/Orders/TermKept.antt =====
-- internal/database/orders.go: the term in a subscription row over any ConfirmOrderPaidCAS calls.
use vn_bot.Base.{
  ℕ, ◌≤◌, ◌≡◌, refl, ◌∙◌, ap, Bool, true, false, not, ◌||◌, some, List, [], ◌∷◌, ℤ, arith, ◌==◌,
  ==_iff, find, update_where, inl, inr, Bool-cases, All,
}
use vn_bot.Store.{
  Error, Subscription, Product, Tables, World, Result, ok, err, Keeps, Preorder, bind-Keeps,
  if-Keeps, raise-Keeps, pure-Keeps, require-Keeps, query-Keeps, update-Keeps, transaction-Keeps,
  transaction_atomic, Post,
}
use vn_bot.Orders.Rows.{subscription_by_id, update_orders, update_subscriptions}
use vn_bot.Orders.Expiry.{calculate_payment_expiry}
use vn_bot.Orders.Expiry.Laws.{calculate_payment_expiry_lem}
use vn_bot.Orders.Journal.{record_payment_journal}
use vn_bot.Orders.Journal.Aside.{record_payment_journal-SameRows}
use vn_bot.Orders.Confirm.{entitled, grant, confirm_order_paid_cas}
use vn_bot.Orders.PaidTerms.{Holds, row_behind, confirm_entitles, stored_end, end_of}

-- A ConfirmOrderPaidCAS call.
pub record Payment : Type 0 where
  pub order_id : ℕ
  pub paid_at : ℕ
  pub activated_at : ℕ
  pub sub : Subscription
  pub product : Product
  pub amount : ℤ

abbrev pub pay_once : Payment → World → Result (Bool × Subscription) × World
pay_once c = confirm_order_paid_cas c.order_id c.paid_at c.activated_at c.sub c.product c.amount

unfoldable pub run_payments : List Payment → World → World
run_payments [] w = w
run_payments (c ∷ rest) w = run_payments rest (pay_once c w).1

find-apart :
    (id other : ℕ) (f : Subscription → Subscription) (xs : List Subscription)
    → (id == other) ≡ false
    → ((x : Subscription) → (f x).id ≡ x.id)
    → find (subscription_by_id other) (update_where (subscription_by_id id) f xs)
      ≡ find (subscription_by_id other) xs
find-apart id other f [] h k = refl
find-apart id other f (x ∷ xs) h k = elim (Bool-cases (x.id == id)) [
  | inr q ↦ ground (arith, q, find-apart id other f xs h k)
  | inl q ↦
      let q' : x.id ≡ id = (==_iff x.id id).0 q in
      let apart : (x.id == other) ≡ false = rw q' h in
      let apart' : ((f x).id == other) ≡ false = rw (k x) apart in
      ground (arith, q, apart, apart', find-apart id other f xs h k)
]

-- The row of one subscription, over a payment for another.
abbrev Same : ℕ → Tables → Tables → Type 0
Same id t u =
    find (subscription_by_id id) u.subscriptions ≡ find (subscription_by_id id) t.subscriptions

Same-preorder : (id : ℕ) → Preorder (Same id)
Same-preorder id = record { same = λ t. refl; chain = λ a b. b ∙ a }

module _ (id : ℕ) (c : Payment) (apart : (c.sub.id == id) ≡ false) where
  abbrev p : Preorder (Same id)
  p = Same-preorder id

  granted-Same :
      (current : Subscription) (expiry n : ℕ)
      → Keeps (Same id) (grant c.order_id c.activated_at current c.sub c.product expiry n)
  unfolding grant update_subscriptions
  granted-Same current expiry n = if-Keeps p (n == 0) (pure-Keeps p _) (
      bind-Keeps p _ _
        (update-Keeps p _ (λ t.
          find-apart c.sub.id id (entitled c.product c.activated_at expiry) t.subscriptions apart
            (λ x. refl)))
        (λ m.
          if-Keeps p (m == 0) (raise-Keeps p _) (bind-Keeps p _ _ journal (λ _. pure-Keeps p _))))
    where
      journal : Keeps (Same id) (record_payment_journal c.order_id current c.product)
      journal = record {
        at = λ w.
            ap (find (subscription_by_id id))
              ((record_payment_journal-SameRows c.order_id current c.product).at w).1;
      }

  other-Same : Keeps (Same id) (pay_once c)
  unfolding confirm_order_paid_cas update_orders
  other-Same = transaction-Keeps p _ (
      bind-Keeps p _ _ (query-Keeps p _) (λ found.
        bind-Keeps p _ _ (require-Keeps p found _) (λ current.
          bind-Keeps p _ _ (update-Keeps p _ (λ t. refl)) (λ n. granted-Same current _ n))))

-- The row has the plan and a term that does not end before `e`.
abbrev HasTerm : ℕ → ℕ → ℕ → Tables → Type 0
HasTerm id plan e t =
    (s : Subscription) × Holds id s t
    × (s.plan_id ≡ plan)
    × (x : ℕ) × (s.expires_at ≡ some x)
    × (e ≤ x)

-- A payment for this subscription is for a product of the plan.
abbrev pub IsForPlan : ℕ → ℕ → Payment → Type 0
IsForPlan id plan c = (not (c.sub.id == id) || c.product.plan_id == plan) ≡ true

module _ (id plan e : ℕ) (c : Payment) (w : World) (s : Subscription) (x : ℕ)
    (held : s.plan_id ≡ plan) (ends : s.expires_at ≡ some x) (long : e ≤ x) where
  abbrev behind : Bool → Subscription
  behind = row_behind c.order_id c.paid_at c.activated_at c.sub c.product c.amount s

  longer :
      c.product.plan_id ≡ plan
      → e ≤ calculate_payment_expiry c.activated_at (some s) (some c.product)
  longer q =
      let l = calculate_payment_expiry_lem c.activated_at s c.product in
      ground (arith, l, held, ends, long, q)

  -- What is in the row behind any outcome of a payment for it.
  outcome-HasTerm :
      (r : Result (Bool × Subscription) × World)
      → c.product.plan_id ≡ plan
      → Holds id s w.tables
      → Post (λ b t. Holds id (behind b.0) t) r
      → ((failure : Error) → r.0 ≡ err failure → r.1.tables ≡ w.tables)
      → HasTerm id plan e r.1.tables
  outcome-HasTerm (ok (true, o), u) q had p h = (behind true, p, q, _, refl, longer q)
  outcome-HasTerm (ok (false, o), u) q had p h = (s, p, held, x, ends, long)
  outcome-HasTerm (err failure, u) q had p h = (s, rw (h failure refl) had, held, x, ends, long)

payment_fails :
    (c : Payment) (w : World) (failure : Error)
    → (pay_once c w).0 ≡ err failure
    → (pay_once c w).1.tables ≡ w.tables
unfolding confirm_order_paid_cas
payment_fails c w failure h = transaction_atomic _ w h

payment-HasTerm :
    (id plan e : ℕ) (c : Payment) (w : World)
    → IsForPlan id plan c
    → HasTerm id plan e w.tables
    → HasTerm id plan e (pay_once c w).1.tables
payment-HasTerm id plan e c w h (s, had, held, x, ends, long) = elim (Bool-cases (c.sub.id == id)) [
  | inr apart ↦ (s, (other-Same id c apart).at w ∙ had, held, x, ends, long)
  | inl q ↦
      let same : c.sub.id ≡ id = (==_iff c.sub.id id).0 q in
      let had' : Holds c.sub.id s w.tables = rw same had in
      let p =
        (confirm_entitles c.order_id c.paid_at c.activated_at c.sub c.product c.amount s).at w
          had' in
      let q' : c.product.plan_id ≡ plan = ground (arith, h, q, ==_iff c.product.plan_id plan) in
      rw (← same) (
        outcome-HasTerm c.sub.id plan e c w s x held ends long (pay_once c w) q' had' p
          (payment_fails c w))
]

payments-HasTerm :
    (id plan e : ℕ) (calls : List Payment) (w : World)
    → All (IsForPlan id plan) calls
    → HasTerm id plan e w.tables
    → HasTerm id plan e (run_payments calls w).tables
unfolding run_payments
payments-HasTerm id plan e [] w h t = t
payments-HasTerm id plan e (c ∷ rest) w h t =
    payments-HasTerm id plan e rest (pay_once c w).1 h.1 (payment-HasTerm id plan e c w h.0 t)

-- However many confirmations run, of whatever orders and subscriptions, and whatever statements fail, the
-- term in the row of a subscription never ends earlier than before, if the confirmations for that
-- subscription are of products of the plan that it holds.
pub paid_term_kept :
    (id ends : ℕ) (calls : List Payment) (w : World) {s : Subscription}
    → find (subscription_by_id id) w.tables.subscriptions ≡ some s
    → s.expires_at ≡ some ends
    → All (IsForPlan id s.plan_id) calls
    → (later : ℕ) × (stored_end id (run_payments calls w) ≡ some later) × (ends ≤ later)
paid_term_kept id ends calls w {s} had term h =
    let (r, holds, held, later, has, long) =
      payments-HasTerm id s.plan_id ends calls w h (s, had, refl, ends, term, omega arith) in
    (later, ap end_of holds ∙ has, long)
