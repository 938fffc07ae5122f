-- ===== src/Orders/PaidTerms.antt =====
-- internal/database/orders.go: the term in the subscription row behind one ConfirmOrderPaidCAS, and
-- behind two.
use vn_bot.Base.{
  ℕ, ◌+◌, ◌*◌, ◌≡◌, refl, ◌∙◌, ap, Bool, true, false, Option, none, some, List, [], ◌∷◌, ℤ, arith,
  ◌==◌, find, update_where, if◌then◌else◌, inl, inr, Bool-cases,
}
use Prim.Native.Nat.{max}
use vn_bot.Store.{
  Subscription, Product, Tables, World, ok, Returns, Returns-ok, pure-Returns, raise-Returns,
  require-Returns, if-Returns, bind-Returns, update-Returns, query-Returns, transaction-Returns,
  Keeps-Returns,
}
use vn_bot.Orders.Rows.{subscription_by_id, update_orders, update_subscriptions}
use vn_bot.Orders.Expiry.{calculate_payment_expiry}
use vn_bot.Orders.Expiry.Laws.{latest, calculate_payment_expiry_lem}
use vn_bot.Orders.Journal.Aside.{SameRows, record_payment_journal-SameRows}
use vn_bot.Orders.Confirm.{entitled, grant, confirm_order_paid_cas}

pub find-update_where :
    (p : Subscription → Bool) (f : Subscription → Subscription) (xs : List Subscription)
    {s : Subscription}
    → ((x : Subscription) → p (f x) ≡ p x)
    → find p xs ≡ some s
    → find p (update_where p f xs) ≡ some (f s)
find-update_where p f [] h e = cc
find-update_where p f (x ∷ xs) {s} h e = elim (Bool-cases (p x)) [
  | inl q ↦ ground (arith, h x, q, e)
  | inr q ↦ ground (arith, q, e, find-update_where p f xs {s = s} h)
]

-- The row of a subscription in the database.
abbrev pub Holds : ℕ → Subscription → Tables → Type 0
Holds id s t = find (subscription_by_id id) t.subscriptions ≡ some s

module _ (id paid_at activated_at : ℕ) (sub : Subscription) (product : Product) (amount : ℤ)
    (s : Subscription) where
  abbrev expiry_of : Subscription → ℕ
  expiry_of c = calculate_payment_expiry activated_at (some c) (some product)

  abbrev pub row_behind : Bool → Subscription
  row_behind true = entitled product activated_at (expiry_of s) s
  row_behind false = s

  -- A confirmation that activates the order has written the row from the row that was there;
  -- one that does not has left it.
  pub confirm_entitles :
      Returns
        (Holds sub.id s)
        (confirm_order_paid_cas id paid_at activated_at sub product amount)
        (λ r t. Holds sub.id (row_behind r.0) t)
  unfolding confirm_order_paid_cas update_orders update_subscriptions
  confirm_entitles = transaction-Returns _ (
      bind-Returns {Q = λ found t. Holds sub.id s t × (found ≡ some s)} _ _
        (query-Returns _ (λ t p. (p, p)))
        (λ found.
          bind-Returns {Q = λ c t. Holds sub.id s t × (c ≡ s)} _ _
            (require-Returns found _ (λ c t e p. (p.0, same e p.1)))
            (λ c.
              bind-Returns {Q = λ _ t. Holds sub.id s t × (c ≡ s)} _ _ (update-Returns _ (λ t p. p))
                (granted c))))
    where
      same : {o : Option Subscription} {c : Subscription} → o ≡ some c → o ≡ some s → c ≡ s
      same e f = cc

      written :
          (c : Subscription) (t : Tables)
          → Holds sub.id s t
          → c ≡ s
          → find (subscription_by_id sub.id) (
              update_where
                (subscription_by_id sub.id)
                (entitled product activated_at (expiry_of c))
                t.subscriptions)
            ≡ some (entitled product activated_at (expiry_of s) s)
      written c t p e = rw e (
          find-update_where (subscription_by_id sub.id)
            (entitled product activated_at (expiry_of s)) t.subscriptions (λ x. refl) p)

      granted :
          (c : Subscription) (n : ℕ)
          → Returns
              (λ t. Holds sub.id s t × (c ≡ s))
              (grant id activated_at c sub product (expiry_of c) n)
              (λ r t. Holds sub.id (row_behind r.0) t)
      granted c n =
          if-Returns (n == 0) (λ _. pure-Returns _ (λ t p. p.0))
            (λ _.
              bind-Returns {Q = λ _. Holds sub.id (entitled product activated_at (expiry_of s) s)} _
                _ (update-Returns _ (λ t p. written c t p.0 p.1))
                (λ m.
                  if-Returns (m == 0) (λ _. raise-Returns _)
                    (λ _.
                      bind-Returns
                        {Q = λ _. Holds sub.id (entitled product activated_at (expiry_of s) s)} _ _
                        (Keeps-Returns SameRows _ _ (record_payment_journal-SameRows id c product)
                          (λ t u r p. rw r.1 p))
                        (λ _. pure-Returns _ (λ t p. p)))))

  -- The same, of a call that has reported the activation.
  pub confirmed-Holds :
      {o : Subscription} (w : World)
      → Holds sub.id s w.tables
      → (confirm_order_paid_cas id paid_at activated_at sub product amount w).0 ≡ ok (true, o)
      → Holds sub.id
          (entitled product activated_at (expiry_of s) s)
          (confirm_order_paid_cas id paid_at activated_at sub product amount w).1.tables
  confirmed-Holds w p e = Returns-ok w confirm_entitles p e

abbrev pub end_of : Option Subscription → Option ℕ
end_of none = none
end_of (some s) = s.expires_at

-- The end of the term in the row of a subscription.
abbrev pub stored_end : ℕ → World → Option ℕ
stored_end id w = end_of (find (subscription_by_id id) w.tables.subscriptions)

module _ (i j paid_at paid_at' a b : ℕ) (sub sub' : Subscription) (p q : Product) (n m : ℤ)
    (w u : World) {o o' : Subscription} where
  -- If a payment activates an order of a subscription that has a row, the term in the row then ends the
  -- days of the product after the payment or, if the row had a term of that plan that was later, after
  -- that. If a second, with the row still as the first left it, activates an order of the same
  -- subscription for a product of the same plan, the term in the row then ends the days of its product
  -- after the later of the second payment and the end behind the first: no paid day is lost. Statements
  -- may fail.
  pub payments_add_up :
      {s : Subscription}
      → find (subscription_by_id sub.id) w.tables.subscriptions ≡ some s
      → (confirm_order_paid_cas i paid_at a sub p n w).0 ≡ ok (true, o)
      → find (subscription_by_id sub.id) u.tables.subscriptions
        ≡ find
            (subscription_by_id sub.id)
            (confirm_order_paid_cas i paid_at a sub p n w).1.tables.subscriptions
      → sub'.id ≡ sub.id
      → q.plan_id ≡ p.plan_id
      → (confirm_order_paid_cas j paid_at' b sub' q m u).0 ≡ ok (true, o')
      → (e : ℕ) × (stored_end sub.id (confirm_order_paid_cas i paid_at a sub p n w).1 ≡ some e)
        × (e
            ≡ (if s.plan_id == p.plan_id then latest a s.expires_at else a)
              + p.duration_days * 86400)
        × (stored_end sub.id (confirm_order_paid_cas j paid_at' b sub' q m u).1
            ≡ some (max b e + q.duration_days * 86400))
  payments_add_up {s} had first kept same_sub same_plan second =
      let e = calculate_payment_expiry a (some s) (some p) in
      let r = entitled p a e s in
      let here = confirmed-Holds i paid_at a sub p n s w had first in
      let there = confirmed-Holds j paid_at' b sub' q m r u (rw same_sub (kept ∙ here)) second in
      let later = calculate_payment_expiry_lem b r q in
      (
        e,
        ap end_of here,
        calculate_payment_expiry_lem a s p,
        rw (← same_sub) (ap end_of there ∙ ap some (later_end e later)),
      )
    where
      later_end :
          (e : ℕ) {x : ℕ}
          → x ≡ (if p.plan_id == q.plan_id then max b e else b) + q.duration_days * 86400
          → x ≡ max b e + q.duration_days * 86400
      later_end e h = ground (arith, h)
