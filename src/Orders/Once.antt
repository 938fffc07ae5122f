-- ===== src/Orders/Once.antt =====
-- An order is activated at most once, in whatever history of repository calls.
use vn_bot.Base.{
  ℕ, zero, suc, ◌<◌, ◌≢◌, Bool, true, false, ◌||◌, ◌≡◌, refl, some, List, [], ◌∷◌, ℤ, arith, ◌==◌,
  count, update_where, inl, inr, Bool-cases,
}
use vn_bot.Store.{
  Order, OrderStatus, Subscription, Product, Tables, World, ok, is_pending, is_expired, Returns,
  Returns-ok, pure-Returns, raise-Returns, require-Returns, if-Returns, bind-Returns,
  update-Returns, query-Returns, transaction-Returns, Keeps-Returns,
}
use vn_bot.Orders.Rows.{update_orders, update_subscriptions}
use vn_bot.Orders.Expiry.{calculate_payment_expiry}
use vn_bot.Orders.Journal.Aside.{SameRows, record_payment_journal-SameRows}
use vn_bot.Orders.Confirm.{may_confirm, confirmed, grant, confirm_order_paid_cas}
use vn_bot.Orders.Diagram.{
  ◌⟶*◌, here, step, RowStep, RowsFollow, pay, settle, expire, cancel, charge_back,
}
use vn_bot.Orders.Follow.Paid.{confirm_order_paid_cas-Follows}
use vn_bot.Orders.Follow.Any.{OrderCall, run_calls, run_calls-Follows}

-- No row of this id is waiting for its payment.
abbrev pub Settled : ℕ → Tables → Type 0
Settled id t = count (may_confirm id) t.orders ≡ 0

count-update_where-cleared :
    (p : Order → Bool) (f : Order → Order) (xs : List Order)
    → ((o : Order) → p (f o) ≡ false)
    → count p (update_where p f xs) ≡ 0
count-update_where-cleared p f [] h = refl
count-update_where-cleared p f (x ∷ xs) h = ground (arith, h x, count-update_where-cleared p f xs h)

not_confirmable :
    (id paid_at activated_at expiry : ℕ) (amount : ℤ) (o : Order)
    → may_confirm id (confirmed paid_at activated_at expiry amount o) ≡ false
not_confirmable id paid_at activated_at expiry amount o = ground arith

pub confirm_settles :
    (id paid_at activated_at : ℕ) (sub : Subscription) (product : Product) (amount : ℤ)
    → Returns
        (λ _. Unit {0})
        (confirm_order_paid_cas id paid_at activated_at sub product amount)
        (λ _. Settled id)
unfolding confirm_order_paid_cas update_orders update_subscriptions
confirm_settles id paid_at activated_at sub product amount = transaction-Returns _ (
    bind-Returns {Q = λ _ _. Unit {0}} _ _ (query-Returns _ (λ t p. tt)) (λ found.
      bind-Returns {Q = λ _ _. Unit {0}} _ _ (require-Returns found _ (λ a t e p. tt)) (λ current.
        bind-Returns {Q = λ _. Settled id} _ _
          (update-Returns _ (λ t p. count-update_where-cleared (may_confirm id) _ t.orders (
            not_confirmable id paid_at activated_at
              (calculate_payment_expiry activated_at (some current) (some product)) amount)))
          (granted current))))
  where
    granted :
        (current : Subscription) (n : ℕ)
        → Returns
            (Settled id)
            (grant id activated_at current sub product
              (calculate_payment_expiry activated_at (some current) (some product))
              n)
            (λ _. Settled id)
    granted current n =
        if-Returns (n == 0) (λ _. pure-Returns _ (λ t p. p))
          (λ _. bind-Returns {Q = λ _. Settled id} _ _ (update-Returns _ (λ t p. p)) (λ m.
            if-Returns (m == 0) (λ _. raise-Returns _)
              (λ _.
                bind-Returns {Q = λ _. Settled id} _ _
                  (Keeps-Returns SameRows (Settled id) _
                    (record_payment_journal-SameRows id current product) (λ t u r p. rw r.0 p))
                  (λ _. pure-Returns _ (λ t p. p)))))

-- A confirmation that finds no such row reports that it did not activate the order.
pub confirm_refuses :
    (id paid_at activated_at : ℕ) (sub : Subscription) (product : Product) (amount : ℤ)
    → Returns
        (Settled id)
        (confirm_order_paid_cas id paid_at activated_at sub product amount)
        (λ r _. r.0 ≡ false)
unfolding confirm_order_paid_cas update_orders update_subscriptions
confirm_refuses id paid_at activated_at sub product amount = transaction-Returns _ (
    bind-Returns {Q = λ _. Settled id} _ _ (query-Returns _ (λ t p. p)) (λ found.
      bind-Returns {Q = λ _. Settled id} _ _ (require-Returns found _ (λ a t e p. p)) (λ current.
        bind-Returns {Q = λ n _. n ≡ 0} _ _ (update-Returns _ (λ t p. p)) (refused current))))
  where
    refused :
        (current : Subscription) (n : ℕ)
        → Returns
            (λ _. n ≡ 0)
            (grant id activated_at current sub product
              (calculate_payment_expiry activated_at (some current) (some product))
              n)
            (λ r _. r.0 ≡ false)
    refused current zero = pure-Returns _ (λ t p. refl)
    refused current (suc n) = record { at = λ w p. absurd (omega arith) }

-- Nothing comes back to a state that waits for a payment.
waiting_first :
    {s t : OrderStatus}
    → s ⟶* t
    → (is_pending t || is_expired t) ≡ true
    → (is_pending s || is_expired s) ≡ true
waiting_first here h = h
waiting_first (step pay r) h = refl
waiting_first (step settle r) h = refl
waiting_first (step expire r) h = refl
waiting_first (step cancel r) h = refl
waiting_first (step charge_back r) h = cc (waiting_first r h)

RowStep-confirmable :
    (id : ℕ) {o o' : Order} → RowStep o o' → may_confirm id o ≡ false → may_confirm id o' ≡ false
RowStep-confirmable id {o} {o'} r h = elim (Bool-cases (may_confirm id o')) [
  | inl e ↦ ground (arith, waiting_first r.moved, r.same_id)
  | inr e ↦ e
]

pub RowsFollow-Settled :
    (id next : ℕ) (xs ys : List Order)
    → id < next
    → RowsFollow next xs ys
    → count (may_confirm id) xs ≡ 0
    → count (may_confirm id) ys ≡ 0
RowsFollow-Settled id next [] [] lt f h = refl
RowsFollow-Settled id next [] (y ∷ ys) lt f h =
    ground (arith, RowsFollow-Settled id next [] ys lt f.1 h)
RowsFollow-Settled id next (x ∷ xs) [] lt f h = absurd f
RowsFollow-Settled id next (x ∷ xs) (y ∷ ys) lt f h =
    ground (arith, RowsFollow-Settled id next xs ys lt f.1, RowStep-confirmable id f.0)

-- Once a confirmation has reported that it activated an order, no later confirmation of that order
-- does so again, with whatever arguments and after whatever repository calls, failures included.
pub activated_at_most_once :
    (id paid_at activated_at : ℕ) (sub : Subscription) (product : Product) (amount : ℤ)
    {s : Subscription} (w : World)
    → id < w.tables.next_order
    → (confirm_order_paid_cas id paid_at activated_at sub product amount w).0 ≡ ok (true, s)
    → (calls : List OrderCall) (paid_at' activated_at' : ℕ) (sub' : Subscription)
      (product' : Product) (amount' : ℤ) (s' : Subscription)
    → let w' = (confirm_order_paid_cas id paid_at activated_at sub product amount w).1 in
      (confirm_order_paid_cas id paid_at' activated_at' sub' product' amount'
        (run_calls calls w')).0
      ≢ ok (true, s')
activated_at_most_once id pa aa sub product amount w lt e calls pa' aa' sub' product' amount' s' f =
    let w' : World = (confirm_order_paid_cas id pa aa sub product amount w).1 in
    let first = (confirm_order_paid_cas-Follows id pa aa sub product amount).at w in
    let later = run_calls-Follows calls w' in
    let settled = Returns-ok w (confirm_settles id pa aa sub product amount) tt e in
    let still =
      RowsFollow-Settled id w'.tables.next_order w'.tables.orders (run_calls calls w').tables.orders
        (omega arith) later.1 settled in
    cc (Returns-ok (run_calls calls w') (confirm_refuses id pa' aa' sub' product' amount') still f)
