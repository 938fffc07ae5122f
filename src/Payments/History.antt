-- ===== src/Payments/History.antt =====
-- internal/service/order.go: histories of service calls, from any number of users and callbacks. Each
-- call has its own `Outside`: its clock, its lock and the answers that it gets.
use vn_bot.Base.{
  ◌∙◌, subst, ℕ, String, true, false, ◌≡◌, ◌≢◌, ◌<◌, refl, some, List, [], ◌∷◌, ℤ, All, inl, inr,
  Bool-cases, arith, ◌==◌,
}
use vn_bot.Store.{weaken-Returns, always-Returns, Order, World, ok, Returns, Returns-ok}
use vn_bot.Money.Text.{Text}
use vn_bot.Orders.Confirm.{confirm_order_paid_cas}
use vn_bot.Orders.Diagram.{RowsFollow, OneIntent, Follows, Follows-preorder}
use vn_bot.Orders.Follow.{FollowsM}
use vn_bot.Orders.Once.{Settled, confirm_settles, confirm_refuses, RowsFollow-Settled}
use vn_bot.Payments.Outside.{Outside}
use vn_bot.Payments.Confirm.{confirmation, confirm_payment}
use vn_bot.Payments.Cancel.{cancel_payment_by_provider}
use vn_bot.Payments.Link.{request_payment}
use vn_bot.Payments.Fees.{sync_provider_fees}
use vn_bot.Payments.Follows.{confirm_payment-Follows, cancel_payment_by_provider-Follows}
use vn_bot.Payments.Follows.Request.{request_payment-Follows}
use vn_bot.Payments.Follows.Fees.{sync_provider_fees-Follows}
use vn_bot.Payments.Once.{Activates, confirm_payment-Reports}

pub data ServiceCall : Type 0 where
  request : Outside → ℤ → String → ℕ → ServiceCall
  confirm : Outside → String → Text → String → ServiceCall
  cancel : Outside → String → String → Text → String → ServiceCall
  sync : Outside → ℕ → ℕ → ServiceCall

-- The state after a call; its result goes to the caller.
unfoldable pub run_service : ServiceCall → World → World
run_service (request env telegram username product) w =
    (request_payment env telegram username product w).1
run_service (confirm env payment amount currency) w =
    (confirm_payment env payment amount currency w).1
run_service (cancel env payment status amount currency) w =
    (cancel_payment_by_provider env payment status amount currency w).1
run_service (sync env fuel limit) w = (sync_provider_fees env fuel limit w).1

unfoldable pub run_history : List ServiceCall → World → World
unfolding run_service
run_history [] w = w
run_history (c ∷ cs) w = run_history cs (run_service c w)

-- What is asked of the subscription service: it moves no order off the diagram.
abbrev pub IsOrderly : ServiceCall → Type 0
IsOrderly (request env telegram username product) =
    FollowsM (env.get_or_create_subscription telegram username)
IsOrderly (confirm env payment amount currency) = Unit {0}
IsOrderly (cancel env payment status amount currency) = Unit {0}
IsOrderly (sync env fuel limit) = Unit {0}

run_service-Follows :
    (c : ServiceCall) (w : World) → IsOrderly c → Follows w.tables (run_service c w).tables
unfolding run_service
run_service-Follows (request env telegram username product) w h =
    (request_payment-Follows env telegram username product h).at w
run_service-Follows (confirm env payment amount currency) w h =
    (confirm_payment-Follows env payment amount currency).at w
run_service-Follows (cancel env payment status amount currency) w h =
    (cancel_payment_by_provider-Follows env payment status amount currency).at w
run_service-Follows (sync env fuel limit) w h = (sync_provider_fees-Follows env fuel limit).at w

pub run_history-Follows :
    (calls : List ServiceCall) (w : World)
    → All IsOrderly calls
    → Follows w.tables (run_history calls w).tables
unfolding run_history
run_history-Follows [] w h = Follows-preorder.same w.tables
run_history-Follows (c ∷ cs) w h =
    Follows-preorder.chain {t = w.tables} {u = (run_service c w).tables}
      {v = (run_history cs (run_service c w)).tables} (run_service-Follows c w h.0)
      (run_history-Follows cs (run_service c w) h.1)

-- Whatever payment requests, confirmations, cancellations, chargebacks and fee passes run, in any
-- order and whatever statements fail, if the subscription service that requests call keeps to the
-- diagram: every order row is still there at its place with its id, subscription, product, price,
-- currency and provider, and its status has moved only along pending to paid, expired or canceled,
-- expired to paid, and paid to canceled; rows that are added have the ids from `next_order` on.
pub run_history-RowsFollow :
    (calls : List ServiceCall) (w : World)
    → All IsOrderly calls
    → RowsFollow w.tables.next_order w.tables.orders (run_history calls w).tables.orders
run_history-RowsFollow calls w h = (run_history-Follows calls w h).1

-- If there is at most one Platega intent for each subscription and product, there is at most one after
-- any such history.
pub run_history-OneIntent :
    (calls : List ServiceCall) (w : World)
    → All IsOrderly calls
    → OneIntent w.tables.orders
    → OneIntent (run_history calls w).tables.orders
run_history-OneIntent calls w h = (run_history-Follows calls w h).2

named : {o p : Order} → some o ≡ some p → p.id ≡ o.id
named e = cc e

settles : Activates (λ _. Unit {0}) Settled
settles id paid_at activated_at sub product amount =
    weaken-Returns (confirm_settles id paid_at activated_at sub product amount) (λ r t q e. q)

refuses : (id : ℕ) → Activates (Settled id) (λ i t. i ≢ id)
refuses id i paid_at activated_at sub product amount = elim (Bool-cases (i == id)) [
  | inl e ↦
      weaken-Returns
        (subst
          (λ j.
            Returns (Settled id) (confirm_order_paid_cas j paid_at activated_at sub product amount)
              (λ r t. r.0 ≡ false))
          (ground (arith, e)) (confirm_refuses id paid_at activated_at sub product amount))
        (λ r t q h. absurd (cc (q, h)))
  | inr e ↦ always-Returns _ (λ r t h. ground (arith, e))
]

-- Once a confirmation has reported that it activated an order, no later confirmation reports that it
-- activated an order of the same id: with whatever payment id, amount, clock and answers, behind
-- whatever history of service calls and failing statements, if the subscription service that the
-- requests call keeps to the diagram.
pub order_activated_once :
    (env : Outside) (payment : String) (amount : Text) (currency : String) (w : World) (o : Order)
    → o.id < w.tables.next_order
    → (confirm_payment env payment amount currency w).0 ≡ ok (confirmation (some o) true)
    → (calls : List ServiceCall) → All IsOrderly calls
    → (env' : Outside) (payment' : String) (amount' : Text) (currency' : String) (o' : Order)
    → (confirm_payment env' payment' amount' currency'
        (run_history calls (confirm_payment env payment amount currency w).1)).0
      ≡ ok (confirmation (some o') true)
    → o'.id ≢ o.id
order_activated_once env payment amount currency w o lt e calls h env' payment' amount' currency' o'
      e' =
    let w' : World = (confirm_payment env payment amount currency w).1 in
    let first = (confirm_payment-Follows env payment amount currency).at w in
    let later = run_history-Follows calls w' h in
    let (p, same, settled) =
      Returns-ok w
        (confirm_payment-Reports (λ _. Unit {0}) Settled settles env payment amount currency) tt e
        refl in
    let still : Settled o.id (run_history calls w').tables =
      RowsFollow-Settled o.id w'.tables.next_order w'.tables.orders
        (run_history calls w').tables.orders (omega arith) later.1
        (subst (λ i. Settled i w'.tables) (named same) settled) in
    let (q, same', other) =
      Returns-ok (run_history calls w')
        (confirm_payment-Reports (Settled o.id) (λ i t. i ≢ o.id) (refuses o.id) env' payment'
          amount' currency')
        still e' refl in
    λ f. other (named same' ∙ f)
