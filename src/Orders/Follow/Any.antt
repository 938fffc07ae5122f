-- ===== src/Orders/Follow/Any.antt =====
-- Any sequence of repository operations, from any callers and under any database failures.
use vn_bot.Base.{ℕ, String, Bool, true, false, List, [], ◌∷◌, Option, ℤ, refl}
use vn_bot.Store.{OrderStatus, Subscription, Product, World}
use vn_bot.Orders.Rows.{save_order_payment_amounts}
use vn_bot.Orders.Intent.{
  find_pending_payment_order, find_or_create_pending_payment_order, mark_payment_creation_uncertain,
  save_payment_details,
}
use vn_bot.Orders.Confirm.{confirm_order_paid_cas}
use vn_bot.Orders.Chargeback.{cancel_paid_order_and_downgrade_cas, cancel_order_cas}
use vn_bot.Orders.Diagram.{Follows, Follows-preorder}
use vn_bot.Orders.Follow.Intent.{
  find_pending_payment_order-Follows, find_or_create_pending_payment_order-Follows,
  mark_payment_creation_uncertain-Follows, save_payment_details-Follows,
  save_order_payment_amounts-Follows,
}
use vn_bot.Orders.Follow.Paid.{
  confirm_order_paid_cas-Follows, cancel_paid_order_and_downgrade_cas-Follows,
  cancel_order_cas-Follows,
}

-- The calls of the repository that change orders. The service cancels from `pending` alone, or
-- from `pending` and `paid`.
pub data OrderCall : Type 0 where
  find_pending : ℕ → ℕ → ℕ → OrderCall
  find_or_create : ℕ → ℕ → ℤ → String → ℕ → OrderCall
  mark_uncertain : ℕ → Bool → OrderCall
  save_details : ℕ → String → String → ℕ → OrderCall
  save_amounts : ℕ → ℤ → Option ℤ → OrderCall
  confirm : ℕ → ℕ → ℕ → Subscription → Product → ℤ → OrderCall
  cancel : String → String → Bool → OrderCall
  charge_back : String → String → ℕ → ℕ → OrderCall

abbrev from_states : Bool → List OrderStatus
from_states true = OrderStatus.pending ∷ OrderStatus.paid ∷ []
from_states false = OrderStatus.pending ∷ []

-- The state after a call; its result goes to the caller.
pub run_call : OrderCall → World → World
run_call (find_pending s p now) w = (find_pending_payment_order s p now w).1
run_call (find_or_create s p a c now) w = (find_or_create_pending_payment_order s p a c now w).1
run_call (mark_uncertain id b) w = (mark_payment_creation_uncertain id b w).1
run_call (save_details id payment url d) w = (save_payment_details id payment url d w).1
run_call (save_amounts id a f) w = (save_order_payment_amounts id a f w).1
run_call (confirm id pa aa s p a) w = (confirm_order_paid_cas id pa aa s p a w).1
run_call (cancel provider payment b) w = (cancel_order_cas provider payment (from_states b) w).1
run_call (charge_back provider payment now plan) w =
    (cancel_paid_order_and_downgrade_cas provider payment now plan w).1

pub run_calls : List OrderCall → World → World
unfolding run_call
run_calls [] w = w
run_calls (c ∷ cs) w = run_calls cs (run_call c w)

run_call-Follows : (c : OrderCall) (w : World) → Follows w.tables (run_call c w).tables
unfolding run_call
run_call-Follows (find_pending s p now) w = (find_pending_payment_order-Follows s p now).at w
run_call-Follows (find_or_create s p a c now) w =
    (find_or_create_pending_payment_order-Follows s p a c now).at w
run_call-Follows (mark_uncertain id b) w = (mark_payment_creation_uncertain-Follows id b).at w
run_call-Follows (save_details id payment url d) w =
    (save_payment_details-Follows id payment url d).at w
run_call-Follows (save_amounts id a f) w = (save_order_payment_amounts-Follows id a f).at w
run_call-Follows (confirm id pa aa s p a) w = (confirm_order_paid_cas-Follows id pa aa s p a).at w
run_call-Follows (cancel provider payment true) w =
    (cancel_order_cas-Follows provider payment (from_states true) refl).at w
run_call-Follows (cancel provider payment false) w =
    (cancel_order_cas-Follows provider payment (from_states false) refl).at w
run_call-Follows (charge_back provider payment now plan) w =
    (cancel_paid_order_and_downgrade_cas-Follows provider payment now plan).at w

-- Whatever repository calls are made, in any order and whatever statements fail, every order row
-- is still there at its place with its id, subscription, product, price, currency and provider;
-- its status has moved only along pending to paid, expired or canceled, expired to paid, and paid
-- to canceled; and if there was at most one Platega intent for each subscription and product
-- before, there is at most one afterwards.
pub run_calls-Follows :
    (calls : List OrderCall) (w : World) → Follows w.tables (run_calls calls w).tables
unfolding run_calls
run_calls-Follows [] w = Follows-preorder.same w.tables
run_calls-Follows (c ∷ cs) w =
    Follows-preorder.chain {t = w.tables} {u = (run_call c w).tables}
      {v = (run_calls cs (run_call c w)).tables} (run_call-Follows c w)
      (run_calls-Follows cs (run_call c w))
