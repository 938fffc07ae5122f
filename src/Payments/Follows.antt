-- ===== src/Payments/Follows.antt =====
-- Each operation of the payment service moves orders only along the diagram of Orders.Diagram.
pub mod Request
pub mod Fees
use vn_bot.Base.{
  pos, ltb_ℤ, str_eq, ℕ, zero, suc, String, Bool, true, false, not, ◌&&◌, ◌||◌, Option, none, some,
  List, [], ◌∷◌, ℤ, ◌==◌, if◌then◌else◌, refl,
}
use vn_bot.Store.{
  late_confirmed_callback, invalid_payment_transition, is_paid, is_expired, is_canceled, is_pending,
  ◌>>=◌, ◌>>◌, Order, OrderStatus, Subscription, Product, Plan, M, Result, ok, err, Error, Alert,
  ProviderCall, Invalidation, World, attempt, notify, drop_cached, record_call, pure, query,
  notify-Keeps, order_not_found, product_not_found, subscription_not_found,
}
use vn_bot.Money.Text.{Text}
use vn_bot.Money.Amount.{parse_callback_amount}
use vn_bot.Orders.Rows.{
  get_order_by_id, get_order_by_provider_payment_id, get_product_by_id, get_plan_by_id,
  get_plan_by_name, get_by_id,
}
use vn_bot.Orders.Chargeback.{ChargebackResult}
use vn_bot.Orders.Diagram.{Follows, Follows-preorder}
use vn_bot.Orders.Follow.{FollowsM, asked, done, raised, needed, chained, branched}
use vn_bot.Orders.Follow.Intent.{
  find_pending_payment_order-Follows, find_or_create_pending_payment_order-Follows,
  mark_payment_creation_uncertain-Follows, save_payment_details-Follows,
  save_order_payment_amounts-Follows,
}
use vn_bot.Orders.Follow.Paid.{
  confirm_order_paid_cas-Follows, cancel_paid_order_and_downgrade_cas-Follows,
  cancel_order_cas-Follows,
}
use vn_bot.Payments.Outside.{Outside}
use vn_bot.Payments.Confirm
use vn_bot.Payments.Cancel

pub attempted : {A : Type 0} {m : M A} → FollowsM m → FollowsM (attempt m)
attempted h = record { at = λ w. h.at w }

pub notified : (a : Alert) → FollowsM (notify a)
notified a = notify-Keeps Follows-preorder a

pub dropped : (i : Invalidation) → FollowsM (drop_cached i)
dropped i = record { at = λ w. Follows-preorder.same w.tables }

pub called : (c : ProviderCall) → FollowsM (record_call c)
called c = record { at = λ w. Follows-preorder.same w.tables }

pub order_read : (id : ℕ) → FollowsM (get_order_by_id id)
unfolding get_order_by_id
order_read id = chained (asked _) (λ found. needed found _)

pub payment_read :
    (provider payment : String) → FollowsM (get_order_by_provider_payment_id provider payment)
unfolding get_order_by_provider_payment_id
payment_read provider payment = chained (asked _) (λ found. needed found _)

pub product_read : (id : ℕ) → FollowsM (get_product_by_id id)
unfolding get_product_by_id
product_read id = chained (asked _) (λ found. needed found _)

pub plan_read : (id : ℕ) → FollowsM (get_plan_by_id id)
unfolding get_plan_by_id
plan_read id = chained (asked _) (λ found. needed found _)

named_plan_read : (name : String) → FollowsM (get_plan_by_name name)
unfolding get_plan_by_name
named_plan_read name = chained (asked _) (λ found. needed found _)

pub subscription_read : (id : ℕ) → FollowsM (get_by_id id)
unfolding get_by_id
subscription_read id = chained (asked _) (λ found. needed found _)

alerted : {A : Type 0} {a : Alert} {m : M A} → FollowsM m → FollowsM (notify a >> m)
alerted {a = a} h = chained (notified a) (λ _. h)

checked :
    (o : Order) (amount : Text) (currency : String)
    → FollowsM (Confirm.callback_cents o amount currency)
unfolding Confirm.callback_cents
checked o amount currency =
    branched _ (alerted (raised _)) (covering (parse_callback_amount amount))
  where
    covering : (found : Option ℤ) → FollowsM (Confirm.covering_amount o found)
    covering none = alerted (raised _)
    covering (some cents) = branched _ (alerted (raised _)) (done cents)

confirm_reported :
    (env : Outside) (o : Order) (renewal : Bool) (r : Result (Bool × Subscription))
    → FollowsM (Confirm.after_confirm env o renewal r)
unfolding Confirm.after_confirm
confirm_reported env o renewal (err e) = alerted (raised e)
confirm_reported env o renewal (ok (false, sub)) = done _
confirm_reported env o renewal (ok (true, sub)) =
    chained
      (chained
        (branched (env.has_sub_service && not (str_eq sub.subscription_id "")) (dropped _)
          (done tt))
        (λ _. notified _))
      (λ _. done _)

subscription_settled :
    (env : Outside) (o : Order) (cents : ℤ) (product : Product) (r : Result Subscription)
    → FollowsM (Confirm.with_subscription env o cents product r)
unfolding Confirm.with_subscription
subscription_settled env o cents product (err subscription_not_found) = alerted (done _)
subscription_settled env o cents product (err e) = alerted (raised e)
subscription_settled env o cents product (ok sub) =
    chained (attempted (confirm_order_paid_cas-Follows o.id env.now env.now sub product cents))
      (confirm_reported env o (Confirm.is_renewal sub))

product_settled :
    (env : Outside) (o : Order) (cents : ℤ) (r : Result Product)
    → FollowsM (Confirm.with_product env o cents r)
unfolding Confirm.with_product
product_settled env o cents (err product_not_found) = alerted (done _)
product_settled env o cents (err e) = alerted (raised e)
product_settled env o cents (ok product) =
    chained (attempted (subscription_read o.subscription_id))
      (subscription_settled env o cents product)

settled : (env : Outside) (o : Order) (cents : ℤ) → FollowsM (Confirm.settle_callback env o cents)
unfolding Confirm.settle_callback
settled env o cents = branched (is_paid o.status) (done _) (
    branched
      ((is_expired o.status || is_canceled o.status)
        && not (Confirm.within_settlement_grace o env.now))
      (chained
        (chained (attempted (subscription_read o.subscription_id))
          (λ _. notified late_confirmed_callback))
        (λ _. done (Confirm.confirmation (some o) false)))
      (branched (not (is_pending o.status) && not (is_expired o.status))
        (raised invalid_payment_transition)
        (chained (attempted (product_read o.product_id)) (product_settled env o cents))))

order_settled :
    (env : Outside) (amount : Text) (currency : String) (r : Result Order)
    → FollowsM (Confirm.with_order env amount currency r)
unfolding Confirm.with_order
order_settled env amount currency (err order_not_found) = alerted (done _)
order_settled env amount currency (err e) = alerted (raised e)
order_settled env amount currency (ok o) = chained (checked o amount currency) (settled env o)

pub confirm_payment-Follows :
    (env : Outside) (payment : String) (amount : Text) (currency : String)
    → FollowsM (Confirm.confirm_payment env payment amount currency)
unfolding Confirm.confirm_payment
confirm_payment-Follows env payment amount currency =
    branched (not env.payment_enabled) (raised _) (
      branched (not env.lock_granted) (raised _) (
        branched _ (alerted (raised _))
          (chained (attempted (payment_read _ _)) (order_settled env amount currency))))

alert_read : (o : Order) → FollowsM (Cancel.load_chargeback_alert_context o)
unfolding Cancel.load_chargeback_alert_context
alert_read o = chained (attempted (subscription_read o.subscription_id)) (λ sub.
    branched (o.product_id == 0) (done (sub, none))
      (chained (attempted (product_read o.product_id)) (λ product. done (sub, some product))))

row_invalidated : (r : Result Subscription) → FollowsM (Cancel.invalidate_row r)
unfolding Cancel.invalidate_row
row_invalidated (err e) = done tt
row_invalidated (ok sub) =
    chained (branched (ltb_ℤ (pos 0) sub.telegram_id) (dropped _) (done tt))
      (λ _. branched (str_eq sub.subscription_id "") (done tt) (dropped _))

invalidated : (env : Outside) (id : ℕ) → FollowsM (Cancel.invalidate_after_chargeback env id)
unfolding Cancel.invalidate_after_chargeback
invalidated env id =
    branched env.has_sub_service (chained (attempted (subscription_read id)) row_invalidated)
      (done tt)

chargeback_reported :
    (env : Outside) (r : Result (Option ChargebackResult))
    → FollowsM (Cancel.after_chargeback env r)
unfolding Cancel.after_chargeback Cancel.report_chargeback
chargeback_reported env (err e) = alerted (raised e)
chargeback_reported env (ok none) = done _
chargeback_reported env (ok (some r)) =
    branched r.transitioned
      (chained
        (chained (branched r.was_paid (chained (alert_read r.order) (λ _. notified _)) (done tt))
          (λ _. branched r.downgraded (invalidated env r.order.subscription_id) (done tt)))
        (λ _. done _))
      (done _)

free_plan_settled :
    (env : Outside) (payment : String) (r : Result Plan)
    → FollowsM (Cancel.with_free_plan env payment r)
unfolding Cancel.with_free_plan
free_plan_settled env payment (err e) = alerted (raised e)
free_plan_settled env payment (ok plan) =
    chained
      (attempted (cancel_paid_order_and_downgrade_cas-Follows "platega" payment env.now plan.id))
      (chargeback_reported env)

cancel_reported : (o : Order) (r : Result Bool) → FollowsM (Cancel.after_cancel o r)
unfolding Cancel.after_cancel
cancel_reported o (err e) = alerted (raised e)
cancel_reported o (ok false) = done _
cancel_reported o (ok true) = done _

status_applied :
    (env : Outside) (payment status : String) (o : Order)
    → FollowsM (Cancel.apply_status env payment status o)
unfolding Cancel.apply_status
status_applied env payment status o =
    branched (not (str_eq status "CANCELED") && not (str_eq status "CHARGEBACKED"))
      (alerted (raised _))
      (branched (str_eq status "CHARGEBACKED")
        (chained (attempted (named_plan_read _)) (free_plan_settled env payment))
        (chained
          (attempted (cancel_order_cas-Follows "platega" payment (OrderStatus.pending ∷ []) refl))
          (cancel_reported o)))

canceled_order_settled :
    (env : Outside) (payment status : String) (amount : Text) (currency : String) (r : Result Order)
    → FollowsM (Cancel.with_canceled_order env payment status amount currency r)
unfolding Cancel.with_canceled_order
canceled_order_settled env payment status amount currency (err order_not_found) = alerted (done _)
canceled_order_settled env payment status amount currency (err e) = alerted (raised e)
canceled_order_settled env payment status amount currency (ok o) =
    chained (checked o amount currency) (λ _. status_applied env payment status o)

pub cancel_payment_by_provider-Follows :
    (env : Outside) (payment status : String) (amount : Text) (currency : String)
    → FollowsM (Cancel.cancel_payment_by_provider env payment status amount currency)
unfolding Cancel.cancel_payment_by_provider
cancel_payment_by_provider-Follows env payment status amount currency =
    branched (not env.payment_enabled) (raised _) (
      branched (str_eq payment Confirm.nil_uuid) (alerted (raised _)) (
        branched (not env.lock_granted) (raised _) (
          chained (attempted (payment_read _ _))
            (canceled_order_settled env payment status amount currency))))
