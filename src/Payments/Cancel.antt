-- ===== src/Payments/Cancel.antt =====
-- internal/service/order.go: `CancelPaymentByProvider`, the callback of a cancellation or chargeback.
use vn_bot.Base.{
  ℕ, String, Bool, true, false, not, ◌&&◌, Option, none, some, [], ◌∷◌, pos, ltb_ℤ, ◌==◌,
  if◌then◌else◌, str_eq,
}
use vn_bot.Store.{
  Order, OrderStatus, Subscription, Product, Plan, M, Result, ok, err, pure, raise, ◌>>=◌, ◌>>◌,
  attempt, notify, drop_cached, by_telegram_id, by_sub_id, order_not_found, payment_disabled,
  lock_timeout, invalid_provider_id, invalid_payment_transition, invalid_provider_id_alert,
  unknown_provider_id, load_order_failed, invalid_payment_status, cancel_payment_failed,
  admin_chargeback,
}
use vn_bot.Money.Text.{Text}
use vn_bot.Orders.Rows.{
  get_order_by_provider_payment_id, get_product_by_id, get_by_id, get_plan_by_name, free_plan_name,
}
use vn_bot.Orders.Intent.{set_status}
use vn_bot.Orders.Chargeback.{
  ChargebackResult, cancel_paid_order_and_downgrade_cas, cancel_order_cas,
}
use vn_bot.Payments.Outside.{Outside}
use vn_bot.Payments.Confirm.{nil_uuid, callback_cents}

-- `loadChargebackAlertContext`: a failed read leaves its part of the alert empty.
unfoldable pub load_chargeback_alert_context :
    Order → M (Result Subscription × Option (Result Product))
load_chargeback_alert_context o = attempt (get_by_id o.subscription_id) >>= λ sub.
    if o.product_id == 0
    then pure (sub, none)
    else (attempt (get_product_by_id o.product_id) >>= λ product. pure (sub, some product))

-- `invalidateAfterChargeback` behind its lookup.
unfoldable pub invalidate_row : Result Subscription → M (Unit {0})
invalidate_row (err e) = pure tt
invalidate_row (ok sub) =
    (if ltb_ℤ (pos 0) sub.telegram_id
      then drop_cached (by_telegram_id sub.telegram_id)
      else pure tt)
    >> (if str_eq sub.subscription_id ""
        then pure tt
        else drop_cached (by_sub_id sub.subscription_id))

-- `invalidateAfterChargeback`; the metric that it refreshes is no part of the state.
unfoldable pub invalidate_after_chargeback : Outside → ℕ → M (Unit {0})
unfolding invalidate_row
invalidate_after_chargeback env subscription =
    if env.has_sub_service then attempt (get_by_id subscription) >>= invalidate_row else pure tt

-- What the service returns: the order of a transition, and whether it had been paid.
abbrev pub Cancellation : Type 0
Cancellation = Option Order × Bool

-- Behind the transition of a chargeback.
unfoldable pub report_chargeback : Outside → ChargebackResult → M Cancellation
unfolding load_chargeback_alert_context invalidate_after_chargeback
report_chargeback env r =
    (if r.was_paid
      then (load_chargeback_alert_context r.order >> notify (admin_chargeback r.downgraded))
      else pure tt)
    >> (if r.downgraded then invalidate_after_chargeback env r.order.subscription_id else pure tt)
    >> pure (some r.order, r.was_paid)

unfoldable pub after_chargeback : Outside → Result (Option ChargebackResult) → M Cancellation
unfolding report_chargeback
after_chargeback env (err e) = notify cancel_payment_failed >> raise e
after_chargeback env (ok none) = pure (none, false)
after_chargeback env (ok (some r)) =
    if r.transitioned then report_chargeback env r else pure (none, false)

unfoldable pub with_free_plan : Outside → String → Result Plan → M Cancellation
unfolding after_chargeback
with_free_plan env payment (err e) = notify cancel_payment_failed >> raise e
with_free_plan env payment (ok plan) =
    attempt (cancel_paid_order_and_downgrade_cas "platega" payment env.now plan.id)
    >>= after_chargeback env

unfoldable pub after_cancel : Order → Result Bool → M Cancellation
after_cancel o (err e) = notify cancel_payment_failed >> raise e
after_cancel o (ok false) = pure (none, false)
after_cancel o (ok true) = pure (some (set_status OrderStatus.canceled o), false)

-- The transition that the status asks for: a cancellation moves a pending order alone.
unfoldable pub apply_status : Outside → String → String → Order → M Cancellation
unfolding with_free_plan after_cancel
apply_status env payment status o =
    if not (str_eq status "CANCELED") && not (str_eq status "CHARGEBACKED")
    then notify invalid_payment_status >> raise invalid_payment_transition
    else (if str_eq status "CHARGEBACKED"
        then attempt (get_plan_by_name free_plan_name) >>= with_free_plan env payment
        else (attempt (cancel_order_cas "platega" payment (OrderStatus.pending ∷ []))
            >>= after_cancel o))

unfoldable pub with_canceled_order :
    Outside → String → String → Text → String → Result Order → M Cancellation
unfolding apply_status
with_canceled_order env payment status amount currency (err order_not_found) =
    notify unknown_provider_id >> pure (none, false)
with_canceled_order env payment status amount currency (err e) = notify load_order_failed >> raise e
with_canceled_order env payment status amount currency (ok o) =
    callback_cents o amount currency >> apply_status env payment status o

-- `CancelPaymentByProvider`.
unfoldable pub cancel_payment_by_provider :
    Outside → String → String → Text → String → M Cancellation
unfolding with_canceled_order
cancel_payment_by_provider env payment status amount currency =
    if not env.payment_enabled
    then raise payment_disabled
    else (if str_eq payment nil_uuid
        then notify invalid_provider_id_alert >> raise invalid_provider_id
        else (if not env.lock_granted
            then raise lock_timeout
            else (attempt (get_order_by_provider_payment_id "platega" payment)
                >>= with_canceled_order env payment status amount currency)))
