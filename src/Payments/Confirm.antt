-- ===== src/Payments/Confirm.antt =====
-- internal/service/order.go: `confirmPayment`, the callback of a payment that went through.
use vn_bot.Base.{
  ℕ, ◌+◌, String, Bool, true, false, not, ◌&&◌, ◌||◌, Option, none, some, is_some, ℤ, pos, ltb_ℤ,
  leb, if◌then◌else◌, str_eq,
}
use vn_bot.Store.{
  Order, OrderStatus, Subscription, Product, is_pending, is_paid, is_expired, is_canceled, M,
  Result, ok, err, pure, raise, ◌>>=◌, ◌>>◌, attempt, notify, drop_cached, by_sub_id,
  order_not_found, product_not_found, subscription_not_found, payment_disabled, lock_timeout,
  invalid_provider_id, currency_mismatch, invalid_amount, amount_mismatch,
  invalid_payment_transition, invalid_provider_id_alert, unknown_provider_id, load_order_failed,
  callback_currency_mismatch, callback_amount_invalid, callback_amount_mismatch,
  late_confirmed_callback, load_order_product_failed, load_order_subscription_failed,
  confirm_payment_failed, admin_paid,
}
use vn_bot.Money.Text.{Text}
use vn_bot.Money.Amount.{parse_callback_amount}
use vn_bot.Orders.Rows.{get_order_by_provider_payment_id, get_product_by_id, get_by_id}
use vn_bot.Orders.Confirm.{confirm_order_paid_cas}
use vn_bot.Payments.Outside.{Outside}

pub record PaymentConfirmation : Type 0 where
  pub order : Option Order
  pub activated : Bool

abbrev pub confirmation : Option Order → Bool → PaymentConfirmation
confirmation o b = record { order = o; activated = b }

-- `uuid.Nil`.
abbrev pub nil_uuid : String
nil_uuid = "00000000-0000-0000-0000-000000000000"

-- The amount that the callback names, if it covers the order.
abbrev pub covering_amount : Order → Option ℤ → M ℤ
covering_amount o none = notify callback_amount_invalid >> raise invalid_amount
covering_amount o (some cents) =
    if ltb_ℤ cents o.amount_cents
    then notify callback_amount_mismatch >> raise amount_mismatch
    else pure cents

-- The checks of a callback against its order: currency, amount, underpayment.
unfoldable pub callback_cents : Order → Text → String → M ℤ
callback_cents o amount currency =
    if not (str_eq o.currency currency)
    then notify callback_currency_mismatch >> raise currency_mismatch
    else covering_amount o (parse_callback_amount amount)

-- The settlement grace: an expired order is still accepted up to five minutes behind the deadline
-- of its link.
abbrev pub within_deadline : Option ℕ → ℕ → Bool
within_deadline none now = false
within_deadline (some deadline) now = leb now (deadline + 300)

abbrev pub within_settlement_grace : Order → ℕ → Bool
within_settlement_grace o now = is_expired o.status && within_deadline o.payment_expires_at now

-- `mirrorOrderFromSubscriptionAfterCAS`.
abbrev pub mirror_expiry : Option ℕ → Order → Order
mirror_expiry none o = o
mirror_expiry (some e) o = record o { expires_at = some e }

abbrev pub mirror_order_from_subscription_after_cas : Order → Subscription → ℕ → Order
mirror_order_from_subscription_after_cas o sub now = record (mirror_expiry sub.expires_at o) {
  status = OrderStatus.paid;
  paid_at = some now;
  activated_at = some now;
}

abbrev pub is_renewal : Subscription → Bool
is_renewal sub = ltb_ℤ (pos 0) sub.price_paid_cents || is_some sub.product_id

-- Behind the compare-and-swap: only the caller that activated the order tells anyone.
unfoldable pub after_confirm :
    Outside → Order → Bool → Result (Bool × Subscription) → M PaymentConfirmation
after_confirm env o renewal (err e) = notify confirm_payment_failed >> raise e
after_confirm env o renewal (ok (false, sub)) = pure (confirmation (some o) false)
after_confirm env o renewal (ok (true, sub)) =
    (if env.has_sub_service && not (str_eq sub.subscription_id "")
      then drop_cached (by_sub_id sub.subscription_id)
      else pure tt)
    >> notify (admin_paid renewal)
    >> pure (confirmation (some (mirror_order_from_subscription_after_cas o sub env.now)) true)

-- A product or a subscription that is gone is acknowledged; the administrator settles it.
unfoldable pub with_subscription :
    Outside → Order → ℤ → Product → Result Subscription → M PaymentConfirmation
unfolding after_confirm
with_subscription env o cents product (err subscription_not_found) =
    notify load_order_subscription_failed >> pure (confirmation none false)
with_subscription env o cents product (err e) = notify load_order_subscription_failed >> raise e
with_subscription env o cents product (ok sub) =
    attempt (confirm_order_paid_cas o.id env.now env.now sub product cents)
    >>= after_confirm env o (is_renewal sub)

unfoldable pub with_product : Outside → Order → ℤ → Result Product → M PaymentConfirmation
unfolding with_subscription
with_product env o cents (err product_not_found) =
    notify load_order_product_failed >> pure (confirmation none false)
with_product env o cents (err e) = notify load_order_product_failed >> raise e
with_product env o cents (ok product) =
    attempt (get_by_id o.subscription_id) >>= with_subscription env o cents product

-- What the callback does with an order that the amount covers.
unfoldable pub settle_callback : Outside → Order → ℤ → M PaymentConfirmation
unfolding with_product
settle_callback env o cents =
    if is_paid o.status
    then pure (confirmation (some o) false)
    else (if (is_expired o.status || is_canceled o.status)
          && not (within_settlement_grace o env.now)
        then (attempt (get_by_id o.subscription_id)
            >> notify late_confirmed_callback
            >> pure (confirmation (some o) false))
        else (if not (is_pending o.status) && not (is_expired o.status)
            then raise invalid_payment_transition
            else attempt (get_product_by_id o.product_id) >>= with_product env o cents))

unfoldable pub with_order : Outside → Text → String → Result Order → M PaymentConfirmation
unfolding callback_cents settle_callback
with_order env amount currency (err order_not_found) =
    notify unknown_provider_id >> pure (confirmation none false)
with_order env amount currency (err e) = notify load_order_failed >> raise e
with_order env amount currency (ok o) = callback_cents o amount currency >>= settle_callback env o

-- `confirmPayment`.
unfoldable pub confirm_payment : Outside → String → Text → String → M PaymentConfirmation
unfolding with_order
confirm_payment env payment amount currency =
    if not env.payment_enabled
    then raise payment_disabled
    else (if not env.lock_granted
        then raise lock_timeout
        else (if str_eq payment nil_uuid
            then notify invalid_provider_id_alert >> raise invalid_provider_id
            else (attempt (get_order_by_provider_payment_id "platega" payment)
                >>= with_order env amount currency)))
