-- ===== src/Payments/Link.antt =====
-- internal/service/order.go: `requestPayment` from its arguments up to the claim of the intent.
use vn_bot.Base.{
  ℕ, String, not, ◌||◌, Option, none, some, ℤ, pos, ltb_ℤ, ◌==◌, if◌then◌else◌, str_eq,
}
use vn_bot.Store.{
  Order, Subscription, Product, is_pending, is_expired, M, Result, ok, err, ◌>>=◌, attempt, notify,
  subscription_not_found, payment_disabled, payment_creation_uncertain, payment_already_in_progress,
  invalid_request, service_not_configured, load_product_failed, load_subscription_failed,
  subscription_service_not_ready, create_subscription_failed, find_pending_order_failed,
  create_pending_order_failed, creation_uncertain, stored_provider_id_invalid,
}
use vn_bot.Orders.Rows.{get_product_by_id}
use vn_bot.Orders.Intent.{find_pending_payment_order, find_or_create_pending_payment_order}
use vn_bot.Payments.Outside.{Outside}
use vn_bot.Payments.Request.{
  Outcome, refuse, alarm, continue_or, get_by_telegram_id, if_sellable, has_payment_id,
  has_valid_link, reuse_link,
}
use vn_bot.Payments.Provider.{claim_and_call}

-- What the request does with its intent.
unfoldable pub open_intent : Outside → Product → Order → M Outcome
open_intent env product o =
    if o.payment_creation_uncertain
    then alarm creation_uncertain payment_creation_uncertain (some o)
    else (if has_valid_link env o
        then reuse_link env (notify stored_provider_id_invalid) o
        else (if has_payment_id env o
            then refuse payment_already_in_progress (some o)
            else if_sellable product (some o) (claim_and_call env product o)))

unfoldable pub create_intent : Outside → Product → Subscription → M Outcome
unfolding open_intent
create_intent env product sub = if_sellable product none (
    attempt (
      find_or_create_pending_payment_order sub.id product.id product.price_cents product.currency
        env.now)
    >>= continue_or create_pending_order_failed none (open_intent env product))

unfoldable pub with_intent : Outside → Product → Subscription → Option Order → M Outcome
unfolding create_intent
with_intent env product sub none = create_intent env product sub
with_intent env product sub (some o) =
    if is_expired o.status
    then create_intent env product sub
    else (if is_pending o.status
        then open_intent env product o
        else refuse payment_already_in_progress (some o))

unfoldable pub with_payer : Outside → Product → Subscription → M Outcome
unfolding with_intent
with_payer env product sub =
    attempt (find_pending_payment_order sub.id product.id env.now)
    >>= continue_or find_pending_order_failed none (with_intent env product sub)

-- A payer without an active subscription gets one, for a product that can be bought.
unfoldable pub resolve_payer : Outside → ℤ → String → Product → Result Subscription → M Outcome
unfolding with_payer
resolve_payer env telegram username product (err subscription_not_found) =
    if_sellable product none (
      if env.has_sub_service
      then (attempt (env.get_or_create_subscription telegram username)
          >>= continue_or create_subscription_failed none (with_payer env product))
      else alarm subscription_service_not_ready service_not_configured none)
resolve_payer env telegram username product (err e) = alarm load_subscription_failed e none
resolve_payer env telegram username product (ok sub) = with_payer env product sub

-- Telegram Stars have a checkout of their own.
unfoldable pub with_canonical : Outside → ℤ → String → Product → M Outcome
unfolding resolve_payer
with_canonical env telegram username product =
    if str_eq product.currency "XTR"
    then refuse payment_disabled none
    else attempt (get_by_telegram_id telegram) >>= resolve_payer env telegram username product

-- `requestPayment`.
unfoldable pub request_payment : Outside → ℤ → String → ℕ → M Outcome
unfolding with_canonical
request_payment env telegram username product =
    if not env.payment_enabled
    then refuse payment_disabled none
    else (if not (ltb_ℤ (pos 0) telegram) || product == 0
        then refuse invalid_request none
        else (attempt (get_product_by_id product)
            >>= continue_or load_product_failed none (with_canonical env telegram username)))
