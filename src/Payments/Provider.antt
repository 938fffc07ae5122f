-- ===== src/Payments/Provider.antt =====
-- internal/service/order.go: `requestPayment` behind the claim of the intent, and `ParseExpiresIn` of
-- internal/service/payment/platega/client.go. The provider is called exactly here.
use vn_bot.Base.{
  ℕ, zero, suc, ◌+◌, String, Bool, true, false, Option, none, some, if◌then◌else◌, str_eq,
}
use vn_bot.Store.{
  Order, Product, M, ProviderCall, ◌>>=◌, ◌>>◌, attempt, notify, record_call, provider_rejected,
  provider_failed, payment_already_in_progress, pure, claim_payment_creation_failed,
  reload_pending_order_failed, provider_create_rejected, clear_payment_uncertainty_failed,
  provider_create_uncertain, provider_empty_response, provider_invalid_transaction_id,
  provider_incomplete_response, payment_details_save_failed,
}
use vn_bot.Orders.Rows.{get_order_by_id}
use vn_bot.Orders.Intent.{mark_payment_creation_uncertain, save_payment_details, with_details}
use vn_bot.Payments.Outside.{Outside, Transaction, CreateReply, refused, failed, empty, created}
use vn_bot.Payments.Request.{Outcome, refuse, link, alarm, continue_or, has_valid_link, reuse_link}

-- `ParseExpiresIn`, in seconds, with none for an error.
abbrev pub positive_seconds : Option ℕ → Option ℕ
positive_seconds none = none
positive_seconds (some zero) = none
positive_seconds (some (suc n)) = some (suc n)

unfoldable pub parse_expires_in : Outside → String → Option ℕ
parse_expires_in env raw =
    if str_eq (env.trim raw) "" then none else positive_seconds (env.clock_seconds (env.trim raw))

-- The URL of the answer, or else its redirect.
abbrev pub payment_url : Outside → Transaction → String
payment_url env t = if str_eq (env.trim t.url) "" then env.trim t.redirect else env.trim t.url

unfoldable pub save_link : Order → String → String → ℕ → M Outcome
save_link o payment url deadline =
    attempt (save_payment_details o.id payment url deadline)
    >>= continue_or payment_details_save_failed (some o)
        (λ _. link payment url deadline (with_details payment url deadline o))

unfoldable pub with_expiry : Outside → Order → String → String → Option ℕ → M Outcome
unfolding save_link
with_expiry env o payment url none = alarm provider_incomplete_response provider_failed (some o)
with_expiry env o payment url (some seconds) = save_link o payment url (env.answered_at + seconds)

unfoldable pub with_transaction_id : Outside → Order → Transaction → Option String → M Outcome
unfolding with_expiry
with_transaction_id env o t none = alarm provider_invalid_transaction_id provider_failed (some o)
with_transaction_id env o t (some payment) =
    if str_eq (payment_url env t) ""
    then alarm provider_incomplete_response provider_failed (some o)
    else with_expiry env o payment (payment_url env t) (parse_expires_in env t.expires_in)

-- A refused request never reached the payer, so the claim is given back; after any other failure
-- the intent stays uncertain.
unfoldable pub after_call : Outside → Order → CreateReply → M Outcome
unfolding with_transaction_id
after_call env o refused =
    notify provider_create_rejected
    >> (attempt (mark_payment_creation_uncertain o.id false)
        >>= continue_or clear_payment_uncertainty_failed (some o)
            (λ _. refuse provider_rejected (some o)))
after_call env o failed = alarm provider_create_uncertain provider_failed (some o)
after_call env o empty = alarm provider_empty_response provider_failed (some o)
after_call env o (created t) = with_transaction_id env o t (env.uuid_v4 (env.trim t.transaction_id))

abbrev pub provider_call : Product → Order → ProviderCall
provider_call product o = record {
  order_id = o.id;
  amount_cents = product.price_cents;
  currency = product.currency;
}

unfoldable pub call_provider : Outside → Product → Order → M Outcome
unfolding after_call
call_provider env product o =
    record_call (provider_call product o)
    >> after_call env o (env.create_transaction (provider_call product o))

-- Another request has claimed the intent.
unfoldable pub lost_claim : Outside → Order → M Outcome
lost_claim env latest =
    if latest.payment_creation_uncertain
    then refuse payment_already_in_progress (some latest)
    else (if has_valid_link env latest
        then reuse_link env (pure tt) latest
        else refuse payment_already_in_progress (some latest))

-- Whether this request has won the claim decides who calls the provider.
unfoldable pub after_claim : Outside → Product → Order → Bool → M Outcome
unfolding call_provider lost_claim
after_claim env product o claimed =
    if claimed
    then call_provider env product o
    else (attempt (get_order_by_id o.id)
        >>= continue_or reload_pending_order_failed (some o) (lost_claim env))

-- The claim of the intent, which one request of several wins.
unfoldable pub claim_and_call : Outside → Product → Order → M Outcome
unfolding after_claim
claim_and_call env product o =
    attempt (mark_payment_creation_uncertain o.id true)
    >>= continue_or claim_payment_creation_failed (some o) (after_claim env product o)
