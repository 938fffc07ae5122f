-- ===== src/Payments/Fees.antt =====
-- internal/service/order.go: `persistProviderFee` and `SyncProviderFees`, the worker that asks for
-- the provider's fee of paid orders. The time budget of a pass is not modelled: no pass is cut off.
use vn_bot.Base.{
  ℕ, zero, suc, String, Bool, true, false, Option, none, some, List, [], ◌∷◌, ◌++◌, ℤ, pos, ◌==◌,
  if◌then◌else◌, str_eq,
}
use vn_bot.Store.{
  Order, M, Result, ok, err, Error, pure, raise, ◌>>=◌, attempt, invalid_commission,
  provider_failed, invalid_provider_id, budget_exhausted,
}
use vn_bot.Money.Commission.{commission_cents}
use vn_bot.Orders.Rows.{get_paid_orders_without_provider_fee_after_id, save_order_payment_amounts}
use vn_bot.Payments.Outside.{
  Outside, StatusReply, unknown_transaction, unavailable, no_status, reported,
}

unfoldable pub save_fee : ℕ → ℤ → Option ℕ → M (Unit {0})
save_fee id callback none = raise invalid_commission
save_fee id callback (some fee) = save_order_payment_amounts id callback (some (pos fee))

-- `persistProviderFee` behind the provider's answer: a transaction that the provider no longer has
-- is recorded as a fee of 0, which takes the order out of the queue.
unfoldable pub persist_reply : ℕ → ℤ → StatusReply → M (Unit {0})
unfolding save_fee
persist_reply id callback unknown_transaction =
    save_order_payment_amounts id callback (some (pos 0))
persist_reply id callback unavailable = raise provider_failed
persist_reply id callback no_status = raise provider_failed
persist_reply id callback (reported status commission) =
    if str_eq status "CONFIRMED"
    then save_fee id callback (commission_cents commission)
    else pure tt

unfoldable pub persist_provider_fee : Outside → ℕ → String → ℤ → M (Unit {0})
unfolding persist_reply
persist_provider_fee env id payment callback =
    persist_reply id callback (env.transaction_status payment)

abbrev pub callback_amount : Order → ℤ
callback_amount o = elim o.callback_amount_cents [ none ↦ o.amount_cents | some a ↦ a ]

unfoldable pub sync_order : Outside → Order → Option String → M (Unit {0})
unfolding persist_provider_fee
sync_order env o none = raise invalid_provider_id
sync_order env o (some payment) = persist_provider_fee env o.id payment (callback_amount o)

abbrev pub add_error : {A : Type 0} → List Error → Result A → List Error
add_error errs (ok a) = errs
add_error errs (err e) = errs ++ e ∷ []

-- One page: the failure of an order is noted and the next one is tried.
unfoldable pub sync_page : Outside → List Order → List Error → M (List Error)
unfolding sync_order
sync_page env [] errs = pure errs
sync_page env (o ∷ orders) errs =
    attempt (sync_order env o (env.uuid_v4 (env.trim o.provider_payment_id))) >>= λ r.
    sync_page env orders (add_error errs r)

abbrev pub last_id : ℕ → List Order → ℕ
last_id after [] = after
last_id after (o ∷ orders) = last_id o.id orders

abbrev pub no_orders : List Order → Bool
no_orders [] = true
no_orders (o ∷ orders) = false

-- The loop over the pages, on fuel: one page for each order is enough.
unfoldable pub sync_pages : Outside → ℕ → ℕ → ℕ → List Error → M (List Error)
unfolding sync_page
sync_pages env zero size after errs = raise budget_exhausted
sync_pages env (suc fuel) size after errs =
    get_paid_orders_without_provider_fee_after_id after size >>= λ page.
    if no_orders page
    then pure errs
    else (sync_page env page errs >>= λ errs'. sync_pages env fuel size (last_id after page) errs')

-- `SyncProviderFees`, with the errors that it joins; a page size that is not positive is 50.
unfoldable pub sync_provider_fees : Outside → ℕ → ℕ → M (List Error)
unfolding sync_pages
sync_provider_fees env fuel limit =
    if env.payment_enabled
    then sync_pages env fuel (if limit == 0 then 50 else limit) 0 []
    else pure []
