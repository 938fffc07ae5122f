-- ===== src/Payments/Follows/Fees.antt =====
-- internal/service/order.go: the fee worker follows the diagram of Orders.Diagram.
use vn_bot.Base.{ℕ, zero, suc, String, Option, none, some, List, [], ◌∷◌, ℤ, str_eq}
use vn_bot.Store.{Order, Error}
use vn_bot.Orders.Rows.{get_paid_orders_without_provider_fee_after_id}
use vn_bot.Orders.Follow.{FollowsM, asked, done, raised, chained, branched}
use vn_bot.Orders.Follow.Intent.{save_order_payment_amounts-Follows}
use vn_bot.Payments.Outside.{
  Outside, StatusReply, unknown_transaction, unavailable, no_status, reported,
}
use vn_bot.Payments.Fees.{
  save_fee, persist_reply, persist_provider_fee, callback_amount, sync_order, add_error, sync_page,
  last_id, no_orders, sync_pages, sync_provider_fees,
}
use vn_bot.Payments.Follows.{attempted}

fee_saved : (id : ℕ) (callback : ℤ) (fee : Option ℕ) → FollowsM (save_fee id callback fee)
unfolding save_fee
fee_saved id callback none = raised _
fee_saved id callback (some fee) = save_order_payment_amounts-Follows id callback _

fee_answered : (id : ℕ) (callback : ℤ) (r : StatusReply) → FollowsM (persist_reply id callback r)
unfolding persist_reply
fee_answered id callback unknown_transaction = save_order_payment_amounts-Follows id callback _
fee_answered id callback unavailable = raised _
fee_answered id callback no_status = raised _
fee_answered id callback (reported status commission) =
    branched (str_eq status "CONFIRMED") (fee_saved id callback _) (done tt)

order_synced :
    (env : Outside) (o : Order) (payment : Option String) → FollowsM (sync_order env o payment)
unfolding sync_order persist_provider_fee
order_synced env o none = raised _
order_synced env o (some payment) =
    fee_answered o.id (callback_amount o) (env.transaction_status payment)

page_synced :
    (env : Outside) (orders : List Order) (errs : List Error) → FollowsM (sync_page env orders errs)
unfolding sync_page
page_synced env [] errs = done errs
page_synced env (o ∷ orders) errs =
    chained (attempted (order_synced env o _)) (λ r. page_synced env orders (add_error errs r))

pages_synced :
    (env : Outside) (fuel size after : ℕ) (errs : List Error)
    → FollowsM (sync_pages env fuel size after errs)
unfolding sync_pages get_paid_orders_without_provider_fee_after_id
pages_synced env zero size after errs = raised _
pages_synced env (suc fuel) size after errs = chained (asked _) (λ page.
    branched (no_orders page) (done errs) (
      chained (page_synced env page errs)
        (λ errs'. pages_synced env fuel size (last_id after page) errs')))

pub sync_provider_fees-Follows :
    (env : Outside) (fuel limit : ℕ) → FollowsM (sync_provider_fees env fuel limit)
unfolding sync_provider_fees
sync_provider_fees-Follows env fuel limit =
    branched env.payment_enabled (pages_synced env fuel _ 0 []) (done [])
