-- ===== src/Orders/Chargeback.antt =====
-- internal/database/orders.go: `CancelPaidOrderAndDowngradeCAS` and `CancelOrderCAS`.
pub mod Decision
use vn_bot.Base.{
  ℕ, String, Bool, true, false, ◌&&◌, Option, none, some, List, pos, ◌==◌, ltb, if◌then◌else◌, find,
  count, any,
}
use vn_bot.Store.{
  Order, OrderStatus, Subscription, SubscriptionStatus, is_pending, is_paid, is_expired,
  is_canceled, is_active, M, pure, raise, ◌>>=◌, ◌>>◌, catch, query, transaction, require,
  subscription_not_found, order_not_found,
}
use vn_bot.Orders.Rows.{
  order_by_id, subscription_by_id, by_provider_payment, update_orders, update_subscriptions,
}
use vn_bot.Orders.Intent.{set_status}
use vn_bot.Orders.Journal.{record_order_canceled_journal, record_chargeback_journal}

pub record ChargebackResult : Type 0 where
  pub order : Order
  pub was_paid : Bool
  pub transitioned : Bool
  pub downgraded : Bool

abbrev pub same_status : OrderStatus → OrderStatus → Bool
same_status OrderStatus.pending s = is_pending s
same_status OrderStatus.paid s = is_paid s
same_status OrderStatus.expired s = is_expired s
same_status OrderStatus.canceled s = is_canceled s

-- `expires_at IS NULL OR expires_at > now`.
abbrev pub is_current : Option ℕ → ℕ → Bool
is_current none now = true
is_current (some e) now = ltb now e

-- The orders that still pay for the subscription.
abbrev pub covers : ℕ → ℕ → Order → Bool
covers subscription now o =
    o.subscription_id == subscription && is_paid o.status && is_current o.expires_at now

-- The subscription row of the free plan.
abbrev pub downgraded_row : ℕ → Subscription → Subscription
downgraded_row free_plan s = record s {
  status = SubscriptionStatus.active;
  expires_at = none;
  plan_id = free_plan;
  product_id = none;
  started_at = none;
  price_paid_cents = pos 0;
  currency = none;
}

abbrev pub chargeback_result : Order → Bool → Bool → Bool → ChargebackResult
chargeback_result o was_paid transitioned downgraded = record {
  order = o;
  was_paid = was_paid;
  transitioned = transitioned;
  downgraded = downgraded;
}

-- The decision on access, with the number of orders that still cover the subscription.
unfoldable pub downgrade_unless_covered : Order → ℕ → ℕ → M ChargebackResult
downgrade_unless_covered o free_plan covering =
    if ltb 0 covering
    then record_chargeback_journal o.id >> pure (chargeback_result o true true false)
    else (update_subscriptions (subscription_by_id o.subscription_id) (downgraded_row free_plan)
        >>= λ written.
            if written == 0
            then raise subscription_not_found
            else (record_chargeback_journal o.id >> pure (chargeback_result o true true true)))

-- Behind the update of the order, with the number of rows that it changed.
unfoldable pub after_cancel : Order → Subscription → ℕ → ℕ → ℕ → M ChargebackResult
unfolding downgrade_unless_covered
after_cancel o current now free_plan changed =
    if changed == 0
    then pure (chargeback_result o (is_paid o.status) false false)
    else (if is_paid o.status
        then (if is_active current.status
            then (query (λ t. count (covers o.subscription_id now) t.orders)
                >>= downgrade_unless_covered (set_status OrderStatus.canceled o) free_plan)
            else (record_chargeback_journal o.id
                >> pure (chargeback_result (set_status OrderStatus.canceled o) true true false)))
        else (record_order_canceled_journal o.id
            >> pure (chargeback_result (set_status OrderStatus.canceled o) false true false)))

-- Behind the lock of the subscription and the second read of the order.
unfoldable pub cancel_row : Subscription → ℕ → ℕ → Order → M ChargebackResult
unfolding after_cancel
cancel_row current now free_plan o =
    let from = (if is_paid o.status then OrderStatus.paid else OrderStatus.pending) in
    update_orders (λ r. r.id == o.id && same_status from r.status) (set_status OrderStatus.canceled)
    >>= after_cancel o current now free_plan

unfoldable pub charge_back : ℕ → ℕ → Option Order → M (Option ChargebackResult)
unfolding cancel_row
charge_back now free_plan none = pure none
charge_back now free_plan (some o) = do
  found ← query (λ t. find (subscription_by_id o.subscription_id) t.subscriptions)
  current ← require found subscription_not_found
  again ← query (λ t. find (order_by_id o.id) t.orders)
  row ← require again order_not_found
  result ← cancel_row current now free_plan row
  pure (some result)

-- `CancelPaidOrderAndDowngradeCAS`.
unfoldable pub cancel_paid_order_and_downgrade_cas :
    String → String → ℕ → ℕ → M (Option ChargebackResult)
unfolding charge_back
cancel_paid_order_and_downgrade_cas provider payment now free_plan = transaction (
    query (λ t. find (by_provider_payment provider payment) t.orders) >>= charge_back now free_plan)

-- The journal row of a canceled order, if the order and its subscription can be read.
unfoldable pub journal_canceled : Option Order → M (Unit {0})
journal_canceled none = pure tt
journal_canceled (some o) =
    catch
      (query (λ t. find (subscription_by_id o.subscription_id) t.subscriptions) >>= λ found.
        require found subscription_not_found >> record_order_canceled_journal o.id)
      (λ _. pure tt)

-- `CancelOrderCAS`.
unfoldable pub cancel_order_cas : String → String → List OrderStatus → M Bool
unfolding journal_canceled
cancel_order_cas provider payment from = transaction (
    update_orders
      (λ o. by_provider_payment provider payment o && any (λ s. same_status s o.status) from)
      (set_status OrderStatus.canceled)
    >>= λ changed.
        if ltb 0 changed
        then (catch
              (query (λ t. find (by_provider_payment provider payment) t.orders)
                >>= journal_canceled)
              (λ _. pure tt)
            >> pure true)
        else pure false)
