-- ===== src/Orders/Confirm.antt =====
-- internal/database/orders.go: `ConfirmOrderPaidCAS`. The order and the subscription change in one
-- transaction, from the subscription row that the transaction has locked.
use vn_bot.Base.{ℕ, Bool, true, false, ◌&&◌, ◌||◌, some, ℤ, ◌==◌, if◌then◌else◌, find}
use vn_bot.Store.{
  Order, OrderStatus, Subscription, SubscriptionStatus, Product, is_pending, is_expired, M, pure,
  raise, ◌>>=◌, ◌>>◌, query, transaction, require, subscription_not_found,
}
use vn_bot.Orders.Rows.{subscription_by_id, update_orders, update_subscriptions}
use vn_bot.Orders.Expiry.{calculate_payment_expiry}
use vn_bot.Orders.Journal.{record_payment_journal}

-- The condition of the compare-and-swap.
abbrev pub may_confirm : ℕ → Order → Bool
may_confirm id o = o.id == id && (is_pending o.status || is_expired o.status)

abbrev pub confirmed : ℕ → ℕ → ℕ → ℤ → Order → Order
confirmed paid_at activated_at expiry amount o = record o {
  status = OrderStatus.paid;
  paid_at = some paid_at;
  activated_at = some activated_at;
  expires_at = some expiry;
  callback_amount_cents = some amount;
}

-- What a payment writes to the subscription row.
abbrev pub entitled : Product → ℕ → ℕ → Subscription → Subscription
entitled product activated_at expiry s = record s {
  plan_id = product.plan_id;
  status = SubscriptionStatus.active;
  expires_at = some expiry;
  product_id = some product.id;
  started_at = some activated_at;
  price_paid_cents = product.price_cents;
  currency = some product.currency;
  reminders_sent = 0;
}

-- What the caller's copy of the subscription shows afterwards.
abbrev pub mirrored : Product → ℕ → Subscription → Subscription
mirrored product expiry s = record s {
  plan_id = product.plan_id;
  status = SubscriptionStatus.active;
  product_id = some product.id;
  expires_at = some expiry;
}

-- The transaction behind the compare-and-swap, with the number of orders that it changed.
unfoldable pub grant :
    ℕ → ℕ → Subscription → Subscription → Product → ℕ → ℕ → M (Bool × Subscription)
grant id activated_at current sub product expiry swapped =
    if swapped == 0
    then pure (false, sub)
    else (update_subscriptions (subscription_by_id sub.id) (entitled product activated_at expiry)
        >>= λ written.
            if written == 0
            then raise subscription_not_found
            else (record_payment_journal id current product
                >> pure (true, mirrored product expiry sub)))

-- The body of the transaction behind the subscription's lock.
unfoldable pub confirm_with :
    ℕ → ℕ → ℕ → Subscription → Product → ℤ → Subscription → M (Bool × Subscription)
unfolding grant
confirm_with id paid_at activated_at sub product amount current =
    let expiry = calculate_payment_expiry activated_at (some current) (some product) in
    update_orders (may_confirm id) (confirmed paid_at activated_at expiry amount)
    >>= grant id activated_at current sub product expiry

-- `ConfirmOrderPaidCAS`: whether this call activated the order, and the caller's subscription.
unfoldable pub confirm_order_paid_cas :
    ℕ → ℕ → ℕ → Subscription → Product → ℤ → M (Bool × Subscription)
unfolding confirm_with
confirm_order_paid_cas id paid_at activated_at sub product amount = transaction (
    query (λ t. find (subscription_by_id sub.id) t.subscriptions) >>= λ found.
    require found subscription_not_found
    >>= confirm_with id paid_at activated_at sub product amount)
