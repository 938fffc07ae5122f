-- ===== src/Orders/Rows.antt =====
-- internal/database/orders.go, products.go, plans.go, subscriptions.go: lookups by key, and the
-- conditional updates of the order and subscription tables with the number of rows they changed.
use vn_bot.Base.{
  ℕ, String, Bool, true, false, not, ◌&&◌, ◌||◌, Option, none, some, List, ℤ, ◌==◌, ltb,
  if◌then◌else◌, str_eq, find, filter, take, update_where, count,
}
use vn_bot.Store.{
  Order, Subscription, Product, Plan, is_paid, M, pure, ◌>>=◌, ◌>>◌, query, update, require,
  order_not_found, subscription_not_found, product_not_found, plan_not_found,
}

abbrev pub order_by_id : ℕ → Order → Bool
order_by_id id o = o.id == id

abbrev pub subscription_by_id : ℕ → Subscription → Bool
subscription_by_id id s = s.id == id

abbrev pub by_provider_payment : String → String → Order → Bool
by_provider_payment provider payment o =
    str_eq o.payment_provider provider && str_eq o.provider_payment_id payment

-- `UPDATE orders SET … WHERE …`, with RowsAffected.
unfoldable pub update_orders : (Order → Bool) → (Order → Order) → M ℕ
update_orders p f =
    update (λ t. (count p t.orders, record t { orders = update_where p f t.orders }))

-- `UPDATE subscriptions SET … WHERE …`, with RowsAffected.
unfoldable pub update_subscriptions : (Subscription → Bool) → (Subscription → Subscription) → M ℕ
update_subscriptions p f =
    update (λ t.
      (count p t.subscriptions, record t { subscriptions = update_where p f t.subscriptions }))

-- `GetOrderByID`.
unfoldable pub get_order_by_id : ℕ → M Order
get_order_by_id id = do
  found ← query (λ t. find (order_by_id id) t.orders)
  require found order_not_found

-- `GetOrderByProviderPaymentID`.
unfoldable pub get_order_by_provider_payment_id : String → String → M Order
get_order_by_provider_payment_id provider payment = do
  found ← query (λ t. find (by_provider_payment provider payment) t.orders)
  require found order_not_found

-- `GetProductByID`.
unfoldable pub get_product_by_id : ℕ → M Product
get_product_by_id id = do
  found ← query (λ t. find (λ p. p.id == id) t.products)
  require found product_not_found

-- `GetPlanByID`.
unfoldable pub get_plan_by_id : ℕ → M Plan
get_plan_by_id id = do
  found ← query (λ t. find (λ p. p.id == id) t.plans)
  require found plan_not_found

-- `FreePlanName`.
abbrev pub free_plan_name : String
free_plan_name = "free"

-- `GetPlanByName`: every plan but the free one must be active.
unfoldable pub get_plan_by_name : String → M Plan
get_plan_by_name name = do
  found ←
      query
        (λ t. find (λ p. str_eq p.name name && (str_eq name free_plan_name || p.is_active)) t.plans)
  require found plan_not_found

-- `GetByID`.
unfoldable pub get_by_id : ℕ → M Subscription
get_by_id id = do
  found ← query (λ t. find (subscription_by_id id) t.subscriptions)
  require found subscription_not_found

-- `provider_fee_cents IS NULL` on a paid Platega order with a provider id, past `after_id`.
unfoldable pub awaits_fee : ℕ → Order → Bool
awaits_fee after_id o =
    is_paid o.status
    && str_eq o.payment_provider "platega"
    && not (str_eq o.provider_payment_id "")
    && elim o.provider_fee_cents [ none ↦ true | some _ ↦ false ]
    && (after_id == 0 || ltb after_id o.id)

-- `GetPaidOrdersWithoutProviderFeeAfterID`; a limit of 0 stands for one that is not positive.
unfoldable pub get_paid_orders_without_provider_fee_after_id : ℕ → ℕ → M (List Order)
unfolding awaits_fee
get_paid_orders_without_provider_fee_after_id after_id limit = query (λ t.
    let rows = filter (awaits_fee after_id) t.orders in
    if limit == 0 then rows else take limit rows)

-- `SaveOrderPaymentAmounts`: a nil fee leaves the stored one.
abbrev pub with_amounts : ℤ → Option ℤ → Order → Order
with_amounts amount none o = record o { callback_amount_cents = some amount }
with_amounts amount (some fee) o = record o {
  callback_amount_cents = some amount;
  provider_fee_cents = some fee;
}

unfoldable pub save_order_payment_amounts : ℕ → ℤ → Option ℤ → M (Unit {0})
save_order_payment_amounts id amount fee =
    update_orders (order_by_id id) (with_amounts amount fee) >> pure tt
