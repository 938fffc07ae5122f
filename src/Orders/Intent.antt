-- ===== src/Orders/Intent.antt =====
-- internal/database/orders.go: payment intents. An intent is a pending Platega order; the partial
-- unique index of migration 034 admits one for each subscription and product.
pub mod Total
use vn_bot.Base.{
  ℕ, ◌+◌, String, Bool, true, false, not, ◌&&◌, Option, none, some, [], ◌∷◌, ◌++◌, List, ℤ, ◌==◌,
  ltb, if◌then◌else◌, str_eq, find, any,
}
use vn_bot.Store.{
  Order, OrderStatus, Tables, is_pending, M, Error, pure, raise, ◌>>=◌, ◌>>◌, catch, query, update,
  transaction, require, order_not_found, unique_violation, reload_failed,
}
use vn_bot.Orders.Rows.{order_by_id, update_orders}

abbrev pub is_intent : ℕ → ℕ → Order → Bool
is_intent subscription product o =
    o.subscription_id == subscription
    && o.product_id == product
    && str_eq o.payment_provider "platega"
    && is_pending o.status

-- `PaymentExpiresAt != nil && !now.Before(*PaymentExpiresAt)`.
abbrev pub past_deadline : Option ℕ → ℕ → Bool
past_deadline none now = false
past_deadline (some deadline) now = not (ltb now deadline)

abbrev pub set_status : OrderStatus → Order → Order
set_status s o = record o { status = s }

-- `FindPendingPaymentOrder` behind its lookup: an intent past its deadline is expired, unless its
-- provider request is uncertain; after a lost race the current row is returned.
unfoldable pub settle_intent : ℕ → Option Order → M (Option Order)
settle_intent now none = pure none
settle_intent now (some o) =
    if not o.payment_creation_uncertain && past_deadline o.payment_expires_at now
    then (update_orders
          (λ r. r.id == o.id && is_pending r.status && not r.payment_creation_uncertain)
          (set_status OrderStatus.expired)
        >>= λ changed.
            if changed == 1
            then pure (some (set_status OrderStatus.expired o))
            else (query (λ t. find (order_by_id o.id) t.orders) >>= λ current.
                require current reload_failed >>= λ row. pure (some row)))
    else pure (some o)

-- `FindPendingPaymentOrder`.
unfoldable pub find_pending_payment_order : ℕ → ℕ → ℕ → M (Option Order)
unfolding settle_intent
find_pending_payment_order subscription product now =
    query (λ t. find (is_intent subscription product) t.orders) >>= settle_intent now

-- The row that `FindOrCreatePendingPaymentOrder` creates; the database assigns its id.
abbrev pub new_intent : ℕ → ℕ → ℤ → String → ℕ → Order
new_intent subscription product amount currency now = record {
  id = 0;
  subscription_id = subscription;
  product_id = product;
  status = OrderStatus.pending;
  amount_cents = amount;
  callback_amount_cents = none;
  provider_fee_cents = none;
  currency = currency;
  payment_provider = "platega";
  provider_payment_id = "";
  created_at = now;
  paid_at = none;
  activated_at = none;
  expires_at = none;
  payment_url = "";
  payment_expires_at = none;
  payment_creation_uncertain = false;
}

-- `INSERT INTO orders`, refused where the unique index already has the intent.
unfoldable pub add_row : Order → Tables → Option Order × Tables
add_row o t = if any (is_intent o.subscription_id o.product_id) t.orders then (none, t) else (
  some (record o { id = t.next_order }),
  record t {
    orders = t.orders ++ record o { id = t.next_order } ∷ [];
    next_order = t.next_order + 1;
  },
)

unfoldable pub insert_order : Order → M Order
unfolding add_row
insert_order o = update (add_row o) >>= λ row. require row unique_violation

-- The body of the transaction in `FindOrCreatePendingPaymentOrder`, behind its lookup.
unfoldable pub reuse_or_create : Order → ℕ → Option Order → M Order
unfolding insert_order
reuse_or_create fresh now none = insert_order fresh
reuse_or_create fresh now (some o) =
    if o.payment_creation_uncertain
    then pure o
    else (if past_deadline o.payment_expires_at now
        then (update_orders (λ r. r.id == o.id && is_pending r.status)
              (set_status OrderStatus.expired)
            >> insert_order fresh)
        else pure o)

-- A violated unique index means that another creator won: its row is read.
unfoldable pub read_winner : ℕ → ℕ → Error → M Order
read_winner subscription product unique_violation =
    query (λ t. find (is_intent subscription product) t.orders) >>= λ row. require row reload_failed
read_winner subscription product e = raise e

-- `FindOrCreatePendingPaymentOrder`.
unfoldable pub find_or_create_pending_payment_order : ℕ → ℕ → ℤ → String → ℕ → M Order
unfolding reuse_or_create read_winner
find_or_create_pending_payment_order subscription product amount currency now =
    catch
      (transaction (
        query (λ t. find (is_intent subscription product) t.orders)
        >>= reuse_or_create (new_intent subscription product amount currency now) now))
      (read_winner subscription product)

-- `MarkPaymentCreationUncertain`: the condition of its update.
abbrev pub may_mark : ℕ → Bool → Order → Bool
may_mark id true o =
    o.id == id
    && is_pending o.status
    && not o.payment_creation_uncertain
    && str_eq o.provider_payment_id ""
may_mark id false o = o.id == id && is_pending o.status && o.payment_creation_uncertain

unfoldable pub mark_payment_creation_uncertain : ℕ → Bool → M Bool
mark_payment_creation_uncertain id uncertain = do
  changed ←
      update_orders (may_mark id uncertain)
        (λ o. record o { payment_creation_uncertain = uncertain })
  pure (changed == 1)

-- The unique index on provider and provider payment id.
unfoldable pub payment_id_taken : ℕ → String → List Order → Bool
payment_id_taken id payment orders =
    any
      (λ o.
        o.id == id
        && is_pending o.status
        && any
            (λ q.
              not (q.id == id)
              && str_eq q.payment_provider o.payment_provider
              && str_eq q.provider_payment_id payment)
            orders)
      orders

abbrev pub with_details : String → String → ℕ → Order → Order
with_details payment url deadline o = record o {
  provider_payment_id = payment;
  payment_url = url;
  payment_expires_at = some deadline;
  payment_creation_uncertain = false;
}

-- `SavePaymentDetails`.
unfoldable pub save_payment_details : ℕ → String → String → ℕ → M (Unit {0})
unfolding payment_id_taken
save_payment_details id payment url deadline = do
  taken ← query (λ t. payment_id_taken id payment t.orders)
  changed ←
      if taken
      then raise unique_violation
      else update_orders (λ o. o.id == id && is_pending o.status)
          (with_details payment url deadline)
  if changed == 0 then raise order_not_found else pure tt
