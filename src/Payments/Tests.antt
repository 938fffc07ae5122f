-- ===== src/Payments/Tests.antt =====
-- The theorems on the payment service at a small shop: one subscriber and two orders.
use vn_bot.Base.{
  inl, subst, All, str_eq, ℕ, ◌+◌, ◌≤◌, ◌≡◌, ◌≢◌, refl, String, true, false, none, some, List, [],
  ◌∷◌, pos, arith, length,
}
use vn_bot.Store.{
  Order, OrderStatus, Subscription, SubscriptionStatus, Product, Plan, Tables, World, ok, err, pure,
  raise, calm, subscription_not_found, late_confirmed_callback, pure-Keeps, raise-Keeps,
}
use vn_bot.Money.Text.{Text}
use vn_bot.Orders.Rows.{by_provider_payment}
use vn_bot.Orders.Diagram.{RowsFollow, OneIntent, Follows-preorder}
use vn_bot.Payments.Outside.{Outside, CreateReply, refused, failed, unavailable}
use vn_bot.Payments.Confirm.{confirm_payment, confirmation}
use vn_bot.Payments.Cancel.{cancel_payment_by_provider}
use vn_bot.Payments.Provider.{claim_and_call}
use vn_bot.Payments.History.{
  ServiceCall, request, confirm, cancel, sync, run_history, IsOrderly, order_activated_once,
  run_history-RowsFollow, run_history-OneIntent,
}
use vn_bot.Payments.Decisions.{Refused, misfit-Refused}
use vn_bot.Payments.Late.{late_callback_acknowledged, cancel_spares_settled}
use vn_bot.Payments.Uncertain.{one_call_for_an_intent}

abbrev shop : ℕ → Outside
shop now = record {
  payment_enabled = true;
  has_sub_service = true;
  lock_granted = true;
  now = now;
  answered_at = now;
  create_transaction = λ c. failed;
  transaction_status = λ payment. unavailable;
  trim = λ s. s;
  uuid_v4 = λ s. some "u3";
  clock_seconds = λ s. some 900;
  get_or_create_subscription = λ telegram username. raise subscription_not_found;
}

abbrev month : Product
month = record {
  id = 5;
  plan_id = 2;
  name = "month";
  duration_days = 30;
  price_cents = pos 10000;
  currency = "RUB";
  is_active = true;
}

abbrev subscriber : Subscription
subscriber = record {
  id = 10;
  telegram_id = pos 42;
  subscription_id = "token";
  expires_at = none;
  status = SubscriptionStatus.active;
  plan_id = 1;
  product_id = none;
  started_at = none;
  price_paid_cents = pos 0;
  currency = none;
  created_at = 0;
  reminders_sent = 0;
  provider_source_id = none;
}

abbrev order : ℕ → ℕ → OrderStatus → String → Order
order id product status payment = record {
  id = id;
  subscription_id = 10;
  product_id = product;
  status = status;
  amount_cents = pos 10000;
  callback_amount_cents = none;
  provider_fee_cents = none;
  currency = "RUB";
  payment_provider = "platega";
  provider_payment_id = payment;
  created_at = 0;
  paid_at = none;
  activated_at = none;
  expires_at = none;
  payment_url = "";
  payment_expires_at = none;
  payment_creation_uncertain = false;
}

abbrev shop_world : List Order → World
shop_world orders = record {
  tables = record {
    orders = orders;
    subscriptions = subscriber ∷ [];
    products = month ∷ [];
    plans =
        record { id = 1; name = "free"; is_active = true; subscription_builder_id = some 1 }
        ∷ record { id = 2; name = "paid"; is_active = true; subscription_builder_id = some 2 }
        ∷ [];
    journal = [];
    next_order = 3;
  };
  faults = [];
  alerts = [];
  calls = [];
  invalidated = [];
}

abbrev two_pending : World
two_pending =
    shop_world (order 1 5 OrderStatus.pending "u1" ∷ order 2 5 OrderStatus.expired "u2" ∷ [])

-- 100.00 and 99.99.
abbrev full_price : Text
full_price = b'1' ∷ b'0' ∷ b'0' ∷ b'.' ∷ b'0' ∷ b'0' ∷ []

abbrev low_price : Text
low_price = b'9' ∷ b'9' ∷ b'.' ∷ b'9' ∷ b'9' ∷ []

misfit-Refused_example :
    Refused two_pending.tables (confirm_payment (shop 500) "u1" low_price "RUB" two_pending)
    × Refused two_pending.tables
        (cancel_payment_by_provider (shop 500) "u1" "CHARGEBACKED" low_price "RUB" two_pending)
unfolding vn_bot.Money.Amount.parse_callback_amount vn_bot.Money.Text.trim_space
    vn_bot.Money.Text.contains vn_bot.Money.Text.split vn_bot.Money.Text.parse_int
misfit-Refused_example =
    misfit-Refused (shop 500) "u1" low_price "RUB" two_pending (order 1 5 OrderStatus.pending "u1")
      refl refl "CHARGEBACKED"

-- The order that the first confirmation activates, and the one that the second does.
abbrev activated : Order → ℕ → ℕ → Order
activated o now expiry = record o {
  status = OrderStatus.paid;
  paid_at = some now;
  activated_at = some now;
  expires_at = some expiry;
}

abbrev first_order : Order
first_order = activated (order 1 5 OrderStatus.pending "u1") 500 2592500

abbrev second_order : Order
second_order = activated (order 2 5 OrderStatus.pending "u2") 600 5184500

abbrev both_pending : World
both_pending =
    shop_world (order 1 5 OrderStatus.pending "u1" ∷ order 2 5 OrderStatus.pending "u2" ∷ [])

abbrev repeated : List ServiceCall
repeated = confirm (shop 550) "u1" full_price "RUB" ∷ []

first_confirmed :
    (confirm_payment (shop 500) "u1" full_price "RUB" both_pending).0
    ≡ ok (confirmation (some first_order) true)
unfolding confirm_payment vn_bot.Orders.Rows.get_order_by_provider_payment_id vn_bot.Store.query
    vn_bot.Money.Amount.parse_callback_amount vn_bot.Money.Text.trim_space
    vn_bot.Money.Text.contains vn_bot.Money.Text.split vn_bot.Money.Text.parse_int
    vn_bot.Orders.Rows.get_product_by_id vn_bot.Orders.Rows.get_by_id
    vn_bot.Orders.Confirm.confirm_order_paid_cas vn_bot.Store.transaction
    vn_bot.Orders.Rows.update_orders vn_bot.Store.update vn_bot.Orders.Rows.update_subscriptions
    vn_bot.Orders.Journal.record_payment_journal vn_bot.Orders.Expiry.calculate_payment_expiry
first_confirmed = refl

second_confirmed :
    (confirm_payment
      (shop 600)
      "u2"
      full_price
      "RUB"
      (run_history repeated (confirm_payment (shop 500) "u1" full_price "RUB" both_pending).1)).0
    ≡ ok (confirmation (some second_order) true)
unfolding confirm_payment vn_bot.Orders.Rows.get_order_by_provider_payment_id vn_bot.Store.query
    vn_bot.Money.Amount.parse_callback_amount vn_bot.Money.Text.trim_space
    vn_bot.Money.Text.contains vn_bot.Money.Text.split vn_bot.Money.Text.parse_int
    vn_bot.Orders.Rows.get_product_by_id vn_bot.Orders.Rows.get_by_id
    vn_bot.Orders.Confirm.confirm_order_paid_cas vn_bot.Store.transaction
    vn_bot.Orders.Rows.update_orders vn_bot.Store.update vn_bot.Orders.Rows.update_subscriptions
    vn_bot.Orders.Journal.record_payment_journal vn_bot.Orders.Expiry.calculate_payment_expiry
    run_history
second_confirmed = refl

order_activated_once_example : second_order.id ≢ first_order.id
order_activated_once_example =
    order_activated_once (shop 500) "u1" full_price "RUB" both_pending first_order (omega arith)
      first_confirmed repeated (tt, tt) (shop 600) "u2" full_price "RUB" second_order
      second_confirmed

abbrev busy_day : List ServiceCall
busy_day =
    request (shop 400) (pos 42) "user" 5
    ∷ confirm (shop 500) "u1" full_price "RUB"
    ∷ cancel (shop 600) "u1" "CHARGEBACKED" full_price "RUB"
    ∷ sync (shop 700) 3 10
    ∷ []

busy_day-IsOrderly : All IsOrderly busy_day
busy_day-IsOrderly = (raise-Keeps Follows-preorder subscription_not_found, (tt, (tt, (tt, tt))))

run_history-RowsFollow_example :
    RowsFollow 3 two_pending.tables.orders (run_history busy_day two_pending).tables.orders
run_history-RowsFollow_example = run_history-RowsFollow busy_day two_pending busy_day-IsOrderly

one_pending-OneIntent : OneIntent two_pending.tables.orders
one_pending-OneIntent s p = ground arith

run_history-OneIntent_example : OneIntent (run_history busy_day two_pending).tables.orders
run_history-OneIntent_example =
    run_history-OneIntent busy_day two_pending busy_day-IsOrderly one_pending-OneIntent

late_callback_acknowledged_example :
    let w = shop_world (order 1 5 OrderStatus.canceled "u1" ∷ []) in
    let (r, w') = confirm_payment (shop 500) "u1" full_price "RUB" (calm w) in
    (r ≡ ok (confirmation (some (order 1 5 OrderStatus.canceled "u1")) false))
    × (w'.tables ≡ w.tables)
    × (w'.alerts ≡ late_confirmed_callback ∷ w.alerts)
unfolding vn_bot.Money.Amount.parse_callback_amount vn_bot.Money.Text.trim_space
    vn_bot.Money.Text.contains vn_bot.Money.Text.split vn_bot.Money.Text.parse_int
late_callback_acknowledged_example =
    late_callback_acknowledged (shop 500) "u1" full_price "RUB" (pos 10000)
      (shop_world (order 1 5 OrderStatus.canceled "u1" ∷ [])) (order 1 5 OrderStatus.canceled "u1")
      refl refl refl refl refl refl (inl refl)

-- At 1300, with a deadline at 1000.
abbrev overdue : Order
overdue = record (order 1 5 OrderStatus.expired "u1") { payment_expires_at = some 1000 }

cancel_spares_settled_example :
    let w = shop_world (order 1 5 OrderStatus.paid "u1" ∷ []) in
    let (r, w') = cancel_payment_by_provider (shop 500) "u1" "CANCELED" full_price "RUB" (calm w) in
    (r ≡ ok (none, false)) × (w'.tables ≡ w.tables)
unfolding vn_bot.Money.Amount.parse_callback_amount vn_bot.Money.Text.trim_space
    vn_bot.Money.Text.contains vn_bot.Money.Text.split vn_bot.Money.Text.parse_int
cancel_spares_settled_example =
    cancel_spares_settled (shop 500) "u1" full_price "RUB" (pos 10000)
      (shop_world (order 1 5 OrderStatus.paid "u1" ∷ [])) (order 1 5 OrderStatus.paid "u1") refl
      refl refl refl refl refl refl (omega arith)

not_refused : Path CreateReply failed refused → ⊥
not_refused e = cc e

named_u3 : (s p : String) → some "u3" ≡ some p → str_eq p "" ≡ false
named_u3 s p e = subst (λ q. str_eq q "" ≡ false) (the_id e) refl
  where
    the_id : some "u3" ≡ some p → "u3" ≡ p
    the_id e = cc e

one_call_for_an_intent_example :
    let w = shop_world (order 1 5 OrderStatus.pending "" ∷ []) in
    let w' = (claim_and_call (shop 400) month (order 1 5 OrderStatus.pending "") w).1 in
    length (claim_and_call (shop 500) month (order 1 5 OrderStatus.pending "") w').1.calls
    ≤ length w.calls + 1
one_call_for_an_intent_example =
    one_call_for_an_intent (shop 400) (shop 500) month month (order 1 5 OrderStatus.pending "")
      (shop_world (order 1 5 OrderStatus.pending "" ∷ [])) not_refused named_u3
