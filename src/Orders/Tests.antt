-- ===== src/Orders/Tests.antt =====
-- The theorems on the repository at one subscription with two orders.
use vn_bot.Base.{
  ◌≤◌, ℕ, ◌+◌, ◌*◌, ◌≡◌, ◌⊎◌, refl, Bool, List, String, true, false, none, some, [], ◌∷◌, pos,
  arith, ◌==◌, if◌then◌else◌, find, count, update_where,
}
use vn_bot.Store.{
  Order, OrderStatus, Subscription, SubscriptionStatus, Product, World, M, ok, calm, update, query,
  stmt, transaction,
}
use Prim.Native.Nat.{max}
use vn_bot.Orders.Rows.{subscription_by_id, update_orders, update_subscriptions}
use vn_bot.Orders.Intent.{is_intent, new_intent, set_status, find_or_create_pending_payment_order}
use vn_bot.Orders.Intent.Total.{IsUsable, find_or_create_total}
use vn_bot.Orders.Diagram.{OneIntent}
use vn_bot.Orders.Expiry.{calculate_payment_expiry, day_seconds}
use vn_bot.Orders.Expiry.Laws.{latest, calculate_payment_expiry_lem}
use vn_bot.Orders.TermKept.{Payment, run_payments, paid_term_kept}
use vn_bot.Orders.PaidTerms.{stored_end, payments_add_up}
use vn_bot.Orders.Journal.{record_payment_journal}
use vn_bot.Orders.Confirm.{mirrored, confirm_order_paid_cas}
use vn_bot.Orders.Chargeback.{
  cancel_paid_order_and_downgrade_cas, chargeback_result, downgraded_row,
}
use vn_bot.Orders.Chargeback.Decision.{other_cover, paid_row, charge_back_decides}

abbrev month : Product
month = record {
  id = 5;
  plan_id = 2;
  name = "month";
  duration_days = 30;
  price_cents = pos 10000;
  currency = "RUB";
  is_active = true;
}

abbrev member : Subscription
member = record {
  id = 10;
  telegram_id = pos 42;
  subscription_id = "token";
  expires_at = some 900000;
  status = SubscriptionStatus.active;
  plan_id = 2;
  product_id = some 5;
  started_at = some 100;
  price_paid_cents = pos 10000;
  currency = some "RUB";
  created_at = 0;
  reminders_sent = 0;
  provider_source_id = none;
}

abbrev bought : ℕ → OrderStatus → String → Order
bought id status payment = record {
  id = id;
  subscription_id = 10;
  product_id = 5;
  status = status;
  amount_cents = pos 10000;
  callback_amount_cents = none;
  provider_fee_cents = none;
  currency = "RUB";
  payment_provider = "platega";
  provider_payment_id = payment;
  created_at = 0;
  paid_at = some 100;
  activated_at = some 100;
  expires_at = some 900000;
  payment_url = "";
  payment_expires_at = some 1000;
  payment_creation_uncertain = false;
}

abbrev shop : World
shop = record {
  tables = record {
    orders = bought 1 OrderStatus.paid "u1" ∷ bought 2 OrderStatus.pending "u2" ∷ [];
    subscriptions = member ∷ [];
    products = month ∷ [];
    plans = [];
    journal = [];
    next_order = 3;
  };
  faults = [];
  alerts = [];
  calls = [];
  invalidated = [];
}

charge_back_decides_example :
    let (r, w') = cancel_paid_order_and_downgrade_cas "platega" "u1" 500 1 (calm shop) in
    let o = bought 1 OrderStatus.paid "u1" in
    let uncovered = count (other_cover 1 10 500) shop.tables.orders == 0 in
    (r ≡ ok (some (chargeback_result (set_status OrderStatus.canceled o) true true uncovered)))
    × (w'.tables.orders
        ≡ update_where (paid_row 1) (set_status OrderStatus.canceled) shop.tables.orders)
    × (w'.tables.subscriptions ≡ (
        if uncovered
        then update_where (subscription_by_id 10) (downgraded_row 1) shop.tables.subscriptions
        else shop.tables.subscriptions))
charge_back_decides_example =
    charge_back_decides "platega" "u1" 500 1 shop (bought 1 OrderStatus.paid "u1") member refl refl
      refl refl refl

one_intent : OneIntent shop.tables.orders
one_intent s p = ground arith

find_or_create_total_example :
    (o : Order) × ((find_or_create_pending_payment_order 10 5 (pos 10000) "RUB" 2000 shop).0 ≡ ok o)
    × (is_intent 10 5 o ≡ true)
    × IsUsable 2000 o
    × ((find (is_intent 10 5) shop.tables.orders ≡ some o)
        ⊎ (o ≡ record (new_intent 10 5 (pos 10000) "RUB" 2000) { id = 3 }))
find_or_create_total_example = find_or_create_total 10 5 (pos 10000) "RUB" 2000 shop refl one_intent

calculate_payment_expiry_lem_example :
    calculate_payment_expiry 500 (some member) (some month)
    ≡ (if member.plan_id == month.plan_id then latest 500 member.expires_at else 500)
      + month.duration_days * day_seconds
calculate_payment_expiry_lem_example = calculate_payment_expiry_lem 500 member month

abbrev first_payment : M (Bool × Subscription)
first_payment = confirm_order_paid_cas 1 500 500 member month (pos 10000)

abbrev second_payment : M (Bool × Subscription)
second_payment = confirm_order_paid_cas 2 600 600 member month (pos 10000)

abbrev two_bought : World
two_bought = record shop {
  tables = record shop.tables {
    orders = bought 1 OrderStatus.pending "u1" ∷ bought 2 OrderStatus.pending "u2" ∷ [];
  };
}

both_activate :
    ((first_payment two_bought).0 ≡ ok (true, mirrored month 3492000 member))
    × ((second_payment (first_payment two_bought).1).0 ≡ ok (true, mirrored month 6084000 member))
unfolding confirm_order_paid_cas update_orders update_subscriptions update query stmt transaction
    calculate_payment_expiry record_payment_journal
both_activate = (refl, refl)

payments_add_up_example :
    (e : ℕ) × (stored_end 10 (first_payment two_bought).1 ≡ some e)
    × (e
        ≡ (if member.plan_id == month.plan_id then latest 500 member.expires_at else 500)
          + 30 * 86400)
    × (stored_end 10 (second_payment (first_payment two_bought).1).1
        ≡ some (max 600 e + 30 * 86400))
payments_add_up_example =
    payments_add_up 1 2 500 600 500 600 member member month month (pos 10000) (pos 10000) two_bought
      (first_payment two_bought).1 {o = mirrored month 3492000 member}
      {o' = mirrored month 6084000 member} {s = member} refl both_activate.0 refl refl refl
      both_activate.1

-- Two payments in time, then one for an order that is paid already.
abbrev three_payments : List Payment
three_payments =
    record {
      order_id = 1;
      paid_at = 500;
      activated_at = 500;
      sub = member;
      product = month;
      amount = pos 10000;
    }
    ∷ record {
      order_id = 2;
      paid_at = 600;
      activated_at = 600;
      sub = member;
      product = month;
      amount = pos 10000;
    }
    ∷ record {
      order_id = 1;
      paid_at = 700;
      activated_at = 700;
      sub = member;
      product = month;
      amount = pos 10000;
    }
    ∷ []

paid_term_kept_example :
    (later : ℕ) × (stored_end 10 (run_payments three_payments two_bought) ≡ some later)
    × (900000 ≤ later)
paid_term_kept_example =
    paid_term_kept 10 900000 three_payments two_bought {s = member} refl refl
      (refl, (refl, (refl, tt)))
