-- ===== src/Terms/Tests.antt =====
-- A month's subscription on a plan: renewed, ended, and reminded of its end.
use vn_bot.Base.{
  arith, ℕ, ◌+◌, ◌*◌, ◌≤◌, ◌<◌, ◌≡◌, ◌≢◌, refl, Bool, true, false, List, Option, none, some, [],
  ◌∷◌, pos, find,
}
use Prim.Native.Nat.{max}
use vn_bot.Store.{Subscription, SubscriptionStatus, World, M, ok, calm, query, update, transaction}
use vn_bot.Orders.Rows.{subscription_by_id, update_subscriptions}
use vn_bot.Terms.Expiring.{journal_aside, expire_subscription_with_plan_cas}
use vn_bot.Terms.Renewal.{extended_row, renew_subscription, subscription_renewal_expiry}
use vn_bot.Terms.Reminders.{Window, claim_reminder, send_expiry_reminder}
use vn_bot.Terms.Once.{ReminderCall, run_reminders, reminder_sent_once}
use vn_bot.Terms.Promises.{renewal_term, renewal_not_undone}
use vn_bot.Terms.Ends.{expire_decides}

abbrev member : Subscription
member = record {
  id = 1;
  telegram_id = pos 5;
  subscription_id = "s1";
  expires_at = some 1000;
  status = SubscriptionStatus.active;
  plan_id = 2;
  product_id = some 3;
  started_at = some 10;
  price_paid_cents = pos 500;
  currency = some "RUB";
  created_at = 10;
  reminders_sent = 1;
  provider_source_id = none;
}

abbrev world : World
world = record {
  tables = record {
    orders = [];
    subscriptions = member ∷ [];
    products = [];
    plans = record { id = 2; name = "pro"; is_active = true; subscription_builder_id = none } ∷ [];
    journal = [];
    next_order = 1;
  };
  faults = [];
  alerts = [];
  calls = [];
  invalidated = [];
}

abbrev no_source : ℕ → Option Bool
no_source _ = none

abbrev renewal : M Subscription
renewal = renew_subscription no_source (subscription_by_id 1) 30 900

renewal_result : (renewal world).0 ≡ ok (extended_row (1000 + 30 * 86400) member)
unfolding renew_subscription transaction update_subscriptions update query
    subscription_renewal_expiry journal_aside
renewal_result = refl

renewal_term_example :
    (s : Subscription) × (ends : ℕ) × (find (subscription_by_id 1) world.tables.subscriptions
      ≡ some s)
    × (s.expires_at ≡ some ends)
    × (1 ≤ 30)
    × (30 ≤ 3650)
    × (1 ≡ s.id)
    × (some (1000 + 30 * 86400) ≡ some (max 900 ends + 30 * 86400))
    × (max 900 ends + 30 * 86400 < 253402300800)
renewal_term_example =
    renewal_term no_source (subscription_by_id 1) 30 900 world
      {r = extended_row (1000 + 30 * 86400) member} renewal_result

-- The scan at 1001 had listed the term that ended at 1000.
renewal_not_undone_example :
    (expire_subscription_with_plan_cas 1 9 1001 (renewal world).1).1.tables.subscriptions
    ≡ (renewal world).1.tables.subscriptions
renewal_not_undone_example =
    renewal_not_undone no_source (subscription_by_id 1) 30 900 world
      {r = extended_row (1000 + 30 * 86400) member} 9 1001 renewal_result refl

expire_decides_example :
    let (r, w') = expire_subscription_with_plan_cas 1 9 1000 (calm world) in
    (r ≡ ok tt)
    × (find (subscription_by_id 1) w'.tables.subscriptions
        ≡ some (record member {
          plan_id = 9;
          expires_at = none;
          product_id = none;
          started_at = none;
          price_paid_cents = pos 0;
          currency = none;
        }))
    × (find (subscription_by_id 2) w'.tables.subscriptions
        ≡ find (subscription_by_id 2) world.tables.subscriptions)
expire_decides_example = expire_decides 1 9 1000 1000 2 world refl refl refl two_is_not_one
  where
    two_is_not_one : ◌≢◌ {A = ℕ} 2 1
    two_is_not_one e = omega (arith, e)

-- The reminder of the day before goes out; that of three hours before does not, and its bit is cleared.
abbrev reminder_calls : List ReminderCall
reminder_calls =
    record { sub = member; window = Window.three_hours; bot = some false }
    ∷ record { sub = member; window = Window.one_day; bot = some false }
    ∷ []

reminder_goes_out : (send_expiry_reminder member Window.one_day (some true) world).0 ≡ ok true
unfolding send_expiry_reminder claim_reminder update_subscriptions update query
reminder_goes_out = refl

reminder_of_three_days_is_out :
    (send_expiry_reminder member Window.three_days (some true) world).0 ≡ ok false
unfolding send_expiry_reminder claim_reminder update_subscriptions update query
reminder_of_three_days_is_out = refl

reminder_sent_once_example :
    (send_expiry_reminder member Window.one_day (some true) (
      run_reminders reminder_calls
        (send_expiry_reminder member Window.one_day (some true) world).1)).0
    ≢ ok true
reminder_sent_once_example =
    reminder_sent_once member member Window.one_day (some true) (some true) reminder_calls world
      reminder_goes_out refl refl
