-- ===== src/Caches/Tests.antt =====
-- Two users in a cache for two, and a third.
use vn_bot.Base.{
  ◌≤◌, ◌≡◌, refl, String, All, false, none, some, List, [], ◌∷◌, ℤ, pos, arith, if◌then◌else◌,
  str_eq, length,
}
use vn_bot.Base.Maps.{integer_key, text_key, lookup, store, delete}
use vn_bot.Store.{Subscription, SubscriptionStatus}
use vn_bot.Caches.Elements.{
  invalidate, Item, Cache, new_subscription_cache, get, set, invalidate_by_sub_id, touch, new_item,
}
use vn_bot.Caches.Linked.{Linked}
use vn_bot.Caches.Rows.{rows_of, rows}
use vn_bot.Caches.Uses.{
  invalidate_call, invalidate_sub_call, Call, get_call, set_call, run_calls, list_calls, call,
  run_calls-Shows, call-Shows, IsProper, new_subscription_cache-Linked,
}
use vn_bot.Caches.Referrals.{
  Referrals, get as get_count, run_changes, counter, gained, lost, get-run_changes,
}
use vn_bot.Caches.Promises.{run_calls-length, get-set, invalidated_not_returned}

abbrev subscription : String → ℤ → Subscription
subscription x t = record {
  id = 1;
  telegram_id = t;
  subscription_id = x;
  expires_at = none;
  status = SubscriptionStatus.active;
  plan_id = 1;
  product_id = none;
  started_at = none;
  price_paid_cents = pos 0;
  currency = none;
  created_at = 0;
  reminders_sent = 0;
  provider_source_id = none;
}

abbrev nobody : Item
nobody = new_item (pos 0) (subscription "" (pos 0)) 0 0

abbrev new_cache : Cache
new_cache = new_subscription_cache (λ _. nobody) 2 60

abbrev owner : String → ℤ
owner x = if str_eq x "a" then pos 7 else if str_eq x "b" then pos 8 else pos 9

new_cache-Linked : Linked owner new_cache
new_cache-Linked = new_subscription_cache-Linked owner (λ _. nobody) 2 60

-- The third user takes the place of the second, whom nobody has read since.
abbrev traffic : List Call
traffic =
    set_call (pos 7) (some (subscription "a" (pos 7))) 10
    ∷ set_call (pos 8) (some (subscription "b" (pos 8))) 11
    ∷ get_call (pos 7) 12 12
    ∷ set_call (pos 9) (some (subscription "c" (pos 9))) 13
    ∷ get_call (pos 8) 14 14
    ∷ get_call (pos 7) 70 70
    ∷ get_call (pos 7) 71 71
    ∷ []

answers :
    (run_calls traffic new_cache).0
    ≡ none
      ∷ none
      ∷ some (subscription "a" (pos 7))
      ∷ none
      ∷ none
      ∷ some (subscription "a" (pos 7))
      ∷ none
      ∷ []
unfolding run_calls call get lookup set store touch delete
answers = refl

traffic-IsProper : All (IsProper owner) traffic
traffic-IsProper = (
  (refl, refl),
  ((refl, refl), (omega arith, ((refl, refl), (omega arith, (omega arith, (omega arith, tt)))))),
)

run_calls-Shows_example :
    ((run_calls traffic new_cache).0 ≡ (list_calls 2 60 traffic []).0)
    × (rows (run_calls traffic new_cache).1 ≡ (list_calls 2 60 traffic []).1)
unfolding rows_of
run_calls-Shows_example = run_calls-Shows owner traffic new_cache new_cache-Linked traffic-IsProper

run_calls-length_example : length (run_calls traffic new_cache).1.items ≤ 2
run_calls-length_example =
    run_calls-length owner traffic new_cache new_cache-Linked traffic-IsProper (omega arith)
      (omega arith)

get-set_example :
    (get (pos 7) 70 71 (set (pos 7) (some (subscription "a" (pos 7))) 10 new_cache)).0
    ≡ some (subscription "a" (pos 7))
get-set_example =
    get-set owner new_cache (pos 7) (subscription "a" (pos 7)) 10 70 71 new_cache-Linked refl refl
      (omega arith) (omega arith)

abbrev one_user : Cache
one_user = (call (set_call (pos 8) (some (subscription "b" (pos 8))) 11) new_cache).1

invalidated_not_returned_example : str_eq "a" (subscription "b" (pos 8)).subscription_id ≡ false
unfolding call get invalidate_by_sub_id lookup set store touch delete
invalidated_not_returned_example =
    invalidated_not_returned owner one_user "a" (pos 8) 20 20
      (call-Shows owner (set_call (pos 8) (some (subscription "b" (pos 8))) 11) new_cache
        new_cache-Linked (refl, refl)).0.linked
      (omega arith) (subscription "b" (pos 8)) refl

abbrev no_referrals : Referrals
no_referrals = record { counts = [] }

get-run_changes_example :
    get_count
      (pos 5)
      (run_changes (lost (pos 5) ∷ gained (pos 5) ∷ gained (pos 6) ∷ []) no_referrals)
    ≡ counter
        (pos 5)
        (lost (pos 5) ∷ gained (pos 5) ∷ gained (pos 6) ∷ [])
        (get_count (pos 5) no_referrals)
get-run_changes_example =
    get-run_changes (lost (pos 5) ∷ gained (pos 5) ∷ gained (pos 6) ∷ []) (pos 5) no_referrals

-- A subscription without an identifier: its entry in the second map outlives it. An invalidation by the
-- empty identifier then takes the user's next element from the first map and leaves it in the list.
abbrev unnamed : List Call
unnamed =
    set_call (pos 7) (some (subscription "" (pos 7))) 10
    ∷ invalidate_call (pos 7)
    ∷ set_call (pos 7) (some (subscription "a" (pos 7))) 11
    ∷ invalidate_sub_call ""
    ∷ []

entry_left_behind :
    ((run_calls unnamed new_cache).1.items ≡ []) × ((run_calls unnamed new_cache).1.lru ≡ 1 ∷ [])
unfolding run_calls call set invalidate invalidate_by_sub_id lookup store delete
entry_left_behind = (refl, refl)
