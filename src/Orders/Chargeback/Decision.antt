-- ===== src/Orders/Chargeback/Decision.antt =====
-- What a chargeback of a paid order does to the access of its subscription.
use vn_bot.Base.{
  ℕ, String, Bool, true, false, not, ◌&&◌, ◌<◌, ◌≡◌, refl, some, List, [], ◌∷◌, arith, ◌==◌,
  if◌then◌else◌, find, count, update_where,
}
use vn_bot.Store.{
  Order, OrderStatus, Subscription, SubscriptionStatus, World, ok, calm, is_paid, query, update,
  transaction, stmt,
}
use vn_bot.Orders.Rows.{
  order_by_id, subscription_by_id, by_provider_payment, update_orders, update_subscriptions,
}
use vn_bot.Orders.Intent.{set_status}
use vn_bot.Orders.Journal.{record_journal, record_chargeback_journal}
use vn_bot.Orders.Chargeback.{
  chargeback_result, covers, downgraded_row, cancel_paid_order_and_downgrade_cas,
}

-- The paid orders of the subscription that are still in force, without the one of this id.
abbrev pub other_cover : ℕ → ℕ → ℕ → Order → Bool
other_cover id subscription now o = covers subscription now o && not (o.id == id)

abbrev pub paid_row : ℕ → Order → Bool
paid_row id r = r.id == id && is_paid r.status

-- The count is taken behind the update, so the order that is charged back is no part of it.
count-covers :
    (id subscription now : ℕ) (xs : List Order)
    → count
        (covers subscription now)
        (update_where (paid_row id) (set_status OrderStatus.canceled) xs)
      ≡ count (other_cover id subscription now) xs
count-covers id subscription now [] = refl
count-covers id subscription now (x ∷ xs) = ground (arith, count-covers id subscription now xs)

count-pos_of_find :
    {A : Type 0} (p : A → Bool) (xs : List A) {x : A} → find p xs ≡ some x → 0 < count p xs
count-pos_of_find p [] h = cc
count-pos_of_find p (y ∷ xs) {x} h = ground (arith, count-pos_of_find p xs {x = x})

find-count :
    (id : ℕ) (xs : List Order) {o : Order}
    → find (order_by_id id) xs ≡ some o
    → is_paid o.status ≡ true
    → 0 < count (paid_row id) xs
find-count id [] h k = cc
find-count id (x ∷ xs) {o} h k = ground (arith, find-count id xs {o = o})

module _ (provider payment : String) (now free_plan : ℕ) (w : World) (o : Order)
    (current : Subscription)
    (found : find (by_provider_payment provider payment) w.tables.orders ≡ some o)
    (key : find (order_by_id o.id) w.tables.orders ≡ some o) (paid : o.status ≡ OrderStatus.paid)
    (owner : find (subscription_by_id o.subscription_id) w.tables.subscriptions ≡ some current)
    (live : current.status ≡ SubscriptionStatus.active) where
  -- A chargeback of a paid order of an active subscription, with no failing statement, cancels the
  -- order and reports that it had been paid. The subscription is downgraded to the free plan exactly
  -- if no other paid order of it is in force; otherwise the subscriptions stay as they are.
  pub charge_back_decides :
      let (r, w') = cancel_paid_order_and_downgrade_cas provider payment now free_plan (calm w) in
      let uncovered = count (other_cover o.id o.subscription_id now) w.tables.orders == 0 in
      (r ≡ ok (some (chargeback_result (set_status OrderStatus.canceled o) true true uncovered)))
      × (w'.tables.orders
          ≡ update_where (paid_row o.id) (set_status OrderStatus.canceled) w.tables.orders)
      × (w'.tables.subscriptions ≡ (
          if uncovered
          then update_where
              (subscription_by_id o.subscription_id)
              (downgraded_row free_plan)
              w.tables.subscriptions
          else w.tables.subscriptions))
  unfolding cancel_paid_order_and_downgrade_cas query update transaction stmt update_orders
      update_subscriptions record_chargeback_journal record_journal
  charge_back_decides =
      let hit : (count (paid_row o.id) w.tables.orders == 0) ≡ false =
        ground (arith, find-count o.id w.tables.orders {o = o} key (rw paid refl)) in
      let held : (count (subscription_by_id o.subscription_id) w.tables.subscriptions == 0)
          ≡ false =
        ground (
          arith,
          count-pos_of_find (subscription_by_id o.subscription_id) w.tables.subscriptions
              {x = current} owner,
        ) in
      rw found (
        rw owner (
          rw key (
            rw paid (
              rw live (
                rw hit (
                  rw (count-covers o.id o.subscription_id now w.tables.orders)
                    (ground (arith, held))))))))
