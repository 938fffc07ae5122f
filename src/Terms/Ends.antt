-- ===== src/Terms/Ends.antt =====
-- internal/database/subscriptions.go: what a scan for ended terms decides on a subscription.
use vn_bot.Base.{
  ℕ, suc, ◌≤◌, ◌≡◌, ◌≢◌, refl, ap, ◌∙◌, Bool, true, false, ◌&&◌, none, some, List, [], ◌∷◌, pos,
  ◌==◌, ==_iff, leb, find, count, update_where, find-test, arith, inl, inr, Bool-cases,
  if◌then◌else◌,
}
use vn_bot.Store.{
  Subscription, SubscriptionStatus, is_active, Tables, World, ok, err, state_changed, calm, query,
  update, stmt, transaction, transaction_atomic,
}
use vn_bot.Orders.Rows.{subscription_by_id, update_subscriptions}
use vn_bot.Orders.Chargeback.{downgraded_row}
use vn_bot.Terms.Expiring.{
  journal_aside, claim_subscription_snapshot, may_expire, is_downgraded,
  expire_subscription_with_plan_cas,
}
use vn_bot.Terms.Scan.{update_where_self, update_where_none}

found_by_count :
    (id now n : ℕ) (xs : List Subscription)
    → count (may_expire id now) xs ≡ suc n
    → (s : Subscription) × (find (subscription_by_id id) xs ≡ some s)
      × (1 ≤ count (subscription_by_id id) xs)
found_by_count id now n [] h = absurd (omega (arith, h))
found_by_count id now n (x ∷ xs) h = elim (Bool-cases (x.id == id)) [
  | inl e ↦ (x, ground (arith, e), ground (arith, e))
  | inr e ↦
      let (s, f, c) = found_by_count id now n xs (ground (arith, h, e)) in
      (s, ground (arith, e, f), omega (arith, c))
]

expired_calm :
    (id free_plan now n : ℕ) (w : World)
    → count (may_expire id now) w.tables.subscriptions ≡ suc n
    → expire_subscription_with_plan_cas id free_plan now (calm w) ≡ (
      ok tt,
      record (calm w) {
        tables = record w.tables {
          subscriptions =
              update_where (may_expire id now) (downgraded_row free_plan) w.tables.subscriptions;
        };
      },
    )
unfolding expire_subscription_with_plan_cas claim_subscription_snapshot update_subscriptions update
    query stmt transaction journal_aside
expired_calm id free_plan now n w h =
    let (s, found, some_row) = found_by_count id now n w.tables.subscriptions h in
    let kept = update_where_self (subscription_by_id id) w.tables.subscriptions in
    let rows : (count (subscription_by_id id) w.tables.subscriptions == 0) ≡ false =
      ground (arith, some_row) in
    let changed : (count (may_expire id now) w.tables.subscriptions == 0) ≡ false =
      ground (arith, h) in
    rw (rows, kept, found, changed) refl

-- The same where the scan has nothing to write for a row with a term: the row is not the free one either.
refused_calm :
    (id free_plan now ends : ℕ) (w : World) (s : Subscription)
    → find (subscription_by_id id) w.tables.subscriptions ≡ some s
    → (count (subscription_by_id id) w.tables.subscriptions == 0) ≡ false
    → s.expires_at ≡ some ends
    → count (may_expire id now) w.tables.subscriptions ≡ 0
    → (expire_subscription_with_plan_cas id free_plan now (calm w)).0 ≡ err state_changed
unfolding expire_subscription_with_plan_cas claim_subscription_snapshot update_subscriptions update
    query stmt transaction
refused_calm id free_plan now ends w s found rows ended h =
    let kept = update_where_self (subscription_by_id id) w.tables.subscriptions in
    let same =
      update_where_none (may_expire id now) (downgraded_row free_plan) w.tables.subscriptions h in
    let other : is_downgraded free_plan s ≡ false = ground (arith, ended) in
    rw (rows, kept, found, h, same, found, other) refl

may_expire-count :
    (id now : ℕ) (xs : List Subscription) {s : Subscription}
    → find (subscription_by_id id) xs ≡ some s
    → count (subscription_by_id id) xs ≡ 1
    → count (may_expire id now) xs ≡ (if may_expire id now s then 1 else 0)
may_expire-count id now [] e c = absurd (omega (arith, c))
may_expire-count id now (x ∷ xs) {s} e c = elim (Bool-cases (x.id == id)) [
  | inl q ↦ ground (arith, q, e, none_left xs (ground (arith, q, c)))
  | inr q ↦
      ground
        (arith, q, may_expire-count id now xs {s = s} (ground (arith, q, e)) (ground (arith, q, c)))
]
  where
    none_left :
        (xs : List Subscription)
        → count (subscription_by_id id) xs ≡ 0
        → count (may_expire id now) xs ≡ 0
    none_left [] h = refl
    none_left (x ∷ xs) h = ground (arith, none_left xs)

find-expired :
    (id now free_plan : ℕ) (xs : List Subscription) {s : Subscription}
    → find (subscription_by_id id) xs ≡ some s
    → may_expire id now s ≡ true
    → find (subscription_by_id id) (update_where (may_expire id now) (downgraded_row free_plan) xs)
      ≡ some (downgraded_row free_plan s)
find-expired id now free_plan [] e h = cc
find-expired id now free_plan (x ∷ xs) {s} e h = elim (Bool-cases (x.id == id)) [
  | inl q ↦
      let here : x ≡ s = ground (arith, q, e) in
      ground (arith, q, h, ap (may_expire id now) here, ap (downgraded_row free_plan) here)
  | inr q ↦ ground (arith, q, find-expired id now free_plan xs {s = s} (ground (arith, q, e)) h)
]

find-others :
    (id now free_plan other : ℕ) (xs : List Subscription)
    → other ≢ id
    → find
        (subscription_by_id other)
        (update_where (may_expire id now) (downgraded_row free_plan) xs)
      ≡ find (subscription_by_id other) xs
find-others id now free_plan other [] h = refl
find-others id now free_plan other (x ∷ xs) h = elim (Bool-cases (x.id == id)) [
  | inr q ↦ ground (arith, q, find-others id now free_plan other xs h)
  | inl q ↦
      let apart : (x.id == other) ≡ false =
        ground (arith, q, h, ==_iff x.id id, ==_iff x.id other) in
      ground (arith, apart, find-others id now free_plan other xs h)
]

unwritten :
    (id free_plan now : ℕ) (w : World)
    → (expire_subscription_with_plan_cas id free_plan now (calm w)).0 ≡ err state_changed
    → (expire_subscription_with_plan_cas id free_plan now (calm w)).1.tables ≡ w.tables
unfolding expire_subscription_with_plan_cas
unwritten id free_plan now w h = transaction_atomic _ (calm w) h

-- Without a database failure a scan that comes to a subscription with a term, whose identifier no other
-- row has, makes it one of the free plan, active, without a term, product, start, price or currency, if
-- it is active and its term has ended; otherwise the scan reports a changed state and leaves the row.
-- No other subscription is written.
pub expire_decides :
    (id free_plan now ends other : ℕ) (w : World) {s : Subscription}
    → find (subscription_by_id id) w.tables.subscriptions ≡ some s
    → count (subscription_by_id id) w.tables.subscriptions ≡ 1
    → s.expires_at ≡ some ends
    → other ≢ id
    → let (r, w') = expire_subscription_with_plan_cas id free_plan now (calm w) in
      let over = is_active s.status && leb ends now in
      (r ≡ (if over then ok tt else err state_changed))
      × (find (subscription_by_id id) w'.tables.subscriptions
          ≡ some (
              if over
              then record s {
                plan_id = free_plan;
                status = SubscriptionStatus.active;
                expires_at = none;
                product_id = none;
                started_at = none;
                price_paid_cents = pos 0;
                currency = none;
              }
              else s))
      × (find (subscription_by_id other) w'.tables.subscriptions
          ≡ find (subscription_by_id other) w.tables.subscriptions)
expire_decides id free_plan now ends other w {s} found one ended apart =
    let xs = w.tables.subscriptions in
    let n = may_expire-count id now xs found one in
    let is_it : (s.id == id) ≡ true = find-test (subscription_by_id id) xs found in
    let here : may_expire id now s ≡ (is_active s.status && leb ends now) =
      rw (is_it, ended) refl in
    elim (Bool-cases (is_active s.status && leb ends now)) [
      | inl over ↦
          let c = n ∙ ap (λ (b : Bool). if b then 1 else 0) (here ∙ over) in
          rw (over, expired_calm id free_plan now 0 w c)
            (
              refl,
              find-expired id now free_plan xs found (here ∙ over),
              find-others id now free_plan other xs apart,
            )
      | inr over ↦
          let c = n ∙ ap (λ (b : Bool). if b then 1 else 0) (here ∙ over) in
          let refusal =
            refused_calm id free_plan now ends w s found (ground (arith, one)) ended c in
          rw (over) (
            refusal,
            ap (λ (t : Tables). find (subscription_by_id id) t.subscriptions)
                  (unwritten id free_plan now w refusal)
                ∙ found,
            ap (λ (t : Tables). find (subscription_by_id other) t.subscriptions)
                (unwritten id free_plan now w refusal),
          )
    ]
