-- ===== src/Terms/Reminded.antt =====
-- internal/service/subscription_reminders.go: a reminder goes out once for a term.
use vn_bot.Base.{
  ℕ, ◌≡◌, refl, Bool, true, false, ◌&&◌, Option, none, some, List, [], ◌∷◌, arith, inl, inr,
  Bool-cases, Option-cases, ◌==◌, ==_iff, count, update_where,
}
use vn_bot.Store.{
  Subscription, Tables, Keeps, Preorder, bind-Keeps, if-Keeps, raise-Keeps, pure-Keeps, query-Keeps,
  update-Keeps, Returns, bind-Returns, if-Returns, update-Returns, query-Returns, pure-Returns,
  raise-Returns,
}
use vn_bot.Orders.Rows.{update_subscriptions}
use vn_bot.Terms.Reminders.{
  Window, three_days, one_day, three_hours, has_bit, with_bit, without_bit, of_term, claimable,
  marked, unmarked, present, claim_reminder, release_reminder,
}

-- No row is left that a claim would take.
abbrev pub Taken : ℕ → Window → ℕ → Tables → Type 0
Taken id w e t = count (claimable id w e) t.subscriptions ≡ 0

has-with_bit : (w v : Window) (n : ℕ) → has_bit w n ≡ true → has_bit w (with_bit v n) ≡ true
has-with_bit three_days three_days n h = ground arith
has-with_bit three_days one_day n h = ground arith
has-with_bit three_days three_hours n h = ground arith
has-with_bit one_day three_days n h = ground arith
has-with_bit one_day one_day n h = ground arith
has-with_bit one_day three_hours n h = ground arith
has-with_bit three_hours three_days n h = ground arith
has-with_bit three_hours one_day n h = ground arith
has-with_bit three_hours three_hours n h = ground arith

has-with_bit_self : (w : Window) (n : ℕ) → has_bit w (with_bit w n) ≡ true
has-with_bit_self three_days n = ground arith
has-with_bit_self one_day n = ground arith
has-with_bit_self three_hours n = ground arith

abbrev pub same_window : Window → Window → Bool
same_window three_days three_days = true
same_window one_day one_day = true
same_window three_hours three_hours = true
same_window _ _ = false

has-without_bit :
    (w v : Window) (n : ℕ)
    → same_window w v ≡ false
    → has_bit w n ≡ true
    → has_bit w (without_bit v n) ≡ true
has-without_bit three_days three_days n d h = cc
has-without_bit three_days one_day n d h = ground arith
has-without_bit three_days three_hours n d h = ground arith
has-without_bit one_day three_days n d h = ground arith
has-without_bit one_day one_day n d h = cc
has-without_bit one_day three_hours n d h = ground arith
has-without_bit three_hours three_days n d h = ground arith
has-without_bit three_hours one_day n d h = ground arith
has-without_bit three_hours three_hours n d h = cc

-- An update that makes no row claimable.
count-update_where_zero :
    (q p : Subscription → Bool) (f : Subscription → Subscription) (xs : List Subscription)
    → ((s : Subscription) → q s ≡ false → p s ≡ true → q (f s) ≡ false)
    → count q xs ≡ 0
    → count q (update_where p f xs) ≡ 0
count-update_where_zero q p f [] h z = refl
count-update_where_zero q p f (x ∷ xs) h z = ground (arith, count-update_where_zero q p f xs h, h x)

-- The claim's update leaves no row that it would take.
marked-row :
    (id : ℕ) (w : Window) (e : ℕ) (s : Subscription)
    → claimable id w e s ≡ true
    → claimable id w e (marked w s) ≡ false
marked-row id w e s h = ground (arith, h, has-with_bit_self w s.reminders_sent)

count-update_where_self :
    (q : Subscription → Bool) (f : Subscription → Subscription)
    → ((s : Subscription) → q s ≡ true → q (f s) ≡ false)
    → (xs : List Subscription) → count q (update_where q f xs) ≡ 0
count-update_where_self q f h [] = refl
count-update_where_self q f h (x ∷ xs) = ground (arith, count-update_where_self q f h xs, h x)

module _ (id : ℕ) (w : Window) (e : ℕ) where
  abbrev pub Stays : Tables → Tables → Type 0
  Stays t u = Taken id w e t → Taken id w e u

  pub Stays-preorder : Preorder Stays
  Stays-preorder = record { same = λ t h. h; chain = λ a b h. b (a h) }

  present-Keeps : {A : Type 0} (a : A) (o : Option Subscription) → Keeps Stays (present a o)
  present-Keeps a none = raise-Keeps Stays-preorder _
  present-Keeps a (some s) = pure-Keeps Stays-preorder a

  pub claim-Keeps : (id' : ℕ) (v : Window) (e' : ℕ) → Keeps Stays (claim_reminder id' v e')
  unfolding claim_reminder update_subscriptions
  claim-Keeps id' v e' =
      bind-Keeps Stays-preorder _ _
        (update-Keeps Stays-preorder _ (λ t.
          count-update_where_zero (claimable id w e) (claimable id' v e') (marked v) t.subscriptions
            (λ s q p. ground (arith, q, has-with_bit w v s.reminders_sent))))
        (λ n.
          if-Keeps Stays-preorder (n == 0)
            (bind-Keeps Stays-preorder _ _ (query-Keeps Stays-preorder _) (present-Keeps false))
            (pure-Keeps Stays-preorder true))

  abbrev pub same_reminder : ℕ → Window → ℕ → Bool
  same_reminder id' v e' = id' == id && same_window w v && e' == e

  pub release-Keeps :
      (id' : ℕ) (v : Window) (e' : ℕ)
      → same_reminder id' v e' ≡ false
      → Keeps Stays (release_reminder id' v e')
  unfolding release_reminder update_subscriptions
  release-Keeps id' v e' d =
      bind-Keeps Stays-preorder _ _
        (update-Keeps Stays-preorder _ (λ t.
          count-update_where_zero (claimable id w e) (of_term id' e') (unmarked v) t.subscriptions
            (λ s q p. other s q p)))
        (λ n.
          if-Keeps Stays-preorder (n == 0)
            (bind-Keeps Stays-preorder _ _ (query-Keeps Stays-preorder _) (present-Keeps tt))
            (pure-Keeps Stays-preorder tt))
    where
      other :
          (s : Subscription)
          → claimable id w e s ≡ false
          → of_term id' e' s ≡ true
          → claimable id w e (unmarked v s) ≡ false
      other s q p = elim (Bool-cases (same_window w v)) [
        | inr k ↦ ground (arith, q, has-without_bit w v s.reminders_sent k)
        | inl k ↦ elim (Option-cases s.expires_at) [
          | inl x ↦ ground (arith, x)
          | inr (x, y) ↦ ground (
            arith,
            y,
            q,
            p,
            d,
            k,
            ==_iff s.id id,
            ==_iff s.id id',
            ==_iff x e,
            ==_iff x e',
            ==_iff id' id,
            ==_iff e' e,
          )
        ]
      ]

  -- A claim of a reminder that is taken does not succeed.
  pub claim-Returns : Returns (Taken id w e) (claim_reminder id w e) (λ b t. b ≡ false)
  unfolding claim_reminder update_subscriptions
  claim-Returns = bind-Returns {Q = λ n t. n ≡ 0} _ _ (update-Returns _ (λ t p. p)) (λ n.
      if-Returns (n == 0)
        (λ _. bind-Returns {Q = λ _ t. Unit {0}} _ _ (query-Returns _ (λ t p. tt)) here)
        (λ m. record { at = λ wd p. absurd (ground (arith, m, p)) }))
    where
      here :
          (o : Option Subscription) → Returns (λ _. Unit {0}) (present false o) (λ b t. b ≡ false)
      here none = raise-Returns _
      here (some s) = pure-Returns false (λ t p. refl)

  -- After a claim that succeeds, the reminder is taken.
  pub claimed-Returns :
      Returns (λ _. Unit {0}) (claim_reminder id w e) (λ b t. b ≡ true → Taken id w e t)
  unfolding claim_reminder update_subscriptions
  claimed-Returns =
      bind-Returns {Q = λ n t. Taken id w e t} _ _
        (update-Returns _ (λ t p.
          count-update_where_self (claimable id w e) (marked w) (marked-row id w e)
            t.subscriptions))
        (λ n.
          if-Returns (n == 0)
            (λ _. bind-Returns {Q = λ _ t. Unit {0}} _ _ (query-Returns _ (λ t p. tt)) missed)
            (λ _. pure-Returns true (λ t p _. p)))
    where
      missed :
          (o : Option Subscription)
          → Returns (λ _. Unit {0}) (present false o) (λ b t. b ≡ true → Taken id w e t)
      missed none = raise-Returns _
      missed (some s) = pure-Returns false (λ t p q. absurd (ground (arith, q)))
