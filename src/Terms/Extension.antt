-- ===== src/Terms/Extension.antt =====
-- internal/database/subscription_renewal.go: what a renewal gives.
use vn_bot.Base.{
  ℕ, ◌+◌, ◌*◌, ◌≤◌, ◌<◌, ◌≡◌, refl, sym, ◌∙◌, ap, Bool, true, false, not, ◌||◌, Option, none, some,
  List, [], ◌∷◌, pos, leb_ℤ, ◌==◌, ==_iff, ltb, leb, str_eq, find, count, update_where, arith, inl,
  inr, Bool-cases,
}
use vn_bot.Store.{
  Subscription, Plan, Tables, subscription_not_renewable, Keeps, Preorder, Returns, bind-Returns,
  if-Returns, raise-Returns, pure-Returns, require-Returns, query-Returns, update-Returns,
  transaction-Returns, weaken-Returns, Keeps-Returns, pure-Keeps, stmt-Keeps, catch-Keeps,
}
use vn_bot.Orders.Rows.{subscription_by_id, update_subscriptions, free_plan_name}
use vn_bot.Terms.Expiring.{journal_aside, may_expire}
use vn_bot.Terms.Renewal.{
  trial_plan_name, max_subscription_renewal_days, end_of_years, is_renewable_status, renewal_base,
  check_source, check_plan, renew_term, subscription_renewal_expiry, extended_row, extend,
  renew_subscription,
}
use vn_bot.Terms.Scan.{update_where_self}

-- A statement of the journal leaves the subscriptions.
abbrev Equal : Tables → Tables → Type 0
Equal t u = u.subscriptions ≡ t.subscriptions

Equal-preorder : Preorder Equal
Equal-preorder = record { same = λ t. refl; chain = λ a b. b ∙ a }

journal_aside-Equal : Keeps Equal journal_aside
unfolding journal_aside
journal_aside-Equal =
    catch-Keeps Equal-preorder _ _ (stmt-Keeps Equal-preorder) (λ e. pure-Keeps Equal-preorder tt)

-- What a renewal has made of the row `s` that its selector found.
pub record Extended (days now : ℕ) (s r : Subscription) (t : Tables) : Type 0 where
  pub ends : ℕ
  pub ended : s.expires_at ≡ some ends
  pub same_row : r.id ≡ s.id
  pub term : r.expires_at ≡ some (renewal_base now ends + days * 86400)
  pub within : renewal_base now ends + days * 86400 < end_of_years
  pub lasts :
      (later : ℕ)
      → later < renewal_base now ends + days * 86400
      → count (may_expire s.id later) t.subscriptions ≡ 0

extended_lasts :
    (id ends later : ℕ) (xs : List Subscription)
    → later < ends
    → count (may_expire id later) (update_where (subscription_by_id id) (extended_row ends) xs) ≡ 0
extended_lasts id ends later [] lt = refl
extended_lasts id ends later (x ∷ xs) lt = ground (arith, extended_lasts id ends later xs lt)

extended_found :
    (id ends : ℕ) (xs : List Subscription) {r : Subscription}
    → find (subscription_by_id id) (update_where (subscription_by_id id) (extended_row ends) xs)
      ≡ some r
    → (r.id ≡ id) × (r.expires_at ≡ some ends)
extended_found id ends [] h = (absurd (ground arith), absurd (ground arith))
extended_found id ends (x ∷ xs) {r} h = elim (Bool-cases (x.id == id)) [
  | inl e ↦ (ground (arith, e, ==_iff x.id id), ground (arith, e))
  | inr e ↦ extended_found id ends xs {r = r} (ground (arith, e))
]

module _ (source : ℕ → Option Bool) (days now : ℕ) where
  -- The time that the rules give, for a row with a term.
  abbrev Ends : Subscription → ℕ → Type 0
  Ends s e =
      (ends : ℕ) × (s.expires_at ≡ some ends)
      × (e ≡ renewal_base now ends + days * 86400)
      × (e < end_of_years)

  check_source-Returns :
      (P : Tables → Type 0) (plan : Plan) (o : Option Bool)
      → Returns P (check_source plan o) (λ _. P)
  check_source-Returns P plan none = raise-Returns _
  check_source-Returns P plan (some false) = raise-Returns _
  check_source-Returns P plan (some true) =
      if-Returns plan.is_active (λ _. pure-Returns tt (λ t p. p)) (λ _. raise-Returns _)

  check_plan-Returns :
      (P : Tables → Type 0) (o : Option ℕ) (plan : Plan)
      → Returns P (check_plan source o plan) (λ _. P)
  check_plan-Returns P none plan =
      if-Returns (str_eq plan.name trial_plan_name) (λ _. raise-Returns _)
        (λ _.
          if-Returns (str_eq plan.name free_plan_name) (λ _. raise-Returns _)
            (λ _. pure-Returns tt (λ t p. p)))
  check_plan-Returns P (some id) plan =
      if-Returns (str_eq plan.name trial_plan_name) (λ _. raise-Returns _)
        (λ _.
          bind-Returns {Q = λ _. P} _ _ (query-Returns _ (λ t p. p)) (check_source-Returns P plan))

  term-Returns :
      (P : Tables → Type 0) (s : Subscription) (o : Option ℕ)
      → s.expires_at ≡ o
      → Returns P (renew_term source s days now o) (λ e t. P t × Ends s e)
  term-Returns P s none q = raise-Returns _
  term-Returns P s (some ends) q =
      bind-Returns {Q = λ _. P} _ _ (query-Returns _ (λ t p. p)) (λ found.
        bind-Returns {Q = λ _. P} _ _ (require-Returns found _ (λ a t f p. p)) (λ plan.
          bind-Returns {Q = λ _. P} _ _ (check_plan-Returns P s.provider_source_id plan) (λ _.
            if-Returns
              (not (ltb (renewal_base now ends) (renewal_base now ends + days * 86400))
                || leb end_of_years (renewal_base now ends + days * 86400))
              (λ _. raise-Returns subscription_not_renewable)
              (λ small. pure-Returns _ (λ t p. (p, (ends, q, refl, ground (arith, small))))))))

  expiry-Returns :
      (P : Tables → Type 0) (s : Subscription)
      → Returns P (subscription_renewal_expiry source s days now) (λ e t. P t × Ends s e)
  unfolding subscription_renewal_expiry
  expiry-Returns P s =
      if-Returns (leb_ℤ s.telegram_id (pos 0) || not (is_renewable_status s.status))
        (λ _. raise-Returns subscription_not_renewable) (λ _. term-Returns P s s.expires_at refl)

  extend-Returns :
      (P : Tables → Type 0) (s : Subscription) (e : ℕ)
      → Ends s e
      → Returns P (extend s e) (λ r t. Extended days now s r t)
  unfolding update_subscriptions
  extend-Returns P s e (ends, had, made, small) =
      bind-Returns {Q = λ _. After} _ _
        (update-Returns _ (λ t p. (
          λ later lt. extended_lasts s.id e later t.subscriptions (omega (arith, made, lt)),
          λ r f. extended_found s.id e t.subscriptions f,
        )))
        (λ _.
          bind-Returns
            {Q = λ found t. After t × (found ≡ find (subscription_by_id s.id) t.subscriptions)} _ _
            (query-Returns _ (λ t p. (p, refl)))
            (λ found.
              bind-Returns {Q = λ r t. Extended days now s r t} _ _
                (require-Returns found _ (λ r t f p.
                  let here = p.0.1 r (sym p.1 ∙ f) in
                  record {
                    ends = ends;
                    ended = had;
                    same_row = here.0;
                    term = rw (← made) here.1;
                    within = omega (arith, made, small);
                    lasts = p.0.0;
                  }))
                (λ r.
                  bind-Returns {Q = λ _ t. Extended days now s r t} _ _ (aside-Returns s r)
                    (λ _. pure-Returns r (λ t p. p)))))
    where
      After : Tables → Type 0
      After t =
          ((later : ℕ)
            → later < renewal_base now ends + days * 86400
            → count (may_expire s.id later) t.subscriptions ≡ 0)
          × ((r : Subscription)
              → find (subscription_by_id s.id) t.subscriptions ≡ some r
              → (r.id ≡ s.id) × (r.expires_at ≡ some e))

      aside-Returns :
          (s r : Subscription)
          → Returns (λ t. Extended days now s r t) journal_aside (λ _ t. Extended days now s r t)
      aside-Returns s r = Keeps-Returns Equal _ _ journal_aside-Equal (λ t u same p. record {
        ends = p.ends;
        ended = p.ended;
        same_row = p.same_row;
        term = p.term;
        within = p.within;
        lasts = λ later lt. ap (count (may_expire s.id later)) same ∙ p.lasts later lt;
      })

  -- A renewal that succeeds counts from the later of now and the end of the term that was there.
  pub renew-Returns :
      (selector : Subscription → Bool) (xs : List Subscription)
      → Returns
          (λ t. t.subscriptions ≡ xs)
          (renew_subscription source selector days now)
          (λ r t.
            (s : Subscription) × (find selector xs ≡ some s)
            × (1 ≤ days)
            × (days ≤ max_subscription_renewal_days)
            × Extended days now s r t)
  unfolding renew_subscription update_subscriptions
  renew-Returns selector xs =
      if-Returns (days == 0 || ltb max_subscription_renewal_days days) (λ _. raise-Returns _)
        (λ few. transaction-Returns _ (
          bind-Returns {Q = λ _ t. t.subscriptions ≡ xs} _ _
            (update-Returns _ (λ t p. update_where_self selector t.subscriptions ∙ p))
            (λ n.
              if-Returns (n == 0) (λ _. raise-Returns _)
                (λ _.
                  bind-Returns {Q = λ found t. found ≡ find selector xs} _ _
                    (query-Returns _ (λ t p. ap (find selector) p))
                    (λ found.
                      bind-Returns {Q = λ s t. find selector xs ≡ some s} _ _
                        (require-Returns found _ (λ s t f p. sym p ∙ f))
                        (λ s.
                          bind-Returns {Q = λ e t. (find selector xs ≡ some s) × Ends s e} _ _
                            (expiry-Returns (λ _. find selector xs ≡ some s) s)
                            (λ e. record {
                              at = λ w p.
                                  (weaken-Returns (extend-Returns (λ _. Unit {0}) s e p.1) (λ r t q.
                                      (s, p.0, ground (arith, few), ground (arith, few), q))).at
                                    w tt;
                            })))))))
