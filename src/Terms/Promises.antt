-- ===== src/Terms/Promises.antt =====
-- internal/database/subscription_renewal.go and subscriptions.go: what a renewal gives, and what a scan
-- for ended terms does.
use vn_bot.Base.{ℕ, ◌+◌, ◌*◌, ◌≤◌, ◌<◌, ◌≡◌, refl, ap, ◌∙◌, Bool, false, Option, some, find, arith}
use Prim.Native.Nat.{max}
use vn_bot.Store.{Subscription, World, ok, Returns-ok}
use vn_bot.Terms.Expiring.{has_ended, expire_subscription_with_plan_cas}
use vn_bot.Terms.Renewal.{renewal_base, renew_subscription}
use vn_bot.Terms.Scan.{expire-Spares}
use vn_bot.Terms.Extension.{renew-Returns}

module _ (source : ℕ → Option Bool) (selector : Subscription → Bool) (days now : ℕ)
    (w : World) where
  -- A renewal that succeeds is of 1 to 3650 days, and counts from the later of now and the end of the
  -- term that the selected row had, where a day has 86400 seconds; the new end lies before the year
  -- 10000, which begins 253402300800 seconds after 1970.
  pub renewal_term :
      {r : Subscription}
      → (renew_subscription source selector days now w).0 ≡ ok r
      → (s : Subscription) × (ends : ℕ) × (find selector w.tables.subscriptions ≡ some s)
        × (s.expires_at ≡ some ends)
        × (1 ≤ days)
        × (days ≤ 3650)
        × (r.id ≡ s.id)
        × (r.expires_at ≡ some (max now ends + days * 86400))
        × (max now ends + days * 86400 < 253402300800)
  renewal_term h =
      let (s, found, some_days, few, x) =
        Returns-ok w (renew-Returns source days now selector w.tables.subscriptions) refl h in
      (
        s,
        x.ends,
        found,
        x.ended,
        some_days,
        few,
        x.same_row,
        x.term ∙ ap some (later_base x.ends),
        rw (← later_base x.ends) x.within,
      )
    where
      later_base : (ends : ℕ) → renewal_base now ends + days * 86400 ≡ max now ends + days * 86400
      later_base ends = ground arith

  -- After a renewal that succeeded, a scan for ended terms that still has the subscription on its
  -- list changes no subscription before the new end, whatever statements of either fail.
  pub renewal_not_undone :
      {r : Subscription} (free_plan later : ℕ)
      → (renew_subscription source selector days now w).0 ≡ ok r
      → has_ended r.expires_at later ≡ false
      → (expire_subscription_with_plan_cas r.id free_plan later
          (renew_subscription source selector days now w).1).1.tables.subscriptions
        ≡ (renew_subscription source selector days now w).1.tables.subscriptions
  renewal_not_undone {r} free_plan later h early =
      let (s, found, some_days, few, x) =
        Returns-ok w (renew-Returns source days now selector w.tables.subscriptions) refl h in
      let lt : later < renewal_base now x.ends + days * 86400 = ground (arith, early, x.term) in
      (expire-Spares r.id later free_plan).at (renew_subscription source selector days now w).1
        (rw (x.same_row) (x.lasts later lt))
