-- ===== src/Terms/Scan.antt =====
-- internal/database/subscriptions.go: a scan for ended terms spares the terms that have not ended.
use vn_bot.Base.{
  ℕ, ◌≡◌, refl, ◌∙◌, ap, Bool, Option, none, some, List, [], ◌∷◌, ◌==◌, count, update_where, arith,
}
use vn_bot.Store.{
  Subscription, Tables, Keeps, Preorder, bind-Keeps, if-Keeps, raise-Keeps, pure-Keeps,
  require-Keeps, query-Keeps, update-Keeps, transaction-Keeps, stmt-Keeps, catch-Keeps,
}
use vn_bot.Orders.Rows.{subscription_by_id, update_subscriptions}
use vn_bot.Orders.Chargeback.{downgraded_row}
use vn_bot.Terms.Expiring.{
  journal_aside, claim_subscription_snapshot, may_expire, is_downgraded, settled,
  expire_subscription_with_plan_cas,
}

pub update_where_self :
    (p : Subscription → Bool) (xs : List Subscription) → update_where p (λ s. s) xs ≡ xs
update_where_self p [] = refl
update_where_self p (x ∷ xs) = ground (arith, update_where_self p xs)

pub update_where_none :
    (p : Subscription → Bool) (f : Subscription → Subscription) (xs : List Subscription)
    → count p xs ≡ 0
    → update_where p f xs ≡ xs
update_where_none p f [] h = refl
update_where_none p f (x ∷ xs) h = ground (arith, update_where_none p f xs)

-- Only rows whose term has ended are written.
abbrev Spares : ℕ → ℕ → Tables → Tables → Type 0
Spares id now t u =
    count (may_expire id now) t.subscriptions ≡ 0 → u.subscriptions ≡ t.subscriptions

Spares-preorder : (id now : ℕ) → Preorder (Spares id now)
Spares-preorder id now = record {
  same = λ t h. refl;
  chain =
      λ {t} {u} {v} a b h. let first = a h in b (ap (count (may_expire id now)) first ∙ h) ∙ first;
}

module _ (id now : ℕ) where
  abbrev spared : Preorder (Spares id now)
  spared = Spares-preorder id now

  journal_aside-Keeps : Keeps (Spares id now) journal_aside
  unfolding journal_aside
  journal_aside-Keeps = catch-Keeps spared _ _ (stmt-Keeps spared) (λ e. pure-Keeps spared tt)

  settled-Keeps :
      (free_plan : ℕ) (o : Option Subscription) → Keeps (Spares id now) (settled free_plan o)
  settled-Keeps free_plan none = raise-Keeps spared _
  settled-Keeps free_plan (some s) =
      if-Keeps spared (is_downgraded free_plan s) (pure-Keeps spared tt) (raise-Keeps spared _)

  snapshot-Keeps : Keeps (Spares id now) (claim_subscription_snapshot id)
  unfolding claim_subscription_snapshot update_subscriptions
  snapshot-Keeps =
      bind-Keeps spared _ _
        (update-Keeps spared _ (λ t h. update_where_self (subscription_by_id id) t.subscriptions))
        (λ n.
          if-Keeps spared (n == 0) (raise-Keeps spared _)
            (bind-Keeps spared _ _ (query-Keeps spared _) (λ o. require-Keeps spared o _)))

  -- A scan for ended terms writes no subscription whose term has not ended, whatever statements fail.
  pub expire-Spares :
      (free_plan : ℕ) → Keeps (Spares id now) (expire_subscription_with_plan_cas id free_plan now)
  unfolding expire_subscription_with_plan_cas update_subscriptions
  expire-Spares free_plan = transaction-Keeps spared _ (
      bind-Keeps spared _ _ snapshot-Keeps (λ prior.
        bind-Keeps spared _ _
          (update-Keeps spared _
            (λ t. update_where_none (may_expire id now) (downgraded_row free_plan) t.subscriptions))
          (λ n.
            if-Keeps spared (n == 0)
              (bind-Keeps spared _ _ (query-Keeps spared _) (settled-Keeps free_plan))
              journal_aside-Keeps)))
