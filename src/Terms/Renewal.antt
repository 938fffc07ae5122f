-- ===== src/Terms/Renewal.antt =====
-- internal/database/subscription_renewal.go and subscription_management.go: the extension of a term.
-- What a provider source says of itself is a parameter: no row, or whether its configuration is usable.
use vn_bot.Base.{
  ℕ, ◌+◌, ◌*◌, String, Bool, true, false, not, ◌||◌, Option, none, some, pos, leb_ℤ, ◌==◌, ltb, leb,
  if◌then◌else◌, str_eq, find,
}
use vn_bot.Store.{
  Subscription, SubscriptionStatus, Plan, M, pure, raise, ◌>>=◌, ◌>>◌, query, transaction, require,
  subscription_not_found, reload_failed, invalid_renewal_days, subscription_not_renewable,
  provider_source_not_found, provider_source_unusable,
}
use vn_bot.Orders.Rows.{subscription_by_id, update_subscriptions, free_plan_name}
use vn_bot.Terms.Expiring.{reserve, journal_aside}

abbrev pub max_subscription_renewal_days : ℕ
max_subscription_renewal_days = 3650

abbrev pub trial_plan_name : String
trial_plan_name = "trial"

-- The first second of the year 10000.
abbrev pub end_of_years : ℕ
end_of_years = 253402300800

abbrev pub is_renewable_status : SubscriptionStatus → Bool
is_renewable_status SubscriptionStatus.active = true
is_renewable_status SubscriptionStatus.expired = true
is_renewable_status _ = false

-- The later of now and the end of the term.
abbrev pub renewal_base : ℕ → ℕ → ℕ
renewal_base now ends = if ltb now ends then ends else now

abbrev pub renewed_until : ℕ → ℕ → ℕ → M ℕ
renewed_until days now ends =
    if not (ltb (renewal_base now ends) (renewal_base now ends + days * 86400))
      || leb end_of_years (renewal_base now ends + days * 86400)
    then raise subscription_not_renewable
    else pure (renewal_base now ends + days * 86400)

abbrev pub check_source : Plan → Option Bool → M (Unit {0})
check_source plan none = raise provider_source_not_found
check_source plan (some false) = raise provider_source_unusable
check_source plan (some true) = if plan.is_active then pure tt else raise subscription_not_renewable

-- What the plan and the source of the subscription allow.
abbrev pub check_plan : (ℕ → Option Bool) → Option ℕ → Plan → M (Unit {0})
check_plan source none plan =
    if str_eq plan.name trial_plan_name
    then raise subscription_not_renewable
    else if str_eq plan.name free_plan_name
    then raise subscription_not_renewable
    else pure tt
check_plan source (some id) plan =
    if str_eq plan.name trial_plan_name
    then raise subscription_not_renewable
    else (query (λ _. source id) >>= check_source plan)

abbrev pub renew_term : (ℕ → Option Bool) → Subscription → ℕ → ℕ → Option ℕ → M ℕ
renew_term source s days now none = raise subscription_not_renewable
renew_term source s days now (some ends) =
    query (λ t. find (λ p. p.id == s.plan_id) t.plans) >>= λ found.
    (require found reload_failed >>= λ plan.
    (check_plan source s.provider_source_id plan >> renewed_until days now ends))

-- `subscriptionRenewalExpiry`.
unfoldable pub subscription_renewal_expiry : (ℕ → Option Bool) → Subscription → ℕ → ℕ → M ℕ
subscription_renewal_expiry source s days now =
    if leb_ℤ s.telegram_id (pos 0) || not (is_renewable_status s.status)
    then raise subscription_not_renewable
    else renew_term source s days now s.expires_at

abbrev pub extended_row : ℕ → Subscription → Subscription
extended_row ends s = record s {
  expires_at = some ends;
  status = SubscriptionStatus.active;
  reminders_sent = 0;
}

-- The update, and the row behind it.
abbrev pub extend : Subscription → ℕ → M Subscription
extend s ends =
    update_subscriptions (subscription_by_id s.id) (extended_row ends)
    >> (query (λ t. find (subscription_by_id s.id) t.subscriptions) >>= λ found.
        (require found reload_failed >>= λ after. (journal_aside >> pure after)))

abbrev pub renew_in : (ℕ → Option Bool) → (Subscription → Bool) → ℕ → ℕ → M Subscription
renew_in source selector days now = reserve selector >>= λ n.
    if n == 0
    then raise subscription_not_found
    else (query (λ t. find selector t.subscriptions) >>= λ found.
        (require found reload_failed >>= λ s.
        (subscription_renewal_expiry source s days now >>= extend s)))

-- `renewSubscription`.
unfoldable pub renew_subscription :
    (ℕ → Option Bool) → (Subscription → Bool) → ℕ → ℕ → M Subscription
renew_subscription source selector days now =
    if days == 0 || ltb max_subscription_renewal_days days
    then raise invalid_renewal_days
    else transaction (renew_in source selector days now)
