-- ===== src/Payments/Request.antt =====
-- internal/service/order.go: `requestPayment`, a payment link for a product. An outcome has the
-- order beside the link or the error, as the source returns both.
use vn_bot.Base.{
  ℕ, String, Bool, true, false, not, ◌&&◌, Option, none, some, ℤ, pos, ltb_ℤ, ltb, if◌then◌else◌,
  str_eq,
}
use vn_bot.Store.{
  Order, Subscription, Product, Plan, M, Result, ok, err, Error, Alert, pure, ◌>>=◌, ◌>>◌, attempt,
  notify, query, require, subscription_not_found, plan_not_sellable, invalid_request,
  invalid_provider_id, load_plan_failed, is_active,
}
use vn_bot.Base.{find}
use vn_bot.Orders.Rows.{get_plan_by_id}
use vn_bot.Payments.Outside.{Outside}

pub record PaymentInfo : Type 0 where
  pub url : String
  pub payment_id : String
  pub expires_at : ℕ

pub record Outcome : Type 0 where
  pub info : Result PaymentInfo
  pub order : Option Order

abbrev pub refuse : Error → Option Order → M Outcome
refuse e o = pure (record { info = err e; order = o })

abbrev pub link : String → String → ℕ → Order → M Outcome
link payment url deadline o = pure (record {
  info = ok (record { url = url; payment_id = payment; expires_at = deadline });
  order = some o;
})

-- An error that the administrator is told of.
abbrev pub alarm : Alert → Error → Option Order → M Outcome
alarm a e o = notify a >> refuse e o

-- `v, err := m; if err != nil { alert; return }`.
abbrev pub continue_or :
    {A : Type 0} → Alert → Option Order → (A → M Outcome) → Result A → M Outcome
continue_or a o f (err e) = alarm a e o
continue_or a o f (ok v) = f v

-- `GetByTelegramID`: the active subscription of a Telegram account, which is unique.
unfoldable pub get_by_telegram_id : ℤ → M Subscription
get_by_telegram_id telegram = do
  found ← query (λ t.
      find
        (λ s.
          not (ltb_ℤ s.telegram_id telegram)
          && not (ltb_ℤ telegram s.telegram_id)
          && is_active s.status)
        t.subscriptions)
  require found subscription_not_found

-- A product and a plan that can be bought.
abbrev pub is_sellable : Product → Bool
is_sellable p = p.is_active && ltb_ℤ (pos 0) p.price_cents

abbrev pub has_builder : Option ℕ → Bool
has_builder none = false
has_builder (some b) = true

abbrev pub plan_is_sellable : Plan → Bool
plan_is_sellable p = p.is_active && has_builder p.subscription_builder_id

-- The three checks of product and plan, each in front of a step that creates something.
unfoldable pub if_sellable : Product → Option Order → M Outcome → M Outcome
if_sellable product o next =
    if not (is_sellable product)
    then refuse invalid_request o
    else (attempt (get_plan_by_id product.plan_id)
        >>= continue_or load_plan_failed o
            (λ plan. if plan_is_sellable plan then next else refuse plan_not_sellable o))

-- A link that is stored with the order and has not run out.
abbrev pub deadline_ahead : Option ℕ → ℕ → Bool
deadline_ahead none now = false
deadline_ahead (some deadline) now = ltb now deadline

abbrev pub has_payment_id : Outside → Order → Bool
has_payment_id env o = not (str_eq (env.trim o.provider_payment_id) "")

abbrev pub has_valid_link : Outside → Order → Bool
has_valid_link env o =
    has_payment_id env o
    && not (str_eq o.payment_url "")
    && deadline_ahead o.payment_expires_at env.now

-- The link, whose deadline is known to be stored.
abbrev pub stored_link : String → Option ℕ → Order → M Outcome
stored_link payment (some deadline) o = link payment o.payment_url deadline o
stored_link payment none o = refuse invalid_provider_id (some o)

-- The link of an order whose payment id is a UUID v4; `alert` is what else is done if it is not.
abbrev pub link_by : M (Unit {0}) → Order → Option String → M Outcome
link_by alert o none = alert >> refuse invalid_provider_id (some o)
link_by alert o (some payment) = stored_link payment o.payment_expires_at o

unfoldable pub reuse_link : Outside → M (Unit {0}) → Order → M Outcome
reuse_link env alert o = link_by alert o (env.uuid_v4 (env.trim o.provider_payment_id))
