-- ===== src/Store/Monad.antt =====
-- Statements and transactions. A statement may fail at any time, since the database is not part of
-- the program: `faults` says of each statement to come whether it fails, and every theorem holds
-- for every such list. A transaction that ends in an error gives its tables back.
use vn_bot.Base.{ℕ, String, Bool, Option, none, some, List, [], ◌∷◌, ℤ, if◌then◌else◌}
use vn_bot.Store.Types.{Tables}

pub data Error : Type 0 where
  db_fault unique_violation reload_failed : Error
  order_not_found subscription_not_found product_not_found plan_not_found : Error
  payment_disabled amount_mismatch currency_mismatch invalid_payment_transition : Error
  payment_creation_uncertain payment_already_in_progress plan_not_sellable : Error
  invalid_request service_not_configured invalid_provider_id invalid_amount : Error
  provider_rejected provider_failed provider_incomplete transaction_not_found : Error
  invalid_commission budget_exhausted lock_timeout : Error
  invalid_renewal_days subscription_not_renewable state_changed : Error
  provider_source_not_found provider_source_unusable send_failed : Error

pub data Result {ℓ} (A : Type ℓ) : Type ℓ where
  ok : A → Result A
  err : Error → Result A

-- The events of `PaymentIssue` that reach the administrator.
pub data Alert : Type 0 where
  load_product_failed load_subscription_failed load_plan_failed : Alert
  subscription_service_not_ready create_subscription_failed find_pending_order_failed : Alert
  create_pending_order_failed creation_uncertain stored_provider_id_invalid : Alert
  claim_payment_creation_failed reload_pending_order_failed provider_create_rejected : Alert
  clear_payment_uncertainty_failed provider_create_uncertain provider_empty_response : Alert
  provider_invalid_transaction_id provider_incomplete_response payment_details_save_failed : Alert
  invalid_provider_id_alert unknown_provider_id load_order_failed callback_currency_mismatch : Alert
  callback_amount_invalid callback_amount_mismatch late_confirmed_callback : Alert
  load_order_product_failed load_order_subscription_failed confirm_payment_failed : Alert
  invalid_payment_status cancel_payment_failed : Alert
  admin_paid : Bool → Alert
  admin_chargeback : Bool → Alert

-- A request for a provider transaction, as `CreateTransaction` receives it.
pub record ProviderCall : Type 0 where
  pub order_id : ℕ
  pub amount_cents : ℤ
  pub currency : String

-- The cache entries that are dropped, by Telegram id and by subscription token.
pub data Invalidation : Type 0 where
  by_telegram_id : ℤ → Invalidation
  by_sub_id : String → Invalidation

pub record World : Type 0 where
  pub tables : Tables
  pub faults : List Bool
  pub alerts : List Alert
  pub calls : List ProviderCall
  pub invalidated : List Invalidation

abbrev pub M : Type 0 → Type 0
M A = World → Result A × World

abbrev pub pure : {A : Type 0} → A → M A
pure a w = (ok a, w)

abbrev pub raise : {A : Type 0} → Error → M A
raise e w = (err e, w)

abbrev pub go_on : {A B : Type 0} → Result A × World → (A → M B) → Result B × World
go_on (ok a, w) f = f a w
go_on (err e, w) f = (err e, w)

infixl 5 ◌>>=◌ ◌>>◌
abbrev pub ◌>>=◌ : {A B : Type 0} → M A → (A → M B) → M B
◌>>=◌ m f w = go_on (m w) f

abbrev pub ◌>>◌ : {A B : Type 0} → M A → M B → M B
m >> k = m >>= λ _. k

-- What a caller does with an error instead of passing it on.
abbrev pub recover : {A : Type 0} → Result A × World → (Error → M A) → Result A × World
recover (ok a, w) f = (ok a, w)
recover (err e, w) f = f e w

abbrev pub catch : {A : Type 0} → M A → (Error → M A) → M A
catch m f w = recover (m w) f

-- One statement: it fails if the next entry of `faults` says so.
unfoldable pub stmt : M (Unit {0})
stmt w = elim w.faults [
  | [] ↦ (ok tt, w)
  | b ∷ rest ↦ (if b then err db_fault else ok tt, record w { faults = rest })
]

-- A query, and an update with the number that it reports.
unfoldable pub query : {A : Type 0} → (Tables → A) → M A
unfolding stmt
query f = stmt >>= λ _ w. (ok (f w.tables), w)

unfoldable pub update : {A : Type 0} → (Tables → A × Tables) → M A
unfolding stmt
update f = stmt >>= λ _ w. let (a, t) = f w.tables in (ok a, record w { tables = t })

abbrev pub roll_back : {A : Type 0} → Tables → Result A × World → Result A × World
roll_back t (ok a, w) = (ok a, w)
roll_back t (err e, w) = (err e, record w { tables = t })

-- The commit is a statement too; on an error the tables are those before the transaction.
unfoldable pub transaction : {A : Type 0} → M A → M A
unfolding stmt
transaction m w = roll_back w.tables ((m >>= λ a. stmt >>= λ _. pure a) w)

abbrev pub notify : Alert → M (Unit {0})
notify a w = (ok tt, record w { alerts = a ∷ w.alerts })

-- `x, err := m`: the error as a value.
abbrev pub attempt : {A : Type 0} → M A → M (Result A)
attempt m w = (ok (m w).0, (m w).1)

abbrev pub drop_cached : Invalidation → M (Unit {0})
drop_cached i w = (ok tt, record w { invalidated = i ∷ w.invalidated })

abbrev pub record_call : ProviderCall → M (Unit {0})
record_call c w = (ok tt, record w { calls = c ∷ w.calls })

-- A row that is required.
abbrev pub require : {A : Type 0} → Option A → Error → M A
require none e = raise e
require (some a) e = pure a

-- A world in which no statement fails from now on.
abbrev pub calm : World → World
calm w = record w { faults = [] }
