-- ===== src/Payments/Outside.antt =====
-- What the payment service is given: its configuration, the clock, the lock of a payment, the
-- Platega API, the identifiers of google/uuid and the subscription service. All are parameters.
use vn_bot.Base.{ℕ, String, Bool, Option, ℤ}
use vn_bot.Store.{M, Subscription, ProviderCall}
use vn_bot.Money.Text.{Text}

-- `CreateTransactionResponse`.
pub record Transaction : Type 0 where
  pub transaction_id : String
  pub url : String
  pub redirect : String
  pub expires_in : String

-- `CreateTransaction`: a refusal is `ErrBadRequest` or `ErrAuth`, a failure any other error.
pub data CreateReply : Type 0 where
  refused failed empty : CreateReply
  created : Transaction → CreateReply

-- `GetTransactionStatus`: the status of the transaction and its commission.
pub data StatusReply : Type 0 where
  unknown_transaction unavailable no_status : StatusReply
  reported : String → Text → StatusReply

pub record Outside : Type 0 where
  -- `o.payment != nil` and `o.subSvc != nil`.
  pub payment_enabled : Bool
  pub has_sub_service : Bool
  -- Whether `lockPayment` gets the lock before its timeout.
  pub lock_granted : Bool
  -- `time.Now`, at the start of an operation and behind the provider's answer.
  pub now : ℕ
  pub answered_at : ℕ
  pub create_transaction : ProviderCall → CreateReply
  pub transaction_status : String → StatusReply
  -- `strings.TrimSpace` on a text of the provider, and the canonical text of a UUID v4.
  pub trim : String → String
  pub uuid_v4 : String → Option String
  -- `time.Parse` of HH:MM:SS, in seconds.
  pub clock_seconds : String → Option ℕ
  pub get_or_create_subscription : ℤ → String → M Subscription
