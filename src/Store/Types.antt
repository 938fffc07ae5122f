-- ===== src/Store/Types.antt =====
-- Rows of internal/database/models.go: Plan, Product, Subscription and Order with the columns that
-- the payment flow reads or writes. A time is its number of seconds, a nullable column an Option.
use vn_bot.Base.{ℕ, String, Bool, true, false, Option, List, ℤ}

pub data OrderStatus : Type 0 where
  pending paid expired canceled : OrderStatus

pub data SubscriptionStatus : Type 0 where
  active expired paused canceled revoked : SubscriptionStatus

pub record Order : Type 0 where
  pub id : ℕ
  pub subscription_id : ℕ
  pub product_id : ℕ
  pub status : OrderStatus
  pub amount_cents : ℤ
  pub callback_amount_cents : Option ℤ
  pub provider_fee_cents : Option ℤ
  pub currency : String
  pub payment_provider : String
  pub provider_payment_id : String
  pub created_at : ℕ
  pub paid_at : Option ℕ
  pub activated_at : Option ℕ
  pub expires_at : Option ℕ
  pub payment_url : String
  pub payment_expires_at : Option ℕ
  pub payment_creation_uncertain : Bool

pub record Subscription : Type 0 where
  pub id : ℕ
  pub telegram_id : ℤ
  pub subscription_id : String
  pub expires_at : Option ℕ
  pub status : SubscriptionStatus
  pub plan_id : ℕ
  pub product_id : Option ℕ
  pub started_at : Option ℕ
  pub price_paid_cents : ℤ
  pub currency : Option String
  pub created_at : ℕ
  pub reminders_sent : ℕ
  pub provider_source_id : Option ℕ

pub record Product : Type 0 where
  pub id : ℕ
  pub plan_id : ℕ
  pub name : String
  pub duration_days : ℕ
  pub price_cents : ℤ
  pub currency : String
  pub is_active : Bool

pub record Plan : Type 0 where
  pub id : ℕ
  pub name : String
  pub is_active : Bool
  pub subscription_builder_id : Option ℕ

abbrev pub is_pending : OrderStatus → Bool
is_pending OrderStatus.pending = true
is_pending _ = false

abbrev pub is_paid : OrderStatus → Bool
is_paid OrderStatus.paid = true
is_paid _ = false

abbrev pub is_expired : OrderStatus → Bool
is_expired OrderStatus.expired = true
is_expired _ = false

abbrev pub is_canceled : OrderStatus → Bool
is_canceled OrderStatus.canceled = true
is_canceled _ = false

abbrev pub is_active : SubscriptionStatus → Bool
is_active SubscriptionStatus.active = true
is_active _ = false

-- The types of journal rows that a payment writes.
pub data JournalType : Type 0 where
  payment_succeeded payment_failed payment_refunded paid_activated renewed : JournalType

-- The two families of dedup keys; a key is a family and an order.
pub data DedupFamily : Type 0 where
  order_paid order_activated order_canceled : DedupFamily

pub record JournalRow : Type 0 where
  pub type : JournalType
  pub family : DedupFamily
  pub order_id : ℕ

pub record Tables : Type 0 where
  pub orders : List Order
  pub subscriptions : List Subscription
  pub products : List Product
  pub plans : List Plan
  pub journal : List JournalRow
  pub next_order : ℕ
