-- ===== src/Broadcast/Types.antt =====
-- internal/database/models.go, broadcast_recipients.go: rows of the broadcasts table. The JSON text of
-- `recipients_state` is an Option of what it encodes, with none for a text that does not parse.
use vn_bot.Base.{ℕ, String, Bool, true, false, Option, List, ℤ}

pub data RecipientStatus : Type 0 where
  pending sending sent blocked unreachable failed : RecipientStatus

pub data BroadcastStatus : Type 0 where
  scheduled running completed failed canceled : BroadcastStatus

pub record Recipient : Type 0 where
  pub id : ℕ
  pub telegram_id : ℤ
  pub status : RecipientStatus
  pub attempts : ℕ
  pub last_error : String
  pub next_chunk : ℕ
  pub updated_at : ℕ

pub record RecipientState : Type 0 where
  pub snapshot : Bool
  pub recipients : List Recipient

pub record Broadcast : Type 0 where
  pub id : ℕ
  pub status : BroadcastStatus
  pub planned_at : Option ℕ
  pub started_at : Option ℕ
  pub finished_at : Option ℕ
  pub last_error : String
  pub retry_at : Option ℕ
  pub retry_count : ℕ
  pub recipients_state : Option RecipientState

pub data BroadcastError : Type 0 where
  broadcast_not_found recipient_not_found recipient_stale invalid_status unreadable_state :
      BroadcastError

pub data Reply {ℓ} (A : Type ℓ) : Type ℓ where
  done : A → Reply A
  fail : BroadcastError → Reply A

abbrev pub is_pending : RecipientStatus → Bool
is_pending RecipientStatus.pending = true
is_pending _ = false

abbrev pub is_sending : RecipientStatus → Bool
is_sending RecipientStatus.sending = true
is_sending _ = false

abbrev pub is_failed : RecipientStatus → Bool
is_failed RecipientStatus.failed = true
is_failed _ = false

-- The outcomes that a worker may record.
abbrev pub is_outcome : RecipientStatus → Bool
is_outcome RecipientStatus.pending = false
is_outcome RecipientStatus.sending = false
is_outcome _ = true

abbrev pub is_running : BroadcastStatus → Bool
is_running BroadcastStatus.running = true
is_running _ = false

abbrev pub is_scheduled : BroadcastStatus → Bool
is_scheduled BroadcastStatus.scheduled = true
is_scheduled _ = false

abbrev pub is_terminal : BroadcastStatus → Bool
is_terminal BroadcastStatus.scheduled = false
is_terminal BroadcastStatus.running = false
is_terminal _ = true
