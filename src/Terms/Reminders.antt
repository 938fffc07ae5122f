-- ===== src/Terms/Reminders.antt =====
-- internal/database/subscription_reminders.go and internal/service/subscription_reminders.go: the
-- reminders before the end of a term. The column has one bit for each of three windows.
use vn_bot.Base.{
  ℕ, ◌+◌, ◌-◌, ◌/◌, ◌%◌, Bool, true, false, not, ◌&&◌, Option, none, some, ℤ, pos, negsuc, ◌==◌,
  if◌then◌else◌, find,
}
use vn_bot.Store.{
  Subscription, M, pure, raise, ◌>>=◌, ◌>>◌, catch, query, subscription_not_found, send_failed,
}
use vn_bot.Orders.Rows.{subscription_by_id, update_subscriptions}

-- `ReminderBit3Days`, `ReminderBit1Day` and `ReminderBit3Hours`.
pub data Window : Type 0 where
  three_days one_day three_hours : Window

abbrev pub bit_of : Window → ℕ
bit_of three_days = 1
bit_of one_day = 2
bit_of three_hours = 4

-- `reminders & bit != 0`, `reminders | bit` and `reminders & ^bit`.
abbrev pub has_bit : Window → ℕ → Bool
has_bit three_days n = n % 2 == 1
has_bit one_day n = n / 2 % 2 == 1
has_bit three_hours n = n / 4 % 2 == 1

abbrev pub with_bit : Window → ℕ → ℕ
with_bit w n = if has_bit w n then n else n + bit_of w

abbrev pub without_bit : Window → ℕ → ℕ
without_bit w n = if has_bit w n then n - bit_of w else n

abbrev pub ends_at : ℕ → Option ℕ → Bool
ends_at e none = false
ends_at e (some x) = x == e

-- `id = ? AND expires_at = ?`, and with `(reminders_sent & ?) = 0`.
abbrev pub of_term : ℕ → ℕ → Subscription → Bool
of_term id e s = subscription_by_id id s && ends_at e s.expires_at

abbrev pub claimable : ℕ → Window → ℕ → Subscription → Bool
claimable id w e s = of_term id e s && not (has_bit w s.reminders_sent)

abbrev pub marked : Window → Subscription → Subscription
marked w s = record s { reminders_sent = with_bit w s.reminders_sent }

abbrev pub unmarked : Window → Subscription → Subscription
unmarked w s = record s { reminders_sent = without_bit w s.reminders_sent }

abbrev pub present : {A : Type 0} → A → Option Subscription → M A
present a none = raise subscription_not_found
present a (some _) = pure a

abbrev pub after_claim : ℕ → ℕ → M Bool
after_claim id changed =
    if changed == 0
    then (query (λ t. find (subscription_by_id id) t.subscriptions) >>= present false)
    else pure true

-- `ClaimReminder`.
unfoldable pub claim_reminder : ℕ → Window → ℕ → M Bool
claim_reminder id w e = update_subscriptions (claimable id w e) (marked w) >>= after_claim id

-- `ReleaseReminder`.
unfoldable pub release_reminder : ℕ → Window → ℕ → M (Unit {0})
release_reminder id w e = update_subscriptions (of_term id e) (unmarked w) >>= λ changed.
    if changed == 0
    then (query (λ t. find (subscription_by_id id) t.subscriptions) >>= present tt)
    else pure tt

-- The message, with whether the bot delivers it; `true` says that it went out.
abbrev pub send : ℕ → Window → ℕ → Bool → Bool → M Bool
send id w e delivered false = pure false
send id w e delivered true =
    if delivered
    then pure true
    else catch (release_reminder id w e) (λ _. pure tt) >> raise send_failed

abbrev pub claim_and_send : ℕ → Window → ℕ → Bool → M Bool
claim_and_send id w e delivered = claim_reminder id w e >>= send id w e delivered

-- No bot, or no end of the term: nothing to do.
abbrev pub send_before : ℕ → Window → Option Bool → Option ℕ → M Bool
send_before id w none ends = pure false
send_before id w (some delivered) none = pure false
send_before id w (some delivered) (some e) = claim_and_send id w e delivered

abbrev pub is_zero_id : ℤ → Bool
is_zero_id (pos n) = n == 0
is_zero_id (negsuc _) = false

-- `SendExpiryReminder`. The bot, where there is one, delivers this message or not.
unfoldable pub send_expiry_reminder : Subscription → Window → Option Bool → M Bool
send_expiry_reminder s w bot =
    if is_zero_id s.telegram_id then pure false else send_before s.id w bot s.expires_at
