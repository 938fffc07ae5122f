-- ===== src/Broadcast/Tests.antt =====
-- The theorems on recipients at an audience of two.
use vn_bot.Base.{ℕ, List, [], ◌∷◌, pos}
use vn_bot.Broadcast.Types.{Recipient, RecipientStatus}
use vn_bot.Broadcast.Advance.{AllAdvance}
use vn_bot.Broadcast.Final.{
  Change, claiming, finishing, retrying, recovering, run_changes, run_changes-AllAdvance,
}

abbrev recipient : ℕ → RecipientStatus → ℕ → Recipient
recipient id status attempts = record {
  id = id;
  telegram_id = pos id;
  status = status;
  attempts = attempts;
  last_error = "";
  next_chunk = 0;
  updated_at = 0;
}

abbrev audience : List Recipient
audience = recipient 1 RecipientStatus.sent 1 ∷ recipient 2 RecipientStatus.sending 2 ∷ []

abbrev changes : List Change
changes =
    recovering 50 60
    ∷ claiming 10 70
    ∷ finishing 2 3 RecipientStatus.blocked "" 80
    ∷ retrying 90
    ∷ []

run_changes-AllAdvance_example : AllAdvance audience (run_changes changes audience)
run_changes-AllAdvance_example = run_changes-AllAdvance changes audience
