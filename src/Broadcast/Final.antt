-- ===== src/Broadcast/Final.antt =====
-- internal/database/broadcast_recipients.go: what any sequence of changes leaves of the audience and of
-- the outcomes that were recorded.
use vn_bot.Base.{ℕ, refl, String, Bool, true, false, List, [], ◌∷◌, arith, ◌==◌}
use vn_bot.Broadcast.Types.{Recipient, RecipientStatus, Reply, done, fail}
use vn_bot.Broadcast.Recipients.{recover, claim, under_lease, finished, progressed, retried}
use vn_bot.Broadcast.Advance.{
  AllAdvance, left_by, all_same, all_then, open-Advances, recover-AllAdvance, retried-AllAdvance,
  claim-AllAdvance, under_lease-AllAdvance,
}

-- The changes of the recipients of a broadcast, whatever caller makes them.
pub data Change : Type 0 where
  recovering : ℕ → ℕ → Change
  claiming : ℕ → ℕ → Change
  finishing : ℕ → ℕ → RecipientStatus → String → ℕ → Change
  progressing : ℕ → ℕ → ℕ → ℕ → Change
  retrying : ℕ → Change

unfoldable pub run_change : Change → List Recipient → List Recipient
run_change (recovering before now) rs = recover before now rs
run_change (claiming limit now) rs = (claim limit now rs).1
run_change (finishing id attempt status error now) rs =
    left_by rs (under_lease id attempt (finished status error now) rs)
run_change (progressing id attempt chunk now) rs =
    left_by rs (under_lease id attempt (progressed chunk now) rs)
run_change (retrying now) rs = retried now rs

unfoldable pub run_changes : List Change → List Recipient → List Recipient
unfolding run_change
run_changes [] rs = rs
run_changes (c ∷ cs) rs = run_changes cs (run_change c rs)

run_change-AllAdvance : (c : Change) (rs : List Recipient) → AllAdvance rs (run_change c rs)
unfolding run_change
run_change-AllAdvance (recovering before now) rs = recover-AllAdvance before now rs
run_change-AllAdvance (claiming limit now) rs = claim-AllAdvance limit now rs
run_change-AllAdvance (finishing id attempt status error now) rs =
    under_lease-AllAdvance id attempt _ rs
      (λ r h. open-Advances r _ refl refl (omega arith) (ground (arith, h)))
run_change-AllAdvance (progressing id attempt chunk now) rs =
    under_lease-AllAdvance id attempt _ rs
      (λ r h. open-Advances r _ refl refl (omega arith) (ground (arith, h)))
run_change-AllAdvance (retrying now) rs = retried-AllAdvance now rs

-- Whatever recoveries, claims, outcomes, progress reports and retries are made, by whatever workers and
-- in whatever order, the recipients are the same ones in the same order; no attempt count goes down;
-- and one whose message was sent, who blocked the bot or is unreachable keeps that outcome and its
-- attempt count, so that it is never claimed again.
pub run_changes-AllAdvance :
    (cs : List Change) (rs : List Recipient) → AllAdvance rs (run_changes cs rs)
unfolding run_changes
run_changes-AllAdvance [] rs = all_same rs
run_changes-AllAdvance (c ∷ cs) rs =
    all_then rs (run_change c rs) (run_changes cs (run_change c rs)) (run_change-AllAdvance c rs)
      (run_changes-AllAdvance cs (run_change c rs))

abbrev pub refused : {A : Type 0} → Reply A → Bool
refused (done a) = false
refused (fail e) = true

abbrev pub by_recipient : ℕ → Recipient → Bool
by_recipient id r = r.id == id
