-- ===== src/Broadcast/Campaign.antt =====
-- internal/database/broadcast_recipients.go: the operations of the service on the broadcasts table. A
-- statement that fails aborts the transaction and leaves the table, so only successful statements are
-- modelled.
use vn_bot.Base.{
  ℕ, String, Bool, true, false, not, ◌&&◌, ◌||◌, Option, none, some, List, [], ℤ, leb, ◌==◌,
  if◌then◌else◌, find, filter, update_where, length,
}
use vn_bot.Broadcast.Types.{
  Broadcast, BroadcastStatus, Recipient, RecipientStatus, RecipientState, Reply, done, fail,
  broadcast_not_found, invalid_status, unreadable_state, is_outcome, is_running, is_scheduled,
  is_terminal,
}
use vn_bot.Broadcast.Recipients.{
  numbered, recover, claim, under_lease, finished, progressed, retried,
}

abbrev pub by_id : ℕ → Broadcast → Bool
by_id id b = b.id == id

abbrev pub with_recipients : RecipientState → Broadcast → Broadcast
with_recipients s b = record b { recipients_state = some s }

-- The last two steps of a change of one row: its result, and the row written back.
abbrev pub written :
    {A : Type 0} → ℕ → List Broadcast → Reply (A × Broadcast) → Reply (A × List Broadcast)
written id rows (fail e) = fail e
written id rows (done (a, b)) = done (a, update_where (by_id id) (λ _. b) rows)

abbrev pub on_row :
    {A : Type 0}
    → ℕ
    → (Broadcast → Reply (A × Broadcast))
    → List Broadcast
    → Option Broadcast
    → Reply (A × List Broadcast)
on_row id f rows none = fail broadcast_not_found
on_row id f rows (some b) = written id rows (f b)

-- A change of the row of this id, as a transaction.
unfoldable pub update_row :
    {A : Type 0}
    → ℕ
    → (Broadcast → Reply (A × Broadcast))
    → List Broadcast
    → Reply (A × List Broadcast)
update_row id f rows = on_row id f rows (find (by_id id) rows)

abbrev pub stored : {A : Type 0} → Broadcast → Reply (A × RecipientState) → Reply (A × Broadcast)
stored b (fail e) = fail e
stored b (done (a, s)) = done (a, with_recipients s b)

abbrev pub on_state :
    {A : Type 0}
    → (Broadcast → RecipientState → Reply (A × RecipientState))
    → Broadcast
    → Reply (A × Broadcast)
on_state f b = elim b.recipients_state [ none ↦ fail unreadable_state | some s ↦ stored b (f b s) ]

-- `updateBroadcastRecipientState`.
unfoldable pub update_broadcast_recipient_state :
    {A : Type 0}
    → ℕ
    → (Broadcast → RecipientState → Reply (A × RecipientState))
    → List Broadcast
    → Reply (A × List Broadcast)
unfolding update_row
update_broadcast_recipient_state id f rows = update_row id (on_state f) rows

-- The first snapshot stays; `audience` is what the audience query selected.
unfoldable pub snapshot : List ℤ → ℕ → Broadcast → RecipientState → Reply (ℕ × RecipientState)
unfolding numbered
snapshot audience now b s =
    if s.snapshot
    then done (length s.recipients, s)
    else done (length audience, record { snapshot = true; recipients = numbered 1 now audience })

-- `SnapshotBroadcastRecipients`.
unfoldable pub snapshot_broadcast_recipients :
    ℕ → List ℤ → ℕ → List Broadcast → Reply (ℕ × List Broadcast)
unfolding update_broadcast_recipient_state snapshot
snapshot_broadcast_recipients id audience now rows =
    update_broadcast_recipient_state id (snapshot audience now) rows

-- `ClaimBroadcast`: a scheduled campaign starts once.
unfoldable pub claim_broadcast : ℕ → ℕ → List Broadcast → Reply (Bool × List Broadcast)
unfolding update_row
claim_broadcast id now rows =
    update_row id
      (λ b.
        if is_scheduled b.status
        then done (true, record b { status = BroadcastStatus.running; started_at = some now })
        else done (false, b))
      rows

abbrev pub with_list : List Recipient → RecipientState → RecipientState
with_list rs s = record s { recipients = rs }

-- `RecoverStaleBroadcastRecipients`.
unfoldable pub recover_stale_broadcast_recipients :
    ℕ → ℕ → ℕ → List Broadcast → Reply (Unit {0} × List Broadcast)
unfolding update_broadcast_recipient_state recover
recover_stale_broadcast_recipients id before now rows =
    update_broadcast_recipient_state id
      (λ b s. done (tt, with_list (recover before now s.recipients) s)) rows

abbrev pub claimed_state :
    RecipientState → List Recipient × List Recipient → Reply (List Recipient × RecipientState)
claimed_state s (claimed, rest) = done (claimed, with_list rest s)

-- `ClaimBroadcastRecipients`; a limit that is not positive is 100.
unfoldable pub claim_broadcast_recipients :
    ℕ → ℕ → ℕ → List Broadcast → Reply (List Recipient × List Broadcast)
unfolding update_broadcast_recipient_state claim
claim_broadcast_recipients id now limit rows =
    update_broadcast_recipient_state id
      (λ b s.
        if is_running b.status
        then claimed_state s (claim (if limit == 0 then 100 else limit) now s.recipients)
        else done ([], s))
      rows

abbrev pub relisted : RecipientState → Reply (List Recipient) → Reply (Unit {0} × RecipientState)
relisted s (fail e) = fail e
relisted s (done rs) = done (tt, with_list rs s)

-- `FinishBroadcastRecipient`.
unfoldable pub finish_broadcast_recipient :
    ℕ → ℕ → ℕ → RecipientStatus → String → ℕ → List Broadcast → Reply (Unit {0} × List Broadcast)
unfolding update_broadcast_recipient_state under_lease
finish_broadcast_recipient id recipient attempt status error now rows =
    if not (is_outcome status)
    then fail invalid_status
    else update_broadcast_recipient_state id
        (λ b s. relisted s (under_lease recipient attempt (finished status error now) s.recipients))
        rows

-- `UpdateBroadcastRecipientProgress`.
unfoldable pub update_broadcast_recipient_progress :
    ℕ → ℕ → ℕ → ℕ → ℕ → List Broadcast → Reply (Unit {0} × List Broadcast)
unfolding update_broadcast_recipient_state under_lease
update_broadcast_recipient_progress id recipient attempt chunk now rows =
    update_broadcast_recipient_state id
      (λ b s. relisted s (under_lease recipient attempt (progressed chunk now) s.recipients)) rows

-- `CancelBroadcast`: the leases stay, so that the batch in flight can finish.
unfoldable pub cancel_broadcast : ℕ → ℕ → List Broadcast → Reply (Bool × List Broadcast)
unfolding update_row
cancel_broadcast id now rows =
    update_row id
      (λ b.
        if is_terminal b.status
        then done (false, b)
        else done (true, record b { status = BroadcastStatus.canceled; finished_at = some now }))
      rows

abbrev pub reopened : Broadcast → Broadcast
reopened b =
    if is_terminal b.status
    then record b { status = BroadcastStatus.running; finished_at = none }
    else b

abbrev pub reset : ℕ → Broadcast → Reply (Unit {0} × Broadcast)
reset now b = elim b.recipients_state [
  | none ↦ fail unreadable_state
  | some s ↦ done (
    tt,
    record (reopened b) {
      recipients_state = some (with_list (retried now s.recipients) s);
      last_error = "";
      retry_at = none;
      retry_count = 0;
    },
  )
]

-- `ResetBroadcastFailedRecipients`.
unfoldable pub reset_broadcast_failed_recipients :
    ℕ → ℕ → List Broadcast → Reply (Unit {0} × List Broadcast)
unfolding update_row retried
reset_broadcast_failed_recipients id now rows = update_row id (reset now) rows

abbrev pub not_after : Option ℕ → ℕ → Bool
not_after none now = true
not_after (some t) now = leb t now

-- `GetRunnableBroadcasts`.
unfoldable pub get_runnable_broadcasts : ℕ → List Broadcast → List Broadcast
get_runnable_broadcasts now rows =
    filter
      (λ b.
        (is_scheduled b.status || is_running b.status)
        && not_after b.retry_at now
        && not_after b.planned_at now)
      rows
