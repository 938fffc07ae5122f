-- ===== src/Broadcast/Recipients.antt =====
-- internal/database/broadcast_recipients.go: the loops over the recipients of one broadcast.
use vn_bot.Base.{ℕ, zero, suc, ◌+◌, String, ◌&&◌, ◌||◌, List, [], ◌∷◌, ℤ, ltb, ◌==◌, if◌then◌else◌}
use vn_bot.Broadcast.Types.{
  Recipient, RecipientStatus, Reply, done, fail, recipient_not_found, recipient_stale, is_pending,
  is_sending, is_failed,
}

-- The snapshot numbers its recipients from 1.
abbrev pub new_recipient : ℕ → ℕ → ℤ → Recipient
new_recipient id now telegram = record {
  id = id;
  telegram_id = telegram;
  status = RecipientStatus.pending;
  attempts = 0;
  last_error = "";
  next_chunk = 0;
  updated_at = now;
}

unfoldable pub numbered : ℕ → ℕ → List ℤ → List Recipient
numbered id now [] = []
numbered id now (t ∷ ts) = new_recipient id now t ∷ numbered (id + 1) now ts

abbrev pub released : ℕ → Recipient → Recipient
released now r = record r { status = RecipientStatus.pending; updated_at = now }

-- A lease that is older than `before` is released.
unfoldable pub recover : ℕ → ℕ → List Recipient → List Recipient
recover before now [] = []
recover before now (r ∷ rs) =
    (if is_sending r.status && ltb r.updated_at before then released now r else r)
    ∷ recover before now rs

abbrev pub leased : ℕ → Recipient → Recipient
leased now r = record r {
  status = RecipientStatus.sending;
  attempts = r.attempts + 1;
  updated_at = now;
}

abbrev pub with_claimed :
    Recipient → List Recipient × List Recipient → List Recipient × List Recipient
with_claimed r (claimed, rest) = (r ∷ claimed, r ∷ rest)

abbrev pub with_skipped :
    Recipient → List Recipient × List Recipient → List Recipient × List Recipient
with_skipped r (claimed, rest) = (claimed, r ∷ rest)

-- Up to `limit` pending recipients are leased: what is claimed, and all recipients afterwards.
unfoldable pub claim : ℕ → ℕ → List Recipient → List Recipient × List Recipient
claim limit now [] = ([], [])
claim zero now (r ∷ rs) = ([], r ∷ rs)
claim (suc n) now (r ∷ rs) =
    if is_pending r.status
    then with_claimed (leased now r) (claim n now rs)
    else with_skipped r (claim (suc n) now rs)

-- The change that a worker makes under its lease: only of the attempt that it was given.
abbrev pub add_behind : Recipient → Reply (List Recipient) → Reply (List Recipient)
add_behind r (done rs) = done (r ∷ rs)
add_behind r (fail e) = fail e

unfoldable pub under_lease :
    ℕ → ℕ → (Recipient → Recipient) → List Recipient → Reply (List Recipient)
under_lease id attempt f [] = fail recipient_not_found
under_lease id attempt f (r ∷ rs) =
    let rest = under_lease id attempt f rs in
    if r.id == id
    then (if is_sending r.status && r.attempts == attempt
        then done (f r ∷ rs)
        else fail recipient_stale)
    else add_behind r rest

abbrev pub finished : RecipientStatus → String → ℕ → Recipient → Recipient
finished status error now r = record r { status = status; last_error = error; updated_at = now }

abbrev pub progressed : ℕ → ℕ → Recipient → Recipient
progressed chunk now r = record r { next_chunk = chunk; updated_at = now }

-- A manual retry: failed recipients and abandoned leases become pending.
unfoldable pub retried : ℕ → List Recipient → List Recipient
retried now [] = []
retried now (r ∷ rs) =
    (if is_failed r.status || is_sending r.status
      then record r { status = RecipientStatus.pending; updated_at = now; last_error = "" }
      else r)
    ∷ retried now rs
