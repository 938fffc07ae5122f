-- ===== src/Broadcast/Advance.antt =====
-- internal/database/broadcast_recipients.go: what one change does to each recipient.
use vn_bot.Base.{
  ℕ, zero, suc, ◌≤◌, ◌≡◌, refl, Bool, true, false, ◌&&◌, ◌||◌, List, [], ◌∷◌, arith, ltb, ◌==◌,
  if◌then◌else◌, Bool-cases, inl, inr, ◌∙◌,
}
use vn_bot.Broadcast.Types.{
  Recipient, RecipientStatus, Reply, done, fail, is_pending, is_sending, is_failed,
}
use vn_bot.Broadcast.Recipients.{recover, claim, under_lease, add_behind, retried}

-- The outcomes that no operation takes back.
abbrev pub is_final : RecipientStatus → Bool
is_final RecipientStatus.sent = true
is_final RecipientStatus.blocked = true
is_final RecipientStatus.unreachable = true
is_final _ = false

pub record Advances (r r' : Recipient) : Type 0 where
  pub same_id : r'.id ≡ r.id
  pub same_telegram : r'.telegram_id ≡ r.telegram_id
  pub more_attempts : r.attempts ≤ r'.attempts
  pub final_stays : (if is_final r.status then r'.status else r.status) ≡ r.status
  pub final_attempts : (if is_final r.status then r'.attempts else r.attempts) ≡ r.attempts

-- Recipient by recipient, with none added and none removed.
abbrev pub AllAdvance : List Recipient → List Recipient → Type 0
AllAdvance [] [] = Unit
AllAdvance [] (y ∷ ys) = ⊥
AllAdvance (x ∷ xs) [] = ⊥
AllAdvance (x ∷ xs) (y ∷ ys) = Advances x y × AllAdvance xs ys

same : (r : Recipient) → Advances r r
same r = record {
  same_id = refl;
  same_telegram = refl;
  more_attempts = omega arith;
  final_stays = ground arith;
  final_attempts = ground arith;
}

pub all_same : (rs : List Recipient) → AllAdvance rs rs
all_same [] = tt
all_same (r ∷ rs) = (same r, all_same rs)

kept_twice :
    (a b c : RecipientStatus)
    → (if is_final a then b else a) ≡ a
    → (if is_final b then c else b) ≡ b
    → (if is_final a then c else a) ≡ a
kept_twice a b c h k = elim (Bool-cases (is_final a)) [
  | inl e ↦ ground (arith, e)
  | inr e ↦ ground (arith, e)
]

counted_twice :
    (a b : RecipientStatus) (m n l : ℕ)
    → (if is_final a then b else a) ≡ a
    → (if is_final a then n else m) ≡ m
    → (if is_final b then l else n) ≡ n
    → (if is_final a then l else m) ≡ m
counted_twice a b m n l h g k = elim (Bool-cases (is_final a)) [
  | inl e ↦ ground (arith, e)
  | inr e ↦ ground (arith, e)
]

then-Advances : {a b c : Recipient} → Advances a b → Advances b c → Advances a c
then-Advances {a} {b} {c} h k = record {
  same_id = k.same_id ∙ h.same_id;
  same_telegram = k.same_telegram ∙ h.same_telegram;
  more_attempts = omega (arith, h.more_attempts, k.more_attempts);
  final_stays = kept_twice a.status b.status c.status h.final_stays k.final_stays;
  final_attempts =
      counted_twice a.status b.status a.attempts b.attempts c.attempts h.final_stays
        h.final_attempts k.final_attempts;
}

pub all_then : (xs ys zs : List Recipient) → AllAdvance xs ys → AllAdvance ys zs → AllAdvance xs zs
all_then [] [] zs h k = k
all_then [] (y ∷ ys) zs h k = absurd h
all_then (x ∷ xs) [] zs h k = absurd h
all_then (x ∷ xs) (y ∷ ys) [] h k = absurd k
all_then (x ∷ xs) (y ∷ ys) (z ∷ zs) h k = (then-Advances h.0 k.0, all_then xs ys zs h.1 k.1)

-- A change of a row that has no final outcome.
pub open-Advances :
    (r r' : Recipient)
    → r'.id ≡ r.id
    → r'.telegram_id ≡ r.telegram_id
    → r.attempts ≤ r'.attempts
    → is_final r.status ≡ false
    → Advances r r'
open-Advances r r' i t a n = record {
  same_id = i;
  same_telegram = t;
  more_attempts = a;
  final_stays = rw n refl;
  final_attempts = rw n refl;
}

pub recover-AllAdvance :
    (before now : ℕ) (rs : List Recipient) → AllAdvance rs (recover before now rs)
unfolding recover
recover-AllAdvance before now [] = tt
recover-AllAdvance before now (r ∷ rs) =
    elim (Bool-cases (is_sending r.status && ltb r.updated_at before)) [
      | inl e ↦ rw e (
        open-Advances r _ refl refl (omega arith) (ground (arith, e)),
        recover-AllAdvance before now rs,
      )
      | inr e ↦ rw e (same r, recover-AllAdvance before now rs)
    ]

pub retried-AllAdvance : (now : ℕ) (rs : List Recipient) → AllAdvance rs (retried now rs)
unfolding retried
retried-AllAdvance now [] = tt
retried-AllAdvance now (r ∷ rs) = elim (Bool-cases (is_failed r.status || is_sending r.status)) [
  | inl e ↦
      rw e
        (open-Advances r _ refl refl (omega arith) (ground (arith, e)), retried-AllAdvance now rs)
  | inr e ↦ rw e (same r, retried-AllAdvance now rs)
]

pub claim-AllAdvance : (limit now : ℕ) (rs : List Recipient) → AllAdvance rs (claim limit now rs).1
unfolding claim
claim-AllAdvance limit now [] = tt
claim-AllAdvance zero now (r ∷ rs) = (same r, all_same rs)
claim-AllAdvance (suc n) now (r ∷ rs) = elim (Bool-cases (is_pending r.status)) [
  | inl e ↦
      rw e
        (open-Advances r _ refl refl (omega arith) (ground (arith, e)), claim-AllAdvance n now rs)
  | inr e ↦ rw e (same r, claim-AllAdvance (suc n) now rs)
]

-- A change under a lease that keeps the recipient's identity and attempts.
abbrev IsLeaseChange : (Recipient → Recipient) → Type 0
IsLeaseChange f = (r : Recipient) → (is_sending r.status ≡ true) → Advances r (f r)

-- The recipients that a transaction leaves: those before it, if it fails.
abbrev pub left_by : List Recipient → Reply (List Recipient) → List Recipient
left_by rs (done rs') = rs'
left_by rs (fail e) = rs

add_behind-AllAdvance :
    (r : Recipient) (rs : List Recipient) (reply : Reply (List Recipient))
    → AllAdvance rs (left_by rs reply)
    → AllAdvance (r ∷ rs) (left_by (r ∷ rs) (add_behind r reply))
add_behind-AllAdvance r rs (done rs') h = (same r, h)
add_behind-AllAdvance r rs (fail e) h = (same r, all_same rs)

pub under_lease-AllAdvance :
    (id attempt : ℕ) (f : Recipient → Recipient) (rs : List Recipient)
    → IsLeaseChange f
    → AllAdvance rs (left_by rs (under_lease id attempt f rs))
unfolding under_lease
under_lease-AllAdvance id attempt f [] h = tt
under_lease-AllAdvance id attempt f (r ∷ rs) h = elim (Bool-cases (r.id == id)) [
  | inl e ↦ elim (Bool-cases (is_sending r.status && r.attempts == attempt)) [
    | inl g ↦ rw e (rw g (h r (ground (arith, g)), all_same rs))
    | inr g ↦ rw e (rw g (same r, all_same rs))
  ]
  | inr e ↦ rw e (
      add_behind-AllAdvance r rs (under_lease id attempt f rs)
        (under_lease-AllAdvance id attempt f rs h))
]
