-- ===== src/Caches/Referrals.antt =====
-- internal/bot/referral_cache.go: `ReferralCache`, the numbers of referrals shown to users. Counts are
-- integers without a bound.
use vn_bot.Base.{
  zero, suc, ◌≡◌, refl, ap, Bool, true, false, Option, none, some, List, [], ◌∷◌, ℤ, pos, negsuc,
  arith, inl, inr, Bool-cases, ltb_ℤ, ◌+ℤ◌, ◌&&◌, if◌then◌else◌,
}
use vn_bot.Base.Maps.{Entry, integer_key, lookup, store, same_ℤ, same_ℤ_iff, lookup-store}

pub record Referrals : Type 0 where
  pub counts : List (Entry ℤ ℤ)

-- `Load` and `Sync`, with the answer of the database; an error leaves the cache.
abbrev pub load : Option (List (Entry ℤ ℤ)) → Referrals → Referrals
load none rc = rc
load (some counts) rc = record rc { counts = counts }

abbrev pub shown : Option ℤ → ℤ
shown none = pos 0
shown (some n) = n

-- `Get`.
unfoldable pub get : ℤ → Referrals → ℤ
get chat rc = shown (lookup chat rc.counts)

-- `entry.count++`.
abbrev pub one_more : ℤ → ℤ
one_more (pos n) = pos (suc n)
one_more (negsuc zero) = pos 0
one_more (negsuc (suc n)) = negsuc n

-- `entry.count--`, if the count is positive.
abbrev pub one_less : ℤ → ℤ
one_less (pos zero) = pos 0
one_less (pos (suc n)) = pos n
one_less (negsuc n) = negsuc n

abbrev pub incremented : Option ℤ → ℤ
incremented none = pos 1
incremented (some n) = one_more n

abbrev pub decremented : Option ℤ → ℤ
decremented none = pos 0
decremented (some n) = one_less n

-- `Increment`.
unfoldable pub increment : ℤ → Referrals → Referrals
increment chat rc = record rc {
  counts = store chat (incremented (lookup chat rc.counts)) rc.counts;
}

-- `Decrement`.
unfoldable pub decrement : ℤ → Referrals → Referrals
decrement chat rc = record rc {
  counts = store chat (decremented (lookup chat rc.counts)) rc.counts;
}

pub data Change : Type 0 where
  gained : ℤ → Change
  lost : ℤ → Change

abbrev pub change : Change → Referrals → Referrals
change (gained chat) rc = increment chat rc
change (lost chat) rc = decrement chat rc

unfoldable pub run_changes : List Change → Referrals → Referrals
run_changes [] rc = rc
run_changes (k ∷ ks) rc = run_changes ks (change k rc)

-- A single number, which takes the changes of one user: 1 more each time, or 1 less if it is positive.
unfoldable pub counter : ℤ → List Change → ℤ → ℤ
counter chat [] n = n
counter chat (gained other ∷ ks) n = counter chat ks (if same_ℤ other chat then n +ℤ pos 1 else n)
counter chat (lost other ∷ ks) n =
    counter chat ks (if same_ℤ other chat && ltb_ℤ (pos 0) n then n +ℤ negsuc 0 else n)

one_more_lem : (n : ℤ) → one_more n ≡ n +ℤ pos 1
one_more_lem (pos n) = ground arith
one_more_lem (negsuc zero) = refl
one_more_lem (negsuc (suc n)) = ground arith

one_less_lem : (n : ℤ) → one_less n ≡ (if ltb_ℤ (pos 0) n then n +ℤ negsuc 0 else n)
one_less_lem (pos zero) = refl
one_less_lem (pos (suc n)) = ground arith
one_less_lem (negsuc n) = ground arith

if_and : (b c : Bool) (x y : ℤ) → (if b then if c then x else y else y) ≡ (if b && c then x else y)
if_and true c x y = refl
if_and false c x y = refl

shown-incremented : (n : Option ℤ) → incremented n ≡ one_more (shown n)
shown-incremented none = refl
shown-incremented (some n) = refl

shown-decremented : (n : Option ℤ) → decremented n ≡ one_less (shown n)
shown-decremented none = refl
shown-decremented (some n) = refl

get-increment :
    (other chat : ℤ) (rc : Referrals)
    → get chat (increment other rc)
      ≡ (if same_ℤ other chat then one_more (get chat rc) else get chat rc)
unfolding get increment
get-increment other chat rc =
    rw (lookup-store other chat (incremented (lookup other rc.counts)) rc.counts)
      (elim (Bool-cases (same_ℤ other chat)) [
        | inr p ↦ rw p refl
        | inl p ↦
            let moved = ap (λ (t : ℤ). lookup t rc.counts) ((same_ℤ_iff other chat).0 p) in
            rw (p, moved) (shown-incremented (lookup chat rc.counts))
      ])

get-decrement :
    (other chat : ℤ) (rc : Referrals)
    → get chat (decrement other rc)
      ≡ (if same_ℤ other chat then one_less (get chat rc) else get chat rc)
unfolding get decrement
get-decrement other chat rc =
    rw (lookup-store other chat (decremented (lookup other rc.counts)) rc.counts)
      (elim (Bool-cases (same_ℤ other chat)) [
        | inr p ↦ rw p refl
        | inl p ↦
            let moved = ap (λ (t : ℤ). lookup t rc.counts) ((same_ℤ_iff other chat).0 p) in
            rw (p, moved) (shown-decremented (lookup chat rc.counts))
      ])

-- What the cache shows of a user after any increments and decrements, of anybody, is what the changes of
-- that user alone make of the number before: 1 more for each increment, and 1 less for each decrement
-- that finds it positive.
pub get-run_changes :
    (ks : List Change) (chat : ℤ) (rc : Referrals)
    → get chat (run_changes ks rc) ≡ counter chat ks (get chat rc)
unfolding run_changes counter
get-run_changes [] chat rc = refl
get-run_changes (gained other ∷ ks) chat rc =
    rw
      (
        get-run_changes ks chat (increment other rc),
        get-increment other chat rc,
        one_more_lem (get chat rc),
      )
      refl
get-run_changes (lost other ∷ ks) chat rc =
    rw
      (
        get-run_changes ks chat (decrement other rc),
        get-decrement other chat rc,
        one_less_lem (get chat rc),
      )
      (ap (counter chat ks) (
        if_and (same_ℤ other chat) (ltb_ℤ (pos 0) (get chat rc)) (get chat rc +ℤ negsuc 0)
          (get chat rc)))
