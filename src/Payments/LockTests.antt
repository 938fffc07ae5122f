-- ===== src/Payments/LockTests.antt =====
-- Two callbacks for one payment.
use vn_bot.Base.{◌≤◌, ◌≡◌, refl, true, none, [], ◌∷◌, count}
use vn_bot.Base.Maps.{text_key, lookup, store}
use vn_bot.Payments.Lock.{
  outside, waiting, holding, Locks, create, join, acquire, give_up, release, drop, Reach, start,
  later,
}
use vn_bot.Payments.Mutex.{in_section, one_in_section, free_lock_open, entry_reclaimed}

-- The first callback has the lock and the second waits.
contended : (s : Locks) × Reach s
unfolding lookup store
contended = (
  _,
  later
      (later (later (start 2) (create "p" [] (outside ∷ []) refl refl))
        (acquire "p" 0 [] (outside ∷ []) refl refl))
      (join "p" 0 (holding "p" 0 ∷ []) [] refl refl),
)

one_in_section_example : count (in_section "p") contended.0.callbacks ≤ 1
one_in_section_example = one_in_section contended.1 "p"

-- The first has gone, and the second finds the token.
released : (s : Locks) × Reach s
unfolding contended
released = (
  _,
  later (later contended.1 (release "p" 0 [] (waiting "p" 0 ∷ []) refl refl))
      (drop "p" 0 [] (waiting "p" 0 ∷ []) refl),
)

free_lock_open_example : released.0.token 0 ≡ true
unfolding released contended
free_lock_open_example = free_lock_open released.1 "p" 0 (outside ∷ []) [] refl refl

-- The second gives up as well.
alone : (s : Locks) × Reach s
unfolding released contended
alone = (
  _,
  later (later released.1 (give_up "p" 0 (outside ∷ []) [] refl))
      (drop "p" 0 (outside ∷ []) [] refl),
)

entry_reclaimed_example : lookup "p" alone.0.entries ≡ none
unfolding alone released contended
entry_reclaimed_example = entry_reclaimed alone.1 "p" refl
