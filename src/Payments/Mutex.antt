-- ===== src/Payments/Mutex.antt =====
-- internal/service/order.go: what `lockPayment` promises to the callbacks of a payment.
use vn_bot.Base.{
  ℕ, ◌≤◌, ◌≡◌, refl, String, Bool, true, false, none, some, List, [], ◌∷◌, ◌++◌, arith, inl, inr,
  Option-cases, ==_iff, str_eq, count, count-append,
}
use vn_bot.Base.Maps.{text_key, lookup, same_refl}
use vn_bot.Payments.Lock.{Place, outside, waiting, holding, dropping, Locks, Reach}
use vn_bot.Payments.Exclusion.{uses, users, holders, holders-le}
use vn_bot.Payments.Release.{Reach-IsSound}

-- A callback in the section of a payment, and one that has to do with the lock of a payment at all.
abbrev pub in_section : String → Place → Bool
in_section id (holding x b) = str_eq x id
in_section id _ = false

abbrev pub busy_with : String → Place → Bool
busy_with id outside = false
busy_with id (waiting x b) = str_eq x id
busy_with id (holding x b) = str_eq x id
busy_with id (dropping x b) = str_eq x id

users-le : (id : String) (a : ℕ) (ps : List Place) → users id a ps ≤ count (busy_with id) ps
users-le id a [] = omega arith
users-le id a (outside ∷ ps) = omega (arith, users-le id a ps)
users-le id a (waiting x b ∷ ps) = ground (arith, users-le id a ps)
users-le id a (holding x b ∷ ps) = ground (arith, users-le id a ps)
users-le id a (dropping x b ∷ ps) = ground (arith, users-le id a ps)

-- If all callbacks of a payment have the same lock, that lock has all that are in the section.
one_lock :
    (id : String) (a : ℕ) (ps : List Place)
    → ((b : ℕ) → 1 ≤ users id b ps → b ≡ a)
    → count (in_section id) ps ≡ holders id a ps
one_lock id a [] h = refl
one_lock id a (outside ∷ ps) h = omega (arith, one_lock id a ps (λ b k. h b (omega (arith, k))))
one_lock id a (waiting x c ∷ ps) h = omega (arith, one_lock id a ps (λ b k. h b (omega (arith, k))))
one_lock id a (dropping x c ∷ ps) h =
    omega (arith, one_lock id a ps (λ b k. h b (omega (arith, k))))
one_lock id a (holding x c ∷ ps) h =
    ground (arith, one_lock id a ps (λ b k. h b (omega (arith, k))), h c, ==_iff c c, ==_iff c a)

module _ {s : Locks} (r : Reach s) (id : String) where
  open (Reach-IsSound r) use {mapped, counted, wanted, single}

  section-none : lookup id s.entries ≡ none → count (in_section id) s.callbacks ≡ 0
  section-none h = ground (
    arith,
    one_lock id s.next s.callbacks (λ b k. absurd (ground (arith, mapped id b k, h))),
    holders-le id s.next s.callbacks,
    mapped id s.next,
    h,
  )

  section-some :
      (a : ℕ)
      → lookup id s.entries ≡ some a
      → count (in_section id) s.callbacks ≡ holders id a s.callbacks
  section-some a h = one_lock id a s.callbacks (λ b k. ground (arith, mapped id b k, h))

  -- In every state that callbacks reach, at most one of those for a payment is between
  -- `lockPayment` and its release.
  pub one_in_section : count (in_section id) s.callbacks ≤ 1
  one_in_section = elim (Option-cases (lookup id s.entries)) [
    | inl h ↦ omega (arith, section-none h)
    | inr (a, h) ↦ ground (arith, section-some a h, single id a h)
  ]

  -- In every state that callbacks reach, if one waits for a payment and none is in the section of
  -- that payment, the channel it waits on holds the token.
  pub free_lock_open :
      (a : ℕ) (before after : List Place)
      → s.callbacks ≡ before ++ waiting id a ∷ after
      → count (in_section id) s.callbacks ≡ 0
      → s.token a ≡ true
  free_lock_open a before after q none_in =
      let here : 1 ≤ users id a s.callbacks = rw q (
        ground (
          arith,
          count-append (uses id a) before (waiting id a ∷ after),
          same_refl ⦃k = text_key⦄ id,
          ==_iff a a,
        )) in
      let held = mapped id a here in ground (arith, section-some a held, single id a held, none_in)

  -- In every state that callbacks reach, a payment with which no callback has to do has no entry
  -- in the map of locks.
  pub entry_reclaimed : count (busy_with id) s.callbacks ≡ 0 → lookup id s.entries ≡ none
  entry_reclaimed idle_now = elim (Option-cases (lookup id s.entries)) [
    | inl h ↦ h
    | inr (a, h) ↦
        absurd (omega (arith, counted id a h, wanted id a h, users-le id a s.callbacks, idle_now))
  ]
