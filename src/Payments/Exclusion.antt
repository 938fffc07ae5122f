-- ===== src/Payments/Exclusion.antt =====
-- internal/service/order.go: what holds of the locks of payments in every reachable state.
use vn_bot.Base.{
  ℕ, ◌+◌, ◌≤◌, ◌<◌, ◌≡◌, subst, ◌⊎◌, String, Bool, false, ◌&&◌, none, some, List, [], ◌∷◌, ◌++◌,
  arith, inl, inr, Bool-cases, ◌==◌, ==_iff, if◌then◌else◌, str_eq, eq_iff, count, count-append,
}
use vn_bot.Base.Maps.{text_key, lookup, store, lookup-store}
use vn_bot.Payments.Lock.{Place, outside, waiting, holding, dropping, Locks, created}

abbrev pub uses : String → ℕ → Place → Bool
uses id a outside = false
uses id a (waiting x b) = str_eq x id && b == a
uses id a (holding x b) = str_eq x id && b == a
uses id a (dropping x b) = str_eq x id && b == a

abbrev pub holds : String → ℕ → Place → Bool
holds id a (holding x b) = str_eq x id && b == a
holds id a _ = false

abbrev pub users : String → ℕ → List Place → ℕ
users id a = count (uses id a)

abbrev pub holders : String → ℕ → List Place → ℕ
holders id a = count (holds id a)

pub holders-le : (id : String) (a : ℕ) (ps : List Place) → holders id a ps ≤ users id a ps
holders-le id a [] = omega arith
holders-le id a (outside ∷ ps) = omega (arith, holders-le id a ps)
holders-le id a (waiting x b ∷ ps) = ground (arith, holders-le id a ps)
holders-le id a (holding x b ∷ ps) = ground (arith, holders-le id a ps)
holders-le id a (dropping x b ∷ ps) = ground (arith, holders-le id a ps)

-- A lock of the map counts its callbacks, and has its token exactly if nobody holds it; a callback has
-- the lock that the map has, and two payments have different locks.
pub record IsSound (s : Locks) : Type 0 where
  pub mapped : (id : String) (a : ℕ) → 1 ≤ users id a s.callbacks → lookup id s.entries ≡ some a
  pub counted :
      (id : String) (a : ℕ) → lookup id s.entries ≡ some a → users id a s.callbacks ≡ s.waiters a
  pub wanted : (id : String) (a : ℕ) → lookup id s.entries ≡ some a → 1 ≤ s.waiters a
  pub single :
      (id : String) (a : ℕ)
      → lookup id s.entries ≡ some a
      → holders id a s.callbacks + (if s.token a then 1 else 0) ≡ 1
  pub taken : (id : String) (a : ℕ) → lookup id s.entries ≡ some a → a < s.next
  pub apart :
      (id other : String) (a : ℕ)
      → lookup id s.entries ≡ some a
      → lookup other s.entries ≡ some a
      → id ≡ other

module _ (s : Locks) (i : IsSound s) (id : String) (before after : List Place) where
  -- The number of callbacks that meet a test, by the place of one of them.
  pub at_place :
      (p : Place → Bool) (x : Place)
      → count p (before ++ x ∷ after) ≡ count p before + (if p x then 1 else 0) + count p after
  at_place p x = omega (arith, count-append p before (x ∷ after))

  fresh : lookup id s.entries ≡ none → users id s.next s.callbacks ≡ 0
  fresh h = elim (Bool-cases (users id s.next s.callbacks == 0)) [
    | inl e ↦ (==_iff (users id s.next s.callbacks) 0).0 e
    | inr e ↦ absurd (ground (arith, h, e, i.mapped id s.next))
  ]

  -- The number of callbacks at a place before a step, by the place that the moving one had.
  pub had :
      (p : Place → Bool) (x : Place)
      → s.callbacks ≡ before ++ x ∷ after
      → count p s.callbacks ≡ count p before + (if p x then 1 else 0) + count p after
  had p x q = rw q (at_place p x)

  -- The entries behind `create`: the new lock, that nobody uses, and those before.
  entry_of_create :
      (x : String) (b : ℕ)
      → lookup id s.entries ≡ none
      → lookup x (store id s.next s.entries) ≡ some b
      → ((id ≡ x) × (s.next ≡ b) × (users x b s.callbacks ≡ 0))
        ⊎ ((str_eq id x ≡ false) × (lookup x s.entries ≡ some b) × (s.next == b ≡ false))
  entry_of_create x b h k = elim (Bool-cases (str_eq id x)) [
    | inl e ↦
        let same : id ≡ x = (eq_iff id x).0 e in
        let new : s.next ≡ b = ground (arith, k, e, lookup-store id x s.next s.entries) in
        inl (
          same,
          new,
          subst (λ y. users y b s.callbacks ≡ 0) same
              (subst (λ c. users id c s.callbacks ≡ 0) new (fresh h)),
        )
    | inr e ↦
        let old : lookup x s.entries ≡ some b =
          ground (arith, k, e, lookup-store id x s.next s.entries) in
        inr (e, old, ground (arith, i.taken x b old))
  ]

  pub create-IsSound :
      s.callbacks ≡ before ++ outside ∷ after
      → lookup id s.entries ≡ none
      → IsSound (created id (before ++ waiting id s.next ∷ after) s)
  create-IsSound q h = record {
    mapped = λ x b k. ground (
      arith,
      k,
      h,
      q,
      lookup-store id x s.next s.entries,
      i.mapped x b,
      at_place (uses x b) outside,
      at_place (uses x b) (waiting id s.next),
      eq_iff id x,
      ==_iff s.next b,
    );
    counted = λ x b k. elim (entry_of_create x b h k) [
      | inl (same, new, none_yet) ↦ ground (
        arith,
        same,
        new,
        none_yet,
        had (uses x b) outside q,
        at_place (uses x b) (waiting id s.next),
        eq_iff id x,
        ==_iff s.next b,
        ==_iff b s.next,
      )
      | inr (other, old, apart) ↦ ground (
        arith,
        other,
        apart,
        i.counted x b old,
        had (uses x b) outside q,
        at_place (uses x b) (waiting id s.next),
        ==_iff s.next b,
        ==_iff b s.next,
      )
    ];
    wanted = λ x b k.
        ground (arith, k, lookup-store id x s.next s.entries, i.wanted x b, ==_iff b s.next);
    single = λ x b k. elim (entry_of_create x b h k) [
      | inl (same, new, none_yet) ↦ ground (
        arith,
        same,
        new,
        none_yet,
        had (holds x b) outside q,
        holders-le x b s.callbacks,
        at_place (holds x b) (waiting id s.next),
        ==_iff b s.next,
      )
      | inr (other, old, apart) ↦ ground (
        arith,
        other,
        apart,
        i.single x b old,
        had (holds x b) outside q,
        at_place (holds x b) (waiting id s.next),
        ==_iff s.next b,
        ==_iff b s.next,
      )
    ];
    taken = λ x b k. ground (arith, k, lookup-store id x s.next s.entries, i.taken x b);
    apart = λ x y b k m. ground (
      arith,
      k,
      m,
      lookup-store id x s.next s.entries,
      lookup-store id y s.next s.entries,
      i.taken x b,
      i.taken y b,
      i.apart x y b,
      eq_iff id x,
      eq_iff id y,
    );
  }
