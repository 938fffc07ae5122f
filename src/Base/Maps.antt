-- ===== src/Base/Maps.antt =====
-- Go maps as lists of entries, with a key that an instance compares: look up, store and delete,
-- and what a look-up finds after the others.
use Prim.Native.Nat.{ℕ, ◌+◌, ◌≤◌}
use Prim.Native.String.{String}
use mathlib.Core.Path.{◌≡◌, refl}
use mathlib.Core.Logic.{◌↔◌, inl, inr}
use mathlib.Core.Bool.{Bool, true, false}
use mathlib.Core.List.{List, [], ◌∷◌}
use mathlib.Core.Option.{Option, none, some}
use native.Mathlib.Omega.{arith}
use text.Mathlib.Text.{◌==◌ as str_eq}
use text.Mathlib.TextEquality.{eq_iff}
use vn_bot.Base.Tests.{◌==◌, ==_iff, if◌then◌else◌, Bool-cases, is_some}
use vn_bot.Base.Int.{ℤ, pos, negsuc}
use vn_bot.Base.Lists.{length, All}

pub record Key {ℓ} (K : Type ℓ) : Type ℓ where
  pub same : K → K → Bool
  pub same_iff : (a b : K) → (same a b ≡ true) ↔ (a ≡ b)

instance abbrev pub number_key : Key ℕ
number_key = record { same = ◌==◌; same_iff = ==_iff }

instance abbrev pub text_key : Key String
text_key = record { same = str_eq; same_iff = eq_iff }

abbrev pub same_ℤ : ℤ → ℤ → Bool
same_ℤ (pos a) (pos b) = a == b
same_ℤ (negsuc a) (negsuc b) = a == b
same_ℤ (pos a) (negsuc b) = false
same_ℤ (negsuc a) (pos b) = false

pub same_ℤ_iff : (a b : ℤ) → (same_ℤ a b ≡ true) ↔ (a ≡ b)
same_ℤ_iff (pos a) (pos b) = ground arith
same_ℤ_iff (negsuc a) (negsuc b) = ground arith
same_ℤ_iff (pos a) (negsuc b) = ground arith
same_ℤ_iff (negsuc a) (pos b) = ground arith

instance abbrev pub integer_key : Key ℤ
integer_key = record { same = same_ℤ; same_iff = same_ℤ_iff }

pub record Entry {ℓ} (K V : Type ℓ) : Type ℓ where
  pub key : K
  pub value : V

module _ {ℓ} {K : Type ℓ} ⦃k : Key K⦄ where
  pub same_refl : (a : K) → k.same a a ≡ true
  same_refl a = (k.same_iff a a).1 refl

  pub same-eq : (a b : K) → k.same a b ≡ true → a ≡ b
  same-eq a b = (k.same_iff a b).0

  -- A key may stand in a comparison for one that is the same.
  pub same-left : (a b c : K) → k.same a b ≡ true → k.same a c ≡ k.same b c
  same-left a b c h = rw (same-eq a b h) refl

  pub same-right : (a b c : K) → k.same a b ≡ true → k.same c a ≡ k.same c b
  same-right a b c h = rw (same-eq a b h) refl

module _ {ℓ} {K V : Type ℓ} ⦃k : Key K⦄ where
  unfoldable pub lookup : K → List (Entry K V) → Option V
  lookup a [] = none
  lookup a (e ∷ es) = if k.same e.key a then some e.value else lookup a es

  unfoldable pub store : K → V → List (Entry K V) → List (Entry K V)
  store a v [] = record { key = a; value = v } ∷ []
  store a v (e ∷ es) =
      let rest = store a v es in if k.same e.key a then record e { value = v } ∷ es else e ∷ rest

  unfoldable pub delete : K → List (Entry K V) → List (Entry K V)
  delete a [] = []
  delete a (e ∷ es) = let rest = delete a es in if k.same e.key a then rest else e ∷ rest

  pub lookup-delete :
      (a b : K) (es : List (Entry K V))
      → lookup b (delete a es) ≡ (if k.same a b then none else lookup b es)
  unfolding lookup delete
  lookup-delete a b [] = ground arith
  lookup-delete a b (e ∷ es) =
      ground (arith, same-left e.key a b, same-right a b e.key, lookup-delete a b es)

  pub lookup-store :
      (a b : K) (v : V) (es : List (Entry K V))
      → lookup b (store a v es) ≡ (if k.same a b then some v else lookup b es)
  unfolding lookup store
  lookup-store a b v [] = ground arith
  lookup-store a b v (e ∷ es) =
      ground (arith, same-left e.key a b, same-right a b e.key, lookup-store a b v es)

  pub length-delete-le : (a : K) (es : List (Entry K V)) → length (delete a es) ≤ length es
  unfolding delete
  length-delete-le a [] = omega arith
  length-delete-le a (e ∷ es) = ground (arith, length-delete-le a es)

  -- A key that is there leaves the map by its deletion.
  pub length-delete-lt :
      (a : K) (es : List (Entry K V)) {v : V}
      → lookup a es ≡ some v
      → length (delete a es) + 1 ≤ length es
  unfolding lookup delete
  length-delete-lt a [] h = cc
  length-delete-lt a (e ∷ es) {v} h =
      ground (arith, length-delete-le a es, length-delete-lt a es {v = v})

  pub length-store :
      (a : K) (v : V) (es : List (Entry K V))
      → length (store a v es) ≡ (if is_some (lookup a es) then length es else length es + 1)
  unfolding lookup store
  length-store a v [] = ground arith
  length-store a v (e ∷ es) = ground (arith, length-store a v es)

  -- A Go map has each key once.
  abbrev pub IsUnique : List (Entry K V) → Type 0
  IsUnique [] = Unit
  IsUnique (e ∷ es) = (is_some (lookup e.key es) ≡ false) × IsUnique es

  pub delete-IsUnique : (a : K) (es : List (Entry K V)) → IsUnique es → IsUnique (delete a es)
  unfolding delete
  delete-IsUnique a [] u = tt
  delete-IsUnique a (e ∷ es) u = elim (Bool-cases (k.same e.key a)) [
    | inl p ↦ rw p (delete-IsUnique a es u.1)
    | inr p ↦ rw p (ground (arith, u.0, lookup-delete a e.key es), delete-IsUnique a es u.1)
  ]

  pub store-IsUnique :
      (a : K) (v : V) (es : List (Entry K V)) → IsUnique es → IsUnique (store a v es)
  unfolding store lookup
  store-IsUnique a v [] u = (refl, tt)
  store-IsUnique a v (e ∷ es) u = elim (Bool-cases (k.same e.key a)) [
    | inl p ↦ rw p u
    | inr p ↦ rw p (
      ground (arith, u.0, p, same-left a e.key a, same_refl a, lookup-store a e.key v es),
      store-IsUnique a v es u.1,
    )
  ]

  -- The deletion of a key that is not there changes nothing.
  pub delete_absent : (a : K) (es : List (Entry K V)) → lookup a es ≡ none → delete a es ≡ es
  unfolding lookup delete
  delete_absent a [] h = refl
  delete_absent a (e ∷ es) h = ground (arith, delete_absent a es)

  pub length-delete :
      (a : K) (es : List (Entry K V))
      → IsUnique es
      → length (delete a es) + (if is_some (lookup a es) then 1 else 0) ≡ length es
  unfolding lookup delete
  length-delete a [] u = omega arith
  length-delete a (e ∷ es) u = elim (Bool-cases (k.same e.key a)) [
    | inl p ↦
        let same : lookup a es ≡ lookup e.key es = rw (← same-eq e.key a p) refl in
        ground (arith, p, u.0, same, delete_absent a es)
    | inr p ↦ ground (arith, p, length-delete a es)
  ]

  pub length-store-le :
      (a : K) (v : V) (es : List (Entry K V)) → length (store a v es) ≤ length es + 1
  length-store-le a v es = ground (arith, length-store a v es)

  -- A predicate on the values of a map.
  module _ {κ} (P : V → Type κ) where
    pub All-lookup :
        (a : K) (es : List (Entry K V)) {v : V}
        → All (λ (e : Entry K V). P e.value) es
        → lookup a es ≡ some v
        → P v
    unfolding lookup
    All-lookup a [] h q = absurd (ground arith)
    All-lookup a (e ∷ es) {v} h q = elim (Bool-cases (k.same e.key a)) [
      | inl p ↦ subst_value (ground arith)
      | inr p ↦ All-lookup a es h.1 (ground arith)
    ]
      where
        subst_value : e.value ≡ v → P v
        subst_value f = rw (← f) h.0

    pub All-delete :
        (a : K) (es : List (Entry K V))
        → All (λ (e : Entry K V). P e.value) es
        → All (λ (e : Entry K V). P e.value) (delete a es)
    unfolding delete
    All-delete a [] h = tt
    All-delete a (e ∷ es) h = elim (Bool-cases (k.same e.key a)) [
      | inl p ↦ rw p (All-delete a es h.1)
      | inr p ↦ rw p (h.0, All-delete a es h.1)
    ]

    pub All-store :
        (a : K) (v : V) (es : List (Entry K V))
        → P v
        → All (λ (e : Entry K V). P e.value) es
        → All (λ (e : Entry K V). P e.value) (store a v es)
    unfolding store
    All-store a v [] pv h = (pv, tt)
    All-store a v (e ∷ es) pv h = elim (Bool-cases (k.same e.key a)) [
      | inl p ↦ rw p (pv, h.1)
      | inr p ↦ rw p (h.0, All-store a v es pv h.1)
    ]
