-- ===== src/Caches/Sweep.antt =====
-- internal/bot/cache.go: the loop of `Cleanup`, which removes elements from the list it walks.
use mathlib.Core.Path.{ap₂}
use vn_bot.Base.{
  ℕ, ◌≡◌, refl, sym, ◌∙◌, String, Bool, true, false, not, ◌&&◌, List, [], ◌∷◌, ℤ, arith, inl, inr,
  Bool-cases, ◌==◌, ==_iff, if◌then◌else◌, filter,
}
use vn_bot.Caches.Elements.{
  Item, Cache, has, without, remove_element, is_past, cleanup_from, cleanup,
}
use vn_bot.Caches.Linked.{Linked, AreDistinct, has-without}
use vn_bot.Caches.Removal.{remove_element-Linked}
use vn_bot.Caches.Rows.{rows_of, rows, drop_past, filter-rows_of}
use vn_bot.Caches.Refines.{Shows}

filter-without :
    (p : ℕ → Bool) (e : ℕ) (xs : List ℕ)
    → filter p (without e xs) ≡ filter (λ x. not (x == e) && p x) xs
filter-without p e [] = refl
filter-without p e (x ∷ xs) = ground (arith, filter-without p e xs)

filter-same :
    (p q : ℕ → Bool) (xs : List ℕ)
    → ((x : ℕ) → has x xs ≡ true → p x ≡ q x)
    → filter p xs ≡ filter q xs
filter-same p q [] h = refl
filter-same p q (x ∷ xs) h =
    let ih = filter-same p q xs (λ y k. h y (ground (arith, k))) in
    let here = h x (ground (arith, ==_iff x x)) in ground (arith, ih, here)

-- The loop has walked over `xs` when it has removed the elements of `xs` that have expired.
abbrev survives : ℕ → (ℕ → Item) → List ℕ → ℕ → Bool
survives now m xs x = not (is_past now (m x) && has x xs)

pub record Swept (owner : String → ℤ) (now : ℕ) (xs : List ℕ) (c c' : Cache) : Type 0 where
  pub linked : Linked owner c'
  pub left : c'.lru ≡ filter (survives now c.memory xs) c.lru
  pub memory : c'.memory ≡ c.memory
  pub size : c'.max_size ≡ c.max_size
  pub life : c'.ttl ≡ c.ttl

filter_all :
    (p : ℕ → Bool) (xs : List ℕ) → ((x : ℕ) → has x xs ≡ true → p x ≡ true) → filter p xs ≡ xs
filter_all p [] h = refl
filter_all p (x ∷ xs) h =
    let ih = filter_all p xs (λ y k. h y (ground (arith, k))) in
    let here = h x (ground (arith, ==_iff x x)) in ground (arith, ih, here)

-- One turn of the loop.
module _ (owner : String → ℤ) (now e : ℕ) (xs : List ℕ) (c : Cache) (fresh : has e xs ≡ false)
    (there : has e c.lru ≡ true) where
  removed-Swept :
      is_past now (c.memory e) ≡ true
      → (c' : Cache) → Swept owner now xs (remove_element e c) c'
      → Swept owner now (e ∷ xs) c c'
  removed-Swept p c' s = record {
    linked = s.linked;
    left =
        s.left
        ∙ filter-without (survives now c.memory xs) e c.lru
        ∙ filter-same _ _ c.lru (λ x k. elim (Bool-cases (x == e)) [
          | inl q ↦
              let past : is_past now (c.memory x) ≡ true = rw ((==_iff x e).0 q) p in
              ground (arith, q, past, ==_iff x e, ==_iff e x)
          | inr q ↦ ground (arith, q, ==_iff x e, ==_iff e x)
        ]);
    memory = s.memory;
    size = s.size;
    life = s.life;
  }

  kept-Swept :
      is_past now (c.memory e) ≡ false
      → (c' : Cache) → Swept owner now xs c c'
      → Swept owner now (e ∷ xs) c c'
  kept-Swept p c' s = record {
    linked = s.linked;
    left =
        s.left
        ∙ filter-same _ _ c.lru (λ x k. elim (Bool-cases (x == e)) [
          | inl q ↦
              let kept : is_past now (c.memory x) ≡ false = rw ((==_iff x e).0 q) p in
              ground (arith, q, kept)
          | inr q ↦ ground (arith, q, ==_iff x e, ==_iff e x)
        ]);
    memory = s.memory;
    size = s.size;
    life = s.life;
  }

cleanup_from-Swept :
    (owner : String → ℤ) (now : ℕ) (xs : List ℕ) (c : Cache)
    → Linked owner c
    → AreDistinct xs
    → ((x : ℕ) → has x xs ≡ true → has x c.lru ≡ true)
    → Swept owner now xs c (cleanup_from now xs c)
unfolding cleanup_from
cleanup_from-Swept owner now [] c l d h = record {
  linked = l;
  left = sym (filter_all (survives now c.memory []) c.lru (λ x k. ground arith));
  memory = refl;
  size = refl;
  life = refl;
}
cleanup_from-Swept owner now (e ∷ xs) c l d h =
    let there : has e c.lru ≡ true = h e (ground (arith, ==_iff e e)) in
    let after : Swept owner now (e ∷ xs) c
        (cleanup_from now xs (if is_past now (c.memory e) then remove_element e c else c)) =
      elim (Bool-cases (is_past now (c.memory e))) [
        | inl p ↦ rw p (
            removed-Swept owner now e xs c d.0 there p _ (
              cleanup_from-Swept owner now xs (remove_element e c)
                (remove_element-Linked owner c l e there) d.1
                (λ x k. rw (has-without e x c.lru) (ground (arith, h x, k, d.0, ==_iff x e)))))
        | inr p ↦ rw p (
            kept-Swept owner now e xs c d.0 there p _
              (cleanup_from-Swept owner now xs c l d.1 (λ x k. h x (ground (arith, k)))))
      ] in
    after

pub cleanup-Shows :
    (owner : String → ℤ) (now : ℕ) (c : Cache)
    → Linked owner c
    → Shows owner c (cleanup now c) (drop_past now (rows c))
cleanup-Shows owner now c l =
    let s = cleanup_from-Swept owner now c.lru c l l.distinct (λ x k. k) in
    record {
      linked = s.linked;
      shown =
          ap₂ rows_of s.memory s.left
          ∙ sym (
              filter-rows_of c.memory (λ i. not (is_past now i)) (survives now c.memory c.lru) c.lru
                (λ x k. ground (arith, k)));
      size = s.size;
      life = s.life;
    }
