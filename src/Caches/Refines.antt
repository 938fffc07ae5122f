-- ===== src/Caches/Refines.antt =====
-- internal/bot/cache.go: each operation of `SubscriptionCache` does to the pointers and maps what the
-- operation of `Rows` does to the list.
use vn_bot.Base.{
  ℕ, ◌≤◌, ◌≡◌, refl, sym, ap, String, true, not, none, some, List, [], ◌∷◌, ◌++◌, ℤ, arith, inl,
  inr, Bool-cases, Option-cases, ◌==◌, find,
}
use vn_bot.Base.Maps.{integer_key, text_key, lookup, same_ℤ, same_ℤ_iff}
use vn_bot.Caches.Elements.{
  Item, Cache, has, without, move_to_back, remove_element, is_past, drop_expired, touch, get,
  invalidate,
}
use vn_bot.Caches.Linked.{Linked}
use vn_bot.Caches.Removal.{same_user, remove_element-Linked, move_to_back-Linked}
use vn_bot.Caches.Rows.{
  rows_of, rows, of_user, drop_user, get_row, rows_of-append, filter-rows_of, find-rows_of,
  find-rows_of-none,
}

-- The maps and the list still fit, the list is the one given, and the limits are what they were.
pub record Shows (owner : String → ℤ) (c c' : Cache) (is : List Item) : Type 0 where
  pub linked : Linked owner c'
  pub shown : rows c' ≡ is
  pub size : c'.max_size ≡ c.max_size
  pub life : c'.ttl ≡ c.ttl

module _ (owner : String → ℤ) (c : Cache) (l : Linked owner c) where
  pub unchanged : Shows owner c c (rows c)
  unchanged = record { linked = l; shown = refl; size = refl; life = refl }

  module _ (e : ℕ) (there : has e c.lru ≡ true) where
    row_of_user :
        (x : ℕ) → has x c.lru ≡ true → of_user (c.memory e).telegram_id (c.memory x) ≡ (x == e)
    row_of_user = same_user owner c l e there

    -- The rows without an element.
    pub rows-without :
        rows_of c.memory (without e c.lru) ≡ drop_user (c.memory e).telegram_id (rows c)
    rows-without = sym (
        filter-rows_of c.memory (λ i. not (of_user (c.memory e).telegram_id i)) (λ x. not (x == e))
          c.lru (λ x h. ap not (row_of_user x h)))

    pub found_row : find (of_user (c.memory e).telegram_id) (rows c) ≡ some (c.memory e)
    found_row = find-rows_of c.memory (of_user (c.memory e).telegram_id) e c.lru there row_of_user

    pub removed : Shows owner c (remove_element e c) (drop_user (c.memory e).telegram_id (rows c))
    removed = record {
      linked = remove_element-Linked owner c l e there;
      shown = rows-without;
      size = refl;
      life = refl;
    }

    pub moved :
        Shows owner c
          (move_to_back e c)
          (drop_user (c.memory e).telegram_id (rows c) ++ c.memory e ∷ [])
    unfolding rows_of
    moved = record {
      linked = move_to_back-Linked owner c l e there;
      shown = rw there (rw (rows_of-append c.memory (without e c.lru) (e ∷ []), rows-without) refl);
      size = rw there refl;
      life = rw there refl;
    }

  -- A user who is not in the map has no row.
  pub no_row :
      (t : ℤ)
      → lookup t c.items ≡ none
      → (find (of_user t) (rows c) ≡ none) × (drop_user t (rows c) ≡ rows c)
  no_row t free = find-rows_of-none c.memory (of_user t) c.lru (λ x h.
      elim (Bool-cases (same_ℤ t (c.memory x).telegram_id)) [
        | inr s ↦ s
        | inl s ↦
            let q = (same_ℤ_iff t (c.memory x).telegram_id).0 s in
            let gone : lookup (c.memory x).telegram_id c.items ≡ none = rw (← q) free in
            absurd (ground (arith, gone, l.by_user x h))
      ])

  pub invalidate-Shows : (t : ℤ) → Shows owner c (invalidate t c) (drop_user t (rows c))
  unfolding invalidate
  invalidate-Shows t = elim (Option-cases (lookup t c.items)) [
    | inl f ↦ rw (f, (no_row t f).1) unchanged
    | inr (e, f) ↦ rw (f, ← (l.users t e f).1) (removed e (l.users t e f).0)
  ]

  pub get-Shows :
      (t : ℤ) (now later : ℕ)
      → now ≤ later
      → (Shows owner c (get t now later c).1 (get_row t now (rows c)).1)
        × ((get t now later c).0 ≡ (get_row t now (rows c)).0)
  unfolding get drop_expired touch
  get-Shows t now later le = elim (Option-cases (lookup t c.items)) [
    | inl f ↦ rw (f, (no_row t f).0) (unchanged, refl)
    | inr (e, f) ↦
        let (there, q) = l.users t e f in
        let row : find (of_user t) (rows c) ≡ some (c.memory e) = rw (← q) (found_row e there) in
        elim (Bool-cases (is_past now (c.memory e))) [
          | inl p ↦
              let still : is_past later (c.memory e) ≡ true = ground (arith, p) in
              rw (f, row, p, f, still, ← q) (removed e there, refl)
          | inr p ↦ rw (f, row, p, f, ← q) (moved e there, refl)
        ]
  ]
