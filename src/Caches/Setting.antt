-- ===== src/Caches/Setting.antt =====
-- internal/bot/cache.go: `InvalidateBySubID`, `Set` and `Cleanup` on the list of `Rows`.
use mathlib.Core.Path.{ap₂}
use vn_bot.Base.{
  ℕ, ◌≡◌, refl, sym, ap, subst, ◌∙◌, String, true, false, not, none, some, List, [], ◌∷◌, ◌++◌, ℤ,
  arith, inl, inr, Bool-cases, Option-cases, ◌==◌, ==_iff, str_eq, eq_iff, leb, length, find,
}
use vn_bot.Base.Maps.{integer_key, text_key, lookup, lookup-delete}
use vn_bot.Store.{Subscription}
use vn_bot.Caches.Elements.{
  Item, Cache, has, without, new_item, set_known, push_back, evict_first, make_room, set_section,
  invalidate_by_sub_id,
}
use vn_bot.Caches.Linked.{Linked, AreDistinct, has-without, without_absent}
use vn_bot.Caches.Removal.{same_sub, remove_element-Linked}
use vn_bot.Caches.Insertion.{set_known-Linked, push_back-Linked}
use vn_bot.Caches.Rows.{
  rows_of, rows, of_user, drop_user, drop_first, room, set_row, drop_sub, length-rows_of,
  rows_of-written, filter-rows_of, find-rows_of-none,
}
use vn_bot.Caches.Refines.{Shows, unchanged, rows-without, found_row, no_row}

module _ (owner : String → ℤ) (c : Cache) (l : Linked owner c) where
  pub invalidate_by_sub_id-Shows :
      (x : String) → Shows owner c (invalidate_by_sub_id x c) (drop_sub x (rows c))
  unfolding invalidate_by_sub_id
  invalidate_by_sub_id-Shows x = elim (Option-cases (lookup x c.by_sub_id)) [
    | inl f ↦
        let none_of : (y : ℕ) → has y c.lru ≡ true → str_eq x (c.memory y).sub_id ≡ false = λ y h.
          elim (Bool-cases (str_eq x (c.memory y).sub_id)) [
            | inr s ↦ s
            | inl s ↦
                let q = (eq_iff x (c.memory y).sub_id).0 s in
                let gone : lookup (c.memory y).sub_id c.by_sub_id ≡ none = rw (← q) f in
                absurd (ground (arith, gone, l.by_sub y h))
          ] in
        let kept = (find-rows_of-none c.memory (λ i. str_eq x i.sub_id) c.lru none_of).1 in
        rw (f, kept) (unchanged owner c l)
    | inr (e, f) ↦
        let (there, q) = l.subs x e f in
        let shown : rows_of c.memory (without e c.lru) ≡ drop_sub (c.memory e).sub_id (rows c) =
          sym (
            filter-rows_of c.memory (λ i. not (str_eq (c.memory e).sub_id i.sub_id))
              (λ y. not (y == e)) c.lru (λ y h. ap not (same_sub owner c l e there y h))) in
        rw (f, ← q)
          (record {
            linked = remove_element-Linked owner c l e there;
            shown = shown;
            size = refl;
            life = refl;
          })
  ]

  module _ (t : ℤ) (sub : Subscription) (now : ℕ) (named : str_eq sub.subscription_id "" ≡ false)
      (own : owner sub.subscription_id ≡ t) where
    set_known-Shows :
        (e : ℕ)
        → has e c.lru ≡ true
        → (c.memory e).telegram_id ≡ t
        → Shows owner c
            (set_known e sub now c)
            (drop_user t (rows c) ++ new_item t sub now c.ttl ∷ [])
    set_known-Shows e there q =
        let same_owner : owner sub.subscription_id ≡ (c.memory e).telegram_id = rw (q) own in
        let apart : has e (without e c.lru) ≡ false =
          ground (arith, has-without e e c.lru, ==_iff e e) in
        record {
          linked = set_known-Linked owner c l sub now named e there same_owner;
          shown = rw there (
              rw (rows_of-written c.memory e _ (without e c.lru) apart, ← q)
                (rw (rows-without owner c l e there) refl));
          size = rw there refl;
          life = rw there refl;
        }

    unheld : has c.next c.lru ≡ false
    unheld = elim (Bool-cases (has c.next c.lru)) [
      | inr h ↦ h
      | inl h ↦ absurd (omega (arith, l.used c.next h))
    ]

    pushed :
        lookup t c.items ≡ none
        → Shows owner c (push_back t sub now c) (rows c ++ new_item t sub now c.ttl ∷ [])
    pushed free = record {
      linked = push_back-Linked owner c l sub now named t free own;
      shown = rows_of-written c.memory c.next (new_item t sub now c.ttl) c.lru unheld;
      size = refl;
      life = refl;
    }

evict_first-Shows :
    (owner : String → ℤ) (c : Cache) (l : Linked owner c) (xs : List ℕ)
    → c.lru ≡ xs
    → Shows owner c (evict_first xs c) (drop_first (rows_of c.memory xs))
unfolding rows_of
evict_first-Shows owner c l [] q = record {
  linked = l;
  shown = rw q refl;
  size = refl;
  life = refl;
}
evict_first-Shows owner c l (e ∷ xs) q =
    let there : has e c.lru ≡ true = rw q (ground (arith, ==_iff e e)) in
    let d : AreDistinct (e ∷ xs) = subst AreDistinct (q) l.distinct in
    let left : without e c.lru ≡ xs = rw q (ground (arith, ==_iff e e, without_absent e xs, d.0)) in
    record {
      linked = remove_element-Linked owner c l e there;
      shown = rw left refl;
      size = refl;
      life = refl;
    }

-- The eviction takes the first row, where the list is full.
make_room-Shows :
    (owner : String → ℤ) (c : Cache) (l : Linked owner c)
    → Shows owner c (make_room c) (room c.max_size (rows c))
make_room-Shows owner c l =
    let counted : length (rows c) ≡ length c.items =
      omega (arith, length-rows_of c.memory c.lru, l.sizes) in
    elim (Bool-cases (leb c.max_size (length c.items))) [
      | inl full ↦ rw (counted, full) (evict_first-Shows owner c l c.lru refl)
      | inr free ↦ rw (counted, free) (unchanged owner c l)
    ]

evict_first-free :
    (xs : List ℕ) (t : ℤ) (c : Cache)
    → lookup t c.items ≡ none
    → lookup t (evict_first xs c).items ≡ none
evict_first-free [] t c h = h
evict_first-free (e ∷ xs) t c h = ground (arith, lookup-delete (c.memory e).telegram_id t c.items)

make_room-free : (t : ℤ) (c : Cache) → lookup t c.items ≡ none → lookup t (make_room c).items ≡ none
make_room-free t c h = ground (arith, evict_first-free c.lru t c h)

pub set_section-Shows :
    (owner : String → ℤ) (c : Cache) (l : Linked owner c) (t : ℤ) (sub : Subscription) (now : ℕ)
    → str_eq sub.subscription_id "" ≡ false
    → owner sub.subscription_id ≡ t
    → Shows owner c (set_section t sub now c) (set_row c.max_size c.ttl t sub now (rows c))
set_section-Shows owner c l t sub now named own = elim (Option-cases (lookup t c.items)) [
  | inl f ↦
      let made = make_room-Shows owner c l in
      let free = make_room-free t c f in
      let put = pushed owner (make_room c) made.linked t sub now named own free in
      rw (f, (no_row owner c l t f).0)
        (record {
          linked = put.linked;
          shown =
              put.shown
              ∙ ap₂ (λ (is : List Item) (n : ℕ). is ++ new_item t sub now n ∷ []) made.shown
                  made.life;
          size = put.size ∙ made.size;
          life = put.life ∙ made.life;
        })
  | inr (e, f) ↦
      let (there, q) = l.users t e f in
      let row : find (of_user t) (rows c) ≡ some (c.memory e) =
        rw (← q) (found_row owner c l e there) in
      rw (f, row) (set_known-Shows owner c l t sub now named own e there q)
]
