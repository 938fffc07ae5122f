-- ===== src/Caches/Removal.antt =====
-- internal/bot/cache.go: `removeElement` and `MoveToBack` keep the maps and the list together.
use vn_bot.Base.{
  ℕ, ◌≡◌, ap, String, true, some, [], ◌∷◌, ◌++◌, ℤ, arith, inl, inr, Bool-cases, ◌==◌, ==_iff,
  str_eq, eq_iff, length-append,
}
use vn_bot.Base.Maps.{
  integer_key, text_key, lookup, same_ℤ, same_ℤ_iff, same_refl, lookup-delete, delete-IsUnique,
  length-delete,
}
use vn_bot.Caches.Elements.{Cache, has, without, move_to_back, remove_element}
use vn_bot.Caches.Linked.{
  Linked, has-without, has-append, without-AreDistinct, push-AreDistinct, length-without,
}

module _ (owner : String → ℤ) (c : Cache) (l : Linked owner c) (e : ℕ)
    (there : has e c.lru ≡ true) where
  -- An element shares its user with no other.
  pub same_user :
      (x : ℕ)
      → has x c.lru ≡ true
      → same_ℤ (c.memory e).telegram_id (c.memory x).telegram_id ≡ (x == e)
  same_user x h = elim (Bool-cases (same_ℤ (c.memory e).telegram_id (c.memory x).telegram_id)) [
    | inl s ↦
        let q = (same_ℤ_iff (c.memory e).telegram_id (c.memory x).telegram_id).0 s in
        let found : lookup (c.memory x).telegram_id c.items ≡ some e =
          rw (← q) (l.by_user e there) in
        ground (arith, s, found, l.by_user x h, ==_iff x e)
    | inr s ↦ elim (Bool-cases (x == e)) [
      | inr d ↦ ground (arith, s, d)
      | inl d ↦
          let q = (==_iff x e).0 d in
          absurd (
            ground (
              arith,
              s,
              ap (λ (y : ℕ). same_ℤ (c.memory e).telegram_id (c.memory y).telegram_id) q,
              same_refl ⦃k = integer_key⦄ (c.memory e).telegram_id,
            ))
    ]
  ]

  -- Nor its subscription identifier.
  pub same_sub :
      (x : ℕ) → has x c.lru ≡ true → str_eq (c.memory e).sub_id (c.memory x).sub_id ≡ (x == e)
  same_sub x h = elim (Bool-cases (str_eq (c.memory e).sub_id (c.memory x).sub_id)) [
    | inl s ↦
        let q = (eq_iff (c.memory e).sub_id (c.memory x).sub_id).0 s in
        let found : lookup (c.memory x).sub_id c.by_sub_id ≡ some e = rw (← q) (l.by_sub e there) in
        ground (arith, s, found, l.by_sub x h, ==_iff x e)
    | inr s ↦ elim (Bool-cases (x == e)) [
      | inr d ↦ ground (arith, s, d)
      | inl d ↦
          let q = (==_iff x e).0 d in
          absurd (
            ground (
              arith,
              s,
              ap (λ (y : ℕ). str_eq (c.memory e).sub_id (c.memory y).sub_id) q,
              same_refl ⦃k = text_key⦄ (c.memory e).sub_id,
            ))
    ]
  ]

  pub remove_element-Linked : Linked owner (remove_element e c)
  remove_element-Linked = record {
    users = λ t x h. ground (
      arith,
      lookup-delete (c.memory e).telegram_id t c.items,
      l.users t x,
      has-without e x c.lru,
      same_user x,
      same_ℤ_iff (c.memory e).telegram_id t,
    );
    subs = λ s x h. ground (
      arith,
      lookup-delete (c.memory e).sub_id s c.by_sub_id,
      l.subs s x,
      has-without e x c.lru,
      same_sub x,
      eq_iff (c.memory e).sub_id s,
      l.named e there,
    );
    by_user = λ x h. ground (
      arith,
      lookup-delete (c.memory e).telegram_id (c.memory x).telegram_id c.items,
      l.by_user x,
      has-without e x c.lru,
      same_user x,
    );
    by_sub = λ x h. ground (
      arith,
      lookup-delete (c.memory e).sub_id (c.memory x).sub_id c.by_sub_id,
      l.by_sub x,
      has-without e x c.lru,
      same_sub x,
      l.named e there,
    );
    named = λ x h. ground (arith, has-without e x c.lru, l.named x);
    owned = λ x h. ground (arith, has-without e x c.lru, l.owned x);
    carried = λ x h. ground (arith, has-without e x c.lru, l.carried x);
    used = λ x h. ground (arith, has-without e x c.lru, l.used x);
    distinct = without-AreDistinct e c.lru l.distinct;
    unique = delete-IsUnique (c.memory e).telegram_id c.items l.unique;
    sizes = ground (
      arith,
      length-delete (c.memory e).telegram_id c.items l.unique,
      l.by_user e there,
      length-without e c.lru l.distinct,
      l.sizes,
    );
  }

  -- The elements of the list are the same behind `MoveToBack`.
  pub has-moved : (x : ℕ) → has x (without e c.lru ++ e ∷ []) ≡ has x c.lru
  has-moved x = ground (
    arith,
    has-append x (without e c.lru) (e ∷ []),
    has-without e x c.lru,
    ==_iff x e,
    ==_iff e x,
    there,
  )

  pub move_to_back-Linked : Linked owner (move_to_back e c)
  move_to_back-Linked = rw there (record {
    users = λ t x h. ground (arith, has-moved x, l.users t x);
    subs = λ s x h. ground (arith, has-moved x, l.subs s x);
    by_user = λ x h. ground (arith, has-moved x, l.by_user x);
    by_sub = λ x h. ground (arith, has-moved x, l.by_sub x);
    named = λ x h. ground (arith, has-moved x, l.named x);
    owned = λ x h. ground (arith, has-moved x, l.owned x);
    carried = λ x h. ground (arith, has-moved x, l.carried x);
    used = λ x h. ground (arith, has-moved x, l.used x);
    distinct =
        push-AreDistinct e (without e c.lru) (ground (arith, has-without e e c.lru, ==_iff e e))
          (without-AreDistinct e c.lru l.distinct);
    unique = l.unique;
    sizes = ground (
      arith,
      l.sizes,
      length-append {0} (without e c.lru) (e ∷ []),
      length-without e c.lru l.distinct,
    );
  })
