-- ===== src/Caches/Insertion.antt =====
-- internal/bot/cache.go: `Set` keeps the maps and the list together.
use vn_bot.Base.{
  ℕ, ◌+◌, ◌≡◌, ap, String, true, false, none, [], ◌∷◌, ℤ, arith, inl, inr, Bool-cases, ◌==◌, ==_iff,
  str_eq, eq_iff, length-append,
}
use vn_bot.Base.Maps.{
  integer_key, text_key, lookup, store, delete, same_ℤ, same_ℤ_iff, same_refl, lookup-delete,
  lookup-store, store-IsUnique, length-store,
}
use vn_bot.Store.{Subscription}
use vn_bot.Caches.Elements.{Cache, has, write, set_known, push_back}
use vn_bot.Caches.Linked.{Linked, has-append, push-AreDistinct}
use vn_bot.Caches.Removal.{same_user, same_sub, move_to_back-Linked}

module _ (owner : String → ℤ) (c : Cache) (l : Linked owner c) (sub : Subscription) (now : ℕ)
    (named : str_eq sub.subscription_id "" ≡ false) where
  abbrev id : String
  id = sub.subscription_id

  module _ (e : ℕ) (there : has e c.lru ≡ true)
      (own : owner sub.subscription_id ≡ (c.memory e).telegram_id) where
    abbrev rewritten : Cache
    rewritten = record c {
      memory =
          write e
            (record (c.memory e) {
              sub_id = sub.subscription_id;
              sub = sub;
              expires_at = now + c.ttl;
            })
            c.memory;
      by_sub_id = store sub.subscription_id e (delete (c.memory e).sub_id c.by_sub_id);
    }

    -- No other element has the identifier, since its user is another one.
    other_sub :
        (x : ℕ)
        → has x c.lru ≡ true
        → x == e ≡ false
        → str_eq sub.subscription_id (c.memory x).sub_id ≡ false
    other_sub x h d = elim (Bool-cases (str_eq sub.subscription_id (c.memory x).sub_id)) [
      | inr s ↦ s
      | inl s ↦
          let q = ap owner ((eq_iff sub.subscription_id (c.memory x).sub_id).0 s) in
          absurd (
            ground (
              arith,
              q,
              own,
              l.owned x h,
              same_user owner c l e there x h,
              d,
              same_ℤ_iff (c.memory e).telegram_id (c.memory x).telegram_id,
            ))
    ]

    rewritten-Linked : Linked owner rewritten
    rewritten-Linked = record {
      users = λ t x h. ground (arith, l.users t x, ==_iff x e);
      subs = λ s x h. ground (
        arith,
        lookup-store sub.subscription_id s e (delete (c.memory e).sub_id c.by_sub_id),
        lookup-delete (c.memory e).sub_id s c.by_sub_id,
        l.subs s x,
        l.by_sub e there,
        eq_iff sub.subscription_id s,
        eq_iff (c.memory e).sub_id s,
        ==_iff x e,
        ==_iff e x,
        there,
        ==_iff e e,
      );
      by_user = λ x h. ground (arith, l.by_user x, l.by_user e there, ==_iff x e);
      by_sub = λ x h. ground (
        arith,
        there,
        ==_iff x e,
        l.by_sub x h,
        other_sub x h,
        same_sub owner c l e there x h,
        lookup-store sub.subscription_id (c.memory x).sub_id e
            (delete (c.memory e).sub_id c.by_sub_id),
        lookup-store sub.subscription_id sub.subscription_id e
            (delete (c.memory e).sub_id c.by_sub_id),
        same_refl ⦃k = text_key⦄ sub.subscription_id,
        lookup-delete (c.memory e).sub_id (c.memory x).sub_id c.by_sub_id,
      );
      named = λ x h. ground (arith, l.named x h, named);
      owned = λ x h. ground (arith, l.owned x h, own);
      carried = λ x h. ground (arith, l.carried x h);
      used = l.used;
      distinct = l.distinct;
      unique = l.unique;
      sizes = l.sizes;
    }

    pub set_known-Linked : Linked owner (set_known e sub now c)
    set_known-Linked = move_to_back-Linked owner rewritten rewritten-Linked e there

  module _ (t : ℤ) (free : lookup t c.items ≡ none) (own : owner sub.subscription_id ≡ t) where
    unheld : has c.next c.lru ≡ false
    unheld = elim (Bool-cases (has c.next c.lru)) [
      | inr h ↦ h
      | inl h ↦ absurd (omega (arith, l.used c.next h))
    ]

    other_user : (x : ℕ) → has x c.lru ≡ true → same_ℤ t (c.memory x).telegram_id ≡ false
    other_user x h = elim (Bool-cases (same_ℤ t (c.memory x).telegram_id)) [
      | inr s ↦ s
      | inl s ↦
          let q = (same_ℤ_iff t (c.memory x).telegram_id).0 s in
          let none_there : lookup (c.memory x).telegram_id c.items ≡ none = rw (← q) free in
          absurd (ground (arith, none_there, l.by_user x h))
    ]

    other_name :
        (x : ℕ) → has x c.lru ≡ true → str_eq sub.subscription_id (c.memory x).sub_id ≡ false
    other_name x h = elim (Bool-cases (str_eq sub.subscription_id (c.memory x).sub_id)) [
      | inr s ↦ s
      | inl s ↦
          let q = ap owner ((eq_iff sub.subscription_id (c.memory x).sub_id).0 s) in
          absurd (
            ground
              (arith, q, own, l.owned x h, other_user x h, same_ℤ_iff t (c.memory x).telegram_id))
    ]

    pub push_back-Linked : Linked owner (push_back t sub now c)
    push_back-Linked = record {
      users = λ u x h. ground (
        arith,
        lookup-store t u c.next c.items,
        l.users u x,
        has-append x c.lru (c.next ∷ []),
        ==_iff c.next x,
        ==_iff x c.next,
        same_ℤ_iff t u,
        unheld,
        l.used x,
      );
      subs = λ s x h. ground (
        arith,
        lookup-store sub.subscription_id s c.next c.by_sub_id,
        l.subs s x,
        has-append x c.lru (c.next ∷ []),
        ==_iff c.next x,
        ==_iff x c.next,
        eq_iff sub.subscription_id s,
        unheld,
        l.used x,
      );
      by_user = λ x h. ground (
        arith,
        lookup-store t t c.next c.items,
        same_refl ⦃k = integer_key⦄ t,
        lookup-store t (c.memory x).telegram_id c.next c.items,
        l.by_user x,
        other_user x,
        has-append x c.lru (c.next ∷ []),
        ==_iff c.next x,
        ==_iff x c.next,
        unheld,
        l.used x,
      );
      by_sub = λ x h. ground (
        arith,
        lookup-store sub.subscription_id sub.subscription_id c.next c.by_sub_id,
        same_refl ⦃k = text_key⦄ sub.subscription_id,
        lookup-store sub.subscription_id (c.memory x).sub_id c.next c.by_sub_id,
        l.by_sub x,
        other_name x,
        has-append x c.lru (c.next ∷ []),
        ==_iff c.next x,
        ==_iff x c.next,
        unheld,
        l.used x,
      );
      named = λ x h. ground (
        arith,
        l.named x,
        named,
        has-append x c.lru (c.next ∷ []),
        ==_iff c.next x,
        ==_iff x c.next,
      );
      owned = λ x h. ground (
        arith,
        l.owned x,
        own,
        has-append x c.lru (c.next ∷ []),
        ==_iff c.next x,
        ==_iff x c.next,
      );
      carried = λ x h.
          ground (
            arith,
            l.carried x,
            has-append x c.lru (c.next ∷ []),
            ==_iff c.next x,
            ==_iff x c.next,
          );
      used = λ x h. ground (arith, l.used x, has-append x c.lru (c.next ∷ []), ==_iff c.next x);
      distinct = push-AreDistinct c.next c.lru unheld l.distinct;
      unique = store-IsUnique t c.next c.items l.unique;
      sizes = ground (
        arith,
        l.sizes,
        length-append {0} c.lru (c.next ∷ []),
        length-store t c.next c.items,
        free,
      );
    }
