-- ===== src/Caches/Linked.antt =====
-- internal/bot/cache.go: the invariant that ties the two maps of `SubscriptionCache` to its list.
-- Each subscription identifier belongs to one user, `owner`, and none is empty.
use vn_bot.Base.{
  ℕ, ◌+◌, ◌<◌, ◌≡◌, refl, ap, String, true, false, not, ◌&&◌, some, List, [], ◌∷◌, ◌++◌, ℤ, arith,
  inl, inr, Bool-cases, ◌==◌, ==_iff, if◌then◌else◌, str_eq, length,
}
use vn_bot.Base.Maps.{integer_key, text_key, lookup, IsUnique}
use vn_bot.Caches.Elements.{Cache, has, without}

-- Each address stands in the list once.
abbrev pub AreDistinct : List ℕ → Type 0
AreDistinct [] = Unit
AreDistinct (x ∷ xs) = (has x xs ≡ false) × AreDistinct xs

pub has-without : (e x : ℕ) (xs : List ℕ) → has x (without e xs) ≡ (not (x == e) && has x xs)
has-without e x [] = ground arith
has-without e x (y ∷ xs) = ground (arith, has-without e x xs, ==_iff y x, ==_iff y e, ==_iff x e)

pub has-append : (x : ℕ) (xs ys : List ℕ) → has x (xs ++ ys) ≡ (if has x xs then true else has x ys)
has-append x [] ys = ground arith
has-append x (y ∷ xs) ys = ground (arith, has-append x xs ys)

pub without-AreDistinct : (e : ℕ) (xs : List ℕ) → AreDistinct xs → AreDistinct (without e xs)
without-AreDistinct e [] d = tt
without-AreDistinct e (x ∷ xs) d = elim (Bool-cases (x == e)) [
  | inl p ↦ rw p (without-AreDistinct e xs d.1)
  | inr p ↦ rw p (ground (arith, has-without e x xs, d.0), without-AreDistinct e xs d.1)
]

pub push-AreDistinct :
    (e : ℕ) (xs : List ℕ) → has e xs ≡ false → AreDistinct xs → AreDistinct (xs ++ e ∷ [])
push-AreDistinct e [] h d = (refl, tt)
push-AreDistinct e (x ∷ xs) h d = (
  ground (arith, has-append x xs (e ∷ []), d.0, ==_iff e x),
  push-AreDistinct e xs (ground arith) d.1,
)

pub without_absent : (e : ℕ) (xs : List ℕ) → has e xs ≡ false → without e xs ≡ xs
without_absent e [] h = refl
without_absent e (x ∷ xs) h = ground (arith, without_absent e xs)

pub length-without :
    (e : ℕ) (xs : List ℕ)
    → AreDistinct xs
    → length (without e xs) + (if has e xs then 1 else 0) ≡ length xs
length-without e [] d = omega arith
length-without e (x ∷ xs) d = elim (Bool-cases (x == e)) [
  | inl p ↦
      let q = (==_iff x e).0 p in
      ground (arith, p, d.0, without_absent e xs, ap (λ (y : ℕ). has y xs) q)
  | inr p ↦ ground (arith, p, length-without e xs d.1)
]

-- What the code relies on: where an address of the list leads, and back.
pub record Linked (owner : String → ℤ) (c : Cache) : Type 0 where
  pub users :
      (t : ℤ) (e : ℕ)
      → lookup t c.items ≡ some e
      → (has e c.lru ≡ true) × ((c.memory e).telegram_id ≡ t)
  pub subs :
      (x : String) (e : ℕ)
      → lookup x c.by_sub_id ≡ some e
      → (has e c.lru ≡ true) × ((c.memory e).sub_id ≡ x)
  pub by_user : (e : ℕ) → has e c.lru ≡ true → lookup (c.memory e).telegram_id c.items ≡ some e
  pub by_sub : (e : ℕ) → has e c.lru ≡ true → lookup (c.memory e).sub_id c.by_sub_id ≡ some e
  pub named : (e : ℕ) → has e c.lru ≡ true → str_eq (c.memory e).sub_id "" ≡ false
  pub owned : (e : ℕ) → has e c.lru ≡ true → owner (c.memory e).sub_id ≡ (c.memory e).telegram_id
  pub carried :
      (e : ℕ) → has e c.lru ≡ true → (c.memory e).sub.subscription_id ≡ (c.memory e).sub_id
  pub used : (e : ℕ) → has e c.lru ≡ true → e < c.next
  pub distinct : AreDistinct c.lru
  pub unique : IsUnique c.items
  pub sizes : length c.items ≡ length c.lru
