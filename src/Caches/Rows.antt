-- ===== src/Caches/Rows.antt =====
-- internal/bot/cache.go: what `SubscriptionCache` stands for, a list of items from the least to the
-- most recently used, and how its lists and maps are read there.
use vn_bot.Base.{
  ℕ, ◌≡◌, refl, ap, String, Bool, true, false, not, Option, none, some, List, [], ◌∷◌, ◌++◌, ℤ,
  arith, inl, inr, Bool-cases, ◌==◌, ==_iff, if◌then◌else◌, str_eq, leb, length, filter, find,
}
use vn_bot.Base.Maps.{integer_key, same_ℤ}
use vn_bot.Store.{Subscription}
use vn_bot.Caches.Elements.{Item, Cache, has, write, is_past, new_item}

unfoldable pub rows_of : (ℕ → Item) → List ℕ → List Item
rows_of m [] = []
rows_of m (x ∷ xs) = m x ∷ rows_of m xs

abbrev pub rows : Cache → List Item
rows c = rows_of c.memory c.lru

abbrev pub of_user : ℤ → Item → Bool
of_user t i = same_ℤ t i.telegram_id

-- The list without the items of a user.
abbrev pub drop_user : ℤ → List Item → List Item
drop_user t = filter (λ i. not (of_user t i))

abbrev pub drop_first : List Item → List Item
drop_first [] = []
drop_first (_ ∷ is) = is

abbrev pub get_item : ℤ → ℕ → List Item → Option Item → Option Subscription × List Item
get_item t now is none = (none, is)
get_item t now is (some i) =
    if is_past now i then (none, drop_user t is) else (some i.sub, drop_user t is ++ i ∷ [])

-- `Get`: an expired item goes, another becomes the most recently used.
abbrev pub get_row : ℤ → ℕ → List Item → Option Subscription × List Item
get_row t now is = get_item t now is (find (of_user t) is)

abbrev pub room : ℕ → List Item → List Item
room most is = if leb most (length is) then drop_first is else is

abbrev pub cleared_for : ℕ → ℤ → List Item → Option Item → List Item
cleared_for most t is none = room most is
cleared_for most t is (some _) = drop_user t is

-- `Set`: the new item is the most recently used, and takes the place of the user's or, in a full
-- cache, of the least recently used one.
abbrev pub set_row : ℕ → ℕ → ℤ → Subscription → ℕ → List Item → List Item
set_row most ttl t sub now is =
    cleared_for most t is (find (of_user t) is) ++ new_item t sub now ttl ∷ []

abbrev pub drop_sub : String → List Item → List Item
drop_sub x = filter (λ i. not (str_eq x i.sub_id))

abbrev pub drop_past : ℕ → List Item → List Item
drop_past now = filter (λ i. not (is_past now i))

pub rows_of-append :
    (m : ℕ → Item) (xs ys : List ℕ) → rows_of m (xs ++ ys) ≡ rows_of m xs ++ rows_of m ys
unfolding rows_of
rows_of-append m [] ys = refl
rows_of-append m (x ∷ xs) ys = ap (◌∷◌ (m x)) (rows_of-append m xs ys)

pub length-rows_of : (m : ℕ → Item) (xs : List ℕ) → length (rows_of m xs) ≡ length xs
unfolding rows_of
length-rows_of m [] = refl
length-rows_of m (x ∷ xs) = omega (arith, length-rows_of m xs)

-- What is written at an address outside a list does not show there.
pub rows_of-write :
    (m : ℕ → Item) (e : ℕ) (i : Item) (xs : List ℕ)
    → has e xs ≡ false
    → rows_of (write e i m) xs ≡ rows_of m xs
unfolding rows_of
rows_of-write m e i [] h = refl
rows_of-write m e i (x ∷ xs) h = ground (arith, rows_of-write m e i xs)

-- A test on items that agrees with one on addresses selects the same.
pub filter-rows_of :
    (m : ℕ → Item) (p : Item → Bool) (q : ℕ → Bool) (xs : List ℕ)
    → ((x : ℕ) → has x xs ≡ true → p (m x) ≡ q x)
    → filter p (rows_of m xs) ≡ rows_of m (filter q xs)
unfolding rows_of
filter-rows_of m p q [] h = refl
filter-rows_of m p q (x ∷ xs) h =
    let ih = filter-rows_of m p q xs (λ y k. h y (ground (arith, k))) in
    let here = h x (ground (arith, ==_iff x x)) in ground (arith, ih, here)

pub find-rows_of :
    (m : ℕ → Item) (p : Item → Bool) (e : ℕ) (xs : List ℕ)
    → has e xs ≡ true
    → ((x : ℕ) → has x xs ≡ true → p (m x) ≡ (x == e))
    → find p (rows_of m xs) ≡ some (m e)
unfolding rows_of
find-rows_of m p e [] t h = absurd (ground arith)
find-rows_of m p e (x ∷ xs) t h =
    let here = h x (ground (arith, ==_iff x x)) in
    elim (Bool-cases (x == e)) [
      | inl d ↦ ground (arith, here, d, ap m ((==_iff x e).0 d))
      | inr d ↦
          let ih = find-rows_of m p e xs (ground (arith, d)) (λ y k. h y (ground (arith, k))) in
          ground (arith, here, d, ih)
    ]

pub find-rows_of-none :
    (m : ℕ → Item) (p : Item → Bool) (xs : List ℕ)
    → ((x : ℕ) → has x xs ≡ true → p (m x) ≡ false)
    → (find p (rows_of m xs) ≡ none) × (filter (λ i. not (p i)) (rows_of m xs) ≡ rows_of m xs)
unfolding rows_of
find-rows_of-none m p [] h = (refl, refl)
find-rows_of-none m p (x ∷ xs) h =
    let ih = find-rows_of-none m p xs (λ y k. h y (ground (arith, k))) in
    let here = h x (ground (arith, ==_iff x x)) in
    (ground (arith, ih.0, here), ground (arith, ih.1, here))

pub rows_of-written :
    (m : ℕ → Item) (e : ℕ) (i : Item) (xs : List ℕ)
    → has e xs ≡ false
    → rows_of (write e i m) (xs ++ e ∷ []) ≡ rows_of m xs ++ i ∷ []
unfolding rows_of
rows_of-written m e i xs h =
    rw (rows_of-append (write e i m) xs (e ∷ []), rows_of-write m e i xs h)
      (ground (arith, ==_iff e e))
