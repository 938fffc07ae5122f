-- ===== src/Caches/Promises.antt =====
-- internal/bot/cache.go: what the users of `SubscriptionCache` rely on.
use vn_bot.Base.{
  ℕ, ◌+◌, ◌≤◌, ◌≡◌, refl, ap, String, Bool, true, false, not, none, some, List, [], ◌∷◌, ◌++◌, All,
  ℤ, arith, inl, inr, Bool-cases, Option-cases, ==_iff, str_eq, length, length-append, filter, find,
}
use vn_bot.Base.Maps.{integer_key, text_key, same_refl}
use vn_bot.Store.{Subscription}
use vn_bot.Caches.Elements.{
  Item, Cache, has, get, set, set_section, invalidate_by_sub_id, is_past, new_item,
}
use vn_bot.Caches.Linked.{Linked}
use vn_bot.Caches.Rows.{rows_of, rows, of_user, drop_user, room, set_row, length-rows_of}
use vn_bot.Caches.Refines.{get-Shows}
use vn_bot.Caches.Setting.{invalidate_by_sub_id-Shows, set_section-Shows}
use vn_bot.Caches.Uses.{
  Call, get_call, set_call, invalidate_call, invalidate_sub_call, clear_call, cleanup_call, call,
  list_call, run_calls, IsProper, call-Shows,
}

length-filter-le : (p : Item → Bool) (is : List Item) → length (filter p is) ≤ length is
length-filter-le p [] = omega arith
length-filter-le p (i ∷ is) = ground (arith, length-filter-le p is)

-- The rows of a user who has one are fewer without it.
length-drop_user :
    (t : ℤ) (is : List Item) {i : Item}
    → find (of_user t) is ≡ some i
    → length (drop_user t is) + 1 ≤ length is
length-drop_user t [] h = cc
length-drop_user t (j ∷ is) {i} h =
    ground (arith, length-filter-le (λ i. not (of_user t i)) is, length-drop_user t is {i = i})

length-room :
    (most : ℕ) (is : List Item) → 1 ≤ most → length is ≤ most → length (room most is) + 1 ≤ most
length-room most [] p h = ground arith
length-room most (i ∷ is) p h = ground arith

list_call-length :
    (most ttl : ℕ) (k : Call) (is : List Item)
    → 1 ≤ most
    → length is ≤ most
    → length (list_call most ttl k is).1 ≤ most
unfolding list_call
list_call-length most ttl (get_call t now later) is p h =
    elim (Option-cases (find (of_user t) is)) [
      | inl f ↦ rw f h
      | inr (i, f) ↦ ground (
        arith,
        f,
        length-drop_user t is f,
        length-append {0} (drop_user t is) (i ∷ []),
        length-filter-le (λ i. not (of_user t i)) is,
      )
    ]
list_call-length most ttl (set_call t none now) is p h = h
list_call-length most ttl (set_call t (some sub) now) is p h =
    elim (Option-cases (find (of_user t) is)) [
      | inl f ↦ rw f (
          omega (
            arith,
            length-append {0} (room most is) (new_item t sub now ttl ∷ []),
            length-room most is p h,
          ))
      | inr (i, f) ↦ rw f (
          omega (
            arith,
            length-append {0} (drop_user t is) (new_item t sub now ttl ∷ []),
            length-drop_user t is f,
          ))
    ]
list_call-length most ttl (invalidate_call t) is p h =
    omega (arith, length-filter-le (λ i. not (of_user t i)) is)
list_call-length most ttl (invalidate_sub_call x) is p h =
    omega (arith, length-filter-le (λ i. not (str_eq x i.sub_id)) is)
list_call-length most ttl clear_call is p h = omega arith
list_call-length most ttl (cleanup_call now) is p h =
    omega (arith, length-filter-le (λ i. not (is_past now i)) is)

-- A cache that fits its list, is meant for at least one user and has no more than its size keeps
-- to its size through any proper calls.
pub run_calls-length :
    (owner : String → ℤ) (ks : List Call) (c : Cache)
    → Linked owner c
    → All (IsProper owner) ks
    → 1 ≤ c.max_size
    → length c.items ≤ c.max_size
    → length (run_calls ks c).1.items ≤ c.max_size
unfolding run_calls
run_calls-length owner [] c l p one h = h
run_calls-length owner (k ∷ ks) c l p one h =
    let (s, _) = call-Shows owner k c l p.0 in
    let c' : Cache = (call k c).1 in
    let before : length (rows c) ≤ c.max_size =
      omega (arith, length-rows_of c.memory c.lru, l.sizes) in
    let after : length c'.items ≤ c.max_size = omega (
      arith,
      s.linked.sizes,
      length-rows_of c'.memory c'.lru,
      ap length s.shown,
      list_call-length c.max_size c.ttl k (rows c) one before,
    ) in
    let rest =
      run_calls-length owner ks c' s.linked p.1 (omega (arith, s.size, one))
        (omega (arith, s.size, after)) in
    omega (arith, rest, s.size)

-- The items that a test of a filter has left.
find-filter :
    (p q : Item → Bool) (is : List Item)
    → ((i : Item) → p i ≡ true → q i ≡ false)
    → find p (filter q is) ≡ none
find-filter p q [] h = refl
find-filter p q (i ∷ is) h = ground (arith, find-filter p q is h, h i)

find-append_none :
    (p : Item → Bool) (is js : List Item) → find p is ≡ none → find p (is ++ js) ≡ find p js
find-append_none p [] js h = refl
find-append_none p (i ∷ is) js h = ground (arith, find-append_none p is js)

find-room :
    (p : Item → Bool) (most : ℕ) (is : List Item) → find p is ≡ none → find p (room most is) ≡ none
find-room p most [] h = ground arith
find-room p most (i ∷ is) h = ground arith

find-set_row :
    (most ttl : ℕ) (t : ℤ) (sub : Subscription) (now : ℕ) (is : List Item)
    → find (of_user t) (set_row most ttl t sub now is) ≡ some (new_item t sub now ttl)
find-set_row most ttl t sub now is = elim (Option-cases (find (of_user t) is)) [
  | inl f ↦
      rw
        (
          f,
          find-append_none (of_user t) (room most is) (new_item t sub now ttl ∷ [])
              (find-room (of_user t) most is f),
        )
        (ground (arith, same_refl ⦃k = integer_key⦄ t))
  | inr (i, f) ↦
      rw
        (
          f,
          find-append_none (of_user t) (drop_user t is) (new_item t sub now ttl ∷ [])
              (find-filter (of_user t) (λ i. not (of_user t i)) is (λ i h. ground (arith, h))),
        )
        (ground (arith, same_refl ⦃k = integer_key⦄ t))
]

-- In a cache that fits its list, `Get` gives back what `Set` has stored for the user, a
-- subscription with an identifier that belongs to the user, until its lifetime has passed.
pub get-set :
    (owner : String → ℤ) (c : Cache) (t : ℤ) (sub : Subscription) (set_at now later : ℕ)
    → Linked owner c
    → str_eq sub.subscription_id "" ≡ false
    → owner sub.subscription_id ≡ t
    → now ≤ later
    → now ≤ set_at + c.ttl
    → (get t now later (set t (some sub) set_at c)).0 ≡ some sub
unfolding set
get-set owner c t sub set_at now later l named own le fresh =
    let s = set_section-Shows owner c l t sub set_at named own in
    let c' : Cache = set_section t sub set_at c in
    let answer = (get-Shows owner c' s.linked t now later le).1 in
    let row : find (of_user t) (rows c') ≡ some (new_item t sub set_at c.ttl) =
      rw (s.shown) (find-set_row c.max_size c.ttl t sub set_at (rows c)) in
    ground (arith, answer, row)

-- A row that a look-up gives is one of the list.
find-rows_of-has :
    (m : ℕ → Item) (p : Item → Bool) (xs : List ℕ) {i : Item}
    → find p (rows_of m xs) ≡ some i
    → (x : ℕ) × (has x xs ≡ true) × (m x ≡ i)
unfolding rows_of
find-rows_of-has m p [] h = absurd (ground arith)
find-rows_of-has m p (x ∷ xs) {i} h = elim (Bool-cases (p (m x))) [
  | inl e ↦ (x, ground (arith, ==_iff x x), ground (arith, e))
  | inr e ↦
      let (y, k, q) = find-rows_of-has m p xs {i = i} (ground (arith, e)) in
      (y, ground (arith, k), q)
]

find-filter_test :
    (p q : Item → Bool) (is : List Item) {i : Item} → find p (filter q is) ≡ some i → q i ≡ true
find-filter_test p q [] h = absurd (ground arith)
find-filter_test p q (j ∷ is) {i} h = ground (arith, find-filter_test p q is {i = i})

-- In a cache that fits its list, a `Get` right behind `InvalidateBySubID` returns nobody a
-- subscription with that identifier.
pub invalidated_not_returned :
    (owner : String → ℤ) (c : Cache) (x : String) (t : ℤ) (now later : ℕ)
    → Linked owner c
    → now ≤ later
    → (sub : Subscription) → (get t now later (invalidate_by_sub_id x c)).0 ≡ some sub
    → str_eq x sub.subscription_id ≡ false
invalidated_not_returned owner c x t now later l le sub h =
    let s = invalidate_by_sub_id-Shows owner c l x in
    let c' : Cache = invalidate_by_sub_id x c in
    let answer = (get-Shows owner c' s.linked t now later le).1 in
    elim (Option-cases (find (of_user t) (rows c'))) [
      | inl f ↦ absurd (ground (arith, f, answer, h))
      | inr (i, f) ↦
          let (y, there, q) = find-rows_of-has c'.memory (of_user t) c'.lru f in
          let kept : not (str_eq x i.sub_id) ≡ true =
            find-filter_test (of_user t) (λ j. not (str_eq x j.sub_id)) (rows c) {i = i}
              (rw (← s.shown) f) in
          let carried : i.sub.subscription_id ≡ i.sub_id = rw (← q) (s.linked.carried y there) in
          let same : i.sub ≡ sub = ground (arith, f, answer, h) in
          let named : str_eq x i.sub.subscription_id ≡ false =
            rw (carried) (ground (arith, kept)) in
          rw (← same) named
    ]
