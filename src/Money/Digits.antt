-- ===== src/Money/Digits.antt =====
-- What the two parsers do with a text of digits around a point.
use vn_bot.Base.{
  ℕ, ◌+◌, ◌-◌, ◌*◌, ◌≤◌, ◌<◌, ◌≡◌, refl, true, false, some, List, [], ◌∷◌, ◌++◌, arith, All,
}
use vn_bot.Money.Text.{
  Text, is_space, is_digit, trim_left, trim_right, trim_space, contains, split, digits_from,
  positive, parse_int,
}

-- Digits as numbers from 0 to 9, and the text that shows them.
abbrev pub IsDecimal : List ℕ → Type 0
IsDecimal = All (λ d. d ≤ 9)

abbrev pub shown : List ℕ → Text
shown [] = []
shown (d ∷ ds) = (b'0' + d) ∷ shown ds

abbrev pub value_from : ℕ → List ℕ → ℕ
value_from acc [] = acc
value_from acc (d ∷ ds) = value_from (acc * 10 + d) ds

-- The number that the digits stand for.
abbrev pub value : List ℕ → ℕ
value = value_from 0

digit_facts :
    (d : ℕ)
    → d ≤ 9
    → (is_digit (b'0' + d) ≡ true) × (is_space (b'0' + d) ≡ false) × (b'0' + d - b'0' ≡ d)
unfolding is_space
digit_facts d h = ground arith

pub digits_from-shown :
    (acc : ℕ) (ds : List ℕ) → IsDecimal ds → digits_from acc (shown ds) ≡ some (value_from acc ds)
unfolding digits_from
digits_from-shown acc [] h = refl
digits_from-shown acc (d ∷ ds) h =
    ground (arith, digit_facts d h.0, digits_from-shown (acc * 10 + d) ds h.1)

-- No trimmed character: a text in which none is a space.
abbrev pub NoSpace : Text → Type 0
NoSpace = All (λ c. is_space c ≡ false)

trim_left-NoSpace : (s : Text) → NoSpace s → trim_left s ≡ s
unfolding trim_left
trim_left-NoSpace [] h = refl
trim_left-NoSpace (c ∷ s) h = rw h.0

trim_right-NoSpace : (s : Text) → NoSpace s → trim_right is_space s ≡ s
unfolding trim_right
trim_right-NoSpace [] h = refl
trim_right-NoSpace (c ∷ s) h = rw h.0 (rw (trim_right-NoSpace s h.1))

pub trim_space-NoSpace : (s : Text) → NoSpace s → trim_space s ≡ s
unfolding trim_space
trim_space-NoSpace s h = rw (trim_left-NoSpace s h) (trim_right-NoSpace s h)

-- The texts `ds` and `ds.fs`.
abbrev pub with_point : List ℕ → List ℕ → Text
with_point ds fs = shown ds ++ b'.' ∷ shown fs

pub shown-NoSpace : (ds : List ℕ) → IsDecimal ds → NoSpace (shown ds)
shown-NoSpace [] h = tt
shown-NoSpace (d ∷ ds) h = ((digit_facts d h.0).1, shown-NoSpace ds h.1)

NoSpace-append : (s t : Text) → NoSpace s → NoSpace t → NoSpace (s ++ t)
NoSpace-append [] t h k = k
NoSpace-append (c ∷ s) t h k = (h.0, NoSpace-append s t h.1 k)

pub trim-with_point :
    (ds fs : List ℕ)
    → IsDecimal ds
    → IsDecimal fs
    → trim_space (with_point ds fs) ≡ with_point ds fs
trim-with_point ds fs h k = trim_space-NoSpace (with_point ds fs) (
    NoSpace-append (shown ds) (b'.' ∷ shown fs) (shown-NoSpace ds h)
      (unfold is_space in refl, shown-NoSpace fs k))

pub split-shown : (fs : List ℕ) → IsDecimal fs → split b'.' (shown fs) ≡ shown fs ∷ []
unfolding split
split-shown [] h = refl
split-shown (d ∷ ds) h = ground (arith, split-shown ds h.1)

pub split-with_point :
    (ds fs : List ℕ)
    → IsDecimal ds
    → IsDecimal fs
    → split b'.' (with_point ds fs) ≡ shown ds ∷ shown fs ∷ []
unfolding split
split-with_point [] fs h k = rw (split-shown fs k)
split-with_point (d ∷ ds) fs h k = ground (arith, split-with_point ds fs h.1 k)

pub contains-shown : (x : ℕ) (ds : List ℕ) → IsDecimal ds → b'9' < x → contains x (shown ds) ≡ false
unfolding contains
contains-shown x [] h lt = refl
contains-shown x (d ∷ ds) h lt = ground (arith, contains-shown x ds h.1)

pub contains-with_point :
    (x : ℕ) (ds fs : List ℕ)
    → IsDecimal ds
    → IsDecimal fs
    → b'9' < x
    → contains x (with_point ds fs) ≡ false
unfolding contains
contains-with_point x [] fs h k lt = ground (arith, contains-shown x fs k)
contains-with_point x (d ∷ ds) fs h k lt = ground (arith, contains-with_point x ds fs h.1 k)

pub parse_int-shown :
    (d : ℕ) (ds : List ℕ)
    → IsDecimal (d ∷ ds)
    → parse_int (shown (d ∷ ds)) ≡ positive (some (value (d ∷ ds)))
unfolding parse_int
parse_int-shown d ds h = ground (arith, digits_from-shown 0 (d ∷ ds) h)
