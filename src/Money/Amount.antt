-- ===== src/Money/Amount.antt =====
-- internal/service/payment/platega/callback.go: `ParseCallbackAmount`.
use vn_bot.Base.{
  ℕ, suc, ◌+◌, ◌-◌, ◌*◌, ◌/◌, ◌&&◌, ◌||◌, Option, none, some, List, [], ◌∷◌, ℤ, pos, negsuc, ltb_ℤ,
  ◌==◌, ltb, leb, if◌then◌else◌, length, take,
}
use vn_bot.Money.Text.{
  Text, max_int64, trim_space, trim_right, has_sign, contains, split, is_empty, parse_int,
}

-- What is left of the fraction: two digits, if only zeroes stand behind them.
unfoldable pub two_places : Text → Option Text
two_places f =
    if ltb 2 (length f) && ltb 2 (length (trim_right (λ c. c == b'0') f))
    then none
    else some (take 2 f)

-- The fraction filled up to two digits.
abbrev pub padded : Text → Text
padded [] = b'0' ∷ b'0' ∷ []
padded (a ∷ []) = a ∷ b'0' ∷ []
padded (a ∷ b ∷ r) = a ∷ b ∷ r

-- a - b, as an integer.
abbrev pub sub_ℕ : ℕ → ℕ → ℤ
sub_ℕ a b = if leb b a then pos (a - b) else negsuc (b - a - 1)

-- `whole*100 + fraction`.
unfoldable pub cents_of : ℤ → ℤ → ℤ
cents_of (pos w) (pos f) = pos (w * 100 + f)
cents_of (pos w) (negsuc n) = sub_ℕ (w * 100) (suc n)
cents_of (negsuc w) (pos f) = sub_ℕ f (suc w * 100)
cents_of (negsuc w) (negsuc n) = negsuc (suc w * 100 + n)

-- `math.MaxInt64 - fraction`, which wraps around where the fraction is negative.
unfoldable pub max_minus : ℤ → ℤ
max_minus (pos f) = sub_ℕ max_int64 f
max_minus (negsuc n) = negsuc (max_int64 - n)

unfoldable pub checked_cents : ℤ → Option ℤ → Option ℤ
unfolding cents_of max_minus
checked_cents whole none = none
checked_cents whole (some f) =
    if ltb_ℤ (max_minus f) (cents_of whole (pos 0)) then none else some (cents_of whole f)

unfoldable pub amount_of : Option ℤ → Text → Option ℤ
unfolding checked_cents
amount_of none f = none
amount_of (some whole) f =
    if ltb_ℤ (pos (max_int64 / 100)) whole then none else checked_cents whole (parse_int f)

unfoldable pub amount_parts : Text → Option Text → Option ℤ
unfolding amount_of
amount_parts w none = none
amount_parts w (some f) = amount_of (parse_int w) (padded f)

-- The text before and after the point.
unfoldable pub parse_split : List Text → Option ℤ
unfolding amount_parts two_places
parse_split [] = none
parse_split (w ∷ []) = if is_empty w then none else amount_parts w (two_places [])
parse_split (w ∷ f ∷ []) = if is_empty w then none else amount_parts w (two_places f)
parse_split (w ∷ f ∷ g ∷ r) = none

-- `ParseCallbackAmount`, with none for an error.
unfoldable pub parse_callback_amount : Text → Option ℤ
unfolding parse_split
parse_callback_amount amount =
    let raw = trim_space amount in
    if is_empty raw || has_sign raw || contains b'e' raw || contains b'E' raw
    then none
    else parse_split (split b'.' raw)
