-- ===== src/Money/Commission.antt =====
-- internal/service/payment/platega/status.go: `CommissionCents`, half-up rounding to cents.
use vn_bot.Base.{
  ℕ, ◌+◌, ◌-◌, ◌*◌, ◌/◌, Bool, true, false, not, ◌&&◌, ◌||◌, Option, none, some, List, [], ◌∷◌, ℤ,
  pos, negsuc, ◌++◌, ◌==◌, ltb, leb, if◌then◌else◌,
}
use vn_bot.Money.Text.{
  Text, max_int64, trim_space, has_sign, contains, split, is_empty, is_digit, parse_int,
}

unfoldable pub all_digits : Text → Bool
all_digits [] = true
all_digits (c ∷ s) = is_digit c && all_digits s

-- The first two digits of the fraction, as cents.
unfoldable pub fraction_cents : Text → ℕ
fraction_cents [] = 0
fraction_cents (a ∷ []) = (a - b'0') * 10
fraction_cents (a ∷ b ∷ r) = (a - b'0') * 10 + (b - b'0')

-- Whether the third digit is 5 or more.
unfoldable pub rounds_up : Text → Bool
rounds_up (a ∷ b ∷ c ∷ r) = leb b'5' c
rounds_up _ = false

-- The range checks of the sum and of the rounding.
unfoldable pub rounded : ℕ → ℕ → Bool → Option ℕ
rounded whole cents up =
    if ltb ((max_int64 - cents) / 100) whole
    then none
    else (if up
        then (if whole * 100 + cents == max_int64 then none else some (whole * 100 + cents + 1))
        else some (whole * 100 + cents))

-- The whole part has digits alone, so that it is not negative.
unfoldable pub commission_of : Option ℤ → Text → Option ℕ
unfolding rounded fraction_cents rounds_up
commission_of none f = none
commission_of (some (negsuc n)) f = none
commission_of (some (pos w)) f = rounded w (fraction_cents f) (rounds_up f)

unfoldable pub commission_parts : Text → Text → Option ℕ
unfolding commission_of all_digits
commission_parts w f =
    if is_empty w || not (all_digits (w ++ f)) then none else commission_of (parse_int w) f

unfoldable pub commission_split : List Text → Option ℕ
unfolding commission_parts
commission_split [] = none
commission_split (w ∷ []) = commission_parts w []
commission_split (w ∷ f ∷ []) = commission_parts w f
commission_split (w ∷ f ∷ g ∷ r) = none

-- `CommissionCents`, with none for an error.
unfoldable pub commission_cents : Text → Option ℕ
unfolding commission_split
commission_cents commission =
    let raw = trim_space commission in
    if is_empty raw || has_sign raw || contains b'e' raw || contains b'E' raw
    then none
    else commission_split (split b'.' raw)
