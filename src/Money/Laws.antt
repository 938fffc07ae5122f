-- ===== src/Money/Laws.antt =====
-- The amounts that the two parsers read off a text of digits around a point.
use vn_bot.Base.{
  ℕ, ◌+◌, ◌*◌, ◌≤◌, ◌≡◌, refl, ap, ◌∙◌, Bool, true, false, Option, ℤ, ◌&&◌, none, some, List, [],
  ◌∷◌, pos, arith, ◌==◌, leb, if◌then◌else◌,
}
use vn_bot.Money.Text.{Text, max_int64, trim_right, is_empty}
use vn_bot.Money.Amount.{parse_callback_amount, two_places, amount_parts}
use vn_bot.Money.Digits.{
  IsDecimal, shown, value, with_point, trim-with_point, split-with_point, contains-with_point,
  trim_space-NoSpace, shown-NoSpace, contains-shown, split-shown, parse_int-shown,
}

abbrev all_zero : List ℕ → Bool
all_zero [] = true
all_zero (d ∷ ds) = d == 0 && all_zero ds

trim-zeroes : (ds : List ℕ) → is_empty (trim_right (λ c. c == b'0') (shown ds)) ≡ all_zero ds
unfolding trim_right
trim-zeroes [] = refl
trim-zeroes (d ∷ ds) = ground (arith, trim-zeroes ds)

-- Two places are left exactly if only zeroes stand behind them.
two_places-shown :
    (a b : ℕ) (rest : List ℕ)
    → two_places (shown (a ∷ b ∷ rest))
      ≡ (if all_zero rest then some (shown (a ∷ b ∷ [])) else none)
unfolding two_places trim_right
two_places-shown a b [] = ground arith
two_places-shown a b (c ∷ rest) = ground (arith, trim-zeroes (c ∷ rest))

parts-amount :
    (d : ℕ) (ds : List ℕ) (a b : ℕ)
    → IsDecimal (d ∷ ds)
    → a ≤ 9
    → b ≤ 9
    → amount_parts (shown (d ∷ ds)) (some (shown (a ∷ b ∷ []))) ≡ (
        if leb (value (d ∷ ds) * 100 + (a * 10 + b)) max_int64
        then some (pos (value (d ∷ ds) * 100 + (a * 10 + b)))
        else none)
unfolding amount_parts
parts-amount d ds a b h ha hb =
    rw (parse_int-shown d ds h) (ground (arith, parse_int-shown a (b ∷ []) (ha, (hb, tt))))

-- The same with one place, and with none.
parts-one :
    (w : Text) (a : ℕ)
    → amount_parts w (two_places (shown (a ∷ []))) ≡ amount_parts w (some (shown (a ∷ 0 ∷ [])))
unfolding amount_parts two_places
parts-one w a = refl

parts-none :
    (w : Text) → amount_parts w (two_places []) ≡ amount_parts w (some (shown (0 ∷ 0 ∷ [])))
unfolding amount_parts two_places
parts-none w = refl

module _ (d : ℕ) (ds : List ℕ) (h : IsDecimal (d ∷ ds)) where
  -- A text of digits with a point goes to its two parts.
  parse-with_point :
      (fs : List ℕ)
      → IsDecimal fs
      → parse_callback_amount (with_point (d ∷ ds) fs)
        ≡ amount_parts (shown (d ∷ ds)) (two_places (shown fs))
  unfolding parse_callback_amount
  parse-with_point fs k = rw (trim-with_point (d ∷ ds) fs h k) (
      rw (contains-with_point b'e' (d ∷ ds) fs h k (omega arith)) (
        rw (contains-with_point b'E' (d ∷ ds) fs h k (omega arith))
          (rw (split-with_point (d ∷ ds) fs h k) (ground (arith, h)))))

  parse-shown :
      parse_callback_amount (shown (d ∷ ds)) ≡ amount_parts (shown (d ∷ ds)) (two_places [])
  unfolding parse_callback_amount
  parse-shown = rw (trim_space-NoSpace (shown (d ∷ ds)) (shown-NoSpace (d ∷ ds) h)) (
      rw (contains-shown b'e' (d ∷ ds) h (omega arith)) (
        rw (contains-shown b'E' (d ∷ ds) h (omega arith))
          (rw (split-shown (d ∷ ds) h) (ground (arith, h)))))

-- The cents, if they fit in an int64.
abbrev pub in_int64 : ℕ → Option ℤ
in_int64 cents = if leb cents max_int64 then some (pos cents) else none

-- An amount of digits, without a point or with a point and any number of places, is read as the number
-- of cents, where a place that is missing counts as 0, if the places behind the second are zeroes and the
-- cents fit in an int64; it is refused otherwise.
pub parse_callback_amount_lem :
    (d : ℕ) (ds : List ℕ) (a b : ℕ) (rest : List ℕ)
    → IsDecimal (d ∷ ds)
    → IsDecimal (a ∷ b ∷ rest)
    → let whole = value (d ∷ ds) * 100 in
      (parse_callback_amount (shown (d ∷ ds)) ≡ in_int64 whole)
      × (parse_callback_amount (with_point (d ∷ ds) []) ≡ in_int64 whole)
      × (parse_callback_amount (with_point (d ∷ ds) (a ∷ [])) ≡ in_int64 (whole + a * 10))
      × (parse_callback_amount (with_point (d ∷ ds) (a ∷ b ∷ rest))
          ≡ (if all_zero rest then in_int64 (whole + (a * 10 + b)) else none))
parse_callback_amount_lem d ds a b rest h k =
    let whole = value (d ∷ ds) * 100 in
    let zero_cents : in_int64 (whole + (0 * 10 + 0)) ≡ in_int64 whole = ap in_int64 (omega arith) in
    let ten_cents : in_int64 (whole + (a * 10 + 0)) ≡ in_int64 (whole + a * 10) =
      ap in_int64 (omega arith) in
    let bare = parts-none (shown (d ∷ ds)) ∙ parts-amount d ds 0 0 h (omega arith) (omega arith) in
    let single = parts-one (shown (d ∷ ds)) a ∙ parts-amount d ds a 0 h k.0 (omega arith) in
    (
      parse-shown d ds h ∙ bare ∙ zero_cents,
      parse-with_point d ds h [] tt ∙ bare ∙ zero_cents,
      parse-with_point d ds h (a ∷ []) (k.0, tt) ∙ single ∙ ten_cents,
      parse-with_point d ds h (a ∷ b ∷ rest) k
          ∙ ap (amount_parts (shown (d ∷ ds))) (two_places-shown a b rest)
          ∙ parts-if (all_zero rest),
    )
  where
    parts-if :
        (z : Bool)
        → amount_parts (shown (d ∷ ds)) (if z then some (shown (a ∷ b ∷ [])) else none)
          ≡ (if z then in_int64 (value (d ∷ ds) * 100 + (a * 10 + b)) else none)
    parts-if true = parts-amount d ds a b h k.0 k.1.0
    parts-if false = unfold amount_parts in refl
