-- ===== src/Money/Rounding.antt =====
-- The cents that `CommissionCents` reads off a text of digits around a point.
use vn_bot.Base.{
  ℕ, ◌+◌, ◌*◌, ◌≤◌, ◌≡◌, refl, Bool, true, false, none, some, List, [], ◌∷◌, ◌++◌, arith, leb,
  if◌then◌else◌,
}
use vn_bot.Money.Text.{max_int64, positive}
use vn_bot.Money.Commission.{
  commission_cents, commission_split, commission_parts, commission_of, rounded, all_digits,
  fraction_cents, rounds_up,
}
use vn_bot.Money.Digits.{
  IsDecimal, shown, value, with_point, trim-with_point, split-with_point, contains-with_point,
  parse_int-shown,
}

all_digits-shown :
    (ds fs : List ℕ) → IsDecimal ds → IsDecimal fs → all_digits (shown ds ++ shown fs) ≡ true
unfolding all_digits
all_digits-shown [] [] h k = refl
all_digits-shown [] (f ∷ fs) h k = ground (arith, all_digits-shown [] fs tt k.1)
all_digits-shown (d ∷ ds) fs h k = ground (arith, all_digits-shown ds fs h.1 k)

-- The two range checks refuse exactly the sums that do not fit.
rounded_lem :
    (whole cents : ℕ) (up : Bool)
    → cents ≤ 99
    → rounded whole cents up ≡ (
        if leb (whole * 100 + cents + (if up then 1 else 0)) max_int64
        then some (whole * 100 + cents + (if up then 1 else 0))
        else none)
unfolding rounded
rounded_lem whole cents true h = ground arith
rounded_lem whole cents false h = ground arith

of_parts :
    (n a b c : ℕ) (rest : List ℕ)
    → a ≤ 9
    → b ≤ 9
    → c ≤ 9
    → commission_of (positive (some n)) (shown (a ∷ b ∷ c ∷ rest)) ≡ (
        let cents = n * 100 + (a * 10 + b) + (if leb 5 c then 1 else 0) in
        if leb cents max_int64 then some cents else none)
unfolding commission_of fraction_cents rounds_up
of_parts n a b c rest ha hb hc = ground (arith, rounded_lem n (a * 10 + b) (leb 5 c))

-- A commission of digits with three or more places is read as the number of cents rounded half up
-- at the third place, and is refused exactly if that number does not fit in an int64.
pub commission_cents_lem :
    (d : ℕ) (ds : List ℕ) (a b c : ℕ) (rest : List ℕ)
    → IsDecimal (d ∷ ds)
    → IsDecimal (a ∷ b ∷ c ∷ rest)
    → let cents = value (d ∷ ds) * 100 + (a * 10 + b) + (if leb 5 c then 1 else 0) in
      commission_cents (with_point (d ∷ ds) (a ∷ b ∷ c ∷ rest))
      ≡ (if leb cents max_int64 then some cents else none)
unfolding commission_cents commission_split commission_parts
commission_cents_lem d ds a b c rest h k = rw (trim-with_point (d ∷ ds) (a ∷ b ∷ c ∷ rest) h k) (
    rw (contains-with_point b'e' (d ∷ ds) (a ∷ b ∷ c ∷ rest) h k (omega arith)) (
      rw (contains-with_point b'E' (d ∷ ds) (a ∷ b ∷ c ∷ rest) h k (omega arith)) (
        rw (split-with_point (d ∷ ds) (a ∷ b ∷ c ∷ rest) h k) (
          rw (all_digits-shown (d ∷ ds) (a ∷ b ∷ c ∷ rest) h k) (
            rw (parse_int-shown d ds h)
              (ground (arith, of_parts (value (d ∷ ds)) a b c rest k.0 k.1.0 k.1.1.0)))))))
