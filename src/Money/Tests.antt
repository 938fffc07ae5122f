-- ===== src/Money/Tests.antt =====
-- The two parsers at "12", "12.", "12.5", "12.570" and "0.125".
use vn_bot.Base.{◌≡◌, some, [], ◌∷◌, pos, arith}
use vn_bot.Money.Amount.{parse_callback_amount}
use vn_bot.Money.Commission.{commission_cents}
use vn_bot.Money.Digits.{shown, with_point}
use vn_bot.Money.Laws.{parse_callback_amount_lem}
use vn_bot.Money.Rounding.{commission_cents_lem}

parse_callback_amount_lem_example :
    (parse_callback_amount (shown (1 ∷ 2 ∷ [])) ≡ some (pos 1200))
    × (parse_callback_amount (with_point (1 ∷ 2 ∷ []) []) ≡ some (pos 1200))
    × (parse_callback_amount (with_point (1 ∷ 2 ∷ []) (5 ∷ [])) ≡ some (pos 1250))
    × (parse_callback_amount (with_point (1 ∷ 2 ∷ []) (5 ∷ 7 ∷ 0 ∷ [])) ≡ some (pos 1257))
parse_callback_amount_lem_example =
    parse_callback_amount_lem 1 (2 ∷ []) 5 7 (0 ∷ []) (omega arith, (omega arith, tt))
      (omega arith, (omega arith, (omega arith, tt)))

commission_cents_lem_example : commission_cents (with_point (0 ∷ []) (1 ∷ 2 ∷ 5 ∷ [])) ≡ some 13
commission_cents_lem_example =
    commission_cents_lem 0 [] 1 2 5 [] (omega arith, tt)
      (omega arith, (omega arith, (omega arith, tt)))
