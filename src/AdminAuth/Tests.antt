-- ===== src/AdminAuth/Tests.antt =====
-- The budget of two attempts at three tries of two peers.
use vn_bot.Base.{ℕ, ◌+◌, ◌≤◌, refl, String, List, [], ◌∷◌, arith}
use vn_bot.AdminAuth.Limiter.{Limiter}
use vn_bot.AdminAuth.Budget.{run_attempts, attempts_within_total}

abbrev idle : Limiter
idle = record { peers = []; global = record { start = 100; count = 0 } }

abbrev tries : List (String × ℕ)
tries = ("a", 110) ∷ ("b", 120) ∷ ("a", 130) ∷ []

attempts_within_total_example : 0 + (run_attempts 2 2 tries idle).0 ≤ 2
attempts_within_total_example =
    attempts_within_total 2 2 tries idle (refl, (refl, (refl, tt))) (omega arith)
