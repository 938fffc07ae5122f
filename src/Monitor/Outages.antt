-- ===== src/Monitor/Outages.antt =====
-- internal/database/netmon_state.go: the outages of a target over a sequence of checks.
use vn_bot.Base.{ℕ, ◌+◌, ◌≡◌, false, is_some, List, [], ◌∷◌, arith, if◌then◌else◌, All}
use vn_bot.Monitor.Target.{
  MonitorTarget, MonitorCheckResult, TargetTransition, is_down, apply_target_check,
}

abbrev opens : TargetTransition → ℕ
opens tr = if is_some tr.open_at then 1 else 0

abbrev closes : TargetTransition → ℕ
closes tr = if is_some tr.close_at then 1 else 0

-- A run of checks: the target behind it, with the outages that were opened and closed.
unfoldable pub run_checks : ℕ → List MonitorCheckResult → MonitorTarget → MonitorTarget × ℕ × ℕ
run_checks down_after [] t = (t, 0, 0)
run_checks down_after (r ∷ rs) t =
    let (t', tr) = apply_target_check t r down_after in
    let (t'', o, c) = run_checks down_after rs t' in (t'', opens tr + o, closes tr + c)

abbrev pub open_outages : MonitorTarget → ℕ
open_outages t = if is_down t.status then 1 else 0

check_balances :
    (t : MonitorTarget) (r : MonitorCheckResult) (n : ℕ)
    → let (t', tr) = apply_target_check t r n in
      open_outages t + opens tr ≡ open_outages t' + closes tr
unfolding apply_target_check
check_balances t r n = ground arith

-- Over any run of checks, the outages open before and those opened make up those closed and the one
-- that is open at the end, if the target is down then: no outage is opened twice or closed twice.
pub outages_balance :
    (n : ℕ) (rs : List MonitorCheckResult) (t : MonitorTarget)
    → let (t', opened, closed) = run_checks n rs t in
      open_outages t + opened ≡ open_outages t' + closed
unfolding run_checks
outages_balance n [] t = omega arith
outages_balance n (r ∷ rs) t =
    omega (arith, check_balances t r n, outages_balance n rs (apply_target_check t r n).0)

abbrev AllFail : List MonitorCheckResult → Type 0
AllFail = All (λ r. r.ok ≡ false)
