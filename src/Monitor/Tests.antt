-- ===== src/Monitor/Tests.antt =====
-- The theorems on outages at a target that fails twice and recovers, and
-- runs for the statuses of a country.
use vn_bot.Base.{ℕ, ◌+◌, ◌≡◌, refl, true, false, none, some, List, [], ◌∷◌}
use vn_bot.Monitor.Target.{MonitorStatus, MonitorTarget, MonitorCheckResult}
use vn_bot.Monitor.Country.{
  CloseReason, monitor_country_status_of, monitor_aggregate_status, country_transition,
}
use vn_bot.Monitor.Outages.{run_checks, open_outages, outages_balance}

abbrev fresh : MonitorTarget
fresh = record {
  status = MonitorStatus.unknown;
  status_since = none;
  consecutive_failures = 0;
  first_failure_at = none;
  last_checked_at = none;
  last_up_at = none;
  last_down_at = none;
  last_latency_ms = none;
  last_error = "";
}

abbrev failure : ℕ → MonitorCheckResult
failure at = record { ok = false; latency_ms = 0; error_code = "timeout"; checked_at = at }

abbrev success : ℕ → MonitorCheckResult
success at = record { ok = true; latency_ms = 20; error_code = ""; checked_at = at }

abbrev two_outages : List MonitorCheckResult
two_outages = failure 1 ∷ failure 2 ∷ failure 3 ∷ success 4 ∷ failure 5 ∷ failure 6 ∷ []

outages_balance_example :
    let (t, opened, closed) = run_checks 2 two_outages fresh in
    open_outages fresh + opened ≡ open_outages t + closed
outages_balance_example = outages_balance 2 two_outages fresh

one_of_two_targets :
    monitor_country_status_of (MonitorStatus.up ∷ MonitorStatus.unknown ∷ MonitorStatus.down ∷ [])
    ≡ MonitorStatus.degraded
unfolding monitor_country_status_of
one_of_two_targets = refl

no_verdict : monitor_country_status_of (MonitorStatus.unknown ∷ []) ≡ MonitorStatus.unknown
unfolding monitor_country_status_of
no_verdict = refl

a_degraded_country :
    monitor_aggregate_status (MonitorStatus.down ∷ MonitorStatus.degraded ∷ [])
    ≡ MonitorStatus.degraded
unfolding monitor_aggregate_status
a_degraded_country = refl

from_degraded_to_down :
    country_transition MonitorStatus.degraded MonitorStatus.down
    ≡ (some CloseReason.changed, some MonitorStatus.down)
unfolding country_transition
from_degraded_to_down = refl

from_down_to_up :
    country_transition MonitorStatus.down MonitorStatus.up ≡ (some CloseReason.recovered, none)
unfolding country_transition
from_down_to_up = refl
