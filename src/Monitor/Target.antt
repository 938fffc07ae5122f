-- ===== src/Monitor/Target.antt =====
-- internal/database/netmon_state.go: `applyTargetCheck` and `monitorBucketOf`.
use vn_bot.Base.{
  ℕ, zero, suc, ◌+◌, ◌-◌, ◌%◌, String, Bool, true, false, not, ◌&&◌, Option, none, some, ltb, leb,
  if◌then◌else◌,
}

-- A status is a text in the source; these four values are all that it takes.
pub data MonitorStatus : Type 0 where
  unknown up degraded down : MonitorStatus

abbrev pub is_up : MonitorStatus → Bool
is_up MonitorStatus.up = true
is_up _ = false

abbrev pub is_down : MonitorStatus → Bool
is_down MonitorStatus.down = true
is_down _ = false

pub record MonitorTarget : Type 0 where
  pub status : MonitorStatus
  pub status_since : Option ℕ
  pub consecutive_failures : ℕ
  pub first_failure_at : Option ℕ
  pub last_checked_at : Option ℕ
  pub last_up_at : Option ℕ
  pub last_down_at : Option ℕ
  pub last_latency_ms : Option ℕ
  pub last_error : String

pub record MonitorCheckResult : Type 0 where
  pub ok : Bool
  pub latency_ms : ℕ
  pub error_code : String
  pub checked_at : ℕ

-- `targetTransition`: the outage that a check opens, with its error, and the one that it closes.
pub record TargetTransition : Type 0 where
  pub open_at : Option (ℕ × String)
  pub close_at : Option ℕ

abbrev pub succeeded : MonitorCheckResult → MonitorTarget → MonitorTarget
succeeded r t = record t {
  last_checked_at = some r.checked_at;
  last_latency_ms = some r.latency_ms;
  last_up_at = some r.checked_at;
  last_error = "";
  consecutive_failures = 0;
  first_failure_at = none;
  status = MonitorStatus.up;
  status_since = if is_up t.status then t.status_since else some r.checked_at;
}

abbrev pub closing : MonitorCheckResult → MonitorTarget → TargetTransition
closing r t = record {
  open_at = none;
  close_at = if is_down t.status then some r.checked_at else none;
}

-- The first failure of the run that this one belongs to.
abbrev pub first_failure : ℕ → Option ℕ → ℕ → ℕ
first_failure zero at now = now
first_failure (suc n) none now = now
first_failure (suc n) (some at) now = at

abbrev pub failure_start : MonitorCheckResult → MonitorTarget → ℕ
failure_start r t = first_failure t.consecutive_failures t.first_failure_at r.checked_at

abbrev pub failed : MonitorCheckResult → MonitorTarget → MonitorTarget
failed r t = record t {
  last_checked_at = some r.checked_at;
  last_latency_ms = none;
  last_error = r.error_code;
  first_failure_at = some (failure_start r t);
  consecutive_failures = t.consecutive_failures + 1;
}

abbrev pub taken_down : ℕ → MonitorTarget → MonitorTarget
taken_down since t = record t {
  status = MonitorStatus.down;
  status_since = some since;
  last_down_at = some since;
}

abbrev pub threshold : ℕ → ℕ
threshold down_after = if ltb down_after 1 then 1 else down_after

-- `applyTargetCheck`; a threshold below 1 counts as 1.
unfoldable pub apply_target_check :
    MonitorTarget → MonitorCheckResult → ℕ → MonitorTarget × TargetTransition
apply_target_check t r down_after =
    if r.ok
    then (succeeded r t, closing r t)
    else (if not (is_down t.status) && leb (threshold down_after) (t.consecutive_failures + 1)
        then (
          taken_down (failure_start r t) (failed r t),
          record { open_at = some (failure_start r t, r.error_code); close_at = none },
        )
        else (failed r t, record { open_at = none; close_at = none }))

-- `monitorBucketOf`: the start of the five minutes that the time is in.
unfoldable pub monitor_bucket_of : ℕ → ℕ
monitor_bucket_of u = u - u % 300
