-- ===== src/Monitor/Country.antt =====
-- internal/database/netmon_state.go: `MonitorCountryStatusOf`, `MonitorAggregateStatus` and
-- `countryTransition`.
use vn_bot.Base.{
  Bool, true, false, ◌&&◌, ◌||◌, Option, none, some, List, ◌==◌, if◌then◌else◌, count,
}
use vn_bot.Monitor.Target.{MonitorStatus, is_up, is_down}

abbrev is_degraded : MonitorStatus → Bool
is_degraded MonitorStatus.degraded = true
is_degraded _ = false

abbrev is_unknown : MonitorStatus → Bool
is_unknown MonitorStatus.unknown = true
is_unknown _ = false

-- `MonitorCountryStatusOf`.
unfoldable pub monitor_country_status_of : List MonitorStatus → MonitorStatus
monitor_country_status_of ss =
    if count is_up ss == 0 && count is_down ss == 0
    then MonitorStatus.unknown
    else (if count is_down ss == 0
        then MonitorStatus.up
        else (if count is_up ss == 0 then MonitorStatus.down else MonitorStatus.degraded))

-- `MonitorAggregateStatus`.
unfoldable pub monitor_aggregate_status : List MonitorStatus → MonitorStatus
monitor_aggregate_status ss =
    if count is_up ss == 0 && count is_down ss == 0 && count is_degraded ss == 0
    then MonitorStatus.unknown
    else (if count is_down ss == 0 && count is_degraded ss == 0
        then MonitorStatus.up
        else (if count is_up ss == 0 && count is_degraded ss == 0
            then MonitorStatus.down
            else MonitorStatus.degraded))

pub data CloseReason : Type 0 where
  recovered changed : CloseReason

abbrev same_status : MonitorStatus → MonitorStatus → Bool
same_status MonitorStatus.unknown s = is_unknown s
same_status MonitorStatus.up s = is_up s
same_status MonitorStatus.degraded s = is_degraded s
same_status MonitorStatus.down s = is_down s

abbrev is_outage : MonitorStatus → Bool
is_outage s = is_down s || is_degraded s

-- `countryTransition`: why an outage closes, and the kind of one that opens.
unfoldable pub country_transition :
    MonitorStatus → MonitorStatus → Option CloseReason × Option MonitorStatus
country_transition prev next = if is_unknown next || same_status prev next then (none, none) else (
  if is_outage prev
      then some (if is_up next then CloseReason.recovered else CloseReason.changed)
      else none,
  if is_outage next then some next else none,
)
