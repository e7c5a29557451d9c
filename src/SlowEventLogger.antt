-- ===== src/SlowEventLogger.antt =====
-- SlowEventLogger of include/common/slow_event_logger.h and src/common/slow_event_logger.cpp: the
-- thresholds and the counts. Each call is one step, so the compare-and-exchange loop on the
-- maximum succeeds at its first try. Durations are in milliseconds and not negative, as the clock
-- is steady.
pub mod Counts
use sip_event_processor.Prelude.{ℕ, ◌+◌, ltb, leb, if◌then◌else◌}
use sip_event_processor.Config.{Config}

pub record SlowStats : Type 0 where
  pub warn_count : ℕ
  pub error_count : ℕ
  pub critical_count : ℕ
  pub max_duration_ms : ℕ

pub record SlowEventLogger : Type 0 where
  pub warn_ms : ℕ
  pub error_ms : ℕ
  pub critical_ms : ℕ
  pub stats : SlowStats

unfoldable pub new_logger : Config → SlowEventLogger
new_logger c = record {
  warn_ms = c.slow_event_warn_threshold;
  error_ms = c.slow_event_error_threshold;
  critical_ms = c.slow_event_critical_threshold;
  stats = record { warn_count = 0; error_count = 0; critical_count = 0; max_duration_ms = 0 };
}

unfoldable pub set_thresholds : ℕ → ℕ → ℕ → SlowEventLogger → SlowEventLogger
set_thresholds warn error critical l = record l {
  warn_ms = warn;
  error_ms = error;
  critical_ms = critical;
}

unfoldable pub check_and_log : ℕ → SlowEventLogger → SlowEventLogger
check_and_log ms l =
    let s : SlowStats = record l.stats {
      max_duration_ms = if ltb l.stats.max_duration_ms ms then ms else l.stats.max_duration_ms;
    } in
    if leb l.critical_ms ms
    then record l { stats = record s { critical_count = s.critical_count + 1 } }
    else if leb l.error_ms ms
    then record l { stats = record s { error_count = s.error_count + 1 } }
    else if leb l.warn_ms ms
    then record l { stats = record s { warn_count = s.warn_count + 1 } }
    else record l { stats = s }
