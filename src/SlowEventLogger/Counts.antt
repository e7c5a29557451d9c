-- ===== src/SlowEventLogger/Counts.antt =====
-- What a history of measured operations leaves in the counts.
use sip_event_processor.Prelude.{
  ℕ, ◌+◌, ◌≤◌, ◌≡◌, refl, List, [], ◌∷◌, ltb, leb, arith, if◌then◌else◌,
}
use sip_event_processor.SlowEventLogger.{SlowEventLogger, check_and_log}

pub log_all : SlowEventLogger → List ℕ → SlowEventLogger
log_all l [] = l
log_all l (ms ∷ rest) = log_all (check_and_log ms l) rest

-- How many durations are at least `low`.
abbrev at_least : ℕ → List ℕ → ℕ
at_least low [] = 0
at_least low (ms ∷ rest) = (if leb low ms then 1 else 0) + at_least low rest

abbrev maximum : ℕ → List ℕ → ℕ
maximum m [] = m
maximum m (ms ∷ rest) = maximum (if ltb m ms then ms else m) rest

-- With thresholds in increasing order, a history of operations raises the critical, error and
-- warn counts, taken together from the top, by the numbers of durations that reach each threshold
-- (each duration is counted once, at the highest level that it reaches), and leaves the longest
-- duration.
pub log_all-counts :
    (ds : List ℕ) (l : SlowEventLogger)
    → l.warn_ms ≤ l.error_ms
    → l.error_ms ≤ l.critical_ms
    → ((log_all l ds).stats.critical_count ≡ l.stats.critical_count + at_least l.critical_ms ds)
      × ((log_all l ds).stats.error_count + (log_all l ds).stats.critical_count
          ≡ l.stats.error_count + l.stats.critical_count + at_least l.error_ms ds)
      × ((log_all l ds).stats.warn_count
            + (log_all l ds).stats.error_count
            + (log_all l ds).stats.critical_count
          ≡ l.stats.warn_count
            + l.stats.error_count
            + l.stats.critical_count
            + at_least l.warn_ms ds)
      × ((log_all l ds).stats.max_duration_ms ≡ maximum l.stats.max_duration_ms ds)
unfolding log_all check_and_log
log_all-counts [] l h k = (omega arith, omega arith, omega arith, refl)
log_all-counts (ms ∷ ds) l h k = ground (arith, log_all-counts ds (check_and_log ms l))
