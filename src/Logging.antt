-- ===== src/Logging.antt =====
-- The levels of include/common/logger.h.
pub mod Files
pub mod Sink
pub mod Logger
pub mod Format
use sip_event_processor.Prelude.{ℕ, Bool, Text, codes, text_eq, ltb, leb, if◌then◌else◌}

pub data LogLevel : Type 0 where
  trace debug info warn error fatal : LogLevel

-- The number that the enumeration gives to a level.
abbrev pub rank : LogLevel → ℕ
rank trace = 0
rank debug = 1
rank info = 2
rank warn = 3
rank error = 4
rank fatal = 5

abbrev pub below : LogLevel → LogLevel → Bool
below a b = ltb (rank a) (rank b)

unfoldable pub log_level_name : LogLevel → Text
log_level_name trace = codes "TRACE"
log_level_name debug = codes "DEBUG"
log_level_name info = codes "INFO"
log_level_name warn = codes "WARN"
log_level_name error = codes "ERROR"
log_level_name fatal = codes "FATAL"

unfoldable pub parse_log_level : Text → LogLevel
parse_log_level s =
    if text_eq s (codes "trace")
    then trace
    else if text_eq s (codes "debug")
    then debug
    else if text_eq s (codes "info")
    then info
    else if text_eq s (codes "warn")
    then warn
    else if text_eq s (codes "error")
    then error
    else if text_eq s (codes "fatal")
    then fatal
    else info
