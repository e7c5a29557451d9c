-- ===== src/Logging/Logger.antt =====
-- Logger of include/common/logger.h and src/common/logger.cpp. Its sinks are in the order of the
-- vector. The time stamp is a parameter, and so is the text that vsnprintf makes of the user's
-- format.
use sip_event_processor.Prelude.{
  ℕ, ◌+◌, ◌-◌, ◌/◌, Bool, true, false, not, ◌||◌, Option, none, some, List, [], ◌∷◌, ◌++◌, Text,
  codes, is_empty, length, take, ℤ, pos, negsuc, to_string, int_to_string, leb, ◌==◌, if◌then◌else◌,
}
use sip_event_processor.Logging.{LogLevel, below, rank, log_level_name, trace, info, warn, error}
use sip_event_processor.Logging.Files.{Files}
use sip_event_processor.Logging.Sink.{LogSinkConfig, LogSink, Output, new_sink, write}

pub record Logger : Type 0 where
  pub level : LogLevel
  pub sinks : List LogSink
  pub slow_event_sink : Option LogSink
  pub stderr_fallback : Bool
  pub configured : Bool

abbrev pub new_logger : Logger
new_logger = record {
  level = info;
  sinks = [];
  slow_event_sink = none;
  stderr_fallback = true;
  configured = false;
}

unfoldable pub set_level : LogLevel → Logger → Logger
set_level level l = record l { level = level }

unfoldable pub add_sink : LogSink → Logger → Logger
add_sink s l = record l { sinks = l.sinks ++ s ∷ [] }

-- max_rotated_files / 2, which rounds towards 0.
abbrev pub half : ℤ → ℤ
half (pos n) = pos (n / 2)
half (negsuc n) = if n == 0 then pos 0 else negsuc ((n + 1) / 2 - 1)

-- strrchr(file, '/') + 1, or the file where there is no slash.
unfoldable pub base_from : Text → Text → Text
base_from best [] = best
base_from best (c ∷ s) = base_from (if c == b'/' then s else best) s

-- Where a message is logged: the time as it is printed, the thread, __FILE__ and __LINE__.
pub record Place : Type 0 where
  pub stamp : Text
  pub thread : ℕ
  pub source_file : Text
  pub source_line : ℕ

unfoldable pub message_prefix : LogLevel → Place → Text
message_prefix level at =
    at.stamp
    ++ (codes " ["
        ++ (log_level_name level
            ++ (codes "] [tid:"
                ++ (to_string at.thread
                    ++ (codes "] ["
                        ++ (base_from at.source_file at.source_file
                            ++ (b':' ∷ (to_string at.source_line ++ codes "] "))))))))

-- The bytes of `buf` up to the length that is returned. A message of `none` is one that vsnprintf
-- fails to print.
unfoldable pub format_message : ℕ → LogLevel → Place → Option Text → Text
format_message buf_size level at message =
    let front = message_prefix level at in
    if leb buf_size (length front) then [] else elim message [
      | none ↦ front
      | some msg ↦
          let total = length front + length msg in
          take (if leb (buf_size - 1) total then buf_size - 2 else total) (front ++ msg)
          ++ b'\n' ∷ []
    ]

abbrev pub buffer : ℕ
buffer = 4096

module _ {F : Type 0} (fs : Files F) where
  -- The loop over the sinks.
  unfoldable pub write_sinks : LogLevel → Text → List LogSink → Output F → List LogSink × Output F
  write_sinks level msg [] o = ([], o)
  write_sinks level msg (s ∷ ss) o =
      let (s', o') = write fs level msg s o in
      let (ss', o'') = write_sinks level msg ss o' in (s' ∷ ss', o'')

  unfoldable pub log : LogLevel → Place → Option Text → Logger → Output F → Logger × Output F
  log level at message l o =
      let buf = format_message buffer level at message in
      if below level l.level || is_empty buf
      then (l, o)
      else if l.stderr_fallback || not l.configured
      then (l, record o { stderr_text = o.stderr_text ++ buf })
      else let (sinks, o') = write_sinks level buf l.sinks o in (record l { sinks = sinks }, o')

  unfoldable pub write_slow : Text → Option LogSink → Output F → Option LogSink × Output F
  write_slow buf none o = (none, o)
  write_slow buf (some s) o = let (s', o') = write fs warn buf s o in (some s', o')

  unfoldable pub log_slow : Place → Option Text → Logger → Output F → Logger × Output F
  log_slow at message l o =
      let buf = format_message buffer warn at message in
      if is_empty buf
      then (l, o)
      else let (slow, o') = write_slow buf l.slow_event_sink o in
        let (sinks, o'') = write_sinks warn buf l.sinks o' in
        (record l { sinks = sinks; slow_event_sink = slow }, o'')

  -- `mkdir` is the system's.
  unfoldable pub configure :
      (Text → F → F) → Text → Text → LogLevel → ℕ → ℤ → Logger → Output F → Logger × Output F
  configure mkdir log_dir base console_level max_size max_files l o =
      let o0 = record o { files = if is_empty log_dir then o.files else mkdir log_dir o.files } in
      let front = if is_empty log_dir then base else log_dir ++ (b'/' ∷ base) in
      let config : Text → ℤ → LogLevel → Bool → LogSinkConfig = λ suffix files least also. record {
        file_path = front ++ suffix;
        max_file_size_bytes = max_size;
        max_rotated_files = files;
        min_level = least;
        also_stderr = also;
      } in
      let (main, o1) =
        new_sink fs (config (codes ".log") max_files info (leb (rank console_level) (rank info)))
          o0 in
      let (debug, o2) = new_sink fs (config (codes "_debug.log") (half max_files) trace false) o1 in
      let (errors, o3) = new_sink fs (config (codes "_error.log") max_files error true) o2 in
      let (slow, o4) = new_sink fs (config (codes "_slow.log") max_files trace false) o3 in
      (
        record l {
          sinks = main ∷ debug ∷ errors ∷ [];
          slow_event_sink = some slow;
          stderr_fallback = false;
          configured = true;
        },
        record o4 {
          stderr_text =
              o4.stderr_text
              ++ (codes "Logger configured: dir="
                  ++ (log_dir
                      ++ (codes " base="
                          ++ (base
                              ++ (codes " max_size="
                                  ++ (to_string max_size
                                      ++ (codes " max_files="
                                          ++ (int_to_string max_files ++ codes "\n"))))))));
        },
      )
