-- ===== src/Logging/Sink.antt =====
-- LogSink of include/common/logger.h and src/common/logger.cpp. A method that holds the sink's
-- lock is one function. What is written to stderr is recorded; flushing is not modelled.
pub mod Rotation
pub mod Archive
pub mod History
use sip_event_processor.Prelude.{
  ℕ, zero, suc, ◌+◌, ◌-◌, Bool, true, false, not, ◌&&◌, ◌||◌, none, some, List, [], ◌∷◌, ◌++◌, Text,
  codes, is_empty, length, ℤ, pos, negsuc, int_to_string, ltb, leb, if◌then◌else◌,
}
use sip_event_processor.Logging.{LogLevel, below}
use sip_event_processor.Logging.Files.{Files, failed, opened}

pub record LogSinkConfig : Type 0 where
  pub file_path : Text
  pub max_file_size_bytes : ℕ
  pub max_rotated_files : ℤ
  pub min_level : LogLevel
  pub also_stderr : Bool

-- `fp_`: null, stderr, or the file at `file_path`.
pub data Stream : Type 0 where
  closed to_stderr to_file : Stream

abbrev pub is_open : Stream → Bool
is_open closed = false
is_open to_stderr = true
is_open to_file = true

abbrev pub is_file : Stream → Bool
is_file to_file = true
is_file to_stderr = false
is_file closed = false

abbrev pub is_stderr : Stream → Bool
is_stderr to_stderr = true
is_stderr to_file = false
is_stderr closed = false

pub record LogSink : Type 0 where
  pub config : LogSinkConfig
  pub fp : Stream
  pub current_size : ℕ

-- What a sink writes to: the files, and stderr.
pub record Output (F : Type 0) : Type 0 where
  pub files : F
  pub stderr_text : Text

unfoldable pub rotated_path : LogSinkConfig → ℤ → Text
rotated_path c index = c.file_path ++ b'.' ∷ int_to_string index

unfoldable pub needs_rotation : LogSink → Bool
needs_rotation s =
    ltb 0 s.config.max_file_size_bytes && leb s.config.max_file_size_bytes s.current_size

-- The rounds of the loop from max_rotated_files - 1 down to 1.
abbrev pub rounds : ℤ → ℕ
rounds (pos n) = n - 1
rounds (negsuc n) = 0

module _ {F : Type 0} (fs : Files F) where
  unfoldable pub open_file : LogSink → Output F → LogSink × Output F
  open_file s o =
      if is_empty s.config.file_path
      then (s, o)
      else let (files, r) = fs.fopen_append s.config.file_path o.files in
        elim r [
          | failed what ↦ (
            record s { fp = to_stderr },
            record {
              files = files;
              stderr_text =
                  o.stderr_text
                  ++ codes "LOGGER: failed to open log file '"
                  ++ s.config.file_path
                  ++ codes "': "
                  ++ what
                  ++ codes "\n";
            },
          )
          | opened size ↦ (
            record s {
              fp = to_file;
              current_size = elim size [ none ↦ s.current_size | some n ↦ n ];
            },
            record o { files = files },
          )
        ]

  -- The constructor.
  unfoldable pub new_sink : LogSinkConfig → Output F → LogSink × Output F
  unfolding open_file
  new_sink c o =
      let s : LogSink = record { config = c; fp = closed; current_size = 0 } in
      if is_empty c.file_path then (s, o) else open_file s o

  -- .9 -> .10, .8 -> .9, down to .1 -> .2; the results of rename are not looked at.
  unfoldable pub shift : LogSinkConfig → ℕ → F → F
  shift c zero f = f
  shift c (suc i) f =
      shift c i (fs.rename (rotated_path c (pos (suc i))) (rotated_path c (pos (suc (suc i)))) f).0

  -- The files when the stream is closed: the oldest removed, and each of the others moved on.
  unfoldable pub rotate_files : LogSinkConfig → F → F
  unfolding shift
  rotate_files c f =
      (fs.rename c.file_path (rotated_path c (pos 1)) (
        shift c (rounds c.max_rotated_files)
          (fs.remove (rotated_path c c.max_rotated_files) f).0)).0

  unfoldable pub rotate : LogSink → Output F → LogSink × Output F
  unfolding rotate_files open_file
  rotate s o =
      if not (is_file s.fp)
      then (s, o)
      else open_file (record s { fp = closed; current_size = 0 })
          (record o { files = rotate_files s.config o.files })

  -- stderr takes all that is written to it.
  unfoldable pub put_out : Text → LogSink → Output F → LogSink × Output F
  put_out msg s o = elim s.fp [
    | closed ↦ (s, o)
    | to_stderr ↦ (
      record s { current_size = s.current_size + length msg },
      record o { stderr_text = o.stderr_text ++ msg },
    )
    | to_file ↦
        let (files, n) = fs.fwrite s.config.file_path msg o.files in
        (
          record s { current_size = s.current_size + n },
          record {
            files = files;
            stderr_text = if s.config.also_stderr then o.stderr_text ++ msg else o.stderr_text;
          },
        )
  ]

  unfoldable pub write : LogLevel → Text → LogSink → Output F → LogSink × Output F
  unfolding needs_rotation
  write level msg s o =
      if below level s.config.min_level || not (is_open s.fp)
      then (s, o)
      else let (s', o') = if needs_rotation s then rotate s o else (s, o) in put_out msg s' o'

  -- The messages of a sink in their order.
  unfoldable pub write_all : List (LogLevel × Text) → LogSink → Output F → LogSink × Output F
  write_all [] s o = (s, o)
  write_all ((level, msg) ∷ ms) s o = let (s', o') = write level msg s o in write_all ms s' o'
