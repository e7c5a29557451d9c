-- ===== src/Logging/Sink/Archive.antt =====
-- The log that a sink keeps, against a description of it that knows of no files: a list of pieces.
use sip_event_processor.Prelude.{
  ℕ, zero, suc, ◌+◌, ◌≤◌, ◌≡◌, refl, sym, ap, ◌∙◌, true, false, ◌&&◌, Option, none, some, inl, inr,
  List, [], ◌∷◌, ◌++◌, Text, is_empty, length, length-append, take, get_elem?, pos, Bool-cases, ltb,
  leb, if◌then◌else◌, arith,
}
use sip_event_processor.Logging.{LogLevel, below}
use sip_event_processor.Logging.Files.{Files, FileLaws, FileAnswers, held}
use sip_event_processor.Logging.Sink.{
  LogSinkConfig, LogSink, Output, to_file, closed, open_file, rotate_files, rotate, put_out, write,
  write_all,
}
use sip_event_processor.Logging.Sink.Rotation.{slot, slot-ne-file, rotate_files-Rotated}

-- The piece that is being written, and those before it, the latest first.
pub record Pieces : Type 0 where
  pub current : Text
  pub older : List Text

-- A message starts a new piece if the current one has reached the limit; a limit of 0 is none.
unfoldable pub next : ℕ → Text → Pieces → Pieces
next limit msg p =
    if ltb 0 limit && leb limit (length p.current)
    then record { current = msg; older = p.current ∷ p.older }
    else record p { current = p.current ++ msg }

-- The messages from the least level on.
unfoldable pub next_all : ℕ → LogLevel → List (LogLevel × Text) → Pieces → Pieces
unfolding next
next_all limit least [] p = p
next_all limit least ((level, msg) ∷ ms) p =
    next_all limit least ms (if below level least then p else next limit msg p)

-- All that was logged, in its order.
unfoldable pub joined : List Text → Text
joined [] = []
joined (t ∷ ts) = joined ts ++ t

abbrev pub whole : Pieces → Text
whole p = joined (p.current ∷ p.older)

unfoldable pub logged : LogLevel → List (LogLevel × Text) → Text
logged least [] = []
logged least ((level, msg) ∷ ms) = (if below level least then [] else msg) ++ logged least ms

abbrev pub Short : ℕ → List (LogLevel × Text) → Type 0
Short bound [] = Unit
Short bound ((level, msg) ∷ ms) = (length msg ≤ bound) × Short bound ms

abbrev pub Within : ℕ → List Text → Type 0
Within bound [] = Unit
Within bound (t ∷ ts) = (length t ≤ bound) × Within bound ts

abbrev pub AtLeast : ℕ → List Text → Type 0
AtLeast limit [] = Unit
AtLeast limit (t ∷ ts) = (limit ≤ length t) × AtLeast limit ts

abbrev pub writing : LogSinkConfig → ℕ → LogSink
writing c n = record { config = c; fp = to_file; current_size = n }

pub all-take : (t : Text) → take (length t) t ≡ t
all-take [] = refl
all-take (c ∷ t) = ap (λ s. c ∷ s) (all-take t)

module _ {F : Type 0} (fs : Files F) (content : F → Text → Option Text) (laws : FileLaws fs content)
    (answers : FileAnswers fs content) (c : LogSinkConfig) where
  -- The sink writes the current piece to its file, and its `m + 1` rotated files hold the latest
  -- of the older pieces, each in its place; where there are fewer pieces, files are not there.
  pub record Shows (m : ℕ) (s : LogSink) (o : Output F) (p : Pieces) : Type 0 where
    pub state : s ≡ writing c (length p.current)
    pub file : content o.files c.file_path ≡ some p.current
    pub rotated : (i : ℕ) → i ≤ m → content o.files (slot c (suc i)) ≡ get_elem? p.older i

  put_out-Shows :
      (m : ℕ) (msg : Text) (s : LogSink) (o : Output F) (p : Pieces)
      → Shows m s o p
      → let r = put_out fs msg s o in Shows m r.0 r.1 (record p { current = p.current ++ msg })
  unfolding put_out
  put_out-Shows m msg s o p shows =
      let all = answers.writes c.file_path msg o.files in
      rw shows.state (record {
        state =
            ap (λ n. writing c (length p.current + n)) all
            ∙ ap (writing c) (sym (length-append p.current msg));
        file =
            laws.write_appends c.file_path msg p.current o.files shows.file
            ∙ ap (λ n. some (p.current ++ take n msg)) all
            ∙ ap (λ t. some (p.current ++ t)) (all-take msg);
        rotated = λ i le.
            laws.write_others c.file_path (slot c (suc i)) msg o.files
              (λ e. slot-ne-file c (suc i) (sym e))
            ∙ shows.rotated i le;
      })

  opened-fresh :
      (f : F) (t : Text)
      → is_empty c.file_path ≡ false
      → content f c.file_path ≡ none
      → let s : LogSink = record { config = c; fp = closed; current_size = 0 } in
        let o : Output F = record { files = f; stderr_text = t } in
        open_file fs s o ≡ (writing c 0, record o { files = (fs.fopen_append c.file_path f).0 })
  unfolding open_file
  opened-fresh f t named missing =
      let (n, e) = answers.opens c.file_path f in
      let (_, size) = laws.open_keeps c.file_path f n e in
      let nothing : n ≡ 0 = size ∙ ap (λ h. length (held h)) missing in
      rw named (
        rw e (
          ap
            (λ k.
              (writing c k, record { files = (fs.fopen_append c.file_path f).0; stderr_text = t }))
            nothing))

  rotated-state :
      (n m : ℕ) (o : Output F)
      → is_empty c.file_path ≡ false
      → c.max_rotated_files ≡ pos (suc m)
      → rotate fs (writing c n) o ≡ (
        writing c 0,
        record o { files = (fs.fopen_append c.file_path (rotate_files fs c o.files)).0 },
      )
  unfolding rotate
  rotated-state n m o named kept =
      let moved = rotate_files-Rotated fs content laws answers c m o.files kept in
      opened-fresh (rotate_files fs c o.files) o.stderr_text named moved.file_gone

  rotated-older :
      (m i : ℕ) (s : LogSink) (o : Output F) (p : Pieces)
      → c.max_rotated_files ≡ pos (suc m)
      → Shows m s o p
      → i ≤ m
      → content (rotate_files fs c o.files) (slot c (suc i)) ≡ get_elem? (p.current ∷ p.older) i
  rotated-older m zero s o p kept shows le =
      (rotate_files-Rotated fs content laws answers c m o.files kept).first ∙ shows.file
  rotated-older m (suc i) s o p kept shows le =
      (rotate_files-Rotated fs content laws answers c m o.files kept).each (suc i) (omega arith) le
      ∙ shows.rotated i (omega arith)

  rotate-Shows :
      (m : ℕ) (s : LogSink) (o : Output F) (p : Pieces)
      → is_empty c.file_path ≡ false
      → c.max_rotated_files ≡ pos (suc m)
      → Shows m s o p
      → let r = rotate fs s o in
        Shows m r.0 r.1 (record { current = []; older = p.current ∷ p.older })
  rotate-Shows m s o p named kept shows =
      let moved = rotate_files-Rotated fs content laws answers c m o.files kept in
      let f1 = rotate_files fs c o.files in
      let (n, opens) = answers.opens c.file_path f1 in
      let (fresh, _) = laws.open_keeps c.file_path f1 n opens in
      let keeps : (i : ℕ)
          → content (fs.fopen_append c.file_path f1).0 (slot c (suc i))
            ≡ content f1 (slot c (suc i)) =
        λ i.
          laws.open_others c.file_path (slot c (suc i)) f1 (λ e. slot-ne-file c (suc i) (sym e)) in
      rw (shows.state, rotated-state (length p.current) m o named kept)
        (record {
          state = refl;
          file = fresh ∙ ap (λ h. some (held h)) moved.file_gone;
          rotated = λ i le. keeps i ∙ rotated-older m i s o p kept shows le;
        })

  write-Shows :
      (m : ℕ) (level : LogLevel) (msg : Text) (s : LogSink) (o : Output F) (p : Pieces)
      → is_empty c.file_path ≡ false
      → c.max_rotated_files ≡ pos (suc m)
      → below level c.min_level ≡ false
      → Shows m s o p
      → let r = write fs level msg s o in Shows m r.0 r.1 (next c.max_file_size_bytes msg p)
  unfolding write next
  write-Shows m level msg s o p named kept heard shows =
      elim (Bool-cases
        (ltb 0 c.max_file_size_bytes && leb c.max_file_size_bytes (length p.current))) [
          | inl full ↦
              let fresh : Pieces = record { current = []; older = p.current ∷ p.older } in
              let (s', o') = rotate fs s o in
              let rotated = rotate-Shows m s o p named kept shows in
              let after = put_out-Shows m msg s' o' fresh rotated in
              rw full (rw shows.state (rw heard (rw full (rw shows.state at after))))
          | inr room ↦
              let after = put_out-Shows m msg s o p shows in
              rw room (rw shows.state (rw heard (rw room (rw shows.state at after))))
        ]

  write-unheard :
      (m : ℕ) (level : LogLevel) (msg : Text) (s : LogSink) (o : Output F) (p : Pieces)
      → below level c.min_level ≡ true
      → Shows m s o p
      → write fs level msg s o ≡ (s, o)
  unfolding write
  write-unheard m level msg s o p low shows = rw shows.state (rw low refl)

  write_any-Shows :
      (m : ℕ) (level : LogLevel) (msg : Text) (s : LogSink) (o : Output F) (p : Pieces)
      → is_empty c.file_path ≡ false
      → c.max_rotated_files ≡ pos (suc m)
      → Shows m s o p
      → let r = write fs level msg s o in
        Shows m r.0 r.1 (if below level c.min_level then p else next c.max_file_size_bytes msg p)
  write_any-Shows m level msg s o p named kept shows = elim (Bool-cases (below level c.min_level)) [
    | inl low ↦ rw low (rw (write-unheard m level msg s o p low shows) shows)
    | inr heard ↦ rw heard (write-Shows m level msg s o p named kept heard shows)
  ]

  -- If no call on the files fails, the path is not empty and the sink keeps `m + 1` rotated
  -- files, then a sink that shows a list of pieces shows, after any messages, the list to which
  -- those from its level on have been added one by one: a message that finds the current piece at
  -- the limit starts a new one, and each piece then moves to the next rotated file, the oldest
  -- file being dropped.
  pub write_all-Shows :
      (m : ℕ) (ms : List (LogLevel × Text)) (s : LogSink) (o : Output F) (p : Pieces)
      → is_empty c.file_path ≡ false
      → c.max_rotated_files ≡ pos (suc m)
      → Shows m s o p
      → let r = write_all fs ms s o in
        Shows m r.0 r.1 (next_all c.max_file_size_bytes c.min_level ms p)
  unfolding write_all next_all
  write_all-Shows m [] s o p named kept shows = shows
  write_all-Shows m ((level, msg) ∷ ms) s o p named kept shows =
      let (s', o') = write fs level msg s o in
      write_all-Shows m ms s' o'
        (if below level c.min_level then p else next c.max_file_size_bytes msg p) named kept
        (write_any-Shows m level msg s o p named kept shows)
