-- ===== src/Logging/Sink/History.antt =====
-- What the files of a log sink hold of all that was logged, and how large they grow.
use sip_event_processor.Prelude.{
  ℕ, zero, suc, ◌+◌, ◌≤◌, ◌<◌, ◌≡◌, refl, sym, ap, ◌∙◌, Bool, true, false, ◌&&◌, Option, ◌⊎◌, inl,
  inr, List, [], ◌∷◌, ◌++◌, append_assoc, append-nil, Text, is_empty, length, length-append, drop,
  get_elem?, pos, Bool-cases, ltb, leb, if◌then◌else◌, arith,
}
use sip_event_processor.Logging.{LogLevel, below}
use sip_event_processor.Logging.Files.{Files, FileLaws, FileAnswers, held}
use sip_event_processor.Logging.Sink.{LogSinkConfig, LogSink, Output, write_all}
use sip_event_processor.Logging.Sink.Rotation.{slot}
use sip_event_processor.Logging.Sink.Archive.{
  Pieces, next, next_all, joined, whole, logged, Short, Within, AtLeast, Shows, write_all-Shows,
}

next-whole : (limit : ℕ) (msg : Text) (p : Pieces) → whole (next limit msg p) ≡ whole p ++ msg
unfolding next joined
next-whole limit msg p = elim (Bool-cases (ltb 0 limit && leb limit (length p.current))) [
  | inl full ↦ rw full refl
  | inr room ↦ rw room (sym (append_assoc (joined p.older) p.current msg))
]

heard-whole :
    (limit : ℕ) (msg : Text) (p : Pieces) (low : Bool)
    → whole (if low then p else next limit msg p) ≡ whole p ++ (if low then [] else msg)
heard-whole limit msg p true = sym (append-nil (whole p))
heard-whole limit msg p false = next-whole limit msg p

next_all-whole :
    (limit : ℕ) (least : LogLevel) (ms : List (LogLevel × Text)) (p : Pieces)
    → whole (next_all limit least ms p) ≡ whole p ++ logged least ms
unfolding next_all logged
next_all-whole limit least [] p = sym (append-nil (whole p))
next_all-whole limit least ((level, msg) ∷ ms) p =
    let low = below level least in
    next_all-whole limit least ms (if low then p else next limit msg p)
    ∙ ap (λ t. t ++ logged least ms) (heard-whole limit msg p low)
    ∙ append_assoc (whole p) (if low then [] else msg) (logged least ms)

next-Within :
    (limit bound : ℕ) (msg : Text) (p : Pieces)
    → 0 < limit
    → length msg ≤ bound
    → Within (limit + bound) (p.current ∷ p.older)
    → let q = next limit msg p in Within (limit + bound) (q.current ∷ q.older)
unfolding next
next-Within limit bound msg p positive short within = ground (arith, length-append p.current msg)

heard-Within :
    (limit bound : ℕ) (msg : Text) (p : Pieces) (low : Bool)
    → 0 < limit
    → length msg ≤ bound
    → Within (limit + bound) (p.current ∷ p.older)
    → let q = if low then p else next limit msg p in Within (limit + bound) (q.current ∷ q.older)
heard-Within limit bound msg p true positive short within = within
heard-Within limit bound msg p false positive short within =
    next-Within limit bound msg p positive short within

next_all-Within :
    (limit bound : ℕ) (least : LogLevel) (ms : List (LogLevel × Text)) (p : Pieces)
    → 0 < limit
    → Short bound ms
    → Within (limit + bound) (p.current ∷ p.older)
    → let q = next_all limit least ms p in Within (limit + bound) (q.current ∷ q.older)
unfolding next_all
next_all-Within limit bound least [] p positive short within = within
next_all-Within limit bound least ((level, msg) ∷ ms) p positive short within =
    let low = below level least in
    next_all-Within limit bound least ms (if low then p else next limit msg p) positive short.1
      (heard-Within limit bound msg p low positive short.0 within)

joined-drop :
    (i : ℕ) (ts : List Text)
    → joined (drop i ts) ≡ joined (drop (suc i) ts) ++ held (get_elem? ts i)
unfolding joined
joined-drop zero [] = refl
joined-drop zero (t ∷ ts) = refl
joined-drop (suc i) [] = refl
joined-drop (suc i) (t ∷ ts) = joined-drop i ts

held-Within :
    (bound i : ℕ) (ts : List Text) → Within bound ts → length (held (get_elem? ts i)) ≤ bound
held-Within bound i [] within = omega arith
held-Within bound zero (t ∷ ts) within = within.0
held-Within bound (suc i) (t ∷ ts) within = held-Within bound i ts within.1

next-AtLeast :
    (limit : ℕ) (msg : Text) (p : Pieces) (low : Bool)
    → 0 < limit
    → AtLeast limit p.older
    → AtLeast limit (if low then p else next limit msg p).older
unfolding next
next-AtLeast limit msg p low positive full = ground arith

next_all-AtLeast :
    (limit : ℕ) (least : LogLevel) (ms : List (LogLevel × Text)) (p : Pieces)
    → 0 < limit
    → AtLeast limit p.older
    → AtLeast limit (next_all limit least ms p).older
unfolding next_all
next_all-AtLeast limit least [] p positive full = full
next_all-AtLeast limit least ((level, msg) ∷ ms) p positive full =
    let low = below level least in
    next_all-AtLeast limit least ms (if low then p else next limit msg p) positive
      (next-AtLeast limit msg p low positive full)

first-AtLeast :
    (limit k : ℕ) (t : Text) (ts : List Text)
    → limit ≤ length t
    → ((i : ℕ) → i < k → limit ≤ length (held (get_elem? ts i)))
    → (i : ℕ) → i < suc k
    → limit ≤ length (held (get_elem? (t ∷ ts) i))
first-AtLeast limit k t ts full there zero lt = full
first-AtLeast limit k t ts full there (suc i) lt = there i (omega arith)

-- Either there are no more than `k` pieces, or the first `k` are there.
dropped-AtLeast :
    (limit k : ℕ) (ts : List Text)
    → AtLeast limit ts
    → (drop k ts ≡ []) ⊎ ((i : ℕ) → i < k → limit ≤ length (held (get_elem? ts i)))
dropped-AtLeast limit zero ts full = inr (λ i lt. absurd (omega arith))
dropped-AtLeast limit (suc k) [] full = inl refl
dropped-AtLeast limit (suc k) (t ∷ ts) full = elim (dropped-AtLeast limit k ts full.1) [
  | inl gone ↦ inl gone
  | inr there ↦ inr (λ i. first-AtLeast limit k t ts full.0 there i)
]

module _ {F : Type 0} (fs : Files F) (content : F → Text → Option Text) (laws : FileLaws fs content)
    (answers : FileAnswers fs content) (c : LogSinkConfig) where
  -- The rotated files from number `k` down to 1, the oldest first; a file that is not there is
  -- empty.
  unfoldable pub rotated_text : F → ℕ → Text
  rotated_text f zero = []
  rotated_text f (suc i) = held (content f (slot c (suc i))) ++ rotated_text f i

  rotated_text-joined :
      (k : ℕ) (f : F) (older : List Text)
      → ((i : ℕ) → i < k → content f (slot c (suc i)) ≡ get_elem? older i)
      → joined older ≡ joined (drop k older) ++ rotated_text f k
  unfolding rotated_text
  rotated_text-joined zero f older shows = sym (append-nil (joined older))
  rotated_text-joined (suc k) f older shows =
      rotated_text-joined k f older (λ i le. shows i (omega arith))
      ∙ ap (λ t. t ++ rotated_text f k) (joined-drop k older)
      ∙ append_assoc (joined (drop (suc k) older)) (held (get_elem? older k)) (rotated_text f k)
      ∙ ap (λ t. joined (drop (suc k) older) ++ (held t ++ rotated_text f k))
          (sym (shows k (omega arith)))

  -- What stands in the files of a sink, when `all` is what it was given. Text is lost only where
  -- every rotated file is there and has reached the limit.
  pub record Kept (m limit bound : ℕ) (o : Output F) (all : Text) : Type 0 where
    pub lost : Text
    pub end_kept :
        all ≡ lost ++ (rotated_text o.files (suc m) ++ held (content o.files c.file_path))
    pub lost_late :
        (lost ≡ [])
        ⊎ ((i : ℕ) → i < suc m → limit ≤ length (held (content o.files (slot c (suc i)))))
    pub file_bounded : length (held (content o.files c.file_path)) ≤ limit + bound
    pub rotated_bounded :
        (i : ℕ) → i ≤ m → length (held (content o.files (slot c (suc i)))) ≤ limit + bound

  -- If no call on the files fails, the path is not empty, the size limit is not 0 and the sink
  -- keeps `m + 1` rotated files, then, from a sink that shows pieces no longer than the limit and
  -- a message together, the older ones no shorter than the limit, whatever is written: the
  -- rotated files from the oldest on and then the file, read one after the other, are the end of
  -- all that was logged; something is lost only if each of the rotated files has reached the
  -- limit; and no file is longer than the limit and a longest message together.
  pub write_all-Kept :
      (m bound : ℕ) (ms : List (LogLevel × Text)) (s : LogSink) (o : Output F) (p : Pieces)
      → is_empty c.file_path ≡ false
      → c.max_rotated_files ≡ pos (suc m)
      → 0 < c.max_file_size_bytes
      → Short bound ms
      → Within (c.max_file_size_bytes + bound) (p.current ∷ p.older)
      → AtLeast c.max_file_size_bytes p.older
      → Shows fs content laws answers c m s o p
      → Kept m c.max_file_size_bytes bound
          (write_all fs ms s o).1
          (whole p ++ logged c.min_level ms)
  write_all-Kept m bound ms s o p named kept positive short within full shows =
      let q = next_all c.max_file_size_bytes c.min_level ms p in
      let f = (write_all fs ms s o).1.files in
      let after = write_all-Shows fs content laws answers c m ms s o p named kept shows in
      let bounded =
        next_all-Within c.max_file_size_bytes bound c.min_level ms p positive short within in
      let old = rotated_text-joined (suc m) f q.older (λ i lt. after.rotated i (omega arith)) in
      record {
        lost = joined (drop (suc m) q.older);
        end_kept =
            sym (next_all-whole c.max_file_size_bytes c.min_level ms p)
            ∙ unfold joined in
              ap (λ t. t ++ q.current) old
              ∙ append_assoc (joined (drop (suc m) q.older)) (rotated_text f (suc m)) q.current
              ∙ ap (λ t. joined (drop (suc m) q.older) ++ (rotated_text f (suc m) ++ held t))
                  (sym after.file);
        lost_late =
            elim (dropped-AtLeast c.max_file_size_bytes (suc m) q.older
              (next_all-AtLeast c.max_file_size_bytes c.min_level ms p positive full)) [
                | inl none_lost ↦ inl (unfold joined in ap joined none_lost)
                | inr there ↦ inr (λ i lt. rw (after.rotated i (omega arith)) (there i lt))
              ];
        file_bounded = rw after.file bounded.0;
        rotated_bounded = λ i le. rw (after.rotated i le) (held-Within _ i q.older bounded.1);
      }
