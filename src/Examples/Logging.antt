-- ===== src/Examples/Logging.antt =====
-- The logger, over files that are an association list.
use sip_event_processor.Prelude.{
  ℕ, ◌≡◌, ◌≢◌, refl, sym, ap, ◌∙◌, Bool, true, false, Option, none, some, inl, inr, List, [], ◌∷◌,
  ◌++◌, Text, codes, text_eq, text_eq_iff, text_eq_refl, length, take, get_elem?, to_string, zero,
  suc, ◌≤◌, ◌<◌, pos, Bool-cases, arith,
}
use sip_event_processor.Prelude.Map.{Map, find, put, erase, find-put, find-erase}
use sip_event_processor.Logging.{LogLevel, debug, info, warn, log_level_name}
use sip_event_processor.Logging.Files.{Files, opened, FileLaws, FileAnswers, held}
use sip_event_processor.Logging.Sink.{LogSinkConfig, Output, rotated_path, write_all}
use sip_event_processor.Logging.Sink.Archive.{
  Pieces, Shows, next_all, whole, logged, writing, all-take, write_all-Shows,
}
use sip_event_processor.Logging.Logger.{Place, message_prefix, format_message, base_from}
use sip_event_processor.Logging.Format.{Fits, format_message-Fits}
use sip_event_processor.Logging.Sink.Rotation.{slot}
use sip_event_processor.Logging.Sink.History.{Kept, write_all-Kept}

-- rename, given what is at the old path.
abbrev renamed : Text → Text → Map Text → Option Text → Map Text × Bool
renamed p q f none = (f, false)
renamed p q f (some t) = (put q t (erase p f), true)

abbrev text_files : Files (Map Text)
text_files = record {
  fopen_append = λ p f. (put p (held (find p f)) f, opened (some (length (held (find p f)))));
  fwrite = λ p t f. (put p (held (find p f) ++ t) f, length t);
  remove = λ p f. (erase p f, true);
  rename = λ p q f. renamed p q f (find p f);
}

abbrev content : Map Text → Text → Option Text
content f p = find p f

apart : (p q : Text) → p ≢ q → text_eq p q ≡ false
apart p q h = elim (Bool-cases (text_eq p q)) [
  | inl same ↦ absurd (h ((text_eq_iff p q).0 same))
  | inr other ↦ other
]

put_self : (p t : Text) (f : Map Text) → find p (put p t f) ≡ some t
put_self p t f = find-put p p t f ∙ rw (text_eq_refl p) refl

put_other : (p q t : Text) (f : Map Text) → p ≢ q → find q (put p t f) ≡ find q f
put_other p q t f h = find-put p q t f ∙ rw (apart p q h) refl

erase_self : (p : Text) (f : Map Text) → find p (erase p f) ≡ none
erase_self p f = find-erase p p f ∙ rw (text_eq_refl p) refl

erase_other : (p q : Text) (f : Map Text) → p ≢ q → find q (erase p f) ≡ find q f
erase_other p q f h = find-erase p q f ∙ rw (apart p q h) refl

renamed_others :
    (p q r : Text) (f : Map Text) (o : Option Text)
    → p ≢ r
    → q ≢ r
    → find r (renamed p q f o).0 ≡ find r f
renamed_others p q r f none h k = refl
renamed_others p q r f (some t) h k = put_other q r t (erase p f) k ∙ erase_other p r f h

opened_size : (m n : ℕ) → opened (some m) ≡ opened (some n) → n ≡ m
opened_size m n e = cc e

appended :
    (p t old : Text) (f : Map Text)
    → find p f ≡ some old
    → find p (put p (held (find p f) ++ t) f) ≡ some (old ++ take (length t) t)
appended p t old f e =
    put_self p _ f ∙ ap (λ h. some (held h ++ t)) e ∙ ap (λ s. some (old ++ s)) (sym (all-take t))

renamed_moves :
    (p q t : Text) (f : Map Text)
    → p ≢ q
    → find p f ≡ some t
    → (find q (renamed p q f (find p f)).0 ≡ some t) × (find p (renamed p q f (find p f)).0 ≡ none)
renamed_moves p q t f h e = (
  ap (λ o. find q (renamed p q f o).0) e ∙ put_self q t (erase p f),
  ap (λ o. find p (renamed p q f o).0) e
      ∙ put_other q p t (erase p f) (λ k. h (sym k))
      ∙ erase_self p f,
)

abbrev laws : FileLaws text_files content
laws = record {
  open_keeps = λ p f n e. (put_self p _ f, opened_size _ n e);
  open_others = λ p q f h. put_other p q _ f h;
  write_appends = λ p t old f e. appended p t old f e;
  write_others = λ p q t f h. put_other p q _ f h;
  remove_removes = λ p f e. erase_self p f;
  remove_missing = λ p f e. erase_self p f;
  remove_others = λ p q f h. erase_other p q f h;
  rename_moves = λ p q t f h e done. renamed_moves p q t f h e;
  rename_missing = λ p q r f e. ap (λ o. find r (renamed p q f o).0) e;
  rename_others = λ p q r f h k. renamed_others p q r f (find p f) h k;
}

abbrev answers : FileAnswers text_files content
answers = record {
  opens = λ p f. (length (held (find p f)), refl);
  writes = λ p t f. refl;
  removes = λ p t f e. refl;
  renames = λ p q t f e. ap (λ o. (renamed p q f o).1) e;
}

-- One rotated file, which is not there yet; three bytes are enough for a new file.
abbrev sink_config : LogSinkConfig
sink_config = record {
  file_path = b'l' ∷ [];
  max_file_size_bytes = 3;
  max_rotated_files = pos 1;
  min_level = info;
  also_stderr = false;
}

abbrev start_files : Output (Map Text)
start_files = record { files = (b'l' ∷ [], b'a' ∷ b'\n' ∷ []) ∷ []; stderr_text = [] }

abbrev start_pieces : Pieces
start_pieces = record { current = b'a' ∷ b'\n' ∷ []; older = [] }

abbrev messages : List (LogLevel × Text)
messages = (warn, b'b' ∷ b'\n' ∷ []) ∷ (debug, b'c' ∷ []) ∷ (info, b'd' ∷ b'\n' ∷ []) ∷ []

none_older : (i : ℕ) → ◌≡◌ {A = Option Text} none (get_elem? start_pieces.older i)
none_older i = refl

no_rotated : (i : ℕ) → i ≤ 0 → find (slot sink_config (suc i)) start_files.files ≡ none
no_rotated zero h = unfold find text_eq rotated_path in refl
no_rotated (suc i) h = absurd (omega arith)

start-Shows :
    Shows text_files content laws answers sink_config 0
      (writing sink_config 2)
      start_files
      start_pieces
unfolding find text_eq
start-Shows = record { state = refl; file = refl; rotated = λ i le. no_rotated i le ∙ none_older i }

write_all-Shows_example :
    let r = write_all text_files messages (writing sink_config 2) start_files in
    Shows text_files content laws answers sink_config 0 r.0 r.1
      (next_all 3 info messages start_pieces)
write_all-Shows_example =
    write_all-Shows text_files content laws answers sink_config 0 messages (writing sink_config 2)
      start_files start_pieces refl refl start-Shows

write_all-Kept_example :
    Kept text_files content laws answers sink_config 0 3 2
      (write_all text_files messages (writing sink_config 2) start_files).1
      (whole start_pieces ++ logged info messages)
write_all-Kept_example =
    write_all-Kept text_files content laws answers sink_config 0 2 messages (writing sink_config 2)
      start_files start_pieces refl refl (omega arith) (omega arith) (omega arith) tt start-Shows

abbrev place : Place
place = record { stamp = b'0' ∷ []; thread = 1; source_file = b'f' ∷ []; source_line = 2 }

prefix_fits : length (message_prefix warn place) < 32
unfolding message_prefix log_level_name base_from codes to_string
prefix_fits = omega arith

-- A message that is cut.
format_message-Fits_example :
    Fits 32
      (message_prefix warn place ++ codes "a message that is long")
      (format_message 32 warn place (some (codes "a message that is long")))
format_message-Fits_example =
    format_message-Fits 32 warn place (codes "a message that is long") (omega arith) prefix_fits
