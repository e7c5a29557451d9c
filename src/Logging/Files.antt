-- ===== src/Logging/Files.antt =====
-- The C library's files, as the log sinks use them: fopen with mode "a", followed by fstat;
-- fwrite to that file; remove; rename. They are the record Files. What is relied on is FileLaws,
-- the semantics of POSIX for these calls on plain files, and, where nothing is to fail,
-- FileAnswers. The content of a file counts what the stream still buffers.
use sip_event_processor.Prelude.{
  ℕ, ◌≡◌, ◌≢◌, Bool, true, Option, none, some, [], ◌++◌, Text, length, take,
}

-- What fopen and fstat give: the text of the error, or the size, unless fstat fails.
pub data OpenResult : Type 0 where
  failed : Text → OpenResult
  opened : Option ℕ → OpenResult

pub record Files (F : Type 0) : Type 0 where
  pub fopen_append : Text → F → F × OpenResult
  pub fwrite : Text → Text → F → F × ℕ
  pub remove : Text → F → F × Bool
  pub rename : Text → Text → F → F × Bool

abbrev pub held : Option Text → Text
held none = []
held (some t) = t

-- `content` is what a path holds, if it is there.
pub record FileLaws {F : Type 0} (fs : Files F) (content : F → Text → Option Text) : Type 0 where
  pub open_keeps :
      (p : Text) (f : F) (n : ℕ)
      → (fs.fopen_append p f).1 ≡ opened (some n)
      → (content (fs.fopen_append p f).0 p ≡ some (held (content f p)))
        × (n ≡ length (held (content f p)))
  pub open_others : (p q : Text) (f : F) → p ≢ q → content (fs.fopen_append p f).0 q ≡ content f q
  pub write_appends :
      (p t held_text : Text) (f : F)
      → content f p ≡ some held_text
      → content (fs.fwrite p t f).0 p ≡ some (held_text ++ take (fs.fwrite p t f).1 t)
  pub write_others : (p q t : Text) (f : F) → p ≢ q → content (fs.fwrite p t f).0 q ≡ content f q
  pub remove_removes :
      (p : Text) (f : F) → (fs.remove p f).1 ≡ true → content (fs.remove p f).0 p ≡ none
  pub remove_missing : (p : Text) (f : F) → content f p ≡ none → content (fs.remove p f).0 p ≡ none
  pub remove_others : (p q : Text) (f : F) → p ≢ q → content (fs.remove p f).0 q ≡ content f q
  pub rename_moves :
      (p q t : Text) (f : F)
      → p ≢ q
      → content f p ≡ some t
      → (fs.rename p q f).1 ≡ true
      → (content (fs.rename p q f).0 q ≡ some t) × (content (fs.rename p q f).0 p ≡ none)
  pub rename_missing :
      (p q r : Text) (f : F) → content f p ≡ none → content (fs.rename p q f).0 r ≡ content f r
  pub rename_others :
      (p q r : Text) (f : F) → p ≢ r → q ≢ r → content (fs.rename p q f).0 r ≡ content f r

-- No call fails.
pub record FileAnswers {F : Type 0} (fs : Files F) (content : F → Text → Option Text) : Type 0 where
  pub opens : (p : Text) (f : F) → (n : ℕ) × ((fs.fopen_append p f).1 ≡ opened (some n))
  pub writes : (p t : Text) (f : F) → (fs.fwrite p t f).1 ≡ length t
  pub removes : (p t : Text) (f : F) → content f p ≡ some t → (fs.remove p f).1 ≡ true
  pub renames : (p q t : Text) (f : F) → content f p ≡ some t → (fs.rename p q f).1 ≡ true
