-- ===== src/Logging/Format.antt =====
-- The buffer into which `format_message` of src/common/logger.cpp prints.
use sip_event_processor.Prelude.{
  ℕ, zero, suc, ◌+◌, ◌-◌, ◌≤◌, ◌<◌, ◌≡◌, refl, sym, ap, ◌∙◌, false, some, inl, inr, [], ◌∷◌, ◌++◌,
  Text, length, length-append, take, drop, leb, Bool-cases, arith,
}
use sip_event_processor.Logging.{LogLevel}
use sip_event_processor.Logging.Logger.{Place, message_prefix, format_message}

take-drop : (n : ℕ) (t : Text) → take n t ++ drop n t ≡ t
take-drop zero t = refl
take-drop (suc n) [] = refl
take-drop (suc n) (c ∷ t) = ap (λ s. c ∷ s) (take-drop n t)

length-take : (n : ℕ) (t : Text) → n ≤ length t → length (take n t) ≡ n
length-take zero t h = refl
length-take (suc n) [] h = absurd (omega arith)
length-take (suc n) (c ∷ t) h = ap suc (length-take n t (omega arith))

drop_all : (t : Text) → drop (length t) t ≡ []
drop_all [] = refl
drop_all (c ∷ t) = drop_all t

-- The line that is printed of a text: `body` and a newline, with the NUL within the buffer.
pub record Fits (buf_size : ℕ) (whole line : Text) : Type 0 where
  pub body : Text
  pub cut : Text
  pub ends : line ≡ body ++ b'\n' ∷ []
  pub starts : whole ≡ body ++ cut
  pub within : length line < buf_size
  pub whole_if_room : length whole + 1 < buf_size → cut ≡ []

line-Fits :
    (buf_size n : ℕ) (whole : Text)
    → n ≤ length whole
    → n + 1 < buf_size
    → (length whole + 1 < buf_size → n ≡ length whole)
    → Fits buf_size whole (take n whole ++ b'\n' ∷ [])
line-Fits buf_size n whole le room all = record {
  body = take n whole;
  cut = drop n whole;
  ends = refl;
  starts = sym (take-drop n whole);
  within = omega (arith, length-append (take n whole) (b'\n' ∷ []), length-take n whole le);
  whole_if_room = λ h. ap (λ k. drop k whole) (all h) ∙ drop_all whole;
}

-- If the prefix is shorter than the buffer, which holds two bytes at least, then the line and its
-- NUL lie within the buffer; the line ends with a newline and is otherwise the beginning of the
-- prefix with the message, all of it if the buffer has room for it, the newline and the NUL.
pub format_message-Fits :
    (buf_size : ℕ) (level : LogLevel) (at : Place) (msg : Text)
    → 1 < buf_size
    → length (message_prefix level at) < buf_size
    → Fits buf_size (message_prefix level at ++ msg) (format_message buf_size level at (some msg))
unfolding format_message
format_message-Fits buf_size level at msg two short =
    let front = message_prefix level at in
    let total = length front + length msg in
    let small : leb buf_size (length front) ≡ false = ground arith in
    let sum = length-append front msg in
    elim (Bool-cases (leb (buf_size - 1) total)) [
      | inl long ↦
          rw (small, long)
            (line-Fits buf_size (buf_size - 2) (front ++ msg) (ground (arith, sum, long))
              (omega arith) (λ h. ground (arith, sum, long, h)))
      | inr room ↦
          rw (small, room)
            (line-Fits buf_size total (front ++ msg) (ground (arith, sum)) (ground (arith, room))
              (λ _. sym sum))
    ]
