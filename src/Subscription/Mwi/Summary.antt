-- ===== src/Subscription/Mwi/Summary.antt =====
-- parse_message_summary of src/subscription/mwi_processor.cpp. A `%d` is read as an unbounded
-- integer (the program does not test for overflow, which C leaves undefined), and a body holds no
-- zero byte.
use sip_event_processor.Prelude.{
  ℕ, ◌+◌, ◌-◌, ◌*◌, Bool, true, false, ◌&&◌, ◌||◌, Option, none, some, List, [], ◌∷◌, Text, codes,
  text_eq, is_empty, starts_with, lower_text, trim_left, trim_right, is_blank, ℤ, pos, negsuc, leb,
  ◌==◌, if◌then◌else◌,
}

pub record MessageSummary : Type 0 where
  pub messages_waiting : Bool
  pub new_messages : ℤ
  pub old_messages : ℤ
  pub new_urgent : ℤ
  pub old_urgent : ℤ
  pub account : Text
  pub valid : Bool

abbrev pub empty_summary : MessageSummary
empty_summary = record {
  messages_waiting = false;
  new_messages = pos 0;
  old_messages = pos 0;
  new_urgent = pos 0;
  old_urgent = pos 0;
  account = [];
  valid = false;
}

cons_first : ℕ → List Text → List Text
cons_first c [] = (c ∷ []) ∷ []
cons_first c (l ∷ ls) = (c ∷ l) ∷ ls

-- The lines that `std::getline` gives: no empty one after a last newline.
unfoldable pub lines : Text → List Text
unfolding cons_first
lines [] = []
lines (c ∷ s) = let rest = lines s in if c == b'\n' then [] ∷ rest else cons_first c rest

unfoldable pub strip_cr : Text → Text
strip_cr [] = []
strip_cr (c ∷ []) = if c == b'\r' then [] else c ∷ []
strip_cr (c ∷ d ∷ s) = c ∷ strip_cr (d ∷ s)

-- line.substr(line.find(':') + 1), or nothing without a colon
unfoldable pub after_colon : Text → Option Text
after_colon [] = none
after_colon (c ∷ s) = let rest = after_colon s in if c == b':' then some s else rest

abbrev is_digit : ℕ → Bool
is_digit c = leb b'0' c && leb c b'9'

-- The digits in front, read onto `n`, and what follows them.
scan_digits : ℕ → Text → ℕ × Text
scan_digits n [] = (n, [])
scan_digits n (c ∷ s) =
    let rest = scan_digits (n * 10 + (c - 48)) s in if is_digit c then rest else (n, c ∷ s)

scan_unsigned : Text → Option (ℕ × Text)
unfolding scan_digits
scan_unsigned [] = none
scan_unsigned (c ∷ s) = if is_digit c then some (scan_digits 0 (c ∷ s)) else none

negate : ℕ → ℤ
negate n = if n == 0 then pos 0 else negsuc (n - 1)

abbrev with_sign : (ℕ → ℤ) → Option (ℕ × Text) → Option (ℤ × Text)
with_sign f none = none
with_sign f (some (n, s)) = some (f n, s)

scan_signed : Text → Option (ℤ × Text)
unfolding negate scan_unsigned
scan_signed [] = none
scan_signed (c ∷ s) =
    if c == b'-'
    then with_sign negate (scan_unsigned s)
    else if c == b'+'
    then with_sign pos (scan_unsigned s)
    else with_sign pos (scan_unsigned (c ∷ s))

abbrev is_c_space : ℕ → Bool
is_c_space c = c == 32 || leb 9 c && leb c 13

-- %d: white space, a sign, digits
unfoldable pub scan_int : Text → Option (ℤ × Text)
unfolding scan_signed
scan_int s = scan_signed (trim_left is_c_space s)

-- A literal byte of a format.
abbrev expect : ℕ → Text → Option Text
expect x [] = none
expect x (c ∷ s) = if c == x then some s else none

-- "%d/%d": what was read before the first failure, and the rest if there is none.
scan_pair : Text → Option ℤ × Option ℤ × Option Text
scan_pair s = elim (scan_int s) [
  | none ↦ (none, none, none)
  | some (n, s1) ↦ elim (expect b'/' s1) [
    | none ↦ (some n, none, none)
    | some s2 ↦ elim (scan_int s2) [
      | none ↦ (some n, none, none)
      | some (o, s3) ↦ (some n, some o, some s3)
    ]
  ]
]

abbrev int_or_zero : Option ℤ → ℤ
int_or_zero none = pos 0
int_or_zero (some n) = n

-- " (%d/%d)" after the first two numbers; what is missing stays zero.
scan_urgent : Text → ℤ × ℤ
unfolding scan_pair
scan_urgent s = elim (expect b'(' (trim_left is_c_space s)) [
  | none ↦ (pos 0, pos 0)
  | some s1 ↦ let (nu, ou, rest) = scan_pair s1 in (int_or_zero nu, int_or_zero ou)
]

-- The three branches on the name of a line.
messages_waiting_line : Text → MessageSummary → MessageSummary
messages_waiting_line line summary = elim (after_colon line) [
  | none ↦ summary
  | some val ↦ record summary {
    messages_waiting =
        text_eq (lower_text (trim_right is_blank (trim_left is_blank val))) (codes "yes");
    valid = true;
  }
]

message_account_line : Text → MessageSummary → MessageSummary
message_account_line line summary = elim (after_colon line) [
  | none ↦ summary
  | some val ↦ record summary { account = trim_right is_blank (trim_left is_blank val) }
]

-- The second `sscanf` of the source has the format that the first one begins with, so it reads two
-- numbers only where the first did.
set_counts : Text → MessageSummary → Option ℤ × Option ℤ × Option Text → MessageSummary
unfolding scan_urgent
set_counts val summary (some n, some o, some rest) =
    let (nu, ou) = scan_urgent rest in
    record summary {
      new_messages = n;
      old_messages = o;
      new_urgent = nu;
      old_urgent = ou;
      valid = true;
    }
set_counts val summary _ = summary

voice_message_line : Text → MessageSummary → MessageSummary
unfolding set_counts scan_pair
voice_message_line line summary = elim (after_colon line) [
  | none ↦ summary
  | some val ↦ set_counts val summary (scan_pair val)
]

-- One round of the loop over the lines.
parse_line : MessageSummary → Text → MessageSummary
unfolding messages_waiting_line message_account_line voice_message_line
parse_line summary raw =
    let line = trim_left is_blank (strip_cr raw) in
    if is_empty line
    then summary
    else if starts_with (codes "messages-waiting:") (lower_text line)
    then messages_waiting_line line summary
    else if starts_with (codes "message-account:") (lower_text line)
    then message_account_line line summary
    else if starts_with (codes "voice-message:") (lower_text line)
    then voice_message_line line summary
    else summary

parse_lines : MessageSummary → List Text → MessageSummary
unfolding parse_line
parse_lines summary [] = summary
parse_lines summary (l ∷ ls) = parse_lines (parse_line summary l) ls

unfoldable pub parse_message_summary : Text → MessageSummary
unfolding parse_lines lines
parse_message_summary body = parse_lines empty_summary (lines body)
