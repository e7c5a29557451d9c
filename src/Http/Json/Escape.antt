-- ===== src/Http/Json/Escape.antt =====
-- JSON text with its strings escaped, as RFC 8259 wants it, and the values that need no escape.
use sip_event_processor.Prelude.{
  ℕ, ◌≡◌, refl, ap, ◌∙◌, ◌/◌, ◌%◌, ◌+◌, Bool, true, false, not, ◌&&◌, ◌||◌, ◌==◌, [], ◌∷◌, ◌++◌,
  Text, to_string, int_to_string, ltb, arith, if◌then◌else◌,
}
use sip_event_processor.Http.Health.{bool_text}
use sip_event_processor.Http.Json.{
  Json, num, int, bool, str, arr, obj, Items, nil, cons, Fields, end, field, separated, emit,
  emit_items, emit_fields, raw_print,
}

abbrev hex_digit : ℕ → ℕ
hex_digit n = if ltb n 10 then n + 48 else n + 87

-- A byte that a JSON string must not hold as it is: the quote, the backslash, a control byte.
abbrev needs_escape : ℕ → Bool
needs_escape c = c == b'"' || c == 92 || ltb c 32

abbrev escape_byte : ℕ → Text
escape_byte c =
    if ltb c 32
    then 92 ∷ b'u' ∷ b'0' ∷ b'0' ∷ hex_digit (c / 16) ∷ hex_digit (c % 16) ∷ []
    else 92 ∷ c ∷ []

pub escape : Text → Text
escape [] = []
escape (c ∷ s) = (if needs_escape c then escape_byte c else c ∷ []) ++ escape s

-- A value, its strings escaped, in front of `rest`.
unfoldable mutual
  unfolding escape

  write : Json → Text → Text
  write (num n) rest = to_string n ++ rest
  write (int n) rest = int_to_string n ++ rest
  write (bool b) rest = bool_text b ++ rest
  write (str s) rest = b'"' ∷ (escape s ++ b'"' ∷ rest)
  write (arr xs) rest = b'[' ∷ write_items xs true (b']' ∷ rest)
  write (obj fs) rest = b'{' ∷ write_fields fs true (b'}' ∷ rest)

  write_items : Items → Bool → Text → Text
  write_items nil first rest = rest
  write_items (cons v xs) first rest = separated first (write v (write_items xs false rest))

  write_fields : Fields → Bool → Text → Text
  write_fields end first rest = rest
  write_fields (field k v fs) first rest =
      separated first (b'"' ∷ (escape k ++ b'"' ∷ b':' ∷ write v (write_fields fs false rest)))

unfoldable pub print : Json → Text
unfolding write
print v = write v []

-- Whether no string of a value has a byte to escape.
abbrev pub plain_text : Text → Bool
plain_text [] = true
plain_text (c ∷ s) = not (needs_escape c) && plain_text s

unfoldable mutual
  pub is_plain : Json → Bool
  is_plain (num n) = true
  is_plain (int n) = true
  is_plain (bool b) = true
  is_plain (str s) = plain_text s
  is_plain (arr xs) = plain_items xs
  is_plain (obj fs) = plain_fields fs

  pub plain_items : Items → Bool
  plain_items nil = true
  plain_items (cons v xs) = is_plain v && plain_items xs

  pub plain_fields : Fields → Bool
  plain_fields end = true
  plain_fields (field k v fs) = (plain_text k && is_plain v) && plain_fields fs

escape-plain : (s : Text) → plain_text s ≡ true → escape s ≡ s
unfolding escape
escape-plain [] h = refl
escape-plain (c ∷ s) h = ground (arith, h, escape-plain s)

mutual
  unfolding write emit is_plain

  write-plain : (v : Json) (rest : Text) → is_plain v ≡ true → write v rest ≡ emit v rest
  write-plain (num n) rest h = refl
  write-plain (int n) rest h = refl
  write-plain (bool b) rest h = refl
  write-plain (str s) rest h = ap (λ t. b'"' ∷ (t ++ b'"' ∷ rest)) (escape-plain s h)
  write-plain (arr xs) rest h = ap (λ t. b'[' ∷ t) (items-plain xs true (b']' ∷ rest) h)
  write-plain (obj fs) rest h = ap (λ t. b'{' ∷ t) (fields-plain fs true (b'}' ∷ rest) h)

  items-plain :
      (xs : Items) (first : Bool) (rest : Text)
      → plain_items xs ≡ true
      → write_items xs first rest ≡ emit_items xs first rest
  items-plain nil first rest h = refl
  items-plain (cons v xs) first rest h = ap (separated first) (
      write-plain v _ (ground (arith, h))
      ∙ ap (emit v) (items-plain xs false rest (ground (arith, h))))

  fields-plain :
      (fs : Fields) (first : Bool) (rest : Text)
      → plain_fields fs ≡ true
      → write_fields fs first rest ≡ emit_fields fs first rest
  fields-plain end first rest h = refl
  fields-plain (field k v fs) first rest h =
      let tail =
        write-plain v (write_fields fs false rest) (ground (arith, h))
        ∙ ap (emit v) (fields-plain fs false rest (ground (arith, h))) in
      ap (λ t. separated first (b'"' ∷ t))
        (ap (λ t. t ++ b'"' ∷ b':' ∷ write v (write_fields fs false rest))
            (escape-plain k (ground (arith, h)))
          ∙ ap (λ t. k ++ b'"' ∷ b':' ∷ t) tail)

-- A value whose strings have nothing to escape is printed as the program prints it.
pub print-plain : (v : Json) → is_plain v ≡ true → print v ≡ raw_print v
unfolding print raw_print
print-plain v h = write-plain v [] h
