-- ===== src/Http/Json.antt =====
-- JSON values and how they are printed, as a description of the reports that does not follow the
-- code: `raw_print` leaves strings as they are, as the program does; `print` escapes them.
pub mod Escape
use sip_event_processor.Prelude.{
  ℕ, Bool, true, false, List, [], ◌∷◌, ◌++◌, Text, ℤ, to_string, int_to_string,
}
use sip_event_processor.Http.Health.{bool_text}

mutual
  pub data Json : Type 0 where
    num : ℕ → Json
    int : ℤ → Json
    bool : Bool → Json
    str : Text → Json
    arr : Items → Json
    obj : Fields → Json

  pub data Items : Type 0 where
    nil : Items
    cons : Json → Items → Items

  pub data Fields : Type 0 where
    end : Fields
    field : Text → Json → Fields → Fields

abbrev pub items_of {ℓ} : {A : Type ℓ} → (A → Json) → List A → Items
items_of f [] = nil
items_of f (x ∷ xs) = cons (f x) (items_of f xs)

-- A comma in front of every item but the first.
abbrev pub separated : Bool → Text → Text
separated true rest = rest
separated false rest = b',' ∷ rest

-- A value, its strings as they are, in front of `rest`.
unfoldable mutual
  pub emit : Json → Text → Text
  emit (num n) rest = to_string n ++ rest
  emit (int n) rest = int_to_string n ++ rest
  emit (bool b) rest = bool_text b ++ rest
  emit (str s) rest = b'"' ∷ (s ++ b'"' ∷ rest)
  emit (arr xs) rest = b'[' ∷ emit_items xs true (b']' ∷ rest)
  emit (obj fs) rest = b'{' ∷ emit_fields fs true (b'}' ∷ rest)

  pub emit_items : Items → Bool → Text → Text
  emit_items nil first rest = rest
  emit_items (cons v xs) first rest = separated first (emit v (emit_items xs false rest))

  pub emit_fields : Fields → Bool → Text → Text
  emit_fields end first rest = rest
  emit_fields (field k v fs) first rest =
      separated first (b'"' ∷ (k ++ b'"' ∷ b':' ∷ emit v (emit_fields fs false rest)))

unfoldable pub raw_print : Json → Text
unfolding emit
raw_print v = emit v []
