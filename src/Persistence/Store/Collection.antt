-- ===== src/Persistence/Store/Collection.antt =====
-- The documents of the store's collection, by their dialog identifiers.
use sip_event_processor.Prelude.{
  ◌≡◌, ◌∙◌, refl, true, false, not, some, List, [], ◌∷◌, ◌++◌, map, Text, text_eq, text_eq_iff,
  text_eq_refl, keep_if, arith, Option-cases, inl, inr, if◌then◌else◌,
}
use sip_event_processor.Prelude.Map.{find}
use sip_event_processor.Persistence.Pool.{Document, utf8, int32, matches, set_all}
use sip_event_processor.Persistence.Store.RoundTrip.{find-set_all}

abbrev pub at_key : Text → Text → List Document → List Document
at_key k key ds = keep_if (matches k key) ds

abbrev pub update_docs : Text → Text → Document → List Document → List Document
update_docs k key fields = map (λ d. if matches k key d then set_all fields d else d)

module _ (k key : Text) where
  matches-value :
      (d : Document) (s e : Text) → find k d ≡ some (utf8 s) → matches k e d ≡ text_eq s e
  unfolding matches
  matches-value d s e h = rw (matches, h) refl

  -- A document that is selected has the key's value.
  matches-find : (d : Document) → matches k key d ≡ true → find k d ≡ some (utf8 key)
  unfolding matches
  matches-find d h = elim (Option-cases (find k d)) [
    | inl e ↦ ground (arith, h, e)
    | inr (utf8 s, e) ↦ ground (arith, h, e, text_eq_iff s key)
    | inr (int32 n, e) ↦ ground (arith, h, e)
  ]

  -- No document is selected by two values.
  matches-other :
      (d : Document) (e : Text)
      → matches k key d ≡ true
      → text_eq key e ≡ false
      → matches k e d ≡ false
  matches-other d e h g = matches-value d key e (matches-find d h) ∙ g

  module _ (fields : Document) (keyed : find k fields ≡ some (utf8 key)) where
    matches-set : (d : Document) (e : Text) → matches k e (set_all fields d) ≡ text_eq key e
    matches-set d e =
        matches-value (set_all fields d) key e (find-set_all k fields d (utf8 key) keyed)

    pub update-same :
        (ds : List Document)
        → at_key k key (update_docs k key fields ds) ≡ map (set_all fields) (at_key k key ds)
    unfolding keep_if
    update-same [] = refl
    update-same (d ∷ ds) = ground (arith, update-same ds, matches-set d key, text_eq_refl key)

    pub update-other :
        (e : Text) (ds : List Document)
        → text_eq key e ≡ false
        → at_key k e (update_docs k key fields ds) ≡ at_key k e ds
    unfolding keep_if
    update-other e [] h = refl
    update-other e (d ∷ ds) h =
        ground (arith, update-other e ds h, matches-set d e, matches-other d e, h)

  pub insert-same :
      (d : Document) (ds : List Document)
      → find k d ≡ some (utf8 key)
      → at_key k key (ds ++ d ∷ []) ≡ at_key k key ds ++ d ∷ []
  unfolding keep_if
  insert-same d [] h = ground (arith, matches-value d key key h, text_eq_refl key)
  insert-same d (c ∷ ds) h = ground (arith, insert-same d ds h)

  pub insert-other :
      (e : Text) (d : Document) (ds : List Document)
      → find k d ≡ some (utf8 key)
      → text_eq key e ≡ false
      → at_key k e (ds ++ d ∷ []) ≡ at_key k e ds
  unfolding keep_if
  insert-other e d [] h g = ground (arith, matches-value d key e h, g)
  insert-other e d (c ∷ ds) h g = ground (arith, insert-other e d ds h g)

  pub delete-same :
      (ds : List Document) → at_key k key (keep_if (λ d. not (matches k key d)) ds) ≡ []
  unfolding keep_if
  delete-same [] = refl
  delete-same (d ∷ ds) = ground (arith, delete-same ds)

  pub delete-other :
      (e : Text) (ds : List Document)
      → text_eq key e ≡ false
      → at_key k e (keep_if (λ d. not (matches k key d)) ds) ≡ at_key k e ds
  unfolding keep_if
  delete-other e [] h = refl
  delete-other e (d ∷ ds) h = ground (arith, delete-other e ds h, matches-other d e, h)
