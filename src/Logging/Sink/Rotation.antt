-- ===== src/Logging/Sink/Rotation.antt =====
-- What the rotation of src/common/logger.cpp does to the files, where no call of the C library
-- fails.
use sip_event_processor.Prelude.{
  ℕ, zero, suc, ◌-◌, ◌≤◌, ◌<◌, ◌≡◌, ◌≢◌, refl, sym, ap, ◌∙◌, Option, none, inl, inr, ◌∷◌, Text,
  length, length-append, ℤ, pos, subst, Option-cases, to_string, arith,
}
use sip_event_processor.Prelude.Digits.{to_string_injective}
use sip_event_processor.Logging.Files.{Files, FileLaws, FileAnswers}
use sip_event_processor.Logging.Sink.{LogSinkConfig, rounds, rotated_path, shift, rotate_files}
use mathlib.Core.List.{append_cancel_left}
use native.Mathlib.Decide.{ℕ_discrete}

abbrev pub slot : LogSinkConfig → ℕ → Text
slot c i = rotated_path c (pos i)

slot_injective : (c : LogSinkConfig) (i j : ℕ) → slot c i ≡ slot c j → i ≡ j
unfolding rotated_path
slot_injective c i j h = to_string_injective i j (cc (append_cancel_left c.file_path _ _ h))

slot-ne : (c : LogSinkConfig) (i j : ℕ) → i ≢ j → slot c i ≢ slot c j
slot-ne c i j h e = h (slot_injective c i j e)

pub slot-ne-file : (c : LogSinkConfig) (i : ℕ) → slot c i ≢ c.file_path
unfolding rotated_path
slot-ne-file c i e =
    absurd (omega (arith, ap length e, length-append c.file_path (b'.' ∷ to_string i)))

module _ {F : Type 0} (fs : Files F) (content : F → Text → Option Text) (laws : FileLaws fs content)
    (answers : FileAnswers fs content) (c : LogSinkConfig) where
  removed : (p : Text) (f : F) → content (fs.remove p f).0 p ≡ none
  removed p f = elim (Option-cases (content f p)) [
    | inl missing ↦ laws.remove_missing p f missing
    | inr (t, there) ↦ laws.remove_removes p f (answers.removes p t f there)
  ]

  -- A file that is moved to a free path, present or not.
  moved :
      (p q : Text) (f : F)
      → p ≢ q
      → content f q ≡ none
      → (content (fs.rename p q f).0 q ≡ content f p) × (content (fs.rename p q f).0 p ≡ none)
  moved p q f distinct free = elim (Option-cases (content f p)) [
    | inl missing ↦ (
      laws.rename_missing p q q f missing ∙ free ∙ sym missing,
      laws.rename_missing p q p f missing ∙ missing,
    )
    | inr (t, there) ↦
        let (new, old) = laws.rename_moves p q t f distinct there (answers.renames p q t f there) in
        (new ∙ sym there, old)
  ]

  -- The loop moves the rotated files 1 to `k` by one, into `k + 1`, which is free.
  record Shifted (k : ℕ) (f f' : F) : Type 0 where
    each : (i : ℕ) → 0 < i → i ≤ k → content f' (slot c (suc i)) ≡ content f (slot c i)
    first_free : content f' (slot c 1) ≡ none
    others : (p : Text) → ((i : ℕ) → 0 < i → i ≤ suc k → slot c i ≢ p) → content f' p ≡ content f p

  shift-Shifted : (k : ℕ) (f : F) → content f (slot c (suc k)) ≡ none → Shifted k f (shift fs c k f)
  unfolding shift
  shift-Shifted zero f free = record {
    each = λ i pos le. absurd (omega arith);
    first_free = free;
    others = λ p distinct. refl;
  }
  shift-Shifted (suc k) f free =
      let p = slot c (suc k) in
      let q = slot c (suc (suc k)) in
      let f1 = (fs.rename p q f).0 in
      let distinct : p ≢ q = slot-ne c (suc k) (suc (suc k)) (λ e. absurd (omega arith)) in
      let (here, gone) = moved p q f distinct free in
      let rest = shift-Shifted k f1 gone in
      record {
        each = λ i low le. elim (ℕ_discrete i (suc k)) [
          | yes last ↦ rw last (
              rest.others q (λ j _ below. slot-ne c j (suc (suc k)) (λ e. absurd (omega arith)))
              ∙ here)
          | no earlier ↦
              rest.each i low (omega arith)
              ∙ laws.rename_others p q (slot c i) f (slot-ne c (suc k) i (λ e. earlier (sym e)))
                  (slot-ne c (suc (suc k)) i (λ e. absurd (omega arith)))
        ];
        first_free = rest.first_free;
        others = λ r apart.
            rest.others r (λ i low le. apart i low (omega arith))
            ∙ laws.rename_others p q r f (apart (suc k) (omega arith) (omega arith))
                (apart (suc (suc k)) (omega arith) (omega arith));
      }

  -- The file becomes the first rotated one, each rotated one the next, and the last is gone.
  pub record Rotated (m : ℕ) (f f' : F) : Type 0 where
    pub file_gone : content f' c.file_path ≡ none
    pub first : content f' (slot c 1) ≡ content f c.file_path
    pub each : (i : ℕ) → 0 < i → i ≤ m → content f' (slot c (suc i)) ≡ content f (slot c i)

  pub rotate_files-Rotated :
      (m : ℕ) (f : F) → c.max_rotated_files ≡ pos (suc m) → Rotated m f (rotate_files fs c f)
  unfolding rotate_files
  rotate_files-Rotated m f kept =
      let r : suc m - 1 ≡ m = omega arith in
      let f0 = (fs.remove (slot c (suc m)) f).0 in
      let f1 = shift fs c m f0 in
      let s = shift-Shifted m f0 (removed (slot c (suc m)) f) in
      let (new, old) =
        moved c.file_path (slot c 1) f1 (λ e. slot-ne-file c 1 (sym e)) s.first_free in
      let moves : ℤ → ℕ → F = λ oldest k.
        (fs.rename c.file_path (slot c 1)
          (shift fs c k (fs.remove (rotated_path c oldest) f).0)).0 in
      let is_moves : rotate_files fs c f ≡ moves (pos (suc m)) m =
        ap (λ n. moves n (rounds n)) kept ∙ ap (moves (pos (suc m))) r in
      subst (Rotated m f) (sym is_moves) (record {
        file_gone = old;
        first =
            new
            ∙ s.others c.file_path (λ i _ _. slot-ne-file c i)
            ∙ laws.remove_others (slot c (suc m)) c.file_path f (slot-ne-file c (suc m));
        each = λ i low le.
            laws.rename_others c.file_path (slot c 1) (slot c (suc i)) f1
              (λ e. slot-ne-file c (suc i) (sym e))
              (slot-ne c 1 (suc i) (λ e. absurd (omega arith)))
            ∙ s.each i low le
            ∙ laws.remove_others (slot c (suc m)) (slot c i) f
                (slot-ne c (suc m) i (λ e. absurd (omega arith)));
      })
