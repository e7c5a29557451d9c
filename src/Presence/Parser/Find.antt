-- ===== src/Presence/Parser/Find.antt =====
-- Searches in a growing text: `find` and the loop's elements, when more bytes are appended.
use sip_event_processor.Prelude.{
  ℕ, zero, suc, ◌+◌, ◌∙◌, ◌≡◌, ◌≤◌, refl, sym, ap, true, some, [], ◌∷◌, ◌++◌, Text, length, take,
  drop, starts_with, find_sub, arith, Bool-cases, Option-cases, inl, inr, ◌==◌,
}
use sip_event_processor.Presence.Parser.{open_tag, close_tag, next_element, from_bracket}

starts_with-fits : (p s : Text) → starts_with p s ≡ true → length p ≤ length s
unfolding starts_with
starts_with-fits [] s h = omega arith
starts_with-fits (a ∷ p) [] h = ground arith
starts_with-fits (a ∷ p) (b ∷ s) h = ground (arith, starts_with-fits p s)

starts_with-append : (p a b : Text) → length p ≤ length a → starts_with p (a ++ b) ≡ starts_with p a
unfolding starts_with
starts_with-append [] a b h = refl
starts_with-append (x ∷ p) [] b h = ground arith
starts_with-append (x ∷ p) (y ∷ a) b h = ground (arith, starts_with-append p a b)

pub find_sub-fits : (p s : Text) (i : ℕ) → find_sub p s ≡ some i → i + length p ≤ length s
unfolding find_sub
find_sub-fits [] [] i h = ground arith
find_sub-fits (x ∷ p) [] i h = ground arith
find_sub-fits p (y ∷ s) i h = elim (Bool-cases (starts_with p (y ∷ s))) [
  | inl e ↦ ground (arith, starts_with-fits p (y ∷ s) e)
  | inr e ↦ elim (Option-cases (find_sub p s)) [
    | inl n ↦ ground arith
    | inr (j, at) ↦ ground (arith, find_sub-fits p s j at)
  ]
]

pub find_sub-append : (p a b : Text) (i : ℕ) → find_sub p a ≡ some i → find_sub p (a ++ b) ≡ some i
unfolding find_sub starts_with
find_sub-append [] [] [] i h = h
find_sub-append [] [] (y ∷ b) i h = h
find_sub-append (x ∷ p) [] b i h = ground arith
find_sub-append p (y ∷ a) b i h =
    let fits = find_sub-fits p (y ∷ a) i h in
    let same = starts_with-append p (y ∷ a) b (omega (arith, fits)) in
    elim (Bool-cases (starts_with p (y ∷ a))) [
      | inl e ↦ ground (arith, same, e)
      | inr e ↦ elim (Option-cases (find_sub p a)) [
        | inl n ↦ ground arith
        | inr (j, at) ↦ ground (arith, same, find_sub-append p a b j at)
      ]
    ]

take-append : (n : ℕ) (a b : Text) → n ≤ length a → take n (a ++ b) ≡ take n a
take-append zero a b h = refl
take-append (suc n) [] b h = ground arith
take-append (suc n) (x ∷ a) b h = ap (x ∷◌) (take-append n a b (omega (arith, h)))

pub drop-append : (n : ℕ) (a b : Text) → n ≤ length a → drop n (a ++ b) ≡ drop n a ++ b
drop-append zero a b h = refl
drop-append (suc n) [] b h = ground arith
drop-append (suc n) (x ∷ a) b h = drop-append n a b (omega (arith, h))

pub length-drop : (n : ℕ) (s : Text) → n ≤ length s → n + length (drop n s) ≡ length s
length-drop zero s h = omega arith
length-drop (suc n) [] h = ground arith
length-drop (suc n) (x ∷ s) h = omega (arith, length-drop n s (omega (arith, h)))

-- The two ends of an element that is found.
pub record Found (tag s x r : Text) : Type 0 where
  pub open_at : ℕ
  pub close_at : ℕ
  pub opens : find_sub (open_tag tag) s ≡ some open_at
  pub closes : find_sub (close_tag tag) (drop open_at s) ≡ some close_at
  pub text_is : take (close_at + length (close_tag tag)) (drop open_at s) ≡ x
  pub rest_is : drop (close_at + length (close_tag tag)) (drop open_at s) ≡ r

next_element-at :
    (tag s : Text) (i j : ℕ)
    → find_sub (open_tag tag) s ≡ some i
    → find_sub (close_tag tag) (drop i s) ≡ some j
    → next_element tag s
      ≡ some (
        take (j + length (close_tag tag)) (drop i s),
        drop (j + length (close_tag tag)) (drop i s),
      )
unfolding next_element
next_element-at tag s i j h k = rw (next_element, h, k) refl

next_element-Found : (tag s x r : Text) → next_element tag s ≡ some (x, r) → Found tag s x r
unfolding next_element
next_element-Found tag s x r h = elim (Option-cases (find_sub (open_tag tag) s)) [
  | inl n ↦ ground (arith, n)
  | inr (i, e) ↦ elim (Option-cases (find_sub (close_tag tag) (drop i s))) [
    | inl n ↦ ground (arith, n, e)
    | inr (j, f) ↦
        let both = sym (next_element-at tag s i j e f) ∙ h in
        record {
          open_at = i;
          close_at = j;
          opens = e;
          closes = f;
          text_is = ground (arith, both);
          rest_is = ground (arith, both);
        }
  ]
]

pub next_element-shorter :
    (tag s x r : Text) → next_element tag s ≡ some (x, r) → length r + 1 ≤ length s
next_element-shorter tag s x r h =
    let f = next_element-Found tag s x r h in
    let a = find_sub-fits (open_tag tag) s f.open_at f.opens in
    let b = find_sub-fits (close_tag tag) (drop f.open_at s) f.close_at f.closes in
    let c = length-drop f.open_at s (omega (arith, a)) in
    let d = length-drop (f.close_at + length (close_tag tag)) (drop f.open_at s) b in
    let e = ap length f.rest_is in omega (arith, c, d, e)

pub next_element-append :
    (tag a b x r : Text)
    → next_element tag a ≡ some (x, r)
    → next_element tag (a ++ b) ≡ some (x, r ++ b)
next_element-append tag a b x r h =
    let f = next_element-Found tag a x r h in
    let i_fits = find_sub-fits (open_tag tag) a f.open_at f.opens in
    let j_fits = find_sub-fits (close_tag tag) (drop f.open_at a) f.close_at f.closes in
    let t = drop-append f.open_at a b (omega (arith, i_fits)) in
    let n = f.close_at + length (close_tag tag) in
    let found =
      next_element-at tag (a ++ b) f.open_at f.close_at
        (find_sub-append (open_tag tag) a b f.open_at f.opens)
        (rw t (find_sub-append (close_tag tag) (drop f.open_at a) b f.close_at f.closes)) in
    let xs : take n (drop f.open_at (a ++ b)) ≡ x =
      rw t (take-append n (drop f.open_at a) b j_fits ∙ f.text_is) in
    let rs : drop n (drop f.open_at (a ++ b)) ≡ r ++ b =
      rw t (drop-append n (drop f.open_at a) b j_fits ∙ ap (λ u. u ++ b) f.rest_is) in
    found ∙ ground (arith, xs, rs)

-- Bytes in front of the first '<' are no part of an element.
pub next_element-from_bracket :
    (tag s : Text) → next_element tag (from_bracket s) ≡ next_element tag s
unfolding next_element from_bracket find_sub starts_with
next_element-from_bracket tag [] = refl
next_element-from_bracket tag (c ∷ s) = elim (Bool-cases (c == 60)) [
  | inl e ↦ ground (arith, e)
  | inr e ↦ elim (Option-cases (find_sub (open_tag tag) s)) [
    | inl n ↦ ground (arith, next_element-from_bracket tag s)
    | inr (i, at) ↦ ground (arith, next_element-from_bracket tag s)
  ]
]

pub from_bracket-append : (a b : Text) → from_bracket (from_bracket a ++ b) ≡ from_bracket (a ++ b)
unfolding from_bracket
from_bracket-append [] b = refl
from_bracket-append (c ∷ a) b = ground (arith, from_bracket-append a b)

pub length-from_bracket : (s : Text) → length (from_bracket s) ≤ length s
unfolding from_bracket
length-from_bracket [] = omega arith
length-from_bracket (c ∷ s) = ground (arith, length-from_bracket s)
