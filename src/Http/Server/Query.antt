-- ===== src/Http/Server/Query.antt =====
-- Query strings, written and read back.
use sip_event_processor.Prelude.{
  ℕ, suc, ◌+◌, ◌≡◌, ◌∙◌, refl, sym, ap, subst, Bool, true, not, ◌&&◌, none, some, [], ◌∷◌, ◌++◌,
  Text, text_eq, text_eq_iff, length, take, drop, find_sub, starts_with, tokens, arith, Bool-cases,
  Option-cases, inl, inr, ◌==◌,
}
use sip_event_processor.Prelude.Map.{Map, Distinct, find, put, find-put}
use sip_event_processor.Http.Server.{split_first, add_pair, add_pairs, parse_query_string}

-- A byte does not stand in a text.
abbrev pub free : ℕ → Text → Bool
free b [] = true
free b (c ∷ s) = not (c == b) && free b s

-- A query string of some parameters.
unfoldable pub render : Map Text → Text
render [] = []
render ((k, v) ∷ m) = elim m [ [] ↦ k ++ b'=' ∷ v | _ ∷ _ ↦ (k ++ b'=' ∷ v) ++ b'&' ∷ render m ]

-- Names without '=' and '&', values without '&'.
abbrev pub plain : Map Text → Bool
plain [] = true
plain ((k, v) ∷ m) = free b'=' k && free b'&' (k ++ b'=' ∷ v) && plain m

tokens-separated :
    (sep : ℕ) (a s : Text) → free sep a ≡ true → tokens sep (a ++ sep ∷ s) ≡ a ∷ tokens sep s
unfolding tokens
tokens-separated sep [] s h = ground arith
tokens-separated sep (c ∷ a) s h = ground (arith, h, tokens-separated sep a s)

tokens-last : (sep c : ℕ) (a : Text) → free sep (c ∷ a) ≡ true → tokens sep (c ∷ a) ≡ (c ∷ a) ∷ []
unfolding tokens
tokens-last sep c [] h = ground (arith, h)
tokens-last sep c (d ∷ a) h = ground (arith, h, tokens-last sep d a)

find_sub-first :
    (sep : ℕ) (a s : Text)
    → free sep a ≡ true
    → find_sub (sep ∷ []) (a ++ sep ∷ s) ≡ some (length a)
unfolding find_sub starts_with
find_sub-first sep [] s h = ground arith
find_sub-first sep (c ∷ a) s h = ground (arith, h, find_sub-first sep a s)

take-length : (a s : Text) → take (length a) (a ++ s) ≡ a
take-length [] s = refl
take-length (c ∷ a) s = ap (c ∷◌) (take-length a s)

drop-length : (a : Text) (c : ℕ) (s : Text) → drop (length a + 1) (a ++ c ∷ s) ≡ s
drop-length a c s =
    let same : length a + 1 ≡ suc (length a) = omega arith in
    ap (λ n. drop n (a ++ c ∷ s)) same ∙ drop_suc a
  where
    drop_suc : (b : Text) → drop (suc (length b)) (b ++ c ∷ s) ≡ s
    drop_suc [] = refl
    drop_suc (d ∷ b) = drop_suc b

split_first-at :
    (sep : ℕ) (a s : Text) → free sep a ≡ true → split_first sep (a ++ sep ∷ s) ≡ some (a, s)
unfolding split_first
split_first-at sep a s h =
    rw (split_first, find_sub-first sep a s h, take-length a (sep ∷ s), drop-length a sep s) refl

add_pair-put :
    (k v : Text) (params : Map Text)
    → free b'=' k ≡ true
    → add_pair (k ++ b'=' ∷ v) params ≡ put k v params
unfolding add_pair
add_pair-put k v params h = rw (add_pair, split_first-at b'=' k v h) refl

-- The parameters entered one after the other.
unfoldable pub enter : Map Text → Map Text → Map Text
enter [] params = params
enter ((k, v) ∷ m) params = enter m (put k v params)

tokens-one :
    (k v : Text)
    → free b'&' (k ++ b'=' ∷ v) ≡ true
    → tokens b'&' (k ++ b'=' ∷ v) ≡ (k ++ b'=' ∷ v) ∷ []
tokens-one [] v h = tokens-last b'&' b'=' v h
tokens-one (c ∷ k) v h = tokens-last b'&' c (k ++ b'=' ∷ v) h

add_pairs-render :
    (m params : Map Text)
    → plain m ≡ true
    → add_pairs (tokens b'&' (render m)) params ≡ enter m params
unfolding add_pairs render enter tokens
add_pairs-render [] params h = refl
add_pairs-render ((k, v) ∷ []) params h =
    let a : free b'=' k ≡ true = ground (arith, h) in
    let b : free b'&' (k ++ b'=' ∷ v) ≡ true = ground (arith, h) in
    ap (λ ts. add_pairs ts params) (tokens-one k v b) ∙ add_pair-put k v params a
add_pairs-render ((k, v) ∷ (j, w) ∷ m) params h =
    let a : free b'=' k ≡ true = ground (arith, h) in
    let b : free b'&' (k ++ b'=' ∷ v) ≡ true = ground (arith, h) in
    let others : plain ((j, w) ∷ m) ≡ true = ground (arith, h) in
    ap (λ ts. add_pairs ts params) (tokens-separated b'&' (k ++ b'=' ∷ v) (render ((j, w) ∷ m)) b)
    ∙ ap (add_pairs (tokens b'&' (render ((j, w) ∷ m)))) (add_pair-put k v params a)
    ∙ add_pairs-render ((j, w) ∷ m) (put k v params) others

find-enter_absent :
    (key : Text) (m params : Map Text)
    → find key m ≡ none
    → find key (enter m params) ≡ find key params
unfolding enter find
find-enter_absent key [] params h = refl
find-enter_absent key ((k, v) ∷ m) params h =
    find-enter_absent key m (put k v params) (ground (arith, h))
    ∙ ground (arith, h, find-put k key v params)

find-enter :
    (key v : Text) (m params : Map Text)
    → Distinct m
    → find key m ≡ some v
    → find key (enter m params) ≡ some v
unfolding enter find
find-enter key v [] params d h = ground (arith, h)
find-enter key v ((k, w) ∷ m) params d h = elim (Bool-cases (text_eq k key)) [
  | inl e ↦
      let same : k ≡ key = (text_eq_iff k key).0 e in
      find-enter_absent key m (put k w params) (subst (λ j. find j m ≡ none) same d.0)
      ∙ find-put k key w params
      ∙ ground (arith, e, h)
  | inr e ↦ find-enter key v m (put k w params) d.1 (ground (arith, e, h))
]

-- The parameters of a query string are read back: if no name stands twice, the names have no '='
-- and no '&' and the values no '&', then each name has its value again, and no other name has
-- one.
pub find-parse_query_string :
    (m : Map Text) (key : Text)
    → Distinct m
    → plain m ≡ true
    → find key (parse_query_string (render m)) ≡ find key m
unfolding parse_query_string find
find-parse_query_string m key d h =
    ap (find key) (add_pairs-render m [] h) ∙ elim (Option-cases (find key m)) [
      | inl e ↦ find-enter_absent key m [] e ∙ sym e
      | inr (v, e) ↦ find-enter key v m [] d e ∙ sym e
    ]
