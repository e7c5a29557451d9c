-- ===== src/Prelude/Search.antt =====
-- What the program uses of `std::string`: find, substr, erase, trimming, tolower, to_string.
use sip_event_processor.Prelude.Tests.{ltb, leb, ◌==◌, if◌then◌else◌}
use sip_event_processor.Prelude.Lists.{length, is_empty}
use sip_event_processor.Prelude.Bytes.{Text}
use Prim.Native.Nat.{ℕ, zero, suc, ◌+◌, ◌/◌, ◌%◌}
use mathlib.Core.Bool.{Bool, true, false, ◌&&◌, ◌||◌}
use mathlib.Core.Option
use mathlib.Core.Option.{Option, none, some}
use mathlib.Core.List.{List, [], ◌∷◌, ◌++◌, map, reverse}

module _ {ℓ} {A : Type ℓ} where
  abbrev pub take : ℕ → List A → List A
  take zero xs = []
  take (suc n) [] = []
  take (suc n) (x ∷ xs) = x ∷ take n xs

  abbrev pub drop : ℕ → List A → List A
  drop zero xs = xs
  drop (suc n) [] = []
  drop (suc n) (x ∷ xs) = drop n xs

-- s.substr(pos, n), for pos <= s.size()
abbrev pub substr : Text → ℕ → ℕ → Text
substr s pos n = take n (drop pos s)

unfoldable pub starts_with : Text → Text → Bool
starts_with [] s = true
starts_with (a ∷ p) [] = false
starts_with (a ∷ p) (b ∷ s) = a == b && starts_with p s

-- s.find(p): the first position at which `p` stands.
unfoldable pub find_sub : Text → Text → Option ℕ
find_sub p [] = if is_empty p then some 0 else none
find_sub p (b ∷ s) = if starts_with p (b ∷ s) then some 0 else Option.map suc (find_sub p s)

-- s.find(p, pos); past the end nothing is found.
unfoldable pub find_from : Text → ℕ → Text → Option ℕ
find_from p pos s =
    if leb pos (length s) then Option.map (λ i. pos + i) (find_sub p (drop pos s)) else none

unfoldable pub to_lower : ℕ → ℕ
to_lower c = if leb 65 c && leb c 90 then c + 32 else c

abbrev pub lower_text : Text → Text
lower_text = map to_lower

-- s.erase(0, s.find_first_not_of(set)); if there is none, npos erases the whole text.
unfoldable pub trim_left : (ℕ → Bool) → Text → Text
trim_left p [] = []
trim_left p (c ∷ s) = let rest = trim_left p s in if p c then rest else c ∷ s

-- s.erase(s.find_last_not_of(set) + 1); if there is none, npos + 1 is 0.
unfoldable pub trim_right : (ℕ → Bool) → Text → Text
trim_right p s = reverse (trim_left p (reverse s))

-- The sets " \t" and " \t\n\r".
abbrev pub is_blank : ℕ → Bool
is_blank c = c == 32 || c == 9

abbrev pub is_space : ℕ → Bool
is_space c = c == 32 || c == 9 || c == 10 || c == 13

-- The pieces that `std::getline` gives at a separator: no empty one behind a last separator.
unfoldable pub tokens : ℕ → Text → List Text
tokens sep [] = []
tokens sep (c ∷ s) =
    let rest = tokens sep s in
    if c == sep then [] ∷ rest else elim rest [ [] ↦ (c ∷ []) ∷ [] | t ∷ ts ↦ (c ∷ t) ∷ ts ]

-- The digits of `n`; a number has no more digits than its value plus one.
unfoldable pub show : ℕ → ℕ → Text
show zero n = []
show (suc f) n =
    let rest = show f (n / 10) in if ltb n 10 then (48 + n) ∷ [] else rest ++ (48 + n % 10) ∷ []

-- std::to_string
unfoldable pub to_string : ℕ → Text
unfolding show
to_string n = show (suc n) n

module _ {ℓ} {A : Type ℓ} where
  abbrev pub get_elem? : List A → ℕ → Option A
  get_elem? [] i = none
  get_elem? (x ∷ xs) zero = some x
  get_elem? (x ∷ xs) (suc i) = get_elem? xs i

  -- xs[i] = f(xs[i]); out of range nothing changes
  abbrev pub modify : (A → A) → List A → ℕ → List A
  modify f [] i = []
  modify f (x ∷ xs) zero = f x ∷ xs
  modify f (x ∷ xs) (suc i) = x ∷ modify f xs i
