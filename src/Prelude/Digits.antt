-- ===== src/Prelude/Digits.antt =====
-- The decimal digits of a number determine it.
use Prim.Native.Nat.{ℕ, zero, suc, ◌+◌, ◌-◌, ◌*◌, ◌/◌, ◌%◌, ◌<◌}
use mathlib.Core.Path.{◌≡◌, sym, ap, ◌∙◌}
use mathlib.Core.List.{[], ◌∷◌, ◌++◌}
use native.Mathlib.Omega.{arith}
use sip_event_processor.Prelude.Tests.{Bool-cases, ltb}
use sip_event_processor.Prelude.Bytes.{Text}
use sip_event_processor.Prelude.Search.{show, to_string}
use mathlib.Core.Logic.{inl, inr}

-- The number that a text of digits stands for, behind the digits read so far.
value_from : ℕ → Text → ℕ
value_from n [] = n
value_from n (c ∷ s) = value_from (n * 10 + (c - 48)) s

value_from-append :
    (n c : ℕ) (s : Text) → value_from n (s ++ c ∷ []) ≡ value_from n s * 10 + (c - 48)
unfolding value_from
value_from-append n c [] = omega arith
value_from-append n c (d ∷ s) = value_from-append (n * 10 + (d - 48)) c s

value-show : (f n : ℕ) → n < f → value_from 0 (show f n) ≡ n
unfolding show
value-show zero n h = absurd (omega arith)
value-show (suc f) n h = elim (Bool-cases (ltb n 10)) [
  | inl small ↦ rw small (unfold value_from in omega arith)
  | inr large ↦
      rw large (
        value_from-append 0 (48 + n % 10) (show f (n / 10)) ∙ ground (arith, value-show f (n / 10)))
]

pub to_string_injective : (i j : ℕ) → to_string i ≡ to_string j → i ≡ j
unfolding to_string
to_string_injective i j h =
    sym (value-show (suc i) i (omega arith))
    ∙ ap (value_from 0) h
    ∙ value-show (suc j) j (omega arith)
