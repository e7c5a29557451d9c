-- ===== src/Prelude/Map/Tally.antt =====
-- How many values of a map pass a test, and how writes change that.
use sip_event_processor.Prelude.Bytes.{Text, text_eq_iff}
use sip_event_processor.Prelude.Map.{Map, find, put, erase, Distinct}
use Prim.Native.Nat.{ℕ, ◌+◌}
use mathlib.Core.Path.{◌≡◌, refl}
use mathlib.Core.Bool.{Bool, true, false}
use mathlib.Core.Option.{none, some}
use mathlib.Core.List.{[], ◌∷◌}
use native.Mathlib.Omega.{arith}

abbrev pub one_if : Bool → ℕ
one_if true = 1
one_if false = 0

module _ {ℓ} {V : Type ℓ} where
  unfoldable pub tally : (V → Bool) → Map V → ℕ
  tally p [] = 0
  tally p ((k, v) ∷ m) = one_if (p v) + tally p m

  pub tally-put_new :
      (p : V → Bool) (k : Text) (v : V) (m : Map V)
      → find k m ≡ none
      → tally p (put k v m) ≡ one_if (p v) + tally p m
  unfolding tally find put
  tally-put_new p k v [] h = refl
  tally-put_new p k v ((j, w) ∷ m) h = ground (arith, tally-put_new p k v m)

  pub tally-put_old :
      (p : V → Bool) (k : Text) (v w : V) (m : Map V)
      → find k m ≡ some w
      → one_if (p w) + tally p (put k v m) ≡ one_if (p v) + tally p m
  unfolding tally find put
  tally-put_old p k v w [] h = ground arith
  tally-put_old p k v w ((j, u) ∷ m) h = ground (arith, tally-put_old p k v w m)

  pub tally-erase_new :
      (p : V → Bool) (k : Text) (m : Map V) → find k m ≡ none → tally p (erase k m) ≡ tally p m
  unfolding tally find erase
  tally-erase_new p k [] h = refl
  tally-erase_new p k ((j, w) ∷ m) h = ground (arith, tally-erase_new p k m)

  pub tally-erase :
      (p : V → Bool) (k : Text) (w : V) (m : Map V)
      → Distinct m
      → find k m ≡ some w
      → one_if (p w) + tally p (erase k m) ≡ tally p m
  unfolding tally find erase
  tally-erase p k w [] d h = ground arith
  tally-erase p k w ((j, u) ∷ m) d h =
      ground (arith, text_eq_iff j k, tally-erase_new p k m, tally-erase p k w m d.1)
