-- ===== src/Config/Ini/Substitution.antt =====
-- When the substitution of environment variables ends.
use sip_event_processor.Prelude.{
  ℕ, zero, suc, ◌+◌, ◌-◌, ◌≡◌, ◌≤◌, refl, ap, Option, none, some, [], ◌∷◌, ◌++◌, Text, take, drop,
  find_sub, starts_with, arith, Option-cases, inl, inr, ◌==◌, if◌then◌else◌,
}
use sip_event_processor.Config.Ini.{substitute}

-- How often '$' stands in a text.
unfoldable pub dollars : Text → ℕ
dollars [] = 0
dollars (c ∷ s) = (if c == b'$' then 1 else 0) + dollars s

dollars-append : (a b : Text) → dollars (a ++ b) ≡ dollars a + dollars b
unfolding dollars
dollars-append [] b = omega arith
dollars-append (c ∷ a) b = ground (arith, dollars-append a b)

dollars-drop : (n : ℕ) (s : Text) → dollars (drop n s) ≤ dollars s
unfolding dollars
dollars-drop zero s = omega arith
dollars-drop (suc n) [] = omega arith
dollars-drop (suc n) (c ∷ s) = ground (arith, dollars-drop n s)

-- Behind the place at which "${" is found, one '$' less is left.
found-dollar :
    (s : Text) (i j : ℕ)
    → find_sub (b'$' ∷ b'{' ∷ []) s ≡ some i
    → dollars (drop (suc j) (drop i s)) + 1 ≤ dollars s
unfolding find_sub starts_with dollars
found-dollar [] i j h = ground (arith, h)
found-dollar (c ∷ s) zero j h = ground (arith, h, dollars-drop j s)
found-dollar (c ∷ s) (suc i) j h = elim (Option-cases (find_sub (b'$' ∷ b'{' ∷ []) s)) [
  | inl e ↦ ground (arith, h, e)
  | inr (k, e) ↦ ground (arith, h, e, found-dollar s i j)
]

-- The environment's value of a name.
abbrev pub value_of : (Text → Option Text) → Text → Text
value_of getenv name = elim (getenv name) [ none ↦ [] | some v ↦ v ]

-- If no value in the environment contains a '$', the loop that replaces ${NAME} ends: one round
-- more than there are '$' in the value is enough.
pub substitute-ends :
    (fuel : ℕ) (getenv : Text → Option Text) (done rest : Text)
    → ((name : Text) → dollars (value_of getenv name) ≡ 0)
    → dollars rest + 1 ≤ fuel
    → (value : Text) × (substitute fuel getenv done rest ≡ some value)
unfolding substitute
substitute-ends zero getenv done rest plain h = ground (arith, h)
substitute-ends (suc fuel) getenv done rest plain h =
    elim (Option-cases (find_sub (b'$' ∷ b'{' ∷ []) rest)) [
      | inl e ↦ (done ++ rest, rw (substitute, e) refl)
      | inr (i, e) ↦ elim (Option-cases (find_sub (b'}' ∷ []) (drop i rest))) [
        | inl f ↦ (done ++ rest, rw (substitute, e, f) refl)
        | inr (j, f) ↦
            let name = take (j - 2) (drop 2 (drop i rest)) in
            let next = value_of getenv name ++ drop (j + 1) (drop i rest) in
            let count = dollars-append (value_of getenv name) (drop (j + 1) (drop i rest)) in
            let same : j + 1 ≡ suc j = omega arith in
            let fewer : dollars next + 1 ≤ fuel = omega (
              arith,
              h,
              count,
              plain name,
              ap (λ n. dollars (drop n (drop i rest))) same,
              found-dollar rest i j e,
            ) in
            let (value, ends) =
              substitute-ends fuel getenv (done ++ take i rest) next plain fewer in
            (value, rw (substitute, e, f) ends)
      ]
    ]
