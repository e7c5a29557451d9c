-- ===== src/Presence/Failover/Choice.antt =====
-- What the three strategies choose.
use sip_event_processor.Prelude.{
  ℕ, zero, suc, ◌+◌, ◌%◌, ◌≡◌, ◌⊎◌, inl, inr, Bool, true, ◌&&◌, Option, none, some, List, [], ◌∷◌,
  length, is_empty, get_elem?, arith, Bool-cases, Option-cases,
}
use sip_event_processor.Presence.Failover.{
  ServerHealth, PresenceFailoverManager, is_free, is_free_healthy, at_test, scan_ring,
  select_round_robin, scan_priority, beats, select_priority, positions_where, select_random,
  select_by_strategy,
}

scan_ring-at_test :
    (p : ServerHealth → Bool) (hs : List ServerHealth) (start k i j : ℕ)
    → scan_ring p hs start k i ≡ some j
    → at_test p hs j ≡ true
unfolding scan_ring
scan_ring-at_test p hs start zero i j e = cc
scan_ring-at_test p hs start (suc k) i j e =
    elim (Bool-cases (at_test p hs ((start + i) % length hs))) [
      | inl t ↦ ground (arith, t, rw t at e)
      | inr t ↦ scan_ring-at_test p hs start k (i + 1) j (rw t at e)
    ]

-- A server that is free and healthy is free.
healthy-is_free :
    (now : ℕ) (hs : List ServerHealth) (j : ℕ)
    → at_test (is_free_healthy now) hs j ≡ true
    → at_test (is_free now) hs j ≡ true
healthy-is_free now hs j h = ground (arith, Option-cases (get_elem? hs j))

select_round_robin-free :
    (now j : ℕ) (m : PresenceFailoverManager)
    → select_round_robin now m ≡ some j
    → at_test (is_free now) m.servers j ≡ true
unfolding select_round_robin
select_round_robin-free now j m e = ground (
  arith,
  healthy-is_free now m.servers j,
  scan_ring-at_test (is_free_healthy now) m.servers m.round_robin_index (length m.servers) 0 j,
  scan_ring-at_test (is_free now) m.servers m.round_robin_index (length m.servers) 0 j,
)

-- The best so far stays, or is a free server of the rest.
scan_priority-free :
    (now i : ℕ) (best : Option (ℕ × ServerHealth)) (hs : List ServerHealth) (j : ℕ)
    (h : ServerHealth)
    → scan_priority now best i hs ≡ some (j, h)
    → (best ≡ some (j, h))
      ⊎ ((k : ℕ) × (j ≡ i + k) × (get_elem? hs k ≡ some h) × (is_free now h ≡ true))
unfolding scan_priority
scan_priority-free now i best [] j h e = inl e
scan_priority-free now i best (g ∷ hs) j h e = elim (Bool-cases (is_free now g && beats g best)) [
  | inl t ↦ elim (scan_priority-free now (i + 1) (some (i, g)) hs j h (rw t at e)) [
    | inl q ↦ inr (0, ground (arith, q), ground (arith, q), ground (arith, q, t))
    | inr (k, a, b, c) ↦ inr (suc k, omega (arith, a), b, c)
  ]
  | inr t ↦ elim (scan_priority-free now (i + 1) best hs j h (rw t at e)) [
    | inl q ↦ inl q
    | inr (k, a, b, c) ↦ inr (suc k, omega (arith, a), b, c)
  ]
]

positions_where-at_test :
    (p : ServerHealth → Bool) (i : ℕ) (hs : List ServerHealth) (r j : ℕ)
    → get_elem? (positions_where p i hs) r ≡ some j
    → (k : ℕ) × (j ≡ i + k) × (at_test p hs k ≡ true)
unfolding positions_where
positions_where-at_test p i [] r j e = cc
positions_where-at_test p i (g ∷ hs) zero j e = elim (Bool-cases (p g)) [
  | inl t ↦ let q = rw t at e in (0, ground (arith, q), t)
  | inr t ↦
      let (k, a, b) = positions_where-at_test p (i + 1) hs zero j (rw t at e) in
      (suc k, omega (arith, a), b)
]
positions_where-at_test p i (g ∷ hs) (suc r) j e = elim (Bool-cases (p g)) [
  | inl t ↦
      let (k, a, b) = positions_where-at_test p (i + 1) hs r j (rw t at e) in
      (suc k, omega (arith, a), b)
  | inr t ↦
      let (k, a, b) = positions_where-at_test p (i + 1) hs (suc r) j (rw t at e) in
      (suc k, omega (arith, a), b)
]

select_random-free :
    (draw now j : ℕ) (m : PresenceFailoverManager)
    → select_random draw now m ≡ some j
    → at_test (is_free now) m.servers j ≡ true
unfolding select_random
select_random-free draw now j m e =
    elim (Bool-cases (is_empty (positions_where (is_free_healthy now) 0 m.servers))) [
      | inl t ↦
          let (k, a, b) = positions_where-at_test (is_free now) 0 m.servers _ j (rw t at e) in
          let q : j ≡ k = omega (arith, a) in rw q b
      | inr t ↦
          let (k, a, b) =
            positions_where-at_test (is_free_healthy now) 0 m.servers _ j (rw t at e) in
          let q : j ≡ k = omega (arith, a) in healthy-is_free now m.servers j (rw q b)
    ]

select_priority-free :
    (now j : ℕ) (m : PresenceFailoverManager)
    → select_priority now m ≡ some j
    → at_test (is_free now) m.servers j ≡ true
unfolding select_priority
select_priority-free now j m e = elim (Option-cases (scan_priority now none 0 m.servers)) [
  | inl q ↦ ground (arith, q, e)
  | inr ((i, h), q) ↦ elim (scan_priority-free now 0 none m.servers i h q) [
    | inl z ↦ absurd (ground (arith, z))
    | inr (k, a, b, c) ↦ ground (arith, q, e, a, b, c)
  ]
]

-- Under every strategy, a server that is selected is there and not in cooldown.
pub select_by_strategy-free :
    (draw now j : ℕ) (m : PresenceFailoverManager)
    → select_by_strategy draw now m ≡ some j
    → at_test (is_free now) m.servers j ≡ true
unfolding select_by_strategy
select_by_strategy-free draw now j m e = ground (
  arith,
  select_round_robin-free now j m,
  select_priority-free now j m,
  select_random-free draw now j m,
)
