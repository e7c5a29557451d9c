-- ===== src/Config/Ini/Servers.antt =====
-- The list of presence servers that a configuration names.
use sip_event_processor.Prelude.{
  ℕ, zero, suc, ◌+◌, ◌≡◌, ◌<◌, ◌∙◌, refl, sym, ap, true, false, some, List, [], ◌∷◌, Text, is_empty,
  trim_left, trim_right, tokens, is_blank, get_elem?, arith, Bool-cases, Option-cases, inl, inr, ℤ,
  pos, negsuc,
}
use sip_event_processor.Config.{PresenceServerEndpoint}
use sip_event_processor.Config.Ini.{
  split_last_colon, server_of, servers_from, parse_servers, stoi, to_uint16,
}

to_uint16-lt : (n : ℤ) → to_uint16 n < 65536
unfolding to_uint16
to_uint16-lt (pos n) = omega arith
to_uint16-lt (negsuc n) = omega arith

-- An endpoint with a port of 16 bits, a given priority and the weight 1.
abbrev pub WellFormed : ℕ → PresenceServerEndpoint → Type 0
WellFormed priority ep = (ep.port < 65536) × (ep.priority ≡ priority) × (ep.weight ≡ 1)

server_of-WellFormed :
    (priority : ℕ) (token : Text) → WellFormed priority (server_of priority token)
unfolding server_of
server_of-WellFormed priority token = elim (Option-cases (split_last_colon token)) [
  | inl e ↦ rw (server_of, e) (omega arith, refl, refl)
  | inr ((host, port), e) ↦ elim (Option-cases (stoi port)) [
    | inl f ↦ rw (server_of, e, f) (omega arith, refl, refl)
    | inr (n, f) ↦ rw (server_of, e, f) (to_uint16-lt n, refl, refl)
  ]
]

servers_from-skips :
    (priority : ℕ) (t : Text) (ts : List Text)
    → is_empty (trim_right is_blank (trim_left is_blank t)) ≡ true
    → servers_from priority (t ∷ ts) ≡ servers_from priority ts
unfolding servers_from
servers_from-skips priority t ts e = rw (servers_from, e) refl

servers_from-takes :
    (priority : ℕ) (t : Text) (ts : List Text)
    → is_empty (trim_right is_blank (trim_left is_blank t)) ≡ false
    → servers_from priority (t ∷ ts)
      ≡ server_of priority (trim_right is_blank (trim_left is_blank t))
        ∷ servers_from (priority + 1) ts
unfolding servers_from
servers_from-takes priority t ts e = rw (servers_from, e) refl

servers_from-WellFormed :
    (priority : ℕ) (ts : List Text) (i : ℕ) (ep : PresenceServerEndpoint)
    → get_elem? (servers_from priority ts) i ≡ some ep
    → WellFormed (priority + i) ep
unfolding servers_from
servers_from-WellFormed priority [] i ep h = cc
servers_from-WellFormed priority (t ∷ ts) zero ep h =
    elim (Bool-cases (is_empty (trim_right is_blank (trim_left is_blank t)))) [
      | inl e ↦
          let there = sym (ap (λ l. get_elem? l 0) (servers_from-skips priority t ts e)) ∙ h in
          servers_from-WellFormed priority ts 0 ep there
      | inr e ↦
          let there = sym (ap (λ l. get_elem? l 0) (servers_from-takes priority t ts e)) ∙ h in
          let (a, b, c) =
            server_of-WellFormed priority (trim_right is_blank (trim_left is_blank t)) in
          ground (arith, there, a, b, c)
    ]
servers_from-WellFormed priority (t ∷ ts) (suc i) ep h =
    elim (Bool-cases (is_empty (trim_right is_blank (trim_left is_blank t)))) [
      | inl e ↦
          let there =
            sym (ap (λ l. get_elem? l (suc i)) (servers_from-skips priority t ts e)) ∙ h in
          servers_from-WellFormed priority ts (suc i) ep there
      | inr e ↦
          let there =
            sym (ap (λ l. get_elem? l (suc i)) (servers_from-takes priority t ts e)) ∙ h in
          let (a, b, c) = servers_from-WellFormed (priority + 1) ts i ep there in
          (a, b ∙ omega arith, c)
    ]

-- Whatever the text, the server at each position of the list has that position as its priority, a
-- port below 65536 and the weight 1.
pub parse_servers-positions :
    (csv : Text) (i : ℕ) (ep : PresenceServerEndpoint)
    → get_elem? (parse_servers csv) i ≡ some ep
    → WellFormed i ep
unfolding parse_servers
parse_servers-positions csv i ep h =
    let (a, b, c) = servers_from-WellFormed 0 (tokens b',' csv) i ep h in (a, b ∙ omega arith, c)
