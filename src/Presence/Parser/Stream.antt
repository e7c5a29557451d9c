-- ===== src/Presence/Parser/Stream.antt =====
-- PresenceXmlParser::feed as a reader of a stream: the loop over the events ends, the buffer is
-- bounded, and the chunks into which the stream is cut do not matter.
use sip_event_processor.Prelude.{
  ℕ, zero, suc, ◌+◌, ◌∙◌, ◌≡◌, ◌≤◌, refl, sym, ap, Bool, false, none, some, List, [], ◌∷◌, ◌++◌,
  Text, length, length-append, append_assoc, append-nil, arith, Bool-cases, Option-cases, inl, inr,
}
use sip_event_processor.Presence.CallEvent.{CallStateEvent, next_event_id}
use sip_event_processor.Presence.Parser.{
  PresenceXmlParser, event_tag, heartbeat_tag, next_element, split_events, take_event, take_events,
  parse_single_event, read_buffer, erase_read, from_bracket, after_heartbeat,
}
use sip_event_processor.Presence.Parser.Find.{
  next_element-shorter, next_element-append, next_element-from_bracket, from_bracket-append,
  length-from_bracket,
}

-- The loop's rounds on a text that holds an event.
split_events-some :
    (n : ℕ) (s x r : Text)
    → next_element event_tag s ≡ some (x, r)
    → split_events (suc n) s ≡ (x ∷ (split_events n r).0, (split_events n r).1)
unfolding split_events
split_events-some n s x r h = rw (split_events, h) refl

split_events-none :
    (n : ℕ) (s : Text) → next_element event_tag s ≡ none → split_events n s ≡ ([], s)
unfolding split_events
split_events-none zero s h = refl
split_events-none (suc n) s h = rw (split_events, h) refl

-- With as many rounds as the text has bytes, the loop over the events ends because no whole event
-- is left in what follows the last one, which is no longer than the text.
pub split_events-ends :
    (n : ℕ) (s : Text)
    → length s ≤ n
    → (next_element event_tag (split_events n s).1 ≡ none)
      × (length (split_events n s).1 ≤ length s)
split_events-ends zero s h = elim (Option-cases (next_element event_tag s)) [
  | inl e ↦ rw (split_events-none zero s e) (e, omega arith)
  | inr ((x, r), e) ↦ ground (arith, h, next_element-shorter event_tag s x r e)
]
split_events-ends (suc n) s h = elim (Option-cases (next_element event_tag s)) [
  | inl e ↦ rw (split_events-none (suc n) s e) (e, omega arith)
  | inr ((x, r), e) ↦
      let shorter = next_element-shorter event_tag s x r e in
      let (a, b) = split_events-ends n r (omega (arith, h, shorter)) in
      rw (split_events-some n s x r e) (a, omega (arith, b, shorter))
]

-- More rounds than bytes change nothing.
split_events-fuel :
    (n m : ℕ) (s : Text) → length s ≤ n → length s ≤ m → split_events n s ≡ split_events m s
split_events-fuel zero m s h g = elim (Option-cases (next_element event_tag s)) [
  | inl e ↦ rw (split_events-none zero s e, split_events-none m s e) refl
  | inr ((x, r), e) ↦ ground (arith, h, next_element-shorter event_tag s x r e)
]
split_events-fuel (suc n) zero s h g = elim (Option-cases (next_element event_tag s)) [
  | inl e ↦ rw (split_events-none zero s e, split_events-none (suc n) s e) refl
  | inr ((x, r), e) ↦ ground (arith, g, next_element-shorter event_tag s x r e)
]
split_events-fuel (suc n) (suc m) s h g = elim (Option-cases (next_element event_tag s)) [
  | inl e ↦ rw (split_events-none (suc m) s e, split_events-none (suc n) s e) refl
  | inr ((x, r), e) ↦
      let shorter = next_element-shorter event_tag s x r e in
      rw
        (
          split_events-some n s x r e,
          split_events-some m s x r e,
          split_events-fuel n m r (omega (arith, h, shorter)) (omega (arith, g, shorter)),
        )
        refl
]

-- Appended bytes leave the events that are found, and what follows the last is read on.
pub split_events-append :
    (n m k : ℕ) (a b : Text)
    → length a ≤ n
    → length a + length b ≤ m
    → length a + length b ≤ k
    → split_events m (a ++ b) ≡ (
      (split_events n a).0 ++ (split_events k ((split_events n a).1 ++ b)).0,
      (split_events k ((split_events n a).1 ++ b)).1,
    )
split_events-append zero m k a b h g f = elim (Option-cases (next_element event_tag a)) [
  | inl e ↦
      rw
        (
          split_events-none zero a e,
          split_events-fuel m k (a ++ b) (omega (arith, g, length-append a b))
              (omega (arith, f, length-append a b)),
        )
        refl
  | inr ((x, r), e) ↦ ground (arith, h, next_element-shorter event_tag a x r e)
]
split_events-append (suc n) zero k a b h g f = elim (Option-cases (next_element event_tag a)) [
  | inl e ↦
      rw
        (
          split_events-none (suc n) a e,
          split_events-fuel zero k (a ++ b) (omega (arith, g, length-append a b))
              (omega (arith, f, length-append a b)),
        )
        refl
  | inr ((x, r), e) ↦ ground (arith, g, next_element-shorter event_tag a x r e)
]
split_events-append (suc n) (suc m) k a b h g f = elim (Option-cases (next_element event_tag a)) [
  | inl e ↦
      rw
        (
          split_events-none (suc n) a e,
          split_events-fuel (suc m) k (a ++ b) (omega (arith, g, length-append a b))
              (omega (arith, f, length-append a b)),
        )
        refl
  | inr ((x, r), e) ↦
      let shorter = next_element-shorter event_tag a x r e in
      rw
        (
          split_events-some n a x r e,
          split_events-some m (a ++ b) x (r ++ b) (next_element-append event_tag a b x r e),
          split_events-append n m k r b (omega (arith, h, shorter)) (omega (arith, g, shorter))
              (omega (arith, f, shorter)),
        )
        refl
]

-- The loop's body reads and writes neither the buffer nor the events in front.
take_event-frame :
    (now : ℕ) (x buffer : Text) (es fs : List CallStateEvent) (p : PresenceXmlParser)
    → take_event now x (record p { buffer = buffer }, es ++ fs) ≡ (
      record (take_event now x (p, fs)).0 { buffer = buffer },
      es ++ (take_event now x (p, fs)).1,
    )
unfolding take_event
take_event-frame now x buffer es fs p =
    elim (Bool-cases (parse_single_event now (next_event_id p.id_counter) x).is_valid) [
      | inl e ↦ rw (take_event, e, append_assoc es fs) refl
      | inr e ↦ rw (take_event, e) refl
    ]

take_events-frame :
    (now : ℕ) (xs : List Text) (buffer : Text) (es fs : List CallStateEvent) (p : PresenceXmlParser)
    → take_events now xs (record p { buffer = buffer }, es ++ fs) ≡ (
      record (take_events now xs (p, fs)).0 { buffer = buffer },
      es ++ (take_events now xs (p, fs)).1,
    )
unfolding take_events
take_events-frame now [] buffer es fs p = refl
take_events-frame now (x ∷ xs) buffer es fs p =
    let (q, gs) = take_event now x (p, fs) in
    ap (take_events now xs) (take_event-frame now x buffer es fs p)
    ∙ take_events-frame now xs buffer es gs q

take_events-append :
    (now : ℕ) (xs ys : List Text) (r : PresenceXmlParser × List CallStateEvent)
    → take_events now (xs ++ ys) r ≡ take_events now ys (take_events now xs r)
unfolding take_events
take_events-append now [] ys r = refl
take_events-append now (x ∷ xs) ys r = take_events-append now xs ys (take_event now x r)

-- Two texts that differ only in front of their first '<' hold the same events, and what follows
-- the last of them again differs only so.
split_events-from_bracket :
    (n : ℕ) (s t : Text)
    → from_bracket s ≡ from_bracket t
    → ((split_events n s).0 ≡ (split_events n t).0)
      × (from_bracket (split_events n s).1 ≡ from_bracket (split_events n t).1)
unfolding split_events
split_events-from_bracket zero s t h = (refl, h)
split_events-from_bracket (suc n) s t h =
    let same =
      sym (next_element-from_bracket event_tag s)
      ∙ ap (next_element event_tag) h
      ∙ next_element-from_bracket event_tag t in
    elim (Option-cases (next_element event_tag t)) [
      | inl e ↦ rw (split_events-none (suc n) s (same ∙ e), split_events-none (suc n) t e) (refl, h)
      | inr ((x, r), e) ↦
          rw (split_events-some n s x r (same ∙ e), split_events-some n t x r e) (refl, refl)
    ]

after_heartbeat-from_bracket :
    (s t : Text) → from_bracket s ≡ from_bracket t → after_heartbeat s ≡ after_heartbeat t
unfolding after_heartbeat
after_heartbeat-from_bracket s t h =
    let same : next_element heartbeat_tag s ≡ next_element heartbeat_tag t =
      sym (next_element-from_bracket heartbeat_tag s)
      ∙ ap (next_element heartbeat_tag) h
      ∙ next_element-from_bracket heartbeat_tag t in
    rw (after_heartbeat, same) refl

erase_read-from_bracket :
    (s t : Text) (r : PresenceXmlParser × List CallStateEvent)
    → from_bracket s ≡ from_bracket t
    → erase_read s r ≡ erase_read t r
unfolding erase_read
erase_read-from_bracket s t (p, es) h =
    let same = after_heartbeat-from_bracket s t h in
    elim (Option-cases (after_heartbeat t)) [
      | inl e ↦ rw (erase_read, same, e, h) refl
      | inr (rest, e) ↦ rw (erase_read, same, e) refl
    ]

erase_read-frame :
    (last buffer : Text) (p : PresenceXmlParser) (es fs : List CallStateEvent)
    → erase_read last (record p { buffer = buffer }, es ++ fs)
      ≡ (let (q, gs, heartbeat) = erase_read last (p, fs) in (q, es ++ gs, heartbeat))
unfolding erase_read
erase_read-frame last buffer p es fs = elim (Option-cases (after_heartbeat last)) [
  | inl e ↦ rw (erase_read, e) refl
  | inr (rest, e) ↦ rw (erase_read, e) refl
]

-- What is left of the buffer when no heartbeat is read.
erase_read-none :
    (last : Text) (p : PresenceXmlParser) (es : List CallStateEvent)
    → (erase_read last (p, es)).2 ≡ false
    → erase_read last (p, es) ≡ (record p { buffer = from_bracket last }, es, false)
unfolding erase_read
erase_read-none last p es h = elim (Option-cases (after_heartbeat last)) [
  | inl e ↦ rw (erase_read, e) refl
  | inr (rest, e) ↦ ground (arith, e)
]

read_buffer-fuel :
    (now n : ℕ) (text : Text) (p : PresenceXmlParser)
    → length text ≤ n
    → read_buffer now text p
      ≡ erase_read (split_events n text).1 (take_events now (split_events n text).0 (p, []))
unfolding read_buffer
read_buffer-fuel now n text p h =
    rw (read_buffer, split_events-fuel (length text) n text (omega arith) h) refl

abbrev pub Read : Type 0
Read = PresenceXmlParser × List CallStateEvent × Bool

abbrev pub behind : List CallStateEvent → Read → Read
behind es (r, fs, heartbeat) = (r, es ++ fs, heartbeat)

-- The bytes `b` read after what has been read.
abbrev pub then_read : ℕ → Text → Read → Read
then_read now b (q, es, _) = behind es (read_buffer now (q.buffer ++ b) q)

-- Events read behind others are read as they would be alone, whatever was in the buffer.
take_rest-frame :
    (now : ℕ) (ys : List Text) (last buffer : Text) (q : PresenceXmlParser)
    (es : List CallStateEvent)
    → erase_read last (take_events now ys (q, es))
      ≡ behind es (erase_read last (take_events now ys (record q { buffer = buffer }, [])))
take_rest-frame now ys last buffer q es =
    let (r, gs) = take_events now ys (q, []) in
    let same : es ≡ es ++ [] = sym (append-nil es) in
    ap (λ fs. erase_read last (take_events now ys (q, fs))) same
    ∙ ap (erase_read last) (take_events-frame now ys q.buffer es [] q)
    ∙ erase_read-frame last q.buffer r es gs
    ∙ sym (
        ap (behind es) (
          ap (erase_read last) (take_events-frame now ys buffer [] [] q)
          ∙ erase_read-frame last buffer r [] gs))

-- The buffer read in two parts.
read_rest-append :
    (now n : ℕ) (last b : Text) (q : PresenceXmlParser)
    → length last + length b ≤ n
    → read_buffer now (from_bracket last ++ b) (record q { buffer = from_bracket last })
      ≡ erase_read (split_events n (last ++ b)).1 (
          take_events now
            (split_events n (last ++ b)).0
            (record q { buffer = from_bracket last }, []))
read_rest-append now n last b q h =
    let shorter = length-from_bracket last in
    let (xmls, ends) =
      split_events-from_bracket n (from_bracket last ++ b) (last ++ b)
        (from_bracket-append last b) in
    read_buffer-fuel now n (from_bracket last ++ b) (record q { buffer = from_bracket last })
      (omega (arith, h, shorter, length-append (from_bracket last) b))
    ∙ rw xmls (erase_read-from_bracket _ _ _ ends)

pub read_buffer-append :
    (now : ℕ) (text b : Text) (p : PresenceXmlParser)
    → (read_buffer now text p).2 ≡ false
    → read_buffer now (text ++ b) p ≡ then_read now b (read_buffer now text p)
unfolding read_buffer
read_buffer-append now text b p h =
    let n = length text in
    let k = n + length b in
    let (xs, last) = split_events n text in
    let (q, es) = take_events now xs (p, []) in
    let (_, shorter) = split_events-ends n text (omega arith) in
    let (ys, l) = split_events k (last ++ b) in
    read_buffer-fuel now k (text ++ b) p (omega (arith, length-append text b))
    ∙ ap (λ (zs, m). erase_read m (take_events now zs (p, [])))
        (split_events-append n k k text b (omega arith) (omega arith) (omega arith))
    ∙ ap (erase_read l) (take_events-append now xs ys (p, []))
    ∙ take_rest-frame now ys l (from_bracket last) q es
    ∙ ap (behind es) (sym (read_rest-append now k last b q (omega (arith, shorter))))
    ∙ sym (ap (then_read now b) (erase_read-none last q es h))
