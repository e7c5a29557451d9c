-- ===== src/Presence/Parser/Counts.antt =====
-- The counts and the buffer of PresenceXmlParser over a stream of any chunks.
use sip_event_processor.Prelude.{
  ℕ, ◌+◌, ◌≡◌, ◌≤◌, refl, Bool, true, ◌&&◌, Option, none, some, List, [], ◌∷◌, ◌++◌, Text, length,
  length-append, arith, Bool-cases, Option-cases, inl, inr,
}
use sip_event_processor.Presence.CallEvent.{CallStateEvent, next_event_id}
use sip_event_processor.Presence.Parser.{
  PresenceXmlParser, split_events, take_event, take_events, parse_single_event, after_heartbeat,
  erase_read, read_buffer, feed, max_buffer_size,
}
use sip_event_processor.Presence.Parser.Chunks.{feed_chunks, feed-bound}

abbrev pub all_valid : List CallStateEvent → Bool
all_valid [] = true
all_valid (e ∷ es) = e.is_valid && all_valid es

pub all_valid-append :
    (es fs : List CallStateEvent)
    → all_valid es ≡ true
    → all_valid fs ≡ true
    → all_valid (es ++ fs) ≡ true
all_valid-append [] fs h g = g
all_valid-append (e ∷ es) fs h g = ground (arith, h, all_valid-append es fs)

-- Events that have been counted and are valid, `base` having been counted before.
abbrev pub Counted : ℕ → PresenceXmlParser × List CallStateEvent → Type 0
Counted base (p, es) = (p.total_parsed ≡ base + length es) × (all_valid es ≡ true)

take_event-Counted :
    (now base : ℕ) (x : Text) (r : PresenceXmlParser × List CallStateEvent)
    → Counted base r
    → Counted base (take_event now x r)
unfolding take_event
take_event-Counted now base x (p, es) (a, b) =
    let ev = parse_single_event now (next_event_id p.id_counter) x in
    elim (Bool-cases ev.is_valid) [
      | inl e ↦ ground (
        arith,
        a,
        b,
        e,
        length-append es (ev ∷ []),
        all_valid-append es (ev ∷ []) b (ground (arith, e)),
      )
      | inr e ↦ ground (arith, a, b, e)
    ]

take_events-Counted :
    (now base : ℕ) (xs : List Text) (r : PresenceXmlParser × List CallStateEvent)
    → Counted base r
    → Counted base (take_events now xs r)
unfolding take_events
take_events-Counted now base [] r h = h
take_events-Counted now base (x ∷ xs) r h =
    take_events-Counted now base xs (take_event now x r) (take_event-Counted now base x r h)

read_buffer-Counted :
    (now : ℕ) (text : Text) (p : PresenceXmlParser)
    → let (q, es, _) = read_buffer now text p in Counted p.total_parsed (q, es)
unfolding read_buffer erase_read
read_buffer-Counted now text p =
    let (xs, last) = split_events (length text) text in
    let counted = take_events-Counted now p.total_parsed xs (p, []) (omega arith, refl) in
    elim (Option-cases (after_heartbeat last)) [
      | inl e ↦ rw (read_buffer, erase_read, e) counted
      | inr (rest, e) ↦ rw (read_buffer, erase_read, e) counted
    ]

pub feed-Counted :
    (now : ℕ) (input : Option Text) (p : PresenceXmlParser)
    → let (q, r) = feed now input p in Counted p.total_parsed (q, r.events)
unfolding feed
feed-Counted now none p = (omega arith, refl)
feed-Counted now (some []) p = (omega arith, refl)
feed-Counted now (some (c ∷ input)) p =
    ground (arith, read_buffer-Counted now (p.buffer ++ c ∷ input) p)

-- Over any stream, whatever its chunks and their bytes: every event that is given out is valid,
-- the count of parsed events grows by the number of events given out, and a buffer within
-- `max_buffer_size` stays there.
pub feed_chunks_sound :
    (now : ℕ) (cs : List Text) (p : PresenceXmlParser)
    → length p.buffer ≤ max_buffer_size
    → let (q, r) = feed_chunks now cs p in
      (all_valid r.events ≡ true)
      × (q.total_parsed ≡ p.total_parsed + length r.events)
      × (length q.buffer ≤ max_buffer_size)
unfolding feed_chunks
feed_chunks_sound now [] p h = (refl, omega arith, h)
feed_chunks_sound now (c ∷ cs) p h =
    let (q, r) = feed now (some c) p in
    let (a, b) = feed-Counted now (some c) p in
    let (v, n, m) = feed_chunks_sound now cs q (feed-bound now (some c) p h) in
    (
      all_valid-append r.events _ b v,
      omega (arith, a, n, length-append r.events (feed_chunks now cs q).1.events),
      m,
    )
