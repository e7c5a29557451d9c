-- ===== src/Presence/Parser/Chunks.antt =====
-- PresenceXmlParser::feed over the chunks of a stream: bounds, counts, and chunks against the
-- whole.
use sip_event_processor.Prelude.{
  ℕ, ◌+◌, ◌∙◌, ◌≡◌, ◌≤◌, refl, sym, ap, false, ◌||◌, Option, none, some, List, [], ◌∷◌, ◌++◌, Text,
  length, length-append, append_assoc, append-nil, is_empty, arith, Option-cases, inl, inr, ltb,
}
use sip_event_processor.Presence.Parser.{
  PresenceXmlParser, ParseResult, empty_result, heartbeat_tag, next_element, split_events,
  after_heartbeat, erase_read, read_buffer, feed, max_buffer_size,
}
use sip_event_processor.Presence.Parser.Find.{length-from_bracket, next_element-shorter}
use sip_event_processor.Presence.Parser.Stream.{split_events-ends, read_buffer-append, Read}

after_heartbeat-shorter : (s r : Text) → after_heartbeat s ≡ some r → length r ≤ length s
unfolding after_heartbeat
after_heartbeat-shorter s r h = elim (Option-cases (next_element heartbeat_tag s)) [
  | inl e ↦ ground (arith, e)
  | inr ((x, t), e) ↦ ground (arith, e, next_element-shorter heartbeat_tag s x t e)
]

read_buffer-shorter :
    (now : ℕ) (text : Text) (p : PresenceXmlParser)
    → length (read_buffer now text p).0.buffer ≤ length text
unfolding read_buffer erase_read
read_buffer-shorter now text p =
    let (_, shorter) = split_events-ends (length text) text (omega arith) in
    let last = (split_events (length text) text).1 in
    elim (Option-cases (after_heartbeat last)) [
      | inl e ↦ rw (read_buffer, erase_read, e) omega (arith, shorter, length-from_bracket last)
      | inr (rest, e) ↦
          rw (read_buffer, erase_read, e) omega
            (arith, shorter, after_heartbeat-shorter last rest e, length-from_bracket rest)
    ]

-- Once fed, the parser holds at most its bound, whatever it held; and a parser within its bound
-- stays there.
pub feed-bound :
    (now : ℕ) (input : Option Text) (p : PresenceXmlParser)
    → length p.buffer ≤ max_buffer_size
    → length (feed now input p).0.buffer ≤ max_buffer_size
unfolding feed
feed-bound now none p h = h
feed-bound now (some []) p h = h
feed-bound now (some (c ∷ input)) p h =
    let text = p.buffer ++ c ∷ input in
    ground (arith, h, read_buffer-shorter now text p, length-append p.buffer (c ∷ input))

abbrev result_of : ℕ → Read → PresenceXmlParser × ParseResult
result_of n (q, es, heartbeat) =
    (q, record { events = es; received_heartbeat = heartbeat; bytes_consumed = n; error = [] })

-- A chunk that fits, and is not empty, is read with the buffer.
feed-fits :
    (now : ℕ) (input : Text) (p : PresenceXmlParser)
    → is_empty input ≡ false
    → length p.buffer + length input ≤ max_buffer_size
    → feed now (some input) p ≡ result_of (length input) (read_buffer now (p.buffer ++ input) p)
unfolding feed
feed-fits now input p h g =
    let fits : ltb max_buffer_size (length p.buffer + length input) ≡ false = ground (arith, g) in
    rw (feed, h, fits) refl

-- The results of two feeds as one.
abbrev pub join : ParseResult → ParseResult → ParseResult
join r s = record {
  events = r.events ++ s.events;
  received_heartbeat = r.received_heartbeat || s.received_heartbeat;
  bytes_consumed = r.bytes_consumed + s.bytes_consumed;
  error = r.error ++ s.error;
}

-- A stream fed in chunks, in their order.
unfoldable pub feed_chunks : ℕ → List Text → PresenceXmlParser → PresenceXmlParser × ParseResult
feed_chunks now [] p = (p, empty_result)
feed_chunks now (c ∷ cs) p =
    let (q, r) = feed now (some c) p in let (q', r') = feed_chunks now cs q in (q', join r r')

unfoldable pub whole : List Text → Text
whole [] = []
whole (c ∷ cs) = c ++ whole cs

feed-empty : (now : ℕ) (p : PresenceXmlParser) → feed now (some []) p ≡ (p, empty_result)
unfolding feed
feed-empty now p = refl

join-empty : (r : ParseResult) → join r empty_result ≡ r
join-empty r =
    let heartbeat : (r.received_heartbeat || false) ≡ r.received_heartbeat = ground arith in
    let bytes : r.bytes_consumed + 0 ≡ r.bytes_consumed = omega arith in
    rw (append-nil r.events, append-nil r.error, heartbeat, bytes) refl

abbrev then_feed : ℕ → Text → PresenceXmlParser × ParseResult → PresenceXmlParser × ParseResult
then_feed now b (q, r) = let (q', r') = feed now (some b) q in (q', join r r')

join-from_empty : (x : PresenceXmlParser × ParseResult) → (x.0, join empty_result x.1) ≡ x
join-from_empty (q, r) =
    let bytes : 0 + r.bytes_consumed ≡ r.bytes_consumed = omega arith in rw bytes refl

join-to_empty : (x : PresenceXmlParser × ParseResult) → (x.0, join x.1 empty_result) ≡ x
join-to_empty (q, r) = ap (λ s. (q, s)) (join-empty r)

-- Two chunks that fit together, with no heartbeat in the first.
feed-two :
    (now : ℕ) (a b : Text) (p : PresenceXmlParser)
    → length p.buffer + length a + length b ≤ max_buffer_size
    → (feed now (some a) p).1.received_heartbeat ≡ false
    → feed now (some (a ++ b)) p ≡ then_feed now b (feed now (some a) p)
feed-two now [] b p h g =
    sym (ap (then_feed now b) (feed-empty now p) ∙ join-from_empty (feed now (some b) p))
feed-two now (x ∷ a) [] p h g =
    let (q, r) = feed now (some (x ∷ a)) p in
    ap (λ t. feed now (some t) p) (append-nil (x ∷ a))
    ∙ sym (rw (feed-empty now q) (join-to_empty (feed now (some (x ∷ a)) p)))
feed-two now (x ∷ a) (y ∷ b) p h g =
    let one = feed-fits now (x ∷ a) p refl (omega (arith, h)) in
    let both =
      feed-fits now (x ∷ a ++ y ∷ b) p refl (omega (arith, h, length-append (x ∷ a) (y ∷ b))) in
    let silent = sym (ap (λ (_, r). r.received_heartbeat) one) ∙ g in
    let shorter = read_buffer-shorter now (p.buffer ++ x ∷ a) p in
    let (q, es, _) = read_buffer now (p.buffer ++ x ∷ a) p in
    let rest =
      feed-fits now (y ∷ b) q refl (omega (arith, h, shorter, length-append p.buffer (x ∷ a))) in
    let text = read_buffer-append now (p.buffer ++ x ∷ a) (y ∷ b) p silent in
    both
    ∙ ap (λ t. result_of (length (x ∷ a ++ y ∷ b)) (read_buffer now t p))
        (sym (append_assoc p.buffer (x ∷ a) (y ∷ b)))
    ∙ ap (λ n. result_of n (read_buffer now ((p.buffer ++ x ∷ a) ++ y ∷ b) p))
        (length-append (x ∷ a) (y ∷ b))
    ∙ ap (result_of (length (x ∷ a) + length (y ∷ b))) text
    ∙ sym (ap (then_feed now (y ∷ b)) one ∙ rw (rest, silent) refl)

-- What a feed that is not refused leaves in the buffer is no more than what was there and what
-- came.
feed-shorter :
    (now : ℕ) (a : Text) (p : PresenceXmlParser)
    → length p.buffer + length a ≤ max_buffer_size
    → length (feed now (some a) p).0.buffer ≤ length p.buffer + length a
feed-shorter now [] p h = rw (feed-empty now p) omega arith
feed-shorter now (x ∷ a) p h =
    rw (feed-fits now (x ∷ a) p refl h) omega
      (arith, read_buffer-shorter now (p.buffer ++ x ∷ a) p, length-append p.buffer (x ∷ a))

-- If the chunks of a stream fit in the buffer together and no heartbeat is read in them, then
-- feeding them one after the other leaves the parser as feeding the whole stream at once does,
-- and gives the same events, counts, heartbeat and error: where the stream was cut does not
-- matter.
pub feed_chunks-whole :
    (now : ℕ) (cs : List Text) (p : PresenceXmlParser)
    → length p.buffer + length (whole cs) ≤ max_buffer_size
    → (feed_chunks now cs p).1.received_heartbeat ≡ false
    → feed_chunks now cs p ≡ feed now (some (whole cs)) p
unfolding feed_chunks whole
feed_chunks-whole now [] p h g = sym (feed-empty now p)
feed_chunks-whole now (c ∷ cs) p h g =
    let (q, r) = feed now (some c) p in
    let fits = length-append c (whole cs) in
    let first : r.received_heartbeat ≡ false = ground (arith, g) in
    let others : (feed_chunks now cs q).1.received_heartbeat ≡ false = ground (arith, g) in
    let rest =
      feed_chunks-whole now cs q
        (omega (arith, h, fits, feed-shorter now c p (omega (arith, h, fits)))) others in
    ap (λ (q', r'). (q', join r r')) rest
    ∙ sym (feed-two now c (whole cs) p (omega (arith, h, fits)) first)
