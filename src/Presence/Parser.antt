-- ===== src/Presence/Parser.antt =====
-- PresenceXmlParser of include/presence/presence_xml_parser.h and
-- src/presence/presence_xml_parser.cpp. A position in the buffer is kept as the text behind it,
-- and a search from a position as a search in that text. `::tolower` is that of the C locale.
pub mod Find
pub mod Stream
pub mod Chunks
pub mod Counts
use sip_event_processor.Prelude.{
  ℕ, zero, suc, ◌+◌, Bool, true, false, not, ◌&&◌, ◌||◌, Option, none, some, List, [], ◌∷◌, ◌++◌,
  Text, codes, text_eq, length, is_empty, take, drop, find_sub, lower_text, trim_left, trim_right,
  is_space, ltb, ◌==◌, if◌then◌else◌,
}
use sip_event_processor.Types.{CallState}
use sip_event_processor.Presence.CallEvent.{CallStateEvent, next_event_id}

-- The counter of identifiers is the process-wide one of CallStateEvent.
pub record PresenceXmlParser : Type 0 where
  pub buffer : Text
  pub total_parsed : ℕ
  pub total_errors : ℕ
  pub id_counter : ℕ

pub record ParseResult : Type 0 where
  pub events : List CallStateEvent
  pub received_heartbeat : Bool
  pub bytes_consumed : ℕ
  pub error : Text

abbrev pub empty_result : ParseResult
empty_result = record { events = []; received_heartbeat = false; bytes_consumed = 0; error = [] }

abbrev pub max_buffer_size : ℕ
max_buffer_size = 1048576

unfoldable pub reset : PresenceXmlParser → PresenceXmlParser
reset p = record p { buffer = [] }

abbrev pub open_tag : Text → Text
open_tag tag = b'<' ∷ (tag ++ b'>' ∷ [])

abbrev pub close_tag : Text → Text
close_tag tag = b'<' ∷ b'/' ∷ (tag ++ b'>' ∷ [])

abbrev pub trim : Text → Text
trim s = trim_right is_space (trim_left is_space s)

-- What stands between a text and the next `close`, or nothing if there is no such.
unfoldable pub up_to : Text → Text → Text
up_to close s = elim (find_sub close s) [ none ↦ [] | some e ↦ trim (take e s) ]

unfoldable pub extract_element : Text → Text → Text
extract_element xml tag = elim (find_sub (open_tag tag) xml) [
  | none ↦ []
  | some s ↦ up_to (close_tag tag) (drop (s + length (open_tag tag)) xml)
]

unfoldable pub parse_call_state : Text → CallState
parse_call_state s =
    let l = lower_text s in
    if text_eq l (codes "trying") || text_eq l (codes "setup")
    then CallState.trying
    else if text_eq l (codes "ringing") || text_eq l (codes "early") || text_eq l (codes "alerting")
    then CallState.ringing
    else if text_eq l (codes "confirmed")
        || text_eq l (codes "connected")
        || text_eq l (codes "active")
    then CallState.confirmed
    else if text_eq l (codes "terminated")
        || text_eq l (codes "disconnected")
        || text_eq l (codes "released")
        || text_eq l (codes "idle")
    then CallState.terminated
    else if text_eq l (codes "held") || text_eq l (codes "hold")
    then CallState.held
    else if text_eq l (codes "resumed")
    then CallState.resumed
    else CallState.unknown

abbrev pub is_known : CallState → Bool
is_known CallState.unknown = false
is_known _ = true

unfoldable pub parse_single_event : ℕ → ℕ → Text → CallStateEvent
parse_single_event now id xml =
    let call_id = extract_element xml (codes "CallId") in
    let caller = extract_element xml (codes "CallerUri") in
    let callee = extract_element xml (codes "CalleeUri") in
    let state = parse_call_state (extract_element xml (codes "State")) in
    record {
      id = id;
      presence_call_id = call_id;
      caller_uri = caller;
      callee_uri = callee;
      state = state;
      direction = extract_element xml (codes "Direction");
      tenant_id = extract_element xml (codes "TenantId");
      timestamp_str = extract_element xml (codes "Timestamp");
      received_at = now;
      is_valid =
          not (is_empty call_id)
          && (not (is_empty callee) || not (is_empty caller))
          && is_known state;
    }

-- The first `<tag> … </tag>` of a text, tags included, and what follows it.
unfoldable pub next_element : Text → Text → Option (Text × Text)
next_element tag s = elim (find_sub (open_tag tag) s) [
  | none ↦ none
  | some a ↦
      let t = drop a s in
      elim (find_sub (close_tag tag) t) [
        | none ↦ none
        | some b ↦ let n = b + length (close_tag tag) in some (take n t, drop n t)
      ]
]

abbrev pub event_tag : Text
event_tag =
    b'C' ∷ b'a' ∷ b'l' ∷ b'l' ∷ b'S' ∷ b't' ∷ b'a' ∷ b't' ∷ b'e' ∷ b'E' ∷ b'v' ∷ b'e' ∷ b'n' ∷ b't'
    ∷ []

abbrev pub heartbeat_tag : Text
heartbeat_tag = b'H' ∷ b'e' ∷ b'a' ∷ b'r' ∷ b't' ∷ b'b' ∷ b'e' ∷ b'a' ∷ b't' ∷ []

-- The loop over the events of a text: their texts, and what follows the last. `fuel` bounds the
-- rounds.
unfoldable pub split_events : ℕ → Text → List Text × Text
split_events zero s = ([], s)
split_events (suc fuel) s = elim (next_element event_tag s) [
  | none ↦ ([], s)
  | some (xml, rest) ↦ let (xmls, last) = split_events fuel rest in (xml ∷ xmls, last)
]

-- One event of the loop's body: its result, and the parser's counts.
unfoldable pub take_event :
    ℕ → Text → PresenceXmlParser × List CallStateEvent → PresenceXmlParser × List CallStateEvent
take_event now xml (p, events) =
    let id = next_event_id p.id_counter in
    let ev = parse_single_event now id xml in
    if ev.is_valid
    then (record p { id_counter = id; total_parsed = p.total_parsed + 1 }, events ++ ev ∷ [])
    else (record p { id_counter = id; total_errors = p.total_errors + 1 }, events)

unfoldable pub take_events :
    ℕ
    → List Text
    → PresenceXmlParser × List CallStateEvent
    → PresenceXmlParser × List CallStateEvent
take_events now [] r = r
take_events now (xml ∷ xmls) r = take_events now xmls (take_event now xml r)

-- buffer_.find('<'): what stands in front of it goes, or all.
unfoldable pub from_bracket : Text → Text
from_bracket [] = []
from_bracket (c ∷ s) = let rest = from_bracket s in if c == b'<' then c ∷ s else rest

-- The search for a heartbeat: what follows it.
unfoldable pub after_heartbeat : Text → Option Text
after_heartbeat s = elim (next_element heartbeat_tag s) [ none ↦ none | some (_, rest) ↦ some rest ]

-- What `feed` does behind the events: the heartbeat is looked for, and what has been read is
-- erased.
unfoldable pub erase_read :
    Text → PresenceXmlParser × List CallStateEvent → PresenceXmlParser × List CallStateEvent × Bool
erase_read last (p, events) =
    elim (after_heartbeat last) as (λ _. PresenceXmlParser × List CallStateEvent × Bool) [
      | none ↦ (record p { buffer = from_bracket last }, events, false)
      | some rest ↦ (record p { buffer = from_bracket rest }, events, true)
    ]

-- What `feed` does once the bytes are appended: `text` is the buffer. The parser without what it
-- has read, its events, and whether there was a heartbeat.
unfoldable pub read_buffer :
    ℕ → Text → PresenceXmlParser → PresenceXmlParser × List CallStateEvent × Bool
read_buffer now text p =
    let (xmls, last) = split_events (length text) text in
    erase_read last (take_events now xmls (p, []))

unfoldable pub feed : ℕ → Option Text → PresenceXmlParser → PresenceXmlParser × ParseResult
feed now none p = (p, empty_result)
feed now (some input) p =
    if is_empty input
    then (p, empty_result)
    else if ltb max_buffer_size (length p.buffer + length input)
    then (
      record p { buffer = []; total_errors = p.total_errors + 1 },
      record empty_result { error = codes "Buffer overflow" },
    )
    else let (p', events, heartbeat) = read_buffer now (p.buffer ++ input) p in
      (
        p',
        record empty_result {
          events = events;
          received_heartbeat = heartbeat;
          bytes_consumed = length input;
        },
      )
