-- ===== src/Presence/Router/Account.antt =====
-- What becomes of the events that are given to the PresenceEventRouter, over every interleaving of
-- the router's thread with the callers of `on_call_state_event`, `start` and `stop`.
use sip_event_processor.Prelude.{
  ℕ, ◌+◌, ◌≡◌, ◌∙◌, ◌≤◌, refl, ap, Bool, true, false, List, [], ◌∷◌, ◌++◌, Text, length,
  length-append, arith, Bool-cases, inl, inr,
}
use sip_event_processor.Subscription.Index.{BlfWatcher, BlfSubscriptionIndex, lookup}
use sip_event_processor.Presence.CallEvent.{CallStateEvent}
use sip_event_processor.Presence.Parser.Counts.{all_valid, all_valid-append}
use sip_event_processor.Presence.Router.{
  RouterStats, PresenceEventRouter, Outside, start, request_stop, finish_stop, on_call_state_event,
  route_one, route_all, process_call_state_event, router_turn,
}

-- The counts that the loop over the watchers leaves as they are.
record SameCounts (s t : RouterStats) : Type 0 where
  received : t.events_received ≡ s.events_received
  processed : t.events_processed ≡ s.events_processed
  dropped : t.events_dropped ≡ s.events_dropped

route_one-SameCounts :
    (hash : Text → ℕ) (now : ℕ) (event : CallStateEvent) (callers : List BlfWatcher)
    (w : BlfWatcher) (stats : RouterStats) (o : Outside)
    → SameCounts stats (route_one hash now event callers w (stats, o)).0
unfolding route_one
route_one-SameCounts hash now event callers w stats o = record {
  received = ground arith;
  processed = ground arith;
  dropped = ground arith;
}

route_all-SameCounts :
    (hash : Text → ℕ) (now : ℕ) (event : CallStateEvent) (callers ws : List BlfWatcher)
    (stats : RouterStats) (o : Outside)
    → SameCounts stats (route_all hash now event callers ws (stats, o)).0
unfolding route_all
route_all-SameCounts hash now event callers [] stats o = record {
  received = refl;
  processed = refl;
  dropped = refl;
}
route_all-SameCounts hash now event callers (w ∷ ws) stats o =
    let (stats', o') = route_one hash now event callers w (stats, o) in
    let one = route_one-SameCounts hash now event callers w stats o in
    let rest = route_all-SameCounts hash now event callers ws stats' o' in
    record {
      received = rest.received ∙ one.received;
      processed = rest.processed ∙ one.processed;
      dropped = rest.dropped ∙ one.dropped;
    }

-- What processing an event adds to the counts.
record OneProcessed (s t : RouterStats) : Type 0 where
  received : t.events_received ≡ s.events_received
  processed : t.events_processed ≡ s.events_processed + 1
  dropped : t.events_dropped ≡ s.events_dropped

process-OneProcessed :
    (hash : Text → ℕ) (now elapsed : ℕ) (index : BlfSubscriptionIndex) (event : CallStateEvent)
    (stats : RouterStats) (o : Outside)
    → event.is_valid ≡ true
    → OneProcessed stats (process_call_state_event hash now elapsed index event (stats, o)).0
unfolding process_call_state_event
process-OneProcessed hash now elapsed index event stats o valid =
    let callers = lookup event.caller_uri index in
    let all = lookup event.callee_uri index ++ callers in
    let same = route_all-SameCounts hash now event callers all stats o in
    record {
      received = ground (arith, valid, same.received);
      processed = ground (arith, valid, same.processed);
      dropped = ground (arith, valid, same.dropped);
    }

-- The calls of the other threads and the turns of the router's own. An arriving event is valid, as
-- those that the parser gives out are.
pub data Step : PresenceEventRouter → PresenceEventRouter → Type 0 where
  starts : (r : PresenceEventRouter) → Step r (start r).0
  asks_to_stop : (r : PresenceEventRouter) → Step r (request_stop r)
  ends_stop : (r : PresenceEventRouter) → Step r (finish_stop r)
  receives :
      (event : CallStateEvent) (r : PresenceEventRouter)
      → event.is_valid ≡ true
      → Step r (on_call_state_event event r)
  turns :
      (hash : Text → ℕ) (now elapsed : ℕ) (index : BlfSubscriptionIndex) (r : PresenceEventRouter)
      (o : Outside)
      → Step r (router_turn hash now elapsed index r o).0

pub data Reach : PresenceEventRouter → PresenceEventRouter → Type 0 where
  here : (r : PresenceEventRouter) → Reach r r
  next : (r s t : PresenceEventRouter) → Reach r s → Step s t → Reach r t

-- Every event that was received was dropped or processed, or stands in the queue, which is within
-- the limit.
pub record Accounted (limit : ℕ) (r : PresenceEventRouter) : Type 0 where
  pub same_limit : r.max_pending_events ≡ limit
  pub balanced :
      r.stats.events_received
      ≡ r.stats.events_dropped + r.stats.events_processed + length r.event_queue
  pub bounded : length r.event_queue ≤ limit
  pub valid : all_valid r.event_queue ≡ true

receives-Accounted :
    (limit : ℕ) (event : CallStateEvent) (r : PresenceEventRouter)
    → event.is_valid ≡ true
    → Accounted limit r
    → Accounted limit (on_call_state_event event r)
unfolding on_call_state_event
receives-Accounted limit event r valid v =
    let longer = length-append r.event_queue (event ∷ []) in
    record {
      same_limit = ground (arith, v.same_limit);
      balanced = ground (arith, v.balanced, longer);
      bounded = ground (arith, v.same_limit, v.bounded, longer);
      valid = ground (
        arith,
        v.valid,
        all_valid-append r.event_queue (event ∷ []) v.valid (ground (arith, valid)),
      );
    }

turns-Accounted :
    (limit : ℕ) (hash : Text → ℕ) (now elapsed : ℕ) (index : BlfSubscriptionIndex)
    (r : PresenceEventRouter) (o : Outside) (queue : List CallStateEvent)
    → r.event_queue ≡ queue
    → Accounted limit r
    → Accounted limit (router_turn hash now elapsed index r o).0
unfolding router_turn
turns-Accounted limit hash now elapsed index r o [] e v = simp (router_turn, e) v
turns-Accounted limit hash now elapsed index r o (event ∷ rest) e v =
    let left = record r.stats { queue_depth = length rest } in
    let valid : event.is_valid ≡ true = ground (arith, v.valid, e) in
    let p = process-OneProcessed hash now elapsed index event left o valid in
    simp (router_turn, e)
      record {
        same_limit = v.same_limit;
        balanced = omega (arith, p.received, p.processed, p.dropped, v.balanced, ap length e);
        bounded = omega (arith, v.bounded, ap length e);
        valid = ground (arith, v.valid, e);
      }

-- The flags of the thread do not count.
flags-Accounted :
    (limit : ℕ) (r : PresenceEventRouter) (running stop_requested : Bool)
    → Accounted limit r
    → Accounted limit (record r { running = running; stop_requested = stop_requested })
flags-Accounted limit r running stop_requested v = record {
  same_limit = v.same_limit;
  balanced = v.balanced;
  bounded = v.bounded;
  valid = v.valid;
}

step-Accounted :
    (limit : ℕ) (r s : PresenceEventRouter) → Step r s → Accounted limit r → Accounted limit s
unfolding start request_stop finish_stop
step-Accounted limit _ _ (starts r) v = elim (Bool-cases r.running) [
  | inl e ↦ simp (start, e) v
  | inr e ↦ simp (start, e) (flags-Accounted limit r true false v)
]
step-Accounted limit _ _ (asks_to_stop r) v = elim (Bool-cases r.running) [
  | inl e ↦ simp (request_stop, e) (flags-Accounted limit r true true v)
  | inr e ↦ simp (request_stop, e) v
]
step-Accounted limit _ _ (ends_stop r) v = flags-Accounted limit r false r.stop_requested v
step-Accounted limit _ _ (receives event r valid) v = receives-Accounted limit event r valid v
step-Accounted limit _ _ (turns hash now elapsed index r o) v =
    turns-Accounted limit hash now elapsed index r o r.event_queue refl v

-- Over every interleaving of valid events that arrive, turns of the router's thread, starts and
-- stops: if it holds at the beginning that the events received are those dropped, those processed
-- and those in the queue, and the queue is within the limit, then it holds at the end.
pub Reach-Accounted :
    (limit : ℕ) (r s : PresenceEventRouter) → Reach r s → Accounted limit r → Accounted limit s
Reach-Accounted limit r _ (here _) v = v
Reach-Accounted limit r t (next _ s _ path step) v =
    step-Accounted limit s t step (Reach-Accounted limit r s path v)
