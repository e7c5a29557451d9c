-- ===== src/Presence/Router.antt =====
-- PresenceEventRouter of include/presence/presence_event_router.h and
-- src/presence/presence_event_router.cpp. The queue is entered and left under its lock; one turn
-- of the thread is a function. The index is read at the start of a turn, as the source does; the
-- worker threads may change it later. `hash` is std::hash<std::string>, as in the dispatcher.
pub mod Account
pub mod Triggers
use sip_event_processor.Prelude.{
  ℕ, zero, suc, ◌+◌, Bool, true, false, not, ◌&&◌, ◌||◌, Option, none, some, List, [], ◌∷◌, ◌++◌,
  Text, codes, text_eq, length, is_empty, leb, if◌then◌else◌,
}
use sip_event_processor.Types.{Result, ok, already_exists, call_state_to_blf_state}
use sip_event_processor.SlowEventLogger.{SlowEventLogger, check_and_log}
use sip_event_processor.Sip.Event.{SipEvent, next_id, create_presence_trigger}
use sip_event_processor.Subscription.Index.{BlfWatcher, BlfSubscriptionIndex, lookup}
use sip_event_processor.Dispatch.Dispatcher.{DialogDispatcher, dispatch}
use sip_event_processor.Presence.CallEvent.{CallStateEvent}

pub record RouterStats : Type 0 where
  pub events_received : ℕ
  pub events_processed : ℕ
  pub events_dropped : ℕ
  pub notifications_generated : ℕ
  pub watchers_not_found : ℕ
  pub queue_depth : ℕ

-- The one field of the configuration that is read, and the state.
pub record PresenceEventRouter : Type 0 where
  pub max_pending_events : ℕ
  pub running : Bool
  pub stop_requested : Bool
  pub event_queue : List CallStateEvent
  pub stats : RouterStats

-- What a turn of the thread writes besides the router: the dispatcher, the slow-event logger, and
-- the process-wide counter of SIP events.
pub record Outside : Type 0 where
  pub dispatcher : DialogDispatcher
  pub slow_logger : SlowEventLogger
  pub event_counter : ℕ

unfoldable pub start : PresenceEventRouter → PresenceEventRouter × Result
start r =
    if r.running
    then (r, already_exists)
    else (record r { stop_requested = false; running = true }, ok)

-- `stop` up to the join, and behind it.
unfoldable pub request_stop : PresenceEventRouter → PresenceEventRouter
request_stop r = if not r.running then r else record r { stop_requested = true }

unfoldable pub finish_stop : PresenceEventRouter → PresenceEventRouter
finish_stop r = record r { running = false }

unfoldable pub on_call_state_event : CallStateEvent → PresenceEventRouter → PresenceEventRouter
on_call_state_event event r =
    let s = record r.stats { events_received = r.stats.events_received + 1 } in
    if leb r.max_pending_events (length r.event_queue)
    then record r { stats = record s { events_dropped = s.events_dropped + 1 } }
    else record r {
      event_queue = r.event_queue ++ event ∷ [];
      stats = record s { queue_depth = length (r.event_queue ++ event ∷ []) };
    }

-- The <dialog> element of the body.
unfoldable pub dialog_element : CallStateEvent → Text → Text
dialog_element event blf_state =
    codes "  <dialog id=\""
    ++ event.presence_call_id
    ++ codes "\""
    ++ (if is_empty event.presence_call_id
        then []
        else codes " call-id=\"" ++ event.presence_call_id ++ codes "\"")
    ++ (if is_empty event.direction
        then []
        else codes " direction=\"" ++ event.direction ++ codes "\"")
    ++ codes ">\n"
    ++ codes "    <state>"
    ++ blf_state
    ++ codes "</state>\n"
    ++ (if not (is_empty event.caller_uri) && not (is_empty event.callee_uri)
        then codes "    <remote>\n      <identity>"
          ++ event.caller_uri
          ++ codes "</identity>\n    </remote>\n    <local>\n      <identity>"
          ++ event.callee_uri
          ++ codes "</identity>\n    </local>\n"
        else [])
    ++ codes "  </dialog>\n"

unfoldable pub build_dialog_info_xml : CallStateEvent → Text → Text
unfolding dialog_element
build_dialog_info_xml event monitored_uri =
    let blf_state = call_state_to_blf_state event.state in
    codes "<?xml version=\"1.0\" encoding=\"UTF-8\"?>\n"
    ++ codes "<dialog-info xmlns=\"urn:ietf:params:xml:ns:dialog-info\"\n"
    ++ codes "  state=\"full\"\n"
    ++ codes "  entity=\""
    ++ monitored_uri
    ++ codes "\">\n"
    ++ (if not (text_eq blf_state (codes "terminated")) || not (is_empty event.presence_call_id)
        then dialog_element event blf_state
        else [])
    ++ codes "</dialog-info>\n"

unfoldable pub create_notify_trigger : ℕ → ℕ → BlfWatcher → CallStateEvent → Text → SipEvent
create_notify_trigger now id w event monitored_uri =
    create_presence_trigger now id w.dialog_id w.tenant_id event.presence_call_id event.caller_uri
      event.callee_uri (call_state_to_blf_state event.state) event.direction
      (build_dialog_info_xml event monitored_uri)

-- Whether a dialog is among the watchers.
unfoldable pub watches : Text → List BlfWatcher → Bool
watches d [] = false
watches d (w ∷ ws) = text_eq w.dialog_id d || watches d ws

abbrev pub is_ok : Result → Bool
is_ok ok = true
is_ok _ = false

-- The body of the loop over the watchers: the statistics and what is outside, after it.
unfoldable pub route_one :
    (Text → ℕ)
    → ℕ
    → CallStateEvent
    → List BlfWatcher
    → BlfWatcher
    → RouterStats × Outside
    → RouterStats × Outside
route_one hash now event caller_watchers w (stats, o) =
    let monitored_uri =
      if watches w.dialog_id caller_watchers then event.caller_uri else event.callee_uri in
    let id = next_id o.event_counter in
    let (d, r) =
      dispatch hash now (some (create_notify_trigger now id w event monitored_uri)) o.dispatcher in
    let o' = record o { dispatcher = d; event_counter = id } in
    if is_ok r
    then (record stats { notifications_generated = stats.notifications_generated + 1 }, o')
    else (stats, o')

unfoldable pub route_all :
    (Text → ℕ)
    → ℕ
    → CallStateEvent
    → List BlfWatcher
    → List BlfWatcher
    → RouterStats × Outside
    → RouterStats × Outside
route_all hash now event caller_watchers [] s = s
route_all hash now event caller_watchers (w ∷ ws) s =
    route_all hash now event caller_watchers ws (route_one hash now event caller_watchers w s)

-- `elapsed` is what the timer measures, in milliseconds.
unfoldable pub process_call_state_event :
    (Text → ℕ)
    → ℕ
    → ℕ
    → BlfSubscriptionIndex
    → CallStateEvent
    → RouterStats × Outside
    → RouterStats × Outside
process_call_state_event hash now elapsed index event (stats, o) =
    if not event.is_valid
    then (stats, o)
    else let caller_watchers = lookup event.caller_uri index in
      let watchers = lookup event.callee_uri index ++ caller_watchers in
      let (stats', o') =
        (if is_empty watchers
          then (record stats { watchers_not_found = stats.watchers_not_found + 1 }, o)
          else route_all hash now event caller_watchers watchers (stats, o)) in
      (
        record stats' { events_processed = stats'.events_processed + 1 },
        record o' { slow_logger = check_and_log elapsed o'.slow_logger },
      )

-- The body of the thread's loop, behind the test of `stop_requested`, which may be set meanwhile:
-- the front of the queue is taken off and processed. With an empty queue the thread leaves the
-- loop or goes on waiting.
unfoldable pub router_turn :
    (Text → ℕ)
    → ℕ
    → ℕ
    → BlfSubscriptionIndex
    → PresenceEventRouter
    → Outside
    → PresenceEventRouter × Outside
router_turn hash now elapsed index r o = elim r.event_queue [
  | [] ↦ (r, o)
  | event ∷ rest ↦
      let (stats, o') =
        process_call_state_event hash now elapsed index event
          (record r.stats { queue_depth = length rest }, o) in
      (record r { event_queue = rest; stats = stats }, o')
]
