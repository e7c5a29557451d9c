-- ===== src/Examples/Presence.antt =====
-- The presence feed: the parser, the client and the router.
use sip_event_processor.Prelude.{
  ℕ, zero, suc, ◌+◌, ◌≡◌, ◌≤◌, refl, true, false, none, some, [], ◌∷◌, ◌++◌, Text, List, codes,
  length, get_elem?, starts_with, find_sub, text_eq, to_lower, arith,
}
use sip_event_processor.Types.{CallState}
use sip_event_processor.Prelude.Map.{find, put}
use sip_event_processor.Config.{PresenceServerEndpoint, FailoverStrategy}
use sip_event_processor.Subscription.Uri.{normalize_uri}
use sip_event_processor.Presence.Failover.{new_manager}
use sip_event_processor.Sip.DialogId.{is_valid}
use sip_event_processor.Sip.Event.{SipEvent, create_presence_trigger}
use sip_event_processor.Subscription.Index.{
  BlfWatcher, BlfSubscriptionIndex, empty_index, add, lookup,
}
use sip_event_processor.Dispatch.Worker.State.{Worker}
use sip_event_processor.Dispatch.Worker.Admin
use sip_event_processor.Dispatch.Dispatcher.{
  DialogDispatcher, new_dispatcher, workers_from, start, start_workers,
}
use sip_event_processor.Dispatch.Dispatcher.Delivery.{
  Ready, HasRoom, queue_of, dispatch_all, arriving, all_dialogs_valid, dispatch_all-queues,
}
use sip_event_processor.Presence.CallEvent.{CallStateEvent}
use sip_event_processor.Presence.Parser.{
  PresenceXmlParser, event_tag, next_element, split_events, take_events, take_event,
  after_heartbeat, erase_read, read_buffer, from_bracket, feed, max_buffer_size,
}
use sip_event_processor.Presence.Parser.Stream.{split_events-ends}
use sip_event_processor.Presence.Parser.Chunks.{feed_chunks, whole, feed_chunks-whole}
use sip_event_processor.Presence.Parser.Counts.{all_valid, feed_chunks_sound}
use sip_event_processor.Presence.Router.{
  PresenceEventRouter, RouterStats, Outside, on_call_state_event, router_turn,
  create_notify_trigger, process_call_state_event,
}
use sip_event_processor.Presence.Router.Account.{
  here, next, receives, turns, Accounted, Reach-Accounted,
}
use sip_event_processor.Presence.Router.Triggers.{
  triggers, concerned, process_call_state_event-triggers,
}
use sip_event_processor.Presence.TcpClient.{
  PresenceTcpClient, ConnectionState, opened, connects, begin_round, settle_round, request_stop,
}
use sip_event_processor.Presence.TcpClient.Core.{Core}
use sip_event_processor.Presence.TcpClient.Connection
use sip_event_processor.Examples.Data.{
  config, world, logger, first_dialog, second_dialog, tenant, monitored, other_uri, subscribe_event,
}

abbrev parser : PresenceXmlParser
parser = record { buffer = []; total_parsed = 0; total_errors = 0; id_counter = 0 }

abbrev first_chunk : Text
first_chunk = b'<' ∷ event_tag

abbrev last_chunk : Text
last_chunk = b'>' ∷ b'<' ∷ b'/' ∷ event_tag ++ b'>' ∷ []

split_events-ends_example :
    (next_element event_tag (split_events 40 (first_chunk ++ last_chunk)).1 ≡ none)
    × (length (split_events 40 (first_chunk ++ last_chunk)).1 ≤ length (first_chunk ++ last_chunk))
split_events-ends_example = split_events-ends 40 (first_chunk ++ last_chunk) (omega arith)

no_heartbeat : (feed_chunks 7 (first_chunk ∷ last_chunk ∷ []) parser).1.received_heartbeat ≡ false
unfolding feed_chunks feed read_buffer split_events next_element take_events take_event
    after_heartbeat erase_read find_sub starts_with from_bracket
no_heartbeat = refl

feed_chunks-whole_example :
    feed_chunks 7 (first_chunk ∷ last_chunk ∷ []) parser
    ≡ feed 7 (some (whole (first_chunk ∷ last_chunk ∷ []))) parser
unfolding whole
feed_chunks-whole_example =
    feed_chunks-whole 7 (first_chunk ∷ last_chunk ∷ []) parser (omega arith) no_heartbeat

feed_chunks_sound_example :
    let (q, r) = feed_chunks 7 (first_chunk ∷ last_chunk ∷ []) parser in
    (all_valid r.events ≡ true)
    × (q.total_parsed ≡ 0 + length r.events)
    × (length q.buffer ≤ max_buffer_size)
feed_chunks_sound_example = feed_chunks_sound 7 (first_chunk ∷ last_chunk ∷ []) parser (omega arith)

abbrev call : CallStateEvent
call = record {
  id = 1;
  presence_call_id = 99 ∷ [];
  caller_uri = other_uri;
  callee_uri = monitored;
  state = CallState.confirmed;
  direction = [];
  tenant_id = tenant;
  timestamp_str = [];
  received_at = 5;
  is_valid = true;
}

abbrev pub hash : Text → ℕ
hash [] = 0
hash (c ∷ s) = c + hash s

abbrev pub dispatcher : DialogDispatcher
dispatcher = (start (new_dispatcher config world)).0

-- One dialog watches the callee, another the caller.
abbrev index : BlfSubscriptionIndex
index = add monitored first_dialog tenant (add other_uri second_dialog tenant empty_index)

abbrev outside : Outside
outside = record { dispatcher = dispatcher; slow_logger = logger; event_counter = 0 }

abbrev router_stats : RouterStats
router_stats = record {
  events_received = 0;
  events_processed = 0;
  events_dropped = 0;
  notifications_generated = 0;
  watchers_not_found = 0;
  queue_depth = 0;
}

abbrev pub router : PresenceEventRouter
router = record {
  max_pending_events = 1;
  running = true;
  stop_requested = false;
  event_queue = [];
  stats = router_stats;
}

router-Accounted : Accounted 1 router
router-Accounted = record {
  same_limit = refl;
  balanced = omega arith;
  bounded = omega arith;
  valid = refl;
}

-- Two events come in, of which the queue holds one, and a turn is made.
abbrev full_router : PresenceEventRouter
full_router = on_call_state_event call (on_call_state_event call router)

Reach-Accounted_example : Accounted 1 (router_turn hash 8 1 index full_router outside).0
Reach-Accounted_example =
    Reach-Accounted 1 router (router_turn hash 8 1 index full_router outside).0
      (next router full_router (router_turn hash 8 1 index full_router outside).0
        (next router (on_call_state_event call router) full_router
          (next router router (on_call_state_event call router) (here router)
            (receives call router refl))
          (receives call (on_call_state_event call router) refl))
        (turns hash 8 1 index full_router outside))
      router-Accounted

room_at : (i : ℕ) (w : Worker) → get_elem? dispatcher.workers i ≡ some w → HasRoom 2 w
unfolding start new_dispatcher workers_from start_workers Admin.start
room_at zero w h = ground (arith, h)
room_at (suc zero) w h = ground (arith, h)
room_at (suc (suc i)) w h = cc

dispatcher-Ready : Ready 2 dispatcher
unfolding start new_dispatcher workers_from start_workers Admin.start
dispatcher-Ready = record { started = refl; room = room_at }

abbrev two_events : List SipEvent
two_events = subscribe_event first_dialog ∷ subscribe_event second_dialog ∷ []

two_events-valid : all_dialogs_valid two_events ≡ true
unfolding is_valid
two_events-valid = refl

some_workers : 1 ≤ length dispatcher.workers
unfolding start new_dispatcher workers_from start_workers Admin.start
some_workers = omega arith

dispatch_all-queues_example :
    queue_of 1 (dispatch_all hash 8 two_events dispatcher)
    ≡ queue_of 1 dispatcher ++ arriving hash 8 dispatcher 1 two_events
dispatch_all-queues_example =
    dispatch_all-queues hash 8 two_events dispatcher 1 dispatcher-Ready two_events-valid
      some_workers

abbrev callers : List BlfWatcher
callers = lookup other_uri index

room_for_all : Ready (length (concerned call index)) dispatcher
unfolding lookup add normalize_uri find put text_eq starts_with codes to_lower
room_for_all = dispatcher-Ready

sent-valid : all_dialogs_valid (triggers 0 8 call callers (concerned call index)) ≡ true
unfolding triggers create_notify_trigger create_presence_trigger lookup add normalize_uri find put
    is_valid text_eq starts_with codes to_lower
sent-valid = refl

process_call_state_event-triggers_example :
    let (stats', o') = process_call_state_event hash 8 1 index call (router_stats, outside) in
    (queue_of 0 o'.dispatcher
      ≡ queue_of 0 dispatcher
        ++ arriving hash 8 dispatcher 0 (triggers 0 8 call callers (concerned call index)))
    × (stats'.notifications_generated ≡ 0 + length (concerned call index))
process_call_state_event-triggers_example =
    process_call_state_event-triggers hash 8 1 index call router_stats outside 0 refl room_for_all
      sent-valid some_workers

abbrev server : PresenceServerEndpoint
server = record { host = 104 ∷ []; port = 9000; priority = 0; weight = 1 }

abbrev pub client : PresenceTcpClient
client = record {
  reconnect_interval = 5;
  reconnect_max_interval = 60;
  heartbeat_interval = 15;
  heartbeat_miss_threshold = 3;
  has_event_callback = true;
  failover_mgr = some (new_manager FailoverStrategy.priority 120 (server ∷ []));
  socket_open = false;
  current_server = none;
  running = true;
  stop_requested = false;
  is_connected = false;
  conn_state = ConnectionState.disconnected;
  current_backoff = 5;
  last_heartbeat = 0;
  parser = parser;
  delivered = [];
  state_calls = [];
  stats = record {
    events_received = 0;
    events_delivered = 0;
    bytes_received = 0;
    connect_attempts = 0;
    connect_successes = 0;
    disconnect_count = 0;
    failover_count = 0;
    heartbeat_timeouts = 0;
    parse_errors = 0;
  };
}

-- The client waits for a connection, a stop closes its socket, and the connection is reported all
-- the same; then the stop ends.
abbrev waiting : Connection.State
waiting = begin_round 0 9 opened client

abbrev stopping : Connection.State
stopping = (request_stop waiting.0, some server)

abbrev unsocketed : Connection.State
unsocketed = ((settle_round 10 connects server stopping.0).0, none)
