-- ===== src/Examples/Program.antt =====
-- The SIP stack, the HTTP server's sockets, the reports, the recovery and the end of the program.
use sip_event_processor.Prelude.{
  ◌<◌, ◌≡◌, refl, ap, true, false, none, some, ◌⊎◌, List, [], ◌∷◌, Text, codes, length, arith,
}
use sip_event_processor.Prelude.Map.{find}
use sip_event_processor.Config.Load.{initial}
use sip_event_processor.Subscription.Index.{empty_index}
use sip_event_processor.Subscription.Registry.{empty_registry, get_all}
use sip_event_processor.Presence.TcpClient.{connected_server}
use sip_event_processor.Http.Stats.Details.{strategy_text}
use sip_event_processor.Dispatch.World.{SipCall, respond_to_subscribe, handle_unref}
use sip_event_processor.Dispatch.Worker.State.{DialogContext, Worker}
use sip_event_processor.Dispatch.Dispatcher.{
  DialogDispatcher, new_dispatcher, worker_index_for, workers_from, start_workers,
}
use sip_event_processor.Dispatch.Dispatcher
use sip_event_processor.Dispatch.Worker.Admin
use sip_event_processor.Persistence.Pool.{Document}
use mathlib.Core.Option
use sip_event_processor.Dispatch.Reaper.{StaleSubscriptionReaper}
use sip_event_processor.Sip.Stack.{SipStackManager, new_stack, start, perform, tear_down}
use sip_event_processor.Sip.Stack.Order.{down, follow_all, InOrder}
use sip_event_processor.Sip.Stack.Protocol.{
  Reach, here, next, starts, asks, Reach-InOrder, new_stack-InOrder, late_answer,
}
use sip_event_processor.Http.Server.{Request, empty_request}
use sip_event_processor.Http.Json.Escape.{print, is_plain}
use sip_event_processor.Http.Listener.{Listener, accepted, listening, server_round}
use sip_event_processor.Http.Listener
use sip_event_processor.Http.Listener.Sockets.{Balanced, Reach-Balanced}
use sip_event_processor.Http.Listener.Sockets
use sip_event_processor.Http.Stats.{Dependencies, with_body, handle_stats}
use sip_event_processor.Http.Stats.Details.{
  reported, handle_stats_workers, handle_stats_presence, handle_subscriptions, handle_config,
}
use sip_event_processor.Http.Stats.Summary.{stats_json}
use sip_event_processor.Http.Stats.Reports.{
  workers_json, presence_json, subscriptions_json, config_json, reports-print,
}
use sip_event_processor.Main.{Program, Surroundings, Meanwhile, recover, startup, shutdown}
use sip_event_processor.Main.Recovery.{Present, New, AllPresent, recover-AllPresent}
use sip_event_processor.Main.Serving.{Fresh, Serving}
use sip_event_processor.Main.Startup.{startup-Sane}
use sip_event_processor.Main.Shutdown.{Quiet, Sane, shutdown-Quiet}
use sip_event_processor.Examples.Data.{config, world, active_record}
use sip_event_processor.Examples.Presence.{hash, client, router, dispatcher}
use sip_event_processor.Persistence.Store.{upsert}
use sip_event_processor.Examples.Store.{pool, store}

abbrev started_stack : SipStackManager
started_stack = (start true true new_stack).0

abbrev to_started : Reach new_stack started_stack
to_started = next here (starts true true new_stack)

-- A start that fails, one that does not, and an answer.
Reach-InOrder_example : InOrder (
    perform
      (respond_to_subscribe 9 200 (codes "OK") 3600)
      (start true true (start true false new_stack).0).0)
Reach-InOrder_example = Reach-InOrder new_stack-InOrder (
    next
      (next (next here (starts true false new_stack))
        (starts true true (start true false new_stack).0))
      (asks (respond_to_subscribe 9 200 (codes "OK") 3600)
        (start true true (start true false new_stack).0).0))

started-running : started_stack.running ≡ true
unfolding start
started-running = refl

late_answer_example :
    follow_all down
      (perform (respond_to_subscribe 9 200 (codes "OK") 60) (tear_down started_stack)).calls
    ≡ none
late_answer_example =
    late_answer started_stack 9 200 60 (codes "OK") (Reach-InOrder new_stack-InOrder to_started)
      started-running

abbrev new_listener : Listener
new_listener = record {
  server = record { routes = []; requests_total = 0; requests_ok = 0; requests_error = 0 };
  http_enabled = true;
  socket_open = false;
  running = false;
  stop_requested = false;
  serving = false;
  opened = 0;
  closed = 0;
  sent = [];
}

new_listener-Balanced : Balanced new_listener
new_listener-Balanced = record {
  counted = refl;
  open_runs = refl;
  open_until_asked = refl;
  asked_closed = refl;
  serves_running = refl;
}

abbrev listener : Listener
listener = (Listener.start listening new_listener).0

Reach-Balanced_example : Balanced (server_round (accepted (codes "GET / HTTP/1.1")) listener)
Reach-Balanced_example = Reach-Balanced new_listener-Balanced (
    Sockets.next (Sockets.next Sockets.here (Sockets.starts listening new_listener))
      (Sockets.turns (accepted (codes "GET / HTTP/1.1")) listener))

abbrev dependencies : Dependencies
dependencies = record {
  config = some initial;
  dispatcher = some dispatcher;
  presence_client = some client;
  presence_router = some router;
  failover_mgr = none;
  reaper = none;
  mongo = none;
  sub_store = some store.stats;
  slow_logger = none;
  registry = empty_registry;
  index = empty_index;
}

abbrev subscriptions_request : Request
subscriptions_request = record empty_request { path = codes "/subscriptions" }

presence-plain : is_plain (presence_json client dependencies) ≡ true
unfolding is_plain presence_json codes connected_server
presence-plain = refl

subscriptions-plain :
    is_plain (subscriptions_json (reported subscriptions_request dependencies)) ≡ true
unfolding is_plain subscriptions_json codes get_all find
subscriptions-plain = refl

config-plain : is_plain (config_json initial) ≡ true
unfolding is_plain config_json codes strategy_text
config-plain = refl

reports-print_example :
    (handle_stats dependencies ≡ with_body (print (stats_json dispatcher dependencies)))
    × (handle_stats_workers dependencies ≡ with_body (print (workers_json dispatcher)))
    × (handle_stats_presence dependencies ≡ with_body (print (presence_json client dependencies)))
    × (handle_subscriptions subscriptions_request dependencies
        ≡ with_body (print (subscriptions_json (reported subscriptions_request dependencies))))
    × (handle_config dependencies ≡ with_body (print (config_json initial)))
reports-print_example =
    reports-print dispatcher client initial dependencies subscriptions_request refl refl refl
      presence-plain subscriptions-plain config-plain

some_worker : 0 < length (new_dispatcher config world).workers
unfolding new_dispatcher workers_from
some_worker = omega arith

no_dialogs : New hash (new_dispatcher config world) (active_record ∷ [])
unfolding new_dispatcher workers_from worker_index_for find
no_dialogs = (
  λ w at. cc (ap (Option.map (λ (v : Worker). find active_record.dialog_id v.dialogs)) at),
  tt,
  tt,
)

recover-AllPresent_example :
    let d = new_dispatcher config world in
    AllPresent hash (recover hash (active_record ∷ []) d) (active_record ∷ [])
    × ((did : Text) (ctx : DialogContext)
        → Present hash d did ctx
        → Present hash (recover hash (active_record ∷ []) d) did ctx)
recover-AllPresent_example =
    recover-AllPresent hash (active_record ∷ []) (new_dispatcher config world) some_worker
      no_dialogs

abbrev reaper : StaleSubscriptionReaper
reaper = record {
  running = true;
  stop_requested = false;
  scan = record {
    stats = record {
      scan_count = 0;
      expired_reaped = 0;
      stuck_reaped = 0;
      last_scan_stale_count = 0;
    };
    store_calls = [];
    total = 0;
  };
}

abbrev program : Program (List Document)
program = record {
  store = store;
  stack = started_stack;
  dispatcher = dispatcher;
  callback_set = true;
  router = router;
  client = client;
  reaper = reaper;
  http = listener;
}

dispatcher-started : dispatcher.started ≡ true
unfolding Dispatcher.start start_workers new_dispatcher workers_from Admin.start
dispatcher-started = refl

program-Sane : Sane program
unfolding start
program-Sane = record {
  in_order = Reach-InOrder new_stack-InOrder to_started;
  balanced =
      Reach-Balanced new_listener-Balanced
        (Sockets.next Sockets.here (Sockets.starts listening new_listener));
  queued_runs = λ e. cc e;
  started_workers = λ e. cc (dispatcher-started, e);
}

-- An answer before the stack's thread is joined, one when the stack is down, and what else the
-- workers do; `late` falls within the stack's stop.
abbrev meanwhile : List SipCall → Meanwhile
meanwhile late = record {
  joining = respond_to_subscribe 9 200 (codes "OK") 3600 ∷ [];
  torn_down = late;
  afterwards = respond_to_subscribe 9 200 (codes "OK") 3600 ∷ handle_unref 9 ∷ [];
  work = λ ws. ws;
  queued = upsert active_record ∷ [];
}

shutdown-Quiet_example : Quiet (shutdown pool 9000 (meanwhile (handle_unref 8 ∷ [])) program)
shutdown-Quiet_example =
    shutdown-Quiet pool 9000 (meanwhile (handle_unref 8 ∷ [])) program refl program-Sane

abbrev fresh_program : Program (List Document)
fresh_program = record program {
  store = record store { pending_ops = []; running = false };
  stack = new_stack;
  dispatcher = new_dispatcher config world;
  callback_set = false;
  http = new_listener;
}

fresh_program-Fresh : Fresh fresh_program
unfolding new_dispatcher workers_from
fresh_program-Fresh = record {
  in_order = new_stack-InOrder;
  balanced = new_listener-Balanced;
  nothing_queued = refl;
  workers_idle = (refl, (refl, tt));
  not_started = refl;
}

abbrev surroundings : Surroundings
surroundings = record {
  pool_init = λ uri size. true;
  ping = true;
  root_made = true;
  nua_made = true;
  http_outcome = listening;
  now = 5000;
}

startup-Sane_example :
    let x = startup pool hash surroundings fresh_program in Sane x.0 × ((x.1 ≡ false) ⊎ Serving x.0)
startup-Sane_example = startup-Sane pool hash surroundings fresh_program fresh_program-Fresh
