-- ===== src/Dispatch/Dispatcher.antt =====
-- DialogDispatcher of include/dispatch/dialog_dispatcher.h and src/dispatch/dialog_dispatcher.cpp.
-- `hash` is std::hash<std::string>, of which only that it is a function is used. `Worker::stop`
-- joins the worker's thread: its last rounds are steps of the worker, and what stands here is the
-- part behind the join.
use sip_event_processor.Prelude.{
  ℕ, zero, suc, ◌+◌, ◌%◌, Bool, true, false, not, Option, none, some, List, [], ◌∷◌, Text, map,
  length, get_elem?, modify, ltb, if◌then◌else◌,
}
use sip_event_processor.Types.{Result, ok, shutting_down, invalid_argument, already_exists}
use sip_event_processor.Config.{Config}
use sip_event_processor.Sip.DialogId.{is_valid}
use sip_event_processor.Sip.Event.{SipEvent}
use sip_event_processor.Dispatch.World.{World}
use sip_event_processor.Dispatch.Worker.State.{WorkerStats, Worker}
use sip_event_processor.Dispatch.Worker.Intake.{enqueue}
use sip_event_processor.Dispatch.Worker.Admin.{finish_stop}
use sip_event_processor.Dispatch.Worker.Admin
pub mod Ownership
pub mod Totals
pub mod Delivery

pub record DialogDispatcher : Type 0 where
  pub config : Config
  pub workers : List Worker
  pub started : Bool

abbrev pub zero_stats : WorkerStats
zero_stats = record {
  events_received = 0;
  events_processed = 0;
  events_dropped = 0;
  presence_triggers_processed = 0;
  dialogs_active = 0;
  dialogs_reaped = 0;
  queue_depth = 0;
  slow_events = 0;
  notify_sent = 0;
  notify_errors = 0;
  subscribe_responses_sent = 0;
}

-- The worker's constructor.
abbrev pub new_worker : Config → World → ℕ → Worker
new_worker config world index = record {
  worker_index = index;
  config = config;
  running = false;
  stop_requested = false;
  incoming_queue = [];
  pending_terminates = [];
  dialogs = [];
  process_cycle = 0;
  shared = record { world = world; stats = zero_stats; notify_version = 0 };
}

-- The workers with the indices from `i` up to, but not including, `i + n`.
unfoldable pub workers_from : Config → World → ℕ → ℕ → List Worker
workers_from config world i zero = []
workers_from config world i (suc n) =
    new_worker config world i ∷ workers_from config world (i + 1) n

unfoldable pub new_dispatcher : Config → World → DialogDispatcher
new_dispatcher config world = record {
  config = config;
  workers =
      workers_from config world 0 (if ltb 0 config.num_workers then config.num_workers else 8);
  started = false;
}

-- A worker's `start` fails where it is running; then `stop` returns at once, as `started_` is not
-- yet set, and the workers that were started stay so.
unfoldable pub start_workers : List Worker → List Worker × Result
start_workers [] = ([], ok)
start_workers (w ∷ ws) =
    let (w', r) = Admin.start w in
    let (ws', r') = start_workers ws in elim r [ ok ↦ (w' ∷ ws', r') | other ↦ (w' ∷ ws, other) ]

unfoldable pub start : DialogDispatcher → DialogDispatcher × Result
start d =
    if d.started
    then (d, already_exists)
    else let (ws, r) = start_workers d.workers in
      elim r [
        | ok ↦ (record d { workers = ws; started = true }, ok)
        | other ↦ (record d { workers = ws }, other)
      ]

-- A worker that does not run is left as it is.
unfoldable pub stop_worker : Worker → Worker
stop_worker w = if not w.running then w else finish_stop (record w { stop_requested = true })

unfoldable pub stop : DialogDispatcher → DialogDispatcher
stop d =
    if not d.started then d else record d { workers = map stop_worker d.workers; started = false }

unfoldable pub worker_index_for : (Text → ℕ) → DialogDispatcher → Text → ℕ
worker_index_for hash d did = hash did % length d.workers

-- A position past the end is not defined in the source; `worker_index_for` gives none.
unfoldable pub dispatch :
    (Text → ℕ) → ℕ → Option SipEvent → DialogDispatcher → DialogDispatcher × Result
dispatch hash now none d = if not d.started then (d, shutting_down) else (d, invalid_argument)
dispatch hash now (some event) d =
    if not d.started
    then (d, shutting_down)
    else if not (is_valid event.dialog_id)
    then (d, invalid_argument)
    else let event' : SipEvent = record event { enqueued_at = now } in
      let i = worker_index_for hash d event.dialog_id in
      (
        record d { workers = modify (λ w. (enqueue event' w).0) d.workers i },
        elim (get_elem? d.workers i) [ none ↦ invalid_argument | some w ↦ (enqueue event' w).1 ],
      )

pub record AggregateStats : Type 0 where
  pub total_events_received : ℕ
  pub total_events_processed : ℕ
  pub total_events_dropped : ℕ
  pub total_presence_triggers : ℕ
  pub total_dialogs_active : ℕ
  pub total_dialogs_reaped : ℕ
  pub total_slow_events : ℕ
  pub max_queue_depth : ℕ

unfoldable pub add_worker : AggregateStats → WorkerStats → AggregateStats
add_worker a s = record {
  total_events_received = a.total_events_received + s.events_received;
  total_events_processed = a.total_events_processed + s.events_processed;
  total_events_dropped = a.total_events_dropped + s.events_dropped;
  total_presence_triggers = a.total_presence_triggers + s.presence_triggers_processed;
  total_dialogs_active = a.total_dialogs_active + s.dialogs_active;
  total_dialogs_reaped = a.total_dialogs_reaped + s.dialogs_reaped;
  total_slow_events = a.total_slow_events + s.slow_events;
  max_queue_depth =
      if ltb a.max_queue_depth s.queue_depth then s.queue_depth else a.max_queue_depth;
}

unfoldable pub sum_stats : AggregateStats → List Worker → AggregateStats
sum_stats a [] = a
sum_stats a (w ∷ ws) = sum_stats (add_worker a w.shared.stats) ws

unfoldable pub aggregate_stats : DialogDispatcher → AggregateStats
aggregate_stats d =
    sum_stats
      (record {
        total_events_received = 0;
        total_events_processed = 0;
        total_events_dropped = 0;
        total_presence_triggers = 0;
        total_dialogs_active = 0;
        total_dialogs_reaped = 0;
        total_slow_events = 0;
        max_queue_depth = 0;
      })
      d.workers
