-- ===== src/Examples/Data.antt =====
-- The data of the examples: two dialogs of one tenant, events of theirs, and a worker.
use sip_event_processor.Prelude.{◌∷◌, none, some, [], Text, codes, false, true}
use sip_event_processor.Types.{SubscriptionType, SubLifecycle, SipEventCategory}
use sip_event_processor.Config.{Config}
use sip_event_processor.SlowEventLogger.{SlowEventLogger}
use sip_event_processor.Sip.Event.{SipEvent, default_event, i_subscribe, i_notify}
use sip_event_processor.Subscription.Record.{SubscriptionRecord, default_record}
use sip_event_processor.Subscription.Registry.{SubscriptionInfo, empty_registry}
use sip_event_processor.Subscription.Index.{empty_index}
use sip_event_processor.Dispatch.World.{World}
use sip_event_processor.Dispatch.Worker.State.{
  DialogContext, Scene, Shared, Times, Worker, WorkerStats,
}

abbrev pub first_dialog : Text
first_dialog = 65 ∷ []

abbrev pub second_dialog : Text
second_dialog = 66 ∷ []

abbrev pub tenant : Text
tenant = 116 ∷ []

abbrev pub other_tenant : Text
other_tenant = 117 ∷ []

-- sip:b@h and sip:c@h
abbrev pub monitored : Text
monitored = 115 ∷ 105 ∷ 112 ∷ 58 ∷ 98 ∷ 64 ∷ 104 ∷ []

abbrev pub other_uri : Text
other_uri = 115 ∷ 105 ∷ 112 ∷ 58 ∷ 99 ∷ 64 ∷ 104 ∷ []

abbrev pub info_of : Text → Text → SubscriptionInfo
info_of d t = record {
  dialog_id = d;
  tenant_id = t;
  type = SubscriptionType.blf;
  lifecycle = SubLifecycle.pending;
  last_activity = 7;
  worker_index = 0;
}

abbrev pub logger : SlowEventLogger
logger = record {
  warn_ms = 50;
  error_ms = 100;
  critical_ms = 500;
  stats = record { warn_count = 0; error_count = 0; critical_count = 0; max_duration_ms = 0 };
}

abbrev pub config : Config
config = record {
  num_workers = 2;
  max_incoming_queue_per_worker = 3;
  max_dialogs_per_worker = 2;
  max_subscriptions_per_tenant = 5;
  blf_subscription_ttl = 3600;
  mwi_subscription_ttl = 7200;
  stuck_processing_timeout = 30;
  slow_event_warn_threshold = 50;
  slow_event_error_threshold = 100;
  slow_event_critical_threshold = 500;
}

abbrev pub world : World
world = record {
  index = empty_index;
  registry = empty_registry;
  slow_logger = logger;
  has_stack = true;
  has_store = true;
  store_enabled = true;
  sip_calls = [];
  store_calls = [];
}

-- A SUBSCRIBE for call monitoring.
abbrev pub subscribe_event : Text → SipEvent
subscribe_event d = record (default_event 5) {
  dialog_id = d;
  tenant_id = tenant;
  nua_event = i_subscribe;
  category = SipEventCategory.subscribe;
  sub_type = SubscriptionType.blf;
  to_uri = monitored;
  expires = 3600;
  nua_handle = some 9;
}

-- An incoming NOTIFY that reports the end of the subscription.
abbrev pub ending_event : SipEvent
ending_event = record (default_event 5) {
  dialog_id = first_dialog;
  tenant_id = tenant;
  nua_event = i_notify;
  category = SipEventCategory.notify;
  sub_type = SubscriptionType.blf;
  expires = 3600;
  subscription_state = codes "terminated";
}

abbrev pub active_record : SubscriptionRecord
active_record = record (default_record 3) {
  dialog_id = first_dialog;
  tenant_id = tenant;
  type = SubscriptionType.blf;
  lifecycle = SubLifecycle.active;
  blf_monitored_uri = monitored;
}

abbrev pub active_context : DialogContext
active_context = record { rec = active_record; event_queue = []; nua_handle = some 9 }

abbrev pub ended_context : DialogContext
ended_context = record {
  rec = record active_record { dialog_id = second_dialog; lifecycle = SubLifecycle.terminated };
  event_queue = [];
  nua_handle = none;
}

abbrev pub stats : WorkerStats
stats = record {
  events_received = 4;
  events_processed = 2;
  events_dropped = 1;
  presence_triggers_processed = 0;
  dialogs_active = 2;
  dialogs_reaped = 0;
  queue_depth = 2;
  slow_events = 0;
  notify_sent = 0;
  notify_errors = 0;
  subscribe_responses_sent = 0;
}

abbrev pub shared : Shared
shared = record { world = world; stats = stats; notify_version = 0 }

abbrev pub scene : Scene
scene = record { ctx = active_context; shared = shared }

-- Two dialogs, one of them terminated, and two events that wait to be distributed.
abbrev pub worker : Worker
worker = record {
  worker_index = 0;
  config = config;
  running = true;
  stop_requested = false;
  incoming_queue = ending_event ∷ subscribe_event first_dialog ∷ [];
  pending_terminates = second_dialog ∷ [];
  dialogs = (first_dialog, active_context) ∷ (second_dialog, ended_context) ∷ [];
  process_cycle = 999;
  shared = shared;
}

abbrev pub times : Times
times = record { now = 11; start_of = λ d. 12; elapsed_of = λ d. 60 }
