-- ===== src/Dispatch/Worker/State.antt =====
-- The state of a worker, and what one event's processing reads and writes of it.
use sip_event_processor.Prelude.{ℕ, Bool, Option, List, Text}
use sip_event_processor.Prelude.Map.{Map}
use sip_event_processor.Config.{Config}
use sip_event_processor.Sip.Event.{SipEvent}
use sip_event_processor.Subscription.Record.{SubscriptionRecord}
use sip_event_processor.Dispatch.World.{World}

-- Counters of 64 bits that do not wrap in the program's lifetime.
pub record WorkerStats : Type 0 where
  pub events_received : ℕ
  pub events_processed : ℕ
  pub events_dropped : ℕ
  pub presence_triggers_processed : ℕ
  pub dialogs_active : ℕ
  pub dialogs_reaped : ℕ
  pub queue_depth : ℕ
  pub slow_events : ℕ
  pub notify_sent : ℕ
  pub notify_errors : ℕ
  pub subscribe_responses_sent : ℕ

pub record DialogContext : Type 0 where
  pub rec : SubscriptionRecord
  pub event_queue : List SipEvent
  pub nua_handle : Option ℕ

-- What all dialogs of the worker share; `notify_version` is the counter of its BlfProcessor.
pub record Shared : Type 0 where
  pub world : World
  pub stats : WorkerStats
  pub notify_version : ℕ

-- One dialog and what is shared: the state of a handler.
pub record Scene : Type 0 where
  pub ctx : DialogContext
  pub shared : Shared

-- The head of a queue is its front.
pub record Worker : Type 0 where
  pub worker_index : ℕ
  pub config : Config
  pub running : Bool
  pub stop_requested : Bool
  pub incoming_queue : List SipEvent
  pub pending_terminates : List Text
  pub dialogs : Map DialogContext
  pub process_cycle : ℕ
  pub shared : Shared

-- The clock in one round of the loop: the round's own reading, and for each dialog the reading at
-- which its event is taken up and the milliseconds that the event then takes.
pub record Times : Type 0 where
  pub now : ℕ
  pub start_of : Text → ℕ
  pub elapsed_of : Text → ℕ

abbrev pub set_rec : SubscriptionRecord → Scene → Scene
set_rec r s = record s { ctx = record s.ctx { rec = r } }

abbrev pub set_world : World → Scene → Scene
set_world w s = record s { shared = record s.shared { world = w } }

abbrev pub set_stats : WorkerStats → Scene → Scene
set_stats t s = record s { shared = record s.shared { stats = t } }
