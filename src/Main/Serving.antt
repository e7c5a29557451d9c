-- ===== src/Main/Serving.antt =====
-- The program of src/main.cpp before its start and when it serves, and what the starts of the
-- dispatcher and of the SIP stack give.
use sip_event_processor.Prelude.{
  ℕ, ◌≡◌, refl, ◌∙◌, Bool, true, false, List, [], ◌∷◌, Text, modify, zero, suc, arith,
}
use sip_event_processor.Types.{ok}
use sip_event_processor.Subscription.Record.{SubscriptionRecord}
use sip_event_processor.Sip.Stack.{SipStackManager}
use sip_event_processor.Sip.Stack
use sip_event_processor.Sip.Stack.Order.{InOrder}
use sip_event_processor.Dispatch.Worker.State.{Worker}
use sip_event_processor.Dispatch.Worker.Admin.{load_recovered_subscription}
use sip_event_processor.Dispatch.Worker.Admin
use sip_event_processor.Dispatch.Dispatcher.{DialogDispatcher, start_workers, worker_index_for}
use sip_event_processor.Dispatch.Dispatcher
use sip_event_processor.Http.Listener.Sockets.{Balanced}
use sip_event_processor.Main.{Program, recover}
use sip_event_processor.Main.Shutdown.{AllStopped}

-- What holds of the components that the constructors have made.
pub record Fresh {Db : Type 0} (p : Program Db) : Type 0 where
  pub in_order : InOrder p.stack
  pub balanced : Balanced p.http
  pub nothing_queued : p.store.pending_ops ≡ []
  pub workers_idle : AllStopped p.dispatcher.workers
  pub not_started : p.dispatcher.started ≡ false

abbrev pub AllRunning : List Worker → Type 0
AllRunning [] = Unit
AllRunning (w ∷ ws) = (w.running ≡ true) × AllRunning ws

-- The program serves: the callback handler has the dispatcher, whose workers all run, and the
-- stack runs.
pub record Serving {Db : Type 0} (p : Program Db) : Type 0 where
  pub has_callback : p.callback_set ≡ true
  pub dispatcher_runs : p.dispatcher.started ≡ true
  pub workers_run : AllRunning p.dispatcher.workers
  pub stack_runs : p.stack.running ≡ true

load-running :
    (rec : SubscriptionRecord) (w : Worker)
    → (load_recovered_subscription rec w).0.running ≡ w.running
unfolding load_recovered_subscription
load-running rec w = refl

modify-AllStopped :
    (rec : SubscriptionRecord) (ws : List Worker) (i : ℕ)
    → AllStopped ws
    → AllStopped (modify (λ w. (load_recovered_subscription rec w).0) ws i)
modify-AllStopped rec [] i h = h
modify-AllStopped rec (w ∷ ws) zero h = (load-running rec w ∙ h.0, h.1)
modify-AllStopped rec (w ∷ ws) (suc i) h = (h.0, modify-AllStopped rec ws i h.1)

-- Recovered subscriptions start nothing.
pub recover-AllStopped :
    (hash : Text → ℕ) (recs : List SubscriptionRecord) (d : DialogDispatcher)
    → AllStopped d.workers
    → AllStopped (recover hash recs d).workers × ((recover hash recs d).started ≡ d.started)
unfolding recover
recover-AllStopped hash [] d h = (h, refl)
recover-AllStopped hash (rec ∷ recs) d h =
    let i = worker_index_for hash d rec.dialog_id in
    let d' = record d {
      workers = modify (λ w. (load_recovered_subscription rec w).0) d.workers i;
    } in
    recover-AllStopped hash recs d' (modify-AllStopped rec d.workers i h)

start_workers-ok : (ws : List Worker) → AllStopped ws → (start_workers ws).1 ≡ ok
unfolding start_workers Admin.start
start_workers-ok [] h = refl
start_workers-ok (w ∷ ws) h = ground (arith, start_workers-ok ws h.1)

start_workers-running : (ws : List Worker) → AllStopped ws → AllRunning (start_workers ws).0
unfolding start_workers Admin.start
start_workers-running [] h = tt
start_workers-running (w ∷ ws) h = rw h.0 (refl, start_workers-running ws h.1)

pub start-ok :
    (d : DialogDispatcher)
    → d.started ≡ false
    → AllStopped d.workers
    → ((Dispatcher.start d).1 ≡ ok)
      × (((Dispatcher.start d).0.started ≡ true) × AllRunning (Dispatcher.start d).0.workers)
unfolding Dispatcher.start
start-ok d idle h =
    rw (Dispatcher.start, idle, start_workers-ok d.workers h)
      (refl, (refl, start_workers-running d.workers h))

pub stack-start :
    (root_made nua_made : Bool) (s : SipStackManager)
    → (Stack.start root_made nua_made s).1 ≡ ok
    → (Stack.start root_made nua_made s).0.running ≡ true
unfolding Stack.start
stack-start root_made nua_made s h = ground arith
