-- ===== src/Dispatch/Worker/Limits.antt =====
-- The limits on queues and dialogs, over every interleaving of the worker's rounds with the calls
-- of other threads.
use sip_event_processor.Prelude.{
  ℕ, suc, ◌+◌, ◌≡◌, ◌≤◌, refl, ap, some, List, [], ◌∷◌, Text, length, length-append, arith,
  Option-cases, inl, inr,
}
use sip_event_processor.Prelude.Map.{Map, find, put}
use sip_event_processor.Config.{Config}
use sip_event_processor.Sip.Event.{SipEvent}
use sip_event_processor.Dispatch.Worker.State.{DialogContext, Shared, Worker, Times}
use sip_event_processor.Dispatch.Worker.Intake.{
  enqueue, force_terminate, new_context, push_event, handle_new_subscription, accept_subscription,
  distribute_one, distribute, force_one, force_all,
}
use sip_event_processor.Dispatch.Worker.Loop.{
  take_turn, turns, process_dialog_queues, forget_dialog, sweep, cleanup_terminated_dialogs,
  finish_round, taken, run_round,
}

-- The worker keeps its configuration, its queue and its table within their limits.
pub record Within (c : Config) (w : Worker) : Type 0 where
  pub same_config : w.config ≡ c
  pub queue_bounded : length w.incoming_queue ≤ c.max_incoming_queue_per_worker
  pub dialogs_bounded : length w.dialogs ≤ c.max_dialogs_per_worker

length-put_old {ℓ} :
    {V : Type ℓ} (k : Text) (v old : V) (m : Map V)
    → find k m ≡ some old
    → length (put k v m) ≡ length m
unfolding find put
length-put_old k v old [] h = ground arith
length-put_old k v old ((j, u) ∷ m) h = ground (arith, length-put_old k v old m)

length-put {ℓ} : {V : Type ℓ} (k : Text) (v : V) (m : Map V) → length (put k v m) ≤ length m + 1
unfolding put
length-put k v [] = omega arith
length-put k v ((j, u) ∷ m) = ground (arith, length-put k v m)

-- The limits of a worker whose incoming queue has been taken.
abbrev Table : Config → Worker → Type 0
Table c w = (w.config ≡ c) × (length w.dialogs ≤ c.max_dialogs_per_worker) × (w.incoming_queue ≡ [])

enqueue-Within :
    (c : Config) (event : SipEvent) (w : Worker) → Within c w → Within c (enqueue event w).0
unfolding enqueue
enqueue-Within c event w v =
    ground (arith, v.same_config, length-append w.incoming_queue (event ∷ []))

push_event-Table : (c : Config) (ev : SipEvent) (w : Worker) → Table c w → Table c (push_event ev w)
unfolding push_event
push_event-Table c ev w t = elim (Option-cases (find ev.dialog_id w.dialogs)) [
  | inl e ↦ rw (e, push_event) t
  | inr (ctx, e) ↦
      rw (e, push_event) (t.0, rw (length-put_old ev.dialog_id _ ctx w.dialogs e) t.1, t.2)
]

handle_new-Table :
    (c : Config) (now : ℕ) (did : Text) (ev : SipEvent) (w : Worker)
    → Table c w
    → Table c (handle_new_subscription now did ev w)
unfolding handle_new_subscription accept_subscription
handle_new-Table c now did ev w t =
    ground (arith, length-put did (new_context now did ev) w.dialogs)

distribute_one-Table :
    (c : Config) (now : ℕ) (ev : SipEvent) (w : Worker)
    → Table c w
    → Table c (distribute_one now ev w)
unfolding distribute_one
distribute_one-Table c now ev w t = ground (
  arith,
  push_event-Table c ev w,
  push_event-Table c ev (handle_new_subscription now ev.dialog_id ev w),
  handle_new-Table c now ev.dialog_id ev w,
)

distribute-Table :
    (c : Config) (now : ℕ) (batch : List SipEvent) (w : Worker)
    → Table c w
    → Table c (distribute now batch w)
unfolding distribute
distribute-Table c now [] w t = t
distribute-Table c now (ev ∷ batch) w t =
    distribute-Table c now batch (distribute_one now ev w) (distribute_one-Table c now ev w t)

force_one-Table : (c : Config) (did : Text) (w : Worker) → Table c w → Table c (force_one did w)
unfolding force_one
force_one-Table c did w t = elim (Option-cases (find did w.dialogs)) [
  | inl e ↦ rw (e, force_one) t
  | inr (ctx, e) ↦ rw (e, force_one) (t.0, rw (length-put_old did _ ctx w.dialogs e) t.1, t.2)
]

force_all-Table : (c : Config) (ds : List Text) (w : Worker) → Table c w → Table c (force_all ds w)
unfolding force_all
force_all-Table c [] w t = t
force_all-Table c (did ∷ ds) w t =
    force_all-Table c ds (force_one did w) (force_one-Table c did w t)

length-turns :
    (warn : ℕ) (times : Times) (m : Map DialogContext) (shared : Shared)
    → length (turns warn times m shared).0 ≡ length m
unfolding turns
length-turns warn times [] shared = refl
length-turns warn times ((did, ctx) ∷ m) shared =
    let s = take_turn warn times did (record { ctx = ctx; shared = shared }) in
    ap suc (length-turns warn times m s.shared)

length-sweep :
    (now : ℕ) (m : Map DialogContext) (shared : Shared) → length (sweep now m shared).0 ≤ length m
unfolding sweep
length-sweep now [] shared = omega arith
length-sweep now ((did, ctx) ∷ m) shared =
    ground (arith, length-sweep now m (forget_dialog did ctx shared), length-sweep now m shared)

finish_round-Table :
    (c : Config) (times : Times) (w : Worker) → Table c w → Table c (finish_round times w)
unfolding finish_round cleanup_terminated_dialogs
finish_round-Table c times w t = ground (arith, length-sweep times.now w.dialogs w.shared)

process_queues-Table :
    (c : Config) (times : Times) (w : Worker) → Table c w → Table c (process_dialog_queues times w)
unfolding process_dialog_queues
process_queues-Table c times w t =
    (t.0, rw (length-turns w.config.slow_event_warn_threshold times w.dialogs w.shared) t.1, t.2)

run_round-Within :
    (c : Config) (times : Times) (w : Worker) → Within c w → Within c (run_round times w)
unfolding run_round
run_round-Within c times w v =
    let t = finish_round-Table c times _ (
      process_queues-Table c times _ (
        distribute-Table c times.now w.incoming_queue _ (
          force_all-Table c w.pending_terminates (taken w)
            (v.same_config, v.dialogs_bounded, refl)))) in
    record { same_config = t.0; queue_bounded = rw t.2 (omega arith); dialogs_bounded = t.1 }

-- One step of the worker in its environment: a call of another thread, or a round of its own.
pub data Step : Worker → Worker → Type 0 where
  enqueues : (event : SipEvent) (w : Worker) → Step w (enqueue event w).0
  forces : (did : Text) (w : Worker) → Step w (force_terminate did w).0
  rounds : (times : Times) (w : Worker) → Step w (run_round times w)

pub data Reach (w : Worker) : Worker → Type 0 where
  here : Reach w w
  next : {u v : Worker} → Reach w u → Step u v → Reach w v

Step-Within : {c : Config} {u v : Worker} → Step u v → Within c u → Within c v
Step-Within {c} (enqueues event w) h = enqueue-Within c event w h
Step-Within (forces did w) h = record {
  same_config = unfold force_terminate in h.same_config;
  queue_bounded = unfold force_terminate in h.queue_bounded;
  dialogs_bounded = unfold force_terminate in h.dialogs_bounded;
}
Step-Within {c} (rounds times w) h = run_round-Within c times w h

-- From a worker within its limits, no interleaving of enqueued events, forced terminations and
-- rounds of the loop takes the incoming queue past its configured length, or the table of dialogs
-- past its configured size.
pub Reach-Within : {c : Config} {w v : Worker} → Within c w → Reach w v → Within c v
Reach-Within h here = h
Reach-Within h (next r s) = Step-Within s (Reach-Within h r)
