-- ===== src/Dispatch/Worker/Keys.antt =====
-- No dialog stands twice in a worker's table, over every interleaving of the worker's steps.
use sip_event_processor.Prelude.{
  ℕ, ◌≡◌, refl, none, List, [], ◌∷◌, Text, text_eq, arith, Bool-cases, Option-cases, inl, inr,
}
use sip_event_processor.Prelude.Map.{Map, find, Distinct, put-Distinct}
use sip_event_processor.Sip.Event.{SipEvent}
use sip_event_processor.Dispatch.Worker.State.{DialogContext, Shared, Worker, Times}
use sip_event_processor.Dispatch.Worker.Intake.{
  enqueue, force_terminate, new_context, push_event, handle_new_subscription, accept_subscription,
  distribute_one, distribute, force_one, force_all,
}
use sip_event_processor.Dispatch.Worker.Loop.{
  turns, process_dialog_queues, removable, sweep, cleanup_terminated_dialogs, finish_round, taken,
  run_round,
}
use sip_event_processor.Dispatch.Worker.Limits.{Step, enqueues, forces, rounds, Reach, here, next}

push_event-Distinct :
    (ev : SipEvent) (w : Worker) → Distinct w.dialogs → Distinct (push_event ev w).dialogs
unfolding push_event
push_event-Distinct ev w k = elim (Option-cases (find ev.dialog_id w.dialogs)) [
  | inl e ↦ rw (e, push_event) k
  | inr (c, e) ↦ rw (e, push_event) (put-Distinct ev.dialog_id _ w.dialogs k)
]

handle_new-Distinct :
    (now : ℕ) (did : Text) (ev : SipEvent) (w : Worker)
    → Distinct w.dialogs
    → Distinct (handle_new_subscription now did ev w).dialogs
unfolding handle_new_subscription accept_subscription
handle_new-Distinct now did ev w k =
    ground (arith, put-Distinct did (new_context now did ev) w.dialogs k)

distribute_one-Distinct :
    (now : ℕ) (ev : SipEvent) (w : Worker)
    → Distinct w.dialogs
    → Distinct (distribute_one now ev w).dialogs
unfolding distribute_one
distribute_one-Distinct now ev w k = ground (
  arith,
  push_event-Distinct ev w,
  push_event-Distinct ev (handle_new_subscription now ev.dialog_id ev w),
  handle_new-Distinct now ev.dialog_id ev w k,
)

distribute-Distinct :
    (now : ℕ) (evs : List SipEvent) (w : Worker)
    → Distinct w.dialogs
    → Distinct (distribute now evs w).dialogs
unfolding distribute
distribute-Distinct now [] w k = k
distribute-Distinct now (ev ∷ evs) w k =
    distribute-Distinct now evs (distribute_one now ev w) (distribute_one-Distinct now ev w k)

force_one-Distinct : (d : Text) (w : Worker) → Distinct w.dialogs → Distinct (force_one d w).dialogs
unfolding force_one
force_one-Distinct d w k = elim (Option-cases (find d w.dialogs)) [
  | inl e ↦ rw (e, force_one) k
  | inr (c, e) ↦ rw (e, force_one) (put-Distinct d _ w.dialogs k)
]

force_all-Distinct :
    (ds : List Text) (w : Worker) → Distinct w.dialogs → Distinct (force_all ds w).dialogs
unfolding force_all
force_all-Distinct [] w k = k
force_all-Distinct (d ∷ ds) w k = force_all-Distinct ds (force_one d w) (force_one-Distinct d w k)

find-turns :
    (warn : ℕ) (times : Times) (d : Text) (m : Map DialogContext) (s : Shared)
    → find d m ≡ none
    → find d (turns warn times m s).0 ≡ none
unfolding turns find
find-turns warn times d [] s e = refl
find-turns warn times d ((j, c) ∷ m) s e = elim (Bool-cases (text_eq j d)) [
  | inl t ↦ absurd (ground (arith, rw t at e))
  | inr t ↦ rw t (find-turns warn times d m _ (rw t at e))
]

turns-Distinct :
    (warn : ℕ) (times : Times) (m : Map DialogContext) (s : Shared)
    → Distinct m
    → Distinct (turns warn times m s).0
unfolding turns
turns-Distinct warn times [] s k = tt
turns-Distinct warn times ((j, c) ∷ m) s k =
    (find-turns warn times j m _ k.0, turns-Distinct warn times m _ k.1)

find-sweep-none :
    (now : ℕ) (d : Text) (m : Map DialogContext) (s : Shared)
    → find d m ≡ none
    → find d (sweep now m s).0 ≡ none
unfolding sweep find
find-sweep-none now d [] s e = refl
find-sweep-none now d ((j, c) ∷ m) s e = elim (Bool-cases (text_eq j d)) [
  | inl t ↦ absurd (ground (arith, rw t at e))
  | inr t ↦ elim (Bool-cases (removable now c)) [
    | inl r ↦ rw r (find-sweep-none now d m _ (rw t at e))
    | inr r ↦ rw (r, find, t) (find-sweep-none now d m _ (rw t at e))
  ]
]

sweep-Distinct :
    (now : ℕ) (m : Map DialogContext) (s : Shared) → Distinct m → Distinct (sweep now m s).0
unfolding sweep
sweep-Distinct now [] s k = tt
sweep-Distinct now ((j, c) ∷ m) s k = elim (Bool-cases (removable now c)) [
  | inl r ↦ rw r (sweep-Distinct now m _ k.1)
  | inr r ↦ rw r (find-sweep-none now j m _ k.0, sweep-Distinct now m _ k.1)
]

finish_round-Distinct :
    (times : Times) (w : Worker) → Distinct w.dialogs → Distinct (finish_round times w).dialogs
unfolding finish_round cleanup_terminated_dialogs
finish_round-Distinct times w k = ground (arith, sweep-Distinct times.now w.dialogs w.shared k)

process_queues-Distinct :
    (times : Times) (w : Worker)
    → Distinct w.dialogs
    → Distinct (process_dialog_queues times w).dialogs
unfolding process_dialog_queues
process_queues-Distinct times w k =
    turns-Distinct w.config.slow_event_warn_threshold times w.dialogs w.shared k

run_round-Distinct :
    (times : Times) (w : Worker) → Distinct w.dialogs → Distinct (run_round times w).dialogs
unfolding run_round
run_round-Distinct times w k = finish_round-Distinct times _ (
    process_queues-Distinct times _ (
      distribute-Distinct times.now w.incoming_queue _
        (force_all-Distinct w.pending_terminates (taken w) k)))

enqueue-Distinct :
    (ev : SipEvent) (w : Worker) → Distinct w.dialogs → Distinct (enqueue ev w).0.dialogs
unfolding enqueue
enqueue-Distinct ev w k = ground (arith, k)

Step-Distinct : {u v : Worker} → Step u v → Distinct u.dialogs → Distinct v.dialogs
Step-Distinct (enqueues event w) k = enqueue-Distinct event w k
Step-Distinct (forces did w) k = unfold force_terminate in k
Step-Distinct (rounds times w) k = run_round-Distinct times w k

-- From a worker in whose table no dialog stands twice, no interleaving of enqueued events, forced
-- terminations and rounds leads to one in which a dialog does.
pub Reach-Distinct : {w v : Worker} → Distinct w.dialogs → Reach w v → Distinct v.dialogs
Reach-Distinct k here = k
Reach-Distinct k (next r s) = Step-Distinct s (Reach-Distinct k r)
