-- ===== src/Dispatch/Worker/Home.antt =====
-- One worker that is given only events of dialogs whose home it is holds only such dialogs.
use sip_event_processor.Prelude.{
  ℕ, ◌+◌, ◌≡◌, some, List, [], ◌∷◌, ◌++◌, Text, text_eq_iff, arith, Bool-cases, Option-cases, inl,
  inr,
}
use sip_event_processor.Prelude.Map.{Map, find, put}
use sip_event_processor.Sip.Event.{SipEvent}
use sip_event_processor.Subscription.Record.{SubscriptionRecord}
use sip_event_processor.Dispatch.Worker.State.{DialogContext, Shared, Worker, Times}
use sip_event_processor.Dispatch.Worker.Intake.{
  enqueue, new_context, push_event, handle_new_subscription, accept_subscription, distribute_one,
  distribute, force_one, force_all,
}
use sip_event_processor.Dispatch.Worker.Loop.{
  turns, process_dialog_queues, removable, sweep, cleanup_terminated_dialogs, finish_round, taken,
  run_round,
}
use sip_event_processor.Dispatch.Worker.Admin.{load_recovered_subscription}

module _ (home : Text → ℕ) (i : ℕ) where
  -- Every event of the list is for a dialog whose home is `i`.
  abbrev pub AllHome : List SipEvent → Type 0
  AllHome [] = Unit
  AllHome (ev ∷ evs) = (home ev.dialog_id ≡ i) × AllHome evs

  -- So is every key of the table.
  abbrev pub KeysHome : Map DialogContext → Type 0
  KeysHome [] = Unit
  KeysHome ((d, _) ∷ m) = (home d ≡ i) × KeysHome m

  AllHome-append : (xs bs : List SipEvent) → AllHome xs → AllHome bs → AllHome (xs ++ bs)
  AllHome-append [] bs h k = k
  AllHome-append (a ∷ xs) bs h k = (h.0, AllHome-append xs bs h.1 k)

  put-KeysHome :
      (d : Text) (c : DialogContext) (m : Map DialogContext)
      → home d ≡ i
      → KeysHome m
      → KeysHome (put d c m)
  unfolding put
  put-KeysHome d c [] h k = (h, tt)
  put-KeysHome d c ((j, u) ∷ m) h k = ground (arith, put-KeysHome d c m h k.1)

  pub find-KeysHome :
      (d : Text) (c : DialogContext) (m : Map DialogContext)
      → find d m ≡ some c
      → KeysHome m
      → home d ≡ i
  unfolding find
  find-KeysHome d c [] h k = cc
  find-KeysHome d c ((j, u) ∷ m) h k = ground (arith, text_eq_iff j d, find-KeysHome d c m)

  turns-KeysHome :
      (warn : ℕ) (times : Times) (m : Map DialogContext) (s : Shared)
      → KeysHome m
      → KeysHome (turns warn times m s).0
  unfolding turns
  turns-KeysHome warn times [] s k = tt
  turns-KeysHome warn times ((d, c) ∷ m) s k = (k.0, turns-KeysHome warn times m _ k.1)

  sweep-KeysHome :
      (now : ℕ) (m : Map DialogContext) (s : Shared) → KeysHome m → KeysHome (sweep now m s).0
  unfolding sweep
  sweep-KeysHome now [] s k = tt
  sweep-KeysHome now ((d, c) ∷ m) s k = elim (Bool-cases (removable now c)) [
    | inl e ↦ rw e (sweep-KeysHome now m _ k.1)
    | inr e ↦ rw e (k.0, sweep-KeysHome now m _ k.1)
  ]

  -- The worker holds nothing of a dialog whose home is elsewhere.
  abbrev pub Holds : Worker → Type 0
  Holds w = AllHome w.incoming_queue × KeysHome w.dialogs

  push_event-Holds :
      (ev : SipEvent) (w : Worker) → home ev.dialog_id ≡ i → Holds w → Holds (push_event ev w)
  unfolding push_event
  push_event-Holds ev w h k = elim (Option-cases (find ev.dialog_id w.dialogs)) [
    | inl e ↦ rw (e, push_event) k
    | inr (c, e) ↦ rw (e, push_event) (k.0, put-KeysHome ev.dialog_id _ w.dialogs h k.1)
  ]

  handle_new-Holds :
      (now : ℕ) (ev : SipEvent) (w : Worker)
      → home ev.dialog_id ≡ i
      → Holds w
      → Holds (handle_new_subscription now ev.dialog_id ev w)
  unfolding handle_new_subscription accept_subscription
  handle_new-Holds now ev w h k =
      ground (arith, put-KeysHome ev.dialog_id (new_context now ev.dialog_id ev) w.dialogs h k.1)

  distribute_one-Holds :
      (now : ℕ) (ev : SipEvent) (w : Worker)
      → home ev.dialog_id ≡ i
      → Holds w
      → Holds (distribute_one now ev w)
  unfolding distribute_one
  distribute_one-Holds now ev w h k = ground (
    arith,
    push_event-Holds ev w h,
    push_event-Holds ev (handle_new_subscription now ev.dialog_id ev w) h,
    handle_new-Holds now ev w h k,
  )

  distribute-Holds :
      (now : ℕ) (evs : List SipEvent) (w : Worker)
      → AllHome evs
      → Holds w
      → Holds (distribute now evs w)
  unfolding distribute
  distribute-Holds now [] w h k = k
  distribute-Holds now (ev ∷ evs) w h k =
      distribute-Holds now evs (distribute_one now ev w) h.1 (distribute_one-Holds now ev w h.0 k)

  force_one-Holds : (d : Text) (w : Worker) → Holds w → Holds (force_one d w)
  unfolding force_one
  force_one-Holds d w k = elim (Option-cases (find d w.dialogs)) [
    | inl e ↦ rw (e, force_one) k
    | inr (c, e) ↦
        rw (e, force_one) (k.0, put-KeysHome d _ w.dialogs (find-KeysHome d c w.dialogs e k.1) k.1)
  ]

  force_all-Holds : (ds : List Text) (w : Worker) → Holds w → Holds (force_all ds w)
  unfolding force_all
  force_all-Holds [] w k = k
  force_all-Holds (d ∷ ds) w k = force_all-Holds ds (force_one d w) (force_one-Holds d w k)

  cleanup-Holds : (now : ℕ) (w : Worker) → Holds w → Holds (cleanup_terminated_dialogs now w)
  unfolding cleanup_terminated_dialogs
  cleanup-Holds now w k = ground (arith, sweep-KeysHome now w.dialogs w.shared k.1)

  process_queues-Holds :
      (times : Times) (w : Worker) → Holds w → Holds (process_dialog_queues times w)
  unfolding process_dialog_queues
  process_queues-Holds times w k =
      (k.0, turns-KeysHome w.config.slow_event_warn_threshold times w.dialogs w.shared k.1)

  finish_round-Holds : (times : Times) (w : Worker) → Holds w → Holds (finish_round times w)
  unfolding finish_round
  finish_round-Holds times w k =
      ground (arith, cleanup-Holds times.now (record w { process_cycle = w.process_cycle + 1 }) k)

  pub run_round-Holds : (times : Times) (w : Worker) → Holds w → Holds (run_round times w)
  unfolding run_round
  run_round-Holds times w h = finish_round-Holds times _ (
      process_queues-Holds times _ (
        distribute-Holds times.now w.incoming_queue _ h.0
          (force_all-Holds w.pending_terminates (taken w) (tt, h.1))))

  pub enqueue-Holds :
      (ev : SipEvent) (w : Worker) → home ev.dialog_id ≡ i → Holds w → Holds (enqueue ev w).0
  unfolding enqueue
  enqueue-Holds ev w e h = ground (arith, AllHome-append w.incoming_queue (ev ∷ []) h.0 (e, tt))

  pub load-Holds :
      (rec : SubscriptionRecord) (w : Worker)
      → home rec.dialog_id ≡ i
      → Holds w
      → Holds (load_recovered_subscription rec w).0
  unfolding load_recovered_subscription
  load-Holds rec w e h = (
    h.0,
    elim (Option-cases (find rec.dialog_id w.dialogs)) [
      | inl q ↦ rw q (put-KeysHome rec.dialog_id _ w.dialogs e h.1)
      | inr (c, q) ↦ rw q h.1
    ],
  )
