-- ===== src/Dispatch/Worker/Account.antt =====
-- No event is lost uncounted: what comes in is waiting, processed, counted as dropped, or
-- discarded with a dialog that is terminated by force.
use sip_event_processor.Prelude.{
  ℕ, ◌+◌, ◌≡◌, refl, ap, true, none, some, List, [], ◌∷◌, ◌++◌, Text, length, length-append, arith,
  Bool-cases, Option-cases, inl, inr,
}
use sip_event_processor.Prelude.Map.{Map, find, put}
use sip_event_processor.Sip.Event.{SipEvent}
use sip_event_processor.Dispatch.Worker.State.{DialogContext, Shared, Scene, Worker, Times}
use sip_event_processor.Dispatch.Worker.Send.{
  release_nua_handle, send_final_notify, send_sip_notify,
}
use sip_event_processor.Dispatch.Worker.Events.{process_event}
use sip_event_processor.Dispatch.Worker.Intake.{
  new_context, push_event, handle_new_subscription, accept_subscription, distribute_one, distribute,
  force_one, force_all, terminate_now,
}
use sip_event_processor.Dispatch.Worker.Loop.{
  take_turn, turns, process_dialog_queues, removable, forget_dialog, sweep,
  cleanup_terminated_dialogs, finish_round, taken, run_round,
}
use sip_event_processor.Dispatch.Worker.Tallies.{tallies-process_event}

-- The events that wait in the dialogs' queues.
pub queued : Map DialogContext → ℕ
queued [] = 0
queued ((did, ctx) ∷ m) = length ctx.event_queue + queued m

abbrev pub settled : Shared → ℕ
settled shared = shared.stats.events_processed + shared.stats.events_dropped

-- Everything that the worker still holds or has accounted for, but for what has not been taken in.
abbrev pub balance : Worker → ℕ
balance w = settled w.shared + queued w.dialogs

queued-put_new :
    (k : Text) (ctx : DialogContext) (m : Map DialogContext)
    → find k m ≡ none
    → queued (put k ctx m) ≡ queued m + length ctx.event_queue
unfolding queued find put
queued-put_new k ctx [] h = omega arith
queued-put_new k ctx ((j, c) ∷ m) h = ground (arith, queued-put_new k ctx m)

queued-put_old :
    (k : Text) (ctx old : DialogContext) (m : Map DialogContext)
    → find k m ≡ some old
    → queued (put k ctx m) + length old.event_queue ≡ queued m + length ctx.event_queue
unfolding queued find put
queued-put_old k ctx old [] h = ground arith
queued-put_old k ctx old ((j, c) ∷ m) h = ground (arith, queued-put_old k ctx old m)

balance-push_event : (ev : SipEvent) (w : Worker) → balance (push_event ev w) ≡ balance w + 1
unfolding push_event
balance-push_event ev w = elim (Option-cases (find ev.dialog_id w.dialogs)) [
  | inl e ↦ rw (e, push_event) (omega arith)
  | inr (ctx, e) ↦
      rw (e, push_event)
        (omega (
          arith,
          queued-put_old ev.dialog_id (record ctx { event_queue = ctx.event_queue ++ ev ∷ [] }) ctx
              w.dialogs e,
          length-append ctx.event_queue (ev ∷ []),
        ))
]

balance-handle_new :
    (now : ℕ) (ev : SipEvent) (w : Worker)
    → find ev.dialog_id w.dialogs ≡ none
    → balance (handle_new_subscription now ev.dialog_id ev w) ≡ balance w
unfolding handle_new_subscription accept_subscription
balance-handle_new now ev w h =
    ground (arith, queued-put_new ev.dialog_id (new_context now ev.dialog_id ev) w.dialogs)

balance-distribute_one :
    (now : ℕ) (ev : SipEvent) (w : Worker) → balance (distribute_one now ev w) ≡ balance w + 1
unfolding distribute_one
balance-distribute_one now ev w = ground (
  arith,
  balance-push_event ev w,
  balance-handle_new now ev w,
  balance-push_event ev (handle_new_subscription now ev.dialog_id ev w),
)

pub balance-distribute :
    (now : ℕ) (batch : List SipEvent) (w : Worker)
    → balance (distribute now batch w) ≡ balance w + length batch
unfolding distribute
balance-distribute now [] w = omega arith
balance-distribute now (ev ∷ batch) w =
    omega (
      arith,
      balance-distribute now batch (distribute_one now ev w),
      balance-distribute_one now ev w,
    )

process_event-settles :
    (warn : ℕ) (did : Text) (now elapsed : ℕ) (event : SipEvent) (s : Scene)
    → let s' = process_event warn did now elapsed event s in
      settled s'.shared + length s'.ctx.event_queue
      ≡ settled s.shared + length s.ctx.event_queue + 1
process_event-settles warn did now elapsed event s =
    let e = tallies-process_event warn did now elapsed event s in
    omega (arith, ap (λ t. t.processed) e, ap (λ t. t.dropped) e, ap (λ t. length t.waiting) e)

take_turn-settles :
    (warn : ℕ) (times : Times) (did : Text) (q : List SipEvent) (s : Scene)
    → s.ctx.event_queue ≡ q
    → let s' = take_turn warn times did s in
      settled s'.shared + length s'.ctx.event_queue ≡ settled s.shared + length q
unfolding take_turn
take_turn-settles warn times did [] s h = rw (h, take_turn) (ground arith)
take_turn-settles warn times did (event ∷ rest) s h =
    rw (h, take_turn)
      (omega (
        arith,
        process_event-settles warn did (times.start_of did) (times.elapsed_of did) event
            (record s { ctx = record s.ctx { event_queue = rest } }),
      ))

turns-balance :
    (warn : ℕ) (times : Times) (m : Map DialogContext) (shared : Shared)
    → let r = turns warn times m shared in settled r.1 + queued r.0 ≡ settled shared + queued m
unfolding turns queued
turns-balance warn times [] shared = refl
turns-balance warn times ((did, ctx) ∷ m) shared =
    let s = take_turn warn times did (record { ctx = ctx; shared = shared }) in
    omega (
      arith,
      take_turn-settles warn times did ctx.event_queue (record { ctx = ctx; shared = shared }) refl,
      turns-balance warn times m s.shared,
    )

settled-forget_dialog :
    (did : Text) (ctx : DialogContext) (shared : Shared)
    → settled (forget_dialog did ctx shared) ≡ settled shared
unfolding forget_dialog release_nua_handle
settled-forget_dialog did ctx shared = ground arith

-- A dialog that the cleanup removes has no waiting event.
removable-empty :
    (now : ℕ) (ctx : DialogContext) → removable now ctx ≡ true → length ctx.event_queue ≡ 0
removable-empty now ctx h = ground arith

sweep-balance :
    (now : ℕ) (m : Map DialogContext) (shared : Shared)
    → let r = sweep now m shared in settled r.1 + queued r.0 ≡ settled shared + queued m
unfolding sweep queued
sweep-balance now [] shared = refl
sweep-balance now ((did, ctx) ∷ m) shared = elim (Bool-cases (removable now ctx)) [
  | inl e ↦ rw e (
      omega (
        arith,
        sweep-balance now m (forget_dialog did ctx shared),
        settled-forget_dialog did ctx shared,
        removable-empty now ctx e,
      ))
  | inr e ↦ rw e (omega (arith, sweep-balance now m shared))
]

balance-cleanup : (now : ℕ) (w : Worker) → balance (cleanup_terminated_dialogs now w) ≡ balance w
unfolding cleanup_terminated_dialogs
balance-cleanup now w = ground (arith, sweep-balance now w.dialogs w.shared)

balance-process_queues :
    (times : Times) (w : Worker) → balance (process_dialog_queues times w) ≡ balance w
unfolding process_dialog_queues
balance-process_queues times w =
    turns-balance w.config.slow_event_warn_threshold times w.dialogs w.shared

balance-finish_round : (times : Times) (w : Worker) → balance (finish_round times w) ≡ balance w
unfolding finish_round
balance-finish_round times w =
    ground (arith, balance-cleanup times.now (record w { process_cycle = w.process_cycle + 1 }))

waiting_at : Text → Worker → ℕ
waiting_at did w = elim (find did w.dialogs) [ none ↦ 0 | some ctx ↦ length ctx.event_queue ]

-- The waiting events of the dialogs that are terminated by force, one after the other.
pub discarded : List Text → Worker → ℕ
unfolding waiting_at
discarded [] w = 0
discarded (did ∷ rest) w = waiting_at did w + discarded rest (force_one did w)

terminate_now-clears :
    (did : Text) (s : Scene)
    → let s' = terminate_now did s in
      (settled s'.shared ≡ settled s.shared) × (s'.ctx.event_queue ≡ [])
unfolding terminate_now release_nua_handle send_final_notify send_sip_notify
terminate_now-clears did s = ground arith

balance-force_one :
    (did : Text) (w : Worker) → balance (force_one did w) + waiting_at did w ≡ balance w
unfolding force_one waiting_at
balance-force_one did w = elim (Option-cases (find did w.dialogs)) [
  | inl e ↦ rw (e, force_one, waiting_at) (ground arith)
  | inr (ctx, e) ↦
      let s : Scene = record { ctx = ctx; shared = w.shared } in
      rw (e, force_one, waiting_at)
        (omega (
          arith,
          (terminate_now-clears did s).0,
          ap length (terminate_now-clears did s).1,
          queued-put_old did (terminate_now did s).ctx ctx w.dialogs e,
        ))
]

balance-force_all :
    (ds : List Text) (w : Worker) → balance (force_all ds w) + discarded ds w ≡ balance w
unfolding force_all discarded
balance-force_all [] w = omega arith
balance-force_all (did ∷ ds) w =
    omega (arith, balance-force_one did w, balance-force_all ds (force_one did w))

-- In a round, the events that wait in dialogs' queues and those counted as processed or dropped
-- grow, together, by the number of the events that were taken in, less those that were waiting at
-- dialogs terminated by force.
pub run_round-balance :
    (times : Times) (w : Worker)
    → balance (run_round times w) + discarded w.pending_terminates (taken w)
      ≡ balance w + length w.incoming_queue
unfolding run_round
run_round-balance times w =
    let w1 = force_all w.pending_terminates (taken w) in
    omega (
      arith,
      balance-finish_round times
          (process_dialog_queues times (distribute times.now w.incoming_queue w1)),
      balance-process_queues times (distribute times.now w.incoming_queue w1),
      balance-distribute times.now w.incoming_queue w1,
      balance-force_all w.pending_terminates (taken w),
    )
