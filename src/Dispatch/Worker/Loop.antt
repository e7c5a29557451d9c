-- ===== src/Dispatch/Worker/Loop.antt =====
-- The worker's loop: one round of `run`, from the swap of the queue to the cleanup. Each round
-- takes the two shared queues under their locks.
use sip_event_processor.Prelude.{
  ℕ, ◌+◌, ◌%◌, Bool, ◌&&◌, ◌||◌, [], ◌∷◌, Text, is_empty, length, ltb, ◌==◌, if◌then◌else◌,
}
use sip_event_processor.Prelude.Map.{Map}
use sip_event_processor.Types.{SubLifecycle, lifecycle_eq}
use sip_event_processor.Subscription.Record.{is_expired}
use sip_event_processor.Subscription.Registry.{unregister_subscription}
use sip_event_processor.Dispatch.World.{deindex_blf_subscription}
use sip_event_processor.Dispatch.Worker.State.{DialogContext, Shared, Scene, Worker, Times}
use sip_event_processor.Dispatch.Worker.Send.{release_nua_handle}
use sip_event_processor.Dispatch.Worker.Intake.{with_stats, force_all, distribute}
use sip_event_processor.Dispatch.Worker.Events.{process_event}

-- One dialog's turn: the front of its queue is taken off and processed.
unfoldable pub take_turn : ℕ → Times → Text → Scene → Scene
take_turn warn times did s = elim s.ctx.event_queue [
  | [] ↦ s
  | event ∷ rest ↦
      process_event warn did (times.start_of did) (times.elapsed_of did) event
        (record s { ctx = record s.ctx { event_queue = rest } })
]

unfoldable pub turns : ℕ → Times → Map DialogContext → Shared → Map DialogContext × Shared
turns warn times [] shared = ([], shared)
turns warn times ((did, ctx) ∷ m) shared =
    let s = take_turn warn times did (record { ctx = ctx; shared = shared }) in
    let (m', shared') = turns warn times m s.shared in ((did, s.ctx) ∷ m', shared')

unfoldable pub process_dialog_queues : Times → Worker → Worker
process_dialog_queues times w =
    let (dialogs, shared) = turns w.config.slow_event_warn_threshold times w.dialogs w.shared in
    record w { dialogs = dialogs; shared = shared }

abbrev pub removable : ℕ → DialogContext → Bool
removable now ctx =
    lifecycle_eq ctx.rec.lifecycle SubLifecycle.terminated && is_empty ctx.event_queue
    || is_expired now ctx.rec && is_empty ctx.event_queue

-- What is done for a dialog that is removed.
unfoldable pub forget_dialog : Text → DialogContext → Shared → Shared
forget_dialog did ctx shared =
    let v = deindex_blf_subscription did ctx.rec shared.world in
    (release_nua_handle (record {
      ctx = ctx;
      shared = record shared {
        world = record v { registry = unregister_subscription did v.registry };
      };
    })).shared

unfoldable pub sweep : ℕ → Map DialogContext → Shared → Map DialogContext × Shared
sweep now [] shared = ([], shared)
sweep now ((did, ctx) ∷ m) shared =
    let gone = removable now ctx in
    let (m', shared') = sweep now m (if gone then forget_dialog did ctx shared else shared) in
    (if gone then m' else (did, ctx) ∷ m', shared')

unfoldable pub cleanup_terminated_dialogs : ℕ → Worker → Worker
cleanup_terminated_dialogs now w =
    let (dialogs, shared) = sweep now w.dialogs w.shared in
    let w' : Worker = record w { dialogs = dialogs; shared = shared } in
    if ltb (length dialogs) (length w.dialogs)
    then with_stats (record shared.stats { dialogs_active = length dialogs }) w'
    else w'

abbrev pub cleanup_interval : ℕ
cleanup_interval = 1000

-- The start of a round: the incoming queue and the pending terminates are taken.
abbrev pub taken : Worker → Worker
taken w =
    with_stats (record w.shared.stats { queue_depth = 0 })
      (record w { incoming_queue = []; pending_terminates = [] })

-- The end of a round: every thousandth one cleans up.
unfoldable pub finish_round : Times → Worker → Worker
finish_round times w =
    let w' : Worker = record w { process_cycle = w.process_cycle + 1 } in
    if w'.process_cycle % cleanup_interval == 0 then cleanup_terminated_dialogs times.now w' else w'

-- A round that does not break off.
unfoldable pub run_round : Times → Worker → Worker
run_round times w =
    let w1 = force_all w.pending_terminates (taken w) in
    finish_round times (process_dialog_queues times (distribute times.now w.incoming_queue w1))
