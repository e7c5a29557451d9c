-- ===== src/Examples/Worker.antt =====
-- The processing of events, the cleanup and the rounds of the worker.
use sip_event_processor.Prelude.{
  ◌+◌, ◌≡◌, ◌⊎◌, ◌≢◌, refl, true, ℕ, Text, if◌then◌else◌, none, some, [], ◌∷◌, text_eq, keep_if,
  codes, arith,
}
use sip_event_processor.Prelude.Map.{find, Distinct}
use sip_event_processor.Types.{SubLifecycle, SubscriptionType}
use sip_event_processor.Sip.Event.{
  SipEvent, create_presence_trigger, create_from_sofia, sofia_event, i_notify,
}
use sip_event_processor.Subscription.Registry
use sip_event_processor.Subscription.Blf
use sip_event_processor.Dispatch.Worker.State.{Worker}
use sip_event_processor.Dispatch.Worker.Events.{
  begin_event, handle_event, process_sip_event, process_event, ends_subscription,
}
use sip_event_processor.Dispatch.Worker.Intake.{enqueue, distribute, force_terminate}
use sip_event_processor.Dispatch.Worker.Loop.{cleanup_terminated_dialogs, run_round, taken}
use sip_event_processor.Dispatch.Worker.Lifecycle.{
  process_event-lifecycle, presence_trigger-terminates,
}
use sip_event_processor.Dispatch.Worker.Expires.{no_expires-terminates}
use sip_event_processor.Sip.DialogId.{SipMessage, build}
use sip_event_processor.Dispatch.Worker.Deindex.{reported_end-index}
use sip_event_processor.Dispatch.Worker.Cleanup.{
  kept, is_removed, is_removed_blf, uri_of, watched, cleanup-exact,
}
use sip_event_processor.Subscription.Index.{empty_index, add}
use sip_event_processor.Subscription.Index.Consistent.{IsConsistent, add-IsConsistent}
use sip_event_processor.Subscription.Index.Refine.{empty-IsConsistent}
use sip_event_processor.Dispatch.Worker.Fifo.{with_events, distribute-fifo}
use sip_event_processor.Dispatch.Worker.Account.{balance, discarded, run_round-balance}
use sip_event_processor.Dispatch.Worker.Limits.{
  Within, here, next, enqueues, forces, rounds, Reach-Within,
}
use sip_event_processor.Examples.Data.{
  first_dialog, second_dialog, tenant, active_context, subscribe_event, ending_event, config, scene,
  worker, times,
}

process_event-lifecycle_example :
    let l = scene.ctx.rec.lifecycle in
    let l' = (process_event 50 first_dialog 12 60 ending_event scene).ctx.rec.lifecycle in
    (l' ≡ l)
    ⊎ ((l ≡ SubLifecycle.pending) × (l' ≡ SubLifecycle.active))
    ⊎ (l' ≡ SubLifecycle.terminated)
process_event-lifecycle_example = process_event-lifecycle 50 first_dialog 12 60 ending_event scene

ending_event-ends : ends_subscription ending_event ≡ true
unfolding ends_subscription codes text_eq
ending_event-ends = refl

-- A NOTIFY that says that the subscription is active, without an Expires header.
abbrev notify_message : SipMessage
notify_message = record {
  sip_call_id = some (b'c' ∷ []);
  sip_from = none;
  sip_to = none;
  sip_event = some (codes "dialog");
  sip_cseq = some 2;
  sip_expires = none;
  sip_content_type = none;
  sip_payload = none;
  sip_subscription_state = some (record { ss_substate = some (codes "active"); ss_reason = none });
}

abbrev print_pointer : ℕ → Text
print_pointer n = n ∷ []

abbrev notify_event : SipEvent
notify_event = sofia_event 11 5 print_pointer i_notify 0 none (some 9) (some notify_message)

notify_event-made :
    create_from_sofia 11 5 print_pointer i_notify 0 none (some 9) (some notify_message)
    ≡ some notify_event
unfolding create_from_sofia sofia_event build
notify_event-made = refl

no_expires-terminates_example :
    (process_event 50 first_dialog 12 60
      (record notify_event { tenant_id = tenant })
      scene).ctx.rec.lifecycle
    ≡ SubLifecycle.terminated
no_expires-terminates_example =
    no_expires-terminates 11 5 print_pointer i_notify 0 none (some 9) notify_message tenant
      notify_event 50 first_dialog 12 60 scene refl notify_event-made

presence_trigger-terminates_example :
    (process_event 50 first_dialog 12 60
      (create_presence_trigger 12 3 first_dialog tenant
        (99 ∷ [])
        (97 ∷ [])
        (98 ∷ [])
        (codes "confirmed")
        (codes "inbound")
        [])
      scene).ctx.rec.lifecycle
    ≡ SubLifecycle.terminated
presence_trigger-terminates_example =
    presence_trigger-terminates 50 first_dialog 12 60 3 tenant (99 ∷ []) (97 ∷ []) (98 ∷ [])
      (codes "confirmed") (codes "inbound") [] scene

reported_end-index_example :
    ((process_event 50 first_dialog 12 60 ending_event scene).ctx.rec.lifecycle
      ≡ SubLifecycle.terminated)
    × ((process_event 50 first_dialog 12 60 ending_event scene).shared.world.index
        ≡ scene.shared.world.index)
reported_end-index_example =
    reported_end-index 50 first_dialog 12 60 ending_event scene
      (record { category = refl; direction = refl; source = refl; substate = refl }) refl

-- A SUBSCRIBE with Expires 0.
abbrev unsubscribe_event : SipEvent
unsubscribe_event = record (subscribe_event first_dialog) { expires = 0 }

unsubscribe_event-ends : ends_subscription unsubscribe_event ≡ true
unfolding ends_subscription text_eq codes
unsubscribe_event-ends = refl

unsubscribe_event-type :
    (handle_event first_dialog 12 unsubscribe_event (begin_event 12 scene)).ctx.rec.type
    ≡ SubscriptionType.blf
unfolding handle_event begin_event process_sip_event Blf.process
unsubscribe_event-type = refl

unsubscribe_event-lifecycle :
    (handle_event first_dialog 12 unsubscribe_event (begin_event 12 scene)).ctx.rec.lifecycle
    ≢ SubLifecycle.terminated
unfolding handle_event begin_event process_sip_event Blf.process
unsubscribe_event-lifecycle e = ground (arith, e)

dialogs-Distinct : Distinct worker.dialogs
unfolding find text_eq
dialogs-Distinct = (refl, (refl, tt))

abbrev watched_uri : Text
watched_uri = codes "sip:bob@example.com"

-- The worker, whose expired dialog is indexed.
abbrev indexed_worker : Worker
indexed_worker = record worker {
  shared = record worker.shared {
    world = record worker.shared.world { index = add watched_uri second_dialog tenant empty_index };
  };
}

cleanup-exact_example :
    let w = indexed_worker in
    let w' = cleanup_terminated_dialogs 11 w in
    (find second_dialog w'.dialogs ≡ kept 11 (find second_dialog w.dialogs))
    × (Registry.lookup second_dialog w'.shared.world.registry ≡ (
        if is_removed 11 (find second_dialog w.dialogs)
        then none
        else Registry.lookup second_dialog w.shared.world.registry))
    × (uri_of second_dialog w'.shared.world ≡ (
        if is_removed_blf 11 (find second_dialog w.dialogs)
        then none
        else uri_of second_dialog w.shared.world))
    × (watched second_dialog watched_uri w'.shared.world ≡ (
        if is_removed_blf 11 (find second_dialog w.dialogs)
        then 0
        else watched second_dialog watched_uri w.shared.world))
    × IsConsistent w'.shared.world.index
cleanup-exact_example =
    cleanup-exact 11 second_dialog watched_uri indexed_worker dialogs-Distinct
      (add-IsConsistent watched_uri second_dialog tenant empty_index empty-IsConsistent)

distribute-fifo_example :
    find first_dialog (distribute 11 worker.incoming_queue worker).dialogs
    ≡ some (with_events active_context (ending_event ∷ subscribe_event first_dialog ∷ []))
unfolding keep_if text_eq find
distribute-fifo_example =
    distribute-fifo first_dialog 11 worker.incoming_queue worker active_context refl

run_round-balance_example :
    balance (run_round times worker) + discarded (second_dialog ∷ []) (taken worker)
    ≡ balance worker + 2
run_round-balance_example = run_round-balance times worker

worker-Within : Within config worker
worker-Within = record {
  same_config = refl;
  queue_bounded = omega arith;
  dialogs_bounded = omega arith;
}

-- An event comes in, a termination is asked for, a round ends, and another event comes in.
Reach-Within_example :
    Within config
      (enqueue ending_event
        (run_round times (force_terminate first_dialog (enqueue ending_event worker).0).0)).0
Reach-Within_example = Reach-Within worker-Within (
    next
      (next (next (next here (enqueues ending_event worker)) (forces first_dialog _))
        (rounds times _))
      (enqueues ending_event _))
