-- ===== src/Presence/Router/Triggers.antt =====
-- What PresenceEventRouter::process_call_state_event sends, and to which workers.
use sip_event_processor.Prelude.{
  ℕ, suc, ◌+◌, ◌∙◌, ◌≡◌, ◌≤◌, refl, ap, true, some, List, [], ◌∷◌, ◌++◌, append-nil, Text, length,
  is_empty, arith, Bool-cases, inl, inr, if◌then◌else◌,
}
use sip_event_processor.Types.{ok}
use sip_event_processor.Sip.DialogId.{is_valid}
use sip_event_processor.Sip.Event.{SipEvent, next_id}
use sip_event_processor.Subscription.Index.{BlfWatcher, BlfSubscriptionIndex, lookup}
use sip_event_processor.Dispatch.Dispatcher.{DialogDispatcher, dispatch}
use sip_event_processor.Dispatch.Dispatcher.Delivery.{
  Ready, queue_of, dispatch_all, dispatch_all-queues, dispatch-Delivered, arriving,
  all_dialogs_valid,
}
use sip_event_processor.Presence.CallEvent.{CallStateEvent}
use sip_event_processor.Presence.Router.{
  RouterStats, Outside, create_notify_trigger, watches, is_ok, route_one, route_all,
  process_call_state_event,
}

-- One trigger for each watcher, with identifiers that follow the counter; a watcher of the caller
-- is told of the caller's URI, another of the callee's.
unfoldable pub triggers : ℕ → ℕ → CallStateEvent → List BlfWatcher → List BlfWatcher → List SipEvent
triggers counter now event callers [] = []
triggers counter now event callers (w ∷ ws) =
    let uri = if watches w.dialog_id callers then event.caller_uri else event.callee_uri in
    create_notify_trigger now (next_id counter) w event uri
    ∷ triggers (next_id counter) now event callers ws

module _ (hash : Text → ℕ) (now : ℕ) (event : CallStateEvent) (callers : List BlfWatcher) where
  abbrev trigger : ℕ → BlfWatcher → SipEvent
  trigger counter w =
      create_notify_trigger now (next_id counter) w event
        (if watches w.dialog_id callers then event.caller_uri else event.callee_uri)

  route_one-dispatches :
      (w : BlfWatcher) (stats : RouterStats) (o : Outside)
      → ((route_one hash now event callers w (stats, o)).1.dispatcher
          ≡ (dispatch hash now (some (trigger o.event_counter w)) o.dispatcher).0)
        × ((route_one hash now event callers w (stats, o)).1.event_counter
            ≡ next_id o.event_counter)
  unfolding route_one
  route_one-dispatches w stats o = ground arith

  route_all-dispatches :
      (ws : List BlfWatcher) (stats : RouterStats) (o : Outside)
      → (route_all hash now event callers ws (stats, o)).1.dispatcher
        ≡ dispatch_all hash now (triggers o.event_counter now event callers ws) o.dispatcher
  unfolding route_all triggers dispatch_all
  route_all-dispatches [] stats o = refl
  route_all-dispatches (w ∷ ws) stats o =
      let (stats', o') = route_one hash now event callers w (stats, o) in
      let (a, b) = route_one-dispatches w stats o in
      route_all-dispatches ws stats' o' ∙ rw (a, b) refl

  length-triggers :
      (counter : ℕ) (ws : List BlfWatcher)
      → length (triggers counter now event callers ws) ≡ length ws
  unfolding triggers
  length-triggers counter [] = refl
  length-triggers counter (w ∷ ws) = ap suc (length-triggers (next_id counter) ws)

  route_one-counts :
      (w : BlfWatcher) (stats : RouterStats) (o : Outside)
      → (dispatch hash now (some (trigger o.event_counter w)) o.dispatcher).1 ≡ ok
      → (route_one hash now event callers w (stats, o)).0.notifications_generated
        ≡ stats.notifications_generated + 1
  unfolding route_one
  route_one-counts w stats o h = ground (arith, ap is_ok h)

  route_all-counts :
      (ws : List BlfWatcher) (stats : RouterStats) (o : Outside)
      → Ready (length ws) o.dispatcher
      → all_dialogs_valid (triggers o.event_counter now event callers ws) ≡ true
      → 1 ≤ length o.dispatcher.workers
      → (route_all hash now event callers ws (stats, o)).0.notifications_generated
        ≡ stats.notifications_generated + length ws
  unfolding route_all triggers
  route_all-counts [] stats o r v some_worker = omega arith
  route_all-counts (w ∷ ws) stats o r v some_worker =
      let (stats', o') = route_one hash now event callers w (stats, o) in
      let (a, b) = route_one-dispatches w stats o in
      let valid : is_valid (trigger o.event_counter w).dialog_id ≡ true = ground (arith, v) in
      let others : all_dialogs_valid (triggers (next_id o.event_counter) now event callers ws)
          ≡ true =
        ground (arith, v) in
      let one =
        dispatch-Delivered hash now (length ws) (trigger o.event_counter w) o.dispatcher r valid
          some_worker in
      let counted = route_one-counts w stats o one.accepted in
      let rest =
        route_all-counts ws stats' o' (rw a one.still_ready) (rw b others)
          (rw (a, one.same_number) some_worker) in
      omega (arith, rest, counted)

  nobody-arriving :
      (counter : ℕ) (d : DialogDispatcher) (i : ℕ) (ws : List BlfWatcher)
      → is_empty ws ≡ true
      → (arriving hash now d i (triggers counter now event callers ws) ≡ []) × (length ws ≡ 0)
  unfolding arriving triggers
  nobody-arriving counter d i [] h = (refl, refl)
  nobody-arriving counter d i (w ∷ ws) h = ground (arith, h)

-- The watchers that an event concerns: those of the callee, then those of the caller.
abbrev pub concerned : CallStateEvent → BlfSubscriptionIndex → List BlfWatcher
concerned event index = lookup event.callee_uri index ++ lookup event.caller_uri index

-- If the event is valid, the dispatcher runs, the watchers' dialogs are valid and every worker
-- has room for a trigger to each watcher, then processing the event puts one trigger for each
-- watcher, in the watchers' order, behind the queue of the worker that is its dialog's home,
-- leaves the workers' queues otherwise as they are, and counts a notification for each.
pub process_call_state_event-triggers :
    (hash : Text → ℕ) (now elapsed : ℕ) (index : BlfSubscriptionIndex) (event : CallStateEvent)
    (stats : RouterStats) (o : Outside) (i : ℕ)
    → event.is_valid ≡ true
    → Ready (length (concerned event index)) o.dispatcher
    → all_dialogs_valid
        (triggers o.event_counter now event (lookup event.caller_uri index) (concerned event index))
      ≡ true
    → 1 ≤ length o.dispatcher.workers
    → let (stats', o') = process_call_state_event hash now elapsed index event (stats, o) in
      (queue_of i o'.dispatcher
        ≡ queue_of i o.dispatcher
          ++ arriving hash now o.dispatcher i (
              triggers o.event_counter now event
                (lookup event.caller_uri index)
                (concerned event index)))
      × (stats'.notifications_generated
          ≡ stats.notifications_generated + length (concerned event index))
unfolding process_call_state_event
process_call_state_event-triggers hash now elapsed index event stats o i valid r v some_worker =
    let callers = lookup event.caller_uri index in
    let ws = concerned event index in
    let sent = triggers o.event_counter now event callers ws in
    let counts = route_all-counts hash now event callers ws stats o r v some_worker in
    let sends = route_all-dispatches hash now event callers ws stats o in
    let ready : Ready (length sent) o.dispatcher =
      rw (length-triggers hash now event callers o.event_counter ws) r in
    let queues = dispatch_all-queues hash now sent o.dispatcher i ready v some_worker in
    elim (Bool-cases (is_empty ws)) [
      | inl none ↦
          let (nothing, no_watcher) =
            nobody-arriving hash now event callers o.event_counter o.dispatcher i ws none in
          simp (process_call_state_event, valid, none)
            (rw (nothing, append-nil (queue_of i o.dispatcher)) refl, omega (arith, no_watcher))
      | inr some_watcher ↦
          simp (process_call_state_event, valid, some_watcher)
            (ap (queue_of i) sends ∙ queues, counts)
    ]
