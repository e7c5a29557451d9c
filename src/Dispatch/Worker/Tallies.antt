-- ===== src/Dispatch/Worker/Tallies.antt =====
-- What the processing of one event leaves alone: the waiting events of its dialog, and the counts
-- of processed and dropped events, of which the first then rises by one.
use sip_event_processor.Prelude.{
  ℕ, ◌+◌, ◌≡◌, ◌∙◌, refl, not, Text, List, codes, arith, Bool-cases, inl, inr,
}
use sip_event_processor.Types.{type_eq, SubscriptionType, SubLifecycle}
use sip_event_processor.Sip.Event.{SipEvent}
use sip_event_processor.Subscription.Blf
use sip_event_processor.Subscription.Blf.{NotifyAction}
use sip_event_processor.Dispatch.Worker.State.{Scene}
use sip_event_processor.Dispatch.Worker.Send.{
  send_subscribe_response, send_sip_notify, send_initial_notify, send_final_notify,
  release_nua_handle, handle_notify_response,
}
use sip_event_processor.Dispatch.Worker.Events.{
  process_presence_trigger, handle_event, answer_unsubscribe, is_incoming_subscribe,
  terminate_dialog, activate_dialog, refresh_dialog, save_dirty, follow_lifecycle, begin_event,
  finish_event, process_event,
}

pub record Tallies : Type 0 where
  pub waiting : List SipEvent
  pub processed : ℕ
  pub dropped : ℕ

abbrev pub tallies : Scene → Tallies
tallies s = record {
  waiting = s.ctx.event_queue;
  processed = s.shared.stats.events_processed;
  dropped = s.shared.stats.events_dropped;
}

tallies-send_subscribe_response :
    (event : SipEvent) (status : ℕ) (phrase : Text) (s : Scene)
    → tallies (send_subscribe_response event status phrase s) ≡ tallies s
unfolding send_subscribe_response
tallies-send_subscribe_response event status phrase s = ground arith

tallies-send_sip_notify :
    (content_type body sub_state : Text) (s : Scene)
    → tallies (send_sip_notify content_type body sub_state s) ≡ tallies s
unfolding send_sip_notify
tallies-send_sip_notify content_type body sub_state s = ground arith

tallies-send_initial_notify : (s : Scene) → tallies (send_initial_notify s) ≡ tallies s
unfolding send_initial_notify send_sip_notify
tallies-send_initial_notify s = ground arith

pub tallies-send_final_notify :
    (version : ℕ) (s : Scene) → tallies (send_final_notify version s) ≡ tallies s
unfolding send_final_notify send_sip_notify
tallies-send_final_notify version s = ground arith

pub tallies-release_nua_handle : (s : Scene) → tallies (release_nua_handle s) ≡ tallies s
unfolding release_nua_handle
tallies-release_nua_handle s = ground arith

tallies-answer_unsubscribe :
    (event : SipEvent) (s : Scene) → tallies (answer_unsubscribe event s) ≡ tallies s
unfolding answer_unsubscribe
tallies-answer_unsubscribe event s =
    elim (Bool-cases (type_eq s1.ctx.rec.type SubscriptionType.blf)) [
      | inl e ↦ rw (e, tallies-send_final_notify) (tallies-send_subscribe_response event 200 _ s)
      | inr e ↦ rw (e, tallies-send_final_notify) (tallies-send_subscribe_response event 200 _ s)
    ]
  where
    s1 : Scene
    s1 = send_subscribe_response event 200 (codes "OK") s

tallies-terminate_dialog :
    (did : Text) (event : SipEvent) (s : Scene) → tallies (terminate_dialog did event s) ≡ tallies s
unfolding terminate_dialog
tallies-terminate_dialog did event s = elim (Bool-cases (is_incoming_subscribe event)) [
  | inl e ↦ rw e (tallies-answer_unsubscribe event _)
  | inr e ↦ rw e refl
]

tallies-activate_dialog :
    (did : Text) (event : SipEvent) (s : Scene) → tallies (activate_dialog did event s) ≡ tallies s
unfolding activate_dialog
tallies-activate_dialog did event s = elim (Bool-cases (is_incoming_subscribe event)) [
  | inl e ↦
      rw e
        (tallies-send_initial_notify _ ∙ tallies-send_subscribe_response event 200 (codes "OK") _)
  | inr e ↦ rw e refl
]

tallies-follow_lifecycle :
    (did : Text) (prev : SubLifecycle) (event : SipEvent) (s : Scene)
    → tallies (follow_lifecycle did prev event s) ≡ tallies s
unfolding follow_lifecycle refresh_dialog save_dirty
tallies-follow_lifecycle did prev event s = ground (
  arith,
  tallies-terminate_dialog did event s,
  tallies-activate_dialog did event s,
  tallies-send_subscribe_response event 200 (codes "OK") s,
)

tallies-process_presence_trigger :
    (now : ℕ) (event : SipEvent) (s : Scene)
    → tallies (process_presence_trigger now event s) ≡ tallies s
unfolding process_presence_trigger
tallies-process_presence_trigger now event s = elim (Bool-cases (not action.should_notify)) [
  | inl e ↦ rw e refl
  | inr e ↦ rw e (tallies-send_sip_notify _ _ _ _)
]
  where
    action : NotifyAction
    action = (Blf.process_presence_trigger now event s.ctx.rec s.shared.notify_version).0

tallies-handle_event :
    (did : Text) (now : ℕ) (event : SipEvent) (s : Scene)
    → tallies (handle_event did now event s) ≡ tallies s
unfolding handle_event handle_notify_response
tallies-handle_event did now event s = ground (arith, tallies-process_presence_trigger now event s)

-- Processing an event leaves the waiting events and the dropped count, and adds one to the
-- processed count.
pub tallies-process_event :
    (warn : ℕ) (did : Text) (now elapsed : ℕ) (event : SipEvent) (s : Scene)
    → tallies (process_event warn did now elapsed event s)
      ≡ record (tallies s) { processed = (tallies s).processed + 1 }
unfolding process_event finish_event begin_event
tallies-process_event warn did now elapsed event s = ground (
  arith,
  tallies-handle_event did now event (begin_event now s),
  tallies-follow_lifecycle did s.ctx.rec.lifecycle event
      (handle_event did now event (begin_event now s)),
)
