-- ===== src/Dispatch/Worker/Lifecycle.antt =====
-- How the processing of one event moves the lifecycle of a subscription.
use sip_event_processor.Prelude.{
  ℕ, ◌≡◌, refl, ◌⊎◌, inl, inr, true, not, Text, codes, arith, Bool-cases, if◌then◌else◌,
}
use sip_event_processor.Types.{type_eq, is_presence_feed, SubscriptionType, SubLifecycle}
use sip_event_processor.Sip.Event.{SipEvent, create_presence_trigger}
use sip_event_processor.Subscription.Record.{SubscriptionRecord}
use sip_event_processor.Subscription.Blf
use sip_event_processor.Subscription.Blf.{NotifyAction}
use sip_event_processor.Subscription.Mwi
use sip_event_processor.Dispatch.Worker.State.{Scene}
use sip_event_processor.Dispatch.Worker.Send.{
  send_subscribe_response, send_sip_notify, send_initial_notify, send_final_notify,
  handle_notify_response,
}
use sip_event_processor.Dispatch.Worker.Events.{
  process_presence_trigger, process_sip_event, handle_event, answer_unsubscribe, ends_subscription,
  is_incoming_subscribe, is_notify_response, terminate_dialog, activate_dialog, refresh_dialog,
  save_dirty, follow_lifecycle, begin_event, finish_event, process_event,
}

abbrev lifecycle_of : Scene → SubLifecycle
lifecycle_of s = s.ctx.rec.lifecycle

lifecycle-send_subscribe_response :
    (event : SipEvent) (status : ℕ) (phrase : Text) (s : Scene)
    → lifecycle_of (send_subscribe_response event status phrase s) ≡ lifecycle_of s
unfolding send_subscribe_response
lifecycle-send_subscribe_response event status phrase s = ground arith

lifecycle-send_sip_notify :
    (content_type body sub_state : Text) (s : Scene)
    → lifecycle_of (send_sip_notify content_type body sub_state s) ≡ lifecycle_of s
unfolding send_sip_notify
lifecycle-send_sip_notify content_type body sub_state s = ground arith

lifecycle-send_initial_notify : (s : Scene) → lifecycle_of (send_initial_notify s) ≡ lifecycle_of s
unfolding send_initial_notify send_sip_notify
lifecycle-send_initial_notify s = ground arith

lifecycle-send_final_notify :
    (version : ℕ) (s : Scene) → lifecycle_of (send_final_notify version s) ≡ lifecycle_of s
unfolding send_final_notify send_sip_notify
lifecycle-send_final_notify version s = ground arith

lifecycle-answer_unsubscribe :
    (event : SipEvent) (s : Scene) → lifecycle_of (answer_unsubscribe event s) ≡ lifecycle_of s
unfolding answer_unsubscribe
lifecycle-answer_unsubscribe event s =
    elim (Bool-cases (type_eq s1.ctx.rec.type SubscriptionType.blf)) [
      | inl e ↦
          rw (e, lifecycle-send_final_notify) (lifecycle-send_subscribe_response event 200 _ s)
      | inr e ↦
          rw (e, lifecycle-send_final_notify) (lifecycle-send_subscribe_response event 200 _ s)
    ]
  where
    s1 : Scene
    s1 = send_subscribe_response event 200 (codes "OK") s

lifecycle-terminate_dialog :
    (did : Text) (event : SipEvent) (s : Scene)
    → lifecycle_of (terminate_dialog did event s) ≡ SubLifecycle.terminated
unfolding terminate_dialog
lifecycle-terminate_dialog did event s = elim (Bool-cases (is_incoming_subscribe event)) [
  | inl e ↦ rw e (lifecycle-answer_unsubscribe event _)
  | inr e ↦ rw e refl
]

lifecycle-activate_dialog :
    (did : Text) (event : SipEvent) (s : Scene)
    → lifecycle_of (activate_dialog did event s) ≡ lifecycle_of s
unfolding activate_dialog
lifecycle-activate_dialog did event s = elim (Bool-cases (is_incoming_subscribe event)) [
  | inl e ↦
      rw (e, lifecycle-send_initial_notify)
        (lifecycle-send_subscribe_response event 200 (codes "OK") _)
  | inr e ↦ rw e refl
]

lifecycle-refresh_dialog :
    (event : SipEvent) (s : Scene) → lifecycle_of (refresh_dialog event s) ≡ lifecycle_of s
unfolding refresh_dialog
lifecycle-refresh_dialog event s = lifecycle-send_subscribe_response event 200 (codes "OK") s

lifecycle-save_dirty : (s : Scene) → lifecycle_of (save_dirty s) ≡ lifecycle_of s
unfolding save_dirty
lifecycle-save_dirty s = ground arith

-- An event that ends the subscription terminates it; any other leaves the lifecycle as the
-- handlers left it.
pub lifecycle-follow :
    (did : Text) (prev : SubLifecycle) (event : SipEvent) (s : Scene)
    → lifecycle_of (follow_lifecycle did prev event s)
      ≡ (if ends_subscription event then SubLifecycle.terminated else lifecycle_of s)
unfolding follow_lifecycle
lifecycle-follow did prev event s = ground (
  arith,
  lifecycle-terminate_dialog did event s,
  lifecycle-activate_dialog did event s,
  lifecycle-refresh_dialog event s,
  lifecycle-save_dirty s,
)

-- What the handlers may do to a lifecycle. `terminating` is left again in the same event.
abbrev pub HandlerMove : SipEvent → SubLifecycle → SubLifecycle → Type 0
HandlerMove event l l' =
    (l' ≡ l)
    ⊎ ((l ≡ SubLifecycle.pending) × (l' ≡ SubLifecycle.active))
    ⊎ (l' ≡ SubLifecycle.terminated)
    ⊎ ((l' ≡ SubLifecycle.terminating) × (ends_subscription event ≡ true))

Blf-process-Move :
    (now : ℕ) (event : SipEvent) (rec : SubscriptionRecord)
    → HandlerMove event rec.lifecycle (Blf.process now event rec).0.lifecycle
unfolding Blf.process ends_subscription
Blf-process-Move now event rec = ground arith

Mwi-process-Move :
    (now : ℕ) (event : SipEvent) (rec : SubscriptionRecord)
    → HandlerMove event rec.lifecycle (Mwi.process now event rec).0.lifecycle
unfolding Mwi.process ends_subscription
Mwi-process-Move now event rec = ground arith

process_sip_event-Move :
    (now : ℕ) (event : SipEvent) (rec : SubscriptionRecord)
    → HandlerMove event rec.lifecycle (process_sip_event now event rec).lifecycle
unfolding process_sip_event
process_sip_event-Move now event rec = ground (
  arith,
  Blf-process-Move now event rec,
  Mwi-process-Move now event rec,
  Blf-process-Move now event (record rec { type = SubscriptionType.blf }),
  Mwi-process-Move now event (record rec { type = SubscriptionType.mwi }),
)

lifecycle-Blf_trigger :
    (now : ℕ) (event : SipEvent) (rec : SubscriptionRecord) (version : ℕ)
    → (Blf.process_presence_trigger now event rec version).1.lifecycle ≡ rec.lifecycle
unfolding Blf.process_presence_trigger
lifecycle-Blf_trigger now event rec version = ground arith

pub lifecycle-process_presence_trigger :
    (now : ℕ) (event : SipEvent) (s : Scene)
    → lifecycle_of (process_presence_trigger now event s) ≡ lifecycle_of s
unfolding process_presence_trigger
lifecycle-process_presence_trigger now event s = elim (Bool-cases (not action.should_notify)) [
  | inl e ↦ rw e (lifecycle-Blf_trigger now event s.ctx.rec s.shared.notify_version)
  | inr e ↦
      rw (e, lifecycle-send_sip_notify)
        (lifecycle-Blf_trigger now event s.ctx.rec s.shared.notify_version)
]
  where
    action : NotifyAction
    action = (Blf.process_presence_trigger now event s.ctx.rec s.shared.notify_version).0

handle_notify_response-Move :
    (did : Text) (event : SipEvent) (s : Scene)
    → HandlerMove event (lifecycle_of s) (lifecycle_of (handle_notify_response did event s))
unfolding handle_notify_response
handle_notify_response-Move did event s = ground arith

handle_event-Move :
    (did : Text) (now : ℕ) (event : SipEvent) (s : Scene)
    → HandlerMove event (lifecycle_of s) (lifecycle_of (handle_event did now event s))
unfolding handle_event
handle_event-Move did now event s = elim (Bool-cases (is_notify_response event)) [
  | inl e ↦ rw e (handle_notify_response-Move did event s)
  | inr e ↦ rw e (elim (Bool-cases (is_presence_feed event.source)) [
    | inl p ↦ rw p (inl (lifecycle-process_presence_trigger now event s))
    | inr p ↦ rw p (process_sip_event-Move now event s.ctx.rec)
  ])
]

-- Processing an event, whichever it is, leaves the lifecycle of its dialog as it was, or makes a
-- pending subscription active, or terminates it. So a terminated subscription stays terminated,
-- and no event leaves a subscription `Terminating` that was not so before.
pub process_event-lifecycle :
    (warn : ℕ) (did : Text) (now elapsed : ℕ) (event : SipEvent) (s : Scene)
    → let l = s.ctx.rec.lifecycle in
      let l' = (process_event warn did now elapsed event s).ctx.rec.lifecycle in
      (l' ≡ l)
      ⊎ ((l ≡ SubLifecycle.pending) × (l' ≡ SubLifecycle.active))
      ⊎ (l' ≡ SubLifecycle.terminated)
unfolding process_event finish_event begin_event
process_event-lifecycle warn did now elapsed event s = ground (
  arith,
  handle_event-Move did now event (begin_event now s),
  lifecycle-follow did s.ctx.rec.lifecycle event (handle_event did now event (begin_event now s)),
)

-- Processing an event whose Expires value is 0 (as it is without that header), or whose
-- Subscription-State is terminated, terminates the subscription of its dialog.
pub process_event-ends :
    (warn : ℕ) (did : Text) (now elapsed : ℕ) (event : SipEvent) (s : Scene)
    → ends_subscription event ≡ true
    → (process_event warn did now elapsed event s).ctx.rec.lifecycle ≡ SubLifecycle.terminated
unfolding process_event finish_event
process_event-ends warn did now elapsed event s e = ground (
  arith,
  lifecycle-follow did (begin_event now s).ctx.rec.lifecycle event
      (handle_event did now event (begin_event now s)),
)

-- An event that `create_presence_trigger` makes, whatever call and state it tells of, terminates
-- the subscription of the dialog for which it is processed.
pub presence_trigger-terminates :
    (warn : ℕ) (did : Text) (now elapsed id : ℕ)
    (tenant call_id caller callee blf_state direction xml : Text) (s : Scene)
    → (process_event warn did now elapsed
        (create_presence_trigger now id did tenant call_id caller callee blf_state direction xml)
        s).ctx.rec.lifecycle
      ≡ SubLifecycle.terminated
unfolding create_presence_trigger ends_subscription
presence_trigger-terminates warn did now elapsed id tenant call_id caller callee blf_state direction
      xml s =
    process_event-ends warn did now elapsed
      (create_presence_trigger now id did tenant call_id caller callee blf_state direction xml) s
      (ground arith)
