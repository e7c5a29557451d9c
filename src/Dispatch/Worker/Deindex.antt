-- ===== src/Dispatch/Worker/Deindex.antt =====
-- When the BLF index follows the end of a subscription, and when it does not.
use sip_event_processor.Prelude.{
  ℕ, ◌≡◌, ◌≢◌, ◌∙◌, inl, inr, Bool, true, false, refl, Text, codes, text_eq_iff, arith, Bool-cases,
  if◌then◌else◌,
}
use sip_event_processor.Types.{
  type_eq, lifecycle_eq, SubscriptionType, SubLifecycle, SipEventCategory, SipDirection,
  SipEventSource,
}
use sip_event_processor.Sip.Event.{SipEvent}
use sip_event_processor.Subscription.Record.{SubscriptionRecord}
use sip_event_processor.Subscription.Index.{BlfSubscriptionIndex, remove_dialog}
use sip_event_processor.Subscription.Blf
use sip_event_processor.Dispatch.World.{
  World, delete_later, persist_record, deindex_blf_subscription,
}
use sip_event_processor.Dispatch.Worker.State.{Scene, set_rec, set_world}
use sip_event_processor.Dispatch.Worker.Send.{
  send_subscribe_response, send_sip_notify, send_final_notify,
}
use sip_event_processor.Dispatch.Worker.Lifecycle.{process_event-ends}
use sip_event_processor.Dispatch.Worker.Events.{
  process_sip_event, handle_event, answer_unsubscribe, ends_subscription, is_incoming_subscribe,
  terminate_dialog, follow_lifecycle, begin_event, finish_event, process_event,
}

abbrev pub index_of : Scene → BlfSubscriptionIndex
index_of s = s.shared.world.index

index-send_subscribe_response :
    (event : SipEvent) (status : ℕ) (phrase : Text) (s : Scene)
    → index_of (send_subscribe_response event status phrase s) ≡ index_of s
unfolding send_subscribe_response
index-send_subscribe_response event status phrase s = ground arith

index-send_final_notify :
    (version : ℕ) (s : Scene) → index_of (send_final_notify version s) ≡ index_of s
unfolding send_final_notify send_sip_notify
index-send_final_notify version s = ground arith

index-answer_unsubscribe :
    (event : SipEvent) (s : Scene) → index_of (answer_unsubscribe event s) ≡ index_of s
unfolding answer_unsubscribe
index-answer_unsubscribe event s =
    elim (Bool-cases (type_eq s1.ctx.rec.type SubscriptionType.blf)) [
      | inl e ↦ rw (e, index-send_final_notify) (index-send_subscribe_response event 200 _ s)
      | inr e ↦ rw (e, index-send_final_notify) (index-send_subscribe_response event 200 _ s)
    ]
  where
    s1 : Scene
    s1 = send_subscribe_response event 200 (codes "OK") s

index-persist_record :
    (rec : SubscriptionRecord) (immediate : Bool) (w : World)
    → (persist_record rec immediate w).index ≡ w.index
unfolding persist_record
index-persist_record rec immediate w = ground arith

index-delete_later : (did : Text) (w : World) → (delete_later did w).index ≡ w.index
index-delete_later did w = ground arith

-- The record is saved and its deletion queued.
index-save :
    (did : Text) (s : Scene)
    → index_of (set_world (delete_later did (persist_record s.ctx.rec true s.shared.world)) s)
      ≡ index_of s
index-save did s =
    index-delete_later did (persist_record s.ctx.rec true s.shared.world)
    ∙ index-persist_record s.ctx.rec true s.shared.world

index-answer_if :
    (b : Bool) (event : SipEvent) (s : Scene)
    → index_of (if b then answer_unsubscribe event s else s) ≡ index_of s
index-answer_if true event s = index-answer_unsubscribe event s
index-answer_if false event s = refl

index-if : (b : Bool) (v w : World) → (if b then v else w).index ≡ (if b then v.index else w.index)
index-if true v w = refl
index-if false v w = refl

-- The branch that terminates takes a BLF dialog out of the index, unless the handlers have already
-- terminated it.
pub index-terminate_dialog :
    (did : Text) (event : SipEvent) (s : Scene)
    → index_of (terminate_dialog did event s) ≡ (
        if lifecycle_eq s.ctx.rec.lifecycle SubLifecycle.terminated
        then index_of s
        else (deindex_blf_subscription did s.ctx.rec s.shared.world).index)
unfolding terminate_dialog
index-terminate_dialog did event s =
    index-save did (if is_incoming_subscribe event then answer_unsubscribe event s1 else s1)
    ∙ index-answer_if (is_incoming_subscribe event) event s1
    ∙ index-if (lifecycle_eq s.ctx.rec.lifecycle SubLifecycle.terminated) s.shared.world
        (deindex_blf_subscription did s.ctx.rec s.shared.world)
  where
    s1 : Scene
    s1 =
        set_world
          (if lifecycle_eq s.ctx.rec.lifecycle SubLifecycle.terminated
            then s.shared.world
            else deindex_blf_subscription did s.ctx.rec s.shared.world)
          (set_rec (record s.ctx.rec { lifecycle = SubLifecycle.terminated }) s)

-- A NOTIFY of the notifier's side that reports the end of the subscription.
pub record ReportsEnd (event : SipEvent) : Type 0 where
  pub category : event.category ≡ SipEventCategory.notify
  pub direction : event.direction ≡ SipDirection.incoming
  pub source : event.source ≡ SipEventSource.sip_stack
  pub substate : event.subscription_state ≡ codes "terminated"

handle_event-ReportsEnd :
    (did : Text) (now : ℕ) (event : SipEvent) (s : Scene)
    → ReportsEnd event
    → s.ctx.rec.type ≡ SubscriptionType.blf
    → ((handle_event did now event s).ctx.rec.lifecycle ≡ SubLifecycle.terminated)
      × (index_of (handle_event did now event s) ≡ index_of s)
unfolding handle_event process_sip_event Blf.process
handle_event-ReportsEnd did now event s r blf =
    ground (arith, text_eq_iff event.subscription_state (codes "terminated"))

-- Processing an incoming NOTIFY with Subscription-State terminated, for a BLF dialog, terminates
-- the subscription and leaves the index as it was, with the dialog in it if it was there.
pub reported_end-index :
    (warn : ℕ) (did : Text) (now elapsed : ℕ) (event : SipEvent) (s : Scene)
    → ReportsEnd event
    → s.ctx.rec.type ≡ SubscriptionType.blf
    → let s' = process_event warn did now elapsed event s in
      (s'.ctx.rec.lifecycle ≡ SubLifecycle.terminated)
      × (s'.shared.world.index ≡ s.shared.world.index)
unfolding process_event finish_event follow_lifecycle ends_subscription begin_event
reported_end-index warn did now elapsed event s r blf = (
  process_event-ends warn did now elapsed event s
      (ground (arith, r.substate, text_eq_iff event.subscription_state (codes "terminated"))),
  ground (
    arith,
    r.substate,
    text_eq_iff event.subscription_state (codes "terminated"),
    handle_event-ReportsEnd did now event (begin_event now s) r,
    index-terminate_dialog did event (handle_event did now event (begin_event now s)),
  ),
)

-- Unless the handlers have terminated it, a BLF dialog whose event ends the subscription is taken
-- out of the index.
pub process_event-deindexes :
    (warn : ℕ) (did : Text) (now elapsed : ℕ) (event : SipEvent) (s : Scene)
    → ends_subscription event ≡ true
    → (handle_event did now event (begin_event now s)).ctx.rec.type ≡ SubscriptionType.blf
    → (handle_event did now event (begin_event now s)).ctx.rec.lifecycle ≢ SubLifecycle.terminated
    → (process_event warn did now elapsed event s).shared.world.index
      ≡ remove_dialog did (index_of (handle_event did now event (begin_event now s)))
unfolding process_event finish_event follow_lifecycle deindex_blf_subscription
process_event-deindexes warn did now elapsed event s e blf live =
    ground
      (arith, index-terminate_dialog did event (handle_event did now event (begin_event now s)))
