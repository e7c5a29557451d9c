-- ===== src/Subscription/Mwi.antt =====
-- MwiProcessor of include/subscription/mwi_processor.h and src/subscription/mwi_processor.cpp.
pub mod Summary
use sip_event_processor.Prelude.{
  ℕ, ◌+◌, ◌&&◌, ◌||◌, codes, text_eq, is_empty, ltb, leb, ◌==◌, if◌then◌else◌,
}
use sip_event_processor.Types.{
  Result, ok, invalid_argument, SubLifecycle, SipEventCategory, lifecycle_eq, is_incoming, seconds,
}
use sip_event_processor.Sip.Event.{SipEvent}
use sip_event_processor.Subscription.Record.{SubscriptionRecord}
use sip_event_processor.Subscription.Mwi.Summary.{MessageSummary, parse_message_summary}

unfoldable pub update_mwi_state : SubscriptionRecord → MessageSummary → SubscriptionRecord
update_mwi_state rec summary = record rec {
  mwi_new_messages = summary.new_messages;
  mwi_old_messages = summary.old_messages;
  mwi_account_uri = if is_empty summary.account then rec.mwi_account_uri else summary.account;
}

unfoldable pub apply_summary : SipEvent → SubscriptionRecord → SubscriptionRecord
unfolding update_mwi_state
apply_summary event rec =
    let summary = parse_message_summary event.body in
    if summary.valid then update_mwi_state rec summary else rec

unfoldable pub handle_subscribe : ℕ → SipEvent → SubscriptionRecord → SubscriptionRecord × Result
handle_subscribe now event rec =
    let r1 : SubscriptionRecord = record rec {
      mwi_account_uri = if is_empty event.to_uri then rec.mwi_account_uri else event.to_uri;
    } in
    if event.expires == 0 then (record r1 { lifecycle = SubLifecycle.terminating }, ok) else (
      record r1 {
        expires_at = if ltb 0 event.expires then now + seconds event.expires else r1.expires_at;
        cseq = if ltb 0 event.cseq then event.cseq else r1.cseq;
        lifecycle =
            if lifecycle_eq r1.lifecycle SubLifecycle.pending
            then SubLifecycle.active
            else r1.lifecycle;
      },
      ok,
    )

unfoldable pub handle_notify : SipEvent → SubscriptionRecord → SubscriptionRecord × Result
unfolding apply_summary
handle_notify event rec =
    let r1 = apply_summary event rec in
    if is_empty event.body
    then (rec, ok)
    else if text_eq event.subscription_state (codes "terminated")
    then (record r1 { lifecycle = SubLifecycle.terminated }, ok)
    else (r1, ok)

unfoldable pub handle_subscribe_response :
    ℕ → SipEvent → SubscriptionRecord → SubscriptionRecord × Result
handle_subscribe_response now event rec =
    if leb 200 event.status && ltb event.status 300
    then (
      record rec {
        lifecycle =
            if lifecycle_eq rec.lifecycle SubLifecycle.pending
            then SubLifecycle.active
            else rec.lifecycle;
        expires_at = if ltb 0 event.expires then now + seconds event.expires else rec.expires_at;
      },
      ok,
    )
    else if event.status == 481 || event.status == 489 || event.status == 403
    then (record rec { lifecycle = SubLifecycle.terminated }, ok)
    else (rec, ok)

unfoldable pub handle_publish : SipEvent → SubscriptionRecord → SubscriptionRecord × Result
unfolding apply_summary
handle_publish event rec = (if is_empty event.body then rec else apply_summary event rec, ok)

unfoldable pub process : ℕ → SipEvent → SubscriptionRecord → SubscriptionRecord × Result
unfolding handle_subscribe handle_subscribe_response handle_notify handle_publish
process now event rec = elim event.category [
  | SipEventCategory.subscribe ↦
      if is_incoming event.direction
      then handle_subscribe now event rec
      else handle_subscribe_response now event rec
  | SipEventCategory.notify ↦ handle_notify event rec
  | SipEventCategory.publish ↦ handle_publish event rec
  | SipEventCategory.presence_trigger ↦ (rec, invalid_argument)
  | SipEventCategory.unknown ↦ (rec, invalid_argument)
]
