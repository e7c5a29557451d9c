-- ===== src/Dispatch/Worker/Events.antt =====
-- The processing of one event of a dialog.
use sip_event_processor.Prelude.{
  ℕ, ◌+◌, ◌%◌, ◌^◌, Bool, true, false, not, ◌&&◌, ◌||◌, Text, codes, text_eq, ltb, leb, ◌==◌,
  if◌then◌else◌,
}
use sip_event_processor.Types.{
  SubscriptionType, SubLifecycle, type_eq, lifecycle_eq, is_incoming, is_subscribe, is_notify,
  is_presence_feed, seconds,
}
use sip_event_processor.Sip.Event.{SipEvent}
use sip_event_processor.SlowEventLogger.{check_and_log}
use sip_event_processor.Subscription.Record.{SubscriptionRecord, touch}
use sip_event_processor.Subscription.Blf
use sip_event_processor.Subscription.Mwi
use sip_event_processor.Dispatch.World.{
  delete_later, persist_record, index_blf_subscription, deindex_blf_subscription,
}
use sip_event_processor.Dispatch.Worker.State.{Scene, set_rec, set_world, set_stats}
use sip_event_processor.Dispatch.Worker.Send.{
  send_subscribe_response, send_sip_notify, send_initial_notify, send_final_notify,
  handle_notify_response,
}

unfoldable pub process_presence_trigger : ℕ → SipEvent → Scene → Scene
process_presence_trigger now event s =
    let (action, rec, version) =
      Blf.process_presence_trigger now event s.ctx.rec s.shared.notify_version in
    let s1 : Scene = record {
      ctx = record s.ctx { rec = rec };
      shared = record s.shared { notify_version = version };
    } in
    if not action.should_notify
    then s1
    else send_sip_notify action.content_type action.body action.subscription_state_header (
        set_rec
          (record rec {
            blf_last_notify_body = action.body;
            blf_notify_version = (rec.blf_notify_version + 1) % 2 ^ 32;
            dirty = true;
          })
          s1)

-- The switch on the record's type; the result of `process` is only logged.
unfoldable pub process_sip_event : ℕ → SipEvent → SubscriptionRecord → SubscriptionRecord
process_sip_event now event rec = elim rec.type [
  | SubscriptionType.blf ↦ (Blf.process now event rec).0
  | SubscriptionType.mwi ↦ (Mwi.process now event rec).0
  | SubscriptionType.unknown ↦ elim event.sub_type [
    | SubscriptionType.unknown ↦ rec
    | SubscriptionType.blf ↦ (Blf.process now event (record rec { type = SubscriptionType.blf })).0
    | SubscriptionType.mwi ↦ (Mwi.process now event (record rec { type = SubscriptionType.mwi })).0
  ]
]

-- What stands in front of the handlers.
unfoldable pub begin_event : ℕ → Scene → Scene
begin_event now s =
    set_rec
      (touch now (record s.ctx.rec {
        is_processing = true;
        processing_started_at = now;
        events_processed = s.ctx.rec.events_processed + 1;
      }))
      s

abbrev pub is_notify_response : SipEvent → Bool
is_notify_response event = is_notify event.category && not (is_incoming event.direction)

abbrev pub count_trigger : Scene → Scene
count_trigger s =
    set_stats
      (record s.shared.stats {
        presence_triggers_processed = s.shared.stats.presence_triggers_processed + 1;
      })
      s

unfoldable pub handle_event : Text → ℕ → SipEvent → Scene → Scene
handle_event did now event s =
    if is_notify_response event
    then handle_notify_response did event s
    else if is_presence_feed event.source
    then count_trigger (process_presence_trigger now event s)
    else set_rec (process_sip_event now event s.ctx.rec) s

abbrev pub is_incoming_subscribe : SipEvent → Bool
is_incoming_subscribe event = is_subscribe event.category && is_incoming event.direction

-- The answers to an unsubscribe. `blf_notify_version++` names the version before the increment.
unfoldable pub answer_unsubscribe : SipEvent → Scene → Scene
answer_unsubscribe event s =
    let s1 = send_subscribe_response event 200 (codes "OK") s in
    let version = s1.ctx.rec.blf_notify_version in
    send_final_notify version (
      if type_eq s1.ctx.rec.type SubscriptionType.blf
      then set_rec (record s1.ctx.rec { blf_notify_version = (version + 1) % 2 ^ 32 }) s1
      else s1)

unfoldable pub ends_subscription : SipEvent → Bool
ends_subscription event =
    text_eq event.subscription_state (codes "terminated") || event.expires == 0

-- The branch that terminates.
unfoldable pub terminate_dialog : Text → SipEvent → Scene → Scene
terminate_dialog did event s =
    let w =
      if lifecycle_eq s.ctx.rec.lifecycle SubLifecycle.terminated
      then s.shared.world
      else deindex_blf_subscription did s.ctx.rec s.shared.world in
    let s1 = set_world w (set_rec (record s.ctx.rec { lifecycle = SubLifecycle.terminated }) s) in
    let s2 = if is_incoming_subscribe event then answer_unsubscribe event s1 else s1 in
    set_world (delete_later did (persist_record s2.ctx.rec true s2.shared.world)) s2

-- The branch of a subscription that has just become active.
unfoldable pub activate_dialog : Text → SipEvent → Scene → Scene
activate_dialog did event s =
    let s1 = set_world (index_blf_subscription did s.ctx.rec s.shared.world) s in
    let s2 =
      if is_incoming_subscribe event
      then send_initial_notify (send_subscribe_response event 200 (codes "OK") s1)
      else s1 in
    set_world (persist_record s2.ctx.rec true s2.shared.world) s2

unfoldable pub refresh_dialog : SipEvent → Scene → Scene
refresh_dialog event s =
    let s1 = send_subscribe_response event 200 (codes "OK") s in
    set_world (persist_record s1.ctx.rec false s1.shared.world) s1

unfoldable pub save_dirty : Scene → Scene
save_dirty s =
    if s.ctx.rec.dirty
    then set_rec (record s.ctx.rec { dirty = false })
        (set_world (persist_record s.ctx.rec false s.shared.world) s)
    else s

-- The chain of lifecycle transitions, after the handlers; `prev` is the lifecycle before them.
unfoldable pub follow_lifecycle : Text → SubLifecycle → SipEvent → Scene → Scene
follow_lifecycle did prev event s =
    if ends_subscription event
    then terminate_dialog did event s
    else if lifecycle_eq s.ctx.rec.lifecycle SubLifecycle.active
        && lifecycle_eq prev SubLifecycle.pending
    then activate_dialog did event s
    else if is_incoming_subscribe event && lifecycle_eq s.ctx.rec.lifecycle SubLifecycle.active
    then refresh_dialog event s
    else save_dirty s

-- What stands behind them; `warn` is config_.slow_event_warn_threshold.
unfoldable pub finish_event : ℕ → ℕ → ℕ → SipEvent → Scene → Scene
finish_event warn now elapsed event s = record {
  ctx = record s.ctx {
    rec = record s.ctx.rec {
      expires_at =
          if ltb 0 event.expires && is_subscribe event.category
          then now + seconds event.expires
          else s.ctx.rec.expires_at;
      is_processing = false;
    };
  };
  shared = record s.shared {
    world = record s.shared.world {
      slow_logger = check_and_log elapsed s.shared.world.slow_logger;
    };
    stats = record s.shared.stats {
      slow_events =
          if leb warn elapsed then s.shared.stats.slow_events + 1 else s.shared.stats.slow_events;
      events_processed = s.shared.stats.events_processed + 1;
    };
  };
}

-- `warn` is the threshold of the worker's own configuration, `elapsed` what the timer measures.
unfoldable pub process_event : ℕ → Text → ℕ → ℕ → SipEvent → Scene → Scene
process_event warn did now elapsed event s =
    let s1 = begin_event now s in
    let s2 = handle_event did now event s1 in
    finish_event warn now elapsed event (follow_lifecycle did s1.ctx.rec.lifecycle event s2)
