-- ===== src/Dispatch/Worker/Intake.antt =====
-- What comes into the worker: `enqueue` and `force_terminate`, which other threads call, the
-- pending terminates of a round, the acceptance of a new subscription and the distribution of the
-- events to their dialogs.
use sip_event_processor.Prelude.{
  ℕ, ◌+◌, true, none, some, List, [], ◌∷◌, ◌++◌, Text, codes, length, ltb, leb, if◌then◌else◌,
}
use sip_event_processor.Prelude.Map.{find, put}
use sip_event_processor.Types.{
  Result, ok, capacity_exceeded, shutting_down, SubscriptionType, SubLifecycle, type_eq,
  is_presence_feed, seconds,
}
use sip_event_processor.Sip.Event.{SipEvent}
use sip_event_processor.Subscription.Record.{default_record}
use sip_event_processor.Subscription.Registry.{
  SubscriptionInfo, register_subscription, unregister_subscription, count_by_tenant,
}
use sip_event_processor.Dispatch.World.{
  World, respond_to_subscribe, handle_unref, sip_call, delete_later, persist_record,
  deindex_blf_subscription,
}
use sip_event_processor.Dispatch.Worker.State.{
  WorkerStats, DialogContext, Scene, Worker, set_rec, set_world, set_stats,
}
use sip_event_processor.Dispatch.Worker.Send.{send_final_notify, release_nua_handle}

abbrev pub with_stats : WorkerStats → Worker → Worker
with_stats t w = record w { shared = record w.shared { stats = t } }

abbrev pub with_world : World → Worker → Worker
with_world v w = record w { shared = record w.shared { world = v } }

unfoldable pub enqueue : SipEvent → Worker → Worker × Result
enqueue event w =
    if w.stop_requested
    then (w, shutting_down)
    else if leb w.config.max_incoming_queue_per_worker (length w.incoming_queue)
    then (
      with_stats (record w.shared.stats { events_dropped = w.shared.stats.events_dropped + 1 }) w,
      capacity_exceeded,
    )
    else (
      with_stats
          (record w.shared.stats {
            events_received = w.shared.stats.events_received + 1;
            queue_depth = length (w.incoming_queue ++ event ∷ []);
          })
          (record w { incoming_queue = w.incoming_queue ++ event ∷ [] }),
      ok,
    )

unfoldable pub force_terminate : Text → Worker → Worker × Result
force_terminate did w = (record w { pending_terminates = w.pending_terminates ++ did ∷ [] }, ok)

-- What stands in the branch of a dialog that is found.
unfoldable pub terminate_now : Text → Scene → Scene
terminate_now did s =
    let s1 =
      set_rec (record s.ctx.rec { lifecycle = SubLifecycle.terminated })
        (set_world (deindex_blf_subscription did s.ctx.rec s.shared.world) s) in
    let s2 = send_final_notify s1.ctx.rec.blf_notify_version s1 in
    let v = s2.shared.world in
    let s3 : Scene = record {
      ctx = record s2.ctx { event_queue = [] };
      shared = record s2.shared {
        world = delete_later did (record v { registry = unregister_subscription did v.registry });
      };
    } in
    let s4 = release_nua_handle s3 in
    set_stats (record s4.shared.stats { dialogs_reaped = s4.shared.stats.dialogs_reaped + 1 }) s4

unfoldable pub force_one : Text → Worker → Worker
force_one did w = elim (find did w.dialogs) [
  | none ↦ w
  | some ctx ↦
      let s = terminate_now did (record { ctx = ctx; shared = w.shared }) in
      record w { dialogs = put did s.ctx w.dialogs; shared = s.shared }
]

unfoldable pub force_all : List Text → Worker → Worker
force_all [] w = w
force_all (did ∷ rest) w = force_all rest (force_one did w)

-- The answer to a SUBSCRIBE that is rejected, and the release of its handle.
abbrev pub reject : SipEvent → ℕ → Text → Worker → Worker
reject ev status phrase w = elim ev.nua_handle [
  | none ↦ w
  | some nh ↦
      if w.shared.world.has_stack
      then with_world
          (sip_call (handle_unref nh)
            (sip_call (respond_to_subscribe nh status phrase 0) w.shared.world))
          w
      else w
]

abbrev pub new_context : ℕ → Text → SipEvent → DialogContext
new_context now did ev = record {
  rec = record (default_record now) {
    dialog_id = did;
    tenant_id = ev.tenant_id;
    type = ev.sub_type;
    lifecycle = SubLifecycle.pending;
    expires_at = if ltb 0 ev.expires then now + seconds ev.expires else 0;
    from_uri = ev.from_uri;
    from_tag = ev.from_tag;
    to_uri = ev.to_uri;
    to_tag = ev.to_tag;
    call_id = ev.call_id;
    contact_uri = ev.contact_uri;
    blf_monitored_uri = if type_eq ev.sub_type SubscriptionType.blf then ev.to_uri else [];
    mwi_account_uri = if type_eq ev.sub_type SubscriptionType.mwi then ev.to_uri else [];
  };
  event_queue = [];
  nua_handle = ev.nua_handle;
}

abbrev new_info : ℕ → ℕ → Text → SipEvent → SubscriptionInfo
new_info now index did ev = record {
  dialog_id = did;
  tenant_id = ev.tenant_id;
  type = ev.sub_type;
  lifecycle = SubLifecycle.pending;
  last_activity = now;
  worker_index = index;
}

-- The part behind the three tests. The caller has found no dialog under `did`.
unfoldable pub accept_subscription : ℕ → Text → SipEvent → Worker → Worker
accept_subscription now did ev w =
    let ctx = new_context now did ev in
    let v = w.shared.world in
    let registry = register_subscription did (new_info now w.worker_index did ev) v.registry in
    let dialogs = put did ctx w.dialogs in
    with_stats (record w.shared.stats { dialogs_active = length dialogs })
      (with_world (persist_record ctx.rec true (record v { registry = registry }))
        (record w { dialogs = dialogs }))

unfoldable pub handle_new_subscription : ℕ → Text → SipEvent → Worker → Worker
handle_new_subscription now did ev w =
    if leb w.config.max_subscriptions_per_tenant
      (count_by_tenant ev.tenant_id w.shared.world.registry)
    then reject ev 403 (codes "Forbidden") w
    else if leb w.config.max_dialogs_per_worker (length w.dialogs)
    then reject ev 503 (codes "Service Unavailable") w
    else if type_eq ev.sub_type SubscriptionType.unknown
    then reject ev 489 (codes "Bad Event") w
    else accept_subscription now did ev w

abbrev pub drop_event : Worker → Worker
drop_event w =
    with_stats (record w.shared.stats { events_dropped = w.shared.stats.events_dropped + 1 }) w

-- The event goes to its dialog's queue, if there is such a dialog.
unfoldable pub push_event : SipEvent → Worker → Worker
push_event ev w = elim (find ev.dialog_id w.dialogs) [
  | none ↦ drop_event w
  | some ctx ↦ record w {
    dialogs = put ev.dialog_id (record ctx { event_queue = ctx.event_queue ++ ev ∷ [] }) w.dialogs;
  }
]

unfoldable pub distribute_one : ℕ → SipEvent → Worker → Worker
distribute_one now ev w = elim (find ev.dialog_id w.dialogs) [
  | some _ ↦ push_event ev w
  | none ↦
      if is_presence_feed ev.source
      then drop_event w
      else push_event ev (handle_new_subscription now ev.dialog_id ev w)
]

unfoldable pub distribute : ℕ → List SipEvent → Worker → Worker
distribute now [] w = w
distribute now (ev ∷ rest) w = distribute now rest (distribute_one now ev w)
