-- ===== src/Dispatch/Worker/Admin.antt =====
-- The worker's start, stop and recovery, and the scan for stale subscriptions.
use sip_event_processor.Prelude.{
  ℕ, ◌+◌, Bool, true, false, not, ◌&&◌, ◌||◌, none, some, List, [], ◌∷◌, Text, is_empty, length,
  ltb, if◌then◌else◌,
}
use sip_event_processor.Prelude.Map.{Map, find, put}
use sip_event_processor.Types.{
  Result, ok, already_exists, SubscriptionType, SubLifecycle, lifecycle_eq, type_eq, seconds,
}
use sip_event_processor.Subscription.Record.{SubscriptionRecord, is_expired, is_stuck}
use sip_event_processor.Subscription.Registry.{SubscriptionInfo, register_subscription}
use sip_event_processor.Subscription.Index.{add}
use sip_event_processor.Dispatch.World.{deindex_blf_subscription}
use sip_event_processor.Dispatch.Worker.State.{DialogContext, Shared, Worker, Times}
use sip_event_processor.Dispatch.Worker.Send.{release_nua_handle}
use sip_event_processor.Dispatch.Worker.Loop.{process_dialog_queues}
use sip_event_processor.Dispatch.Worker.Intake.{with_stats, with_world}

unfoldable pub start : Worker → Worker × Result
start w =
    if w.running
    then (w, already_exists)
    else (record w { stop_requested = false; running = true }, ok)

-- The round that breaks off: a stop is requested and no event is waiting.
unfoldable pub last_round : Times → Worker → Worker
last_round times w = process_dialog_queues times w

unfoldable pub release_all : Map DialogContext → Shared → Shared
release_all [] shared = shared
release_all ((did, ctx) ∷ m) shared =
    release_all m
      (release_nua_handle (record {
        ctx = ctx;
        shared = record shared { world = deindex_blf_subscription did ctx.rec shared.world };
      })).shared

-- `stop` behind the join of the thread.
unfoldable pub finish_stop : Worker → Worker
finish_stop w = record w { running = false; dialogs = []; shared = release_all w.dialogs w.shared }

-- `emplace` leaves an entry that is there.
unfoldable pub load_recovered_subscription : SubscriptionRecord → Worker → Worker × Result
load_recovered_subscription rec w =
    let v = w.shared.world in
    let index =
      if type_eq rec.type SubscriptionType.blf && not (is_empty rec.blf_monitored_uri)
      then add rec.blf_monitored_uri rec.dialog_id rec.tenant_id v.index
      else v.index in
    let info : SubscriptionInfo = record {
      dialog_id = rec.dialog_id;
      tenant_id = rec.tenant_id;
      type = rec.type;
      lifecycle = rec.lifecycle;
      last_activity = rec.last_activity;
      worker_index = w.worker_index;
    } in
    let ctx : DialogContext = record { rec = rec; event_queue = []; nua_handle = none } in
    let dialogs = elim (find rec.dialog_id w.dialogs) as (λ x. Map DialogContext) [
      | some _ ↦ w.dialogs
      | none ↦ put rec.dialog_id ctx w.dialogs
    ] in
    (
      with_stats (record w.shared.stats { dialogs_active = length dialogs })
          (with_world
            (record v {
              index = index;
              registry = register_subscription rec.dialog_id info v.registry;
            })
            (record w { dialogs = dialogs })),
      ok,
    )

pub record StaleInfo : Type 0 where
  pub dialog_id : Text
  pub tenant_id : Text
  pub type : SubscriptionType
  pub lifecycle : SubLifecycle
  pub last_activity : ℕ
  pub is_stuck_now : Bool

abbrev pub stale_info : ℕ → ℕ → Text → SubscriptionRecord → StaleInfo
stale_info now stuck_timeout did rec = record {
  dialog_id = did;
  tenant_id = rec.tenant_id;
  type = rec.type;
  lifecycle = rec.lifecycle;
  last_activity = rec.last_activity;
  is_stuck_now = is_stuck now (seconds stuck_timeout) rec;
}

-- The tests of the loop's body, with the limits in seconds.
unfoldable pub reapable : ℕ → ℕ → ℕ → ℕ → SubscriptionRecord → Bool
reapable now blf_ttl mwi_ttl stuck_timeout rec =
    let ttl = if type_eq rec.type SubscriptionType.blf then blf_ttl else mwi_ttl in
    not (lifecycle_eq rec.lifecycle SubLifecycle.terminated)
    && (ltb (rec.last_activity + seconds ttl) now
        || is_expired now rec
        || is_stuck now (seconds stuck_timeout) rec)

unfoldable pub stale_of : ℕ → ℕ → ℕ → ℕ → Map DialogContext → List StaleInfo
stale_of now blf_ttl mwi_ttl stuck_timeout [] = []
stale_of now blf_ttl mwi_ttl stuck_timeout ((did, ctx) ∷ m) =
    let rest = stale_of now blf_ttl mwi_ttl stuck_timeout m in
    if reapable now blf_ttl mwi_ttl stuck_timeout ctx.rec
    then stale_info now stuck_timeout did ctx.rec ∷ rest
    else rest

unfoldable pub get_stale_subscriptions : ℕ → ℕ → ℕ → ℕ → Worker → List StaleInfo
get_stale_subscriptions now blf_ttl mwi_ttl stuck_timeout w =
    stale_of now blf_ttl mwi_ttl stuck_timeout w.dialogs
