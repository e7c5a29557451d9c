-- ===== src/Http/Stats/Summary.antt =====
-- The summary that StatsHandler gives, as a JSON value.
use sip_event_processor.Prelude.{
  true, ℕ, String, ◌≡◌, refl, ap, ◌∙◌, false, Option, none, some, ◌++◌, Text, codes,
}
use sip_event_processor.Types.{SubscriptionType}
use sip_event_processor.Subscription.Registry.{total_count, count_by_type}
use sip_event_processor.Subscription.Index.{monitored_uri_count, total_watcher_count}
use sip_event_processor.Dispatch.Dispatcher.{DialogDispatcher, aggregate_stats}
use sip_event_processor.Http.Json.{
  Json, num, bool, obj, Fields, end, field, emit, emit_fields, raw_print,
}
use sip_event_processor.Http.Json.Escape.{is_plain, plain_fields}
use sip_event_processor.SlowEventLogger.{SlowEventLogger}
use sip_event_processor.Dispatch.Reaper.{ReaperStats}
use sip_event_processor.Persistence.Client.{MongoClient}
use sip_event_processor.Persistence.Store.{StoreStats}
use sip_event_processor.Http.Stats.{
  Dependencies, with_body, when_there, dispatcher_part, tables_part, reaper_part, slow_part,
  mongo_part, store_part, handle_stats,
}

abbrev pub count : String → ℕ → Fields → Fields
count k n fs = field (codes k) (num n) fs

abbrev pub optional {ℓ} : {A : Type ℓ} → Option A → (A → Fields → Fields) → Fields → Fields
optional none part fs = fs
optional (some a) part fs = part a fs

abbrev reaper_field : ReaperStats × ℕ → Fields → Fields
reaper_field r = field (codes "reaper") (
    obj (
      count "scans" r.0.scan_count (
        count "expired" r.0.expired_reaped
          (count "stuck" r.0.stuck_reaped (count "last_scan_ms" r.1 end)))))

abbrev slow_field : SlowEventLogger → Fields → Fields
slow_field l = field (codes "slow_events") (
    obj (
      count "warn_count" l.stats.warn_count (
        count "error_count" l.stats.error_count (
          count "critical_count" l.stats.critical_count (
            count "max_duration_ms" l.stats.max_duration_ms (
              count "warn_threshold_ms" l.warn_ms (
                count "error_threshold_ms" l.error_ms
                  (count "critical_threshold_ms" l.critical_ms end))))))))

abbrev mongo_field : MongoClient → Fields → Fields
mongo_field m = field (codes "mongodb") (
    obj (
      field (codes "connected") (bool m.connected)
        (count "operations" m.operations (count "errors" m.errors end))))

abbrev store_field : StoreStats → Fields → Fields
store_field ss = field (codes "persistence") (
    obj (
      count "upserts" ss.upserts (
        count "deletes" ss.deletes (
          count "loads" ss.loads (
            count "errors" ss.errors
              (count "batch_writes" ss.batch_writes (count "queue_depth" ss.queue_depth end)))))))

unfoldable pub stats_json : DialogDispatcher → Dependencies → Json
stats_json dispatcher d =
    let agg = aggregate_stats dispatcher in
    obj (
      field (codes "dispatcher")
        (obj (
          count "events_received" agg.total_events_received (
            count "events_processed" agg.total_events_processed (
              count "events_dropped" agg.total_events_dropped (
                count "presence_triggers" agg.total_presence_triggers (
                  count "dialogs_active" agg.total_dialogs_active (
                    count "dialogs_reaped" agg.total_dialogs_reaped (
                      count "max_queue_depth" agg.max_queue_depth
                        (count "slow_events" agg.total_slow_events end)))))))))
        (field (codes "subscriptions")
          (obj (
            count "total" (total_count d.registry) (
              count "blf" (count_by_type SubscriptionType.blf d.registry)
                (count "mwi" (count_by_type SubscriptionType.mwi d.registry) end))))
          (field (codes "blf_index")
            (obj (
              count "monitored_uris" (monitored_uri_count d.index)
                (count "total_watchers" (total_watcher_count d.index) end)))
            (optional d.reaper reaper_field (
              optional d.slow_logger slow_field
                (optional d.mongo mongo_field (optional d.sub_store store_field end)))))))

pub optional-emit {ℓ} :
    {A : Type ℓ} (o : Option A) (part : A → Text → Text) (json : A → Fields → Fields) (fs : Fields)
    (rest : Text)
    → ((a : A) → part a (emit_fields fs false rest) ≡ emit_fields (json a fs) false rest)
    → when_there o part (emit_fields fs false rest) ≡ emit_fields (optional o json fs) false rest
optional-emit none part json fs rest h = refl
optional-emit (some a) part json fs rest h = h a

-- The parts behind the tables.
stats_tail-emit :
    (d : Dependencies) (rest : Text)
    → when_there d.reaper reaper_part (
        when_there d.slow_logger slow_part
          (when_there d.mongo mongo_part (when_there d.sub_store store_part rest)))
      ≡ emit_fields
          (optional d.reaper reaper_field (
            optional d.slow_logger slow_field
              (optional d.mongo mongo_field (optional d.sub_store store_field end))))
          false
          rest
unfolding emit codes reaper_part slow_part mongo_part store_part
stats_tail-emit d rest =
    let store = optional-emit d.sub_store store_part store_field end rest (λ _. refl) in
    let fs1 = optional d.sub_store store_field end in
    let mongo = optional-emit d.mongo mongo_part mongo_field fs1 rest (λ _. refl) in
    let fs2 = optional d.mongo mongo_field fs1 in
    let slow = optional-emit d.slow_logger slow_part slow_field fs2 rest (λ _. refl) in
    let fs3 = optional d.slow_logger slow_field fs2 in
    let reaper = optional-emit d.reaper reaper_part reaper_field fs3 rest (λ _. refl) in
    ap
      (λ t.
        when_there d.reaper reaper_part
          (when_there d.slow_logger slow_part (when_there d.mongo mongo_part t)))
      store
    ∙ ap (λ t. when_there d.reaper reaper_part (when_there d.slow_logger slow_part t)) mongo
    ∙ ap (when_there d.reaper reaper_part) slow
    ∙ reaper

pub stats-print :
    (dispatcher : DialogDispatcher) (d : Dependencies)
    → d.dispatcher ≡ some dispatcher
    → handle_stats d ≡ with_body (raw_print (stats_json dispatcher d))
unfolding handle_stats stats_json raw_print codes emit
stats-print dispatcher d there = rw there (
    ap (λ t. with_body (codes "{" ++ dispatcher_part dispatcher (tables_part d.registry d.index t)))
      (stats_tail-emit d (codes "}")))

optional-plain {ℓ} :
    {A : Type ℓ} (o : Option A) (json : A → Fields → Fields) (fs : Fields)
    → plain_fields fs ≡ true
    → ((a : A) → plain_fields (json a fs) ≡ plain_fields fs)
    → plain_fields (optional o json fs) ≡ true
optional-plain none json fs h k = h
optional-plain (some a) json fs h k = k a ∙ h

-- The summary has no string but its names.
pub stats-plain :
    (dispatcher : DialogDispatcher) (d : Dependencies) → is_plain (stats_json dispatcher d) ≡ true
unfolding stats_json is_plain codes
stats-plain dispatcher d =
    let fs1 = optional d.sub_store store_field end in
    let store = optional-plain d.sub_store store_field end refl (λ _. refl) in
    let fs2 = optional d.mongo mongo_field fs1 in
    let mongo = optional-plain d.mongo mongo_field fs1 store (λ _. refl) in
    let fs3 = optional d.slow_logger slow_field fs2 in
    let slow = optional-plain d.slow_logger slow_field fs2 mongo (λ _. refl) in
    optional-plain d.reaper reaper_field fs3 slow (λ _. refl)
