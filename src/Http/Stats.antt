-- ===== src/Http/Stats.antt =====
-- StatsHandler of include/http/stats_handler.h and src/http/stats_handler.cpp. The stream `j` is
-- the text that is written to it; a part of a report is written in front of what follows it.
pub mod Details
pub mod Summary
pub mod Lists
pub mod Reports
use sip_event_processor.Prelude.{
  ℕ, suc, ◌+◌, Bool, true, false, Option, none, some, List, [], ◌∷◌, ◌++◌, Text, codes, length,
  to_string, int_to_string, ltb, if◌then◌else◌,
}
use sip_event_processor.Prelude.Map.{find}
use sip_event_processor.Types.{SubscriptionType, subscription_type_to_string, lifecycle_to_string}
use sip_event_processor.Config.{
  PresenceServerEndpoint, FailoverStrategy, round_robin, priority, random,
}
use sip_event_processor.Config.Load.{Settings}
use sip_event_processor.SlowEventLogger.{SlowEventLogger}
use sip_event_processor.Subscription.Registry.{
  SubscriptionInfo, SubscriptionRegistry, get_all, get_tenant_subscriptions, total_count,
  count_by_type,
}
use sip_event_processor.Subscription.Index.{
  BlfSubscriptionIndex, monitored_uri_count, total_watcher_count,
}
use sip_event_processor.Dispatch.Worker.State.{Worker}
use sip_event_processor.Dispatch.Dispatcher.{DialogDispatcher, AggregateStats, aggregate_stats}
use sip_event_processor.Dispatch.Reaper.{ReaperStats}
use sip_event_processor.Presence.TcpClient.{PresenceTcpClient, connected_server}
use sip_event_processor.Presence.Router.{PresenceEventRouter}
use sip_event_processor.Presence.Failover.{ServerHealth, PresenceFailoverManager}
use sip_event_processor.Persistence.Client.{MongoClient}
use sip_event_processor.Persistence.Store.{StoreStats}
use sip_event_processor.Http.Server.{
  Request, Response, HttpServer, default_response, responds, route,
}
use sip_event_processor.Http.Health.{bool_text}

-- What the pointers lead to, with `none` for null, and the two tables of the process. Beside the
-- reaper's counts stands the duration of its last scan; of the store its statistics are read.
pub record Dependencies : Type 0 where
  pub config : Option Settings
  pub dispatcher : Option DialogDispatcher
  pub presence_client : Option PresenceTcpClient
  pub presence_router : Option PresenceEventRouter
  pub failover_mgr : Option PresenceFailoverManager
  pub reaper : Option (ReaperStats × ℕ)
  pub mongo : Option MongoClient
  pub sub_store : Option StoreStats
  pub slow_logger : Option SlowEventLogger
  pub registry : SubscriptionRegistry
  pub index : BlfSubscriptionIndex

infixr 60 ◌<<◌
abbrev pub ◌<<◌ : Text → Text → Text
a << b = a ++ b

-- if (d.x) { ... }
abbrev pub when_there {ℓ} : {A : Type ℓ} → Option A → (A → Text → Text) → Text → Text
when_there none part rest = rest
when_there (some a) part rest = part a rest

unfoldable pub dispatcher_part : DialogDispatcher → Text → Text
dispatcher_part d rest =
    let agg = aggregate_stats d in
    codes "\"dispatcher\":{"
    << codes "\"events_received\":"
    << to_string agg.total_events_received
    << codes ",\"events_processed\":"
    << to_string agg.total_events_processed
    << codes ",\"events_dropped\":"
    << to_string agg.total_events_dropped
    << codes ",\"presence_triggers\":"
    << to_string agg.total_presence_triggers
    << codes ",\"dialogs_active\":"
    << to_string agg.total_dialogs_active
    << codes ",\"dialogs_reaped\":"
    << to_string agg.total_dialogs_reaped
    << codes ",\"max_queue_depth\":"
    << to_string agg.max_queue_depth
    << codes ",\"slow_events\":"
    << to_string agg.total_slow_events
    << codes "}"
    << rest

unfoldable pub tables_part : SubscriptionRegistry → BlfSubscriptionIndex → Text → Text
tables_part reg idx rest =
    codes ",\"subscriptions\":{"
    << codes "\"total\":"
    << to_string (total_count reg)
    << codes ",\"blf\":"
    << to_string (count_by_type SubscriptionType.blf reg)
    << codes ",\"mwi\":"
    << to_string (count_by_type SubscriptionType.mwi reg)
    << codes "}"
    << codes ",\"blf_index\":{"
    << codes "\"monitored_uris\":"
    << to_string (monitored_uri_count idx)
    << codes ",\"total_watchers\":"
    << to_string (total_watcher_count idx)
    << codes "}"
    << rest

unfoldable pub reaper_part : ReaperStats × ℕ → Text → Text
reaper_part (rs, last_scan_ms) rest =
    codes ",\"reaper\":{"
    << codes "\"scans\":"
    << to_string rs.scan_count
    << codes ",\"expired\":"
    << to_string rs.expired_reaped
    << codes ",\"stuck\":"
    << to_string rs.stuck_reaped
    << codes ",\"last_scan_ms\":"
    << to_string last_scan_ms
    << codes "}"
    << rest

unfoldable pub slow_part : SlowEventLogger → Text → Text
slow_part l rest =
    codes ",\"slow_events\":{"
    << codes "\"warn_count\":"
    << to_string l.stats.warn_count
    << codes ",\"error_count\":"
    << to_string l.stats.error_count
    << codes ",\"critical_count\":"
    << to_string l.stats.critical_count
    << codes ",\"max_duration_ms\":"
    << to_string l.stats.max_duration_ms
    << codes ",\"warn_threshold_ms\":"
    << to_string l.warn_ms
    << codes ",\"error_threshold_ms\":"
    << to_string l.error_ms
    << codes ",\"critical_threshold_ms\":"
    << to_string l.critical_ms
    << codes "}"
    << rest

unfoldable pub mongo_part : MongoClient → Text → Text
mongo_part m rest =
    codes ",\"mongodb\":{"
    << codes "\"connected\":"
    << bool_text m.connected
    << codes ",\"operations\":"
    << to_string m.operations
    << codes ",\"errors\":"
    << to_string m.errors
    << codes "}"
    << rest

unfoldable pub store_part : StoreStats → Text → Text
store_part ss rest =
    codes ",\"persistence\":{"
    << codes "\"upserts\":"
    << to_string ss.upserts
    << codes ",\"deletes\":"
    << to_string ss.deletes
    << codes ",\"loads\":"
    << to_string ss.loads
    << codes ",\"errors\":"
    << to_string ss.errors
    << codes ",\"batch_writes\":"
    << to_string ss.batch_writes
    << codes ",\"queue_depth\":"
    << to_string ss.queue_depth
    << codes "}"
    << rest

abbrev pub with_body : Text → Response
with_body body = record default_response { body = body }

unfoldable pub handle_stats : Dependencies → Response
unfolding dispatcher_part tables_part reaper_part slow_part mongo_part store_part
handle_stats d = with_body (
    codes "{"
    << when_there d.dispatcher dispatcher_part (
        tables_part d.registry d.index (
          when_there d.reaper reaper_part (
            when_there d.slow_logger slow_part
              (when_there d.mongo mongo_part (when_there d.sub_store store_part (codes "}")))))))
