-- ===== src/Http/Stats/Details.antt =====
-- The reports of StatsHandler on the workers, the presence feed, the subscriptions and the
-- configuration, and its routes.
use sip_event_processor.Prelude.{
  ℕ, ◌+◌, none, some, List, [], ◌∷◌, Text, codes, length, to_string, int_to_string, ltb,
  if◌then◌else◌,
}
use sip_event_processor.Prelude.Map.{find}
use sip_event_processor.Types.{subscription_type_to_string, lifecycle_to_string}
use sip_event_processor.Config.{PresenceServerEndpoint, FailoverStrategy, round_robin, random}
use sip_event_processor.Subscription.Registry.{SubscriptionInfo, get_all, get_tenant_subscriptions}
use sip_event_processor.Dispatch.Worker.State.{Worker}
use sip_event_processor.Presence.TcpClient.{PresenceTcpClient, connected_server}
use sip_event_processor.Presence.Router.{PresenceEventRouter}
use sip_event_processor.Presence.Failover.{ServerHealth}
use sip_event_processor.Http.Server.{
  Request, Response, HttpServer, default_response, responds, route,
}
use sip_event_processor.Http.Health.{bool_text}
use sip_event_processor.Http.Stats.{Dependencies, ◌<<◌, when_there, with_body, handle_stats}

-- if (i > 0) j << ",";
abbrev pub comma : ℕ → Text → Text
comma i rest = if ltb 0 i then codes "," << rest else rest

unfoldable pub write_workers : ℕ → List Worker → Text → Text
write_workers i [] rest = rest
write_workers i (w ∷ ws) rest =
    let s = w.shared.stats in
    comma i (
      codes "{\"index\":"
      << to_string i
      << codes ",\"events_received\":"
      << to_string s.events_received
      << codes ",\"events_processed\":"
      << to_string s.events_processed
      << codes ",\"events_dropped\":"
      << to_string s.events_dropped
      << codes ",\"presence_triggers\":"
      << to_string s.presence_triggers_processed
      << codes ",\"dialogs_active\":"
      << to_string s.dialogs_active
      << codes ",\"queue_depth\":"
      << to_string s.queue_depth
      << codes ",\"slow_events\":"
      << to_string s.slow_events
      << codes "}"
      << write_workers (i + 1) ws rest)

unfoldable pub handle_stats_workers : Dependencies → Response
unfolding write_workers
handle_stats_workers d = with_body (
    codes "{\"workers\":["
    << when_there d.dispatcher (λ dispatcher. write_workers 0 dispatcher.workers) (codes "]}"))

unfoldable pub client_part : PresenceTcpClient → Text → Text
client_part c rest =
    codes "\"client\":{"
    << codes "\"connected\":"
    << bool_text c.is_connected
    << codes ",\"server\":\""
    << connected_server c
    << codes "\""
    << codes ",\"events_received\":"
    << to_string c.stats.events_received
    << codes ",\"bytes_received\":"
    << to_string c.stats.bytes_received
    << codes ",\"connect_attempts\":"
    << to_string c.stats.connect_attempts
    << codes ",\"connect_successes\":"
    << to_string c.stats.connect_successes
    << codes ",\"disconnects\":"
    << to_string c.stats.disconnect_count
    << codes ",\"failovers\":"
    << to_string c.stats.failover_count
    << codes ",\"heartbeat_timeouts\":"
    << to_string c.stats.heartbeat_timeouts
    << codes "}"
    << rest

unfoldable pub router_part : PresenceEventRouter → Text → Text
router_part r rest =
    codes ",\"router\":{"
    << codes "\"events_received\":"
    << to_string r.stats.events_received
    << codes ",\"events_processed\":"
    << to_string r.stats.events_processed
    << codes ",\"notifications_generated\":"
    << to_string r.stats.notifications_generated
    << codes ",\"watchers_not_found\":"
    << to_string r.stats.watchers_not_found
    << codes ",\"queue_depth\":"
    << to_string r.stats.queue_depth
    << codes "}"
    << rest

unfoldable pub write_servers : ℕ → List ServerHealth → Text → Text
write_servers i [] rest = rest
write_servers i (h ∷ hs) rest = comma i (
    codes "{\"host\":\""
    << h.endpoint.host
    << codes "\""
    << codes ",\"port\":"
    << to_string h.endpoint.port
    << codes ",\"priority\":"
    << to_string h.endpoint.priority
    << codes ",\"healthy\":"
    << bool_text h.is_healthy
    << codes ",\"consecutive_failures\":"
    << to_string h.consecutive_failures
    << codes ",\"total_successes\":"
    << to_string h.total_successes
    << codes ",\"total_failures\":"
    << to_string h.total_failures
    << codes "}"
    << write_servers (i + 1) hs rest)

unfoldable pub handle_stats_presence : Dependencies → Response
unfolding client_part router_part write_servers
handle_stats_presence d = with_body (
    codes "{"
    << when_there d.presence_client client_part (
        when_there d.presence_router router_part (
          when_there d.failover_mgr
            (λ m rest. codes ",\"servers\":[" << write_servers 0 m.servers (codes "]" << rest))
            (codes "}"))))

-- The limit on the response.
abbrev pub max_reported : ℕ
max_reported = 1000

unfoldable pub write_subscriptions : ℕ → ℕ → List SubscriptionInfo → Text → Text
write_subscriptions limit i [] rest = rest
write_subscriptions limit i (s ∷ ss) rest =
    let behind = write_subscriptions limit (i + 1) ss rest in
    if ltb i limit
    then comma i (
        codes "{\"dialog_id\":\""
        << s.dialog_id
        << codes "\""
        << codes ",\"tenant_id\":\""
        << s.tenant_id
        << codes "\""
        << codes ",\"type\":\""
        << subscription_type_to_string s.type
        << codes "\""
        << codes ",\"lifecycle\":\""
        << lifecycle_to_string s.lifecycle
        << codes "\""
        << codes ",\"worker\":"
        << to_string s.worker_index
        << codes "}"
        << behind)
    else rest

abbrev pub reported : Request → Dependencies → List SubscriptionInfo
reported req d = elim (find (codes "tenant") req.query_params) [
  | some tenant ↦ get_tenant_subscriptions tenant d.registry
  | none ↦ get_all d.registry
]

unfoldable pub handle_subscriptions : Request → Dependencies → Response
unfolding write_subscriptions
handle_subscriptions req d =
    let subs = reported req d in
    with_body (
      codes "{\"count\":"
      << to_string (length subs)
      << codes ",\"subscriptions\":["
      << write_subscriptions max_reported 0 subs (
          (if ltb max_reported (length subs) then codes "],\"truncated\":true" else codes "]")
          << codes "}"))

unfoldable pub write_endpoints : ℕ → List PresenceServerEndpoint → Text → Text
write_endpoints i [] rest = rest
write_endpoints i (e ∷ es) rest = comma i (
    codes "\""
    << e.host
    << codes ":"
    << to_string e.port
    << codes "\""
    << write_endpoints (i + 1) es rest)

unfoldable pub strategy_text : FailoverStrategy → Text
strategy_text round_robin = codes "round_robin"
strategy_text FailoverStrategy.priority = codes "priority"
strategy_text random = codes "random"

unfoldable pub handle_config : Dependencies → Response
unfolding write_endpoints strategy_text
handle_config d = elim d.config [
  | none ↦ record default_response { status_code = 500 }
  | some c ↦ with_body (
      codes "{"
      << codes "\"service_id\":\""
      << c.service_id
      << codes "\""
      << codes ",\"num_workers\":"
      << to_string c.num_workers
      << codes ",\"max_subs_per_tenant\":"
      << to_string c.max_subscriptions_per_tenant
      << codes ",\"blf_ttl_sec\":"
      << int_to_string c.blf_subscription_ttl
      << codes ",\"mwi_ttl_sec\":"
      << int_to_string c.mwi_subscription_ttl
      << codes ",\"presence_servers\":["
      << write_endpoints 0 c.presence_servers (
          codes "]"
          << codes ",\"failover_strategy\":\""
          << strategy_text c.presence_failover_strategy
          << codes "\""
          << codes ",\"mongo_enabled\":"
          << bool_text c.mongo_enable_persistence
          << codes ",\"mongo_uri\":\""
          << codes "***redacted***"
          << codes "\""
          << codes ",\"mongo_database\":\""
          << c.mongo_database
          << codes "\""
          << codes ",\"slow_event_warn_ms\":"
          << int_to_string c.slow_event_warn_threshold
          << codes ",\"slow_event_error_ms\":"
          << int_to_string c.slow_event_error_threshold
          << codes ",\"slow_event_critical_ms\":"
          << int_to_string c.slow_event_critical_threshold
          << codes "}"))
]

-- What the pointers lead to is read at each request.
unfoldable pub register_routes : Dependencies → HttpServer → HttpServer
register_routes d s =
    let get : Text → (Request → Response) → HttpServer → HttpServer =
      λ path f. route (codes "GET") path (λ req. responds (f req)) in
    get (codes "/config") (λ _. handle_config d)
      (get (codes "/subscriptions") (λ req. handle_subscriptions req d)
        (get (codes "/stats/presence") (λ _. handle_stats_presence d)
          (get (codes "/stats/workers") (λ _. handle_stats_workers d)
            (get (codes "/stats") (λ _. handle_stats d) s))))
