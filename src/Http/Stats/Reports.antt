-- ===== src/Http/Stats/Reports.antt =====
-- The five reports of StatsHandler as JSON values.
use sip_event_processor.Prelude.{
  ◌≡◌, refl, sym, ap, ◌∙◌, Bool, true, false, some, List, ◌∷◌, ◌++◌, Text, codes, length, take,
  to_string, int_to_string, ltb, if◌then◌else◌,
}
use sip_event_processor.Config.Load.{Settings}
use sip_event_processor.Subscription.Registry.{SubscriptionInfo}
use sip_event_processor.Dispatch.Dispatcher.{DialogDispatcher}
use sip_event_processor.Presence.TcpClient.{PresenceTcpClient, connected_server}
use sip_event_processor.Presence.Router.{PresenceEventRouter}
use sip_event_processor.Presence.Failover.{PresenceFailoverManager}
use sip_event_processor.Http.Server.{Request, Response}
use sip_event_processor.Http.Json.{
  Json, int, bool, str, arr, obj, Fields, end, field, items_of, emit, emit_fields, raw_print,
}
use sip_event_processor.Http.Json.Escape.{print, is_plain, print-plain}
use sip_event_processor.Http.Stats.{Dependencies, with_body, when_there, handle_stats}
use sip_event_processor.Http.Stats.Details.{
  max_reported, reported, strategy_text, client_part, router_part, write_servers,
  write_subscriptions, handle_stats_workers, handle_stats_presence, handle_subscriptions,
  handle_config,
}
use sip_event_processor.Http.Stats.Summary.{
  count, optional, optional-emit, stats_json, stats-plain, stats-print,
}
use sip_event_processor.Http.Stats.Lists.{
  worker_items, worker_items-plain, write_workers-emit, server_json, write_servers-emit,
  endpoint_json, write_endpoints-emit, subscription_json, write_subscriptions-emit,
}

unfoldable pub workers_json : DialogDispatcher → Json
workers_json dispatcher =
    obj (field (codes "workers") (arr (worker_items 0 dispatcher.workers)) end)

workers-print :
    (dispatcher : DialogDispatcher) (d : Dependencies)
    → d.dispatcher ≡ some dispatcher
    → handle_stats_workers d ≡ with_body (raw_print (workers_json dispatcher))
unfolding handle_stats_workers workers_json raw_print codes emit
workers-print dispatcher d there = rw there (
    ap (λ t. with_body (codes "{\"workers\":[" ++ t))
      (write_workers-emit 0 dispatcher.workers (codes "]}")))

abbrev router_field : PresenceEventRouter → Fields → Fields
router_field r = field (codes "router") (
    obj (
      count "events_received" r.stats.events_received (
        count "events_processed" r.stats.events_processed (
          count "notifications_generated" r.stats.notifications_generated (
            count "watchers_not_found" r.stats.watchers_not_found
              (count "queue_depth" r.stats.queue_depth end))))))

abbrev servers_field : PresenceFailoverManager → Fields → Fields
servers_field m = field (codes "servers") (arr (items_of server_json m.servers))

unfoldable pub presence_json : PresenceTcpClient → Dependencies → Json
presence_json c d = obj (
    field (codes "client")
      (obj (
        field (codes "connected") (bool c.is_connected) (
          field (codes "server") (str (connected_server c)) (
            count "events_received" c.stats.events_received (
              count "bytes_received" c.stats.bytes_received (
                count "connect_attempts" c.stats.connect_attempts (
                  count "connect_successes" c.stats.connect_successes (
                    count "disconnects" c.stats.disconnect_count (
                      count "failovers" c.stats.failover_count
                        (count "heartbeat_timeouts" c.stats.heartbeat_timeouts end))))))))))
      (optional d.presence_router router_field (optional d.failover_mgr servers_field end)))

abbrev servers_part : PresenceFailoverManager → Text → Text
servers_part m rest = codes ",\"servers\":[" ++ write_servers 0 m.servers (codes "]" ++ rest)

presence_tail-emit :
    (d : Dependencies)
    → when_there d.presence_router router_part (when_there d.failover_mgr servers_part (codes "}"))
      ≡ emit_fields
          (optional d.presence_router router_field (optional d.failover_mgr servers_field end))
          false
          (codes "}")
unfolding emit codes router_part
presence_tail-emit d =
    let servers = optional-emit d.failover_mgr servers_part servers_field end (codes "}") (λ m.
      ap (λ t. codes ",\"servers\":[" ++ t)
        (write_servers-emit 0 m.servers (codes "]" ++ codes "}"))) in
    ap (when_there d.presence_router router_part) servers
    ∙ optional-emit d.presence_router router_part router_field
        (optional d.failover_mgr servers_field end) (codes "}") (λ _. refl)

presence-print :
    (c : PresenceTcpClient) (d : Dependencies)
    → d.presence_client ≡ some c
    → handle_stats_presence d ≡ with_body (raw_print (presence_json c d))
unfolding handle_stats_presence presence_json raw_print codes emit
presence-print c d there =
    rw there (ap (λ t. with_body (codes "{" ++ client_part c t)) (presence_tail-emit d))

unfoldable pub subscriptions_json : List SubscriptionInfo → Json
subscriptions_json subs =
    let truncated =
      if ltb max_reported (length subs) then field (codes "truncated") (bool true) end else end in
    obj (
      count "count" (length subs) (
        field (codes "subscriptions") (arr (items_of subscription_json (take max_reported subs)))
          truncated))

truncated-emit :
    (more : Bool)
    → (if more then codes "],\"truncated\":true" else codes "]") ++ codes "}"
      ≡ b']'
        ∷ emit_fields
            (if more then field (codes "truncated") (bool true) end else end)
            false
            (codes "}")
unfolding codes emit
truncated-emit true = refl
truncated-emit false = refl

subscriptions-print :
    (req : Request) (d : Dependencies)
    → handle_subscriptions req d ≡ with_body (raw_print (subscriptions_json (reported req d)))
unfolding handle_subscriptions subscriptions_json raw_print codes emit
subscriptions-print req d =
    let subs = reported req d in
    ap
      (λ t.
        with_body
          (codes "{\"count\":" ++ (to_string (length subs) ++ (codes ",\"subscriptions\":[" ++ t))))
      (ap (write_subscriptions max_reported 0 subs)
          (truncated-emit (ltb max_reported (length subs)))
        ∙ write_subscriptions-emit max_reported 0 subs _)

unfoldable pub config_json : Settings → Json
config_json c = obj (
    field (codes "service_id") (str c.service_id) (
      count "num_workers" c.num_workers (
        count "max_subs_per_tenant" c.max_subscriptions_per_tenant (
          field (codes "blf_ttl_sec") (int c.blf_subscription_ttl) (
            field (codes "mwi_ttl_sec") (int c.mwi_subscription_ttl) (
              field (codes "presence_servers") (arr (items_of endpoint_json c.presence_servers)) (
                field (codes "failover_strategy") (str (strategy_text c.presence_failover_strategy))
                  (field (codes "mongo_enabled") (bool c.mongo_enable_persistence) (
                    field (codes "mongo_uri") (str (codes "***redacted***")) (
                      field (codes "mongo_database") (str c.mongo_database) (
                        field (codes "slow_event_warn_ms") (int c.slow_event_warn_threshold) (
                          field (codes "slow_event_error_ms") (int c.slow_event_error_threshold) (
                            field (codes "slow_event_critical_ms")
                              (int c.slow_event_critical_threshold) end)))))))))))))

config-print :
    (c : Settings) (d : Dependencies)
    → d.config ≡ some c
    → handle_config d ≡ with_body (raw_print (config_json c))
unfolding handle_config config_json raw_print codes emit
config-print c d there = rw there (
    ap
      (λ t. with_body (
        codes "{\"service_id\":\""
        ++ (c.service_id
            ++ (codes "\",\"num_workers\":"
                ++ (to_string c.num_workers
                    ++ (codes ",\"max_subs_per_tenant\":"
                        ++ (to_string c.max_subscriptions_per_tenant
                            ++ (codes ",\"blf_ttl_sec\":"
                                ++ (int_to_string c.blf_subscription_ttl
                                    ++ (codes ",\"mwi_ttl_sec\":"
                                        ++ (int_to_string c.mwi_subscription_ttl
                                            ++ (codes ",\"presence_servers\":[" ++ t))))))))))))
      (write_endpoints-emit 0 c.presence_servers _))

workers-plain : (dispatcher : DialogDispatcher) → is_plain (workers_json dispatcher) ≡ true
unfolding workers_json is_plain codes
workers-plain dispatcher = rw (worker_items-plain 0 dispatcher.workers) refl

as_escaped :
    (t : Response) (v : Json)
    → is_plain v ≡ true
    → t ≡ with_body (raw_print v)
    → t ≡ with_body (print v)
as_escaped t v plain h = h ∙ ap with_body (sym (print-plain v plain))

-- Given the dispatcher, the presence client and the configuration, as the main program gives
-- them, and where no string in the last three values has a quote, a backslash or a control byte, each
-- of the five reports is a JSON value as JSON is printed, with the escapes that it wants: the
-- summary, the workers in their order, the presence feed and its servers, the subscriptions, of
-- which at most 1000 are listed, with the count of all and a mark where some are left out, and the
-- configuration, with the database's address replaced.
pub reports-print :
    (dispatcher : DialogDispatcher) (client : PresenceTcpClient) (c : Settings) (d : Dependencies)
    (req : Request)
    → d.dispatcher ≡ some dispatcher
    → d.presence_client ≡ some client
    → d.config ≡ some c
    → is_plain (presence_json client d) ≡ true
    → is_plain (subscriptions_json (reported req d)) ≡ true
    → is_plain (config_json c) ≡ true
    → (handle_stats d ≡ with_body (print (stats_json dispatcher d)))
      × (handle_stats_workers d ≡ with_body (print (workers_json dispatcher)))
      × (handle_stats_presence d ≡ with_body (print (presence_json client d)))
      × (handle_subscriptions req d ≡ with_body (print (subscriptions_json (reported req d))))
      × (handle_config d ≡ with_body (print (config_json c)))
reports-print dispatcher client c d req has_dispatcher has_client has_config presence subscriptions
      settings =
    (
      as_escaped _ _ (stats-plain dispatcher d) (stats-print dispatcher d has_dispatcher),
      as_escaped _ _ (workers-plain dispatcher) (workers-print dispatcher d has_dispatcher),
      as_escaped _ _ presence (presence-print client d has_client),
      as_escaped _ _ subscriptions (subscriptions-print req d),
      as_escaped _ _ settings (config-print c d has_config),
    )
