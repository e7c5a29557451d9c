-- ===== src/Http/Stats/Lists.antt =====
-- The loops of StatsHandler that print arrays.
use sip_event_processor.Prelude.{
  ℕ, zero, suc, ◌+◌, ◌≡◌, refl, sym, ap, ◌∙◌, true, false, not, List, [], ◌∷◌, append_assoc, Text,
  codes, take, to_string, ltb, Bool-cases, inl, inr, arith,
}
use sip_event_processor.Types.{subscription_type_to_string, lifecycle_to_string}
use sip_event_processor.Config.{PresenceServerEndpoint}
use sip_event_processor.Subscription.Registry.{SubscriptionInfo}
use sip_event_processor.Dispatch.Worker.State.{Worker}
use sip_event_processor.Presence.TcpClient.{address_of}
use sip_event_processor.Presence.Failover.{ServerHealth}
use sip_event_processor.Http.Json.{
  Json, bool, str, obj, Items, nil, cons, end, field, items_of, separated, emit, emit_items,
}
use sip_event_processor.Http.Json.Escape.{is_plain, plain_items}
use sip_event_processor.Http.Stats.Details.{
  comma, write_workers, write_servers, write_subscriptions, write_endpoints,
}
use sip_event_processor.Http.Stats.Summary.{count}

comma-separated : (i : ℕ) (t : Text) → comma i t ≡ separated (not (ltb 0 i)) t
unfolding codes
comma-separated i t = elim (Bool-cases (ltb 0 i)) [ inl h ↦ rw h refl | inr h ↦ rw h refl ]

not_first : (i : ℕ) → not (ltb 0 (i + 1)) ≡ false
not_first i = ground arith

-- The workers from index `i` on.
unfoldable pub worker_items : ℕ → List Worker → Items
worker_items i [] = nil
worker_items i (w ∷ ws) =
    let s = w.shared.stats in
    cons
      (obj (
        count "index" i (
          count "events_received" s.events_received (
            count "events_processed" s.events_processed (
              count "events_dropped" s.events_dropped (
                count "presence_triggers" s.presence_triggers_processed (
                  count "dialogs_active" s.dialogs_active (
                    count "queue_depth" s.queue_depth
                      (count "slow_events" s.slow_events end)))))))))
      (worker_items (i + 1) ws)

pub write_workers-emit :
    (i : ℕ) (ws : List Worker) (rest : Text)
    → write_workers i ws rest ≡ emit_items (worker_items i ws) (not (ltb 0 i)) rest
unfolding write_workers worker_items emit codes
write_workers-emit i [] rest = refl
write_workers-emit i (w ∷ ws) rest =
    rw (write_workers-emit (i + 1) ws rest, not_first i) (comma-separated i _)

pub worker_items-plain : (i : ℕ) (ws : List Worker) → plain_items (worker_items i ws) ≡ true
unfolding worker_items is_plain codes
worker_items-plain i [] = refl
worker_items-plain i (w ∷ ws) = worker_items-plain (i + 1) ws

abbrev pub server_json : ServerHealth → Json
server_json h = obj (
    field (codes "host") (str h.endpoint.host) (
      count "port" h.endpoint.port (
        count "priority" h.endpoint.priority (
          field (codes "healthy") (bool h.is_healthy) (
            count "consecutive_failures" h.consecutive_failures (
              count "total_successes" h.total_successes
                (count "total_failures" h.total_failures end)))))))

pub write_servers-emit :
    (i : ℕ) (hs : List ServerHealth) (rest : Text)
    → write_servers i hs rest ≡ emit_items (items_of server_json hs) (not (ltb 0 i)) rest
unfolding write_servers emit codes
write_servers-emit i [] rest = refl
write_servers-emit i (h ∷ hs) rest =
    rw (write_servers-emit (i + 1) hs rest, not_first i) (comma-separated i _)

abbrev pub endpoint_json : PresenceServerEndpoint → Json
endpoint_json e = str (address_of e)

pub write_endpoints-emit :
    (i : ℕ) (es : List PresenceServerEndpoint) (rest : Text)
    → write_endpoints i es rest ≡ emit_items (items_of endpoint_json es) (not (ltb 0 i)) rest
unfolding write_endpoints emit codes
write_endpoints-emit i [] rest = refl
write_endpoints-emit i (e ∷ es) rest =
    rw (write_endpoints-emit (i + 1) es rest, not_first i)
      (comma-separated i _
        ∙ ap (λ t. separated (not (ltb 0 i)) (b'"' ∷ t))
            (sym (append_assoc e.host (b':' ∷ to_string e.port) _)))

abbrev pub subscription_json : SubscriptionInfo → Json
subscription_json s = obj (
    field (codes "dialog_id") (str s.dialog_id) (
      field (codes "tenant_id") (str s.tenant_id) (
        field (codes "type") (str (subscription_type_to_string s.type)) (
          field (codes "lifecycle") (str (lifecycle_to_string s.lifecycle))
            (count "worker" s.worker_index end)))))

-- `left` subscriptions can still be reported.
pub write_subscriptions-emit :
    (left i : ℕ) (ss : List SubscriptionInfo) (rest : Text)
    → write_subscriptions (left + i) i ss rest
      ≡ emit_items (items_of subscription_json (take left ss)) (not (ltb 0 i)) rest
unfolding write_subscriptions emit codes
write_subscriptions-emit zero i [] rest = refl
write_subscriptions-emit (suc left) i [] rest = refl
write_subscriptions-emit zero i (s ∷ ss) rest = ground arith
write_subscriptions-emit (suc left) i (s ∷ ss) rest =
    let more : ltb i (suc left + i) ≡ true = ground arith in
    let same : suc left + i ≡ left + (i + 1) = omega arith in
    let behind =
      ap (λ n. write_subscriptions n (i + 1) ss rest) same
      ∙ write_subscriptions-emit left (i + 1) ss rest in
    rw more (rw (behind, not_first i) (comma-separated i _))
