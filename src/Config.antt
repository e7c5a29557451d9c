-- ===== src/Config.antt =====
-- The fields of `Config` (include/common/config.h) that the modelled components read. Durations
-- are in the units of their types: seconds, or milliseconds where the name says so.
pub mod Ini
pub mod Load
use sip_event_processor.Prelude.{ℕ, Text, codes, text_eq, if◌then◌else◌}

pub record PresenceServerEndpoint : Type 0 where
  pub host : Text
  pub port : ℕ
  pub priority : ℕ
  pub weight : ℕ

pub data FailoverStrategy : Type 0 where
  round_robin priority random : FailoverStrategy

unfoldable pub parse_failover_strategy : Text → FailoverStrategy
parse_failover_strategy s =
    if text_eq s (codes "round_robin")
    then round_robin
    else if text_eq s (codes "priority")
    then FailoverStrategy.priority
    else if text_eq s (codes "random")
    then random
    else round_robin

pub record Config : Type 0 where
  pub num_workers : ℕ
  pub max_incoming_queue_per_worker : ℕ
  pub max_dialogs_per_worker : ℕ
  pub max_subscriptions_per_tenant : ℕ
  pub blf_subscription_ttl : ℕ
  pub mwi_subscription_ttl : ℕ
  pub stuck_processing_timeout : ℕ
  pub slow_event_warn_threshold : ℕ
  pub slow_event_error_threshold : ℕ
  pub slow_event_critical_threshold : ℕ
