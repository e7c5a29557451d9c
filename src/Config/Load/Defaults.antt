-- ===== src/Config/Load/Defaults.antt =====
-- A file that sets none of the keys that are read.
use sip_event_processor.Prelude.{
  ℕ, ◌≡◌, refl, ap, Bool, true, false, Option, none, some, List, [], ◌∷◌, Text, codes, text_eq,
  is_empty, trim_left, trim_right, tokens, ℤ, pos, Bool-cases, inl, inr,
}
use sip_event_processor.Prelude.Map.{Map, find}
use sip_event_processor.Config.Ini.{
  get_or, get_int, get_size, get_bool, parse_ini, parse_servers, servers_from, server_of,
  split_last_colon, stoi, to_uint16,
}
use sip_event_processor.Config.{parse_failover_strategy}
use sip_event_processor.Subscription.Mwi.Summary.{scan_int}
use sip_event_processor.Config.Load.{initial, load_defaults, from_map, load_from_file, known_keys}

-- None of the keys is in the map.
abbrev pub Absent : Map Text → List Text → Type 0
Absent m [] = Unit
Absent m (k ∷ ks) = (find k m ≡ none) × Absent m ks

module _ (m : Map Text) (key : Text) (absent : find key m ≡ none) where
  pub get_or-absent : (def : Text) → get_or m key def ≡ def
  unfolding get_or
  get_or-absent def = rw (get_or, absent) refl

  pub get_int-absent : (def : ℤ) → get_int m key def ≡ def
  unfolding get_int
  get_int-absent def = rw (get_int, absent) refl

  pub get_size-absent : (def : ℕ) → get_size m key def ≡ def
  unfolding get_size
  get_size-absent def = rw (get_size, absent) refl

  pub get_bool-absent : (def : Bool) → get_bool m key def ≡ def
  unfolding get_bool
  get_bool-absent def = rw (get_bool, absent) refl

-- The server that stands in the defaults is the one that is read from their text.
default_server :
    parse_servers (codes "127.0.0.1:9000")
    ≡ record { host = codes "127.0.0.1"; port = 9000; priority = 0; weight = 1 } ∷ []
unfolding parse_servers tokens servers_from server_of split_last_colon stoi scan_int to_uint16
    trim_left trim_right codes
default_server = refl

from_map-Absent : (hw : ℕ) (m : Map Text) → Absent m known_keys → from_map hw m ≡ load_defaults hw
unfolding from_map load_defaults parse_failover_strategy to_uint16 text_eq codes
from_map-Absent hw m h =
    let c = initial in
    rw
      (
        get_or-absent m (codes "general.service_id") h.0 c.service_id,
        get_or-absent m (codes "general.instance_name") h.1.0 c.instance_name,
        get_or-absent m (codes "general.log_level") h.1.1.0 c.log_level_str,
        get_or-absent m (codes "sip.bind_url") h.1.1.1.0 c.sip_bind_url,
        get_or-absent m (codes "sip.user_agent") h.1.1.1.1.0 c.sip_user_agent,
        get_or-absent m (codes "sip.transport") h.1.1.1.1.1.0 c.sip_transport,
        get_size-absent m (codes "dispatcher.num_workers") h.1.1.1.1.1.1.0 0,
        get_size-absent m (codes "dispatcher.max_incoming_queue_per_worker") h.1.1.1.1.1.1.1.0
            c.max_incoming_queue_per_worker,
        get_size-absent m (codes "dispatcher.max_dialogs_per_worker") h.1.1.1.1.1.1.1.1.0
            c.max_dialogs_per_worker,
        get_size-absent m (codes "tenant.max_subscriptions_per_tenant") h.1.1.1.1.1.1.1.1.1.0
            c.max_subscriptions_per_tenant,
        get_int-absent m (codes "reaper.blf_subscription_ttl_sec") h.1.1.1.1.1.1.1.1.1.1.0
            (pos 3600),
        get_int-absent m (codes "reaper.mwi_subscription_ttl_sec") h.1.1.1.1.1.1.1.1.1.1.1.0
            (pos 7200),
        get_int-absent m (codes "reaper.scan_interval_sec") h.1.1.1.1.1.1.1.1.1.1.1.1.0 (pos 60),
        get_int-absent m (codes "reaper.stuck_processing_timeout_sec") h.1.1.1.1.1.1.1.1.1.1.1.1.1.0
            (pos 30),
        get_or-absent m (codes "presence.servers") h.1.1.1.1.1.1.1.1.1.1.1.1.1.1.0
            (codes "127.0.0.1:9000"),
        get_int-absent m (codes "presence.reconnect_interval_sec") h.1.1.1.1.1.1.1.1.1.1.1.1.1.1.1.0
            (pos 5),
        get_int-absent m (codes "presence.reconnect_max_interval_sec")
            h.1.1.1.1.1.1.1.1.1.1.1.1.1.1.1.1.0 (pos 60),
        get_int-absent m (codes "presence.read_timeout_sec") h.1.1.1.1.1.1.1.1.1.1.1.1.1.1.1.1.1.0
            (pos 30),
        get_size-absent m (codes "presence.recv_buffer_size")
            h.1.1.1.1.1.1.1.1.1.1.1.1.1.1.1.1.1.1.0 65536,
        get_int-absent m (codes "presence.heartbeat_interval_sec")
            h.1.1.1.1.1.1.1.1.1.1.1.1.1.1.1.1.1.1.1.0 (pos 15),
        get_int-absent m (codes "presence.heartbeat_miss_threshold")
            h.1.1.1.1.1.1.1.1.1.1.1.1.1.1.1.1.1.1.1.1.0 (pos 3),
        get_size-absent m (codes "presence.max_pending_events")
            h.1.1.1.1.1.1.1.1.1.1.1.1.1.1.1.1.1.1.1.1.1.0 100000,
        get_or-absent m (codes "presence.failover_strategy")
            h.1.1.1.1.1.1.1.1.1.1.1.1.1.1.1.1.1.1.1.1.1.1.0 (codes "round_robin"),
        get_int-absent m (codes "presence.health_check_interval_sec")
            h.1.1.1.1.1.1.1.1.1.1.1.1.1.1.1.1.1.1.1.1.1.1.1.0 (pos 30),
        get_int-absent m (codes "presence.server_cooldown_sec")
            h.1.1.1.1.1.1.1.1.1.1.1.1.1.1.1.1.1.1.1.1.1.1.1.1.0 (pos 120),
        get_or-absent m (codes "mongodb.uri") h.1.1.1.1.1.1.1.1.1.1.1.1.1.1.1.1.1.1.1.1.1.1.1.1.1.0
            c.mongo_uri,
        get_or-absent m (codes "mongodb.database")
            h.1.1.1.1.1.1.1.1.1.1.1.1.1.1.1.1.1.1.1.1.1.1.1.1.1.1.0 c.mongo_database,
        get_or-absent m (codes "mongodb.collection_subscriptions")
            h.1.1.1.1.1.1.1.1.1.1.1.1.1.1.1.1.1.1.1.1.1.1.1.1.1.1.1.0 c.mongo_collection_subs,
        get_or-absent m (codes "mongodb.collection_blf_state")
            h.1.1.1.1.1.1.1.1.1.1.1.1.1.1.1.1.1.1.1.1.1.1.1.1.1.1.1.1.0
            c.mongo_collection_blf_state,
        get_int-absent m (codes "mongodb.pool_min_size")
            h.1.1.1.1.1.1.1.1.1.1.1.1.1.1.1.1.1.1.1.1.1.1.1.1.1.1.1.1.1.0 c.mongo_pool_min_size,
        get_int-absent m (codes "mongodb.pool_max_size")
            h.1.1.1.1.1.1.1.1.1.1.1.1.1.1.1.1.1.1.1.1.1.1.1.1.1.1.1.1.1.1.0 c.mongo_pool_max_size,
        get_or-absent m (codes "mongodb.write_concern")
            h.1.1.1.1.1.1.1.1.1.1.1.1.1.1.1.1.1.1.1.1.1.1.1.1.1.1.1.1.1.1.1.0 c.mongo_write_concern,
        get_or-absent m (codes "mongodb.read_preference")
            h.1.1.1.1.1.1.1.1.1.1.1.1.1.1.1.1.1.1.1.1.1.1.1.1.1.1.1.1.1.1.1.1.0
            c.mongo_read_preference,
        get_int-absent m (codes "mongodb.connect_timeout_ms")
            h.1.1.1.1.1.1.1.1.1.1.1.1.1.1.1.1.1.1.1.1.1.1.1.1.1.1.1.1.1.1.1.1.1.0 (pos 5000),
        get_int-absent m (codes "mongodb.socket_timeout_ms")
            h.1.1.1.1.1.1.1.1.1.1.1.1.1.1.1.1.1.1.1.1.1.1.1.1.1.1.1.1.1.1.1.1.1.1.0 (pos 10000),
        get_int-absent m (codes "mongodb.sync_interval_sec")
            h.1.1.1.1.1.1.1.1.1.1.1.1.1.1.1.1.1.1.1.1.1.1.1.1.1.1.1.1.1.1.1.1.1.1.1.0 (pos 5),
        get_size-absent m (codes "mongodb.batch_size")
            h.1.1.1.1.1.1.1.1.1.1.1.1.1.1.1.1.1.1.1.1.1.1.1.1.1.1.1.1.1.1.1.1.1.1.1.1.0 500,
        get_bool-absent m (codes "mongodb.enable_persistence")
            h.1.1.1.1.1.1.1.1.1.1.1.1.1.1.1.1.1.1.1.1.1.1.1.1.1.1.1.1.1.1.1.1.1.1.1.1.1.0 true,
        get_int-absent m (codes "slow_event.warn_threshold_ms")
            h.1.1.1.1.1.1.1.1.1.1.1.1.1.1.1.1.1.1.1.1.1.1.1.1.1.1.1.1.1.1.1.1.1.1.1.1.1.1.0
            (pos 50),
        get_int-absent m (codes "slow_event.error_threshold_ms")
            h.1.1.1.1.1.1.1.1.1.1.1.1.1.1.1.1.1.1.1.1.1.1.1.1.1.1.1.1.1.1.1.1.1.1.1.1.1.1.1.0
            (pos 200),
        get_int-absent m (codes "slow_event.critical_threshold_ms")
            h.1.1.1.1.1.1.1.1.1.1.1.1.1.1.1.1.1.1.1.1.1.1.1.1.1.1.1.1.1.1.1.1.1.1.1.1.1.1.1.1.0
            (pos 1000),
        get_bool-absent m (codes "slow_event.log_stack_trace")
            h.1.1.1.1.1.1.1.1.1.1.1.1.1.1.1.1.1.1.1.1.1.1.1.1.1.1.1.1.1.1.1.1.1.1.1.1.1.1.1.1.1.0
            false,
        get_bool-absent m (codes "http.enabled")
            h.1.1.1.1.1.1.1.1.1.1.1.1.1.1.1.1.1.1.1.1.1.1.1.1.1.1.1.1.1.1.1.1.1.1.1.1.1.1.1.1.1.1.0
            true,
        get_or-absent m (codes "http.bind_address")
            h.1.1.1.1.1.1.1.1.1.1.1.1.1.1.1.1.1.1.1.1.1.1.1.1.1.1.1.1.1.1.1.1.1.1.1.1.1.1.1.1.1.1.1.0
            c.http_bind_address,
        get_int-absent m (codes "http.port")
            h.1.1.1.1.1.1.1.1.1.1.1.1.1.1.1.1.1.1.1.1.1.1.1.1.1.1.1.1.1.1.1.1.1.1.1.1.1.1.1.1.1.1.1.1.0
            (pos 8080),
        get_int-absent m (codes "http.read_timeout_sec")
            h.1.1.1.1.1.1.1.1.1.1.1.1.1.1.1.1.1.1.1.1.1.1.1.1.1.1.1.1.1.1.1.1.1.1.1.1.1.1.1.1.1.1.1.1.1.0
            (pos 30),
        get_int-absent m (codes "http.write_timeout_sec")
            h.1.1.1.1.1.1.1.1.1.1.1.1.1.1.1.1.1.1.1.1.1.1.1.1.1.1.1.1.1.1.1.1.1.1.1.1.1.1.1.1.1.1.1.1.1.1.0
            (pos 30),
        get_size-absent m (codes "http.max_connections")
            h.1.1.1.1.1.1.1.1.1.1.1.1.1.1.1.1.1.1.1.1.1.1.1.1.1.1.1.1.1.1.1.1.1.1.1.1.1.1.1.1.1.1.1.1.1.1.1.0
            100,
        get_or-absent m (codes "logging.directory")
            h.1.1.1.1.1.1.1.1.1.1.1.1.1.1.1.1.1.1.1.1.1.1.1.1.1.1.1.1.1.1.1.1.1.1.1.1.1.1.1.1.1.1.1.1.1.1.1.1.0
            c.log_directory,
        get_or-absent m (codes "logging.base_name")
            h.1.1.1.1.1.1.1.1.1.1.1.1.1.1.1.1.1.1.1.1.1.1.1.1.1.1.1.1.1.1.1.1.1.1.1.1.1.1.1.1.1.1.1.1.1.1.1.1.1.0
            c.log_base_name,
        get_or-absent m (codes "logging.console_level")
            h.1.1.1.1.1.1.1.1.1.1.1.1.1.1.1.1.1.1.1.1.1.1.1.1.1.1.1.1.1.1.1.1.1.1.1.1.1.1.1.1.1.1.1.1.1.1.1.1.1.1.0
            c.log_console_level_str,
        get_size-absent m (codes "logging.max_file_size_mb")
            h.1.1.1.1.1.1.1.1.1.1.1.1.1.1.1.1.1.1.1.1.1.1.1.1.1.1.1.1.1.1.1.1.1.1.1.1.1.1.1.1.1.1.1.1.1.1.1.1.1.1.1.0
            50,
        get_int-absent m (codes "logging.max_rotated_files")
            h.1.1.1.1.1.1.1.1.1.1.1.1.1.1.1.1.1.1.1.1.1.1.1.1.1.1.1.1.1.1.1.1.1.1.1.1.1.1.1.1.1.1.1.1.1.1.1.1.1.1.1.1.0
            (pos 10),
        default_server,
      )
      refl

-- A file that is read to its end and sets none of the keys that `load_from_file` asks for gives
-- the configuration that `load_defaults` gives, whether it is empty, cannot be opened or sets
-- other keys.
pub load_from_file-load_defaults :
    (fuel hw : ℕ) (getenv : Text → Option Text) (file : Option Text) (m : Map Text)
    → parse_ini fuel getenv file ≡ some m
    → Absent m known_keys
    → load_from_file fuel hw getenv file ≡ some (load_defaults hw)
unfolding load_from_file
load_from_file-load_defaults fuel hw getenv file m read absent = elim (Bool-cases (is_empty m)) [
  | inl e ↦ rw (load_from_file, read, e) refl
  | inr e ↦ rw (load_from_file, read, e) (ap some (from_map-Absent hw m absent))
]
