-- ===== src/Config/Load.antt =====
-- Config::load_defaults and Config::load_from_file of src/common/config.cpp, over the whole of the
-- struct Config (include/common/config.h). A duration is its count, which may be negative. `hw` is
-- std::thread::hardware_concurrency().
pub mod Defaults
use sip_event_processor.Prelude.{
  ℕ, Bool, true, false, Option, none, some, List, [], ◌∷◌, Text, codes, is_empty, ℤ, pos, ltb, ◌==◌,
  if◌then◌else◌,
}
use sip_event_processor.Prelude.Map.{Map}
use sip_event_processor.Config.{
  PresenceServerEndpoint, FailoverStrategy, round_robin, parse_failover_strategy,
}
use sip_event_processor.Config.Ini.{
  get_or, get_int, get_size, get_bool, to_uint16, parse_servers, parse_ini,
}

pub record Settings : Type 0 where
  pub service_id : Text
  pub instance_name : Text
  pub log_level_str : Text
  pub sip_bind_url : Text
  pub sip_user_agent : Text
  pub sip_transport : Text
  pub num_workers : ℕ
  pub max_incoming_queue_per_worker : ℕ
  pub max_dialogs_per_worker : ℕ
  pub max_subscriptions_per_tenant : ℕ
  pub blf_subscription_ttl : ℤ
  pub mwi_subscription_ttl : ℤ
  pub reaper_scan_interval : ℤ
  pub stuck_processing_timeout : ℤ
  pub presence_servers : List PresenceServerEndpoint
  pub presence_reconnect_interval : ℤ
  pub presence_reconnect_max_interval : ℤ
  pub presence_read_timeout : ℤ
  pub presence_recv_buffer_size : ℕ
  pub presence_heartbeat_interval : ℤ
  pub presence_heartbeat_miss_threshold : ℤ
  pub presence_max_pending_events : ℕ
  pub presence_failover_strategy : FailoverStrategy
  pub presence_health_check_interval : ℤ
  pub presence_server_cooldown : ℤ
  pub mongo_uri : Text
  pub mongo_database : Text
  pub mongo_collection_subs : Text
  pub mongo_collection_blf_state : Text
  pub mongo_pool_min_size : ℤ
  pub mongo_pool_max_size : ℤ
  pub mongo_write_concern : Text
  pub mongo_read_preference : Text
  pub mongo_connect_timeout : ℤ
  pub mongo_socket_timeout : ℤ
  pub mongo_sync_interval : ℤ
  pub mongo_batch_size : ℕ
  pub mongo_enable_persistence : Bool
  pub slow_event_warn_threshold : ℤ
  pub slow_event_error_threshold : ℤ
  pub slow_event_critical_threshold : ℤ
  pub slow_event_log_stack_trace : Bool
  pub http_enabled : Bool
  pub http_bind_address : Text
  pub http_port : ℕ
  pub http_read_timeout : ℤ
  pub http_write_timeout : ℤ
  pub http_max_connections : ℕ
  pub log_directory : Text
  pub log_base_name : Text
  pub log_console_level_str : Text
  pub log_max_file_size_mb : ℕ
  pub log_max_rotated_files : ℤ

-- The default member initialisers.
abbrev pub initial : Settings
initial = record {
  service_id = codes "sip-proc-01";
  instance_name = codes "sip_event_processor";
  log_level_str = codes "info";
  sip_bind_url = codes "sip:*:5060";
  sip_user_agent = codes "SIPEventProcessor/3.0";
  sip_transport = codes "udp";
  num_workers = 0;
  max_incoming_queue_per_worker = 50000;
  max_dialogs_per_worker = 2000000;
  max_subscriptions_per_tenant = 5000;
  blf_subscription_ttl = pos 3600;
  mwi_subscription_ttl = pos 7200;
  reaper_scan_interval = pos 60;
  stuck_processing_timeout = pos 30;
  presence_servers = [];
  presence_reconnect_interval = pos 5;
  presence_reconnect_max_interval = pos 60;
  presence_read_timeout = pos 30;
  presence_recv_buffer_size = 65536;
  presence_heartbeat_interval = pos 15;
  presence_heartbeat_miss_threshold = pos 3;
  presence_max_pending_events = 100000;
  presence_failover_strategy = round_robin;
  presence_health_check_interval = pos 30;
  presence_server_cooldown = pos 120;
  mongo_uri = codes "mongodb://localhost:27017";
  mongo_database = codes "sip_event_processor";
  mongo_collection_subs = codes "subscriptions";
  mongo_collection_blf_state = codes "blf_state";
  mongo_pool_min_size = pos 2;
  mongo_pool_max_size = pos 10;
  mongo_write_concern = codes "majority";
  mongo_read_preference = codes "primaryPreferred";
  mongo_connect_timeout = pos 5000;
  mongo_socket_timeout = pos 10000;
  mongo_sync_interval = pos 5;
  mongo_batch_size = 500;
  mongo_enable_persistence = true;
  slow_event_warn_threshold = pos 50;
  slow_event_error_threshold = pos 200;
  slow_event_critical_threshold = pos 1000;
  slow_event_log_stack_trace = false;
  http_enabled = true;
  http_bind_address = codes "0.0.0.0";
  http_port = 8080;
  http_read_timeout = pos 30;
  http_write_timeout = pos 30;
  http_max_connections = 100;
  log_directory = codes "/var/log/sip_processor";
  log_base_name = codes "sip_processor";
  log_console_level_str = codes "warn";
  log_max_file_size_mb = 50;
  log_max_rotated_files = pos 10;
}

unfoldable pub load_defaults : ℕ → Settings
load_defaults hw = record initial {
  num_workers = if ltb 0 hw then hw else 8;
  presence_servers =
      record { host = codes "127.0.0.1"; port = 9000; priority = 0; weight = 1 } ∷ [];
}

-- `load_from_file` once the file is read and its map is not empty.
unfoldable pub from_map : ℕ → Map Text → Settings
from_map hw m =
    let c = initial in
    let workers = get_size m (codes "dispatcher.num_workers") 0 in
    record {
      service_id = get_or m (codes "general.service_id") c.service_id;
      instance_name = get_or m (codes "general.instance_name") c.instance_name;
      log_level_str = get_or m (codes "general.log_level") c.log_level_str;
      sip_bind_url = get_or m (codes "sip.bind_url") c.sip_bind_url;
      sip_user_agent = get_or m (codes "sip.user_agent") c.sip_user_agent;
      sip_transport = get_or m (codes "sip.transport") c.sip_transport;
      num_workers = if workers == 0 then (if ltb 0 hw then hw else 8) else workers;
      max_incoming_queue_per_worker =
          get_size m (codes "dispatcher.max_incoming_queue_per_worker")
            c.max_incoming_queue_per_worker;
      max_dialogs_per_worker =
          get_size m (codes "dispatcher.max_dialogs_per_worker") c.max_dialogs_per_worker;
      max_subscriptions_per_tenant =
          get_size m (codes "tenant.max_subscriptions_per_tenant") c.max_subscriptions_per_tenant;
      blf_subscription_ttl = get_int m (codes "reaper.blf_subscription_ttl_sec") (pos 3600);
      mwi_subscription_ttl = get_int m (codes "reaper.mwi_subscription_ttl_sec") (pos 7200);
      reaper_scan_interval = get_int m (codes "reaper.scan_interval_sec") (pos 60);
      stuck_processing_timeout = get_int m (codes "reaper.stuck_processing_timeout_sec") (pos 30);
      presence_servers =
          parse_servers (get_or m (codes "presence.servers") (codes "127.0.0.1:9000"));
      presence_reconnect_interval = get_int m (codes "presence.reconnect_interval_sec") (pos 5);
      presence_reconnect_max_interval =
          get_int m (codes "presence.reconnect_max_interval_sec") (pos 60);
      presence_read_timeout = get_int m (codes "presence.read_timeout_sec") (pos 30);
      presence_recv_buffer_size = get_size m (codes "presence.recv_buffer_size") 65536;
      presence_heartbeat_interval = get_int m (codes "presence.heartbeat_interval_sec") (pos 15);
      presence_heartbeat_miss_threshold =
          get_int m (codes "presence.heartbeat_miss_threshold") (pos 3);
      presence_max_pending_events = get_size m (codes "presence.max_pending_events") 100000;
      presence_failover_strategy =
          parse_failover_strategy
            (get_or m (codes "presence.failover_strategy") (codes "round_robin"));
      presence_health_check_interval =
          get_int m (codes "presence.health_check_interval_sec") (pos 30);
      presence_server_cooldown = get_int m (codes "presence.server_cooldown_sec") (pos 120);
      mongo_uri = get_or m (codes "mongodb.uri") c.mongo_uri;
      mongo_database = get_or m (codes "mongodb.database") c.mongo_database;
      mongo_collection_subs =
          get_or m (codes "mongodb.collection_subscriptions") c.mongo_collection_subs;
      mongo_collection_blf_state =
          get_or m (codes "mongodb.collection_blf_state") c.mongo_collection_blf_state;
      mongo_pool_min_size = get_int m (codes "mongodb.pool_min_size") c.mongo_pool_min_size;
      mongo_pool_max_size = get_int m (codes "mongodb.pool_max_size") c.mongo_pool_max_size;
      mongo_write_concern = get_or m (codes "mongodb.write_concern") c.mongo_write_concern;
      mongo_read_preference = get_or m (codes "mongodb.read_preference") c.mongo_read_preference;
      mongo_connect_timeout = get_int m (codes "mongodb.connect_timeout_ms") (pos 5000);
      mongo_socket_timeout = get_int m (codes "mongodb.socket_timeout_ms") (pos 10000);
      mongo_sync_interval = get_int m (codes "mongodb.sync_interval_sec") (pos 5);
      mongo_batch_size = get_size m (codes "mongodb.batch_size") 500;
      mongo_enable_persistence = get_bool m (codes "mongodb.enable_persistence") true;
      slow_event_warn_threshold = get_int m (codes "slow_event.warn_threshold_ms") (pos 50);
      slow_event_error_threshold = get_int m (codes "slow_event.error_threshold_ms") (pos 200);
      slow_event_critical_threshold =
          get_int m (codes "slow_event.critical_threshold_ms") (pos 1000);
      slow_event_log_stack_trace = get_bool m (codes "slow_event.log_stack_trace") false;
      http_enabled = get_bool m (codes "http.enabled") true;
      http_bind_address = get_or m (codes "http.bind_address") c.http_bind_address;
      http_port = to_uint16 (get_int m (codes "http.port") (pos 8080));
      http_read_timeout = get_int m (codes "http.read_timeout_sec") (pos 30);
      http_write_timeout = get_int m (codes "http.write_timeout_sec") (pos 30);
      http_max_connections = get_size m (codes "http.max_connections") 100;
      log_directory = get_or m (codes "logging.directory") c.log_directory;
      log_base_name = get_or m (codes "logging.base_name") c.log_base_name;
      log_console_level_str = get_or m (codes "logging.console_level") c.log_console_level_str;
      log_max_file_size_mb = get_size m (codes "logging.max_file_size_mb") 50;
      log_max_rotated_files = get_int m (codes "logging.max_rotated_files") (pos 10);
    }

-- `none` where the reading of the file does not end.
unfoldable pub load_from_file : ℕ → ℕ → (Text → Option Text) → Option Text → Option Settings
load_from_file fuel hw getenv file = elim (parse_ini fuel getenv file) [
  | none ↦ none
  | some m ↦ some (if is_empty m then load_defaults hw else from_map hw m)
]

-- The keys that are read.
abbrev pub known_keys : List Text
known_keys =
    codes "general.service_id"
    ∷ codes "general.instance_name"
    ∷ codes "general.log_level"
    ∷ codes "sip.bind_url"
    ∷ codes "sip.user_agent"
    ∷ codes "sip.transport"
    ∷ codes "dispatcher.num_workers"
    ∷ codes "dispatcher.max_incoming_queue_per_worker"
    ∷ codes "dispatcher.max_dialogs_per_worker"
    ∷ codes "tenant.max_subscriptions_per_tenant"
    ∷ codes "reaper.blf_subscription_ttl_sec"
    ∷ codes "reaper.mwi_subscription_ttl_sec"
    ∷ codes "reaper.scan_interval_sec"
    ∷ codes "reaper.stuck_processing_timeout_sec"
    ∷ codes "presence.servers"
    ∷ codes "presence.reconnect_interval_sec"
    ∷ codes "presence.reconnect_max_interval_sec"
    ∷ codes "presence.read_timeout_sec"
    ∷ codes "presence.recv_buffer_size"
    ∷ codes "presence.heartbeat_interval_sec"
    ∷ codes "presence.heartbeat_miss_threshold"
    ∷ codes "presence.max_pending_events"
    ∷ codes "presence.failover_strategy"
    ∷ codes "presence.health_check_interval_sec"
    ∷ codes "presence.server_cooldown_sec"
    ∷ codes "mongodb.uri"
    ∷ codes "mongodb.database"
    ∷ codes "mongodb.collection_subscriptions"
    ∷ codes "mongodb.collection_blf_state"
    ∷ codes "mongodb.pool_min_size"
    ∷ codes "mongodb.pool_max_size"
    ∷ codes "mongodb.write_concern"
    ∷ codes "mongodb.read_preference"
    ∷ codes "mongodb.connect_timeout_ms"
    ∷ codes "mongodb.socket_timeout_ms"
    ∷ codes "mongodb.sync_interval_sec"
    ∷ codes "mongodb.batch_size"
    ∷ codes "mongodb.enable_persistence"
    ∷ codes "slow_event.warn_threshold_ms"
    ∷ codes "slow_event.error_threshold_ms"
    ∷ codes "slow_event.critical_threshold_ms"
    ∷ codes "slow_event.log_stack_trace"
    ∷ codes "http.enabled"
    ∷ codes "http.bind_address"
    ∷ codes "http.port"
    ∷ codes "http.read_timeout_sec"
    ∷ codes "http.write_timeout_sec"
    ∷ codes "http.max_connections"
    ∷ codes "logging.directory"
    ∷ codes "logging.base_name"
    ∷ codes "logging.console_level"
    ∷ codes "logging.max_file_size_mb"
    ∷ codes "logging.max_rotated_files"
    ∷ []
