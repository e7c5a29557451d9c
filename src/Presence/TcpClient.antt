-- ===== src/Presence/TcpClient.antt =====
-- PresenceTcpClient of include/presence/presence_tcp_client.h and
-- src/presence/presence_tcp_client.cpp. What the socket calls give is an argument; the calls of
-- the two callbacks are recorded, the latest last; the state callback is taken to be set. The
-- reader's thread is cut into the parts between its waits. Durations are in seconds, clock
-- readings in ticks.
pub mod Core
pub mod Rounds
pub mod Connection
use sip_event_processor.Prelude.{
  ℕ, ◌+◌, ◌-◌, ◌*◌, Bool, true, false, not, Option, none, some, List, [], ◌∷◌, ◌++◌, Text, codes,
  is_empty, length, to_string, min, ltb, ◌||◌, if◌then◌else◌,
}
use sip_event_processor.Types.{
  Result, ok, error, timeout, already_exists, invalid_argument, seconds,
}
use sip_event_processor.Config.{PresenceServerEndpoint}
use sip_event_processor.Presence.CallEvent.{CallStateEvent}
use sip_event_processor.Presence.Parser.{PresenceXmlParser, feed, reset}
use sip_event_processor.Presence.Failover.{
  PresenceFailoverManager, get_next_server, report_success, report_failure,
}

pub data ConnectionState : Type 0 where
  disconnected connecting connected reconnecting : ConnectionState

pub record ClientStats : Type 0 where
  pub events_received : ℕ
  pub events_delivered : ℕ
  pub bytes_received : ℕ
  pub connect_attempts : ℕ
  pub connect_successes : ℕ
  pub disconnect_count : ℕ
  pub failover_count : ℕ
  pub heartbeat_timeouts : ℕ
  pub parse_errors : ℕ

-- `socket_open` is socket_fd_ >= 0.
pub record PresenceTcpClient : Type 0 where
  pub reconnect_interval : ℕ
  pub reconnect_max_interval : ℕ
  pub heartbeat_interval : ℕ
  pub heartbeat_miss_threshold : ℕ
  pub has_event_callback : Bool
  pub failover_mgr : Option PresenceFailoverManager
  pub socket_open : Bool
  pub current_server : Option PresenceServerEndpoint
  pub running : Bool
  pub stop_requested : Bool
  pub is_connected : Bool
  pub conn_state : ConnectionState
  pub current_backoff : ℕ
  pub last_heartbeat : ℕ
  pub parser : PresenceXmlParser
  pub delivered : List CallStateEvent
  pub state_calls : List (ConnectionState × Text)
  pub stats : ClientStats

abbrev pub is_connected_state : ConnectionState → Bool
is_connected_state connected = true
is_connected_state _ = false

unfoldable pub set_connection_state : ConnectionState → Text → PresenceTcpClient → PresenceTcpClient
set_connection_state state detail c = record c {
  conn_state = state;
  is_connected = is_connected_state state;
  state_calls = c.state_calls ++ (state, detail) ∷ [];
}

unfoldable pub close_socket : PresenceTcpClient → PresenceTcpClient
close_socket c = record c { socket_open = false; is_connected = false }

abbrev pub address_of : PresenceServerEndpoint → Text
address_of ep = ep.host ++ b':' ∷ to_string ep.port

unfoldable pub connected_server : PresenceTcpClient → Text
connected_server c = elim c.current_server [
  | none ↦ codes "(none)"
  | some ep ↦ if is_empty ep.host then codes "(none)" else address_of ep
]

unfoldable pub start : PresenceTcpClient → PresenceTcpClient × Result
start c =
    if c.running
    then (c, already_exists)
    else if not c.has_event_callback
    then (c, invalid_argument)
    else (record c { stop_requested = false; running = true }, ok)

-- `stop` up to the join, and behind it.
unfoldable pub request_stop : PresenceTcpClient → PresenceTcpClient
request_stop c = if not c.running then c else close_socket (record c { stop_requested = true })

-- What the reader's thread does last.
unfoldable pub leave_loop : PresenceTcpClient → PresenceTcpClient
leave_loop c = close_socket c

-- The thread that is joined has left its loop.
unfoldable pub finish_stop : PresenceTcpClient → PresenceTcpClient
finish_stop c = record (leave_loop c) { running = false }

-- What the calls up to `connect` give: no address, no socket, or a connection that is to be waited
-- for; and what comes of the wait: a socket that cannot be connected, or not in time, and is closed;
-- a connection. While the thread waits, `stop` can close the socket; what the calls on it then give
-- is not said, so that a connection can come of it.
pub data Opening : Type 0 where
  no_address no_socket opened : Opening

pub data ConnectOutcome : Type 0 where
  refused too_late connects : ConnectOutcome

unfoldable pub open_connection :
    Opening → PresenceServerEndpoint → PresenceTcpClient → PresenceTcpClient × Result
open_connection opening ep c =
    if is_empty ep.host
    then (c, invalid_argument)
    else let c1 = set_connection_state connecting (address_of ep) c in
      let c2 = record c1 {
        stats = record c1.stats { connect_attempts = c1.stats.connect_attempts + 1 };
      } in
      elim opening as (λ _. PresenceTcpClient × Result) [
        | no_address ↦ (c2, error)
        | no_socket ↦ (record c2 { socket_open = false }, error)
        | opened ↦ (record c2 { socket_open = true }, ok)
      ]

unfoldable pub settle_connection :
    ℕ → ConnectOutcome → PresenceServerEndpoint → PresenceTcpClient → PresenceTcpClient × Result
settle_connection now outcome ep c = elim outcome as (λ _. PresenceTcpClient × Result) [
  | refused ↦ (close_socket c, error)
  | too_late ↦ (close_socket c, timeout)
  | connects ↦
      let c1 = record c {
        current_server = some ep;
        stats = record c.stats { connect_successes = c.stats.connect_successes + 1 };
      } in
      (
        record (set_connection_state connected (address_of ep) c1) {
          current_backoff = c1.reconnect_interval;
          last_heartbeat = now;
          parser = reset c1.parser;
        },
        ok,
      )
]

unfoldable pub reconnect_with_backoff : PresenceTcpClient → PresenceTcpClient
reconnect_with_backoff c =
    record (set_connection_state reconnecting
      (codes "backoff=" ++ to_string c.current_backoff ++ codes "s") c) {
        current_backoff = min (c.current_backoff * 2) c.reconnect_max_interval;
      }

unfoldable pub check_heartbeat_timeout : ℕ → PresenceTcpClient → PresenceTcpClient
check_heartbeat_timeout now c =
    if ltb (seconds (c.heartbeat_interval * c.heartbeat_miss_threshold)) (now - c.last_heartbeat)
    then close_socket (record c {
      stats = record c.stats { heartbeat_timeouts = c.stats.heartbeat_timeouts + 1 };
    })
    else c

-- The loop over the events of a chunk, and its body.
unfoldable pub deliver_one : CallStateEvent → PresenceTcpClient → PresenceTcpClient
deliver_one ev c =
    let c1 = record c {
      stats = record c.stats { events_received = c.stats.events_received + 1 };
    } in
    if c1.has_event_callback
    then record c1 {
      delivered = c1.delivered ++ ev ∷ [];
      stats = record c1.stats { events_delivered = c1.stats.events_delivered + 1 };
    }
    else c1

unfoldable pub deliver : List CallStateEvent → PresenceTcpClient → PresenceTcpClient
deliver [] c = c
deliver (ev ∷ evs) c = deliver evs (deliver_one ev c)

-- The body of the read loop for a chunk that `recv` gives.
unfoldable pub read_chunk : ℕ → Text → PresenceTcpClient → PresenceTcpClient
read_chunk now chunk c =
    let (parser, r) = feed now (some chunk) c.parser in
    deliver r.events (record c {
      parser = parser;
      last_heartbeat =
          if r.received_heartbeat || not (is_empty r.events) then now else c.last_heartbeat;
      stats = record c.stats {
        bytes_received = c.stats.bytes_received + length chunk;
        parse_errors = if is_empty r.error then c.stats.parse_errors else c.stats.parse_errors + 1;
      };
    })

abbrev pub count_failover : PresenceTcpClient → PresenceTcpClient
count_failover c = record c {
  stats = record c.stats { failover_count = c.stats.failover_count + 1 };
}

unfoldable pub connect_failed :
    ℕ → PresenceServerEndpoint → PresenceFailoverManager → PresenceTcpClient → PresenceTcpClient
connect_failed now ep m c =
    let c1 = count_failover (record c { failover_mgr = some (report_failure now ep m) }) in
    if c1.stop_requested then c1 else reconnect_with_backoff c1

-- What a round does with the server that the manager names, up to the wait for the connection and
-- behind it.
unfoldable pub after_open :
    ℕ
    → PresenceServerEndpoint
    → PresenceFailoverManager
    → PresenceTcpClient × Result
    → PresenceTcpClient × Option PresenceServerEndpoint
after_open now ep m (c, ok) = (c, some ep)
after_open now ep m (c, _) = (connect_failed now ep m c, none)

unfoldable pub after_connect :
    ℕ
    → PresenceServerEndpoint
    → PresenceFailoverManager
    → PresenceTcpClient × Result
    → PresenceTcpClient × Bool
after_connect now ep m (c, ok) = (record c { failover_mgr = some (report_success now ep m) }, true)
after_connect now ep m (c, _) = (connect_failed now ep m c, false)

unfoldable pub try_server :
    ℕ
    → Opening
    → PresenceServerEndpoint
    → PresenceFailoverManager
    → PresenceTcpClient
    → PresenceTcpClient × Option PresenceServerEndpoint
try_server now opening ep m c = elim (is_empty ep.host) [
  | true ↦ (reconnect_with_backoff c, none)
  | false ↦ after_open now ep m (open_connection opening ep c)
]

-- A round of the reader's thread up to the wait for a connection, with the server it waits for.
-- `draw` is the random strategy's.
unfoldable pub begin_round :
    ℕ → ℕ → Opening → PresenceTcpClient → PresenceTcpClient × Option PresenceServerEndpoint
begin_round draw now opening c =
    elim c.failover_mgr as (λ _. PresenceTcpClient × Option PresenceServerEndpoint) [
      | none ↦ (leave_loop c, none)
      | some m ↦
          let (m1, ep) = get_next_server draw now m in
          try_server now opening ep m1 (record c { failover_mgr = some m1 })
    ]

-- From the wait up to the read loop; `true` where it goes there.
unfoldable pub settle_round :
    ℕ → ConnectOutcome → PresenceServerEndpoint → PresenceTcpClient → PresenceTcpClient × Bool
settle_round now outcome ep c = elim c.failover_mgr as (λ _. PresenceTcpClient × Bool) [
  | none ↦ (c, false)
  | some m ↦ after_connect now ep m (settle_connection now outcome ep c)
]

-- The rest of the round, once the read loop has been left.
unfoldable pub end_round : ℕ → PresenceServerEndpoint → PresenceTcpClient → PresenceTcpClient
end_round now ep c =
    let c1 = close_socket c in
    let c2 = record c1 {
      stats = record c1.stats { disconnect_count = c1.stats.disconnect_count + 1 };
    } in
    let c3 = set_connection_state disconnected [] c2 in
    let c4 = count_failover (record c3 {
      failover_mgr = elim c3.failover_mgr [ none ↦ none | some m ↦ some (report_failure now ep m) ];
    }) in
    if c4.stop_requested then c4 else reconnect_with_backoff c4
