-- ===== src/Presence/TcpClient/Core.antt =====
-- What every part of a round of the reader's thread of PresenceTcpClient keeps.
use sip_event_processor.Prelude.{
  ℕ, ◌-◌, ◌*◌, ◌≡◌, ◌≤◌, ◌∙◌, refl, Bool, true, false, not, ◌||◌, Option, some, List, [], ◌∷◌, Text,
  is_empty, length, length-append, arith, Bool-cases, inl, inr, ltb, if◌then◌else◌,
}
use sip_event_processor.Types.{seconds}
use sip_event_processor.Config.{PresenceServerEndpoint}
use sip_event_processor.Presence.CallEvent.{CallStateEvent}
use sip_event_processor.Presence.Parser.Counts.{all_valid, all_valid-append, feed-Counted}
use sip_event_processor.Presence.Failover.{PresenceFailoverManager}
use sip_event_processor.Presence.TcpClient.{
  ConnectionState, PresenceTcpClient, Opening, no_address, no_socket, opened, ConnectOutcome,
  refused, too_late, connects, set_connection_state, is_connected_state, close_socket,
  open_connection, settle_connection, reconnect_with_backoff, check_heartbeat_timeout, deliver,
  deliver_one, read_chunk, count_failover,
}

-- The back-off is within its bounds, a connected client has a socket unless it is to stop, every
-- event that was received was handed on, and those that were are valid; `run` is the flag.
pub record Core (low high : ℕ) (run : Bool) (c : PresenceTcpClient) : Type 0 where
  pub same_low : c.reconnect_interval ≡ low
  pub same_high : c.reconnect_max_interval ≡ high
  pub callback : c.has_event_callback ≡ true
  pub above : low ≤ c.current_backoff
  pub below : c.current_backoff ≤ high
  pub flag : c.running ≡ run
  pub socket : (not c.is_connected || (c.socket_open || c.stop_requested)) ≡ true
  pub counted : c.stats.events_delivered ≡ length c.delivered
  pub all_handed_on : c.stats.events_received ≡ c.stats.events_delivered
  pub valid : all_valid c.delivered ≡ true

module _ (low high : ℕ) (run : Bool) (ordered : low ≤ high) where
  pub close-Core :
      (c : PresenceTcpClient) → Core low high run c → Core low high run (close_socket c)
  unfolding close_socket
  close-Core c v = record {
    same_low = v.same_low;
    same_high = v.same_high;
    callback = v.callback;
    above = v.above;
    below = v.below;
    flag = v.flag;
    socket = refl;
    counted = v.counted;
    all_handed_on = v.all_handed_on;
    valid = v.valid;
  }

  -- What the proofs need of a client: two clients that agree on it are Core together.
  abbrev pub Same : PresenceTcpClient → PresenceTcpClient → Type 0
  Same c d =
      (d.reconnect_interval ≡ c.reconnect_interval)
      × (d.reconnect_max_interval ≡ c.reconnect_max_interval)
      × (d.has_event_callback ≡ c.has_event_callback)
      × (d.stats.events_received ≡ c.stats.events_received)
      × (d.stats.events_delivered ≡ c.stats.events_delivered)
      × (d.delivered ≡ c.delivered)
      × (d.running ≡ c.running)

  pub Same-Core :
      (c d : PresenceTcpClient)
      → Same c d
      → low ≤ d.current_backoff
      → d.current_backoff ≤ high
      → (not d.is_connected || (d.socket_open || d.stop_requested)) ≡ true
      → Core low high run c
      → Core low high run d
  Same-Core c d (interval, longest, callback, received, delivered, events, flag) a b k v = record {
    same_low = interval ∙ v.same_low;
    same_high = longest ∙ v.same_high;
    callback = callback ∙ v.callback;
    above = a;
    below = b;
    flag = flag ∙ v.flag;
    socket = k;
    counted = ground (arith, delivered, events, v.counted);
    all_handed_on = ground (arith, received, delivered, v.all_handed_on);
    valid = ground (arith, events, v.valid);
  }

  -- Telling a state that is not that of a connection.
  pub state-Core :
      (state : ConnectionState) (detail : Text) (c : PresenceTcpClient)
      → is_connected_state state ≡ false
      → Core low high run c
      → Core low high run (set_connection_state state detail c)
  unfolding set_connection_state
  state-Core state detail c h v =
      Same-Core c _ (refl, refl, refl, refl, refl, refl, refl) v.above v.below (ground (arith, h)) v

  pub backoff-Core :
      (c : PresenceTcpClient) → Core low high run c → Core low high run (reconnect_with_backoff c)
  unfolding reconnect_with_backoff set_connection_state
  backoff-Core c v =
      Same-Core c _ (refl, refl, refl, refl, refl, refl, refl)
        (omega (arith, v.above, v.same_high, ordered)) (omega (arith, v.same_high)) refl v

  pub open-Core :
      (opening : Opening) (ep : PresenceServerEndpoint) (c : PresenceTcpClient)
      → is_empty ep.host ≡ false
      → Core low high run c
      → Core low high run (open_connection opening ep c).0
  unfolding open_connection set_connection_state
  open-Core no_address ep c e v =
      simp (open_connection, e)
        (Same-Core c _ (refl, refl, refl, refl, refl, refl, refl) v.above v.below refl v)
  open-Core no_socket ep c e v =
      simp (open_connection, e)
        (Same-Core c _ (refl, refl, refl, refl, refl, refl, refl) v.above v.below refl v)
  open-Core opened ep c e v =
      simp (open_connection, e)
        (Same-Core c _ (refl, refl, refl, refl, refl, refl, refl) v.above v.below refl v)

  -- A connection that is waited for has its socket, unless the client is to stop.
  pub settle-Core :
      (now : ℕ) (outcome : ConnectOutcome) (ep : PresenceServerEndpoint) (c : PresenceTcpClient)
      → (c.socket_open || c.stop_requested) ≡ true
      → Core low high run c
      → Core low high run (settle_connection now outcome ep c).0
  unfolding settle_connection set_connection_state close_socket
  settle-Core now refused ep c w v =
      Same-Core c _ (refl, refl, refl, refl, refl, refl, refl) v.above v.below refl v
  settle-Core now too_late ep c w v =
      Same-Core c _ (refl, refl, refl, refl, refl, refl, refl) v.above v.below refl v
  settle-Core now connects ep c w v =
      Same-Core c _ (refl, refl, refl, refl, refl, refl, refl) (omega (arith, v.same_low))
        (omega (arith, v.same_low, ordered)) w v

  pub heartbeat-Core :
      (now : ℕ) (c : PresenceTcpClient)
      → Core low high run c
      → Core low high run (check_heartbeat_timeout now c)
  unfolding check_heartbeat_timeout close_socket
  heartbeat-Core now c v =
      elim (Bool-cases (
        ltb (seconds (c.heartbeat_interval * c.heartbeat_miss_threshold))
          (now - c.last_heartbeat))) [
            | inl e ↦
                simp (check_heartbeat_timeout, e)
                  (Same-Core c _ (refl, refl, refl, refl, refl, refl, refl) v.above v.below refl v)
            | inr e ↦ simp (check_heartbeat_timeout, e) v
          ]

  pub deliver_one-Core :
      (ev : CallStateEvent) (c : PresenceTcpClient)
      → ev.is_valid ≡ true
      → Core low high run c
      → Core low high run (deliver_one ev c)
  unfolding deliver_one
  deliver_one-Core ev c h v =
      let longer = length-append c.delivered (ev ∷ []) in
      let all = all_valid-append c.delivered (ev ∷ []) v.valid (ground (arith, h)) in
      record {
        flag = ground (arith, v.flag);
        same_low = ground (arith, v.same_low);
        same_high = ground (arith, v.same_high);
        callback = ground (arith, v.callback);
        above = ground (arith, v.above);
        below = ground (arith, v.below);
        socket = ground (arith, v.socket);
        counted = ground (arith, v.callback, v.counted, longer);
        all_handed_on = ground (arith, v.callback, v.all_handed_on);
        valid = ground (arith, v.callback, all);
      }

  pub deliver-Core :
      (evs : List CallStateEvent) (c : PresenceTcpClient)
      → all_valid evs ≡ true
      → Core low high run c
      → Core low high run (deliver evs c)
  unfolding deliver
  deliver-Core [] c h v = v
  deliver-Core (ev ∷ evs) c h v =
      deliver-Core evs (deliver_one ev c) (ground (arith, h))
        (deliver_one-Core ev c (ground (arith, h)) v)

  pub chunk-Core :
      (now : ℕ) (chunk : Text) (c : PresenceTcpClient)
      → Core low high run c
      → Core low high run (read_chunk now chunk c)
  unfolding read_chunk
  chunk-Core now chunk c v =
      let (_, valid) = feed-Counted now (some chunk) c.parser in
      deliver-Core _ _ valid
        (Same-Core c _ (refl, refl, refl, refl, refl, refl, refl) v.above v.below v.socket v)

  pub choose-Core :
      (b : Bool) (c d : PresenceTcpClient)
      → Core low high run c
      → Core low high run d
      → Core low high run (if b then c else d)
  choose-Core true c d v w = v
  choose-Core false c d v w = w

  -- The failover manager and its count do not matter.
  pub failed-Core :
      (m : Option PresenceFailoverManager) (c : PresenceTcpClient)
      → Core low high run c
      → Core low high run (count_failover (record c { failover_mgr = m }))
  failed-Core m c v =
      Same-Core c _ (refl, refl, refl, refl, refl, refl, refl) v.above v.below v.socket v

  pub retry-Core :
      (c : PresenceTcpClient)
      → Core low high run c
      → Core low high run (if c.stop_requested then c else reconnect_with_backoff c)
  retry-Core c v = choose-Core c.stop_requested c (reconnect_with_backoff c) v (backoff-Core c v)
