-- ===== src/Presence/TcpClient/Rounds.antt =====
-- What a round of the reader's thread of PresenceTcpClient keeps, from the choice of a server to the
-- disconnection.
use sip_event_processor.Prelude.{
  ℕ, ◌≡◌, ◌≤◌, refl, Bool, true, none, ◌||◌, Option, some, is_empty, arith, Bool-cases,
  Option-cases, inl, inr,
}
use sip_event_processor.Types.{Result, ok}
use sip_event_processor.Config.{PresenceServerEndpoint}
use sip_event_processor.Presence.Failover.{PresenceFailoverManager, get_next_server, report_failure}
use sip_event_processor.Presence.TcpClient.{
  PresenceTcpClient, Opening, ConnectOutcome, set_connection_state, close_socket, open_connection,
  settle_connection, leave_loop, connect_failed, after_open, settle_round, begin_round, end_round,
  after_connect, try_server,
}
use sip_event_processor.Presence.TcpClient.Core.{
  Core, Same-Core, close-Core, backoff-Core, open-Core, settle-Core, failed-Core, retry-Core,
}

module _ (low high : ℕ) (run : Bool) (ordered : low ≤ high) where
  pub lost-Core :
      (now : ℕ) (ep : PresenceServerEndpoint) (m : PresenceFailoverManager) (c : PresenceTcpClient)
      → Core low high run c
      → Core low high run (connect_failed now ep m c)
  unfolding connect_failed
  lost-Core now ep m c v =
      retry-Core low high run ordered _
        (failed-Core low high run ordered (some (report_failure now ep m)) c v)

  pub after-Core :
      (now : ℕ) (ep : PresenceServerEndpoint) (m : PresenceFailoverManager) (c : PresenceTcpClient)
      (r : Result)
      → Core low high run c
      → Core low high run (after_connect now ep m (c, r)).0
  unfolding after_connect
  after-Core now ep m c ok v =
      Same-Core low high run ordered c _ (refl, refl, refl, refl, refl, refl, refl) v.above v.below
        v.socket v
  after-Core now ep m c r v = lost-Core now ep m c v

  pub settle_round-Core :
      (now : ℕ) (outcome : ConnectOutcome) (ep : PresenceServerEndpoint) (c : PresenceTcpClient)
      → (c.socket_open || c.stop_requested) ≡ true
      → Core low high run c
      → Core low high run (settle_round now outcome ep c).0
  unfolding settle_round
  settle_round-Core now outcome ep c w v = elim (Option-cases c.failover_mgr) [
    | inl e ↦ simp (settle_round, e) v
    | inr (m, e) ↦
        let (c1, r) = settle_connection now outcome ep c in
        simp (settle_round, e)
          (after-Core now ep m c1 r (settle-Core low high run ordered now outcome ep c w v))
  ]

  -- Where the thread waits for a connection, it has a socket.
  abbrev pub Begun : PresenceTcpClient × Option PresenceServerEndpoint → Type 0
  Begun (c, none) = Core low high run c
  Begun (c, some ep) = Core low high run c × ((c.socket_open || c.stop_requested) ≡ true)

  after_open-Begun :
      (now : ℕ) (ep : PresenceServerEndpoint) (m : PresenceFailoverManager) (c : PresenceTcpClient)
      (r : Result)
      → Core low high run c
      → (r ≡ ok → (c.socket_open || c.stop_requested) ≡ true)
      → Begun (after_open now ep m (c, r))
  unfolding after_open
  after_open-Begun now ep m c ok v w = (v, w refl)
  after_open-Begun now ep m c r v w = lost-Core now ep m c v

  open-socket :
      (opening : Opening) (ep : PresenceServerEndpoint) (c : PresenceTcpClient)
      → (open_connection opening ep c).1 ≡ ok
      → ((open_connection opening ep c).0.socket_open
          || (open_connection opening ep c).0.stop_requested)
        ≡ true
  unfolding open_connection set_connection_state
  open-socket opening ep c e = ground (arith, e)

  try-Begun :
      (now : ℕ) (opening : Opening) (ep : PresenceServerEndpoint) (m : PresenceFailoverManager)
      (c : PresenceTcpClient)
      → Core low high run c
      → Begun (try_server now opening ep m c)
  unfolding try_server
  try-Begun now opening ep m c v = elim (Bool-cases (is_empty ep.host)) [
    | inl e ↦ simp (try_server, e) (backoff-Core low high run ordered c v)
    | inr e ↦
        let (c1, r) = open_connection opening ep c in
        simp (try_server, e)
          (after_open-Begun now ep m c1 r (open-Core low high run ordered opening ep c e v)
            (open-socket opening ep c))
  ]

  pub begin-Begun :
      (draw now : ℕ) (opening : Opening) (c : PresenceTcpClient)
      → Core low high run c
      → Begun (begin_round draw now opening c)
  unfolding begin_round leave_loop
  begin-Begun draw now opening c v = elim (Option-cases c.failover_mgr) [
    | inl e ↦ simp (begin_round, e) (close-Core low high run ordered c v)
    | inr (m, e) ↦
        let (m1, ep) = get_next_server draw now m in
        let c1 : PresenceTcpClient = record c { failover_mgr = some m1 } in
        simp (begin_round, e)
          (try-Begun now opening ep m1 c1 (
            Same-Core low high run ordered c c1 (refl, refl, refl, refl, refl, refl, refl) v.above
              v.below v.socket v))
  ]

  pub end-Core :
      (now : ℕ) (ep : PresenceServerEndpoint) (c : PresenceTcpClient)
      → Core low high run c
      → Core low high run (end_round now ep c)
  unfolding end_round close_socket set_connection_state
  end-Core now ep c v = retry-Core low high run ordered _ (
      Same-Core low high run ordered c _ (refl, refl, refl, refl, refl, refl, refl) v.above v.below
        refl v)
