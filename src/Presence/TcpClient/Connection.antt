-- ===== src/Presence/TcpClient/Connection.antt =====
-- The connection of the PresenceTcpClient over every interleaving of its thread with the calls of
-- start and stop: the back-off, the flags, and the events that are handed on.
use sip_event_processor.Prelude.{ℕ, ◌≡◌, true, not, ◌||◌, Option, none, some, Text}
use sip_event_processor.Config.{PresenceServerEndpoint}
use sip_event_processor.Presence.TcpClient.{
  PresenceTcpClient, Opening, ConnectOutcome, start, request_stop, finish_stop,
  check_heartbeat_timeout, read_chunk, begin_round, settle_round, end_round,
}
use sip_event_processor.Presence.TcpClient.Core.{Core}

-- A client, and the server to which its thread waits for a connection.
abbrev pub State : Type 0
State = PresenceTcpClient × Option PresenceServerEndpoint

-- A client that does not run is not connected; one that waits for a connection runs, and has a
-- socket unless it is to stop.
abbrev pub Waits : State → Type 0
Waits (c, none) = (c.running || not c.is_connected) ≡ true
Waits (c, some ep) = (c.running ≡ true) × ((c.socket_open || c.stop_requested) ≡ true)

abbrev pub Sound : ℕ → ℕ → State → Type 0
Sound low high (c, w) = Core low high c.running c × Waits (c, w)

-- What changes the client: the calls of `start`, and of `stop` up to the join, which can come at
-- any time, and its end, when the thread has left its loop; and, while it runs, the parts of a round
-- of its thread, a wait that ends without data, and a chunk of data.
pub data Step : State → State → Type 0 where
  starts :
      (c : PresenceTcpClient) (w : Option PresenceServerEndpoint) → Step (c, w) ((start c).0, w)
  asks_to_stop :
      (c : PresenceTcpClient) (w : Option PresenceServerEndpoint) → Step (c, w) (request_stop c, w)
  ends_stop : (c : PresenceTcpClient) → Step (c, none) (finish_stop c, none)
  begins :
      (draw now : ℕ) (opening : Opening) (c : PresenceTcpClient)
      → c.running ≡ true
      → Step (c, none) (begin_round draw now opening c)
  settles :
      (now : ℕ) (outcome : ConnectOutcome) (ep : PresenceServerEndpoint) (c : PresenceTcpClient)
      → Step (c, some ep) ((settle_round now outcome ep c).0, none)
  waits :
      (now : ℕ) (c : PresenceTcpClient)
      → c.running ≡ true
      → Step (c, none) (check_heartbeat_timeout now c, none)
  reads :
      (now : ℕ) (chunk : Text) (c : PresenceTcpClient)
      → c.running ≡ true
      → Step (c, none) (read_chunk now chunk c, none)
  ends :
      (now : ℕ) (ep : PresenceServerEndpoint) (c : PresenceTcpClient)
      → c.running ≡ true
      → Step (c, none) (end_round now ep c, none)

pub data Reach : State → State → Type 0 where
  here : (c : State) → Reach c c
  next : (b c d : State) → Reach b c → Step c d → Reach b d
