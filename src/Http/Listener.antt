-- ===== src/Http/Listener.antt =====
-- The socket and the thread of HttpServer (include/http/http_server.h, src/http/http_server.cpp).
-- What the calls of the socket interface give are parameters; a round of the thread's loop is a
-- step.
pub mod Sockets
use sip_event_processor.Prelude.{
  ℕ, ◌+◌, Bool, true, false, not, Option, none, some, List, [], ◌∷◌, ◌++◌, Text, if◌then◌else◌,
}
use sip_event_processor.Types.{Result, ok, error, already_exists}
use sip_event_processor.Http.Server.{HttpServer, serve_client}

-- Where `start` comes to: socket, bind or listen fails, or none does.
pub data Outcome : Type 0 where
  no_socket no_bind no_listen listening : Outcome

-- What poll and accept give in a round: nothing, an error on the socket, no connection, or one
-- with the bytes that recv gives of it.
pub data Polled : Type 0 where
  nothing hung_up not_accepted : Polled
  accepted : Text → Polled

-- `socket_open` is server_fd_ >= 0 and `serving` that the thread is in its loop. `opened` and
-- `closed` count the descriptors of all sockets; `sent` are the answers.
pub record Listener : Type 0 where
  pub server : HttpServer
  pub http_enabled : Bool
  pub socket_open : Bool
  pub running : Bool
  pub stop_requested : Bool
  pub serving : Bool
  pub opened : ℕ
  pub closed : ℕ
  pub sent : List Text

abbrev pub close_one : Listener → Listener
close_one l = record l { socket_open = false; closed = l.closed + 1 }

unfoldable pub start : Outcome → Listener → Listener × Result
start outcome l =
    if not l.http_enabled
    then (l, ok)
    else if l.running
    then (l, already_exists)
    else let made = record l { socket_open = true; opened = l.opened + 1 } in
      elim outcome [
        | no_socket ↦ (record l { socket_open = false }, error)
        | no_bind ↦ (close_one made, error)
        | no_listen ↦ (close_one made, error)
        | listening ↦ (record made { stop_requested = false; running = true; serving = true }, ok)
      ]

abbrev pub answers : List Text → Option Text → List Text
answers sent none = sent
answers sent (some t) = sent ++ t ∷ []

unfoldable pub server_round : Polled → Listener → Listener
server_round polled l =
    if not l.serving
    then l
    else if l.stop_requested
    then record l { serving = false }
    else elim polled [
      | nothing ↦ l
      | hung_up ↦ record l { serving = false }
      | not_accepted ↦ l
      | accepted raw ↦
          let (server, answer) = serve_client raw l.server in
          record l {
            server = server;
            opened = l.opened + 1;
            closed = l.closed + 1;
            sent = answers l.sent answer;
          }
    ]

-- `stop` up to the join of the thread, which then has left its loop, and behind it.
unfoldable pub request_stop : Listener → Listener
request_stop l =
    if not l.running
    then l
    else let asked = record l { stop_requested = true } in
      if l.socket_open then close_one asked else asked

unfoldable pub finish_stop : Listener → Listener
finish_stop l = if not l.running then l else record l { serving = false; running = false }
