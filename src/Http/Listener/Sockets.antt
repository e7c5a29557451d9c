-- ===== src/Http/Listener/Sockets.antt =====
-- The sockets of the HTTP server over every sequence of what its threads do.
use sip_event_processor.Prelude.{◌+◌, ◌≡◌, true, not, ◌||◌, if◌then◌else◌, arith}
use sip_event_processor.Http.Listener.{
  Outcome, Polled, Listener, start, server_round, request_stop, finish_stop,
}

pub data Step : Listener → Listener → Type 0 where
  starts : (outcome : Outcome) (l : Listener) → Step l (start outcome l).0
  turns : (polled : Polled) (l : Listener) → Step l (server_round polled l)
  asks_stop : (l : Listener) → Step l (request_stop l)
  stops : (l : Listener) → l.stop_requested ≡ true → Step l (finish_stop l)

pub data Reach (l : Listener) : Listener → Type 0 where
  here : Reach l l
  next : {m n : Listener} → Reach l m → Step m n → Reach l n

-- The open descriptors are the listening socket or none; that socket is open only while the server
-- runs, and is closed once a stop is asked for; the thread serves only while the server runs.
pub record Balanced (l : Listener) : Type 0 where
  pub counted : l.opened ≡ l.closed + (if l.socket_open then 1 else 0)
  pub open_runs : (not l.socket_open || l.running) ≡ true
  pub open_until_asked : (not l.running || (l.socket_open || l.stop_requested)) ≡ true
  pub asked_closed : (not l.running || (not l.stop_requested || not l.socket_open)) ≡ true
  pub serves_running : (not l.serving || l.running) ≡ true

Step-Balanced : {l m : Listener} → Step l m → Balanced l → Balanced m
unfolding start server_round request_stop finish_stop
Step-Balanced (starts outcome l) b = ground arith
Step-Balanced (turns polled l) b = ground arith
Step-Balanced (asks_stop l) b = ground arith
Step-Balanced (stops l asked) b = ground arith

-- From a balanced server, as a new one is, any sequence of starts, with any outcome of the calls
-- of the socket interface, of rounds of the thread, with any connection and any bytes, and of
-- stops, leads to a balanced one: every socket that was opened is closed again, but for the
-- listening one of a server that runs and was not asked to stop.
pub Reach-Balanced : {l m : Listener} → Balanced l → Reach l m → Balanced m
Reach-Balanced b here = b
Reach-Balanced b (next r st) = Step-Balanced st (Reach-Balanced b r)
