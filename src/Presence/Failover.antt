-- ===== src/Presence/Failover.antt =====
-- PresenceFailoverManager of include/presence/presence_failover_manager.h and
-- src/presence/presence_failover_manager.cpp. Each public method holds the mutex throughout; the
-- clock's reading is an argument. An index that may be -1 is an `Option`; counts of failures do
-- not wrap.
pub mod Backoff
pub mod Choice
use sip_event_processor.Prelude.{
  ℕ, zero, suc, ◌+◌, ◌-◌, ◌*◌, ◌%◌, ◌^◌, Bool, true, false, not, ◌&&◌, ◌||◌, Option, none, some,
  List, [], ◌∷◌, text_eq, length, is_empty, map, min, get_elem?, modify, ltb, leb, ◌==◌,
  if◌then◌else◌,
}
use sip_event_processor.Types.{seconds}
use sip_event_processor.Config.{PresenceServerEndpoint, FailoverStrategy, round_robin, random}

pub record ServerHealth : Type 0 where
  pub endpoint : PresenceServerEndpoint
  pub is_healthy : Bool
  pub consecutive_failures : ℕ
  pub total_failures : ℕ
  pub total_successes : ℕ
  pub last_attempt : ℕ
  pub last_success : ℕ
  pub last_failure : ℕ
  pub cooldown_until : ℕ

-- The two fields of the configuration that are read, and the state.
pub record PresenceFailoverManager : Type 0 where
  pub failover_strategy : FailoverStrategy
  pub server_cooldown : ℕ
  pub servers : List ServerHealth
  pub round_robin_index : ℕ

abbrev pub new_health : PresenceServerEndpoint → ServerHealth
new_health ep = record {
  endpoint = ep;
  is_healthy = true;
  consecutive_failures = 0;
  total_failures = 0;
  total_successes = 0;
  last_attempt = 0;
  last_success = 0;
  last_failure = 0;
  cooldown_until = 0;
}

unfoldable pub new_manager :
    FailoverStrategy → ℕ → List PresenceServerEndpoint → PresenceFailoverManager
new_manager strategy cooldown eps = record {
  failover_strategy = strategy;
  server_cooldown = cooldown;
  servers = map new_health eps;
  round_robin_index = 0;
}

abbrev pub empty_endpoint : PresenceServerEndpoint
empty_endpoint = record { host = []; port = 0; priority = 0; weight = 1 }

abbrev pub same_server : PresenceServerEndpoint → ServerHealth → Bool
same_server ep h = text_eq h.endpoint.host ep.host && h.endpoint.port == ep.port

-- The first position, from `i` on, whose element passes the test.
unfoldable pub index_where : (ServerHealth → Bool) → ℕ → List ServerHealth → Option ℕ
index_where p i [] = none
index_where p i (h ∷ hs) = let rest = index_where p (i + 1) hs in if p h then some i else rest

unfoldable pub find_server : PresenceServerEndpoint → List ServerHealth → Option ℕ
find_server ep hs = index_where (same_server ep) 0 hs

unfoldable pub is_in_cooldown : ℕ → ServerHealth → Bool
is_in_cooldown now h = if h.cooldown_until == 0 then false else ltb now h.cooldown_until

abbrev pub is_free : ℕ → ServerHealth → Bool
is_free now h = not (is_in_cooldown now h)

abbrev pub is_free_healthy : ℕ → ServerHealth → Bool
is_free_healthy now h = not (is_in_cooldown now h) && h.is_healthy

-- Whether the element at a position is there and passes the test.
abbrev pub at_test : (ServerHealth → Bool) → List ServerHealth → ℕ → Bool
at_test p hs i = elim (get_elem? hs i) [ none ↦ false | some h ↦ p h ]

-- A loop of select_round_robin: `k` rounds left, from round `i`.
unfoldable pub scan_ring : (ServerHealth → Bool) → List ServerHealth → ℕ → ℕ → ℕ → Option ℕ
scan_ring p hs start zero i = none
scan_ring p hs start (suc k) i =
    let rest = scan_ring p hs start k (i + 1) in
    let idx = (start + i) % length hs in if at_test p hs idx then some idx else rest

unfoldable pub select_round_robin : ℕ → PresenceFailoverManager → Option ℕ
select_round_robin now m =
    let n = length m.servers in
    elim (scan_ring (is_free_healthy now) m.servers m.round_robin_index n 0) [
      | some idx ↦ some idx
      | none ↦ scan_ring (is_free now) m.servers m.round_robin_index n 0
    ]

-- best < 0, or a smaller priority than the best's
abbrev pub beats : ServerHealth → Option (ℕ × ServerHealth) → Bool
beats h none = true
beats h (some (j, b)) = ltb h.endpoint.priority b.endpoint.priority

-- The loop of select_priority: the best position so far, with its server.
unfoldable pub scan_priority :
    ℕ → Option (ℕ × ServerHealth) → ℕ → List ServerHealth → Option (ℕ × ServerHealth)
scan_priority now best i [] = best
scan_priority now best i (h ∷ hs) =
    scan_priority now (if is_free now h && beats h best then some (i, h) else best) (i + 1) hs

abbrev pub position {ℓ} : {A : Type ℓ} → Option (ℕ × A) → Option ℕ
position none = none
position (some (i, a)) = some i

unfoldable pub select_priority : ℕ → PresenceFailoverManager → Option ℕ
select_priority now m = position (scan_priority now none 0 m.servers)

unfoldable pub positions_where : (ServerHealth → Bool) → ℕ → List ServerHealth → List ℕ
positions_where p i [] = []
positions_where p i (h ∷ hs) =
    let rest = positions_where p (i + 1) hs in if p h then i ∷ rest else rest

-- `draw` is what the generator gives, taken into the range of the distribution.
unfoldable pub select_random : ℕ → ℕ → PresenceFailoverManager → Option ℕ
select_random draw now m =
    let healthy = positions_where (is_free_healthy now) 0 m.servers in
    let available =
      if is_empty healthy then positions_where (is_free now) 0 m.servers else healthy in
    get_elem? available (draw % length available)

-- TimePoint::max()
abbrev pub time_max : ℕ
time_max = 2 ^ 63 - 1

-- The loop for the soonest end of a cooldown.
unfoldable pub scan_earliest : ℕ → Option ℕ → ℕ → List ServerHealth → Option ℕ
scan_earliest earliest best i [] = best
scan_earliest earliest best i (h ∷ hs) =
    scan_earliest (if ltb h.cooldown_until earliest then h.cooldown_until else earliest)
      (if ltb h.cooldown_until earliest then some i else best) (i + 1) hs

unfoldable pub select_by_strategy : ℕ → ℕ → PresenceFailoverManager → Option ℕ
select_by_strategy draw now m = elim m.failover_strategy [
  | FailoverStrategy.round_robin ↦ select_round_robin now m
  | FailoverStrategy.priority ↦ select_priority now m
  | FailoverStrategy.random ↦ select_random draw now m
]

-- Only a selection by round robin moves the index.
abbrev pub advance : Option ℕ → PresenceFailoverManager → PresenceFailoverManager
advance none m = m
advance (some idx) m = elim m.failover_strategy [
  | FailoverStrategy.round_robin ↦ record m { round_robin_index = (idx + 1) % length m.servers }
  | FailoverStrategy.priority ↦ m
  | FailoverStrategy.random ↦ m
]

-- The position that is used: the strategy's choice, or else the soonest end of a cooldown.
unfoldable pub choose_server : ℕ → ℕ → PresenceFailoverManager → Option ℕ
choose_server draw now m = elim (select_by_strategy draw now m) [
  | some idx ↦ some idx
  | none ↦ scan_earliest time_max none 0 m.servers
]

abbrev pub endpoint_at : Option ServerHealth → PresenceServerEndpoint
endpoint_at none = empty_endpoint
endpoint_at (some h) = h.endpoint

unfoldable pub get_next_server :
    ℕ → ℕ → PresenceFailoverManager → PresenceFailoverManager × PresenceServerEndpoint
get_next_server draw now m =
    let m1 = advance (select_by_strategy draw now m) m in
    elim (choose_server draw now m) [
      | none ↦ (m1, empty_endpoint)
      | some idx ↦ (
        record m1 { servers = modify (λ h. record h { last_attempt = now }) m1.servers idx },
        endpoint_at (get_elem? m.servers idx),
      )
    ]

-- The methods that change the server of an endpoint, if there is one.
abbrev pub at_server :
    PresenceServerEndpoint
    → (ServerHealth → ServerHealth)
    → PresenceFailoverManager
    → PresenceFailoverManager
at_server ep f m = elim (find_server ep m.servers) [
  | none ↦ m
  | some idx ↦ record m { servers = modify f m.servers idx }
]

unfoldable pub note_success : ℕ → ServerHealth → ServerHealth
note_success now h = record h {
  is_healthy = true;
  consecutive_failures = 0;
  total_successes = h.total_successes + 1;
  last_success = now;
  cooldown_until = 0;
}

unfoldable pub note_failure : ℕ → ℕ → ServerHealth → ServerHealth
note_failure cooldown now h =
    let failures = h.consecutive_failures + 1 in
    record h {
      consecutive_failures = failures;
      total_failures = h.total_failures + 1;
      last_failure = now;
      cooldown_until = now + seconds (cooldown * min failures 5);
      is_healthy = if leb 3 failures then false else h.is_healthy;
    }

unfoldable pub report_success :
    ℕ → PresenceServerEndpoint → PresenceFailoverManager → PresenceFailoverManager
report_success now ep m = at_server ep (note_success now) m

unfoldable pub report_failure :
    ℕ → PresenceServerEndpoint → PresenceFailoverManager → PresenceFailoverManager
report_failure now ep m = at_server ep (note_failure m.server_cooldown now) m

unfoldable pub mark_unhealthy :
    PresenceServerEndpoint → PresenceFailoverManager → PresenceFailoverManager
mark_unhealthy ep m = at_server ep (λ h. record h { is_healthy = false }) m

unfoldable pub mark_healthy :
    PresenceServerEndpoint → PresenceFailoverManager → PresenceFailoverManager
mark_healthy ep m = at_server ep (λ h. record h { is_healthy = true; cooldown_until = 0 }) m

unfoldable pub any_free : ℕ → List ServerHealth → Bool
any_free now [] = false
any_free now (h ∷ hs) = is_free now h || any_free now hs

unfoldable pub any_server_available : ℕ → PresenceFailoverManager → Bool
any_server_available now m = any_free now m.servers

abbrev count_healthy : List ServerHealth → ℕ
count_healthy [] = 0
count_healthy (h ∷ hs) = (if h.is_healthy then 1 else 0) + count_healthy hs

unfoldable pub healthy_count : PresenceFailoverManager → ℕ
healthy_count m = count_healthy m.servers

abbrev pub reset : ServerHealth → ServerHealth
reset h = record h { is_healthy = true; consecutive_failures = 0; cooldown_until = 0 }

unfoldable pub reset_all : PresenceFailoverManager → PresenceFailoverManager
reset_all m = record m { servers = map reset m.servers }
