-- ===== src/Types.antt =====
-- include/common/types.h, and the enumerations of include/subscription/subscription_type.h,
-- include/subscription/subscription_state.h, include/sip/sip_event.h and
-- include/presence/call_state_event.h with their conversions.
-- A TimePoint is the clock's count of nanoseconds; `TimePoint{}` is 0.
pub mod Names
use sip_event_processor.Prelude.{
  ℕ, ◌*◌, Bool, true, false, Option, none, some, Text, codes, text_eq, find_sub, if◌then◌else◌,
}

-- Seconds(n), in clock ticks
abbrev pub seconds : ℕ → ℕ
seconds n = n * 1000000000

-- Millisecs(n), in clock ticks
abbrev pub millisecs : ℕ → ℕ
millisecs n = n * 1000000

pub data Result : Type 0 where
  ok error timeout not_found already_exists capacity_exceeded invalid_argument : Result
  shutting_down connection_lost parse_error persistence_error : Result

unfoldable pub result_to_string : Result → Text
result_to_string ok = codes "OK"
result_to_string error = codes "Error"
result_to_string timeout = codes "Timeout"
result_to_string not_found = codes "NotFound"
result_to_string already_exists = codes "AlreadyExists"
result_to_string capacity_exceeded = codes "CapacityExceeded"
result_to_string invalid_argument = codes "InvalidArgument"
result_to_string shutting_down = codes "ShuttingDown"
result_to_string connection_lost = codes "ConnectionLost"
result_to_string parse_error = codes "ParseError"
result_to_string persistence_error = codes "PersistenceError"

pub data SubscriptionType : Type 0 where
  unknown blf mwi : SubscriptionType

abbrev pub type_eq : SubscriptionType → SubscriptionType → Bool
type_eq SubscriptionType.unknown SubscriptionType.unknown = true
type_eq SubscriptionType.blf SubscriptionType.blf = true
type_eq SubscriptionType.mwi SubscriptionType.mwi = true
type_eq _ _ = false

unfoldable pub subscription_type_to_string : SubscriptionType → Text
subscription_type_to_string SubscriptionType.blf = codes "BLF"
subscription_type_to_string SubscriptionType.mwi = codes "MWI"
subscription_type_to_string SubscriptionType.unknown = codes "Unknown"

-- A null header is `none`.
unfoldable pub parse_subscription_type : Option Text → SubscriptionType
parse_subscription_type none = SubscriptionType.unknown
parse_subscription_type (some ev) = elim (find_sub (codes "dialog") ev) [
  | some _ ↦ SubscriptionType.blf
  | none ↦ elim (find_sub (codes "message-summary") ev) [
    | some _ ↦ SubscriptionType.mwi
    | none ↦ SubscriptionType.unknown
  ]
]

unfoldable pub subscription_type_from_string : Text → SubscriptionType
subscription_type_from_string s =
    if text_eq s (codes "BLF")
    then SubscriptionType.blf
    else if text_eq s (codes "MWI")
    then SubscriptionType.mwi
    else SubscriptionType.unknown

unfoldable pub subscription_type_to_event_header : SubscriptionType → Option Text
subscription_type_to_event_header SubscriptionType.blf = some (codes "dialog")
subscription_type_to_event_header SubscriptionType.mwi = some (codes "message-summary")
subscription_type_to_event_header SubscriptionType.unknown = none

pub data SubLifecycle : Type 0 where
  pending active terminating terminated : SubLifecycle

abbrev pub lifecycle_eq : SubLifecycle → SubLifecycle → Bool
lifecycle_eq SubLifecycle.pending SubLifecycle.pending = true
lifecycle_eq SubLifecycle.active SubLifecycle.active = true
lifecycle_eq SubLifecycle.terminating SubLifecycle.terminating = true
lifecycle_eq SubLifecycle.terminated SubLifecycle.terminated = true
lifecycle_eq _ _ = false

unfoldable pub lifecycle_to_string : SubLifecycle → Text
lifecycle_to_string SubLifecycle.pending = codes "Pending"
lifecycle_to_string SubLifecycle.active = codes "Active"
lifecycle_to_string SubLifecycle.terminating = codes "Terminating"
lifecycle_to_string SubLifecycle.terminated = codes "Terminated"

unfoldable pub lifecycle_from_string : Text → SubLifecycle
lifecycle_from_string s =
    if text_eq s (codes "Pending")
    then SubLifecycle.pending
    else if text_eq s (codes "Active")
    then SubLifecycle.active
    else if text_eq s (codes "Terminating")
    then SubLifecycle.terminating
    else if text_eq s (codes "Terminated")
    then SubLifecycle.terminated
    else SubLifecycle.pending

pub data SipDirection : Type 0 where
  incoming outgoing : SipDirection

abbrev pub is_incoming : SipDirection → Bool
is_incoming SipDirection.incoming = true
is_incoming SipDirection.outgoing = false

pub data SipEventCategory : Type 0 where
  subscribe notify publish presence_trigger unknown : SipEventCategory

abbrev pub is_subscribe : SipEventCategory → Bool
is_subscribe SipEventCategory.subscribe = true
is_subscribe _ = false

abbrev pub is_notify : SipEventCategory → Bool
is_notify SipEventCategory.notify = true
is_notify _ = false

pub data SipEventSource : Type 0 where
  sip_stack presence_feed : SipEventSource

abbrev pub is_presence_feed : SipEventSource → Bool
is_presence_feed SipEventSource.presence_feed = true
is_presence_feed SipEventSource.sip_stack = false

pub data CallState : Type 0 where
  unknown trying ringing confirmed terminated held resumed : CallState

unfoldable pub call_state_to_string : CallState → Text
call_state_to_string CallState.trying = codes "trying"
call_state_to_string CallState.ringing = codes "early"
call_state_to_string CallState.confirmed = codes "confirmed"
call_state_to_string CallState.terminated = codes "terminated"
call_state_to_string CallState.held = codes "confirmed"
call_state_to_string CallState.resumed = codes "confirmed"
call_state_to_string CallState.unknown = codes "unknown"

abbrev pub call_state_to_blf_state : CallState → Text
call_state_to_blf_state s = call_state_to_string s
