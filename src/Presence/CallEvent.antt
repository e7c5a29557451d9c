-- ===== src/Presence/CallEvent.antt =====
-- CallStateEvent of include/presence/call_state_event.h.
use sip_event_processor.Prelude.{ℕ, ◌+◌, ◌%◌, ◌^◌, Bool, Text}
use sip_event_processor.Types.{CallState}

pub record CallStateEvent : Type 0 where
  pub id : ℕ
  pub presence_call_id : Text
  pub caller_uri : Text
  pub callee_uri : Text
  pub state : CallState
  pub direction : Text
  pub tenant_id : Text
  pub timestamp_str : Text
  pub received_at : ℕ
  pub is_valid : Bool

-- CallStateEvent::next_id: the counter before the call gives the counter after it, which is the
-- identifier.
unfoldable pub next_event_id : ℕ → ℕ
next_event_id counter = (counter + 1) % 2 ^ 64
