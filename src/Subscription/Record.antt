-- ===== src/Subscription/Record.antt =====
-- SubscriptionRecord of include/subscription/subscription_state.h.
use sip_event_processor.Prelude.{
  ℕ, ◌+◌, Bool, true, false, not, [], Text, ℤ, pos, ltb, ◌==◌, if◌then◌else◌,
}
use sip_event_processor.Types.{SubscriptionType, SubLifecycle}

pub record SubscriptionRecord : Type 0 where
  pub dialog_id : Text
  pub tenant_id : Text
  pub type : SubscriptionType
  pub lifecycle : SubLifecycle
  pub created_at : ℕ
  pub last_activity : ℕ
  pub expires_at : ℕ
  pub cseq : ℕ
  pub notify_cseq : ℕ
  pub events_processed : ℕ
  pub is_processing : Bool
  pub processing_started_at : ℕ
  pub dirty : Bool
  pub blf_monitored_uri : Text
  pub blf_last_state : Text
  pub blf_last_direction : Text
  pub blf_presence_call_id : Text
  pub blf_last_notify_body : Text
  pub blf_notify_version : ℕ
  pub mwi_new_messages : ℤ
  pub mwi_old_messages : ℤ
  pub mwi_account_uri : Text
  pub mwi_last_notify_body : Text
  pub from_uri : Text
  pub from_tag : Text
  pub to_uri : Text
  pub to_tag : Text
  pub call_id : Text
  pub contact_uri : Text

-- The default member initialisers.
abbrev pub default_record : ℕ → SubscriptionRecord
default_record now = record {
  dialog_id = [];
  tenant_id = [];
  type = SubscriptionType.unknown;
  lifecycle = SubLifecycle.pending;
  created_at = now;
  last_activity = now;
  expires_at = 0;
  cseq = 0;
  notify_cseq = 0;
  events_processed = 0;
  is_processing = false;
  processing_started_at = 0;
  dirty = false;
  blf_monitored_uri = [];
  blf_last_state = [];
  blf_last_direction = [];
  blf_presence_call_id = [];
  blf_last_notify_body = [];
  blf_notify_version = 0;
  mwi_new_messages = pos 0;
  mwi_old_messages = pos 0;
  mwi_account_uri = [];
  mwi_last_notify_body = [];
  from_uri = [];
  from_tag = [];
  to_uri = [];
  to_tag = [];
  call_id = [];
  contact_uri = [];
}

abbrev pub touch : ℕ → SubscriptionRecord → SubscriptionRecord
touch now rec = record rec { last_activity = now; dirty = true }

unfoldable pub is_expired : ℕ → SubscriptionRecord → Bool
is_expired now rec = if rec.expires_at == 0 then false else ltb rec.expires_at now

-- `timeout` in clock ticks. A start in the future is not stuck, as the difference is negative
-- there.
unfoldable pub is_stuck : ℕ → ℕ → SubscriptionRecord → Bool
is_stuck now timeout rec =
    if not rec.is_processing then false else ltb (rec.processing_started_at + timeout) now
