-- ===== src/Sip/Event.antt =====
-- include/sip/sip_event.h and src/sip/sip_event.cpp. The time and the identifier's counter are
-- arguments, a `nua_handle_t*` the number of the handle.
use sip_event_processor.Prelude.{
  ℕ, ◌+◌, ◌%◌, ◌^◌, Option, none, some, [], ◌++◌, Text, codes, take, is_empty, length, ltb,
  if◌then◌else◌,
}
use sip_event_processor.Types.{
  SubscriptionType, SipDirection, SipEventCategory, SipEventSource, parse_subscription_type,
}
use sip_event_processor.Sip.DialogId.{
  Url, Address, SipMessage, SubstateHeader, build, build_from_handle,
}

-- nua_event_t; `other` stands for the events that the program does not tell apart.
pub data NuaEvent : Type 0 where
  i_subscribe r_subscribe i_notify r_notify i_publish r_publish i_error other : NuaEvent

pub record SipEvent : Type 0 where
  pub id : ℕ
  pub dialog_id : Text
  pub tenant_id : Text
  pub nua_event : NuaEvent
  pub direction : SipDirection
  pub category : SipEventCategory
  pub sub_type : SubscriptionType
  pub source : SipEventSource
  pub status : ℕ
  pub phrase : Text
  pub call_id : Text
  pub from_uri : Text
  pub from_tag : Text
  pub to_uri : Text
  pub to_tag : Text
  pub event_header : Text
  pub content_type : Text
  pub body : Text
  pub cseq : ℕ
  pub expires : ℕ
  pub contact_uri : Text
  pub subscription_state : Text
  pub termination_reason : Text
  pub presence_call_id : Text
  pub presence_caller_uri : Text
  pub presence_callee_uri : Text
  pub presence_state : Text
  pub presence_direction : Text
  pub created_at : ℕ
  pub enqueued_at : ℕ
  pub dequeued_at : ℕ
  pub nua_handle : Option ℕ

-- The default member initialisers.
abbrev pub default_event : ℕ → SipEvent
default_event now = record {
  id = 0;
  dialog_id = [];
  tenant_id = [];
  nua_event = i_error;
  direction = SipDirection.incoming;
  category = SipEventCategory.unknown;
  sub_type = SubscriptionType.unknown;
  source = SipEventSource.sip_stack;
  status = 0;
  phrase = [];
  call_id = [];
  from_uri = [];
  from_tag = [];
  to_uri = [];
  to_tag = [];
  event_header = [];
  content_type = [];
  body = [];
  cseq = 0;
  expires = 0;
  contact_uri = [];
  subscription_state = [];
  termination_reason = [];
  presence_call_id = [];
  presence_caller_uri = [];
  presence_callee_uri = [];
  presence_state = [];
  presence_direction = [];
  created_at = now;
  enqueued_at = 0;
  dequeued_at = 0;
  nua_handle = none;
}

-- The counter before the call gives the counter after it, which is the identifier.
unfoldable pub next_id : ℕ → ℕ
next_id counter = (counter + 1) % 2 ^ 64

unfoldable pub categorize_nua_event : NuaEvent → SipEventCategory
categorize_nua_event i_subscribe = SipEventCategory.subscribe
categorize_nua_event r_subscribe = SipEventCategory.subscribe
categorize_nua_event i_notify = SipEventCategory.notify
categorize_nua_event r_notify = SipEventCategory.notify
categorize_nua_event i_publish = SipEventCategory.publish
categorize_nua_event r_publish = SipEventCategory.publish
categorize_nua_event i_error = SipEventCategory.unknown
categorize_nua_event other = SipEventCategory.unknown

unfoldable pub determine_direction : NuaEvent → SipDirection
determine_direction i_subscribe = SipDirection.incoming
determine_direction i_notify = SipDirection.incoming
determine_direction i_publish = SipDirection.incoming
determine_direction r_subscribe = SipDirection.outgoing
determine_direction r_notify = SipDirection.outgoing
determine_direction r_publish = SipDirection.outgoing
determine_direction i_error = SipDirection.outgoing
determine_direction other = SipDirection.outgoing

-- safe_copy_n
abbrev pub safe_copy_n : Option Text → ℕ → Text
safe_copy_n none max = []
safe_copy_n (some str) max = take max str

-- "sip:user@host", "sip:host", or nothing
abbrev pub url_text : Option Url → Text
url_text none = []
url_text (some u) = elim u.url_host [
  | none ↦ []
  | some host ↦ elim u.url_user [
    | some user ↦ codes "sip:" ++ (user ++ (codes "@" ++ host))
    | none ↦ codes "sip:" ++ host
  ]
]

abbrev pub address_url : Option Address → Text
address_url none = []
address_url (some a) = url_text a.a_url

abbrev pub address_tag : Option Address → Text
address_tag none = []
address_tag (some a) = safe_copy_n a.a_tag 128

abbrev pub payload_text : Option Text → Text
payload_text none = []
payload_text (some d) = if ltb (length d) 65536 then d else take 65536 d

abbrev pub number_or_zero : Option ℕ → ℕ
number_or_zero none = 0
number_or_zero (some n) = n

abbrev pub substate_text : Option SubstateHeader → Text
substate_text none = []
substate_text (some h) = safe_copy_n h.ss_substate 64

abbrev pub reason_text : Option SubstateHeader → Text
reason_text none = []
reason_text (some h) = safe_copy_n h.ss_reason 64

-- The event before the test of its dialog identifier.
unfoldable pub sofia_event :
    ℕ → ℕ → (ℕ → Text) → NuaEvent → ℕ → Option Text → Option ℕ → Option SipMessage → SipEvent
unfolding determine_direction categorize_nua_event
sofia_event now id print_pointer event status phrase nh none = record (default_event now) {
  id = id;
  nua_event = event;
  status = status;
  phrase = safe_copy_n phrase 256;
  direction = determine_direction event;
  category = categorize_nua_event event;
  nua_handle = nh;
  dialog_id = build_from_handle print_pointer nh;
}
sofia_event now id print_pointer event status phrase nh (some sip) = record (default_event now) {
  id = id;
  nua_event = event;
  status = status;
  phrase = safe_copy_n phrase 256;
  direction = determine_direction event;
  category = categorize_nua_event event;
  nua_handle = nh;
  dialog_id = build (some sip);
  call_id = safe_copy_n sip.sip_call_id 256;
  from_uri = address_url sip.sip_from;
  from_tag = address_tag sip.sip_from;
  to_uri = address_url sip.sip_to;
  to_tag = address_tag sip.sip_to;
  event_header = safe_copy_n sip.sip_event 128;
  sub_type = parse_subscription_type sip.sip_event;
  cseq = number_or_zero sip.sip_cseq;
  expires = number_or_zero sip.sip_expires % 4294967296;
  content_type = safe_copy_n sip.sip_content_type 256;
  body = payload_text sip.sip_payload;
  subscription_state = substate_text sip.sip_subscription_state;
  termination_reason = reason_text sip.sip_subscription_state;
}

-- A null result is `none`.
unfoldable pub create_from_sofia :
    ℕ → ℕ → (ℕ → Text) → NuaEvent → ℕ → Option Text → Option ℕ → Option SipMessage → Option SipEvent
unfolding sofia_event
create_from_sofia now id print_pointer event status phrase nh sip =
    let ev = sofia_event now id print_pointer event status phrase nh sip in
    if is_empty ev.dialog_id then none else some ev

unfoldable pub create_presence_trigger :
    ℕ → ℕ → Text → Text → Text → Text → Text → Text → Text → Text → SipEvent
create_presence_trigger now id dialog_id tenant_id presence_call_id caller_uri callee_uri blf_state
      direction xml =
    record (default_event now) {
      id = id;
      dialog_id = dialog_id;
      tenant_id = tenant_id;
      category = SipEventCategory.presence_trigger;
      source = SipEventSource.presence_feed;
      sub_type = SubscriptionType.blf;
      direction = SipDirection.incoming;
      presence_call_id = presence_call_id;
      presence_caller_uri = caller_uri;
      presence_callee_uri = callee_uri;
      presence_state = blf_state;
      presence_direction = direction;
      content_type = codes "application/dialog-info+xml";
      body = xml;
      nua_handle = none;
    }
