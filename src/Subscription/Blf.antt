-- ===== src/Subscription/Blf.antt =====
-- BlfProcessor of include/subscription/blf_processor.h and src/subscription/blf_processor.cpp. The
-- clock's reading is an argument; the processor's own state, the counter `notify_version_`, is
-- passed to and returned by the one method that uses it.
use sip_event_processor.Prelude.{
  ℕ, ◌+◌, ◌-◌, ◌%◌, ◌^◌, Bool, true, false, not, ◌&&◌, ◌||◌, Option, none, some, [], ◌∷◌, ◌++◌,
  Text, codes, text_eq, is_empty, length, substr, find_sub, find_from, trim_left, trim_right,
  is_space, to_string, ltb, leb, ◌==◌, if◌then◌else◌,
}
use sip_event_processor.Types.{
  Result, ok, invalid_argument, SubLifecycle, SipEventCategory, lifecycle_eq, is_incoming, seconds,
}
use sip_event_processor.Sip.Event.{SipEvent}
use sip_event_processor.Subscription.Record.{SubscriptionRecord, touch}

pub record NotifyAction : Type 0 where
  pub should_notify : Bool
  pub body : Text
  pub content_type : Text
  pub subscription_state_header : Text

abbrev pub no_action : NotifyAction
no_action = record {
  should_notify = false;
  body = [];
  content_type = [];
  subscription_state_header = [];
}

identities : Text → Text → Text → Text
identities direction caller_uri callee_uri =
    if is_empty caller_uri || is_empty callee_uri
    then []
    else if text_eq direction (codes "inbound") || text_eq direction (codes "recipient")
    then codes "    <remote>\n      <identity>"
      ++ (caller_uri
          ++ (codes "</identity>\n    </remote>\n    <local>\n      <identity>"
              ++ (callee_uri ++ codes "</identity>\n    </local>\n")))
    else codes "    <local>\n      <identity>"
      ++ (caller_uri
          ++ (codes "</identity>\n    </local>\n    <remote>\n      <identity>"
              ++ (callee_uri ++ codes "</identity>\n    </remote>\n")))

-- name="value", with a space in front; nothing for an empty value
abbrev pub optional_attr : Text → Text → Text
optional_attr name value =
    if is_empty value then [] else codes " " ++ (name ++ (codes "=\"" ++ (value ++ codes "\"")))

-- The `<dialog>` element.
dialog_element : Text → Text → Text → Text → Text → Text
unfolding identities
dialog_element call_id state direction caller_uri callee_uri =
    codes "  <dialog id=\""
    ++ (call_id
        ++ (codes "\""
            ++ (optional_attr (codes "call-id") call_id
                ++ (optional_attr (codes "direction") direction
                    ++ (codes ">\n    <state>"
                        ++ (state
                            ++ (codes "</state>\n"
                                ++ (identities direction caller_uri callee_uri
                                    ++ codes "  </dialog>\n"))))))))

-- The text for the counter's value `version`; the caller raises the counter.
unfoldable pub build_dialog_info_xml : ℕ → Text → Text → Text → Text → Text → Text → Text → Text
unfolding dialog_element
build_dialog_info_xml version entity_uri dialog_id call_id state direction caller_uri callee_uri =
    codes
      "<?xml version=\"1.0\" encoding=\"UTF-8\"?>\n<dialog-info xmlns=\"urn:ietf:params:xml:ns:dialog-info\"\n  version=\""
    ++ (to_string version
        ++ (codes "\"\n  state=\"full\"\n  entity=\""
            ++ (entity_uri
                ++ (codes "\">\n"
                    ++ ((if not (text_eq state (codes "terminated")) || not (is_empty call_id)
                          then dialog_element call_id state direction caller_uri callee_uri
                          else [])
                        ++ codes "</dialog-info>\n")))))

-- Whether the trigger says anything new.
abbrev pub state_changed : SipEvent → SubscriptionRecord → Bool
state_changed event rec =
    not (text_eq rec.blf_last_state event.presence_state)
    || not (text_eq rec.blf_presence_call_id event.presence_call_id)

-- The action, the record and the counter after the call.
unfoldable pub process_presence_trigger :
    ℕ → SipEvent → SubscriptionRecord → ℕ → NotifyAction × SubscriptionRecord × ℕ
process_presence_trigger now event rec version =
    if not (lifecycle_eq rec.lifecycle SubLifecycle.active)
    then (no_action, rec, version)
    else if not (state_changed event rec) && not (is_empty rec.blf_last_state)
    then (no_action, rec, version)
    else let action : NotifyAction = record {
      should_notify = true;
      content_type = codes "application/dialog-info+xml";
      subscription_state_header = codes "active";
      body =
          build_dialog_info_xml version rec.blf_monitored_uri rec.dialog_id event.presence_call_id
            event.presence_state event.presence_direction event.presence_caller_uri
            event.presence_callee_uri;
    } in
      (
        action,
        touch now (record rec {
          blf_last_state = event.presence_state;
          blf_last_direction = event.presence_direction;
          blf_presence_call_id = event.presence_call_id;
        }),
        (version + 1) % 2 ^ 32,
      )

unfoldable pub handle_subscribe : ℕ → SipEvent → SubscriptionRecord → SubscriptionRecord × Result
handle_subscribe now event rec =
    let r1 : SubscriptionRecord = record rec {
      blf_monitored_uri = if is_empty event.to_uri then rec.blf_monitored_uri else event.to_uri;
    } in
    if event.expires == 0 then (record r1 { lifecycle = SubLifecycle.terminating }, ok) else (
      record r1 {
        expires_at = if ltb 0 event.expires then now + seconds event.expires else r1.expires_at;
        cseq = if ltb 0 event.cseq then event.cseq else r1.cseq;
        lifecycle =
            if lifecycle_eq r1.lifecycle SubLifecycle.pending
            then SubLifecycle.active
            else r1.lifecycle;
      },
      ok,
    )

pub record DialogState : Type 0 where
  pub entity : Text
  pub state : Text
  pub direction : Text
  pub id : Text
  pub valid : Bool

-- The lambda `find_attr`: the value of the first `attr="` after the first `<tag`.
find_attr : Text → Text → Text → Text
find_attr body tag attr = elim (find_sub (codes "<" ++ tag) body) [
  | none ↦ []
  | some tag_pos ↦ elim (find_from (attr ++ codes "=\"") tag_pos body) [
    | none ↦ []
    | some attr_pos ↦
        let val_start = attr_pos + length attr + 2 in
        elim (find_from (b'"' ∷ []) val_start body) [
          | none ↦ []
          | some val_end ↦ substr body val_start (val_end - val_start)
        ]
  ]
]

-- The text between the first `<state>` and the `</state>` after it.
state_text : Text → Option Text
state_text body = elim (find_sub (codes "<state>") body) [
  | none ↦ none
  | some ss ↦ elim (find_from (codes "</state>") (ss + 7) body) [
    | none ↦ none
    | some se ↦ some (substr body (ss + 7) (se - (ss + 7)))
  ]
]

unfoldable pub parse_dialog_info_xml : Text → DialogState
unfolding find_attr state_text
parse_dialog_info_xml body = record {
  entity = find_attr body (codes "dialog-info") (codes "entity");
  state = elim (state_text body) [
    | none ↦ []
    | some s ↦ trim_right is_space (trim_left is_space s)
  ];
  valid = elim (state_text body) [ none ↦ false | some _ ↦ true ];
  id = find_attr body (codes "dialog") (codes "id");
  direction = find_attr body (codes "dialog") (codes "direction");
}

unfoldable pub update_blf_state : SubscriptionRecord → DialogState → SubscriptionRecord
update_blf_state rec s = record rec {
  blf_last_state = s.state;
  blf_monitored_uri = if is_empty s.entity then rec.blf_monitored_uri else s.entity;
}

-- `if (!body.empty()) { parse; if valid, update }`, in handle_notify and handle_publish.
unfoldable pub apply_body : SipEvent → SubscriptionRecord → SubscriptionRecord
unfolding update_blf_state
apply_body event rec =
    let s = parse_dialog_info_xml event.body in
    if is_empty event.body then rec else if s.valid then update_blf_state rec s else rec

unfoldable pub handle_notify : SipEvent → SubscriptionRecord → SubscriptionRecord × Result
unfolding apply_body
handle_notify event rec =
    let r1 = apply_body event rec in
    if text_eq event.subscription_state (codes "terminated")
    then (record r1 { lifecycle = SubLifecycle.terminated }, ok)
    else (r1, ok)

unfoldable pub handle_subscribe_response :
    ℕ → SipEvent → SubscriptionRecord → SubscriptionRecord × Result
handle_subscribe_response now event rec =
    if leb 200 event.status && ltb event.status 300
    then (
      record rec {
        lifecycle =
            if lifecycle_eq rec.lifecycle SubLifecycle.pending
            then SubLifecycle.active
            else rec.lifecycle;
        expires_at = if ltb 0 event.expires then now + seconds event.expires else rec.expires_at;
      },
      ok,
    )
    else if event.status == 481 || event.status == 489
    then (record rec { lifecycle = SubLifecycle.terminated }, ok)
    else (rec, ok)

unfoldable pub handle_publish : SipEvent → SubscriptionRecord → SubscriptionRecord × Result
unfolding apply_body
handle_publish event rec = (apply_body event rec, ok)

unfoldable pub process : ℕ → SipEvent → SubscriptionRecord → SubscriptionRecord × Result
unfolding handle_subscribe handle_subscribe_response handle_notify handle_publish
process now event rec = elim event.category [
  | SipEventCategory.subscribe ↦
      if is_incoming event.direction
      then handle_subscribe now event rec
      else handle_subscribe_response now event rec
  | SipEventCategory.notify ↦ handle_notify event rec
  | SipEventCategory.publish ↦ handle_publish event rec
  | SipEventCategory.presence_trigger ↦ (rec, invalid_argument)
  | SipEventCategory.unknown ↦ (rec, invalid_argument)
]
