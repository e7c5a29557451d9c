-- ===== src/Sip/Callback.antt =====
-- SipCallbackHandler of include/sip/sip_callback_handler.h and src/sip/sip_callback_handler.cpp.
-- What it calls of Sofia is recorded, the latest last. Null pointers are `none`; a handle is its
-- number.
pub mod Answers
use sip_event_processor.Prelude.{
  ℕ, zero, suc, ◌+◌, Bool, true, false, not, ◌&&◌, Option, none, some, List, [], ◌∷◌, ◌++◌, Text,
  codes, if◌then◌else◌,
}
use sip_event_processor.Types.{Result, ok}
use sip_event_processor.Sip.DialogId.{Url, Address, SipMessage}
use sip_event_processor.Sip.Event.{
  NuaEvent, i_subscribe, r_subscribe, i_notify, r_notify, i_publish, r_publish, i_error, other,
  SipEvent, next_id, create_from_sofia,
}
use sip_event_processor.Dispatch.Dispatcher.{DialogDispatcher, dispatch}

-- nua_respond with NUTAG_SUBSTATE(nua_substate_terminated), nua_handle_ref and nua_handle_unref.
pub data SofiaCall : Type 0 where
  nua_respond : ℕ → ℕ → Text → SofiaCall
  nua_handle_ref nua_handle_unref : ℕ → SofiaCall

-- The pointer to the dispatcher, with what it points to, the process-wide counter of SIP events,
-- and the calls so far.
pub record SipCallbackHandler : Type 0 where
  pub dispatcher : Option DialogDispatcher
  pub event_counter : ℕ
  pub sofia_calls : List SofiaCall

unfoldable pub set_dispatcher : Option DialogDispatcher → SipCallbackHandler → SipCallbackHandler
set_dispatcher d s = record s { dispatcher = d }

unfoldable pub should_process : NuaEvent → Bool
should_process i_subscribe = true
should_process r_subscribe = true
should_process i_notify = true
should_process r_notify = true
should_process i_publish = true
should_process r_publish = true
should_process i_error = false
should_process other = false

-- The host of an address, if it has one.
abbrev pub host_of : Option Address → Option Text
host_of none = none
host_of (some a) = elim a.a_url [ none ↦ none | some u ↦ u.url_host ]

unfoldable pub extract_tenant_id : Option SipMessage → Text
extract_tenant_id none = codes "unknown"
extract_tenant_id (some sip) = elim (host_of sip.sip_to) [
  | some host ↦ host
  | none ↦ elim (host_of sip.sip_from) [ some host ↦ host | none ↦ codes "unknown" ]
]

-- event == nua_i_subscribe && nh: the handle, then.
abbrev pub incoming_subscribe : NuaEvent → Option ℕ → Option ℕ
incoming_subscribe i_subscribe nh = nh
incoming_subscribe _ nh = none

-- The calls made for a handle, if there is one.
abbrev pub calls_for : Option ℕ → (ℕ → List SofiaCall) → List SofiaCall
calls_for none f = []
calls_for (some h) f = f h

abbrev pub is_ok : Result → Bool
is_ok ok = true
is_ok _ = false

unfoldable pub nua_callback :
    (Text → ℕ)
    → ℕ
    → (ℕ → Text)
    → NuaEvent
    → ℕ
    → Option Text
    → Option ℕ
    → Option SipMessage
    → SipCallbackHandler
    → SipCallbackHandler
nua_callback hash now print_pointer event status phrase nh sip s =
    let subscriber = incoming_subscribe event nh in
    if not (should_process event) then s else elim s.dispatcher [
      | none ↦ record s {
        sofia_calls =
            s.sofia_calls
            ++ calls_for subscriber (λ h. nua_respond h 500 (codes "Internal Server Error") ∷ []);
      }
      | some d ↦
          let id = next_id s.event_counter in
          elim (create_from_sofia now id print_pointer event status phrase nh sip) [
            | none ↦ record s {
              event_counter = id;
              sofia_calls =
                  s.sofia_calls
                  ++ calls_for subscriber (λ h. nua_respond h 400 (codes "Bad Request") ∷ []);
            }
            | some sip_event ↦
                let (d', r) =
                  dispatch hash now (some (record sip_event { tenant_id = extract_tenant_id sip }))
                    d in
                record s {
                  dispatcher = some d';
                  event_counter = id;
                  sofia_calls =
                      (s.sofia_calls ++ calls_for subscriber (λ h. nua_handle_ref h ∷ []))
                      ++ (if is_ok r
                          then []
                          else calls_for subscriber (λ h.
                            nua_respond h 503 (codes "Service Unavailable")
                            ∷ nua_handle_unref h
                            ∷ []));
                }
          ]
    ]
