-- ===== src/Sip/Callback/Answers.antt =====
-- What becomes of an incoming SUBSCRIBE and of its handle in SipCallbackHandler::nua_callback.
use sip_event_processor.Prelude.{
  ℕ, ◌+◌, ◌≡◌, ◌⊎◌, refl, true, false, Option, none, some, List, [], ◌∷◌, ◌++◌, append_assoc,
  append-nil, Text, codes, arith, Bool-cases, Option-cases, inl, inr, ◌==◌, if◌then◌else◌,
}
use sip_event_processor.Types.{Result, ok}
use sip_event_processor.Sip.DialogId.{SipMessage}
use sip_event_processor.Sip.Event.{
  NuaEvent, i_subscribe, SipEvent, next_id, create_from_sofia, sofia_event,
}
use sip_event_processor.Dispatch.Dispatcher.{DialogDispatcher, dispatch}
use sip_event_processor.Sip.Callback.{
  SofiaCall, nua_respond, nua_handle_ref, nua_handle_unref, SipCallbackHandler, should_process,
  extract_tenant_id, is_ok, nua_callback,
}

-- The status codes of the final answers to a handle, in their order, and how many references to it
-- are taken and released.
abbrev pub answers : ℕ → List SofiaCall → List ℕ
answers h [] = []
answers h (nua_respond g code phrase ∷ cs) = if g == h then code ∷ answers h cs else answers h cs
answers h (nua_handle_ref g ∷ cs) = answers h cs
answers h (nua_handle_unref g ∷ cs) = answers h cs

abbrev pub refs : ℕ → List SofiaCall → ℕ
refs h [] = 0
refs h (nua_respond g code phrase ∷ cs) = refs h cs
refs h (nua_handle_ref g ∷ cs) = (if g == h then 1 else 0) + refs h cs
refs h (nua_handle_unref g ∷ cs) = refs h cs

abbrev pub unrefs : ℕ → List SofiaCall → ℕ
unrefs h [] = 0
unrefs h (nua_respond g code phrase ∷ cs) = unrefs h cs
unrefs h (nua_handle_ref g ∷ cs) = unrefs h cs
unrefs h (nua_handle_unref g ∷ cs) = (if g == h then 1 else 0) + unrefs h cs

-- Why a SUBSCRIBE is refused, and with which status code.
pub data Reason (hash : Text → ℕ) (now : ℕ) (s : SipCallbackHandler) (made : Option SipEvent)
    (sip : Option SipMessage) (code : ℕ) : Type 0 where
  no_dispatcher : s.dispatcher ≡ none → code ≡ 500 → Reason hash now s made sip code
  no_event :
      (d : DialogDispatcher)
      → s.dispatcher ≡ some d
      → made ≡ none
      → code ≡ 400
      → Reason hash now s made sip code
  not_accepted :
      (d : DialogDispatcher) (ev : SipEvent)
      → s.dispatcher ≡ some d
      → made ≡ some ev
      → is_ok (dispatch hash now (some (record ev { tenant_id = extract_tenant_id sip })) d).1
        ≡ false
      → code ≡ 503
      → Reason hash now s made sip code

-- Answered once, with the status code of the reason, and with as many references released as taken.
pub record Rejected (hash : Text → ℕ) (now h : ℕ) (s : SipCallbackHandler) (made : Option SipEvent)
    (sip : Option SipMessage) (new : List SofiaCall) : Type 0 where
  pub code : ℕ
  pub answered : answers h new ≡ code ∷ []
  pub reason : Reason hash now s made sip code
  pub balanced : refs h new ≡ unrefs h new

-- Not answered here, with one reference taken, and its event accepted by the dispatcher.
pub record HandedOn (hash : Text → ℕ) (now h : ℕ) (s t : SipCallbackHandler) (new : List SofiaCall)
    : Type 0 where
  pub unanswered : answers h new ≡ []
  pub held : refs h new ≡ 1
  pub not_released : unrefs h new ≡ 0
  pub before : DialogDispatcher
  pub event : SipEvent
  pub had_dispatcher : s.dispatcher ≡ some before
  pub has_dispatcher : t.dispatcher ≡ some (dispatch hash now (some event) before).0
  pub carries_handle : event.nua_handle ≡ some h
  pub accepted : (dispatch hash now (some event) before).1 ≡ ok

is_ok-ok : (r : Result) → is_ok r ≡ true → r ≡ ok
is_ok-ok ok h = refl
is_ok-ok Result.error h = ground (arith, h)
is_ok-ok Result.timeout h = ground (arith, h)
is_ok-ok Result.not_found h = ground (arith, h)
is_ok-ok Result.already_exists h = ground (arith, h)
is_ok-ok Result.capacity_exceeded h = ground (arith, h)
is_ok-ok Result.invalid_argument h = ground (arith, h)
is_ok-ok Result.shutting_down h = ground (arith, h)
is_ok-ok Result.connection_lost h = ground (arith, h)
is_ok-ok Result.parse_error h = ground (arith, h)
is_ok-ok Result.persistence_error h = ground (arith, h)

-- The event that is created carries the handle.
create-handle :
    (now id : ℕ) (print_pointer : ℕ → Text) (event : NuaEvent) (status : ℕ) (phrase : Option Text)
    (nh : Option ℕ) (sip : Option SipMessage) (ev : SipEvent)
    → create_from_sofia now id print_pointer event status phrase nh sip ≡ some ev
    → ev.nua_handle ≡ nh
unfolding create_from_sofia sofia_event
create-handle now id print_pointer event status phrase nh none ev h = ground (arith, h)
create-handle now id print_pointer event status phrase nh (some m) ev h = ground (arith, h)

-- What can have happened between two states; `made` is what becomes of the message as an event.
abbrev pub Outcome :
    (Text → ℕ)
    → ℕ
    → ℕ
    → Option SipEvent
    → Option SipMessage
    → SipCallbackHandler
    → SipCallbackHandler
    → Type 0
Outcome hash now h made sip s t =
    (new : List SofiaCall) × (t.sofia_calls ≡ s.sofia_calls ++ new)
    × (Rejected hash now h s made sip new ⊎ HandedOn hash now h s t new)

-- An incoming SUBSCRIBE with a handle is either answered exactly once, with 500 where there is no
-- dispatcher, with 400 where no event can be made of the message, and with 503 where the
-- dispatcher does not accept the event, and with as many references to its handle released as were
-- taken; or the dispatcher has accepted an event that carries the handle, for which one reference
-- has been taken, and it is not answered yet.
pub nua_callback-subscribe :
    (hash : Text → ℕ) (now : ℕ) (print_pointer : ℕ → Text) (status : ℕ) (phrase : Option Text)
    (h : ℕ) (sip : Option SipMessage) (s : SipCallbackHandler)
    → Outcome hash now h
        (create_from_sofia now
          (next_id s.event_counter)
          print_pointer
          i_subscribe
          status
          phrase
          (some h)
          sip)
        sip
        s
        (nua_callback hash now print_pointer i_subscribe status phrase (some h) sip s)
unfolding nua_callback should_process
nua_callback-subscribe hash now print_pointer status phrase h sip s =
    let id = next_id s.event_counter in
    elim (Option-cases s.dispatcher) [
      | inl e ↦
          simp (nua_callback, e)
            (
              nua_respond h 500 (codes "Internal Server Error") ∷ [],
              refl,
              inl record {
                code = 500;
                answered = ground arith;
                reason = no_dispatcher e refl;
                balanced = refl;
              },
            )
      | inr (d, e) ↦
          elim (Option-cases
            (create_from_sofia now id print_pointer i_subscribe status phrase (some h) sip)) [
              | inl c ↦
                  simp (nua_callback, e, c)
                    (
                      nua_respond h 400 (codes "Bad Request") ∷ [],
                      refl,
                      inl record {
                        code = 400;
                        answered = ground arith;
                        reason = no_event d e refl refl;
                        balanced = refl;
                      },
                    )
              | inr (ev, c) ↦
                  let event : SipEvent = record ev { tenant_id = extract_tenant_id sip } in
                  let handle =
                    create-handle now id print_pointer i_subscribe status phrase (some h) sip ev
                      c in
                  elim (Bool-cases (is_ok (dispatch hash now (some event) d).1)) [
                    | inl k ↦
                        simp (nua_callback, e, c, k)
                          (
                            nua_handle_ref h ∷ [],
                            append-nil (s.sofia_calls ++ nua_handle_ref h ∷ []),
                            inr record {
                              unanswered = ground arith;
                              held = ground arith;
                              not_released = refl;
                              before = d;
                              event = event;
                              had_dispatcher = e;
                              has_dispatcher = refl;
                              carries_handle = handle;
                              accepted = is_ok-ok (dispatch hash now (some event) d).1 k;
                            },
                          )
                    | inr k ↦
                        simp (nua_callback, e, c, k)
                          (
                            nua_handle_ref h
                                ∷ nua_respond h 503 (codes "Service Unavailable")
                                ∷ nua_handle_unref h
                                ∷ [],
                            append_assoc s.sofia_calls (nua_handle_ref h ∷ []) (
                                nua_respond h 503 (codes "Service Unavailable")
                                ∷ nua_handle_unref h
                                ∷ []),
                            inl record {
                              code = 503;
                              answered = ground arith;
                              reason = not_accepted d ev e refl k refl;
                              balanced = ground arith;
                            },
                          )
                  ]
            ]
    ]
