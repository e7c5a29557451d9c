-- ===== src/Sip/Stack.antt =====
-- SipStackManager of include/sip/sip_stack_manager.h and src/sip/sip_stack_manager.cpp. Sofia's
-- functions are seen as the calls made of them, the latest last; whether su_root_create and
-- nua_create give something is a parameter. The thread's loop is a step for each of its rounds.
pub mod Order
pub mod Protocol
use sip_event_processor.Prelude.{
  ℕ, Bool, true, false, not, ◌&&◌, ◌||◌, Option, none, some, List, [], ◌∷◌, ◌++◌, Text, codes,
  text_eq, to_string, ltb, leb, if◌then◌else◌,
}
use sip_event_processor.Types.{Result, ok, error, already_exists}
use sip_event_processor.Dispatch.World.{SipCall, respond_to_subscribe, send_notify, handle_unref}

pub data Substate : Type 0 where
  active pending terminated : Substate

-- The calls of Sofia; those that create carry whether they did. `nua_respond` has the handle, the
-- status, the phrase, the substate and the Expires text; `nua_notify` the handle, the
-- substate, the event, the content type and the body. `su_root_step` has the number of its calls.
pub data SofiaCall : Type 0 where
  su_init su_deinit su_root_break su_root_destroy nua_shutdown nua_destroy : SofiaCall
  su_root_create nua_create : Bool → SofiaCall
  su_root_step nua_handle_unref : ℕ → SofiaCall
  nua_respond : ℕ → ℕ → Text → Substate → Text → SofiaCall
  nua_notify : ℕ → Substate → Option Text → Option Text → Option Text → SofiaCall

-- Whether `root_` and `nua_` are there, and the flags.
pub record SipStackManager : Type 0 where
  pub root : Bool
  pub nua : Bool
  pub running : Bool
  pub stop_requested : Bool
  pub calls : List SofiaCall

abbrev pub new_stack : SipStackManager
new_stack = record {
  root = false;
  nua = false;
  running = false;
  stop_requested = false;
  calls = [];
}

abbrev pub call : SofiaCall → SipStackManager → SipStackManager
call c s = record s { calls = s.calls ++ c ∷ [] }

-- `root_made` and `nua_made` are what Sofia's constructors give.
unfoldable pub start : Bool → Bool → SipStackManager → SipStackManager × Result
start root_made nua_made s =
    if s.running
    then (s, already_exists)
    else let s1 = call (su_root_create root_made) (call su_init s) in
      if not root_made
      then (record s1 { root = false }, error)
      else let s2 = call (nua_create nua_made) s1 in
        if not nua_made
        then (record (call su_root_destroy s2) { root = false; nua = false }, error)
        else (record s2 { root = true; nua = true; running = true; stop_requested = false }, ok)

-- A round of the thread, which runs from `start` to the join.
unfoldable pub event_round : SipStackManager → SipStackManager
event_round s = if s.running && not s.stop_requested then call (su_root_step 1) s else s

-- `stop` up to the join of the thread.
unfoldable pub request_stop : SipStackManager → SipStackManager
request_stop s =
    if not s.running
    then s
    else let s1 = record s { stop_requested = true } in
      if s1.root then call su_root_break s1 else s1

-- From the join to the last call of Sofia, and the flag that is cleared behind it.
unfoldable pub tear_down : SipStackManager → SipStackManager
tear_down s =
    let s1 : SipStackManager =
      if s.nua
      then record (call nua_destroy (call (su_root_step 50) (call nua_shutdown s))) { nua = false }
      else s in
    let s2 : SipStackManager =
      if s1.root then record (call su_root_destroy s1) { root = false } else s1 in
    call su_deinit s2

unfoldable pub finish_stop : SipStackManager → SipStackManager
unfolding tear_down
finish_stop s = if not s.running then s else record (tear_down s) { running = false }

-- A null handle is `none`.
unfoldable pub respond : Option ℕ → ℕ → Text → ℕ → SipStackManager → SipStackManager
respond none status phrase expires s = s
respond (some nh) status phrase expires s =
    if not s.running
    then s
    else let substate =
        if leb 200 status && ltb status 300 then Substate.active else Substate.terminated in
      call (nua_respond nh status phrase substate (to_string expires)) s

unfoldable pub substate_of : Option Text → Substate
substate_of none = Substate.active
substate_of (some state) =
    if text_eq state (codes "terminated")
    then Substate.terminated
    else if text_eq state (codes "pending")
    then Substate.pending
    else Substate.active

unfoldable pub notify :
    Option ℕ
    → Option Text
    → Option Text
    → Option Text
    → Option Text
    → SipStackManager
    → SipStackManager
unfolding substate_of
notify none event_type content_type body state s = s
notify (some nh) event_type content_type body state s =
    if not s.running
    then s
    else call (nua_notify nh (substate_of state) event_type content_type body) s

-- What a worker asks for.
unfoldable pub perform : SipCall → SipStackManager → SipStackManager
unfolding respond notify
perform (respond_to_subscribe nh status phrase expires) s =
    respond (some nh) status phrase expires s
perform (send_notify nh event_type content_type body state) s =
    notify (some nh) (some event_type) (some content_type) (some body) (some state) s
perform (handle_unref nh) s = call (nua_handle_unref nh) s
