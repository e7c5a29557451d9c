-- ===== src/Sip/Stack/Protocol.antt =====
-- The stack manager keeps to the order in which Sofia's functions may be called.
use sip_event_processor.Prelude.{
  ℕ, ◌≡◌, refl, sym, ap, subst, Bool, true, false, none, List, Text, if◌then◌else◌,
}
use sip_event_processor.Dispatch.World.{SipCall, respond_to_subscribe, send_notify, handle_unref}
use sip_event_processor.Sip.Stack.{
  SofiaCall, su_init, su_deinit, su_root_break, su_root_destroy, nua_shutdown, nua_destroy,
  su_root_create, nua_create, su_root_step, nua_handle_unref, SipStackManager, new_stack, call,
  start, event_round, request_stop, tear_down, finish_stop, perform,
}
use sip_event_processor.Sip.Stack.Order.{
  down, rooted, up, shut, follow, follow_all, called, refused, InOrder, stack,
}

-- What the threads do: starts with any outcome, rounds of the loop, stops in two parts, and what
-- the workers ask for. A stop's second part is one step: nothing is asked for within it.
pub data Step : SipStackManager → SipStackManager → Type 0 where
  starts : (root_made nua_made : Bool) (s : SipStackManager) → Step s (start root_made nua_made s).0
  turns : (s : SipStackManager) → Step s (event_round s)
  asks_stop : (s : SipStackManager) → Step s (request_stop s)
  stops : (s : SipStackManager) → Step s (finish_stop s)
  asks : (c : SipCall) (s : SipStackManager) → Step s (perform c s)

pub data Reach (s : SipStackManager) : SipStackManager → Type 0 where
  here : Reach s s
  next : {t u : SipStackManager} → Reach s t → Step t u → Reach s u

start-InOrder :
    (root_made nua_made root nua running stop : Bool) (calls : List SofiaCall)
    → InOrder (stack root nua running stop calls)
    → InOrder (start root_made nua_made (stack root nua running stop calls)).0
unfolding start follow
start-InOrder root_made nua_made root nua true stop calls h = h
start-InOrder true true root nua false stop calls h = record {
  ordered =
      let s = stack root nua false stop calls in
      let s1 = call su_init s in
      let s2 = call (su_root_create true) s1 in
      called rooted up s2 (nua_create true)
        (called down rooted s1 (su_root_create true) (called down down s su_init h.ordered refl)
          refl)
        refl;
  has_root = refl;
  has_nua = refl;
}
start-InOrder true false root nua false stop calls h = record {
  ordered =
      let s = stack root nua false stop calls in
      let s1 = call su_init s in
      let s2 = call (su_root_create true) s1 in
      let s3 = call (nua_create false) s2 in
      called rooted down s3 su_root_destroy
        (called rooted rooted s2 (nua_create false)
          (called down rooted s1 (su_root_create true) (called down down s su_init h.ordered refl)
            refl)
          refl)
        refl;
  has_root = refl;
  has_nua = refl;
}
start-InOrder false nua_made root nua false stop calls h = record {
  ordered =
      let s = stack root nua false stop calls in
      called down down (call su_init s) (su_root_create false)
        (called down down s su_init h.ordered refl) refl;
  has_root = refl;
  has_nua = h.has_nua;
}

event_round-InOrder :
    (root nua running stop : Bool) (calls : List SofiaCall)
    → InOrder (stack root nua running stop calls)
    → InOrder (event_round (stack root nua running stop calls))
unfolding event_round follow
event_round-InOrder root nua false stop calls h = h
event_round-InOrder root nua true true calls h = h
event_round-InOrder root nua true false calls h = record {
  ordered = called up up (stack root nua true false calls) (su_root_step 1) h.ordered refl;
  has_root = h.has_root;
  has_nua = h.has_nua;
}

request_stop-InOrder :
    (root nua running stop : Bool) (calls : List SofiaCall)
    → InOrder (stack root nua running stop calls)
    → InOrder (request_stop (stack root nua running stop calls))
unfolding request_stop follow
request_stop-InOrder root nua false stop calls h = h
request_stop-InOrder false nua true stop calls h = cc h.has_root
request_stop-InOrder true nua true stop calls h = record {
  ordered = called up up (stack true nua true stop calls) su_root_break h.ordered refl;
  has_root = refl;
  has_nua = h.has_nua;
}

finish_stop-InOrder :
    (root nua running stop : Bool) (calls : List SofiaCall)
    → InOrder (stack root nua running stop calls)
    → InOrder (finish_stop (stack root nua running stop calls))
unfolding finish_stop follow
finish_stop-InOrder root nua false stop calls h = h
finish_stop-InOrder false nua true stop calls h = cc h.has_root
finish_stop-InOrder true false true stop calls h = cc h.has_nua
finish_stop-InOrder true true true stop calls h = record {
  ordered =
      let s = stack true true true stop calls in
      let s1 = call nua_shutdown s in
      let s2 = call (su_root_step 50) s1 in
      let s3 = call nua_destroy s2 in
      let s4 = call su_root_destroy s3 in
      called down down s4 su_deinit
        (called rooted down s3 su_root_destroy
          (called shut rooted s2 nua_destroy
            (called shut shut s1 (su_root_step 50) (called up shut s nua_shutdown h.ordered refl)
              refl)
            refl)
          refl)
        refl;
  has_root = refl;
  has_nua = refl;
}

perform-InOrder :
    (c : SipCall) (root nua running stop : Bool) (calls : List SofiaCall)
    → InOrder (stack root nua running stop calls)
    → InOrder (perform c (stack root nua running stop calls))
unfolding perform follow
perform-InOrder (respond_to_subscribe nh status phrase expires) root nua false stop calls h = h
perform-InOrder (respond_to_subscribe nh status phrase expires) root nua true stop calls h =
    record {
      ordered = called up up (stack root nua true stop calls) _ h.ordered refl;
      has_root = h.has_root;
      has_nua = h.has_nua;
    }
perform-InOrder (send_notify nh event_type content_type body state) root nua false stop calls h = h
perform-InOrder (send_notify nh event_type content_type body state) root nua true stop calls h =
    record {
      ordered = called up up (stack root nua true stop calls) _ h.ordered refl;
      has_root = h.has_root;
      has_nua = h.has_nua;
    }
perform-InOrder (handle_unref nh) root nua running stop calls h = record {
  ordered =
      let phase = if running then up else down in
      called phase phase (stack root nua running stop calls) (nua_handle_unref nh) h.ordered refl;
  has_root = h.has_root;
  has_nua = h.has_nua;
}

Step-InOrder : {s t : SipStackManager} → Step s t → InOrder s → InOrder t
Step-InOrder (starts root_made nua_made s) h =
    start-InOrder root_made nua_made s.root s.nua s.running s.stop_requested s.calls h
Step-InOrder (turns s) h = event_round-InOrder s.root s.nua s.running s.stop_requested s.calls h
Step-InOrder (asks_stop s) h =
    request_stop-InOrder s.root s.nua s.running s.stop_requested s.calls h
Step-InOrder (stops s) h = finish_stop-InOrder s.root s.nua s.running s.stop_requested s.calls h
Step-InOrder (asks c s) h = perform-InOrder c s.root s.nua s.running s.stop_requested s.calls h

-- From a stack whose calls are in order, as those of a new one are, any sequence of starts with
-- any outcome, rounds of the loop, stops and requests of the workers leaves them so, if no
-- request falls within the second part of a stop: a root and a user agent are made and destroyed
-- in turn, no answer and no NOTIFY is sent without a user agent that is up, and both are there
-- exactly while the stack runs.
pub Reach-InOrder : {s t : SipStackManager} → InOrder s → Reach s t → InOrder t
Reach-InOrder h here = h
Reach-InOrder h (next r st) = Step-InOrder st (Reach-InOrder h r)

pub new_stack-InOrder : InOrder new_stack
unfolding follow_all
new_stack-InOrder = record { ordered = refl; has_root = refl; has_nua = refl }

late_answer_lem :
    (root nua stop : Bool) (calls : List SofiaCall) (nh status expires : ℕ) (phrase : Text)
    → InOrder (stack root nua true stop calls)
    → let late = respond_to_subscribe nh status phrase expires in
      follow_all down (perform late (tear_down (stack root nua true stop calls))).calls ≡ none
unfolding perform tear_down finish_stop follow follow_all
late_answer_lem false nua stop calls nh status expires phrase h = cc h.has_root
late_answer_lem true false stop calls nh status expires phrase h = cc h.has_nua
late_answer_lem true true stop calls nh status expires phrase h =
    refused down (finish_stop (stack true true true stop calls)) _
      (finish_stop-InOrder true true true stop calls h).ordered refl

-- Within a stop of a running stack whose calls are in order, when Sofia's objects are gone and
-- the flag is not yet cleared, an answer that a worker asks for is sent, out of order.
pub late_answer :
    (s : SipStackManager) (nh status expires : ℕ) (phrase : Text)
    → InOrder s
    → s.running ≡ true
    → follow_all down (perform (respond_to_subscribe nh status phrase expires) (tear_down s)).calls
      ≡ none
late_answer s nh status expires phrase h r =
    let s' = stack s.root s.nua true s.stop_requested s.calls in
    let same : s ≡ s' = ap (λ b. stack s.root s.nua b s.stop_requested s.calls) r in
    subst
      (λ t.
        follow_all down
          (perform (respond_to_subscribe nh status phrase expires) (tear_down t)).calls
        ≡ none)
      (sym same)
      (late_answer_lem s.root s.nua s.stop_requested s.calls nh status expires phrase
        (subst InOrder same h))
