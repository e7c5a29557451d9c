-- ===== src/Sip/Stack/Order.antt =====
-- The order in which Sofia's functions may be called.
use sip_event_processor.Prelude.{
  ◌≡◌, refl, ◌∙◌, Bool, Option, none, some, inl, inr, Option-cases, List, [], ◌∷◌, ◌++◌,
  if◌then◌else◌, arith,
}
use sip_event_processor.Sip.Stack.{
  SofiaCall, su_init, su_deinit, su_root_break, su_root_destroy, nua_shutdown, nua_destroy,
  su_root_create, nua_create, su_root_step, nua_handle_unref, nua_respond, nua_notify,
  SipStackManager,
}

-- Nothing is there; a root; a root and a user agent; a user agent that is shut down.
pub data Phase : Type 0 where
  down rooted up shut : Phase

-- A root is made and destroyed with no user agent on it; a user agent is made on a root, answers
-- until it is shut down, and is then destroyed; the loop is stepped while a user agent is there.
-- A handle's reference may be given back at any time.
unfoldable pub follow : Phase → SofiaCall → Option Phase
follow phase (nua_handle_unref nh) = some phase
follow down su_init = some down
follow down su_deinit = some down
follow down (su_root_create made) = some (if made then rooted else down)
follow rooted (nua_create made) = some (if made then up else rooted)
follow rooted su_root_destroy = some down
follow up su_root_break = some up
follow up (su_root_step n) = some up
follow up (nua_respond nh status phrase substate expires) = some up
follow up (nua_notify nh substate event_type content_type body) = some up
follow up nua_shutdown = some shut
follow shut (su_root_step n) = some shut
follow shut nua_destroy = some rooted
follow _ _ = none

-- `none` where a call is out of order.
unfoldable pub follow_all : Phase → List SofiaCall → Option Phase
follow_all phase [] = some phase
follow_all phase (c ∷ cs) = elim (follow phase c) [ none ↦ none | some p ↦ follow_all p cs ]

follow_all-append :
    (phase after : Phase) (cs ds : List SofiaCall)
    → follow_all phase cs ≡ some after
    → follow_all phase (cs ++ ds) ≡ follow_all after ds
unfolding follow_all
follow_all-append phase after [] ds h = ground arith
follow_all-append phase after (c ∷ cs) ds h = elim (Option-cases (follow phase c)) [
  | inl e ↦ cc (rw (e, follow_all) at h)
  | inr (p, e) ↦ rw (e, follow_all) (follow_all-append p after cs ds (rw (e, follow_all) at h))
]

-- The calls made so far are in order, and what is there is what the flag says.
pub record InOrder (s : SipStackManager) : Type 0 where
  pub ordered : follow_all down s.calls ≡ some (if s.running then up else down)
  pub has_root : s.root ≡ s.running
  pub has_nua : s.nua ≡ s.running

-- One call more.
pub called :
    (phase after : Phase) (s : SipStackManager) (c : SofiaCall)
    → follow_all down s.calls ≡ some phase
    → follow phase c ≡ some after
    → follow_all down (s.calls ++ c ∷ []) ≡ some after
unfolding follow_all
called phase after s c h e =
    follow_all-append down phase s.calls (c ∷ []) h ∙ rw (e, follow_all) refl

pub refused :
    (phase : Phase) (s : SipStackManager) (c : SofiaCall)
    → follow_all down s.calls ≡ some phase
    → follow phase c ≡ none
    → follow_all down (s.calls ++ c ∷ []) ≡ none
unfolding follow_all
refused phase s c h e = follow_all-append down phase s.calls (c ∷ []) h ∙ rw (e, follow_all) refl

abbrev pub stack : Bool → Bool → Bool → Bool → List SofiaCall → SipStackManager
stack root nua running stop calls = record {
  root = root;
  nua = nua;
  running = running;
  stop_requested = stop;
  calls = calls;
}
