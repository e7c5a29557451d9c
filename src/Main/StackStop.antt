-- ===== src/Main/StackStop.antt =====
-- The stop of the SIP stack at the end of the program, and what the workers ask for meanwhile.
use sip_event_processor.Prelude.{
  ◌≡◌, refl, ap, ◌∙◌, not, sym, false, some, List, [], ◌∷◌, if◌then◌else◌, arith,
}
use sip_event_processor.Sip.Stack.{SipStackManager, perform, tear_down}
use sip_event_processor.Dispatch.World.{SipCall, respond_to_subscribe, send_notify, handle_unref}
use sip_event_processor.Sip.Stack
use sip_event_processor.Sip.Stack.Order.{down, up, follow_all, InOrder}
use sip_event_processor.Sip.Stack.Protocol.{
  Reach, Reach-InOrder, here, next, asks, asks_stop, stops,
}
use sip_event_processor.Main.{Meanwhile, perform_all, stop_stack}

-- Nothing of Sofia is left, and the stack does not run.
abbrev pub Gone : SipStackManager → Type 0
Gone s = (s.running ≡ false) × (s.root ≡ false) × (s.nua ≡ false)

-- What a worker asks for is a call at most.
perform-keeps :
    (c : SipCall) (s : SipStackManager)
    → ((perform c s).running ≡ s.running)
      × ((perform c s).root ≡ s.root)
      × ((perform c s).nua ≡ s.nua)
unfolding perform
perform-keeps (respond_to_subscribe nh status phrase expires) s = ground arith
perform-keeps (send_notify nh event_type content_type body state) s = ground arith
perform-keeps (handle_unref nh) s = (refl, refl, refl)

perform_all-keeps :
    (cs : List SipCall) (s : SipStackManager)
    → ((perform_all cs s).running ≡ s.running)
      × ((perform_all cs s).root ≡ s.root)
      × ((perform_all cs s).nua ≡ s.nua)
unfolding perform_all
perform_all-keeps [] s = (refl, refl, refl)
perform_all-keeps (c ∷ cs) s =
    let (a, b, d) = perform_all-keeps cs (perform c s) in
    let (x, y, z) = perform-keeps c s in (a ∙ x, b ∙ y, d ∙ z)

perform_all-Gone : (cs : List SipCall) (s : SipStackManager) → Gone s → Gone (perform_all cs s)
perform_all-Gone cs s (x, y, z) = let (a, b, d) = perform_all-keeps cs s in (a ∙ x, b ∙ y, d ∙ z)

torn-Gone :
    (late : List SipCall) (s : SipStackManager)
    → s.root ≡ s.running
    → s.nua ≡ s.running
    → Gone
        (if not s.running then s else record (perform_all late (tear_down s)) { running = false })
unfolding tear_down
torn-Gone late s root nua = ground (arith, perform_all-keeps late (tear_down s))

asked : (cs : List SipCall) {s t : SipStackManager} → Reach s t → Reach s (perform_all cs t)
unfolding perform_all
asked [] r = r
asked (c ∷ cs) r = asked cs (next r (asks c _))

-- Up to the join of its thread the stack is in order, whatever the workers ask for.
joining-InOrder :
    (m : Meanwhile) (s : SipStackManager)
    → InOrder s
    → InOrder (perform_all m.joining (Stack.request_stop s))
joining-InOrder m s h = Reach-InOrder h (asked m.joining (next here (asks_stop s)))

pub stack-Gone : (m : Meanwhile) (s : SipStackManager) → InOrder s → Gone (stop_stack m s)
unfolding stop_stack
stack-Gone m s h =
    let before = joining-InOrder m s h in
    perform_all-Gone m.afterwards _ (torn-Gone m.torn_down _ before.has_root before.has_nua)

pub stop_stack-ended :
    (m : Meanwhile) (s : SipStackManager)
    → m.torn_down ≡ []
    → InOrder s
    → follow_all down (stop_stack m s).calls ≡ some down
unfolding stop_stack Stack.finish_stop perform_all
stop_stack-ended m s none_late h =
    let t = perform_all m.joining (Stack.request_stop s) in
    let stopped : InOrder (perform_all m.afterwards (Stack.finish_stop t)) =
      Reach-InOrder h
        (asked m.afterwards (next (asked m.joining (next here (asks_stop s))) (stops t))) in
    let same : stop_stack m s ≡ perform_all m.afterwards (Stack.finish_stop t) =
      ap
        (λ late. perform_all m.afterwards (
          if not t.running then t else record (perform_all late (tear_down t)) { running = false }))
        none_late in
    ap (λ u. follow_all down u.calls) same
    ∙ stopped.ordered
    ∙ ap (λ b. some (if b then up else down))
        (ap (λ u. u.running) (sym same) ∙ (stack-Gone m s h).0)
