-- ===== src/Dispatch/Worker/Expires.antt =====
-- A SIP message without an Expires header, from create_from_sofia of sip/sip_event.cpp to
-- process_event of dispatch/dialog_worker.cpp.
use sip_event_processor.Prelude.{ℕ, ◌≡◌, true, Option, none, some, Text, arith}
use sip_event_processor.Types.{SubLifecycle}
use sip_event_processor.Sip.DialogId.{SipMessage}
use sip_event_processor.Sip.Event.{NuaEvent, SipEvent, create_from_sofia, sofia_event}
use sip_event_processor.Dispatch.Worker.State.{Scene}
use sip_event_processor.Dispatch.Worker.Events.{process_event, ends_subscription}
use sip_event_processor.Dispatch.Worker.Lifecycle.{process_event-ends}

no_expires-ends :
    (made id : ℕ) (print_pointer : ℕ → Text) (kind : NuaEvent) (status : ℕ) (phrase : Option Text)
    (nh : Option ℕ) (sip : SipMessage) (tenant : Text) (event : SipEvent)
    → sip.sip_expires ≡ none
    → create_from_sofia made id print_pointer kind status phrase nh (some sip) ≡ some event
    → ends_subscription (record event { tenant_id = tenant }) ≡ true
unfolding create_from_sofia sofia_event ends_subscription
no_expires-ends made id print_pointer kind status phrase nh sip tenant event none_there c =
    ground (arith, none_there, c)

-- Whatever kind of event a message without an Expires header comes with, an incoming NOTIFY, a
-- PUBLISH and a response among them, and whatever else stands in it: the event that
-- `create_from_sofia` makes of it, under any tenant, terminates the subscription of the dialog for
-- which it is processed.
pub no_expires-terminates :
    (made id : ℕ) (print_pointer : ℕ → Text) (kind : NuaEvent) (status : ℕ) (phrase : Option Text)
    (nh : Option ℕ) (sip : SipMessage) (tenant : Text) (event : SipEvent) (warn : ℕ) (did : Text)
    (now elapsed : ℕ) (s : Scene)
    → sip.sip_expires ≡ none
    → create_from_sofia made id print_pointer kind status phrase nh (some sip) ≡ some event
    → (process_event warn did now elapsed (record event { tenant_id = tenant }) s).ctx.rec.lifecycle
      ≡ SubLifecycle.terminated
no_expires-terminates made id print_pointer kind status phrase nh sip tenant event warn did now
      elapsed s none_there c =
    process_event-ends warn did now elapsed _ s
      (no_expires-ends made id print_pointer kind status phrase nh sip tenant event none_there c)
