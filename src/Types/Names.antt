-- ===== src/Types/Names.antt =====
-- The names under which types and lifecycles are stored can be read back.
use sip_event_processor.Prelude.{◌≡◌, refl, codes, text_eq, find_sub, starts_with}
use sip_event_processor.Types.{
  SubscriptionType, SubLifecycle, subscription_type_to_string, subscription_type_from_string,
  lifecycle_to_string, lifecycle_from_string, subscription_type_to_event_header,
  parse_subscription_type,
}

-- Every lifecycle is read back from the name under which it is stored.
pub lifecycle_round_trip : (s : SubLifecycle) → lifecycle_from_string (lifecycle_to_string s) ≡ s
unfolding lifecycle_from_string lifecycle_to_string codes text_eq
lifecycle_round_trip SubLifecycle.pending = refl
lifecycle_round_trip SubLifecycle.active = refl
lifecycle_round_trip SubLifecycle.terminating = refl
lifecycle_round_trip SubLifecycle.terminated = refl

-- Every subscription type is read back from the name under which it is stored, and from the Event
-- header that its NOTIFY requests carry (`unknown` has no header, and reads a missing one as
-- itself).
pub subscription_type_round_trip :
    (t : SubscriptionType)
    → (subscription_type_from_string (subscription_type_to_string t) ≡ t)
      × (parse_subscription_type (subscription_type_to_event_header t) ≡ t)
unfolding subscription_type_from_string subscription_type_to_string codes text_eq
    parse_subscription_type subscription_type_to_event_header find_sub starts_with
subscription_type_round_trip SubscriptionType.unknown = (refl, refl)
subscription_type_round_trip SubscriptionType.blf = (refl, refl)
subscription_type_round_trip SubscriptionType.mwi = (refl, refl)
