-- ===== src/Subscription/Uri/Examples.antt =====
-- Normal forms of some URIs.
use sip_event_processor.Prelude.{◌≡◌, refl, [], ◌∷◌, codes, text_eq, to_lower, starts_with}
use sip_event_processor.Subscription.Uri.{
  normalize_uri, strip_open, strip_close, before, has, strip_host_port, strip_port, lower_to_colon,
  lower_scheme, lower_host, with_scheme,
}

-- Angle brackets, parameters and the port 5060 go, and the scheme and the host are lowered.
pub normal_full : normalize_uri (codes "<SIP:Bob@Host:5060;lr>") ≡ codes "sip:Bob@host"
unfolding normalize_uri strip_open strip_close before has strip_host_port strip_port lower_to_colon
    lower_scheme lower_host with_scheme codes text_eq to_lower starts_with
normal_full = refl

-- With no scheme but a port, the first colon is the port's, and the user is lowered with the rest.
pub normal_user : normalize_uri (codes "Alice@host:5070") ≡ codes "sip:alice@host:5070"
unfolding normalize_uri strip_open strip_close before has strip_host_port strip_port lower_to_colon
    lower_scheme lower_host with_scheme codes text_eq to_lower starts_with
normal_user = refl

pub normal_plain : normalize_uri (115 ∷ 105 ∷ 112 ∷ 58 ∷ 98 ∷ 64 ∷ 104 ∷ []) ≡ codes "sip:b@h"
unfolding normalize_uri strip_open strip_close before has strip_host_port strip_port lower_to_colon
    lower_scheme lower_host with_scheme codes text_eq to_lower starts_with
normal_plain = refl

pub normal_other : normalize_uri (115 ∷ 105 ∷ 112 ∷ 58 ∷ 99 ∷ 64 ∷ 104 ∷ []) ≡ codes "sip:c@h"
unfolding normalize_uri strip_open strip_close before has strip_host_port strip_port lower_to_colon
    lower_scheme lower_host with_scheme codes text_eq to_lower starts_with
normal_other = refl
