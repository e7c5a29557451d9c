-- ===== src/Subscription/Uri.antt =====
-- BlfSubscriptionIndex::normalize_uri of src/subscription/blf_subscription_index.cpp, step by
-- step. `erase(find(c))` is a walk to the first `c`; `std::tolower` is that of the C locale.
pub mod Examples
use sip_event_processor.Prelude.{
  ℕ, Bool, false, ◌||◌, [], ◌∷◌, ◌++◌, Text, codes, text_eq, starts_with, to_lower, lower_text,
  ◌==◌, if◌then◌else◌,
}

strip_open : Text → Text
strip_open [] = []
strip_open (c ∷ s) = if c == b'<' then s else c ∷ s

strip_close : Text → Text
strip_close [] = []
strip_close (c ∷ []) = if c == b'>' then [] else c ∷ []
strip_close (c ∷ d ∷ s) = c ∷ strip_close (d ∷ s)

-- What stands before the first `x`, or all if there is none.
before : ℕ → Text → Text
before x [] = []
before x (c ∷ s) = if c == x then [] else c ∷ before x s

has : ℕ → Text → Bool
has x [] = false
has x (c ∷ s) = c == x || has x s

-- After the first `@`: the first colon goes with what follows it, if that is 5060.
strip_host_port : Text → Text
strip_host_port [] = []
strip_host_port (c ∷ s) =
    if c == b':' then (if text_eq s (codes "5060") then [] else c ∷ s) else c ∷ strip_host_port s

strip_port : Text → Text
strip_port [] = []
strip_port (c ∷ s) = if c == b'@' then c ∷ strip_host_port s else c ∷ strip_port s

lower_to_colon : Text → Text
lower_to_colon [] = []
lower_to_colon (c ∷ s) = if c == b':' then c ∷ s else to_lower c ∷ lower_to_colon s

lower_scheme : Text → Text
unfolding lower_to_colon has
lower_scheme s = if has b':' s then lower_to_colon s else s

lower_host : Text → Text
lower_host [] = []
lower_host (c ∷ s) = if c == b'@' then c ∷ lower_text s else c ∷ lower_host s

with_scheme : Text → Text
with_scheme s =
    if starts_with (codes "sip:") s || starts_with (codes "sips:") s then s else codes "sip:" ++ s

unfoldable pub normalize_uri : Text → Text
unfolding strip_open strip_close before strip_port strip_host_port lower_scheme lower_host
    with_scheme
normalize_uri [] = []
normalize_uri (c ∷ s) =
    with_scheme
      (lower_host (lower_scheme (strip_port (before b';' (strip_close (strip_open (c ∷ s)))))))
