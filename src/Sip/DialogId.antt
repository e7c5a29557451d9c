-- ===== src/Sip/DialogId.antt =====
-- src/sip/sip_dialog_id.cpp. A `sip_t` of the Sofia library is the record of the header fields
-- that the program reads, a null pointer `none`; a C string is a text with no zero byte.
use sip_event_processor.Prelude.{
  ℕ, zero, suc, Bool, ◌&&◌, not, Option, none, some, [], ◌∷◌, ◌++◌, Text, codes, length, is_empty,
  take, leb, ◌==◌, if◌then◌else◌,
}

-- url_t
pub record Url : Type 0 where
  pub url_user : Option Text
  pub url_host : Option Text

-- sip_from_t and sip_to_t
pub record Address : Type 0 where
  pub a_url : Option Url
  pub a_tag : Option Text

-- sip_subscription_state_t
pub record SubstateHeader : Type 0 where
  pub ss_substate : Option Text
  pub ss_reason : Option Text

-- sip_t; the payload is its data, whose length the library gives.
pub record SipMessage : Type 0 where
  pub sip_call_id : Option Text
  pub sip_from : Option Address
  pub sip_to : Option Address
  pub sip_event : Option Text
  pub sip_cseq : Option ℕ
  pub sip_expires : Option ℕ
  pub sip_content_type : Option Text
  pub sip_payload : Option Text
  pub sip_subscription_state : Option SubstateHeader

abbrev is_tag_byte : ℕ → Bool
is_tag_byte c = leb 0x20 c && leb c 0x7E && not (c == b';')

-- The loop of `sanitize`: at most `n` more bytes of the input.
pub sanitize : Text → ℕ → Text
sanitize [] n = []
sanitize (c ∷ s) zero = []
sanitize (c ∷ s) (suc n) = let rest = sanitize s n in if is_tag_byte c then c ∷ rest else rest

abbrev tag_of : Option Address → Text
tag_of none = []
tag_of (some a) = elim a.a_tag [ none ↦ [] | some t ↦ sanitize t 256 ]

-- The identifier of sanitized parts.
join_id : Text → Text → Text → Text
join_id call_id from_tag to_tag =
    (if is_empty from_tag then call_id else call_id ++ (codes ";ft=" ++ from_tag))
    ++ (if is_empty to_tag then [] else codes ";tt=" ++ to_tag)

unfoldable pub build : Option SipMessage → Text
unfolding join_id sanitize
build none = []
build (some sip) = elim sip.sip_call_id [
  | none ↦ []
  | some i_id ↦
      let call_id = sanitize i_id 256 in
      if is_empty call_id then [] else join_id call_id (tag_of sip.sip_from) (tag_of sip.sip_to)
]

-- `print_pointer` is what `%p` prints.
unfoldable pub build_from_handle : (ℕ → Text) → Option ℕ → Text
build_from_handle print_pointer none = []
build_from_handle print_pointer (some nh) = take 63 (codes "handle:" ++ print_pointer nh)

unfoldable pub is_valid : Text → Bool
is_valid dialog_id = not (is_empty dialog_id) && leb (length dialog_id) 1024
