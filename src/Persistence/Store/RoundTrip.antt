-- ===== src/Persistence/Store/RoundTrip.antt =====
-- What SubscriptionStore stores of a record and reads back.
use sip_event_processor.Prelude.{
  ℕ, ◌%◌, ◌^◌, ◌≡◌, refl, some, List, [], ◌∷◌, Text, codes, text_eq, arith, ℤ, pos, negsuc, ltb,
  if◌then◌else◌,
}
use sip_event_processor.Prelude.Map.{find, find-put}
use sip_event_processor.Types.{subscription_type_to_string, lifecycle_to_string, seconds}
use sip_event_processor.Types.Names.{lifecycle_round_trip, subscription_type_round_trip}
use sip_event_processor.Subscription.Record.{SubscriptionRecord, default_record}
use sip_event_processor.Persistence.Pool.{
  Value, Document, utf8, int32, MongoPool, MongoLaws, c_str, to_int32, to_uint32, set_all,
}
use sip_event_processor.Persistence.Store.{fields_of, stored_expiry, read_row}

-- A 32-bit unsigned number survives the way through a signed one.
pub to_uint32-to_int32 : (n : ℕ) → to_uint32 (to_int32 n) ≡ n % 2 ^ 32
unfolding to_uint32 to_int32
to_uint32-to_int32 n = ground arith

-- The first of two values for a field is the one that is set.
pub find-set_all :
    (k : Text) (fields d : Document) (v : Value)
    → find k fields ≡ some v
    → find k (set_all fields d) ≡ some v
unfolding find set_all
find-set_all k [] d v h = ground (arith, h)
find-set_all k ((j, w) ∷ fields) d v h =
    ground (arith, h, find-put j k w (set_all fields d), find-set_all k fields d v)

-- A document that has the fields of a record.
abbrev pub Carries : ℕ → Text → SubscriptionRecord → Document → Type 0
Carries wall service_id rec row =
    (k : Text) (v : Value) → find k (fields_of wall service_id rec) ≡ some v → find k row ≡ some v

-- The expiry that is read back: whole seconds, as far as they fit in 31 bits.
unfoldable pub kept_expiry : ℕ → ℕ
kept_expiry expires_at = elim (stored_expiry expires_at) [ pos n ↦ seconds n | negsuc n ↦ 0 ]

-- A record as it comes back: text up to its first NUL, numbers of 32 bits, and what is not stored
-- at its default.
unfoldable pub restored : ℕ → SubscriptionRecord → SubscriptionRecord
restored now rec = record (default_record now) {
  dialog_id = c_str rec.dialog_id;
  tenant_id = c_str rec.tenant_id;
  type = rec.type;
  lifecycle = rec.lifecycle;
  cseq = rec.cseq % 2 ^ 32;
  blf_monitored_uri = c_str rec.blf_monitored_uri;
  blf_last_state = c_str rec.blf_last_state;
  blf_last_direction = c_str rec.blf_last_direction;
  blf_presence_call_id = c_str rec.blf_presence_call_id;
  blf_last_notify_body = c_str rec.blf_last_notify_body;
  blf_notify_version = rec.blf_notify_version % 2 ^ 32;
  mwi_new_messages = rec.mwi_new_messages;
  mwi_old_messages = rec.mwi_old_messages;
  mwi_account_uri = c_str rec.mwi_account_uri;
  mwi_last_notify_body = c_str rec.mwi_last_notify_body;
  from_uri = c_str rec.from_uri;
  from_tag = c_str rec.from_tag;
  to_uri = c_str rec.to_uri;
  to_tag = c_str rec.to_tag;
  call_id = c_str rec.call_id;
  contact_uri = c_str rec.contact_uri;
  expires_at = kept_expiry rec.expires_at;
}

kept_expiry-read :
    (e : ℕ)
    → elim (stored_expiry e) [ pos n ↦ if ltb 0 n then seconds n else 0 | negsuc n ↦ 0 ]
      ≡ kept_expiry e
unfolding kept_expiry
kept_expiry-read e = positive (stored_expiry e)
  where
    positive :
        (n : ℤ)
        → elim n [ pos n ↦ if ltb 0 n then seconds n else 0 | negsuc n ↦ 0 ]
          ≡ elim n [ pos n ↦ seconds n | negsuc n ↦ 0 ]
    positive (pos n) = ground arith
    positive (negsuc n) = refl

module _ {Db : Type 0} (pool : MongoPool Db) (docs : Db → List Document)
    (laws : MongoLaws pool docs) (wall : ℕ) (service_id : Text) (rec : SubscriptionRecord)
    (row : Document) (carries : Carries wall service_id rec row) where
  string :
      (k s : Text)
      → find k (fields_of wall service_id rec) ≡ some (utf8 s)
      → pool.get_string row k ≡ s
  string k s h = laws.string_read row k s (carries k (utf8 s) h)

  int :
      (k : Text) (n : ℤ)
      → find k (fields_of wall service_id rec) ≡ some (int32 n)
      → pool.get_int row k ≡ n
  int k n h = laws.int_read row k n (carries k (int32 n) h)

  pub read_row-restored : (now : ℕ) → read_row pool now row (default_record now) ≡ restored now rec
  unfolding read_row restored fields_of find codes text_eq
  read_row-restored now =
      rw
        (
          string (codes "dialog_id") (c_str rec.dialog_id) refl,
          string (codes "tenant_id") (c_str rec.tenant_id) refl,
          string (codes "blf_monitored_uri") (c_str rec.blf_monitored_uri) refl,
          string (codes "blf_last_state") (c_str rec.blf_last_state) refl,
          string (codes "blf_last_direction") (c_str rec.blf_last_direction) refl,
          string (codes "blf_presence_call_id") (c_str rec.blf_presence_call_id) refl,
          string (codes "blf_last_notify_body") (c_str rec.blf_last_notify_body) refl,
          string (codes "mwi_account_uri") (c_str rec.mwi_account_uri) refl,
          string (codes "mwi_last_notify_body") (c_str rec.mwi_last_notify_body) refl,
          string (codes "from_uri") (c_str rec.from_uri) refl,
          string (codes "from_tag") (c_str rec.from_tag) refl,
          string (codes "to_uri") (c_str rec.to_uri) refl,
          string (codes "to_tag") (c_str rec.to_tag) refl,
          string (codes "call_id") (c_str rec.call_id) refl,
          string (codes "contact_uri") (c_str rec.contact_uri) refl,
          string (codes "type") (subscription_type_to_string rec.type) refl,
          string (codes "lifecycle") (lifecycle_to_string rec.lifecycle) refl,
          int (codes "cseq") (to_int32 rec.cseq) refl,
          int (codes "blf_notify_version") (to_int32 rec.blf_notify_version) refl,
          int (codes "mwi_new_messages") rec.mwi_new_messages refl,
          int (codes "mwi_old_messages") rec.mwi_old_messages refl,
          int (codes "expires_at") (stored_expiry rec.expires_at) refl,
          (subscription_type_round_trip rec.type).0,
          lifecycle_round_trip rec.lifecycle,
          to_uint32-to_int32 rec.cseq,
          to_uint32-to_int32 rec.blf_notify_version,
          kept_expiry-read rec.expires_at,
        )
        refl
