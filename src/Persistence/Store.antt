-- ===== src/Persistence/Store.antt =====
-- SubscriptionStore of include/persistence/subscription_store.h and
-- src/persistence/subscription_store.cpp. The database is a state `Db` behind MongoPool; the
-- clocks' readings are arguments: `wall` is the system clock in milliseconds.
pub mod Sync
pub mod Outcomes
pub mod RoundTrip
pub mod Collection
pub mod Refine
pub mod Flush
use sip_event_processor.Prelude.{
  ℕ, zero, suc, ◌+◌, ◌/◌, Bool, true, false, not, ◌&&◌, ◌||◌, Option, none, some, List, [], ◌∷◌,
  ◌++◌, Text, codes, length, is_empty, ℤ, pos, negsuc, is_positive, ltb, leb, if◌then◌else◌,
}
use sip_event_processor.Types.{
  Result, ok, error, not_found, persistence_error, subscription_type_to_string,
  subscription_type_from_string, lifecycle_to_string, lifecycle_from_string, seconds, millisecs,
}
use sip_event_processor.Subscription.Record.{SubscriptionRecord, default_record}
use sip_event_processor.Persistence.Pool.{
  Document, utf8, int32, MongoPool, c_str, to_int32, to_uint32,
}
use sip_event_processor.Persistence.Client.{MongoClient}

pub data PendingOp : Type 0 where
  upsert : SubscriptionRecord → PendingOp
  delete : Text → PendingOp

pub record StoreStats : Type 0 where
  pub upserts : ℕ
  pub deletes : ℕ
  pub loads : ℕ
  pub errors : ℕ
  pub batch_writes : ℕ
  pub queue_depth : ℕ

-- `mongo` is `none` for a null pointer. `db` is what is behind the client.
pub record SubscriptionStore (Db : Type 0) : Type 0 where
  pub service_id : Text
  pub mongo_batch_size : ℕ
  pub enabled : Bool
  pub mongo : Option MongoClient
  pub running : Bool
  pub stop_requested : Bool
  pub pending_ops : List PendingOp
  pub stats : StoreStats
  pub db : Db

pub record StoredSubscription : Type 0 where
  pub rec : SubscriptionRecord
  pub needs_full_state_notify : Bool

-- expires_at in seconds, as it is stored. The cast of the 64-bit count of seconds wraps.
unfoldable pub stored_expiry : ℕ → ℤ
stored_expiry expires_at = to_int32 (expires_at / 1000000 / 1000)

-- The fields of the $set document, and of the inserted one.
unfoldable pub fields_of : ℕ → Text → SubscriptionRecord → Document
fields_of wall service_id rec =
    (codes "dialog_id", utf8 (c_str rec.dialog_id))
    ∷ (codes "tenant_id", utf8 (c_str rec.tenant_id))
    ∷ (codes "type", utf8 (subscription_type_to_string rec.type))
    ∷ (codes "lifecycle", utf8 (lifecycle_to_string rec.lifecycle))
    ∷ (codes "cseq", int32 (to_int32 rec.cseq))
    ∷ (codes "blf_monitored_uri", utf8 (c_str rec.blf_monitored_uri))
    ∷ (codes "blf_last_state", utf8 (c_str rec.blf_last_state))
    ∷ (codes "blf_last_direction", utf8 (c_str rec.blf_last_direction))
    ∷ (codes "blf_presence_call_id", utf8 (c_str rec.blf_presence_call_id))
    ∷ (codes "blf_last_notify_body", utf8 (c_str rec.blf_last_notify_body))
    ∷ (codes "blf_notify_version", int32 (to_int32 rec.blf_notify_version))
    ∷ (codes "mwi_new_messages", int32 rec.mwi_new_messages)
    ∷ (codes "mwi_old_messages", int32 rec.mwi_old_messages)
    ∷ (codes "mwi_account_uri", utf8 (c_str rec.mwi_account_uri))
    ∷ (codes "mwi_last_notify_body", utf8 (c_str rec.mwi_last_notify_body))
    ∷ (codes "from_uri", utf8 (c_str rec.from_uri))
    ∷ (codes "from_tag", utf8 (c_str rec.from_tag))
    ∷ (codes "to_uri", utf8 (c_str rec.to_uri))
    ∷ (codes "to_tag", utf8 (c_str rec.to_tag))
    ∷ (codes "call_id", utf8 (c_str rec.call_id))
    ∷ (codes "contact_uri", utf8 (c_str rec.contact_uri))
    ∷ (codes "updated_at", int32 (to_int32 (wall / 1000)))
    ∷ (codes "expires_at", int32 (stored_expiry rec.expires_at))
    ∷ (codes "service_id", utf8 (c_str service_id))
    ∷ []

module _ {Db : Type 0} (pool : MongoPool Db) where
  -- !enabled_ || !mongo_ || !mongo_->is_connected(), negated
  unfoldable pub usable : SubscriptionStore Db → Bool
  usable s = s.enabled && elim s.mongo [ none ↦ false | some m ↦ m.connected ]

  -- mongo_->mutable_stats().operations.fetch_add(n)
  unfoldable pub count_operations : ℕ → Option MongoClient → Option MongoClient
  count_operations n none = none
  count_operations n (some m) = some (record m { operations = m.operations + n })

  abbrev pub failed : SubscriptionStore Db → SubscriptionStore Db
  failed s = record s { stats = record s.stats { errors = s.stats.errors + 1 } }

  abbrev pub upserted : SubscriptionStore Db → SubscriptionStore Db
  upserted s = record s {
    stats = record s.stats { upserts = s.stats.upserts + 1 };
    mongo = count_operations 1 s.mongo;
  }

  abbrev pub deleted : SubscriptionStore Db → SubscriptionStore Db
  deleted s = record s {
    stats = record s.stats { deletes = s.stats.deletes + 1 };
    mongo = count_operations 1 s.mongo;
  }

  -- count_ok && count_pool.getDcount() > 0
  abbrev pub exists : Option ℕ → Bool
  exists none = false
  exists (some n) = ltb 0 n

  unfoldable pub save_immediately :
      ℕ → SubscriptionRecord → SubscriptionStore Db → SubscriptionStore Db × Result
  save_immediately wall rec s =
      if not (usable s)
      then (s, ok)
      else let key = c_str rec.dialog_id in
        let fields = fields_of wall s.service_id rec in
        let (db1, count) = pool.find_count (codes "dialog_id") key s.db in
        let (db2, done) =
          (if exists count
            then pool.update (codes "dialog_id") key fields db1
            else pool.insert fields db1) in
        if not done
        then (failed (record s { db = db2 }), persistence_error)
        else (upserted (record s { db = db2 }), ok)

  unfoldable pub delete_immediately : Text → SubscriptionStore Db → SubscriptionStore Db × Result
  delete_immediately dialog_id s =
      if not (usable s)
      then (s, ok)
      else let (db1, done) = pool.delete (codes "dialog_id") (c_str dialog_id) s.db in
        if not done
        then (failed (record s { db = db1 }), persistence_error)
        else (deleted (record s { db = db1 }), ok)

  -- The row's fields. `rec` is the record as it was before they are assigned.
  unfoldable pub read_row : ℕ → Document → SubscriptionRecord → SubscriptionRecord
  read_row now row rec =
      let exp_sec = pool.get_int row (codes "expires_at") in
      record rec {
        dialog_id = pool.get_string row (codes "dialog_id");
        tenant_id = pool.get_string row (codes "tenant_id");
        type = subscription_type_from_string (pool.get_string row (codes "type"));
        lifecycle = lifecycle_from_string (pool.get_string row (codes "lifecycle"));
        cseq = to_uint32 (pool.get_int row (codes "cseq"));
        blf_monitored_uri = pool.get_string row (codes "blf_monitored_uri");
        blf_last_state = pool.get_string row (codes "blf_last_state");
        blf_last_direction = pool.get_string row (codes "blf_last_direction");
        blf_presence_call_id = pool.get_string row (codes "blf_presence_call_id");
        blf_last_notify_body = pool.get_string row (codes "blf_last_notify_body");
        blf_notify_version = to_uint32 (pool.get_int row (codes "blf_notify_version"));
        mwi_new_messages = pool.get_int row (codes "mwi_new_messages");
        mwi_old_messages = pool.get_int row (codes "mwi_old_messages");
        mwi_account_uri = pool.get_string row (codes "mwi_account_uri");
        mwi_last_notify_body = pool.get_string row (codes "mwi_last_notify_body");
        from_uri = pool.get_string row (codes "from_uri");
        from_tag = pool.get_string row (codes "from_tag");
        to_uri = pool.get_string row (codes "to_uri");
        to_tag = pool.get_string row (codes "to_tag");
        call_id = pool.get_string row (codes "call_id");
        contact_uri = pool.get_string row (codes "contact_uri");
        expires_at = elim exp_sec [
          | pos n ↦ if ltb 0 n then seconds n else rec.expires_at
          | negsuc n ↦ rec.expires_at
        ];
        last_activity = now;
      }

  -- The loop over the rows of a lifecycle: what is pushed, and how many are.
  unfoldable pub read_rows : ℕ → List Document → List StoredSubscription
  read_rows now [] = []
  read_rows now (row ∷ rows) =
      let rest = read_rows now rows in
      let rec = read_row now row (default_record now) in
      if is_empty rec.dialog_id
      then rest
      else record { rec = rec; needs_full_state_notify = true } ∷ rest

  unfoldable pub load_by_lifecycle :
      ℕ
      → Text
      → List StoredSubscription × SubscriptionStore Db
      → (List StoredSubscription × SubscriptionStore Db) × Result
  load_by_lifecycle now lifecycle (out, s) =
      let (db1, rows) = pool.find_rows (codes "lifecycle") lifecycle s.db in
      elim rows as (λ _. (List StoredSubscription × SubscriptionStore Db) × Result) [
        | none ↦ ((out, record s { db = db1 }), persistence_error)
        | some rs ↦
            let loaded = read_rows now rs in
            (
              (
                out ++ loaded,
                record s {
                  db = db1;
                  stats = record s.stats { loads = s.stats.loads + length loaded };
                },
              ),
              ok,
            )
      ]

  unfoldable pub load_active_subscriptions :
      ℕ → SubscriptionStore Db → (List StoredSubscription × SubscriptionStore Db) × Result
  load_active_subscriptions now s =
      if not (usable s)
      then (([], s), ok)
      else let (a, r1) = load_by_lifecycle now (codes "Active") ([], s) in
        let ((out, s'), r2) = load_by_lifecycle now (codes "Pending") a in
        elim r1 as (λ _. (List StoredSubscription × SubscriptionStore Db) × Result) [
          | ok ↦ elim r2 as (λ _. (List StoredSubscription × SubscriptionStore Db) × Result) [
            | ok ↦ ((out, record s' { mongo = count_operations 2 s'.mongo }), ok)
            | _ ↦ ((out, failed s'), persistence_error)
          ]
          | _ ↦ ((out, failed s'), persistence_error)
        ]

  -- `out` is the caller's object.
  unfoldable pub load_subscription :
      ℕ
      → Text
      → StoredSubscription
      → SubscriptionStore Db
      → (StoredSubscription × SubscriptionStore Db) × Result
  load_subscription now dialog_id out s =
      if not (usable s)
      then ((out, s), not_found)
      else let (db1, rows) = pool.find_rows (codes "dialog_id") (c_str dialog_id) s.db in
        elim rows as (λ _. (StoredSubscription × SubscriptionStore Db) × Result) [
          | none ↦ ((out, failed (record s { db = db1 })), persistence_error)
          | some rs ↦ elim rs as (λ _. (StoredSubscription × SubscriptionStore Db) × Result) [
            | [] ↦ ((out, record s { db = db1 }), not_found)
            | row ∷ _ ↦ (
              (
                record { rec = read_row now row out.rec; needs_full_state_notify = true },
                record s { db = db1; mongo = count_operations 1 s.mongo },
              ),
              ok,
            )
          ]
        ]
