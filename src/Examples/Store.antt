-- ===== src/Examples/Store.antt =====
-- The subscription store, over a database that is the list of its documents.
use sip_event_processor.Prelude.{
  ◌+◌, ◌≡◌, refl, ap, true, false, not, Option, none, some, [], ◌∷◌, ◌++◌, map, Text, List, codes,
  length, keep_if, ℤ, pos, arith, if◌then◌else◌,
}
use sip_event_processor.Prelude.Map.{find}
use sip_event_processor.Types.{ok}
use sip_event_processor.Subscription.Record.{default_record}
use sip_event_processor.Persistence.Pool.{
  Document, Value, utf8, int32, MongoPool, MongoLaws, matches, set_all,
}
use sip_event_processor.Persistence.Store.{
  SubscriptionStore, StoredSubscription, StoreStats, upsert, delete, usable, save_immediately,
  load_subscription,
}
use sip_event_processor.Persistence.Store.Sync.{flush_pending}
use sip_event_processor.Persistence.Store.Outcomes.{outcomes, flush_pending-outcomes}
use sip_event_processor.Persistence.Store.Refine.{Answers, Single, saved, spec_all}
use sip_event_processor.Persistence.Store.Flush.{kept, flush_pending-refines, load-save}
use sip_event_processor.Examples.Data.{first_dialog, second_dialog, active_record}

abbrev string_of : Option Value → Text
string_of none = []
string_of (some (utf8 s)) = s
string_of (some (int32 n)) = []

abbrev int_of : Option Value → ℤ
int_of none = pos 0
int_of (some (utf8 s)) = pos 0
int_of (some (int32 n)) = n

abbrev pub pool : MongoPool (List Document)
pool = record {
  find_count = λ k v db. (db, some (length (keep_if (matches k v) db)));
  update = λ k v fields db. (map (λ d. if matches k v d then set_all fields d else d) db, true);
  insert = λ d db. (db ++ d ∷ [], true);
  delete = λ k v db. (keep_if (λ d. not (matches k v d)) db, true);
  find_rows = λ k v db. (db, some (keep_if (matches k v) db));
  get_string = λ d k. string_of (find k d);
  get_int = λ d k. int_of (find k d);
}

abbrev docs : List Document → List Document
docs db = db

laws : MongoLaws pool docs
laws = record {
  count_reads = λ k v db. refl;
  count_counts = λ k v db n h. ground (arith, h);
  update_sets = λ k v fields db h. refl;
  insert_appends = λ d db h. refl;
  delete_removes = λ k v db h g. refl;
  find_reads = λ k v db. refl;
  find_finds = λ k v db rows h. ground (arith, h);
  string_read = λ d k s h. ap string_of h;
  int_read = λ d k n h. ap int_of h;
}

answers : Answers pool
answers = record {
  counts = λ k v db. (length (keep_if (matches k v) db), refl);
  updates = λ k v fields db. refl;
  inserts = λ d db. refl;
  deletes = λ k v db. refl;
  finds = λ k v db. (keep_if (matches k v) db, refl);
}

abbrev store_stats : StoreStats
store_stats = record {
  upserts = 0;
  deletes = 0;
  loads = 0;
  errors = 0;
  batch_writes = 0;
  queue_depth = 2;
}

-- A store that is connected, with a save and a delete in its queue and an empty collection.
abbrev pub store : SubscriptionStore (List Document)
store = record {
  service_id = codes "sip-proc-01";
  mongo_batch_size = 500;
  enabled = true;
  mongo = some (record {
    mongo_uri = [];
    mongo_pool_max_size = pos 10;
    connected = true;
    operations = 0;
    errors = 0;
  });
  running = true;
  stop_requested = false;
  pending_ops = upsert active_record ∷ delete second_dialog ∷ [];
  stats = store_stats;
  db = [];
}

usable-store : usable pool store ≡ true
unfolding usable
usable-store = refl

no_documents : Single (docs store.db)
unfolding keep_if
no_documents key = omega arith

flush_pending-outcomes_example :
    let s' = flush_pending pool 9000 store in
    (s'.pending_ops ≡ [])
    × (outcomes s'.stats
        ≡ outcomes store.stats + (if usable pool store then length store.pending_ops else 0))
flush_pending-outcomes_example = flush_pending-outcomes pool 9000 store

flush_pending-refines_example :
    saved pool docs 11 (flush_pending pool 9000 store).db first_dialog
    ≡ spec_all 11 store.pending_ops (saved pool docs 11 store.db) first_dialog
flush_pending-refines_example =
    flush_pending-refines pool docs laws answers 11 9000 store first_dialog usable-store
      no_documents

load-save_example :
    let out : StoredSubscription = record {
      rec = default_record 11;
      needs_full_state_notify = false;
    } in
    let ((found, _), r) =
      load_subscription pool 11 first_dialog out
        (save_immediately pool 9000 active_record store).0 in
    (r ≡ ok)
    × (found.rec ≡ kept pool docs laws answers 11 active_record)
    × (found.needs_full_state_notify ≡ true)
load-save_example =
    load-save pool docs laws answers 11 9000 active_record store false usable-store no_documents
      (omega arith, omega arith, omega arith)
