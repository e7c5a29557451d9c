-- ===== src/Persistence/Store/Refine.antt =====
-- The subscription store as a map from dialogs to records: what is saved, deleted and loaded.
use sip_event_processor.Prelude.{
  ℕ, ◌≡◌, ◌≤◌, ◌∙◌, refl, ap, true, false, Option, none, some, List, [], ◌∷◌, ◌++◌, map, Text,
  codes, text_eq, length, arith, Bool-cases, inl, inr, ltb, if◌then◌else◌,
}
use sip_event_processor.Prelude.Map.{find}
use sip_event_processor.Types.{ok}
use sip_event_processor.Subscription.Record.{SubscriptionRecord, default_record}
use sip_event_processor.Persistence.Pool.{Document, utf8, MongoPool, MongoLaws, c_str, set_all}
use sip_event_processor.Persistence.Store.{
  PendingOp, upsert, delete, SubscriptionStore, fields_of, read_row, usable, upserted,
  save_immediately,
}
use sip_event_processor.Persistence.Store.Collection.{
  at_key, update_docs, update-same, update-other, insert-same, insert-other,
}
use sip_event_processor.Persistence.Store.RoundTrip.{restored, read_row-restored, find-set_all}
use sip_event_processor.Persistence.Store.Outcomes.{save-outcome}

-- A database in which every operation succeeds.
pub record Answers {Db : Type 0} (pool : MongoPool Db) : Type 0 where
  pub counts : (k v : Text) (db : Db) → (n : ℕ) × ((pool.find_count k v db).1 ≡ some n)
  pub updates : (k v : Text) (fields : Document) (db : Db) → (pool.update k v fields db).1 ≡ true
  pub inserts : (d : Document) (db : Db) → (pool.insert d db).1 ≡ true
  pub deletes : (k v : Text) (db : Db) → (pool.delete k v db).1 ≡ true
  pub finds :
      (k v : Text) (db : Db) → (rows : List Document) × ((pool.find_rows k v db).1 ≡ some rows)

abbrev pub Saved : Type 0
Saved = Text → Option SubscriptionRecord

-- The specification of an operation, on what is saved for each dialog.
unfoldable pub spec_apply : ℕ → PendingOp → Saved → Saved
spec_apply now (upsert rec) f e =
    if text_eq (c_str rec.dialog_id) e then some (restored now rec) else f e
spec_apply now (delete dialog_id) f e = if text_eq (c_str dialog_id) e then none else f e

unfoldable pub spec_all : ℕ → List PendingOp → Saved → Saved
spec_all now [] f = f
spec_all now (op ∷ ops) f = spec_all now ops (spec_apply now op f)

-- No two documents have one dialog identifier.
abbrev pub Single : List Document → Type 0
Single ds = (key : Text) → length (at_key (codes "dialog_id") key ds) ≤ 1

-- The fields that are written begin with the dialog's identifier.
fields-key :
    (wall : ℕ) (service_id : Text) (rec : SubscriptionRecord)
    → find (codes "dialog_id") (fields_of wall service_id rec) ≡ some (utf8 (c_str rec.dialog_id))
unfolding fields_of find codes text_eq
fields-key wall service_id rec = refl

module _ {Db : Type 0} (pool : MongoPool Db) (docs : Db → List Document) (now : ℕ) where
  -- What the first of a list of rows is read as.
  unfoldable pub first_row : List Document → Option SubscriptionRecord
  first_row [] = none
  first_row (row ∷ rows) = some (read_row pool now row (default_record now))

  -- What is saved for a dialog.
  unfoldable pub saved : Db → Saved
  saved db key = first_row (at_key (codes "dialog_id") key (docs db))

module _ {Db : Type 0} (pool : MongoPool Db) (docs : Db → List Document)
    (laws : MongoLaws pool docs) (answers : Answers pool) (now : ℕ) where
  -- The documents after a save, in both of its branches.
  pub record Written (wall : ℕ) (rec : SubscriptionRecord) (s t : SubscriptionStore Db)
      : Type 0 where
    pub row : Document
    pub here : at_key (codes "dialog_id") (c_str rec.dialog_id) (docs t.db) ≡ row ∷ []
    pub read : read_row pool now row (default_record now) ≡ restored now rec
    pub others :
        (e : Text)
        → text_eq (c_str rec.dialog_id) e ≡ false
        → at_key (codes "dialog_id") e (docs t.db) ≡ at_key (codes "dialog_id") e (docs s.db)
    pub still_usable : usable pool t ≡ true
    pub succeeded : (save_immediately pool wall rec s).1 ≡ ok

  save-update :
      (wall : ℕ) (rec : SubscriptionRecord) (s : SubscriptionStore Db) (n : ℕ)
      → usable pool s ≡ true
      → (pool.find_count (codes "dialog_id") (c_str rec.dialog_id) s.db).1 ≡ some n
      → ltb 0 n ≡ true
      → let db1 = (pool.find_count (codes "dialog_id") (c_str rec.dialog_id) s.db).0 in
        save_immediately pool wall rec s ≡ (
          upserted pool (record s {
            db =
                (pool.update
                  (codes "dialog_id")
                  (c_str rec.dialog_id)
                  (fields_of wall s.service_id rec)
                  db1).0;
          }),
          ok,
        )
  unfolding save_immediately
  save-update wall rec s n u c h =
      let db1 = (pool.find_count (codes "dialog_id") (c_str rec.dialog_id) s.db).0 in
      let done =
        answers.updates (codes "dialog_id") (c_str rec.dialog_id) (fields_of wall s.service_id rec)
          db1 in
      simp (save_immediately, u, c, h, done) refl

  save-insert :
      (wall : ℕ) (rec : SubscriptionRecord) (s : SubscriptionStore Db) (n : ℕ)
      → usable pool s ≡ true
      → (pool.find_count (codes "dialog_id") (c_str rec.dialog_id) s.db).1 ≡ some n
      → ltb 0 n ≡ false
      → let db1 = (pool.find_count (codes "dialog_id") (c_str rec.dialog_id) s.db).0 in
        save_immediately pool wall rec s ≡ (
          upserted pool (record s { db = (pool.insert (fields_of wall s.service_id rec) db1).0 }),
          ok,
        )
  unfolding save_immediately
  save-insert wall rec s n u c h =
      let db1 = (pool.find_count (codes "dialog_id") (c_str rec.dialog_id) s.db).0 in
      let done = answers.inserts (fields_of wall s.service_id rec) db1 in
      simp (save_immediately, u, c, h, done) refl

  one_row : (ds : List Document) → length ds ≤ 1 → 1 ≤ length ds → (d : Document) × (ds ≡ d ∷ [])
  one_row [] h g = ground (arith, g)
  one_row (d ∷ []) h g = (d, refl)
  one_row (d ∷ e ∷ ds) h g = ground (arith, h)

  pub no_row : (ds : List Document) → length ds ≡ 0 → ds ≡ []
  no_row [] h = refl
  no_row (d ∷ ds) h = ground (arith, h)

  save_over-Written :
      (wall : ℕ) (rec : SubscriptionRecord) (s : SubscriptionStore Db) (n : ℕ)
      → usable pool s ≡ true
      → Single (docs s.db)
      → (pool.find_count (codes "dialog_id") (c_str rec.dialog_id) s.db).1 ≡ some n
      → ltb 0 n ≡ true
      → Written wall rec s (save_immediately pool wall rec s).0
  save_over-Written wall rec s n u single c old =
      let key = c_str rec.dialog_id in
      let fields = fields_of wall s.service_id rec in
      let counted = laws.count_counts (codes "dialog_id") key s.db n c in
      let db1 = (pool.find_count (codes "dialog_id") key s.db).0 in
      let same = laws.count_reads (codes "dialog_id") key s.db in
      let keyed = fields-key wall s.service_id rec in
      let (usable', _, _) = save-outcome pool wall rec s u in
      let (d, only) =
        one_row (at_key (codes "dialog_id") key (docs s.db)) (single key)
          (ground (arith, counted, old)) in
      let save = save-update wall rec s n u c old in
      let after : docs (save_immediately pool wall rec s).0.db
          ≡ update_docs (codes "dialog_id") key fields (docs s.db) =
        ap (λ (t, _). docs t.db) save
        ∙ laws.update_sets (codes "dialog_id") key fields db1
            (answers.updates (codes "dialog_id") key fields db1)
        ∙ ap (update_docs (codes "dialog_id") key fields) same in
      record {
        row = set_all fields d;
        here =
            ap (at_key (codes "dialog_id") key) after
            ∙ update-same (codes "dialog_id") key fields keyed (docs s.db)
            ∙ ap (map (set_all fields)) only;
        read =
            read_row-restored pool docs laws wall s.service_id rec (set_all fields d)
              (λ k v h. find-set_all k fields d v h) now;
        others = λ e h.
            ap (at_key (codes "dialog_id") e) after
            ∙ update-other (codes "dialog_id") key fields keyed e (docs s.db) h;
        still_usable = usable';
        succeeded = ap (λ (_, r). r) save;
      }

  save_new-Written :
      (wall : ℕ) (rec : SubscriptionRecord) (s : SubscriptionStore Db) (n : ℕ)
      → usable pool s ≡ true
      → (pool.find_count (codes "dialog_id") (c_str rec.dialog_id) s.db).1 ≡ some n
      → ltb 0 n ≡ false
      → Written wall rec s (save_immediately pool wall rec s).0
  save_new-Written wall rec s n u c new =
      let key = c_str rec.dialog_id in
      let fields = fields_of wall s.service_id rec in
      let counted = laws.count_counts (codes "dialog_id") key s.db n c in
      let db1 = (pool.find_count (codes "dialog_id") key s.db).0 in
      let same = laws.count_reads (codes "dialog_id") key s.db in
      let keyed = fields-key wall s.service_id rec in
      let (usable', _, _) = save-outcome pool wall rec s u in
      let none_there =
        no_row (at_key (codes "dialog_id") key (docs s.db)) (ground (arith, counted, new)) in
      let save = save-insert wall rec s n u c new in
      let after : docs (save_immediately pool wall rec s).0.db ≡ docs s.db ++ fields ∷ [] =
        ap (λ (t, _). docs t.db) save
        ∙ laws.insert_appends fields db1 (answers.inserts fields db1)
        ∙ ap (λ ds. ds ++ fields ∷ []) same in
      record {
        row = fields;
        here =
            ap (at_key (codes "dialog_id") key) after
            ∙ insert-same (codes "dialog_id") key fields (docs s.db) keyed
            ∙ ap (λ ds. ds ++ fields ∷ []) none_there;
        read = read_row-restored pool docs laws wall s.service_id rec fields (λ k v h. h) now;
        others = λ e h.
            ap (at_key (codes "dialog_id") e) after
            ∙ insert-other (codes "dialog_id") key e fields (docs s.db) keyed h;
        still_usable = usable';
        succeeded = ap (λ (_, r). r) save;
      }

  pub save-Written :
      (wall : ℕ) (rec : SubscriptionRecord) (s : SubscriptionStore Db)
      → usable pool s ≡ true
      → Single (docs s.db)
      → Written wall rec s (save_immediately pool wall rec s).0
  save-Written wall rec s u single =
      let (n, c) = answers.counts (codes "dialog_id") (c_str rec.dialog_id) s.db in
      elim (Bool-cases (ltb 0 n)) [
        | inl old ↦ save_over-Written wall rec s n u single c old
        | inr new ↦ save_new-Written wall rec s n u c new
      ]
