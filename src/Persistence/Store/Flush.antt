-- ===== src/Persistence/Store/Flush.antt =====
-- flush_pending and load_subscription against the map from dialogs to what is saved for them.
use sip_event_processor.Prelude.{
  ℕ, ◌/◌, ◌%◌, ◌^◌, ◌≡◌, ◌<◌, ◌≤◌, ◌∙◌, refl, ap, subst, Bool, true, false, not, some, List, [],
  ◌∷◌, Text, codes, text_eq, text_eq_iff, length, is_empty, keep_if, arith, Bool-cases, inl, inr,
}
use sip_event_processor.Types.{ok, seconds}
use sip_event_processor.Subscription.Record.{SubscriptionRecord, default_record}
use sip_event_processor.Persistence.Pool.{Document, MongoPool, MongoLaws, c_str, to_int32, matches}
use sip_event_processor.Persistence.Store.{
  PendingOp, upsert, delete, SubscriptionStore, StoredSubscription, stored_expiry, read_row, usable,
  deleted, save_immediately, delete_immediately, load_subscription,
}
use sip_event_processor.Persistence.Store.Sync.{apply, apply_all, flush_pending}
use sip_event_processor.Persistence.Store.Collection.{at_key, delete-same, delete-other}
use sip_event_processor.Persistence.Store.RoundTrip.{restored, kept_expiry}
use sip_event_processor.Persistence.Store.Outcomes.{
  delete-outcome, taken, usable-taken, flush-empty, flush-some,
}
use sip_event_processor.Persistence.Store.Refine.{
  Answers, spec_apply, spec_all, Single, first_row, saved, save-Written,
}

module _ {Db : Type 0} (pool : MongoPool Db) (docs : Db → List Document)
    (laws : MongoLaws pool docs) (answers : Answers pool) (now : ℕ) where
  -- What an operation keeps, and that it does what the specification says.
  record Refines (op : PendingOp) (s t : SubscriptionStore Db) : Type 0 where
    still_usable : usable pool t ≡ true
    single : Single (docs t.db)
    as_specified :
        (key : Text)
        → saved pool docs now t.db key ≡ spec_apply now op (saved pool docs now s.db) key

  save-Refines :
      (wall : ℕ) (rec : SubscriptionRecord) (s : SubscriptionStore Db)
      → usable pool s ≡ true
      → Single (docs s.db)
      → Refines (upsert rec) s (save_immediately pool wall rec s).0
  unfolding saved first_row spec_apply
  save-Refines wall rec s u single =
      let w = save-Written pool docs laws answers now wall rec s u single in
      let t = (save_immediately pool wall rec s).0 in
      let equal : (key : Text)
          → text_eq (c_str rec.dialog_id) key ≡ true
          → c_str rec.dialog_id ≡ key =
        λ key. (text_eq_iff (c_str rec.dialog_id) key).0 in
      record {
        still_usable = w.still_usable;
        single = λ key. elim (Bool-cases (text_eq (c_str rec.dialog_id) key)) [
          | inl e ↦
              subst (λ k. length (at_key (codes "dialog_id") k (docs t.db)) ≤ 1) (equal key e)
                (rw w.here (omega arith))
          | inr e ↦ rw (w.others key e) (single key)
        ];
        as_specified = λ key. elim (Bool-cases (text_eq (c_str rec.dialog_id) key)) [
          | inl e ↦
              let here =
                subst (λ k. at_key (codes "dialog_id") k (docs t.db) ≡ w.row ∷ []) (equal key e)
                  w.here in
              simp e (ap (first_row pool docs now) here ∙ ap some w.read)
          | inr e ↦ simp e (ap (first_row pool docs now) (w.others key e))
        ];
      }

  delete-succeeds :
      (dialog_id : Text) (s : SubscriptionStore Db)
      → usable pool s ≡ true
      → delete_immediately pool dialog_id s ≡ (
        deleted pool (record s { db = (pool.delete (codes "dialog_id") (c_str dialog_id) s.db).0 }),
        ok,
      )
  unfolding delete_immediately
  delete-succeeds dialog_id s u =
      let done = answers.deletes (codes "dialog_id") (c_str dialog_id) s.db in
      simp (delete_immediately, u, done) refl

  delete-Refines :
      (dialog_id : Text) (s : SubscriptionStore Db)
      → usable pool s ≡ true
      → Single (docs s.db)
      → Refines (delete dialog_id) s (delete_immediately pool dialog_id s).0
  unfolding saved first_row spec_apply
  delete-Refines dialog_id s u single =
      let gone = c_str dialog_id in
      let t = (delete_immediately pool dialog_id s).0 in
      let (usable', _, _) = delete-outcome pool dialog_id s u in
      let equal : (key : Text) → text_eq gone key ≡ true → gone ≡ key =
        λ key. (text_eq_iff gone key).0 in
      let after : docs t.db ≡ keep_if (λ d. not (matches (codes "dialog_id") gone d)) (docs s.db) =
        ap (λ (x, _). docs x.db) (delete-succeeds dialog_id s u)
        ∙ laws.delete_removes (codes "dialog_id") gone s.db (single gone)
            (answers.deletes (codes "dialog_id") gone s.db) in
      let here : at_key (codes "dialog_id") gone (docs t.db) ≡ [] =
        ap (at_key (codes "dialog_id") gone) after
        ∙ delete-same (codes "dialog_id") gone (docs s.db) in
      let others : (key : Text)
          → text_eq gone key ≡ false
          → at_key (codes "dialog_id") key (docs t.db)
            ≡ at_key (codes "dialog_id") key (docs s.db) =
        λ key e.
          ap (at_key (codes "dialog_id") key) after
          ∙ delete-other (codes "dialog_id") gone key (docs s.db) e in
      record {
        still_usable = usable';
        single = λ key. elim (Bool-cases (text_eq gone key)) [
          | inl e ↦
              subst (λ k. length (at_key (codes "dialog_id") k (docs t.db)) ≤ 1) (equal key e)
                (rw here (omega arith))
          | inr e ↦ rw (others key e) (single key)
        ];
        as_specified = λ key. elim (Bool-cases (text_eq gone key)) [
          | inl e ↦ simp e (
              ap (first_row pool docs now)
                (subst (λ k. at_key (codes "dialog_id") k (docs t.db) ≡ []) (equal key e) here))
          | inr e ↦ simp e (ap (first_row pool docs now) (others key e))
        ];
      }

  apply-Refines :
      (wall : ℕ) (op : PendingOp) (s : SubscriptionStore Db)
      → usable pool s ≡ true
      → Single (docs s.db)
      → Refines op s (apply pool wall op s)
  unfolding apply
  apply-Refines wall (upsert rec) s u single = save-Refines wall rec s u single
  apply-Refines wall (delete dialog_id) s u single = delete-Refines dialog_id s u single

  apply_all-refines :
      (wall : ℕ) (ops : List PendingOp) (s : SubscriptionStore Db) (key : Text)
      → usable pool s ≡ true
      → Single (docs s.db)
      → saved pool docs now (apply_all pool wall ops s).db key
        ≡ spec_all now ops (saved pool docs now s.db) key
  unfolding apply_all spec_all
  apply_all-refines wall [] s key u single = refl
  apply_all-refines wall (op ∷ ops) s key u single =
      let r = apply-Refines wall op s u single in
      apply_all-refines wall ops (apply pool wall op s) key r.still_usable r.single
      ∙ ap (λ f. spec_all now ops f key) (λ i k. r.as_specified k i)

  -- If the store is connected, the database does what it is asked and no dialog has two
  -- documents, then a flush leaves saved for each dialog what the queued operations, applied in
  -- their order to a map from dialogs to records, leave: the record of the last upsert as it is
  -- restored, nothing after a delete, and what was saved before where no operation names the
  -- dialog.
  pub flush_pending-refines :
      (wall : ℕ) (s : SubscriptionStore Db) (key : Text)
      → usable pool s ≡ true
      → Single (docs s.db)
      → saved pool docs now (flush_pending pool wall s).db key
        ≡ spec_all now s.pending_ops (saved pool docs now s.db) key
  unfolding spec_all
  flush_pending-refines wall s key u single = go s.pending_ops refl
    where
      go :
          (ops : List PendingOp)
          → s.pending_ops ≡ ops
          → saved pool docs now (flush_pending pool wall s).db key
            ≡ spec_all now s.pending_ops (saved pool docs now s.db) key
      go [] e = rw (flush-empty pool wall s (ap is_empty e), e) refl
      go (op ∷ ops) e =
          rw (flush-some pool wall s (ap is_empty e)) (
            apply_all-refines wall s.pending_ops (taken pool s) key (usable-taken pool s ∙ u)
              single)

  load_subscription-saved :
      (d : Text) (out : StoredSubscription) (s : SubscriptionStore Db) (row : Document)
      (rows : List Document)
      → usable pool s ≡ true
      → at_key (codes "dialog_id") (c_str d) (docs s.db) ≡ row ∷ rows
      → ((load_subscription pool now d out s).0.0.rec ≡ read_row pool now row out.rec)
        × ((load_subscription pool now d out s).0.0.needs_full_state_notify ≡ true)
        × ((load_subscription pool now d out s).1 ≡ ok)
  unfolding load_subscription
  load_subscription-saved d out s row rows u h =
      let (found, e) = answers.finds (codes "dialog_id") (c_str d) s.db in
      let these = laws.find_finds (codes "dialog_id") (c_str d) s.db found e ∙ h in
      simp (load_subscription, u, e, these) (refl, refl, refl)

  -- A record whose numbers fit in the 32 bits, or 31 for the seconds of its expiry, in which they
  -- are stored.
  abbrev pub Fits : SubscriptionRecord → Type 0
  Fits rec =
      (rec.cseq < 2 ^ 32)
      × (rec.blf_notify_version < 2 ^ 32)
      × (rec.expires_at / 1000000 / 1000 < 2 ^ 31)

  -- What is stored of a record, unchanged but for text after a NUL and for parts of seconds.
  abbrev pub kept : SubscriptionRecord → SubscriptionRecord
  kept rec = record (restored now rec) {
    cseq = rec.cseq;
    blf_notify_version = rec.blf_notify_version;
    expires_at = seconds (rec.expires_at / 1000000 / 1000);
  }

  restored-kept : (rec : SubscriptionRecord) → Fits rec → restored now rec ≡ kept rec
  unfolding restored kept_expiry stored_expiry to_int32
  restored-kept rec (a, b, c) =
      let cseq : rec.cseq % 2 ^ 32 ≡ rec.cseq = omega (arith, a) in
      let version : rec.blf_notify_version % 2 ^ 32 ≡ rec.blf_notify_version = omega (arith, b) in
      let expiry : kept_expiry rec.expires_at ≡ seconds (rec.expires_at / 1000000 / 1000) =
        ground (arith, c) in
      rw (cseq, version, expiry) refl

  -- If the store is connected, the database does what it is asked, no dialog has two documents
  -- and the record's numbers fit, then after `save_immediately` of it, `load_subscription` of its
  -- dialog succeeds and gives the record back: its texts up to a first NUL, its type, lifecycle,
  -- sequence number, notify version and message counts as they were, its expiry in whole seconds,
  -- the fields that are not stored at their defaults, and a full-state NOTIFY asked for.
  pub load-save :
      (wall : ℕ) (rec : SubscriptionRecord) (s : SubscriptionStore Db) (b : Bool)
      → usable pool s ≡ true
      → Single (docs s.db)
      → Fits rec
      → let out : StoredSubscription = record {
        rec = default_record now;
        needs_full_state_notify = b;
      } in
        let ((found, _), r) =
          load_subscription pool now rec.dialog_id out (save_immediately pool wall rec s).0 in
        (r ≡ ok) × (found.rec ≡ kept rec) × (found.needs_full_state_notify ≡ true)
  load-save wall rec s b u single fits =
      let w = save-Written pool docs laws answers now wall rec s u single in
      let t = (save_immediately pool wall rec s).0 in
      let (a, n, r) =
        load_subscription-saved rec.dialog_id
          (record { rec = default_record now; needs_full_state_notify = b }) t w.row []
          w.still_usable w.here in
      (r, a ∙ w.read ∙ restored-kept rec fits, n)
