-- ===== src/Persistence/Store/Outcomes.antt =====
-- Every pending operation has one outcome, whatever the database does.
use sip_event_processor.Prelude.{
  ℕ, ◌+◌, ◌≡◌, refl, ap, ◌∙◌, true, false, Option, none, some, List, [], ◌∷◌, Text, length,
  is_empty, arith, Bool-cases, inl, inr, if◌then◌else◌,
}
use sip_event_processor.Types.{ok}
use sip_event_processor.Subscription.Record.{SubscriptionRecord}
use sip_event_processor.Persistence.Pool.{MongoPool}
use sip_event_processor.Persistence.Client.{MongoClient}
use sip_event_processor.Persistence.Store.{
  PendingOp, upsert, delete, StoreStats, SubscriptionStore, usable, count_operations,
  save_immediately, delete_immediately,
}
use sip_event_processor.Persistence.Store.Sync.{apply, apply_all, flush_pending}

-- The outcomes that have been counted.
abbrev pub outcomes : StoreStats → ℕ
outcomes t = t.upserts + t.deletes + t.errors

is_empty-length : (ops : List PendingOp) → is_empty ops ≡ true → length ops ≡ 0
is_empty-length [] e = refl
is_empty-length (op ∷ ops) e = ground (arith, e)

module _ {Db : Type 0} (pool : MongoPool Db) where
  pub count_operations-connected :
      (m : Option MongoClient) (n : ℕ)
      → elim (count_operations pool n m) [ none ↦ false | some c ↦ c.connected ]
        ≡ elim m [ none ↦ false | some c ↦ c.connected ]
  unfolding count_operations
  count_operations-connected none n = refl
  count_operations-connected (some m) n = refl

  pub save-outcome :
      (wall : ℕ) (rec : SubscriptionRecord) (s : SubscriptionStore Db)
      → usable pool s ≡ true
      → let s' = (save_immediately pool wall rec s).0 in
        (usable pool s' ≡ true)
        × (outcomes s'.stats ≡ outcomes s.stats + 1)
        × (s'.pending_ops ≡ s.pending_ops)
  unfolding save_immediately usable
  save-outcome wall rec s u = ground (arith, u, count_operations-connected s.mongo 1)

  pub delete-outcome :
      (dialog_id : Text) (s : SubscriptionStore Db)
      → usable pool s ≡ true
      → let s' = (delete_immediately pool dialog_id s).0 in
        (usable pool s' ≡ true)
        × (outcomes s'.stats ≡ outcomes s.stats + 1)
        × (s'.pending_ops ≡ s.pending_ops)
  unfolding delete_immediately usable
  delete-outcome dialog_id s u = ground (arith, u, count_operations-connected s.mongo 1)

  apply-outcome :
      (wall : ℕ) (op : PendingOp) (s : SubscriptionStore Db)
      → usable pool s ≡ true
      → let s' = apply pool wall op s in
        (usable pool s' ≡ true)
        × (outcomes s'.stats ≡ outcomes s.stats + 1)
        × (s'.pending_ops ≡ s.pending_ops)
  unfolding apply
  apply-outcome wall (upsert rec) s u = save-outcome wall rec s u
  apply-outcome wall (delete dialog_id) s u = delete-outcome dialog_id s u

  apply_all-outcome :
      (wall : ℕ) (ops : List PendingOp) (s : SubscriptionStore Db)
      → usable pool s ≡ true
      → let s' = apply_all pool wall ops s in
        (outcomes s'.stats ≡ outcomes s.stats + length ops) × (s'.pending_ops ≡ s.pending_ops)
  unfolding apply_all
  apply_all-outcome wall [] s u = (omega arith, refl)
  apply_all-outcome wall (op ∷ ops) s u =
      let (usable', one, queue) = apply-outcome wall op s u in
      let (rest, queue') = apply_all-outcome wall ops (apply pool wall op s) usable' in
      (omega (arith, one, rest), queue' ∙ queue)

  save-unusable :
      (wall : ℕ) (rec : SubscriptionRecord) (s : SubscriptionStore Db)
      → usable pool s ≡ false
      → save_immediately pool wall rec s ≡ (s, ok)
  unfolding save_immediately
  save-unusable wall rec s u = simp (save_immediately, u) refl

  delete-unusable :
      (dialog_id : Text) (s : SubscriptionStore Db)
      → usable pool s ≡ false
      → delete_immediately pool dialog_id s ≡ (s, ok)
  unfolding delete_immediately
  delete-unusable dialog_id s u = simp (delete_immediately, u) refl

  -- Without a connection an operation does nothing, and nothing tells of it.
  apply-unusable :
      (wall : ℕ) (op : PendingOp) (s : SubscriptionStore Db)
      → usable pool s ≡ false
      → apply pool wall op s ≡ s
  unfolding apply
  apply-unusable wall (upsert rec) s u = ap (λ (t, _). t) (save-unusable wall rec s u)
  apply-unusable wall (delete dialog_id) s u = ap (λ (t, _). t) (delete-unusable dialog_id s u)

  apply_all-unusable :
      (wall : ℕ) (ops : List PendingOp) (s : SubscriptionStore Db)
      → usable pool s ≡ false
      → apply_all pool wall ops s ≡ s
  unfolding apply_all
  apply_all-unusable wall [] s u = refl
  apply_all-unusable wall (op ∷ ops) s u =
      ap (apply_all pool wall ops) (apply-unusable wall op s u) ∙ apply_all-unusable wall ops s u

  -- The store as a flush finds it once it has taken the queue.
  abbrev pub taken : SubscriptionStore Db → SubscriptionStore Db
  taken s = record s { pending_ops = []; stats = record s.stats { queue_depth = 0 } }

  pub flush-empty :
      (wall : ℕ) (s : SubscriptionStore Db)
      → is_empty s.pending_ops ≡ true
      → flush_pending pool wall s ≡ taken s
  unfolding flush_pending
  flush-empty wall s e = simp (flush_pending, e) refl

  abbrev pub one_batch : SubscriptionStore Db → SubscriptionStore Db
  one_batch s = record s { stats = record s.stats { batch_writes = s.stats.batch_writes + 1 } }

  pub flush-some :
      (wall : ℕ) (s : SubscriptionStore Db)
      → is_empty s.pending_ops ≡ false
      → flush_pending pool wall s ≡ one_batch (apply_all pool wall s.pending_ops (taken s))
  unfolding flush_pending
  flush-some wall s e = simp (flush_pending, e) refl

  pub usable-taken : (s : SubscriptionStore Db) → usable pool (taken s) ≡ usable pool s
  unfolding usable
  usable-taken s = refl

  -- Whatever the database does, a flush leaves the queue empty. With a connection each operation
  -- of the queue is then counted once, as an upsert, a delete or an error, so a failed one is not
  -- tried again; without a connection none is counted.
  pub flush_pending-outcomes :
      (wall : ℕ) (s : SubscriptionStore Db)
      → let s' = flush_pending pool wall s in
        (s'.pending_ops ≡ [])
        × (outcomes s'.stats
            ≡ outcomes s.stats + (if usable pool s then length s.pending_ops else 0))
  flush_pending-outcomes wall s = elim (Bool-cases (is_empty s.pending_ops)) [
    | inl bare ↦
        rw (flush-empty wall s bare) (refl, ground (arith, is_empty-length s.pending_ops bare))
    | inr filled ↦ rw (flush-some wall s filled) (elim (Bool-cases (usable pool s)) [
      | inl u ↦
          let (counted, queue) =
            apply_all-outcome wall s.pending_ops (taken s) (usable-taken s ∙ u) in
          (queue, simp u counted)
      | inr u ↦
          let same = apply_all-unusable wall s.pending_ops (taken s) (usable-taken s ∙ u) in
          rw same (refl, simp u (omega arith))
    ])
  ]
