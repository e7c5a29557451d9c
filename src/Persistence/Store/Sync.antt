-- ===== src/Persistence/Store/Sync.antt =====
-- The queue of SubscriptionStore and its thread (src/persistence/subscription_store.cpp). A method
-- that holds the lock is one step. The thread's wait may end at any time, by its timeout.
use sip_event_processor.Prelude.{
  ℕ, ◌+◌, true, false, not, ◌&&◌, none, some, List, [], ◌∷◌, ◌++◌, Text, length, is_empty,
  if◌then◌else◌,
}
use sip_event_processor.Types.{Result, ok, error}
use sip_event_processor.Subscription.Record.{SubscriptionRecord}
use sip_event_processor.Persistence.Pool.{MongoPool}
use sip_event_processor.Persistence.Store.{
  PendingOp, upsert, delete, SubscriptionStore, save_immediately, delete_immediately,
}

module _ {Db : Type 0} (pool : MongoPool Db) where
  -- What is started is the thread.
  unfoldable pub start : SubscriptionStore Db → SubscriptionStore Db × Result
  start s =
      if not s.enabled
      then (s, ok)
      else if not (elim s.mongo [ none ↦ false | some m ↦ m.connected ])
      then (s, error)
      else (record s { stop_requested = false; running = true }, ok)

  unfoldable pub queue_upsert : SubscriptionRecord → SubscriptionStore Db → SubscriptionStore Db
  queue_upsert rec s = if not s.enabled then s else record s {
    pending_ops = s.pending_ops ++ upsert rec ∷ [];
    stats = record s.stats { queue_depth = length (s.pending_ops ++ upsert rec ∷ []) };
  }

  -- The depth that the statistics show is not brought up to date here.
  unfoldable pub queue_delete : Text → SubscriptionStore Db → SubscriptionStore Db
  queue_delete dialog_id s =
      if not s.enabled then s else record s { pending_ops = s.pending_ops ++ delete dialog_id ∷ [] }

  -- One operation of a batch; its result is not looked at.
  unfoldable pub apply : ℕ → PendingOp → SubscriptionStore Db → SubscriptionStore Db
  apply wall (upsert rec) s = (save_immediately pool wall rec s).0
  apply wall (delete dialog_id) s = (delete_immediately pool dialog_id s).0

  unfoldable pub apply_all : ℕ → List PendingOp → SubscriptionStore Db → SubscriptionStore Db
  apply_all wall [] s = s
  apply_all wall (op ∷ ops) s = apply_all wall ops (apply wall op s)

  unfoldable pub flush_pending : ℕ → SubscriptionStore Db → SubscriptionStore Db
  flush_pending wall s =
      let s1 = record s { pending_ops = []; stats = record s.stats { queue_depth = 0 } } in
      if is_empty s.pending_ops
      then s1
      else let s2 = apply_all wall s.pending_ops s1 in
        record s2 { stats = record s2.stats { batch_writes = s2.stats.batch_writes + 1 } }

  -- A round of the thread behind its wait: it leaves the loop, or writes what is pending.
  unfoldable pub sync_round : ℕ → SubscriptionStore Db → SubscriptionStore Db
  sync_round wall s = if s.stop_requested && is_empty s.pending_ops then s else flush_pending wall s

  -- `stop` up to the join, and behind it.
  unfoldable pub request_stop : SubscriptionStore Db → SubscriptionStore Db
  request_stop s = if not s.running then s else record s { stop_requested = true }

  unfoldable pub finish_stop : ℕ → SubscriptionStore Db → SubscriptionStore Db
  finish_stop wall s = record (flush_pending wall s) { running = false }
