-- ===== src/Dispatch/Dispatcher/Totals.antt =====
-- The aggregate statistics against the workers' own.
use sip_event_processor.Prelude.{
  ℕ, ◌+◌, ◌≡◌, ◌≤◌, ◌∙◌, List, [], ◌∷◌, get_elem?, some, zero, suc, arith,
}
use sip_event_processor.Dispatch.Worker.State.{WorkerStats, Worker}
use sip_event_processor.Dispatch.Dispatcher.{
  DialogDispatcher, AggregateStats, add_worker, sum_stats, aggregate_stats,
}

-- The sum of a counter over the workers.
unfoldable pub total_of : (WorkerStats → ℕ) → List Worker → ℕ
total_of f [] = 0
total_of f (w ∷ ws) = f w.shared.stats + total_of f ws

-- The counters of `a` and those of the workers, added up.
record Summed (a : AggregateStats) (ws : List Worker) (r : AggregateStats) : Type 0 where
  received :
      r.total_events_received ≡ a.total_events_received + total_of (λ s. s.events_received) ws
  processed :
      r.total_events_processed ≡ a.total_events_processed + total_of (λ s. s.events_processed) ws
  dropped : r.total_events_dropped ≡ a.total_events_dropped + total_of (λ s. s.events_dropped) ws
  active : r.total_dialogs_active ≡ a.total_dialogs_active + total_of (λ s. s.dialogs_active) ws
  deepest : a.max_queue_depth ≤ r.max_queue_depth
  all_below :
      (i : ℕ) (w : Worker)
      → get_elem? ws i ≡ some w
      → w.shared.stats.queue_depth ≤ r.max_queue_depth

-- A bound for the first worker and for the others is one for all.
at_or_below :
    (w : Worker) (ws : List Worker) (i : ℕ) (v : Worker) (bound : ℕ)
    → get_elem? (w ∷ ws) i ≡ some v
    → w.shared.stats.queue_depth ≤ bound
    → ((j : ℕ) (u : Worker) → get_elem? ws j ≡ some u → u.shared.stats.queue_depth ≤ bound)
    → v.shared.stats.queue_depth ≤ bound
at_or_below w ws zero v bound e b h = ground (arith, e, b)
at_or_below w ws (suc i) v bound e b h = h i v e

sum_stats-Summed : (a : AggregateStats) (ws : List Worker) → Summed a ws (sum_stats a ws)
unfolding sum_stats add_worker total_of
sum_stats-Summed a [] = record {
  received = omega arith;
  processed = omega arith;
  dropped = omega arith;
  active = omega arith;
  deepest = omega arith;
  all_below = λ i w e. cc;
}
sum_stats-Summed a (w ∷ ws) =
    let h = sum_stats-Summed (add_worker a w.shared.stats) ws in
    record {
      received = omega (arith, h.received);
      processed = omega (arith, h.processed);
      dropped = omega (arith, h.dropped);
      active = omega (arith, h.active);
      deepest = ground (arith, h.deepest);
      all_below = λ i v e. at_or_below w ws i v _ e (ground (arith, h.deepest)) h.all_below;
    }

-- The aggregate's counts of received, processed and dropped events and of active dialogs are the
-- sums of the workers' counts, and no worker's queue depth is over the aggregate's maximum.
pub aggregate_stats-totals :
    (d : DialogDispatcher) (i : ℕ) (w : Worker)
    → get_elem? d.workers i ≡ some w
    → let a = aggregate_stats d in
      (a.total_events_received ≡ total_of (λ s. s.events_received) d.workers)
      × (a.total_events_processed ≡ total_of (λ s. s.events_processed) d.workers)
      × (a.total_events_dropped ≡ total_of (λ s. s.events_dropped) d.workers)
      × (a.total_dialogs_active ≡ total_of (λ s. s.dialogs_active) d.workers)
      × (w.shared.stats.queue_depth ≤ a.max_queue_depth)
unfolding aggregate_stats
aggregate_stats-totals d i w e =
    let h = sum_stats-Summed _ d.workers in
    (
      h.received ∙ omega arith,
      h.processed ∙ omega arith,
      h.dropped ∙ omega arith,
      h.active ∙ omega arith,
      h.all_below i w e,
    )
