-- ===== src/Dispatch/Reaper.antt =====
-- StaleSubscriptionReaper of include/dispatch/stale_subscription_reaper.h and
-- src/dispatch/stale_subscription_reaper.cpp. The clock is read once for a worker, and the scan's
-- duration is not modelled. The thread's loop is a step for each of its rounds.
pub mod Reaped
use sip_event_processor.Prelude.{ℕ, ◌+◌, Bool, true, false, not, List, [], ◌∷◌, ◌++◌, if◌then◌else◌}
use sip_event_processor.Types.{Result, ok, already_exists}
use sip_event_processor.Config.{Config}
use sip_event_processor.Dispatch.World.{StoreCall, queue_delete}
use sip_event_processor.Dispatch.Worker.State.{Worker}
use sip_event_processor.Dispatch.Worker.Intake.{force_terminate}
use sip_event_processor.Dispatch.Worker.Admin.{StaleInfo, get_stale_subscriptions}

pub record ReaperStats : Type 0 where
  pub scan_count : ℕ
  pub expired_reaped : ℕ
  pub stuck_reaped : ℕ
  pub last_scan_stale_count : ℕ

-- The calls of the store are recorded, the latest last.
pub record Scan : Type 0 where
  pub stats : ReaperStats
  pub store_calls : List StoreCall
  pub total : ℕ

unfoldable pub count_one : Bool → StaleInfo → Scan → Scan
count_one has_store info s = record s {
  stats =
      if info.is_stuck_now
      then record s.stats { stuck_reaped = s.stats.stuck_reaped + 1 }
      else record s.stats { expired_reaped = s.stats.expired_reaped + 1 };
  store_calls =
      if has_store then s.store_calls ++ queue_delete info.dialog_id ∷ [] else s.store_calls;
  total = s.total + 1;
}

-- The inner loop, over what one worker reports.
unfoldable pub reap : Bool → List StaleInfo → Worker → Scan → Worker × Scan
reap has_store [] w s = (w, s)
reap has_store (info ∷ rest) w s =
    reap has_store rest (force_terminate info.dialog_id w).0 (count_one has_store info s)

-- The outer loop, over the workers.
unfoldable pub scan_workers : ℕ → Config → Bool → List Worker → Scan → List Worker × Scan
scan_workers now c has_store [] s = ([], s)
scan_workers now c has_store (w ∷ ws) s =
    let stale =
      get_stale_subscriptions now c.blf_subscription_ttl c.mwi_subscription_ttl
        c.stuck_processing_timeout w in
    let (w', s') = reap has_store stale w s in
    let (ws', s'') = scan_workers now c has_store ws s' in (w' ∷ ws', s'')

unfoldable pub scan_and_reap : ℕ → Config → Bool → List Worker → Scan → List Worker × Scan
scan_and_reap now c has_store ws s =
    let (ws', s') =
      scan_workers now c has_store ws
        (record s { stats = record s.stats { scan_count = s.stats.scan_count + 1 }; total = 0 }) in
    (ws', record s' { stats = record s'.stats { last_scan_stale_count = s'.total } })

-- The flags, and the counts with the calls made of the store.
pub record StaleSubscriptionReaper : Type 0 where
  pub running : Bool
  pub stop_requested : Bool
  pub scan : Scan

unfoldable pub start : StaleSubscriptionReaper → StaleSubscriptionReaper × Result
start r =
    if r.running
    then (r, already_exists)
    else (record r { stop_requested = false; running = true }, ok)

-- `stop` up to the join, and behind it.
unfoldable pub request_stop : StaleSubscriptionReaper → StaleSubscriptionReaper
request_stop r = if not r.running then r else record r { stop_requested = true }

unfoldable pub finish_stop : StaleSubscriptionReaper → StaleSubscriptionReaper
finish_stop r = record r { running = false }

-- A round behind its wait, which ends by the interval or by a stop; a stop ends the loop.
unfoldable pub run_round :
    ℕ
    → Config
    → Bool
    → List Worker
    → StaleSubscriptionReaper
    → List Worker × StaleSubscriptionReaper
run_round now c has_store ws r =
    if r.stop_requested
    then (ws, r)
    else let (ws', s) = scan_and_reap now c has_store ws r.scan in (ws', record r { scan = s })
