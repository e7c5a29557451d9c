-- ===== src/Dispatch/Reaper/Reaped.antt =====
-- What a scan reports, asks for and counts.
use sip_event_processor.Prelude.{
  ℕ, ◌+◌, ◌≡◌, refl, ◌∙◌, ap, Bool, true, List, [], ◌∷◌, ◌++◌, Text, map, length, length-append,
  append_assoc, append-nil, arith,
}
use sip_event_processor.Config.{Config}
use sip_event_processor.Dispatch.World.{queue_delete}
use sip_event_processor.Dispatch.Worker.State.{Worker}
use sip_event_processor.Dispatch.Worker.Intake.{force_terminate}
use sip_event_processor.Dispatch.Worker.Admin.{StaleInfo, get_stale_subscriptions}
use sip_event_processor.Dispatch.Reaper.{Scan, count_one, reap, scan_workers, scan_and_reap}

abbrev pub ids : List StaleInfo → List Text
ids = map (λ info. info.dialog_id)

-- The stale subscriptions that a worker reports under the configured limits.
abbrev pub stale_at : ℕ → Config → Worker → List StaleInfo
stale_at now c w =
    get_stale_subscriptions now c.blf_subscription_ttl c.mwi_subscription_ttl
      c.stuck_processing_timeout w

-- Those of all workers, in the order of the workers.
pub all_stale : ℕ → Config → List Worker → List StaleInfo
all_stale now c [] = []
all_stale now c (w ∷ ws) = stale_at now c w ++ all_stale now c ws

abbrev pub reaped : Scan → ℕ
reaped s = s.stats.expired_reaped + s.stats.stuck_reaped

-- A worker after the scan: it is asked to terminate what it reported.
abbrev pub asked : ℕ → Config → Worker → Worker
asked now c w = record w { pending_terminates = w.pending_terminates ++ ids (stale_at now c w) }

reap-worker :
    (b : Bool) (infos : List StaleInfo) (w : Worker) (s : Scan)
    → (reap b infos w s).0 ≡ record w { pending_terminates = w.pending_terminates ++ ids infos }
unfolding reap force_terminate
reap-worker b [] w s = ground (arith, append-nil w.pending_terminates)
reap-worker b (info ∷ infos) w s =
    reap-worker b infos (force_terminate info.dialog_id w).0 (count_one b info s)
    ∙ ground (arith, append_assoc w.pending_terminates (info.dialog_id ∷ []) (ids infos))

-- The counts and the store's calls after some reports.
record Counted (b : Bool) (s : Scan) (infos : List StaleInfo) (s' : Scan) : Type 0 where
  total_grows : s'.total ≡ s.total + length infos
  reaped_grows : reaped s' ≡ reaped s + length infos
  scans_stay : s'.stats.scan_count ≡ s.stats.scan_count
  deletes : b ≡ true → s'.store_calls ≡ s.store_calls ++ map queue_delete (ids infos)

reap-Counted :
    (b : Bool) (infos : List StaleInfo) (w : Worker) (s : Scan)
    → Counted b s infos (reap b infos w s).1
unfolding reap count_one
reap-Counted b [] w s = record {
  total_grows = omega arith;
  reaped_grows = omega arith;
  scans_stay = refl;
  deletes = λ e. ground (arith, append-nil s.store_calls);
}
reap-Counted b (info ∷ infos) w s =
    let h = reap-Counted b infos (force_terminate info.dialog_id w).0 (count_one b info s) in
    record {
      total_grows = ground (arith, h.total_grows);
      reaped_grows = ground (arith, h.reaped_grows);
      scans_stay = ground (arith, h.scans_stay);
      deletes = λ e. ground (
        arith,
        h.deletes e,
        append_assoc s.store_calls (queue_delete info.dialog_id ∷ [])
            (map queue_delete (ids infos)),
      );
    }

scan-workers :
    (now : ℕ) (c : Config) (b : Bool) (ws : List Worker) (s : Scan)
    → (scan_workers now c b ws s).0 ≡ map (asked now c) ws
unfolding scan_workers
scan-workers now c b [] s = refl
scan-workers now c b (w ∷ ws) s =
    rw
      (
        reap-worker b (stale_at now c w) w s,
        scan-workers now c b ws (reap b (stale_at now c w) w s).1,
      )
      refl

length-append_ids :
    (xs ys : List StaleInfo)
    → map queue_delete (ids (xs ++ ys)) ≡ map queue_delete (ids xs) ++ map queue_delete (ids ys)
length-append_ids [] ys = refl
length-append_ids (x ∷ xs) ys = ap (λ r. queue_delete x.dialog_id ∷ r) (length-append_ids xs ys)

scan-Counted :
    (now : ℕ) (c : Config) (b : Bool) (ws : List Worker) (s : Scan)
    → Counted b s (all_stale now c ws) (scan_workers now c b ws s).1
unfolding scan_workers all_stale
scan-Counted now c b [] s = record {
  total_grows = omega arith;
  reaped_grows = omega arith;
  scans_stay = refl;
  deletes = λ e. ground (arith, append-nil s.store_calls);
}
scan-Counted now c b (w ∷ ws) s =
    let first = reap-Counted b (stale_at now c w) w s in
    let s' = (reap b (stale_at now c w) w s).1 in
    let rest = scan-Counted now c b ws s' in
    let both = length-append (stale_at now c w) (all_stale now c ws) in
    record {
      total_grows = omega (arith, first.total_grows, rest.total_grows, both);
      reaped_grows = omega (arith, first.reaped_grows, rest.reaped_grows, both);
      scans_stay = rest.scans_stay ∙ first.scans_stay;
      deletes = λ e. ground (
        arith,
        first.deletes e,
        rest.deletes e,
        length-append_ids (stale_at now c w) (all_stale now c ws),
        append_assoc s.store_calls (map queue_delete (ids (stale_at now c w)))
            (map queue_delete (ids (all_stale now c ws))),
      );
    }

-- A scan asks each worker to terminate the dialogs that it reports as stale, in that order, and
-- changes nothing else of the workers; the expired and stuck counts together grow by the number of
-- all reports, which is also the count of the last scan; the count of scans grows by one; and if
-- there is a store, the deletion of the reported dialogs is queued, once for each report.
pub scan_and_reap-exact :
    (now : ℕ) (c : Config) (b : Bool) (ws : List Worker) (s : Scan)
    → let stale = all_stale now c ws in
      let r = scan_and_reap now c b ws s in
      (r.0 ≡ map (asked now c) ws)
      × (reaped r.1 ≡ reaped s + length stale)
      × (r.1.stats.last_scan_stale_count ≡ length stale)
      × (r.1.stats.scan_count ≡ s.stats.scan_count + 1)
      × (b ≡ true → r.1.store_calls ≡ s.store_calls ++ map queue_delete (ids stale))
unfolding scan_and_reap
scan_and_reap-exact now c b ws s =
    let begun : Scan = record s {
      stats = record s.stats { scan_count = s.stats.scan_count + 1 };
      total = 0;
    } in
    let h = scan-Counted now c b ws begun in
    (
      scan-workers now c b ws begun,
      h.reaped_grows,
      h.total_grows ∙ omega arith,
      h.scans_stay,
      h.deletes,
    )
