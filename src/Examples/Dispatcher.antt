-- ===== src/Examples/Dispatcher.antt =====
-- The dispatcher and its workers.
use sip_event_processor.Prelude.{
  ℕ, ◌≡◌, refl, none, some, [], ◌∷◌, Text, text_eq, length, get_elem?, modify, ◌+◌, map, true,
}
use sip_event_processor.Prelude.Map.{find, put}
use sip_event_processor.Sip.DialogId.{is_valid}
use sip_event_processor.Dispatch.Worker.State.{Worker}
use sip_event_processor.Dispatch.Worker.Admin.{load_recovered_subscription}
use sip_event_processor.Dispatch.Worker.Admin
use sip_event_processor.Dispatch.Dispatcher.{
  DialogDispatcher, new_dispatcher, new_worker, worker_index_for, workers_from, dispatch, start,
  start_workers,
}
use sip_event_processor.Dispatch.Dispatcher.Ownership.{
  Reach, here, next, starts, dispatches, loads, single_owner,
}
use sip_event_processor.Dispatch.World.{queue_delete}
use sip_event_processor.Dispatch.Reaper.{Scan, scan_and_reap}
use sip_event_processor.Dispatch.Reaper.Reaped.{all_stale, asked, reaped, ids, scan_and_reap-exact}
use sip_event_processor.Examples.Data.{
  first_dialog, second_dialog, active_record, subscribe_event, config, world, worker,
}

-- A hash: the sum of the bytes.
abbrev hash : Text → ℕ
hash [] = 0
hash (c ∷ s) = c + hash s

abbrev started : DialogDispatcher
started = (start (new_dispatcher config world)).0

abbrev recovered : DialogDispatcher
recovered = record started {
  workers =
      modify (λ w. (load_recovered_subscription active_record w).0) started.workers
        (worker_index_for hash started first_dialog);
}

-- The dispatcher is started, a stored subscription is loaded, and an event comes in.
abbrev loaded : DialogDispatcher
loaded = (dispatch hash 12 (some (subscribe_event second_dialog)) recovered).0

loaded-Reach : Reach hash (new_dispatcher config world) loaded
loaded-Reach =
    next (next (next here (starts (new_dispatcher config world))) (loads active_record started))
      (dispatches 12 (some (subscribe_event second_dialog)) recovered)

-- The worker that the stored subscription is loaded by, and what it keeps of it.
abbrev owner : Worker
owner = (load_recovered_subscription active_record (Admin.start (new_worker config world 1)).0).0

owner-at : get_elem? loaded.workers 1 ≡ some owner
unfolding dispatch start new_dispatcher workers_from start_workers worker_index_for Admin.start
    is_valid
owner-at = refl

owner-find :
    find first_dialog owner.dialogs
    ≡ some (record { rec = active_record; event_queue = []; nua_handle = none })
unfolding Admin.start load_recovered_subscription find text_eq put
owner-find = refl

single_owner_example : worker_index_for hash loaded first_dialog ≡ 1
single_owner_example =
    single_owner hash config world 1 owner first_dialog
      (record { rec = active_record; event_queue = []; nua_handle = none }) loaded-Reach owner-at
      owner-find

-- A scan at a time at which the dialogs of the worker are long past their lifetime.
abbrev late : ℕ
late = 10000000000000

abbrev no_scan : Scan
no_scan = record {
  stats = record {
    scan_count = 6;
    expired_reaped = 2;
    stuck_reaped = 1;
    last_scan_stale_count = 0;
  };
  store_calls = [];
  total = 0;
}

scan_and_reap-exact_example :
    let stale = all_stale late config (owner ∷ worker ∷ []) in
    let r = scan_and_reap late config true (owner ∷ worker ∷ []) no_scan in
    (r.0 ≡ map (asked late config) (owner ∷ worker ∷ []))
    × (reaped r.1 ≡ 3 + length stale)
    × (r.1.stats.last_scan_stale_count ≡ length stale)
    × (r.1.stats.scan_count ≡ 7)
    × (true ≡ true → r.1.store_calls ≡ map queue_delete (ids stale))
scan_and_reap-exact_example = scan_and_reap-exact late config true (owner ∷ worker ∷ []) no_scan

-- Two busy workers and one that is not.
abbrev busy : DialogDispatcher
busy = record { config = config; workers = worker ∷ owner ∷ worker ∷ []; started = true }
