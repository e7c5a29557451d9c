-- ===== src/Main/Shutdown.antt =====
-- The end of the program.
use sip_event_processor.Prelude.{
  ℕ, ◌≡◌, refl, true, not, ◌||◌, Bool, false, inl, inr, List, [], ◌∷◌, map, Bool-cases,
  if◌then◌else◌, arith,
}
use sip_event_processor.Sip.Stack.Order.{InOrder}
use sip_event_processor.Dispatch.Worker.State.{Worker}
use sip_event_processor.Dispatch.Worker.Admin.{finish_stop}
use sip_event_processor.Dispatch.Dispatcher.{DialogDispatcher, stop_worker}
use sip_event_processor.Dispatch.Dispatcher
use sip_event_processor.Persistence.Pool.{MongoPool}
use sip_event_processor.Persistence.Store.{SubscriptionStore, PendingOp, upsert, delete}
use sip_event_processor.Persistence.Store.Outcomes.{flush_pending-outcomes}
use sip_event_processor.Persistence.Store.Sync
use sip_event_processor.Presence.TcpClient
use sip_event_processor.Presence.Router
use sip_event_processor.Dispatch.Reaper
use sip_event_processor.Http.Listener.{Listener, request_stop}
use sip_event_processor.Http.Listener
use sip_event_processor.Http.Listener.Sockets.{Balanced}
use sip_event_processor.Presence.Router.{PresenceEventRouter}
use sip_event_processor.Presence.TcpClient.{PresenceTcpClient}
use sip_event_processor.Dispatch.Reaper.{StaleSubscriptionReaper}
use sip_event_processor.Main.{
  Meanwhile, worked, queue_all, Program, shutdown, stop_store, stop_router, stop_client,
  stop_reaper,
}
use sip_event_processor.Main.StackStop.{stack-Gone}

abbrev pub AllStopped : List Worker → Type 0
AllStopped [] = Unit
AllStopped (w ∷ ws) = (w.running ≡ false) × AllStopped ws

-- No object of Sofia is left, every socket of the HTTP server is closed, nothing is left to be
-- written to the database, and no thread runs.
pub record Quiet {Db : Type 0} (p : Program Db) : Type 0 where
  pub root_destroyed : p.stack.root ≡ false
  pub nua_destroyed : p.stack.nua ≡ false
  pub sockets_closed : p.http.opened ≡ p.http.closed
  pub nothing_pending : p.store.pending_ops ≡ []
  pub workers_stopped : AllStopped p.dispatcher.workers
  pub callback_clear : p.callback_set ≡ false
  pub stack_stopped : p.stack.running ≡ false
  pub http_stopped : p.http.running ≡ false
  pub store_stopped : p.store.running ≡ false
  pub router_stopped : p.router.running ≡ false
  pub client_stopped : p.client.running ≡ false
  pub reaper_stopped : p.reaper.running ≡ false

-- What the invariants of the components give of a program, before it is stopped.
pub record Sane {Db : Type 0} (p : Program Db) : Type 0 where
  pub in_order : InOrder p.stack
  pub balanced : Balanced p.http
  pub queued_runs : p.store.running ≡ false → p.store.pending_ops ≡ []
  pub started_workers : p.dispatcher.started ≡ false → AllStopped p.dispatcher.workers

stopped-worker : (w : Worker) → (stop_worker w).running ≡ false
unfolding stop_worker finish_stop
stopped-worker w = ground arith

stopped-workers : (ws : List Worker) → AllStopped (map stop_worker ws)
stopped-workers [] = tt
stopped-workers (w ∷ ws) = (stopped-worker w, stopped-workers ws)

stop-AllStopped :
    (d : DialogDispatcher)
    → (d.started ≡ false → AllStopped d.workers)
    → AllStopped (Dispatcher.stop d).workers
unfolding Dispatcher.stop
stop-AllStopped d h = elim (Bool-cases d.started) [
  | inl yes' ↦ rw yes' (stopped-workers d.workers)
  | inr not_yet ↦ rw not_yet (h not_yet)
]

chosen-AllStopped :
    (b : Bool) (c d : DialogDispatcher)
    → (b ≡ true → c.started ≡ true)
    → (b ≡ false → AllStopped d.workers)
    → (if b then c else d).started ≡ false
    → AllStopped (if b then c else d).workers
chosen-AllStopped true c d on off e = cc (on refl, e)
chosen-AllStopped false c d on off e = off refl

worked-AllStopped :
    (m : Meanwhile) (d : DialogDispatcher)
    → (d.started ≡ false → AllStopped d.workers)
    → AllStopped (Dispatcher.stop (worked m d)).workers
worked-AllStopped m d h =
    stop-AllStopped (worked m d)
      (chosen-AllStopped d.started (record d { workers = m.work d.workers }) d (λ on. on) h)

http-closed :
    (l : Listener)
    → Balanced l
    → let m = Listener.finish_stop (Listener.request_stop l) in
      (m.opened ≡ m.closed) × (m.running ≡ false)
unfolding Listener.finish_stop Listener.request_stop
http-closed l b = ground arith

router-idle : (r : PresenceEventRouter) → (stop_router r).running ≡ false
unfolding Router.finish_stop
router-idle r = ground arith

client-idle : (c : PresenceTcpClient) → (stop_client c).running ≡ false
unfolding TcpClient.finish_stop
client-idle c = ground arith

reaper-idle : (r : StaleSubscriptionReaper) → (stop_reaper r).running ≡ false
unfolding Reaper.finish_stop
reaper-idle r = ground arith

module _ {Db : Type 0} (pool : MongoPool Db) (wall : ℕ) where
  store-empty :
      (s : SubscriptionStore Db)
      → (s.running ≡ false → s.pending_ops ≡ [])
      → ((stop_store pool wall s).pending_ops ≡ []) × ((stop_store pool wall s).running ≡ false)
  unfolding Sync.finish_stop
  store-empty s h =
      let flushed = (flush_pending-outcomes pool wall (Sync.request_stop pool s)).0 in
      ground (arith, flushed, h)

  queue_all-running :
      (ops : List PendingOp) (s : SubscriptionStore Db) → (queue_all pool ops s).running ≡ s.running
  unfolding queue_all Sync.queue_upsert Sync.queue_delete
  queue_all-running [] s = refl
  queue_all-running (upsert rec ∷ ops) s =
      ground (arith, queue_all-running ops (Sync.queue_upsert pool rec s))
  queue_all-running (delete did ∷ ops) s =
      ground (arith, queue_all-running ops (Sync.queue_delete pool did s))

  queue_all-off :
      (ops : List PendingOp) (s : SubscriptionStore Db)
      → s.enabled ≡ false
      → (queue_all pool ops s).pending_ops ≡ s.pending_ops
  unfolding queue_all Sync.queue_upsert Sync.queue_delete
  queue_all-off [] s off = refl
  queue_all-off (upsert rec ∷ ops) s off =
      ground (arith, off, queue_all-off ops (Sync.queue_upsert pool rec s))
  queue_all-off (delete did ∷ ops) s off =
      ground (arith, off, queue_all-off ops (Sync.queue_delete pool did s))

  -- A store whose thread runs if it is enabled has nothing queued without a thread, whatever the
  -- workers queue.
  queue_all-queued :
      (ops : List PendingOp) (s : SubscriptionStore Db)
      → (not s.enabled || s.running) ≡ true
      → (s.running ≡ false → s.pending_ops ≡ [])
      → (queue_all pool ops s).running ≡ false
      → (queue_all pool ops s).pending_ops ≡ []
  queue_all-queued ops s runs h idle =
      ground (arith, runs, h, idle, queue_all-running ops s, queue_all-off ops s)

  -- Whatever state the components' invariants allow, in which the store's thread runs if the store
  -- is enabled, and whatever the workers do, queue and ask for meanwhile: behind the calls at the
  -- end of `main` no object of Sofia is left, every socket of the HTTP server is closed, the
  -- store's queue is empty, the callback handler has no dispatcher, and no worker and none of the
  -- other threads runs.
  pub shutdown-Quiet :
      (m : Meanwhile) (p : Program Db)
      → (not p.store.enabled || p.store.running) ≡ true
      → Sane p
      → Quiet (shutdown pool wall m p)
  unfolding shutdown
  shutdown-Quiet m p runs h =
      let (empty, store_idle) =
        store-empty (queue_all pool m.queued p.store)
          (queue_all-queued m.queued p.store runs h.queued_runs) in
      let (closed, http_idle) = http-closed p.http h.balanced in
      let (stack_idle, no_root, no_nua) = stack-Gone m p.stack h.in_order in
      record {
        root_destroyed = no_root;
        nua_destroyed = no_nua;
        sockets_closed = closed;
        nothing_pending = empty;
        workers_stopped = worked-AllStopped m p.dispatcher h.started_workers;
        callback_clear = refl;
        stack_stopped = stack_idle;
        http_stopped = http_idle;
        store_stopped = store_idle;
        router_stopped = router-idle p.router;
        client_stopped = client-idle p.client;
        reaper_stopped = reaper-idle p.reaper;
      }
