-- ===== src/Main.antt =====
-- main of src/main.cpp, without the loading of the configuration, the logging, the signals, the
-- routes and the loop that waits for a signal. A thread's rounds are steps of its component; they
-- come between those that stand here, and what the workers do during the end is an argument.
pub mod Recovery
pub mod Serving
pub mod StackStop
pub mod Shutdown
pub mod Startup
use sip_event_processor.Prelude.{
  ℕ, Bool, true, false, not, Option, none, some, List, [], ◌∷◌, Text, map, modify, ℤ, if◌then◌else◌,
}
use sip_event_processor.Types.{Result, ok}
use sip_event_processor.Subscription.Record.{SubscriptionRecord}
use sip_event_processor.Sip.Stack.{SipStackManager, perform, tear_down}
use sip_event_processor.Dispatch.World.{SipCall}
use sip_event_processor.Dispatch.Worker.State.{Worker}
use sip_event_processor.Sip.Stack
use sip_event_processor.Dispatch.Worker.Admin.{load_recovered_subscription}
use sip_event_processor.Dispatch.Dispatcher.{DialogDispatcher, worker_index_for}
use sip_event_processor.Dispatch.Dispatcher
use sip_event_processor.Dispatch.Reaper.{StaleSubscriptionReaper}
use sip_event_processor.Dispatch.Reaper
use sip_event_processor.Presence.Router.{PresenceEventRouter}
use sip_event_processor.Presence.Router
use sip_event_processor.Presence.TcpClient.{PresenceTcpClient}
use sip_event_processor.Presence.TcpClient
use sip_event_processor.Persistence.Pool.{MongoPool}
use sip_event_processor.Persistence.Client.{MongoClient, connect, disconnect}
use sip_event_processor.Persistence.Store.{
  PendingOp, upsert, delete, SubscriptionStore, StoredSubscription, load_active_subscriptions,
}
use sip_event_processor.Persistence.Store.Sync
use sip_event_processor.Http.Listener.{Listener, Outcome}
use sip_event_processor.Http.Listener

-- The components; the client of the database is the store's. `callback_set` is that the callback
-- handler has the dispatcher.
pub record Program (Db : Type 0) : Type 0 where
  pub store : SubscriptionStore Db
  pub stack : SipStackManager
  pub dispatcher : DialogDispatcher
  pub callback_set : Bool
  pub router : PresenceEventRouter
  pub client : PresenceTcpClient
  pub reaper : StaleSubscriptionReaper
  pub http : Listener

-- What the libraries and the system give while the program starts.
pub record Surroundings : Type 0 where
  pub pool_init : Text → ℤ → Bool
  pub ping : Bool
  pub root_made : Bool
  pub nua_made : Bool
  pub http_outcome : Outcome
  pub now : ℕ

-- The loop over the recovered subscriptions.
unfoldable pub recover : (Text → ℕ) → List SubscriptionRecord → DialogDispatcher → DialogDispatcher
recover hash [] d = d
recover hash (rec ∷ recs) d = recover hash recs (record d {
  workers =
      modify (λ w. (load_recovered_subscription rec w).0) d.workers
        (worker_index_for hash d rec.dialog_id);
})

abbrev recovered : List StoredSubscription → List SubscriptionRecord
recovered = map (λ stored. stored.rec)

module _ {Db : Type 0} (pool : MongoPool Db) (hash : Text → ℕ) where
  -- `mongo->connect()` and `sub_store->start()`; what the latter gives is not looked at.
  unfoldable pub start_persistence :
      Surroundings → SubscriptionStore Db → SubscriptionStore Db × Result
  start_persistence e s = elim s.mongo [
    | none ↦ (s, ok)
    | some m ↦
        let (m', r) = connect e.pool_init e.ping m in
        let s' = record s { mongo = some m' } in
        elim r [ ok ↦ ((Sync.start pool s').0, ok) | other ↦ (s', other) ]
  ]

  unfoldable pub run_recovery : ℕ → Program Db → Program Db
  unfolding recover
  run_recovery now p =
      if not p.store.enabled
      then p
      else let ((out, store), r) = load_active_subscriptions pool now p.store in
        let p' = record p { store = store } in
        elim r [
          | ok ↦ record p' { dispatcher = recover hash (recovered out) p.dispatcher }
          | other ↦ p'
        ]

  -- The components behind the SIP stack; none of their results is looked at.
  unfoldable pub start_rest : Surroundings → Program Db → Program Db
  start_rest e p = record p {
    router = (Router.start p.router).0;
    client = (TcpClient.start p.client).0;
    reaper = (Reaper.start p.reaper).0;
    http = (Listener.start e.http_outcome p.http).0;
  }

  -- From the SIP stack on; `false` is the exit with status 1, here and below.
  unfoldable pub start_stack : Surroundings → Program Db → Program Db × Bool
  unfolding start_rest
  start_stack e p =
      let (s, up) = Stack.start e.root_made e.nua_made p.stack in
      let p' = record p { stack = s } in
      elim up [ ok ↦ (start_rest e p', true) | other ↦ (p', false) ]

  unfoldable pub start_dispatcher : Surroundings → Program Db → Program Db × Bool
  start_dispatcher e p =
      let (d, started) = Dispatcher.start p.dispatcher in
      let p' = record p { dispatcher = d } in
      elim started [ ok ↦ start_stack e p' | other ↦ (p', false) ]

  -- Up to the main loop. The constructors have run.
  unfoldable pub startup : Surroundings → Program Db → Program Db × Bool
  unfolding start_persistence
  startup e p =
      let (store, connected) = start_persistence e p.store in
      let p' = record p { store = store } in
      elim connected [
        | ok ↦ start_dispatcher e (run_recovery e.now (record p' { callback_set = true }))
        | other ↦ (p', false)
      ]

-- `stop` of a component whose thread does not run returns at once.
abbrev pub stop_reaper : StaleSubscriptionReaper → StaleSubscriptionReaper
stop_reaper r = if not r.running then r else Reaper.finish_stop (Reaper.request_stop r)

abbrev pub stop_client : PresenceTcpClient → PresenceTcpClient
stop_client c = if not c.running then c else TcpClient.finish_stop (TcpClient.request_stop c)

abbrev pub stop_router : PresenceEventRouter → PresenceEventRouter
stop_router r = if not r.running then r else Router.finish_stop (Router.request_stop r)

-- What the workers do while the main thread stops the other components: what they ask of the SIP
-- stack before its thread is joined, until its flag is cleared (within the second part of its stop,
-- taken to fall behind the last call of Sofia), and from there to their own stop; what their rounds
-- make of them; and what they queue for the database.
pub record Meanwhile : Type 0 where
  pub joining : List SipCall
  pub torn_down : List SipCall
  pub afterwards : List SipCall
  pub work : List Worker → List Worker
  pub queued : List PendingOp

unfoldable pub perform_all : List SipCall → SipStackManager → SipStackManager
perform_all [] s = s
perform_all (c ∷ cs) s = perform_all cs (perform c s)

-- `stop` of the SIP stack, with what the workers ask for.
unfoldable pub stop_stack : Meanwhile → SipStackManager → SipStackManager
unfolding perform_all
stop_stack m s =
    let s1 = perform_all m.joining (Stack.request_stop s) in
    let s2 : SipStackManager =
      if not s1.running
      then s1
      else record (perform_all m.torn_down (tear_down s1)) { running = false } in
    perform_all m.afterwards s2

abbrev pub worked : Meanwhile → DialogDispatcher → DialogDispatcher
worked m d = if d.started then record d { workers = m.work d.workers } else d

module _ {Db : Type 0} (pool : MongoPool Db) where
  abbrev pub stop_store : ℕ → SubscriptionStore Db → SubscriptionStore Db
  stop_store wall s =
      if not s.running then s else Sync.finish_stop pool wall (Sync.request_stop pool s)

  abbrev pub disconnect_store : SubscriptionStore Db → SubscriptionStore Db
  disconnect_store s = record s {
    mongo = elim s.mongo [ none ↦ none | some m ↦ some (disconnect m) ];
  }

  unfoldable pub queue_all : List PendingOp → SubscriptionStore Db → SubscriptionStore Db
  queue_all [] s = s
  queue_all (upsert rec ∷ ops) s = queue_all ops (Sync.queue_upsert pool rec s)
  queue_all (delete did ∷ ops) s = queue_all ops (Sync.queue_delete pool did s)

  -- Behind the main loop.
  unfoldable pub shutdown : ℕ → Meanwhile → Program Db → Program Db
  unfolding queue_all
  shutdown wall m p = record {
    http = Listener.finish_stop (Listener.request_stop p.http);
    reaper = stop_reaper p.reaper;
    client = stop_client p.client;
    router = stop_router p.router;
    stack = stop_stack m p.stack;
    callback_set = false;
    dispatcher = Dispatcher.stop (worked m p.dispatcher);
    store = disconnect_store (stop_store wall (queue_all m.queued p.store));
  }
