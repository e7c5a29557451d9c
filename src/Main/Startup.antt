-- ===== src/Main/Startup.antt =====
-- The start of the program.
use sip_event_processor.Prelude.{
  by_test, ℕ, ◌≡◌, refl, ◌∙◌, Bool, true, false, some, inl, inr, List, [], Text, ◌⊎◌, not, map,
  codes, Bool-cases, Option-cases, arith,
}
use sip_event_processor.Types.{Result, ok, persistence_error}
use sip_event_processor.Sip.Stack.{SipStackManager}
use sip_event_processor.Sip.Stack
use sip_event_processor.Sip.Stack.Protocol.{Reach-InOrder, here, next, starts}
use sip_event_processor.Dispatch.Dispatcher.{DialogDispatcher, start_workers, worker_index_for}
use sip_event_processor.Dispatch.Dispatcher
use sip_event_processor.Persistence.Pool.{MongoPool}
use sip_event_processor.Persistence.Client.{connect}
use sip_event_processor.Persistence.Store.{
  SubscriptionStore, StoredSubscription, load_active_subscriptions, load_by_lifecycle, usable,
  failed,
}
use sip_event_processor.Persistence.Store.Sync
use sip_event_processor.Http.Listener.Sockets.{Balanced, Reach-Balanced}
use sip_event_processor.Http.Listener.Sockets
use sip_event_processor.Main.{
  Program, Surroundings, recover, start_persistence, run_recovery, start_rest, start_stack,
  start_dispatcher, startup,
}
use sip_event_processor.Main.Shutdown.{Sane}
use sip_event_processor.Main.Serving.{
  AllRunning, Fresh, Serving, recover-AllStopped, start-ok, stack-start,
}

abbrev Outcome : {Db : Type 0} → Program Db × Bool → Type 0
Outcome (p, done) = Sane p × ((done ≡ false) ⊎ Serving p)

-- What holds of what both outcomes give, whatever the outcome.
by_outcome :
    {A : Type 0} (P : A → Type 0) (r : Result) (a : A) (b : Result → A)
    → (r ≡ ok → P a)
    → ((other : Result) → P (b other))
    → P (elim r [ ok ↦ a | other ↦ b other ])
by_outcome P ok a b pa pb = pa refl
by_outcome P other a b pa pb = pb other

module _ {Db : Type 0} (pool : MongoPool Db) where
  store_start-pending :
      (s : SubscriptionStore Db) → (Sync.start pool s).0.pending_ops ≡ s.pending_ops
  unfolding Sync.start
  store_start-pending s = ground arith

  read_all-pending :
      (now : ℕ) (lifecycle : Text) (a : List StoredSubscription × SubscriptionStore Db)
      → (load_by_lifecycle pool now lifecycle a).0.1.pending_ops ≡ a.1.pending_ops
  unfolding load_by_lifecycle
  read_all-pending now lifecycle (out, s) =
      elim (Option-cases (pool.find_rows (codes "lifecycle") lifecycle s.db).1) [
        | inl none_read ↦ rw (load_by_lifecycle, none_read) refl
        | inr (rs, some_read) ↦ rw (load_by_lifecycle, some_read) refl
      ]

  load-pending :
      (now : ℕ) (s : SubscriptionStore Db)
      → (load_active_subscriptions pool now s).0.1.pending_ops ≡ s.pending_ops
  unfolding load_active_subscriptions
  load-pending now s = elim (Bool-cases (usable pool s)) [
    | inl can ↦
        let a = (load_by_lifecycle pool now (codes "Active") ([], s)) in
        let b = (load_by_lifecycle pool now (codes "Pending") a.0) in
        let P : (List StoredSubscription × SubscriptionStore Db) × Result → Type 0 =
          λ x. x.0.1.pending_ops ≡ s.pending_ops in
        let kept =
          read_all-pending now (codes "Pending") a.0
          ∙ read_all-pending now (codes "Active") ([], s) in
        let lost : Result → (List StoredSubscription × SubscriptionStore Db) × Result =
          λ other. ((b.0.0, failed pool b.0.1), persistence_error) in
        rw can (
          by_outcome P a.1 _ lost (λ _. by_outcome P b.1 _ lost (λ _. kept) (λ _. kept))
            (λ _. kept))
    | inr cannot ↦ rw cannot refl
  ]

module _ {Db : Type 0} (pool : MongoPool Db) (hash : Text → ℕ) where
  persistence-pending :
      (e : Surroundings) (s : SubscriptionStore Db)
      → (start_persistence pool hash e s).0.pending_ops ≡ s.pending_ops
  unfolding start_persistence
  persistence-pending e s = elim (Option-cases s.mongo) [
    | inl none_there ↦ rw (start_persistence, none_there) refl
    | inr (m, there) ↦
        let s' = record s { mongo = some (connect e.pool_init e.ping m).0 } in
        let P : SubscriptionStore Db × Result → Type 0 = λ x. x.0.pending_ops ≡ s.pending_ops in
        rw (start_persistence, there)
          (by_outcome P (connect e.pool_init e.ping m).1 _ (λ other. (s', other))
            (λ _. store_start-pending pool s') (λ _. refl))
  ]

  recovery-Fresh : (now : ℕ) (p : Program Db) → Fresh p → Fresh (run_recovery pool hash now p)
  unfolding run_recovery
  recovery-Fresh now p h =
      let l = load_active_subscriptions pool now p.store in
      let p' = record p { store = l.0.1 } in
      let recs = map (λ stored. stored.rec) l.0.0 in
      let idle = recover-AllStopped hash recs p.dispatcher h.workers_idle in
      let loaded : Fresh p' = record {
        in_order = h.in_order;
        balanced = h.balanced;
        nothing_queued = load-pending pool now p.store ∙ h.nothing_queued;
        workers_idle = h.workers_idle;
        not_started = h.not_started;
      } in
      let restored : Fresh (record p' { dispatcher = recover hash recs p.dispatcher }) = record {
        in_order = h.in_order;
        balanced = h.balanced;
        nothing_queued = loaded.nothing_queued;
        workers_idle = idle.0;
        not_started = idle.1 ∙ h.not_started;
      } in
      by_test Fresh (not p.store.enabled) p _ h
        (by_outcome Fresh l.1 _ (λ _. p') (λ _. restored) (λ _. loaded))

  recovery-callback :
      (now : ℕ) (p : Program Db) → (run_recovery pool hash now p).callback_set ≡ p.callback_set
  unfolding run_recovery
  recovery-callback now p =
      let l = load_active_subscriptions pool now p.store in
      let p' = record p { store = l.0.1 } in
      let P : Program Db → Type 0 = λ q. q.callback_set ≡ p.callback_set in
      by_test P (not p.store.enabled) p _ refl
        (by_outcome P l.1 _ (λ _. p') (λ _. refl) (λ _. refl))

  rest-Sane : (e : Surroundings) (p : Program Db) → Sane p → Sane (start_rest pool hash e p)
  unfolding start_rest
  rest-Sane e p h = record {
    in_order = h.in_order;
    balanced =
        Reach-Balanced h.balanced
          (Sockets.next Sockets.here (Sockets.starts e.http_outcome p.http));
    queued_runs = h.queued_runs;
    started_workers = h.started_workers;
  }

  stack-Sane :
      (e : Surroundings) (p : Program Db)
      → Sane p
      → p.callback_set ≡ true
      → p.dispatcher.started ≡ true
      → AllRunning p.dispatcher.workers
      → Outcome (start_stack pool hash e p)
  unfolding start_stack start_rest
  stack-Sane e p h set runs all_run =
      let st = Stack.start e.root_made e.nua_made p.stack in
      let p' = record p { stack = st.0 } in
      let sane : Sane p' = record {
        in_order = Reach-InOrder h.in_order (next here (starts e.root_made e.nua_made p.stack));
        balanced = h.balanced;
        queued_runs = h.queued_runs;
        started_workers = h.started_workers;
      } in
      by_outcome Outcome st.1 _ (λ _. (p', false))
        (λ up. (
          rest-Sane e p' sane,
          inr (record {
            has_callback = set;
            dispatcher_runs = runs;
            workers_run = all_run;
            stack_runs = stack-start e.root_made e.nua_made p.stack up;
          }),
        ))
        (λ _. (sane, inl refl))

  dispatcher-Sane :
      (e : Surroundings) (p : Program Db)
      → Fresh p
      → p.callback_set ≡ true
      → Outcome (start_dispatcher pool hash e p)
  unfolding start_dispatcher
  dispatcher-Sane e p h set =
      let d = Dispatcher.start p.dispatcher in
      let p' = record p { dispatcher = d.0 } in
      let up = start-ok p.dispatcher h.not_started h.workers_idle in
      let sane : Sane p' = record {
        in_order = h.in_order;
        balanced = h.balanced;
        queued_runs = λ _. h.nothing_queued;
        started_workers = λ off. cc (up.1.0, off);
      } in
      by_outcome Outcome d.1 _ (λ _. (p', false)) (λ _. stack-Sane e p' sane set up.1.0 up.1.1)
        (λ _. (sane, inl refl))

  -- A fresh program, whatever the libraries and the system give while it starts, is afterwards in
  -- order as far as it has come: Sofia's calls are in order, the sockets that are open are those
  -- of a server that runs, nothing is queued for a database thread that does not run, and no
  -- worker runs without the dispatcher. Either the start is given up, or the callback handler has
  -- the dispatcher, the dispatcher is started and all its workers run, and the SIP stack runs.
  pub startup-Sane :
      (e : Surroundings) (p : Program Db)
      → Fresh p
      → Sane (startup pool hash e p).0
        × (((startup pool hash e p).1 ≡ false) ⊎ Serving (startup pool hash e p).0)
  unfolding startup
  startup-Sane e p h =
      let st = start_persistence pool hash e p.store in
      let p' = record p { store = st.0 } in
      let pending = persistence-pending e p.store ∙ h.nothing_queued in
      let fresh : Fresh (record p' { callback_set = true }) = record {
        in_order = h.in_order;
        balanced = h.balanced;
        nothing_queued = pending;
        workers_idle = h.workers_idle;
        not_started = h.not_started;
      } in
      let sane : Sane p' = record {
        in_order = h.in_order;
        balanced = h.balanced;
        queued_runs = λ _. pending;
        started_workers = λ _. h.workers_idle;
      } in
      let q = record p' { callback_set = true } in
      by_outcome Outcome st.1 _ (λ _. (p', false))
        (λ _.
          dispatcher-Sane e (run_recovery pool hash e.now q) (recovery-Fresh e.now q fresh)
            (recovery-callback e.now q))
        (λ _. (sane, inl refl))
