-- ===== src/Dispatch/Dispatcher/Delivery.antt =====
-- Several events through DialogDispatcher::dispatch, one after the other: what each worker's queue
-- gets.
use sip_event_processor.Prelude.{
  ℕ, zero, suc, ◌+◌, ◌≡◌, ◌≢◌, ◌∙◌, ◌≤◌, refl, sym, ap, subst, Bool, true, false, ◌&&◌, none, some,
  List, [], ◌∷◌, ◌++◌, Text, length, length-append, append_assoc, append-nil, get_elem?, modify,
  arith, Bool-cases, inl, inr, ◌==◌, if◌then◌else◌,
}
use mathlib.Core.Option.{some-injective}
use sip_event_processor.Types.{ok}
use sip_event_processor.Sip.DialogId.{is_valid}
use sip_event_processor.Sip.Event.{SipEvent}
use sip_event_processor.Dispatch.Worker.State.{Worker}
use sip_event_processor.Dispatch.Worker.Intake.{enqueue}
use sip_event_processor.Dispatch.Dispatcher.{DialogDispatcher, worker_index_for, dispatch}
use sip_event_processor.Dispatch.Dispatcher.Ownership.{length-modify}

get_elem?-modify_same :
    (f : Worker → Worker) (ws : List Worker) (k : ℕ) (w : Worker)
    → get_elem? ws k ≡ some w
    → get_elem? (modify f ws k) k ≡ some (f w)
get_elem?-modify_same f [] k w h = cc
get_elem?-modify_same f (v ∷ ws) zero w h = ground (arith, h)
get_elem?-modify_same f (v ∷ ws) (suc k) w h = get_elem?-modify_same f ws k w h

get_elem?-modify_other :
    (f : Worker → Worker) (ws : List Worker) (k i : ℕ)
    → i ≢ k
    → get_elem? (modify f ws k) i ≡ get_elem? ws i
get_elem?-modify_other f [] k i h = refl
get_elem?-modify_other f (v ∷ ws) zero zero h = ground arith
get_elem?-modify_other f (v ∷ ws) zero (suc i) h = refl
get_elem?-modify_other f (v ∷ ws) (suc k) zero h = refl
get_elem?-modify_other f (v ∷ ws) (suc k) (suc i) h =
    get_elem?-modify_other f ws k i (ground (arith, h))

-- A worker that takes `n` more events.
abbrev pub HasRoom : ℕ → Worker → Type 0
HasRoom n w =
    (w.stop_requested ≡ false)
    × (length w.incoming_queue + n ≤ w.config.max_incoming_queue_per_worker)

-- A dispatcher that runs, each of whose workers takes `n` more events.
pub record Ready (n : ℕ) (d : DialogDispatcher) : Type 0 where
  pub started : d.started ≡ true
  pub room : (i : ℕ) (w : Worker) → get_elem? d.workers i ≡ some w → HasRoom n w

-- The queue of a worker.
unfoldable pub queue_of : ℕ → DialogDispatcher → List SipEvent
queue_of i d = elim (get_elem? d.workers i) [ none ↦ [] | some w ↦ w.incoming_queue ]

-- Each event is dispatched at its own time.
unfoldable pub dispatch_all : (Text → ℕ) → ℕ → List SipEvent → DialogDispatcher → DialogDispatcher
dispatch_all hash now [] d = d
dispatch_all hash now (e ∷ es) d = dispatch_all hash now es (dispatch hash now (some e) d).0

enqueue-HasRoom :
    (n : ℕ) (e : SipEvent) (w : Worker)
    → HasRoom (suc n) w
    → ((enqueue e w).1 ≡ ok)
      × HasRoom n (enqueue e w).0
      × ((enqueue e w).0.incoming_queue ≡ w.incoming_queue ++ e ∷ [])
unfolding enqueue
enqueue-HasRoom n e w (a, b) = ground (arith, a, b, length-append w.incoming_queue (e ∷ []))

get_elem?-within :
    (ws : List Worker) (i : ℕ) → i + 1 ≤ length ws → (w : Worker) × (get_elem? ws i ≡ some w)
get_elem?-within [] i h = ground (arith, h)
get_elem?-within (w ∷ ws) zero h = (w, refl)
get_elem?-within (w ∷ ws) (suc i) h = get_elem?-within ws i (omega (arith, h))

home-within :
    (hash : Text → ℕ) (d : DialogDispatcher) (did : Text)
    → 1 ≤ length d.workers
    → worker_index_for hash d did + 1 ≤ length d.workers
unfolding worker_index_for
home-within hash d did h = omega (arith, h)

-- One event at a dispatcher that takes `n` more after it.
pub record Delivered (hash : Text → ℕ) (now n : ℕ) (e : SipEvent) (d : DialogDispatcher)
    : Type 0 where
  pub accepted : (dispatch hash now (some e) d).1 ≡ ok
  pub still_ready : Ready n (dispatch hash now (some e) d).0
  pub same_number : length (dispatch hash now (some e) d).0.workers ≡ length d.workers
  pub at_home :
      queue_of (worker_index_for hash d e.dialog_id) (dispatch hash now (some e) d).0
      ≡ queue_of (worker_index_for hash d e.dialog_id) d ++ record e { enqueued_at = now } ∷ []
  pub elsewhere :
      (i : ℕ)
      → i ≢ worker_index_for hash d e.dialog_id
      → queue_of i (dispatch hash now (some e) d).0 ≡ queue_of i d

dispatch-started :
    (hash : Text → ℕ) (now : ℕ) (e : SipEvent) (d : DialogDispatcher) (w : Worker)
    → d.started ≡ true
    → is_valid e.dialog_id ≡ true
    → get_elem? d.workers (worker_index_for hash d e.dialog_id) ≡ some w
    → dispatch hash now (some e) d ≡ (
      record d {
        workers =
            modify
              (λ v. (enqueue (record e { enqueued_at = now }) v).0)
              d.workers
              (worker_index_for hash d e.dialog_id);
      },
      (enqueue (record e { enqueued_at = now }) w).1,
    )
unfolding dispatch
dispatch-started hash now e d w s v g = simp (dispatch, s, v, g) refl

queue_of-at :
    (i : ℕ) (d : DialogDispatcher) (w : Worker)
    → get_elem? d.workers i ≡ some w
    → queue_of i d ≡ w.incoming_queue
unfolding queue_of
queue_of-at i d w h = rw (queue_of, h) refl

queue_of-same :
    (i : ℕ) (d e : DialogDispatcher)
    → get_elem? e.workers i ≡ get_elem? d.workers i
    → queue_of i e ≡ queue_of i d
unfolding queue_of
queue_of-same i d e h = rw (queue_of, h) refl

module _ (hash : Text → ℕ) (now n : ℕ) (e : SipEvent) (d : DialogDispatcher)
    (ready : Ready (suc n) d) (valid : is_valid e.dialog_id ≡ true)
    (some_worker : 1 ≤ length d.workers) where
  abbrev home : ℕ
  home = worker_index_for hash d e.dialog_id

  abbrev stamped : SipEvent
  stamped = record e { enqueued_at = now }

  abbrev after : DialogDispatcher
  after = record d { workers = modify (λ v. (enqueue stamped v).0) d.workers home }

  -- The worker at which the event goes, before and after.
  taker :
      (u : Worker) × (get_elem? d.workers home ≡ some u)
      × (get_elem? after.workers home ≡ some (enqueue stamped u).0)
  taker =
      let (u, at) = get_elem?-within d.workers home (home-within hash d e.dialog_id some_worker) in
      (u, at, get_elem?-modify_same (λ v. (enqueue stamped v).0) d.workers home u at)

  other_worker : (i : ℕ) → i ≢ home → get_elem? after.workers i ≡ get_elem? d.workers i
  other_worker i h = get_elem?-modify_other (λ v. (enqueue stamped v).0) d.workers home i h

  still_room : (i : ℕ) (w : Worker) → get_elem? after.workers i ≡ some w → HasRoom n w
  still_room i w g =
      let (u, at, then_at) = taker in
      let (_, room, _) = enqueue-HasRoom n stamped u (ready.room home u at) in
      elim (Bool-cases (i == home)) [
        | inl same ↦
            let here : some (enqueue stamped u).0 ≡ some w = ground (arith, same, g, then_at) in
            subst (HasRoom n) (some-injective _ _ here) room
        | inr differs ↦
            let (a, b) = ready.room i w (sym (other_worker i (ground (arith, differs))) ∙ g) in
            (a, omega (arith, b))
      ]

  pub dispatch-Delivered : Delivered hash now n e d
  dispatch-Delivered =
      let (u, at, then_at) = taker in
      let (accepted, room, queued) = enqueue-HasRoom n stamped u (ready.room home u at) in
      let done = dispatch-started hash now e d u ready.started valid at in
      record {
        accepted = rw done accepted;
        still_ready = rw done record { started = ready.started; room = still_room };
        same_number = rw done (length-modify (λ v. (enqueue stamped v).0) d.workers home);
        at_home = rw done (
            queue_of-at home after (enqueue stamped u).0 then_at
            ∙ queued
            ∙ sym (ap (λ q. q ++ stamped ∷ []) (queue_of-at home d u at)));
        elsewhere = λ i h. rw done (queue_of-same i d after (other_worker i h));
      }

-- The events of a list whose home is a given worker, as they stand in its queue.
unfoldable pub arriving : (Text → ℕ) → ℕ → DialogDispatcher → ℕ → List SipEvent → List SipEvent
arriving hash now d i [] = []
arriving hash now d i (e ∷ es) =
    let rest = arriving hash now d i es in
    if i == worker_index_for hash d e.dialog_id then record e { enqueued_at = now } ∷ rest else rest

abbrev pub all_dialogs_valid : List SipEvent → Bool
all_dialogs_valid [] = true
all_dialogs_valid (e ∷ es) = is_valid e.dialog_id && all_dialogs_valid es

arriving-same :
    (hash : Text → ℕ) (now : ℕ) (d d' : DialogDispatcher) (i : ℕ) (es : List SipEvent)
    → length d'.workers ≡ length d.workers
    → arriving hash now d' i es ≡ arriving hash now d i es
unfolding arriving worker_index_for
arriving-same hash now d d' i [] h = refl
arriving-same hash now d d' i (e ∷ es) h = rw (arriving, h, arriving-same hash now d d' i es h) refl

-- If the dispatcher runs, the events name dialogs and every worker has room for all of them, then
-- each worker's queue gets, behind what it holds, the events of the dialogs whose home it is, in
-- their order, and no others.
pub dispatch_all-queues :
    (hash : Text → ℕ) (now : ℕ) (es : List SipEvent) (d : DialogDispatcher) (i : ℕ)
    → Ready (length es) d
    → all_dialogs_valid es ≡ true
    → 1 ≤ length d.workers
    → queue_of i (dispatch_all hash now es d) ≡ queue_of i d ++ arriving hash now d i es
unfolding dispatch_all arriving
dispatch_all-queues hash now [] d i r v some_worker = sym (append-nil (queue_of i d))
dispatch_all-queues hash now (e ∷ es) d i r v some_worker =
    let valid : is_valid e.dialog_id ≡ true = ground (arith, v) in
    let others : all_dialogs_valid es ≡ true = ground (arith, v) in
    let one = dispatch-Delivered hash now (length es) e d r valid some_worker in
    let d' = (dispatch hash now (some e) d).0 in
    let rest =
      dispatch_all-queues hash now es d' i one.still_ready others
        (rw one.same_number some_worker) in
    let same = arriving-same hash now d d' i es one.same_number in
    let arrived = arriving hash now d i es in
    rest
    ∙ rw same (elim (Bool-cases (i == worker_index_for hash d e.dialog_id)) [
      | inl at ↦
          let here : i ≡ worker_index_for hash d e.dialog_id = ground (arith, at) in
          let queued =
            subst (λ k. queue_of k d' ≡ queue_of k d ++ record e { enqueued_at = now } ∷ [])
              (sym here) one.at_home in
          simp at (
            ap (λ q. q ++ arrived) queued
            ∙ append_assoc (queue_of i d) (record e { enqueued_at = now } ∷ []) arrived)
      | inr away ↦ simp away (ap (λ q. q ++ arrived) (one.elsewhere i (ground (arith, away))))
    ])
