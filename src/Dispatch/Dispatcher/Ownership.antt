-- ===== src/Dispatch/Dispatcher/Ownership.antt =====
-- Which worker a dialog's events and its state stand at: the dispatcher's routing by hash, and the
-- steps of the workers in any order.
use sip_event_processor.Prelude.{
  map, ℕ, zero, suc, ◌+◌, ◌%◌, ◌≡◌, refl, sym, ◌∙◌, ap, subst, Option, none, some, List, [], ◌∷◌,
  Text, length, get_elem?, modify, arith, Bool-cases, inl, inr,
}
use sip_event_processor.Prelude.Map.{find}
use sip_event_processor.Config.{Config}
use sip_event_processor.Sip.DialogId.{is_valid}
use sip_event_processor.Sip.Event.{SipEvent}
use sip_event_processor.Subscription.Record.{SubscriptionRecord}
use sip_event_processor.Dispatch.World.{World}
use sip_event_processor.Dispatch.Worker.State.{DialogContext, Worker, Times}
use sip_event_processor.Dispatch.Worker.Intake.{with_world, force_terminate}
use sip_event_processor.Dispatch.Worker.Loop.{run_round}
use sip_event_processor.Dispatch.Worker.Admin.{load_recovered_subscription, finish_stop}
use sip_event_processor.Dispatch.Worker.Admin
use sip_event_processor.Dispatch.Worker.Home.{
  Holds, find-KeysHome, run_round-Holds, enqueue-Holds, load-Holds,
}
use sip_event_processor.Dispatch.Dispatcher.{
  DialogDispatcher, worker_index_for, dispatch, start, stop, start_workers, stop_worker,
  workers_from, new_dispatcher,
}

-- Each worker of the list, the first being the `i`-th, holds only dialogs whose home it is.
abbrev pub Owned : (Text → ℕ) → ℕ → List Worker → Type 0
Owned home i [] = Unit
Owned home i (w ∷ ws) = Holds home i w × Owned home (i + 1) ws

modify-Owned :
    (home : Text → ℕ) (f : Worker → Worker) (i j k : ℕ) (ws : List Worker)
    → j ≡ i + k
    → ((w : Worker) → Holds home j w → Holds home j (f w))
    → Owned home i ws
    → Owned home i (modify f ws k)
modify-Owned home f i j k [] e h o = tt
modify-Owned home f i j zero (w ∷ ws) e h o =
    let q : j ≡ i = e ∙ omega arith in
    (subst (λ x. Holds home x (f w)) q (h w (subst (λ x. Holds home x w) (sym q) o.0)), o.1)
modify-Owned home f i j (suc k) (w ∷ ws) e h o =
    (o.0, modify-Owned home f (i + 1) j k ws (e ∙ omega arith) h o.1)

pub length-modify :
    (f : Worker → Worker) (ws : List Worker) (k : ℕ) → length (modify f ws k) ≡ length ws
length-modify f [] k = refl
length-modify f (w ∷ ws) zero = refl
length-modify f (w ∷ ws) (suc k) = ap suc (length-modify f ws k)

new-Owned :
    (home : Text → ℕ) (c : Config) (v : World) (i n : ℕ) → Owned home i (workers_from c v i n)
unfolding workers_from
new-Owned home c v i zero = tt
new-Owned home c v i (suc n) = ((tt, tt), new-Owned home c v (i + 1) n)

Owned-find :
    (home : Text → ℕ) (i k : ℕ) (ws : List Worker) (w : Worker) (d : Text) (c : DialogContext)
    → Owned home i ws
    → get_elem? ws k ≡ some w
    → find d w.dialogs ≡ some c
    → home d ≡ i + k
Owned-find home i k [] w d c o g e = cc
Owned-find home i zero (u ∷ ws) w d c o g e = ground (arith, find-KeysHome home i d c u.dialogs)
Owned-find home i (suc k) (u ∷ ws) w d c o g e =
    Owned-find home (i + 1) k ws w d c o.1 g e ∙ omega arith

-- One step of the dispatcher and its workers, in any order: it is started or stopped, an event
-- comes in, a round of a worker ends (`world` is the shared state as the other threads left it),
-- a termination is asked for, or a stored subscription is loaded, by the worker that main.cpp
-- chooses.
pub data Step (hash : Text → ℕ) : DialogDispatcher → DialogDispatcher → Type 0 where
  starts : (d : DialogDispatcher) → Step hash d (start d).0
  stops : (d : DialogDispatcher) → Step hash d (stop d)
  dispatches :
      (now : ℕ) (event : Option SipEvent) (d : DialogDispatcher)
      → Step hash d (dispatch hash now event d).0
  rounds :
      (times : Times) (world : World) (i : ℕ) (d : DialogDispatcher)
      → Step hash d
          (record d { workers = modify (λ w. run_round times (with_world world w)) d.workers i })
  forces :
      (did : Text) (i : ℕ) (d : DialogDispatcher)
      → Step hash d (record d { workers = modify (λ w. (force_terminate did w).0) d.workers i })
  loads :
      (rec : SubscriptionRecord) (d : DialogDispatcher)
      → Step hash d (record d {
        workers =
            modify
              (λ w. (load_recovered_subscription rec w).0)
              d.workers
              (worker_index_for hash d rec.dialog_id);
      })

pub data Reach (hash : Text → ℕ) (d : DialogDispatcher) : DialogDispatcher → Type 0 where
  here : Reach hash d d
  next : {u v : DialogDispatcher} → Reach hash d u → Step hash u v → Reach hash d v

-- The number of workers stays, and each worker holds only dialogs whose hash leads to it.
abbrev Kept : (Text → ℕ) → ℕ → DialogDispatcher → Type 0
Kept hash n d = (length d.workers ≡ n) × Owned (λ did. hash did % n) 0 d.workers

dispatch-Kept :
    (hash : Text → ℕ) (n now : ℕ) (event : SipEvent) (d : DialogDispatcher)
    → Kept hash n d
    → Kept hash n (dispatch hash now (some event) d).0
unfolding dispatch
dispatch-Kept hash n now event d k = elim (Bool-cases d.started) [
  | inr e ↦ rw (e, dispatch) k
  | inl e ↦ elim (Bool-cases (is_valid event.dialog_id)) [
    | inr e' ↦ rw (e, e', dispatch) k
    | inl e' ↦
        rw (e, e', dispatch)
          (
            length-modify _ d.workers _ ∙ k.0,
            modify-Owned (λ did. hash did % n) _ 0 (hash event.dialog_id % n) _ d.workers
                (unfold worker_index_for in rw k.0 (omega arith))
                (λ w h.
                  enqueue-Holds (λ did. hash did % n) _ (record event { enqueued_at = now }) w refl
                    h)
                k.1,
          )
  ]
]

length-start_workers : (ws : List Worker) → length (start_workers ws).0 ≡ length ws
unfolding start_workers Admin.start
length-start_workers [] = refl
length-start_workers (w ∷ ws) = ground (arith, length-start_workers ws)

start_workers-Owned :
    (home : Text → ℕ) (i : ℕ) (ws : List Worker)
    → Owned home i ws
    → Owned home i (start_workers ws).0
unfolding start_workers Admin.start
start_workers-Owned home i [] o = tt
start_workers-Owned home i (w ∷ ws) o = ground (arith, start_workers-Owned home (i + 1) ws o.1)

start-Kept :
    (hash : Text → ℕ) (n : ℕ) (d : DialogDispatcher) → Kept hash n d → Kept hash n (start d).0
unfolding start
start-Kept hash n d k = ground (
  arith,
  length-start_workers d.workers,
  start_workers-Owned (λ did. hash did % n) 0 d.workers k.1,
)

length-map_stop : (ws : List Worker) → length (map stop_worker ws) ≡ length ws
length-map_stop [] = refl
length-map_stop (w ∷ ws) = ap suc (length-map_stop ws)

map_stop-Owned :
    (home : Text → ℕ) (i : ℕ) (ws : List Worker)
    → Owned home i ws
    → Owned home i (map stop_worker ws)
unfolding stop_worker finish_stop
map_stop-Owned home i [] o = tt
map_stop-Owned home i (w ∷ ws) o = ground (arith, map_stop-Owned home (i + 1) ws o.1)

stop-Kept : (hash : Text → ℕ) (n : ℕ) (d : DialogDispatcher) → Kept hash n d → Kept hash n (stop d)
unfolding stop
stop-Kept hash n d k =
    ground (arith, length-map_stop d.workers, map_stop-Owned (λ did. hash did % n) 0 d.workers k.1)

Step-Kept :
    {hash : Text → ℕ} (n : ℕ) {u v : DialogDispatcher}
    → Step hash u v
    → Kept hash n u
    → Kept hash n v
Step-Kept {hash} n (starts d) k = start-Kept hash n d k
Step-Kept {hash} n (stops d) k = stop-Kept hash n d k
Step-Kept {hash} n (dispatches now none d) k = unfold dispatch in ground (arith, k)
Step-Kept {hash} n (dispatches now (some event) d) k = dispatch-Kept hash n now event d k
Step-Kept {hash} n (rounds times world i d) k = (
  length-modify _ d.workers i ∙ k.0,
  modify-Owned (λ did. hash did % n) _ 0 i i d.workers (omega arith)
      (λ w h. run_round-Holds (λ did. hash did % n) i times (with_world world w) h) k.1,
)
Step-Kept {hash} n (forces did i d) k = (
  length-modify _ d.workers i ∙ k.0,
  modify-Owned (λ did. hash did % n) _ 0 i i d.workers (omega arith)
      (λ w h. unfold force_terminate in h) k.1,
)
Step-Kept {hash} n (loads rec d) k = (
  length-modify _ d.workers _ ∙ k.0,
  modify-Owned (λ did. hash did % n) _ 0 (hash rec.dialog_id % n) _ d.workers
      (unfold worker_index_for in rw k.0 (omega arith))
      (λ w h. load-Holds (λ did. hash did % n) _ rec w refl h) k.1,
)

Reach-Kept :
    {hash : Text → ℕ} (n : ℕ) {u v : DialogDispatcher}
    → Kept hash n u
    → Reach hash u v
    → Kept hash n v
Reach-Kept n k here = k
Reach-Kept n k (next r s) = Step-Kept n s (Reach-Kept n k r)

length-workers_from : (c : Config) (v : World) (i n : ℕ) → length (workers_from c v i n) ≡ n
unfolding workers_from
length-workers_from c v i zero = refl
length-workers_from c v i (suc n) = ap suc (length-workers_from c v (i + 1) n)

new-Kept :
    (hash : Text → ℕ) (c : Config) (v : World)
    → Kept hash (length (new_dispatcher c v).workers) (new_dispatcher c v)
unfolding new_dispatcher
new-Kept hash c v = (refl, new-Owned _ c v 0 _)

-- In any dispatcher that is reached from a new one, by any interleaving of starts and stops,
-- dispatched events, rounds of the workers, forced terminations and recovered subscriptions, a
-- dialog that stands in a worker's table stands at the worker that the dispatcher chooses for it.
-- So no two workers hold the same dialog.
pub single_owner :
    (hash : Text → ℕ) (c : Config) (v : World) {d : DialogDispatcher} (i : ℕ) (w : Worker)
    (did : Text) (ctx : DialogContext)
    → Reach hash (new_dispatcher c v) d
    → get_elem? d.workers i ≡ some w
    → find did w.dialogs ≡ some ctx
    → worker_index_for hash d did ≡ i
unfolding worker_index_for
single_owner hash c v {d} i w did ctx r g e =
    let k = Reach-Kept _ (new-Kept hash c v) r in
    rw k.0 (Owned-find _ 0 i d.workers w did ctx k.1 g e ∙ omega arith)
