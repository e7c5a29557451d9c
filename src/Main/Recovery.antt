-- ===== src/Main/Recovery.antt =====
-- The subscriptions that are recovered at the start.
use sip_event_processor.Prelude.{
  ℕ, zero, suc, ◌<◌, ◌≡◌, refl, ap, ◌∙◌, true, false, none, some, inl, inr, List, [], ◌∷◌, Text,
  Option-cases, Bool-cases, text_eq, text_eq_iff, text_eq_refl, length, ◌%◌, ◌==◌, ==_iff,
  if◌then◌else◌, get_elem?, modify, arith,
}
use sip_event_processor.Prelude.Map.{find, find-put}
use sip_event_processor.Subscription.Record.{SubscriptionRecord}
use sip_event_processor.Dispatch.Worker.State.{DialogContext, Worker}
use sip_event_processor.Dispatch.Worker.Admin.{load_recovered_subscription}
use sip_event_processor.Dispatch.Dispatcher.{DialogDispatcher, worker_index_for}
use sip_event_processor.Dispatch.Dispatcher.Ownership.{length-modify}
use sip_event_processor.Main.{recover}
use mathlib.Core.Option

-- The dialog stands, with a context, in the table of the worker that its events go to.
pub record Present (hash : Text → ℕ) (d : DialogDispatcher) (did : Text) (context : DialogContext)
    : Type 0 where
  pub worker : Worker
  pub at_home : get_elem? d.workers (worker_index_for hash d did) ≡ some worker
  pub in_table : find did worker.dialogs ≡ some context

load-keeps :
    (did : Text) (rec : SubscriptionRecord) (w : Worker) (ctx : DialogContext)
    → find did w.dialogs ≡ some ctx
    → find did (load_recovered_subscription rec w).0.dialogs ≡ some ctx
unfolding load_recovered_subscription
load-keeps did rec w ctx h = elim (Option-cases (find rec.dialog_id w.dialogs)) [
  | inl new ↦ rw new (
      find-put rec.dialog_id did _ w.dialogs ∙ elim (Bool-cases (text_eq rec.dialog_id did)) [
        | inl same ↦
            let e = (text_eq_iff rec.dialog_id did).0 same in
            cc (ap (λ k. find k w.dialogs) e, new, h)
        | inr other ↦ rw other h
      ])
  | inr (c, there) ↦ rw there h
]

-- A context with no event waiting and no handle.
abbrev pub fresh : SubscriptionRecord → DialogContext
fresh rec = record { rec = rec; event_queue = []; nua_handle = none }

load-adds :
    (rec : SubscriptionRecord) (w : Worker)
    → find rec.dialog_id w.dialogs ≡ none
    → find rec.dialog_id (load_recovered_subscription rec w).0.dialogs ≡ some (fresh rec)
unfolding load_recovered_subscription
load-adds rec w new =
    rw new (find-put rec.dialog_id rec.dialog_id _ w.dialogs ∙ rw (text_eq_refl rec.dialog_id) refl)

load-avoids :
    (did : Text) (rec : SubscriptionRecord) (w : Worker)
    → text_eq rec.dialog_id did ≡ false
    → find did w.dialogs ≡ none
    → find did (load_recovered_subscription rec w).0.dialogs ≡ none
unfolding load_recovered_subscription
load-avoids did rec w other absent = elim (Option-cases (find rec.dialog_id w.dialogs)) [
  | inl new ↦ rw new (find-put rec.dialog_id did _ w.dialogs ∙ rw other absent)
  | inr (c, there) ↦ rw there absent
]

-- No record is of the dialog.
abbrev pub Others : Text → List SubscriptionRecord → Type 0
Others did [] = Unit
Others did (r ∷ recs) = (text_eq did r.dialog_id ≡ false) × Others did recs

-- What stands at a position after a worker has been changed.
abbrev placed : ℕ → ℕ → (Worker → Worker) → Worker → Worker
placed i j f w = if i == j then f w else w

get_elem?-modify :
    (f : Worker → Worker) (ws : List Worker) (i j : ℕ) (w : Worker)
    → get_elem? ws j ≡ some w
    → get_elem? (modify f ws i) j ≡ some (placed i j f w)
get_elem?-modify f [] i j w h = cc h
get_elem?-modify f (v ∷ ws) zero zero w h = ap (Option.map f) h
get_elem?-modify f (v ∷ ws) zero (suc j) w h = ground (arith, h)
get_elem?-modify f (v ∷ ws) (suc i) zero w h = ground (arith, h)
get_elem?-modify f (v ∷ ws) (suc i) (suc j) w h = ground (arith, get_elem?-modify f ws i j w h)

get_elem?-there :
    (ws : List Worker) (i : ℕ) → i < length ws → (w : Worker) × (get_elem? ws i ≡ some w)
get_elem?-there [] i h = absurd (omega arith)
get_elem?-there (w ∷ ws) zero h = (w, refl)
get_elem?-there (w ∷ ws) (suc i) h = get_elem?-there ws i (omega arith)

module _ (hash : Text → ℕ) where
  abbrev load : SubscriptionRecord → DialogDispatcher → DialogDispatcher
  load rec d = record d {
    workers =
        modify (λ w. (load_recovered_subscription rec w).0) d.workers
          (worker_index_for hash d rec.dialog_id);
  }

  load-home :
      (rec : SubscriptionRecord) (d : DialogDispatcher) (did : Text)
      → worker_index_for hash (load rec d) did ≡ worker_index_for hash d did
  unfolding worker_index_for
  load-home rec d did = ap (λ n. hash did % n) (length-modify _ d.workers _)

  load-Present :
      (rec : SubscriptionRecord) (d : DialogDispatcher) (did : Text) (ctx : DialogContext)
      → Present hash d did ctx
      → Present hash (load rec d) did ctx
  load-Present rec d did ctx p =
      let f : Worker → Worker = λ w. (load_recovered_subscription rec w).0 in
      let i = worker_index_for hash d rec.dialog_id in
      let j = worker_index_for hash d did in
      record {
        worker = placed i j f p.worker;
        at_home =
            ap (get_elem? (load rec d).workers) (load-home rec d did)
            ∙ get_elem?-modify f d.workers i j p.worker p.at_home;
        in_table = elim (Bool-cases (i == j)) [
          | inl same ↦ rw same (load-keeps did rec p.worker ctx p.in_table)
          | inr other ↦ rw other p.in_table
        ];
      }

  -- The dialog does not stand at its home.
  abbrev pub Absent : DialogDispatcher → Text → Type 0
  Absent d did =
      (w : Worker)
      → get_elem? d.workers (worker_index_for hash d did) ≡ some w
      → find did w.dialogs ≡ none

  home_in_range :
      (did : Text) (d : DialogDispatcher)
      → 0 < length d.workers
      → worker_index_for hash d did < length d.workers
  unfolding worker_index_for
  home_in_range did d some_worker = grind arith

  load-Absent :
      (rec : SubscriptionRecord) (d : DialogDispatcher) (did : Text)
      → 0 < length d.workers
      → text_eq rec.dialog_id did ≡ false
      → Absent d did
      → Absent (load rec d) did
  load-Absent rec d did some_worker other absent w at =
      let f : Worker → Worker = λ w. (load_recovered_subscription rec w).0 in
      let i = worker_index_for hash d rec.dialog_id in
      let j = worker_index_for hash d did in
      let (v, there) = get_elem?-there d.workers j (home_in_range did d some_worker) in
      let after =
        ap (get_elem? (load rec d).workers) (load-home rec d did)
        ∙ get_elem?-modify f d.workers i j v there in
      let is : w ≡ placed i j f v = cc (at, after) in
      rw is (elim (Bool-cases (i == j)) [
        | inl same ↦ rw same (load-avoids did rec v other (absent v there))
        | inr apart ↦ rw apart (absent v there)
      ])

  load-Present_self :
      (rec : SubscriptionRecord) (d : DialogDispatcher)
      → 0 < length d.workers
      → Absent d rec.dialog_id
      → Present hash (load rec d) rec.dialog_id (fresh rec)
  load-Present_self rec d some_worker absent =
      let f : Worker → Worker = λ w. (load_recovered_subscription rec w).0 in
      let i = worker_index_for hash d rec.dialog_id in
      let (w, there) = get_elem?-there d.workers i (home_in_range rec.dialog_id d some_worker) in
      let here : (i == i) ≡ true = (==_iff i i).1 refl in
      record {
        worker = f w;
        at_home =
            ap (get_elem? (load rec d).workers) (load-home rec d rec.dialog_id)
            ∙ get_elem?-modify f d.workers i i w there
            ∙ rw here refl;
        in_table = load-adds rec w (absent w there);
      }

  -- None of the dialogs stands at its home yet, and none is recovered twice.
  abbrev pub New : DialogDispatcher → List SubscriptionRecord → Type 0
  New d [] = Unit
  New d (rec ∷ recs) = Absent d rec.dialog_id × Others rec.dialog_id recs × New d recs

  load-New :
      (rec : SubscriptionRecord) (d : DialogDispatcher) (recs : List SubscriptionRecord)
      → 0 < length d.workers
      → Others rec.dialog_id recs
      → New d recs
      → New (load rec d) recs
  load-New rec d [] some_worker others new = tt
  load-New rec d (r ∷ recs) some_worker others new = (
    load-Absent rec d r.dialog_id some_worker others.0 new.0,
    new.1,
    load-New rec d recs some_worker others.1 new.2,
  )

  abbrev pub AllPresent : DialogDispatcher → List SubscriptionRecord → Type 0
  AllPresent d [] = Unit
  AllPresent d (rec ∷ recs) = Present hash d rec.dialog_id (fresh rec) × AllPresent d recs

  recover-Present :
      (recs : List SubscriptionRecord) (d : DialogDispatcher) (did : Text) (ctx : DialogContext)
      → Present hash d did ctx
      → Present hash (recover hash recs d) did ctx
  unfolding recover
  recover-Present [] d did ctx p = p
  recover-Present (rec ∷ recs) d did ctx p =
      recover-Present recs (load rec d) did ctx (load-Present rec d did ctx p)

  recover-each :
      (recs : List SubscriptionRecord) (d : DialogDispatcher)
      → 0 < length d.workers
      → New d recs
      → AllPresent (recover hash recs d) recs
  unfolding recover
  recover-each [] d some_worker new = tt
  recover-each (rec ∷ recs) d some_worker new = (
    recover-Present recs (load rec d) rec.dialog_id (fresh rec)
        (load-Present_self rec d some_worker new.0),
    recover-each recs (load rec d) (rw (length-modify _ d.workers _) some_worker)
        (load-New rec d recs some_worker new.1 new.2),
  )

  -- With a worker at least, if no dialog is recovered twice and none stands at its worker yet,
  -- then, when the recovery is done, each recovered record stands, with no event waiting and no
  -- handle, in the table of the worker to which the dispatcher sends the events of its dialog;
  -- and every dialog that stood at that worker before stands there with its context unchanged.
  pub recover-AllPresent :
      (recs : List SubscriptionRecord) (d : DialogDispatcher)
      → 0 < length d.workers
      → New d recs
      → AllPresent (recover hash recs d) recs
        × ((did : Text) (ctx : DialogContext)
            → Present hash d did ctx
            → Present hash (recover hash recs d) did ctx)
  recover-AllPresent recs d some_worker new =
      (recover-each recs d some_worker new, λ did ctx. recover-Present recs d did ctx)
