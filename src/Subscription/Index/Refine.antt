-- ===== src/Subscription/Index/Refine.antt =====
-- The index as a partial map from dialogs to URIs.
use sip_event_processor.Prelude.{
  ◌≡◌, refl, ◌||◌, Option, none, some, List, [], ◌∷◌, Text, text_eq, text_eq_iff, is_empty, arith,
  Option-cases, inl, inr, if◌then◌else◌,
}
use sip_event_processor.Prelude.Map.{find, find-put, find-erase}
use sip_event_processor.Prelude.Map.Tally.{one_if}
use sip_event_processor.Subscription.Uri.{normalize_uri}
use sip_event_processor.Subscription.Index.{
  BlfSubscriptionIndex, empty_index, watchers_at, add, remove, remove_dialog, lookup,
}
use sip_event_processor.Subscription.Index.Consistent.{
  IsConsistent, entries_of, entries_of-drop, drop_watcher-no_empty, add-IsConsistent,
  remove_dialog-IsConsistent,
}

-- The URI that `remove` is given is the one under which the dialog is indexed, if it is.
abbrev pub Agrees : Text → Text → BlfSubscriptionIndex → Type 0
Agrees monitored_uri d ix =
    (uri : Text) → find d ix.dialog_to_uri ≡ some uri → normalize_uri monitored_uri ≡ uri

pub remove-IsConsistent :
    (monitored_uri d : Text) (ix : BlfSubscriptionIndex)
    → Agrees monitored_uri d ix
    → IsConsistent ix
    → IsConsistent (remove monitored_uri d ix)
unfolding remove
remove-IsConsistent monitored_uri d ix agrees v = record {
  once = λ e u. elim (Option-cases (find d ix.dialog_to_uri)) [
    | inl none_at ↦ ground (
      arith,
      v.once e u,
      text_eq_iff d e,
      find-erase d e ix.dialog_to_uri,
      entries_of-drop (normalize_uri monitored_uri) u d e ix.uri_to_watchers,
    )
    | inr (old, at) ↦ ground (
      arith,
      v.once e u,
      agrees old at,
      text_eq_iff d e,
      find-erase d e ix.dialog_to_uri,
      entries_of-drop (normalize_uri monitored_uri) u d e ix.uri_to_watchers,
    )
  ];
  no_empty = λ u.
      drop_watcher-no_empty (normalize_uri monitored_uri) u d ix.uri_to_watchers (v.no_empty u);
}

pub data Call : Type 0 where
  adds : Text → Text → Text → Call
  removes : Text → Text → Call
  removes_dialog : Text → Call

unfoldable pub step : BlfSubscriptionIndex → Call → BlfSubscriptionIndex
step ix (adds uri d tenant) = add uri d tenant ix
step ix (removes uri d) = remove uri d ix
step ix (removes_dialog d) = remove_dialog d ix

unfoldable pub run : BlfSubscriptionIndex → List Call → BlfSubscriptionIndex
unfolding step
run ix [] = ix
run ix (c ∷ cs) = run (step ix c) cs

abbrev AgreesCall : BlfSubscriptionIndex → Call → Type 0
AgreesCall ix (adds uri d tenant) = Unit {0}
AgreesCall ix (removes uri d) = Agrees uri d ix
AgreesCall ix (removes_dialog d) = Unit {0}

-- Every `remove` of the history names the URI under which its dialog is indexed, if it is.
abbrev pub AgreesAll : BlfSubscriptionIndex → List Call → Type 0
AgreesAll ix [] = Unit {0}
AgreesAll ix (c ∷ cs) = AgreesCall ix c × AgreesAll (step ix c) cs

-- The specification: where each dialog is indexed, as a function.
abbrev pub Spec : Type 0
Spec = Text → Option Text

abbrev pub spec_step : Spec → Call → Spec
spec_step f (adds uri d tenant) e =
    if is_empty uri || is_empty d
    then f e
    else if text_eq d e
    then some (normalize_uri uri)
    else f e
spec_step f (removes uri d) e = if text_eq d e then none else f e
spec_step f (removes_dialog d) e = if text_eq d e then none else f e

unfoldable pub spec_run : Spec → List Call → Spec
spec_run f [] = f
spec_run f (c ∷ cs) = spec_run (spec_step f c) cs

step-IsConsistent :
    (ix : BlfSubscriptionIndex) (c : Call)
    → AgreesCall ix c
    → IsConsistent ix
    → IsConsistent (step ix c)
unfolding step
step-IsConsistent ix (adds uri d tenant) a v = add-IsConsistent uri d tenant ix v
step-IsConsistent ix (removes uri d) a v = remove-IsConsistent uri d ix a v
step-IsConsistent ix (removes_dialog d) a v = remove_dialog-IsConsistent d ix v

step-view :
    (ix : BlfSubscriptionIndex) (f : Spec) (c : Call)
    → ((e : Text) → find e ix.dialog_to_uri ≡ f e)
    → (e : Text) → find e (step ix c).dialog_to_uri ≡ spec_step f c e
unfolding step add remove remove_dialog
step-view ix f (adds uri d tenant) h e = elim (Option-cases (find d ix.dialog_to_uri)) [
  | inl none_at ↦
      ground (arith, h e, text_eq_iff d e, find-put d e (normalize_uri uri) ix.dialog_to_uri)
  | inr (old, at) ↦ ground (
    arith,
    h e,
    text_eq_iff d e,
    text_eq_iff old (normalize_uri uri),
    find-put d e (normalize_uri uri) ix.dialog_to_uri,
  )
]
step-view ix f (removes uri d) h e = ground (arith, h e, find-erase d e ix.dialog_to_uri)
step-view ix f (removes_dialog d) h e =
    ground (arith, h e, text_eq_iff d e, find-erase d e ix.dialog_to_uri)

run-IsConsistent :
    (ix : BlfSubscriptionIndex) (cs : List Call)
    → AgreesAll ix cs
    → IsConsistent ix
    → IsConsistent (run ix cs)
unfolding run
run-IsConsistent ix [] a v = v
run-IsConsistent ix (c ∷ cs) a v =
    run-IsConsistent (step ix c) cs a.1 (step-IsConsistent ix c a.0 v)

run-view :
    (ix : BlfSubscriptionIndex) (f : Spec) (cs : List Call)
    → ((e : Text) → find e ix.dialog_to_uri ≡ f e)
    → (e : Text) → find e (run ix cs).dialog_to_uri ≡ spec_run f cs e
unfolding run spec_run
run-view ix f [] h e = h e
run-view ix f (c ∷ cs) h e = run-view (step ix c) (spec_step f c) cs (step-view ix f c h) e

pub empty-IsConsistent : IsConsistent empty_index
unfolding watchers_at find entries_of
empty-IsConsistent = record { once = λ e u. refl; no_empty = λ u e. cc }

abbrev pub nowhere : Spec
nowhere e = none

-- After any history of additions and removals from the empty index, in which each `remove` names
-- the URI under which its dialog is indexed (or a dialog that is not indexed), `lookup` of a URI
-- lists a dialog exactly once if the history last left the dialog at the normal form of that URI,
-- and not at all otherwise.
pub lookup-run :
    (cs : List Call) (d uri : Text)
    → AgreesAll empty_index cs
    → entries_of d (lookup uri (run empty_index cs)) ≡ (elim (spec_run nowhere cs d) [
      | none ↦ 0
      | some u ↦ one_if (text_eq u (normalize_uri uri))
    ])
unfolding lookup
lookup-run cs d uri a = ground (
  arith,
  (run-IsConsistent empty_index cs a empty-IsConsistent).once d (normalize_uri uri),
  run-view empty_index nowhere cs (λ e. unfold find in refl) d,
)
