-- ===== src/Subscription/Index/Consistent.antt =====
-- The two tables of the index agree: a dialog stands once under the URI that it is mapped to, and
-- nowhere else.
use sip_event_processor.Prelude.{
  ℕ, ◌+◌, ◌≡◌, ◌≢◌, Bool, false, not, none, some, List, [], ◌∷◌, ◌++◌, Text, text_eq, text_eq_iff,
  is_empty, keep_if, arith, Option-cases, ◌&&◌, ◌||◌, Bool-cases, inl, inr, if◌then◌else◌,
}
use sip_event_processor.Prelude.Map.{Map, find, put, find-put, find-erase}
use sip_event_processor.Prelude.Map.Tally.{one_if}
use sip_event_processor.Subscription.Index.{
  BlfWatcher, BlfSubscriptionIndex, watchers_at, without, drop_watcher, push_watcher, add,
  remove_dialog,
}
use sip_event_processor.Subscription.Uri.{normalize_uri}

-- How many entries a dialog has in a list of watchers.
unfoldable pub entries_of : Text → List BlfWatcher → ℕ
entries_of d [] = 0
entries_of d (w ∷ ws) = one_if (text_eq w.dialog_id d) + entries_of d ws

-- The index maps `d` to `uri`.
abbrev pub mapped_to : Text → Text → BlfSubscriptionIndex → Bool
mapped_to d uri ix = elim (find d ix.dialog_to_uri) [ none ↦ false | some u ↦ text_eq u uri ]

pub record IsConsistent (ix : BlfSubscriptionIndex) : Type 0 where
  pub once :
      (d uri : Text)
      → entries_of d (watchers_at uri ix.uri_to_watchers) ≡ one_if (mapped_to d uri ix)
  pub no_empty : (uri : Text) → find uri ix.uri_to_watchers ≢ some []

entries_of-append :
    (d : Text) (ws vs : List BlfWatcher)
    → entries_of d (ws ++ vs) ≡ entries_of d ws + entries_of d vs
unfolding entries_of
entries_of-append d [] vs = ground arith
entries_of-append d (w ∷ ws) vs = ground (arith, entries_of-append d ws vs)

entries_of-without :
    (d e : Text) (ws : List BlfWatcher)
    → entries_of e (without d ws) ≡ (if text_eq d e then 0 else entries_of e ws)
unfolding entries_of without keep_if
entries_of-without d e [] = ground arith
entries_of-without d e (w ∷ ws) = ground (
  arith,
  entries_of-without d e ws,
  text_eq_iff d e,
  text_eq_iff w.dialog_id d,
  text_eq_iff w.dialog_id e,
)

watchers_at-push :
    (uri v : Text) (w : BlfWatcher) (m : Map (List BlfWatcher))
    → watchers_at v (push_watcher uri w m)
      ≡ (if text_eq uri v then watchers_at uri m ++ w ∷ [] else watchers_at v m)
unfolding watchers_at push_watcher
watchers_at-push uri v w m = ground (arith, find-put uri v (watchers_at uri m ++ w ∷ []) m)

watchers_at-drop :
    (uri v d : Text) (m : Map (List BlfWatcher))
    → watchers_at v (drop_watcher uri d m)
      ≡ (if text_eq uri v then without d (watchers_at uri m) else watchers_at v m)
unfolding watchers_at drop_watcher
watchers_at-drop uri v d m = elim (Option-cases (find uri m)) [
  | inl e ↦ rw (e, drop_watcher) (unfold without keep_if in ground (arith, text_eq_iff uri v))
  | inr (ws, e) ↦
      rw (e, drop_watcher)
        (ground (arith, text_eq_iff uri v, find-put uri v (without d ws) m, find-erase uri v m))
]

push_watcher-no_empty :
    (uri v : Text) (w : BlfWatcher) (m : Map (List BlfWatcher))
    → find v m ≢ some []
    → find v (push_watcher uri w m) ≢ some []
unfolding push_watcher
push_watcher-no_empty uri v w m h e =
    ground (arith, find-put uri v (watchers_at uri m ++ w ∷ []) m, snoc-ne-nil (watchers_at uri m))
  where
    snoc-ne-nil : (ws : List BlfWatcher) → ws ++ w ∷ [] ≢ []
    snoc-ne-nil [] p = cc
    snoc-ne-nil (x ∷ ws) p = cc

pub drop_watcher-no_empty :
    (uri v d : Text) (m : Map (List BlfWatcher))
    → find v m ≢ some []
    → find v (drop_watcher uri d m) ≢ some []
unfolding drop_watcher
drop_watcher-no_empty uri v d m h e = elim (Option-cases (find uri m)) [
  | inl none_at ↦ h (rw (none_at, drop_watcher) at e)
  | inr (ws, at) ↦ ground (arith, find-put uri v (without d ws) m, find-erase uri v m)
]

pub entries_of-drop :
    (uri v d e : Text) (m : Map (List BlfWatcher))
    → entries_of e (watchers_at v (drop_watcher uri d m))
      ≡ (if text_eq uri v && text_eq d e then 0 else entries_of e (watchers_at v m))
entries_of-drop uri v d e m = ground (
  arith,
  watchers_at-drop uri v d m,
  text_eq_iff uri v,
  entries_of-without d e (watchers_at uri m),
)

pub entries_of-push :
    (uri v e : Text) (w : BlfWatcher) (m : Map (List BlfWatcher))
    → entries_of e (watchers_at v (push_watcher uri w m))
      ≡ one_if (text_eq uri v && text_eq w.dialog_id e) + entries_of e (watchers_at v m)
unfolding entries_of
entries_of-push uri v e w m = ground (
  arith,
  watchers_at-push uri v w m,
  text_eq_iff uri v,
  entries_of-append e (watchers_at uri m) (w ∷ []),
)

-- An entry is added for a dialog that has none.
link-IsConsistent :
    (uri d tenant : Text) (m : Map (List BlfWatcher)) (ix : BlfSubscriptionIndex)
    → ((e u : Text)
        → entries_of e (watchers_at u m) ≡ one_if (mapped_to e u ix && not (text_eq d e)))
    → ((u : Text) → find u m ≢ some [])
    → IsConsistent (record {
      uri_to_watchers = push_watcher uri (record { dialog_id = d; tenant_id = tenant }) m;
      dialog_to_uri = put d uri ix.dialog_to_uri;
    })
link-IsConsistent uri d tenant m ix once no_empty = record {
  once = λ e u. ground (
    arith,
    once e u,
    text_eq_iff d e,
    find-put d e uri ix.dialog_to_uri,
    entries_of-push uri u e (record { dialog_id = d; tenant_id = tenant }) m,
  );
  no_empty = λ u. push_watcher-no_empty uri u _ m (no_empty u);
}

pub add-IsConsistent :
    (monitored_uri d tenant : Text) (ix : BlfSubscriptionIndex)
    → IsConsistent ix
    → IsConsistent (add monitored_uri d tenant ix)
unfolding add
add-IsConsistent monitored_uri d tenant ix v =
    elim (Bool-cases (is_empty monitored_uri || is_empty d)) [
      | inl e ↦ rw e v
      | inr e ↦ rw e (elim (Option-cases (find d ix.dialog_to_uri)) [
        | inl none_at ↦
            rw (none_at, add)
              (link-IsConsistent (normalize_uri monitored_uri) d tenant ix.uri_to_watchers ix
                (λ e u. ground (arith, v.once e u, text_eq_iff d e)) v.no_empty)
        | inr (old, at) ↦
            rw (at, add)
              (elim (Bool-cases (text_eq old (normalize_uri monitored_uri))) [
                | inl same ↦ rw same v
                | inr moved ↦ rw moved (
                    link-IsConsistent (normalize_uri monitored_uri) d tenant
                      (drop_watcher old d ix.uri_to_watchers) ix
                      (λ e u. ground (
                        arith,
                        v.once e u,
                        text_eq_iff d e,
                        entries_of-drop old u d e ix.uri_to_watchers,
                      ))
                      (λ u. drop_watcher-no_empty old u d ix.uri_to_watchers (v.no_empty u)))
              ])
      ])
    ]

pub remove_dialog-IsConsistent :
    (d : Text) (ix : BlfSubscriptionIndex) → IsConsistent ix → IsConsistent (remove_dialog d ix)
unfolding remove_dialog
remove_dialog-IsConsistent d ix v = elim (Option-cases (find d ix.dialog_to_uri)) [
  | inl e ↦ rw (e, remove_dialog) v
  | inr (uri, at) ↦
      rw (at, remove_dialog)
        (record {
          once = λ e u. ground (
            arith,
            entries_of-drop uri u d e ix.uri_to_watchers,
            find-erase d e ix.dialog_to_uri,
            v.once e u,
            text_eq_iff d e,
            text_eq_iff uri u,
          );
          no_empty = λ u. drop_watcher-no_empty uri u d ix.uri_to_watchers (v.no_empty u);
        })
]
