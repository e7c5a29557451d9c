-- ===== src/Subscription/Index/Stale.antt =====
-- `remove` under a URI other than the one that the dialog is indexed under.
use sip_event_processor.Prelude.{◌≡◌, ◌≢◌, some, Text, text_eq_iff, arith}
use sip_event_processor.Prelude.Map.{find, find-erase}
use sip_event_processor.Subscription.Uri.{normalize_uri}
use sip_event_processor.Subscription.Index.{
  BlfSubscriptionIndex, watchers_at, remove, remove_dialog,
}
use sip_event_processor.Subscription.Index.Consistent.{IsConsistent, entries_of, entries_of-drop}

-- In a consistent index, `remove` of a dialog under a URI whose normal form is not the one that
-- the dialog is indexed under leaves the dialog's watcher in place, and forgets where it is: a
-- later `remove_dialog` changes nothing.
pub remove_other_uri :
    (monitored_uri d uri : Text) (ix : BlfSubscriptionIndex)
    → IsConsistent ix
    → find d ix.dialog_to_uri ≡ some uri
    → normalize_uri monitored_uri ≢ uri
    → (entries_of d (watchers_at uri (remove monitored_uri d ix).uri_to_watchers) ≡ 1)
      × (remove_dialog d (remove monitored_uri d ix) ≡ remove monitored_uri d ix)
unfolding remove remove_dialog
remove_other_uri monitored_uri d uri ix v at ne = (
  ground (
    arith,
    v.once d uri,
    text_eq_iff uri uri,
    text_eq_iff (normalize_uri monitored_uri) uri,
    entries_of-drop (normalize_uri monitored_uri) uri d d ix.uri_to_watchers,
  ),
  ground (arith, find-erase d d ix.dialog_to_uri, text_eq_iff d d),
)
