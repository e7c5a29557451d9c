-- ===== src/Subscription/Index.antt =====
-- BlfSubscriptionIndex of include/subscription/blf_subscription_index.h and
-- src/subscription/blf_subscription_index.cpp. Each method holds the lock throughout. The two
-- structs WatcherEntry and BlfWatcher have the same fields and are one record.
pub mod Consistent
pub mod Refine
pub mod Stale
use sip_event_processor.Prelude.{
  ℕ, ◌+◌, not, ◌||◌, none, some, List, [], ◌∷◌, ◌++◌, Text, text_eq, length, is_empty, keep_if,
  if◌then◌else◌,
}
use sip_event_processor.Prelude.Map.{Map, find, put, erase}
use sip_event_processor.Subscription.Uri.{normalize_uri}

pub record BlfWatcher : Type 0 where
  pub dialog_id : Text
  pub tenant_id : Text

pub record BlfSubscriptionIndex : Type 0 where
  pub uri_to_watchers : Map (List BlfWatcher)
  pub dialog_to_uri : Map Text

abbrev pub empty_index : BlfSubscriptionIndex
empty_index = record { uri_to_watchers = []; dialog_to_uri = [] }

-- The entries of a URI; a missing one reads as the empty vector.
pub watchers_at : Text → Map (List BlfWatcher) → List BlfWatcher
watchers_at uri m = elim (find uri m) [ none ↦ [] | some ws ↦ ws ]

-- erase(remove_if(… dialog_id == d …))
pub without : Text → List BlfWatcher → List BlfWatcher
without d = keep_if (λ w. not (text_eq w.dialog_id d))

-- The removal of a dialog from one URI, whose entry goes with its last watcher.
pub drop_watcher : Text → Text → Map (List BlfWatcher) → Map (List BlfWatcher)
drop_watcher uri d m = elim (find uri m) [
  | none ↦ m
  | some ws ↦ let rest = without d ws in if is_empty rest then erase uri m else put uri rest m
]

pub push_watcher : Text → BlfWatcher → Map (List BlfWatcher) → Map (List BlfWatcher)
push_watcher uri w m = put uri (watchers_at uri m ++ w ∷ []) m

unfoldable pub add : Text → Text → Text → BlfSubscriptionIndex → BlfSubscriptionIndex
unfolding drop_watcher push_watcher
add monitored_uri d tenant ix =
    if is_empty monitored_uri || is_empty d
    then ix
    else let uri = normalize_uri monitored_uri in
      let w : BlfWatcher = record { dialog_id = d; tenant_id = tenant } in
      elim (find d ix.dialog_to_uri) [
        | none ↦ record {
          uri_to_watchers = push_watcher uri w ix.uri_to_watchers;
          dialog_to_uri = put d uri ix.dialog_to_uri;
        }
        | some old ↦ if text_eq old uri then ix else record {
          uri_to_watchers = push_watcher uri w (drop_watcher old d ix.uri_to_watchers);
          dialog_to_uri = put d uri ix.dialog_to_uri;
        }
      ]

unfoldable pub remove : Text → Text → BlfSubscriptionIndex → BlfSubscriptionIndex
unfolding drop_watcher
remove monitored_uri d ix = record {
  uri_to_watchers = drop_watcher (normalize_uri monitored_uri) d ix.uri_to_watchers;
  dialog_to_uri = erase d ix.dialog_to_uri;
}

unfoldable pub remove_dialog : Text → BlfSubscriptionIndex → BlfSubscriptionIndex
unfolding drop_watcher
remove_dialog d ix = elim (find d ix.dialog_to_uri) [
  | none ↦ ix
  | some uri ↦ record {
    uri_to_watchers = drop_watcher uri d ix.uri_to_watchers;
    dialog_to_uri = erase d ix.dialog_to_uri;
  }
]

unfoldable pub lookup : Text → BlfSubscriptionIndex → List BlfWatcher
unfolding watchers_at
lookup monitored_uri ix = watchers_at (normalize_uri monitored_uri) ix.uri_to_watchers

unfoldable pub lookup_tenant : Text → Text → BlfSubscriptionIndex → List BlfWatcher
unfolding watchers_at
lookup_tenant monitored_uri tenant ix =
    keep_if (λ w. text_eq w.tenant_id tenant)
      (watchers_at (normalize_uri monitored_uri) ix.uri_to_watchers)

pub monitored_uri_count : BlfSubscriptionIndex → ℕ
monitored_uri_count ix = length ix.uri_to_watchers

sum_watchers : Map (List BlfWatcher) → ℕ
sum_watchers [] = 0
sum_watchers ((uri, ws) ∷ m) = length ws + sum_watchers m

pub total_watcher_count : BlfSubscriptionIndex → ℕ
unfolding sum_watchers
total_watcher_count ix = sum_watchers ix.uri_to_watchers
