-- ===== src/Dispatch/Worker/Cleanup.antt =====
-- What the cleanup removes, and what it leaves.
use sip_event_processor.Prelude.{
  by_test, sym, subst, ℕ, ◌≡◌, refl, Bool, false, is_empty, ◌&&◌, ◌||◌, Option, none, some, [], ◌∷◌,
  Text, text_eq, text_eq_iff, arith, if◌then◌else◌,
}
use sip_event_processor.Prelude.Map.{Map, find, Distinct, find-erase}
use sip_event_processor.Subscription.Registry.{
  SubscriptionRegistry, SubscriptionInfo, unregister_subscription,
}
use sip_event_processor.Subscription.Registry
use sip_event_processor.Subscription.Index.{remove_dialog, lookup}
use sip_event_processor.Subscription.Uri.{normalize_uri}
use sip_event_processor.Subscription.Index.Consistent.{
  IsConsistent, entries_of, remove_dialog-IsConsistent,
}
use sip_event_processor.Types.{type_eq, lifecycle_eq, SubscriptionType, SubLifecycle}
use sip_event_processor.Subscription.Record.{is_expired}
use sip_event_processor.Dispatch.World.{World, deindex_blf_subscription}
use sip_event_processor.Dispatch.Worker.State.{DialogContext, Shared, Worker}
use sip_event_processor.Dispatch.Worker.Send.{release_nua_handle}
use sip_event_processor.Dispatch.Worker.Loop.{
  removable, forget_dialog, sweep, cleanup_terminated_dialogs,
}

-- A dialog that is over: no event waits, and it is terminated or past its expiry.
abbrev pub is_over : ℕ → DialogContext → Bool
is_over now ctx =
    is_empty ctx.event_queue
    && (lifecycle_eq ctx.rec.lifecycle SubLifecycle.terminated || is_expired now ctx.rec)

-- The entry that a sweep leaves of an entry.
abbrev pub kept : ℕ → Option DialogContext → Option DialogContext
kept now none = none
kept now (some ctx) = if is_over now ctx then none else some ctx

find-sweep :
    (now : ℕ) (d : Text) (m : Map DialogContext) (shared : Shared)
    → Distinct m
    → find d (sweep now m shared).0 ≡ kept now (find d m)
unfolding find sweep
find-sweep now d [] shared k = refl
find-sweep now d ((did, ctx) ∷ m) shared k = ground (
  arith,
  text_eq_iff did d,
  find-sweep now d m (forget_dialog did ctx shared),
  find-sweep now d m shared,
)

registry-forget_dialog :
    (did : Text) (ctx : DialogContext) (shared : Shared)
    → (forget_dialog did ctx shared).world.registry
      ≡ unregister_subscription did shared.world.registry
unfolding forget_dialog release_nua_handle deindex_blf_subscription
registry-forget_dialog did ctx shared = ground arith

lookup-unregister :
    (d j : Text) (r : SubscriptionRegistry)
    → Registry.lookup j (unregister_subscription d r)
      ≡ (if text_eq d j then none else Registry.lookup j r)
unfolding Registry.lookup unregister_subscription
lookup-unregister d j r = ground (arith, text_eq_iff d j, find-erase d j r.subscriptions)

-- Whether a sweep removes a dialog of the table.
abbrev pub is_removed : ℕ → Option DialogContext → Bool
is_removed now none = false
is_removed now (some ctx) = is_over now ctx

lookup-sweep :
    (now : ℕ) (d : Text) (m : Map DialogContext) (shared : Shared)
    → Distinct m
    → Registry.lookup d (sweep now m shared).1.world.registry
      ≡ (if is_removed now (find d m) then none else Registry.lookup d shared.world.registry)
unfolding find sweep
lookup-sweep now d [] shared k = refl
lookup-sweep now d ((did, ctx) ∷ m) shared k = ground (
  arith,
  text_eq_iff did d,
  lookup-sweep now d m (forget_dialog did ctx shared),
  lookup-sweep now d m shared,
  registry-forget_dialog did ctx shared,
  lookup-unregister did d shared.world.registry,
)

abbrev pub uri_of : Text → World → Option Text
uri_of d w = find d w.index.dialog_to_uri

uri_of-forget_dialog :
    (did d : Text) (ctx : DialogContext) (shared : Shared)
    → uri_of d (forget_dialog did ctx shared).world ≡ (
        if type_eq ctx.rec.type SubscriptionType.blf && text_eq did d
        then none
        else uri_of d shared.world)
unfolding forget_dialog release_nua_handle deindex_blf_subscription remove_dialog
uri_of-forget_dialog did d ctx shared =
    ground (arith, text_eq_iff did d, find-erase did d shared.world.index.dialog_to_uri)

abbrev pub is_removed_blf : ℕ → Option DialogContext → Bool
is_removed_blf now none = false
is_removed_blf now (some ctx) = is_over now ctx && type_eq ctx.rec.type SubscriptionType.blf

uri_of-sweep :
    (now : ℕ) (d : Text) (m : Map DialogContext) (shared : Shared)
    → Distinct m
    → uri_of d (sweep now m shared).1.world
      ≡ (if is_removed_blf now (find d m) then none else uri_of d shared.world)
unfolding find sweep
uri_of-sweep now d [] shared k = refl
uri_of-sweep now d ((did, ctx) ∷ m) shared k = ground (
  arith,
  text_eq_iff did d,
  uri_of-sweep now d m (forget_dialog did ctx shared),
  uri_of-sweep now d m shared,
  uri_of-forget_dialog did d ctx shared,
)

index_of-forget_dialog :
    (did : Text) (ctx : DialogContext) (shared : Shared)
    → (forget_dialog did ctx shared).world.index ≡ (
        if type_eq ctx.rec.type SubscriptionType.blf
        then remove_dialog did shared.world.index
        else shared.world.index)
unfolding forget_dialog release_nua_handle deindex_blf_subscription
index_of-forget_dialog did ctx shared = ground arith

index-forget_dialog :
    (did : Text) (ctx : DialogContext) (shared : Shared)
    → IsConsistent shared.world.index
    → IsConsistent (forget_dialog did ctx shared).world.index
index-forget_dialog did ctx shared v =
    subst IsConsistent (sym (index_of-forget_dialog did ctx shared)) (
      by_test IsConsistent (type_eq ctx.rec.type SubscriptionType.blf) _ _
        (remove_dialog-IsConsistent did shared.world.index v) v)

index-sweep :
    (now : ℕ) (m : Map DialogContext) (shared : Shared)
    → IsConsistent shared.world.index
    → IsConsistent (sweep now m shared).1.world.index
unfolding sweep
index-sweep now [] shared v = v
index-sweep now ((did, ctx) ∷ m) shared v = index-sweep now m _ (
    by_test (λ (s : Shared). IsConsistent s.world.index) (removable now ctx) _ _
      (index-forget_dialog did ctx shared v) v)

-- How often the watchers that the index lists for a URI name a dialog.
abbrev pub watched : Text → Text → World → ℕ
watched d uri w = entries_of d (lookup uri w.index)

watched-sweep :
    (now : ℕ) (d uri : Text) (m : Map DialogContext) (shared : Shared)
    → Distinct m
    → IsConsistent shared.world.index
    → watched d uri (sweep now m shared).1.world
      ≡ (if is_removed_blf now (find d m) then 0 else watched d uri shared.world)
unfolding lookup
watched-sweep now d uri m shared k v = ground (
  arith,
  v.once d (normalize_uri uri),
  (index-sweep now m shared v).once d (normalize_uri uri),
  uri_of-sweep now d m shared k,
)

-- In a worker whose dialogs have distinct identifiers, and whose index is consistent, the cleanup
-- removes exactly the dialogs with no waiting event that are terminated or past their expiry, and
-- leaves every other one as it is; a dialog that it removes is no longer registered, and if it is a
-- BLF dialog it has no URI in the index and is a watcher of no URI; the registration and the index
-- entries of any other dialog stay; and the index is consistent.
pub cleanup-exact :
    (now : ℕ) (d uri : Text) (w : Worker)
    → Distinct w.dialogs
    → IsConsistent w.shared.world.index
    → let w' = cleanup_terminated_dialogs now w in
      (find d w'.dialogs ≡ kept now (find d w.dialogs))
      × (Registry.lookup d w'.shared.world.registry ≡ (
          if is_removed now (find d w.dialogs)
          then none
          else Registry.lookup d w.shared.world.registry))
      × (uri_of d w'.shared.world
          ≡ (if is_removed_blf now (find d w.dialogs) then none else uri_of d w.shared.world))
      × (watched d uri w'.shared.world
          ≡ (if is_removed_blf now (find d w.dialogs) then 0 else watched d uri w.shared.world))
      × IsConsistent w'.shared.world.index
unfolding cleanup_terminated_dialogs
cleanup-exact now d uri w k v = (
  ground (arith, find-sweep now d w.dialogs w.shared),
  ground (arith, lookup-sweep now d w.dialogs w.shared),
  ground (arith, uri_of-sweep now d w.dialogs w.shared),
  ground (arith, watched-sweep now d uri w.dialogs w.shared),
  by_test (λ (x : Worker). IsConsistent x.shared.world.index) _ _ _
      (index-sweep now w.dialogs w.shared v) (index-sweep now w.dialogs w.shared v),
)
