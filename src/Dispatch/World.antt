-- ===== src/Dispatch/World.antt =====
-- What a worker shares with the other components: the two process-wide tables, the slow-event
-- logger, and the calls that it makes of the SIP stack and of the subscription store. A call is
-- recorded with its arguments, the latest last; the components read such lists of calls.
use sip_event_processor.Prelude.{
  ℕ, Bool, not, ◌||◌, List, [], ◌∷◌, ◌++◌, Text, is_empty, if◌then◌else◌,
}
use sip_event_processor.Types.{SubscriptionType, SubLifecycle, type_eq, lifecycle_eq}
use sip_event_processor.SlowEventLogger.{SlowEventLogger}
use sip_event_processor.Subscription.Record.{SubscriptionRecord}
use sip_event_processor.Subscription.Registry.{SubscriptionRegistry}
use sip_event_processor.Subscription.Index.{BlfSubscriptionIndex, add, remove_dialog}

-- SipStackManager::respond_to_subscribe and ::send_notify, and Sofia's nua_handle_unref.
pub data SipCall : Type 0 where
  respond_to_subscribe : ℕ → ℕ → Text → ℕ → SipCall
  send_notify : ℕ → Text → Text → Text → Text → SipCall
  handle_unref : ℕ → SipCall

-- The methods of SubscriptionStore that a worker calls.
pub data StoreCall : Type 0 where
  save_immediately queue_upsert : SubscriptionRecord → StoreCall
  queue_delete : Text → StoreCall

-- `has_stack` and `has_store` tell whether the pointers are null.
pub record World : Type 0 where
  pub index : BlfSubscriptionIndex
  pub registry : SubscriptionRegistry
  pub slow_logger : SlowEventLogger
  pub has_stack : Bool
  pub has_store : Bool
  pub store_enabled : Bool
  pub sip_calls : List SipCall
  pub store_calls : List StoreCall

abbrev pub sip_call : SipCall → World → World
sip_call c w = record w { sip_calls = w.sip_calls ++ c ∷ [] }

abbrev pub store_call : StoreCall → World → World
store_call c w = record w { store_calls = w.store_calls ++ c ∷ [] }

-- if (sub_store_) sub_store_->queue_delete(did)
abbrev pub delete_later : Text → World → World
delete_later did w = if w.has_store then store_call (queue_delete did) w else w

unfoldable pub persist_record : SubscriptionRecord → Bool → World → World
persist_record rec immediate w =
    if not w.has_store || not w.store_enabled
    then w
    else if immediate
    then store_call (save_immediately rec) w
    else store_call (queue_upsert rec) w

unfoldable pub index_blf_subscription : Text → SubscriptionRecord → World → World
index_blf_subscription did rec w =
    if not (type_eq rec.type SubscriptionType.blf) || is_empty rec.blf_monitored_uri
    then w
    else if not (lifecycle_eq rec.lifecycle SubLifecycle.active)
    then w
    else record w { index = add rec.blf_monitored_uri did rec.tenant_id w.index }

unfoldable pub deindex_blf_subscription : Text → SubscriptionRecord → World → World
deindex_blf_subscription did rec w =
    if not (type_eq rec.type SubscriptionType.blf)
    then w
    else record w { index = remove_dialog did w.index }
