-- ===== src/Subscription/Registry/Drift.antt =====
-- A dialog that is registered again under another tenant: the counts are not moved.
use sip_event_processor.Prelude.{◌+◌, ◌≡◌, ◌≢◌, some, Text, text_eq_iff, length, arith}
use sip_event_processor.Prelude.Map.Tally.{tally-put_old}
use sip_event_processor.Prelude.Map.{put}
use sip_event_processor.Subscription.Registry.{
  SubscriptionInfo, SubscriptionRegistry, register_subscription, get_tenant_subscriptions,
  count_by_tenant, lookup,
}
use sip_event_processor.Subscription.Registry.Counts.{IsConsistent, of_tenant, length-values_if}

-- From a consistent registry, registering a dialog again under another tenant leaves the new
-- tenant's count one below the number of its listed subscriptions.
pub register_other_tenant :
    (d : Text) (info old : SubscriptionInfo) (r : SubscriptionRegistry)
    → IsConsistent r
    → lookup d r ≡ some old
    → old.tenant_id ≢ info.tenant_id
    → length (get_tenant_subscriptions info.tenant_id (register_subscription d info r))
      ≡ count_by_tenant info.tenant_id (register_subscription d info r) + 1
unfolding register_subscription count_by_tenant lookup get_tenant_subscriptions
register_other_tenant d info old r v e ne = ground (
  arith,
  tally-put_old (of_tenant info.tenant_id) d info old r.subscriptions,
  v.counts info.tenant_id,
  text_eq_iff old.tenant_id info.tenant_id,
  text_eq_iff info.tenant_id info.tenant_id,
  length-values_if info.tenant_id (put d info r.subscriptions),
)
