-- ===== src/Subscription/Registry.antt =====
-- SubscriptionRegistry of include/subscription/subscription_state.h and
-- src/subscription/subscription_state.cpp. Each method holds the mutex throughout, so it is one
-- function on the state. Sizes and counts of entries do not wrap.
pub mod Counts
pub mod Drift
use sip_event_processor.Prelude.{
  ℕ, ◌+◌, ◌-◌, Bool, Option, none, some, List, [], ◌∷◌, Text, text_eq, length, ltb, ◌==◌,
  if◌then◌else◌,
}
use sip_event_processor.Prelude.Map.{Map, find, put, erase}
use sip_event_processor.Types.{SubscriptionType, SubLifecycle, type_eq}

pub record SubscriptionInfo : Type 0 where
  pub dialog_id : Text
  pub tenant_id : Text
  pub type : SubscriptionType
  pub lifecycle : SubLifecycle
  pub last_activity : ℕ
  pub worker_index : ℕ

pub record SubscriptionRegistry : Type 0 where
  pub subscriptions : Map SubscriptionInfo
  pub tenant_counts : Map ℕ

abbrev pub empty_registry : SubscriptionRegistry
empty_registry = record { subscriptions = []; tenant_counts = [] }

abbrev pub count_at : Text → Map ℕ → ℕ
count_at t m = elim (find t m) [ none ↦ 0 | some c ↦ c ]

unfoldable pub register_subscription :
    Text → SubscriptionInfo → SubscriptionRegistry → SubscriptionRegistry
register_subscription dialog_id info r = elim (find dialog_id r.subscriptions) [
  | none ↦ record {
    subscriptions = put dialog_id info r.subscriptions;
    tenant_counts =
        put info.tenant_id (count_at info.tenant_id r.tenant_counts + 1) r.tenant_counts;
  }
  | some _ ↦ record r { subscriptions = put dialog_id info r.subscriptions }
]

-- The entry is lowered if it is positive, and erased if it is then zero.
drop_count : Text → Map ℕ → Map ℕ
drop_count t m = elim (find t m) [
  | none ↦ m
  | some c ↦ let c' = if ltb 0 c then c - 1 else c in if c' == 0 then erase t m else put t c' m
]

unfoldable pub unregister_subscription : Text → SubscriptionRegistry → SubscriptionRegistry
unfolding drop_count
unregister_subscription dialog_id r = elim (find dialog_id r.subscriptions) [
  | none ↦ r
  | some info ↦ record {
    subscriptions = erase dialog_id r.subscriptions;
    tenant_counts = drop_count info.tenant_id r.tenant_counts;
  }
]

unfoldable pub lookup : Text → SubscriptionRegistry → Option SubscriptionInfo
lookup dialog_id r = find dialog_id r.subscriptions

pub values_if : (SubscriptionInfo → Bool) → Map SubscriptionInfo → List SubscriptionInfo
values_if p [] = []
values_if p ((k, info) ∷ m) = let rest = values_if p m in if p info then info ∷ rest else rest

pub get_tenant_subscriptions : Text → SubscriptionRegistry → List SubscriptionInfo
unfolding values_if
get_tenant_subscriptions tenant r =
    values_if (λ info. text_eq info.tenant_id tenant) r.subscriptions

values : Map SubscriptionInfo → List SubscriptionInfo
values [] = []
values ((k, info) ∷ m) = info ∷ values m

unfoldable pub get_all : SubscriptionRegistry → List SubscriptionInfo
unfolding values
get_all r = values r.subscriptions

pub total_count : SubscriptionRegistry → ℕ
total_count r = length r.subscriptions

count_type : SubscriptionType → Map SubscriptionInfo → ℕ
count_type t [] = 0
count_type t ((k, info) ∷ m) = (if type_eq info.type t then 1 else 0) + count_type t m

pub count_by_type : SubscriptionType → SubscriptionRegistry → ℕ
unfolding count_type
count_by_type t r = count_type t r.subscriptions

unfoldable pub count_by_tenant : Text → SubscriptionRegistry → ℕ
count_by_tenant tenant r = count_at tenant r.tenant_counts
