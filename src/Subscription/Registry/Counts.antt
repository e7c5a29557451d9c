-- ===== src/Subscription/Registry/Counts.antt =====
-- The count that the registry keeps for each tenant is the number of its subscriptions.
use sip_event_processor.Prelude.{
  ℕ, ◌+◌, ◌-◌, ◌≡◌, ◌≢◌, refl, sym, ◌∙◌, inl, inr, Bool, some, List, [], ◌∷◌, Text, text_eq,
  text_eq_iff, length, arith, Option-cases, if◌then◌else◌,
}
use sip_event_processor.Prelude.Map.{
  Map, find, Distinct, find-put, find-erase, put-Distinct, erase-Distinct,
}
use sip_event_processor.Prelude.Map.Tally.{tally, tally-put_new, tally-put_old, tally-erase}
use sip_event_processor.Subscription.Registry.{
  SubscriptionInfo, SubscriptionRegistry, empty_registry, register_subscription,
  unregister_subscription, get_tenant_subscriptions, count_by_tenant, count_at, drop_count,
  values_if, lookup,
}

abbrev pub of_tenant : Text → SubscriptionInfo → Bool
of_tenant t info = text_eq info.tenant_id t

pub record IsConsistent (r : SubscriptionRegistry) : Type 0 where
  pub keys : Distinct r.subscriptions
  pub counts : (t : Text) → count_by_tenant t r ≡ tally (of_tenant t) r.subscriptions
  pub positive : (t : Text) → find t r.tenant_counts ≢ some 0

pub empty-IsConsistent : IsConsistent empty_registry
unfolding count_by_tenant find tally
empty-IsConsistent = record { keys = tt; counts = λ t. refl; positive = λ t e. cc }

-- A dialog that is registered again keeps its tenant.
abbrev pub KeepsTenant : Text → SubscriptionInfo → SubscriptionRegistry → Type 0
KeepsTenant dialog_id info r =
    (old : SubscriptionInfo) → lookup dialog_id r ≡ some old → old.tenant_id ≡ info.tenant_id

pub register-IsConsistent :
    (d : Text) (info : SubscriptionInfo) (r : SubscriptionRegistry)
    → KeepsTenant d info r
    → IsConsistent r
    → IsConsistent (register_subscription d info r)
unfolding register_subscription count_by_tenant lookup
register-IsConsistent d info r same v = elim (Option-cases (find d r.subscriptions)) [
  | inl e ↦
      rw (e, register_subscription)
        (record {
          keys = put-Distinct d info r.subscriptions v.keys;
          counts = λ t. ground (
            arith,
            tally-put_new (of_tenant t) d info r.subscriptions e,
            v.counts t,
            v.counts info.tenant_id,
            text_eq_iff info.tenant_id t,
            find-put info.tenant_id t (count_by_tenant info.tenant_id r + 1) r.tenant_counts,
          );
          positive = λ t. ground (
            arith,
            v.positive t,
            find-put info.tenant_id t (count_by_tenant info.tenant_id r + 1) r.tenant_counts,
          );
        })
  | inr (old, e) ↦
      rw (e, register_subscription)
        (record {
          keys = put-Distinct d info r.subscriptions v.keys;
          counts = λ t. ground (
            arith,
            tally-put_old (of_tenant t) d info old r.subscriptions e,
            v.counts t,
            same old e,
          );
          positive = v.positive;
        })
]

count_at-drop_count :
    (t j : Text) (m : Map ℕ)
    → count_at j (drop_count t m) ≡ (if text_eq t j then count_at t m - 1 else count_at j m)
unfolding drop_count
count_at-drop_count t j m = ground (
  arith,
  text_eq_iff t j,
  find-erase t j m,
  find-put t j (count_at t m - 1) m,
  find-put t j (count_at t m) m,
)

drop_count-positive :
    (t j : Text) (m : Map ℕ) → find j m ≢ some 0 → find j (drop_count t m) ≢ some 0
unfolding drop_count
drop_count-positive t j m h e =
    ground
      (arith, find-erase t j m, find-put t j (count_at t m - 1) m, find-put t j (count_at t m) m)

pub unregister-IsConsistent :
    (d : Text) (r : SubscriptionRegistry)
    → IsConsistent r
    → IsConsistent (unregister_subscription d r)
unfolding unregister_subscription count_by_tenant
unregister-IsConsistent d r v = elim (Option-cases (find d r.subscriptions)) [
  | inl e ↦ rw (e, unregister_subscription) v
  | inr (info, e) ↦
      rw (e, unregister_subscription)
        (record {
          keys = erase-Distinct d r.subscriptions v.keys;
          counts = λ t. ground (
            arith,
            tally-erase (of_tenant t) d info r.subscriptions v.keys e,
            v.counts t,
            text_eq_iff info.tenant_id t,
            count_at-drop_count info.tenant_id t r.tenant_counts,
          );
          positive = λ t. drop_count-positive info.tenant_id t r.tenant_counts (v.positive t);
        })
]

pub length-values_if :
    (t : Text) (m : Map SubscriptionInfo)
    → length (values_if (of_tenant t) m) ≡ tally (of_tenant t) m
unfolding values_if tally
length-values_if t [] = refl
length-values_if t ((k, info) ∷ m) = ground (arith, length-values_if t m)

-- In a consistent registry the count that the tenant limit is tested against is the number of
-- subscriptions that are listed for the tenant.
pub count_by_tenant-length :
    (t : Text) (r : SubscriptionRegistry)
    → IsConsistent r
    → count_by_tenant t r ≡ length (get_tenant_subscriptions t r)
unfolding get_tenant_subscriptions
count_by_tenant-length t r v = v.counts t ∙ sym (length-values_if t r.subscriptions)

-- A call that changes the registry.
pub data Call : Type 0 where
  registers : Text → SubscriptionInfo → Call
  unregisters : Text → Call

pub run : SubscriptionRegistry → List Call → SubscriptionRegistry
run r [] = r
run r (registers d info ∷ cs) = run (register_subscription d info r) cs
run r (unregisters d ∷ cs) = run (unregister_subscription d r) cs

-- Every registration of the history keeps the tenant of a dialog that is already registered.
abbrev pub KeepsTenants : SubscriptionRegistry → List Call → Type 0
KeepsTenants r [] = Unit {0}
KeepsTenants r (registers d info ∷ cs) =
    KeepsTenant d info r × KeepsTenants (register_subscription d info r) cs
KeepsTenants r (unregisters d ∷ cs) = KeepsTenants (unregister_subscription d r) cs

run-IsConsistent :
    (r : SubscriptionRegistry) (cs : List Call)
    → KeepsTenants r cs
    → IsConsistent r
    → IsConsistent (run r cs)
unfolding run
run-IsConsistent r [] k v = v
run-IsConsistent r (registers d info ∷ cs) k v =
    run-IsConsistent (register_subscription d info r) cs k.1 (register-IsConsistent d info r k.0 v)
run-IsConsistent r (unregisters d ∷ cs) k v =
    run-IsConsistent (unregister_subscription d r) cs k (unregister-IsConsistent d r v)

-- After any history of registrations and removals from the empty registry, in which a dialog that
-- is registered again keeps its tenant, the count of each tenant is the number of its listed
-- subscriptions, and no count of zero is stored.
pub tenant_counts_exact :
    (cs : List Call) (t : Text)
    → KeepsTenants empty_registry cs
    → (count_by_tenant t (run empty_registry cs)
        ≡ length (get_tenant_subscriptions t (run empty_registry cs)))
      × (find t (run empty_registry cs).tenant_counts ≢ some 0)
tenant_counts_exact cs t k =
    let v = run-IsConsistent empty_registry cs k empty-IsConsistent in
    (count_by_tenant-length t (run empty_registry cs) v, v.positive t)
