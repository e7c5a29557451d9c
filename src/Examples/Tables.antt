-- ===== src/Examples/Tables.antt =====
-- The names, the counts of slow events, the registry, the index and the servers' health.
use sip_event_processor.Prelude.{
  ℕ, ◌+◌, ◌≡◌, ◌≢◌, refl, true, false, some, List, [], ◌∷◌, length, text_eq, codes, starts_with,
  to_lower, arith,
}
use sip_event_processor.Prelude.Map.{find, put, erase}
use sip_event_processor.Subscription.Registry.{
  SubscriptionRegistry, empty_registry, register_subscription, lookup, count_by_tenant,
  get_tenant_subscriptions,
}
use sip_event_processor.Subscription.Registry.Counts.{
  Call, registers, unregisters, run, KeepsTenant, KeepsTenants, tenant_counts_exact,
}
use sip_event_processor.Subscription.Index.{
  BlfSubscriptionIndex, empty_index, add, watchers_at, remove, remove_dialog,
}
use sip_event_processor.Subscription.Index.Consistent.{entries_of}
use sip_event_processor.Subscription.Index.Refine.{
  adds, removes, removes_dialog, step, AgreesAll, Agrees, lookup-run,
}
use sip_event_processor.Subscription.Index.Refine
use sip_event_processor.Subscription.Index
use sip_event_processor.Subscription.Uri.{normalize_uri}
use sip_event_processor.Subscription.Uri.Examples.{normal_plain, normal_other}
use sip_event_processor.Config.{FailoverStrategy}
use sip_event_processor.Presence.Failover.Choice.{select_by_strategy-free}
use sip_event_processor.Presence.Failover.{
  ServerHealth, PresenceFailoverManager, new_health, is_free, at_test, select_by_strategy,
  select_round_robin, scan_ring, is_in_cooldown,
}
use sip_event_processor.Presence.Failover.Backoff.{Report, success, failure, notes, notes-streak}
use sip_event_processor.Types.{seconds}
use sip_event_processor.Examples.Data.{
  first_dialog, second_dialog, tenant, monitored, other_uri, info_of,
}

abbrev durations : List ℕ
durations = 60 ∷ 150 ∷ 20 ∷ 700 ∷ 510 ∷ []

abbrev registrations : List Call
registrations =
    registers first_dialog (info_of first_dialog tenant)
    ∷ registers second_dialog (info_of second_dialog tenant)
    ∷ registers first_dialog (info_of first_dialog tenant)
    ∷ unregisters second_dialog
    ∷ []

registrations-KeepsTenants : KeepsTenants empty_registry registrations
unfolding register_subscription lookup find put text_eq
registrations-KeepsTenants = (λ old e. cc, (λ old e. cc, (λ old e. ground (arith, e), tt)))

tenant_counts_exact_example :
    (count_by_tenant tenant (run empty_registry registrations)
      ≡ length (get_tenant_subscriptions tenant (run empty_registry registrations)))
    × (find tenant (run empty_registry registrations).tenant_counts ≢ some 0)
tenant_counts_exact_example = tenant_counts_exact registrations tenant registrations-KeepsTenants

abbrev registered : SubscriptionRegistry
registered = register_subscription first_dialog (info_of first_dialog tenant) empty_registry

first-KeepsTenant : KeepsTenant first_dialog (info_of first_dialog tenant) empty_registry
unfolding lookup find
first-KeepsTenant = λ old e. cc

first-lookup : lookup first_dialog registered ≡ some (info_of first_dialog tenant)
unfolding register_subscription lookup find put text_eq
first-lookup = refl

abbrev watched : BlfSubscriptionIndex
watched = add monitored first_dialog tenant empty_index

abbrev calls : List Refine.Call
calls =
    adds monitored second_dialog tenant
    ∷ removes_dialog second_dialog
    ∷ adds monitored first_dialog tenant
    ∷ removes monitored first_dialog
    ∷ adds monitored first_dialog tenant
    ∷ []

calls-AgreesAll : AgreesAll empty_index calls
unfolding step add remove_dialog find put erase text_eq
calls-AgreesAll = (tt, (tt, (tt, (λ uri e. ground (arith, e), (tt, tt)))))

lookup-run_example :
    entries_of first_dialog (Index.lookup monitored (Refine.run empty_index calls)) ≡ 1
unfolding Refine.spec_run text_eq normalize_uri starts_with codes to_lower
lookup-run_example = lookup-run calls first_dialog monitored calls-AgreesAll

watched-find : find first_dialog watched.dialog_to_uri ≡ some (normalize_uri monitored)
unfolding add find put text_eq
watched-find = refl

normal_forms : normalize_uri other_uri ≢ normalize_uri monitored
unfolding codes
normal_forms e = ground (arith, rw (normal_other, normal_plain) at e)

abbrev server : ServerHealth
server = new_health (record { host = 104 ∷ []; port = 9000; priority = 1; weight = 1 })

abbrev reports : List Report
reports = failure 5 ∷ success 9 ∷ failure 10 ∷ failure 20 ∷ failure 30 ∷ []

notes-streak_example :
    ((notes 10 reports server).consecutive_failures ≡ 3)
    × ((notes 10 reports server).is_healthy ≡ false)
    × ((notes 10 reports server).cooldown_until ≡ 30 + seconds 30)
notes-streak_example = notes-streak 10 reports server refl

-- One server in cooldown, and one that is free.
abbrev manager : PresenceFailoverManager
manager = record {
  failover_strategy = FailoverStrategy.round_robin;
  server_cooldown = 10;
  servers = record server { cooldown_until = 100 } ∷ server ∷ [];
  round_robin_index = 0;
}

manager-select : select_by_strategy 0 50 manager ≡ some 1
unfolding select_by_strategy select_round_robin scan_ring is_in_cooldown
manager-select = refl

select_by_strategy-free_example : at_test (is_free 50) manager.servers 1 ≡ true
select_by_strategy-free_example = select_by_strategy-free 0 50 1 manager manager-select
