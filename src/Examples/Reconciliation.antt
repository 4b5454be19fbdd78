-- ===== src/Examples/Reconciliation.antt =====
-- Reconcile of the DynamicRoleBinding controller at concrete inputs.
use kuberbac.Prelude.{
  ◌≡◌, refl, true, ℕ, Option, none, some, [], ◌∷◌, ◌++◌, ok, err, Error, ApiError, contains, any,
  flat_map, ◌==◌, lit,
}
use mathlib.Core.Option
use kuberbac.Globals.Conditions.Laws.{condition_of}
use kuberbac.RoleBinding.Types.{DynamicRoleBinding, Write}
use kuberbac.RoleBinding.{
  sync_target, delete_targets, delete_owned, apply_plan, is_taken, update_role_bindings,
  remove_abandoned,
}
use kuberbac.RoleBinding.Plan.{plan, subjects_of, complementary, binding_of, copy_into}
use kuberbac.RoleBinding.Selectors.{
  filter_namespace_list_by_selector, check_namespace_selector, check_name_selector,
  check_meta_selector, selected_names,
}
use kuberbac.RoleBinding.Accounts.{
  expand_subjects, check_subject, get_service_accounts_by_selectors, check_selectors,
  select_accounts, is_selected, matcher,
}
use kuberbac.GoMap.{lookup, insert}
use kuberbac.Globals.Subset.{is_subset, is_subset_over}
use kuberbac.RoleBinding
use kuberbac.Reconcile.{
  Got, Reconciler, ControllerUtil, run, reconcile, resource_finalizer, update_condition_success,
  update_condition_kubernetes_api_call_failure,
}
use kuberbac.Reconcile.Controllers.{role_binding_reconciler}
use kuberbac.Reconcile.Laws.{
  status_of, reason_of, update_condition_failure-True, reconcile-synced_end, reconcile-deleted_end,
  synced_end, deleted_end,
}
use kuberbac.Examples.Controllers.{meta, binding_resource, binding_client, regexp}

update_condition_failure-True_example :
    (Option.map status_of
        (condition_of (lit "ResourceSynced") (update_condition_kubernetes_api_call_failure 3 []))
      ≡ some (lit "True"))
    × (Option.map reason_of
          (condition_of (lit "ResourceSynced") (update_condition_kubernetes_api_call_failure 3 []))
        ≡ some (lit "KubernetesApiCallError"))
    × (Option.map status_of (condition_of (lit "ResourceSynced") (update_condition_success 3 []))
        ≡ some (lit "True"))
    × (Option.map reason_of (condition_of (lit "ResourceSynced") (update_condition_success 3 []))
        ≡ some (lit "TargetSynced"))
update_condition_failure-True_example = update_condition_failure-True 3 []

-- The library's functions on the list of finalizers, as far as the example needs them.
abbrev util : ControllerUtil
util = record {
  contains_finalizer = λ meta name. contains meta.finalizers name;
  add_finalizer = λ meta name. record meta { finalizers = meta.finalizers ++ name ∷ [] };
  remove_finalizer = λ meta name. record meta { finalizers = [] };
}

abbrev guarded : Option ℕ → DynamicRoleBinding
guarded deletion = record binding_resource {
  meta = record meta { finalizers = resource_finalizer ∷ []; deletion_timestamp = deletion };
}

-- The API's server refuses every list of ClusterRoleBindings.
abbrev refusing : RoleBinding.Types.Api
refusing = record binding_client {
  list_cluster_role_bindings = λ writes. err (Error.api (ApiError.refused 403));
}

abbrev reconciler : Option ℕ → Reconciler DynamicRoleBinding Write ℕ
reconciler deletion =
    role_binding_reconciler
      (record {
        client = λ events. refusing;
        get = λ events. Got.found (guarded deletion);
        answer = λ events e. none;
        now = λ events. 5;
        parse_duration = λ text. ok 10;
        util = util;
      })
      regexp

contains_it : contains (resource_finalizer ∷ []) resource_finalizer ≡ true
unfolding contains ◌==◌
contains_it = refl

fails :
    (run (reconciler (some 1)) (reconciler (some 1)).delete_targets (guarded (some 1)) []).0
    ≡ ok (some (Error.api (ApiError.refused 403)))
unfolding run delete_targets
fails = refl

synced : (run (reconciler none) (reconciler none).sync_target (guarded none) []).0 ≡ ok none
unfolding run sync_target plan apply_plan subjects_of expand_subjects check_subject contains ◌==◌
    get_service_accounts_by_selectors check_selectors select_accounts is_selected matcher
    filter_namespace_list_by_selector check_namespace_selector check_name_selector
    check_meta_selector selected_names flat_map any is_taken update_role_bindings remove_abandoned
    complementary is_subset is_subset_over lookup binding_of copy_into insert
synced = refl

reconcile-synced_end_example :
    reconcile (reconciler none) []
    ≡ synced_end
        (reconciler none)
        10
        (guarded none)
        (run (reconciler none) (reconciler none).sync_target (guarded none) []).0
        (run (reconciler none) (reconciler none).sync_target (guarded none) []).1
reconcile-synced_end_example =
    reconcile-synced_end (reconciler none) [] (guarded none) 10 refl refl contains_it refl

-- The API's server refuses every update of the resource.
abbrev stuck : Reconciler DynamicRoleBinding Write ℕ
stuck =
    role_binding_reconciler
      (record {
        client = λ events. binding_client;
        get = λ events. Got.found (guarded (some 1));
        answer = λ events e. some (ApiError.refused 409);
        now = λ events. 5;
        parse_duration = λ text. ok 10;
        util = util;
      })
      regexp

deletes : (run stuck stuck.delete_targets (guarded (some 1)) []).0 ≡ ok none
unfolding run delete_targets delete_owned is_subset is_subset_over lookup ◌==◌
deletes = refl

reconcile-deleted_end_example :
    reconcile stuck []
    ≡ deleted_end stuck
        (guarded (some 1))
        (run stuck stuck.delete_targets (guarded (some 1)) []).0
        (run stuck stuck.delete_targets (guarded (some 1)) []).1
reconcile-deleted_end_example =
    reconcile-deleted_end stuck [] (guarded (some 1)) refl refl contains_it
