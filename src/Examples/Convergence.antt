-- ===== src/Examples/Convergence.antt =====
-- Runs of SyncTarget on a cluster that keeps RoleBindings.
use kuberbac.Prelude.{◌≡◌, refl, none, List, [], ◌∷◌, Str, lit, ok, contains, flat_map, ◌==◌}
use kuberbac.Resources.{reference_annotations}
use kuberbac.RoleBinding.Types.{
  DynamicRoleBinding, Namespace, RoleBinding, ServiceAccount, Subject, Write, Api,
}
use kuberbac.RoleBinding.{sync_target}
use kuberbac.RoleBinding.Plan.{Planned, plan, planned, subjects_of, target_namespaces}
use kuberbac.RoleBinding.Selectors.{
  filter_namespace_list_by_selector, check_namespace_selector, check_name_selector,
  check_meta_selector, selected_names,
}
use kuberbac.RoleBinding.Accounts.{
  expand_subjects, check_subject, get_service_accounts_by_selectors, check_selectors,
  select_accounts, is_selected, matcher,
}
use kuberbac.RoleBinding.Store.{IsStore}
use kuberbac.RoleBinding.Store.Memory.{memory, memory-IsStore}
use kuberbac.RoleBinding.Store.Converge.{left, sync_target-left, sync_target-twice}
use kuberbac.Examples.Controllers.{meta, binding_resource, regexp, not_dev, account, binding}

abbrev resource : DynamicRoleBinding
resource = record binding_resource {
  targets = record binding_resource.targets { namespace_selector = not_dev };
}

abbrev pub namespaces : List Namespace
namespaces =
    record { name = lit "dev"; labels = [] }
    ∷ record { name = lit "prod"; labels = [] }
    ∷ record { name = lit "web"; labels = [] }
    ∷ []

-- An owned RoleBinding outside the targets, and one of someone else in a targeted namespace.
abbrev pub first : List RoleBinding
first = binding (lit "dev") (reference_annotations meta) ∷ binding (lit "web") [] ∷ []

abbrev accounts : List ServiceAccount
accounts = account (lit "dev") ∷ account (lit "prod") ∷ []

abbrev client : Api
client = memory namespaces accounts first

abbrev store : IsStore client
store = memory-IsStore namespaces accounts first

abbrev subjects : List Subject
subjects =
    record { kind = lit "ServiceAccount"; api_group = []; name = lit "bot"; namespace = lit "prod" }
    ∷ []

abbrev p : Planned
p = planned resource namespaces subjects

abbrev targeted : List Str
targeted = lit "prod" ∷ lit "web" ∷ []

plans : (writes : List Write) → plan client regexp resource writes ≡ ok p
unfolding plan memory subjects_of expand_subjects check_subject contains ◌==◌
    get_service_accounts_by_selectors check_selectors select_accounts is_selected matcher
    filter_namespace_list_by_selector check_namespace_selector check_name_selector
    check_meta_selector selected_names flat_map
plans writes = refl

targets : target_namespaces regexp p.namespaces resource ≡ ok targeted
unfolding filter_namespace_list_by_selector check_namespace_selector selected_names flat_map ◌==◌
targets = refl

abbrev after_one : List Write
after_one = (sync_target client regexp resource []).1

sync_target-left_example :
    ((sync_target client regexp resource []).0 ≡ ok none)
    × (store.get after_one (lit "dev") (lit "bots")
        ≡ left
            (reference_annotations meta)
            p.binding
            targeted
            namespaces
            (lit "dev")
            (lit "bots")
            (store.get [] (lit "dev") (lit "bots")))
sync_target-left_example =
    sync_target-left store regexp resource p targeted [] (lit "dev") (lit "bots") (plans []) refl
      targets

sync_target-twice_example :
    store.get (sync_target client regexp resource after_one).1 (lit "prod") (lit "bots")
    ≡ store.get after_one (lit "prod") (lit "bots")
sync_target-twice_example =
    sync_target-twice store regexp resource p targeted [] (lit "prod") (lit "bots") (plans [])
      (plans after_one) refl targets
