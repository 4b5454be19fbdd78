-- ===== src/Examples/Controllers.antt =====
-- The two controllers' writes at concrete inputs.
use kuberbac.Prelude.{
  ◌≡◌, refl, true, false, none, some, List, [], ◌∷◌, ◌++◌, map, Str, lit, ok, panic, ApiError,
  Holds, All, contains, ◌==◌,
}
use kuberbac.Exec.{join_errors}
use kuberbac.Exec.Writes.{Added}
use kuberbac.GoMap.{GoMap}
use kuberbac.Resources.{Meta, reference_annotations, DynamicClusterRole}
use kuberbac.ClusterRole.Types.{ClusterRole, delete_cluster_role}
use kuberbac.ClusterRole
use kuberbac.ClusterRole.Delete
use kuberbac.ClusterRole.Sync
use kuberbac.RoleBinding.Types.{
  MatchRegex, MetaSelector, NameSelector, NamespaceSelector, SourceSubject, BindingTargets,
  DynamicRoleBinding, Namespace, ServiceAccount, RoleBinding, Answer, Regexp, delete_role_binding,
  update_role_binding,
}
use kuberbac.RoleBinding.Selectors.{filter_namespace_list_by_selector}
use kuberbac.RoleBinding.Selectors.Laws.{
  selects, names_where, filter_namespace_list_by_selector_lem,
}
use kuberbac.RoleBinding.Accounts.{get_service_accounts_by_selectors}
use kuberbac.RoleBinding.Accounts.Laws.{
  IsIn, get_service_accounts_by_selectors-IsIn, get_service_accounts_by_selectors-nil,
}
use kuberbac.RoleBinding
use kuberbac.RoleBinding.Updates
use kuberbac.RoleBinding.Owned.{IsPermitted, sync_target-Added}
use kuberbac.RoleBinding.Deletion
use kuberbac.Examples.Cluster.{in_order, lists}

abbrev pub meta : Meta
meta = record {
  api_version = lit "kuberbac.prosimcorp.com/v1alpha1";
  kind = lit "DynamicClusterRole";
  name = lit "all";
  namespace = lit "ops";
  annotations = [];
  labels = [];
  finalizers = [];
  deletion_timestamp = none;
}

abbrev pub cluster_resource : DynamicClusterRole
cluster_resource = record {
  meta = meta;
  synchronization_time = lit "10s";
  target = record {
    name = lit "admin";
    annotations = [];
    labels = (lit "team", lit "a") ∷ [];
    separate_scopes = true;
  };
  allow =
      record {
        verbs = lit "*" ∷ [];
        api_groups = lit "*" ∷ [];
        resources = lit "*" ∷ [];
        resource_names = [];
        non_resource_urls = [];
      }
      ∷ [];
  deny = [];
  conditions = [];
}

abbrev pub role : GoMap Str → ClusterRole
role annotations = record { name = lit "admin"; annotations = annotations; labels = []; rules = [] }

abbrev pub roles : List ClusterRole
roles = role [] ∷ role (reference_annotations meta) ∷ []

abbrev pub cluster_client : ClusterRole.Types.Api
cluster_client = record {
  answer = λ writes w. some (ApiError.refused 409);
  discover = λ writes. ok lists;
  list_objects = λ writes key gvk. ok [];
  list_cluster_roles = λ writes. ok roles;
}

sync_target-OnlyOutputs_example :
    ClusterRole.Sync.OnlyOutputs cluster_resource []
      (ClusterRole.sync_target cluster_client in_order cluster_resource [])
sync_target-OnlyOutputs_example =
    ClusterRole.Sync.sync_target-OnlyOutputs cluster_client in_order cluster_resource []

sync_target-annotations_example :
    ClusterRole.sync_target cluster_client in_order
      (record cluster_resource {
        target = record cluster_resource.target { annotations = (lit "note", lit "x") ∷ [] };
      })
      []
    ≡ ClusterRole.sync_target cluster_client in_order cluster_resource []
sync_target-annotations_example =
    ClusterRole.Sync.sync_target-annotations cluster_client in_order cluster_resource
      ((lit "note", lit "x") ∷ []) []

delete_targets_lem_example : ClusterRole.delete_targets cluster_client cluster_resource [] ≡ (
  ok (
      join_errors (
        ClusterRole.Delete.failures cluster_client []
          (ClusterRole.Delete.owned (reference_annotations meta) roles))),
  map delete_cluster_role (ClusterRole.Delete.owned (reference_annotations meta) roles),
)
delete_targets_lem_example =
    ClusterRole.Delete.delete_targets_lem cluster_client cluster_resource []

abbrev no_regex : MatchRegex
no_regex = record { negative = false; expression = [] }

abbrev by_regex : MatchRegex
by_regex = record { negative = true; expression = lit "^dev" }

abbrev any_namespace : NamespaceSelector
any_namespace = record { match_labels = none; match_list = none; match_regex = no_regex }

abbrev pub not_dev : NamespaceSelector
not_dev = record { match_labels = none; match_list = none; match_regex = by_regex }

abbrev subject : SourceSubject
subject = record {
  api_group = [];
  kind = lit "ServiceAccount";
  meta_selector = record { match_labels = none; match_annotations = none };
  name_selector = record { match_list = some (lit "bot" ∷ []); match_regex = no_regex };
  namespace_selector = not_dev;
}

abbrev pub binding_resource : DynamicRoleBinding
binding_resource = record {
  meta = meta;
  synchronization_time = lit "10s";
  cluster_role = lit "admin";
  subject = subject;
  targets = record {
    name = lit "bots";
    annotations = (lit "note", lit "x") ∷ [];
    labels = [];
    cluster_scoped = false;
    namespace_selector = any_namespace;
  };
  conditions = [];
}

abbrev namespaces : List Namespace
namespaces =
    record { name = lit "dev"; labels = [] } ∷ record { name = lit "prod"; labels = [] } ∷ []

abbrev pub account : Str → ServiceAccount
account namespace = record {
  name = lit "bot";
  namespace = namespace;
  labels = [];
  annotations = [];
}

abbrev pub binding : Str → GoMap Str → RoleBinding
binding namespace annotations = record {
  name = lit "bots";
  namespace = namespace;
  annotations = annotations;
  labels = [];
  cluster_role = lit "admin";
  subjects = [];
}

-- An expression that matches "dev" only.
abbrev pub regexp : Regexp
regexp = record {
  compile = λ expression. ok (λ name. name == lit "dev");
  zero_match = λ name. panic;
}

abbrev pub binding_client : RoleBinding.Types.Api
binding_client = record {
  answer = λ writes w. none;
  list_namespaces = λ writes. ok namespaces;
  list_service_accounts = λ writes. ok (account (lit "dev") ∷ account (lit "prod") ∷ []);
  get_cluster_role_binding = λ writes name. Answer.failed ApiError.not_found;
  list_role_bindings = λ writes. ok (binding (lit "prod") (reference_annotations meta) ∷ []);
  list_cluster_role_bindings = λ writes. ok (binding [] [] ∷ []);
}

sync_target-Added_example :
    Added
      (IsPermitted binding_resource)
      []
      (RoleBinding.sync_target binding_client regexp binding_resource [])
sync_target-Added_example = sync_target-Added binding_client regexp binding_resource []

filter_namespace_list_by_selector_lem_example :
    filter_namespace_list_by_selector regexp namespaces not_dev
    ≡ ok (names_where (selects not_dev (λ name. name == lit "dev")) namespaces)
filter_namespace_list_by_selector_lem_example =
    filter_namespace_list_by_selector_lem regexp namespaces not_dev (λ name. name == lit "dev") refl
      refl

-- The namespaces are those that the expression does not match.
not_dev_selected :
    names_where (selects not_dev (λ name. name == lit "dev")) namespaces ≡ lit "prod" ∷ []
unfolding names_where selects ◌==◌
not_dev_selected = refl

delete_targets-all_failures_example :
    RoleBinding.delete_targets binding_client binding_resource [] ≡ (
      ok (
          join_errors (
            RoleBinding.Deletion.all_failures binding_client binding_resource []
              (binding [] [] ∷ [])
              (binding (lit "prod") (reference_annotations meta) ∷ []))),
      RoleBinding.Deletion.halfway binding_client binding_resource [] (binding [] [] ∷ [])
          ++ map delete_role_binding (
              RoleBinding.Deletion.owned
                (reference_annotations meta)
                (binding (lit "prod") (reference_annotations meta) ∷ [])),
    )
delete_targets-all_failures_example =
    RoleBinding.Deletion.delete_targets-all_failures binding_client binding_resource []

get_service_accounts_by_selectors-IsIn_example : Holds (All (IsIn (lit "prod" ∷ []))) (
    get_service_accounts_by_selectors regexp
      (ok (account (lit "dev") ∷ account (lit "prod") ∷ []))
      (lit "prod" ∷ [])
      subject)
get_service_accounts_by_selectors-IsIn_example =
    get_service_accounts_by_selectors-IsIn regexp
      (ok (account (lit "dev") ∷ account (lit "prod") ∷ [])) (lit "prod" ∷ []) subject refl

get_service_accounts_by_selectors-nil_example :
    get_service_accounts_by_selectors regexp (ok (account (lit "prod") ∷ [])) [] subject
    ≡ get_service_accounts_by_selectors regexp
        (ok (account (lit "prod") ∷ []))
        (lit "prod" ∷ [])
        subject
unfolding contains ◌==◌
get_service_accounts_by_selectors-nil_example =
    get_service_accounts_by_selectors-nil regexp (account (lit "prod") ∷ []) (lit "prod" ∷ [])
      subject (refl, tt)

update_role_bindings-placed_example :
    (RoleBinding.update_role_bindings binding_client
      (binding [] (reference_annotations meta))
      (binding (lit "prod") [] ∷ [])
      (lit "dev" ∷ lit "prod" ∷ [])
      none
      []).1
    ≡ map update_role_binding (
        RoleBinding.Updates.placed
          (binding [] (reference_annotations meta))
          (binding (lit "prod") [] ∷ [])
          (lit "dev" ∷ lit "prod" ∷ []))
update_role_bindings-placed_example =
    RoleBinding.Updates.update_role_bindings-placed binding_client
      (binding [] (reference_annotations meta)) (binding (lit "prod") [] ∷ [])
      (lit "dev" ∷ lit "prod" ∷ []) none []
