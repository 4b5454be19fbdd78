-- ===== src/RoleBinding/Plan.antt =====
-- SyncTarget of internal/controller/dynamicrolebinding_sync.go up to its first write: the namespaces
-- and the binding.
use kuberbac.Prelude.{List, [], ◌∷◌, Str, if◌then◌else◌, contains, Outcome, ok, ◌>>=◌}
use kuberbac.GoMap.{GoMap, insert}
use kuberbac.Resources.{reference_annotations}
use kuberbac.RoleBinding.Types.{
  DynamicRoleBinding, Namespace, Subject, RoleBinding, Write, Api, Regexp,
}
use kuberbac.RoleBinding.Selectors.{filter_namespace_list_by_selector}
use kuberbac.RoleBinding.Accounts.{check_subject, expand_subjects}

-- `maps.Copy(dst, src)`
unfoldable pub copy_into : GoMap Str → GoMap Str → GoMap Str
copy_into dst [] = dst
copy_into dst ((key, value) ∷ src) = copy_into (insert key value dst) src

-- clusterRoleBindingResource
unfoldable pub binding_of : DynamicRoleBinding → List Subject → RoleBinding
binding_of resource subjects = record {
  name = resource.targets.name;
  namespace = [];
  annotations = copy_into resource.targets.annotations (reference_annotations resource.meta);
  labels = resource.targets.labels;
  cluster_role = resource.cluster_role;
  subjects = subjects;
}

-- What SyncTarget knows before it looks at the targets.
pub record Planned : Type 0 where
  pub namespaces : List Namespace
  pub binding : RoleBinding

-- expandedSubjects, for the namespaces that the API lists.
unfoldable pub subjects_of :
    Api → Regexp → DynamicRoleBinding → List Write → List Namespace → Outcome (List Subject)
subjects_of client regexp resource writes namespaces = do
  filtered ← filter_namespace_list_by_selector regexp namespaces resource.subject.namespace_selector
  expand_subjects regexp (client.list_service_accounts writes) filtered resource.subject

abbrev pub planned : DynamicRoleBinding → List Namespace → List Subject → Planned
planned resource namespaces subjects = record {
  namespaces = namespaces;
  binding = binding_of resource subjects;
}

unfoldable pub plan : Api → Regexp → DynamicRoleBinding → List Write → Outcome Planned
plan client regexp resource writes = do
  checked ← check_subject resource.subject
  namespaces ← client.list_namespaces writes
  subjects ← subjects_of client regexp resource writes namespaces
  ok (planned resource namespaces subjects)

-- targetFilteredNamespaces
abbrev pub target_namespaces : Regexp → List Namespace → DynamicRoleBinding → Outcome (List Str)
target_namespaces regexp namespaces resource =
    filter_namespace_list_by_selector regexp namespaces resource.targets.namespace_selector

-- targetNamespacesComplementaryStrList
unfoldable pub complementary : List Namespace → List Str → List Str
complementary [] targeted = []
complementary (namespace ∷ items) targeted =
    let rest = complementary items targeted in
    if contains targeted namespace.name then rest else namespace.name ∷ rest
