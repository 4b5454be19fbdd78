-- ===== src/ClusterRole/Plan.antt =====
-- SyncTarget of internal/controller/dynamicclusterrole_sync.go up to its first write: the ClusterRoles
-- that it is going to update.
use kuberbac.Prelude.{
  List, [], ◌∷◌, ◌++◌, lit, if◌then◌else◌, Outcome, ok, err, panic, ◌>>=◌, wrapped,
}
use kuberbac.Exec.{wrap_error}
use kuberbac.GoMap.{GoMap, Range}
use kuberbac.Rbac.{PolicyRule}
use kuberbac.Resources.{reference_annotations, DynamicClusterRole}
use kuberbac.Processor.Discovery.{PolicyRulesProcessor, new_policy_rule_processor}
use kuberbac.Processor.RuleMap.{values}
use kuberbac.Processor.Pipeline.{at, evaluate}
use kuberbac.Processor.Split.{SplitRules, split_policy_rules}
use kuberbac.ClusterRole.Types.{ClusterRole, Write, Api}

-- The two ClusterRoles that take the place of `role`.
unfoldable pub separate : ClusterRole → Outcome SplitRules → Outcome (List ClusterRole)
separate role (ok s) = ok (
    record role { name = role.name ++ lit "-cluster"; rules = s.cluster_scoped }
    ∷ record role { name = role.name ++ lit "-namespace"; rules = s.namespace_scoped }
    ∷ [])
separate role (err e) = err e
separate role panic = panic

-- clusterRoleResource
abbrev pub cluster_role_of : DynamicClusterRole → List PolicyRule → ClusterRole
cluster_role_of resource rules = record {
  name = resource.target.name;
  annotations = reference_annotations resource.meta;
  labels = resource.target.labels;
  rules = rules;
}

-- The ClusterRole, or the two of them when the scopes are apart.
unfoldable pub cluster_roles :
    Range
    → PolicyRulesProcessor
    → DynamicClusterRole
    → GoMap PolicyRule
    → Outcome (List ClusterRole)
cluster_roles range p resource result =
    let role = cluster_role_of resource (values range (lit "rules" ∷ []) result) in
    if resource.target.separate_scopes
    then separate role (split_policy_rules p (values range (lit "split" ∷ []) result))
    else ok (role ∷ [])

-- The reads of SyncTarget and what it computes from them, before any write.
unfoldable pub plan : Api → Range → DynamicClusterRole → List Write → Outcome (List ClusterRole)
plan client range resource writes = do
  p ←
      wrap_error (wrapped "error generating PolicyRulesProcessor: %s")
        (new_policy_rule_processor (at range "resources") (client.discover writes))
  result ← evaluate range (client.list_objects writes) p resource.allow resource.deny
  cluster_roles range p resource result
