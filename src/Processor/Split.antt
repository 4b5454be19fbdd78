-- ===== src/Processor/Split.antt =====
-- SplitPolicyRules of internal/controller/dynamicclusterrole_sync.go: the rules for cluster-wide
-- resources apart from those for resources with namespaces.
pub mod Laws
use kuberbac.Prelude.{
  Bool, Option, none, some, List, [], ◌∷◌, ◌++◌, Str, ◌==◌, get_elem?, if◌then◌else◌, Outcome, ok,
  err, panic, ◌>>=◌, or_panic,
}
use kuberbac.Rbac.{PolicyRule}
use kuberbac.Processor.Discovery.{Gvkr, PolicyRulesProcessor, gvkrs_of, full_name}

pub record SplitRules : Type 0 where
  pub cluster_scoped : List PolicyRule
  pub namespace_scoped : List PolicyRule

-- `break` at the first resource type with the rule's name: whether that has namespaces.
unfoldable pub find_scope : Str → List Gvkr → Option Bool
find_scope name [] = none
find_scope name (resource ∷ resources) =
    if full_name resource == name then some resource.namespaced else find_scope name resources

unfoldable pub add_scoped : PolicyRule → Option Bool → SplitRules → SplitRules
add_scoped policy_rule none s = s
add_scoped policy_rule (some namespaced) s =
    if namespaced
    then record s { namespace_scoped = s.namespace_scoped ++ policy_rule ∷ [] }
    else record s { cluster_scoped = s.cluster_scoped ++ policy_rule ∷ [] }

-- The scope of a rule. `policyRule.Resources[0]` is read only in a round of the inner loop.
unfoldable pub scope_of : PolicyRule → List Gvkr → Outcome (Option Bool)
scope_of policy_rule [] = ok none
scope_of policy_rule (resource ∷ resources) = do
  name ← or_panic (get_elem? policy_rule.resources 0)
  ok (find_scope name (resource ∷ resources))

module _ (p : PolicyRulesProcessor) where
  unfoldable pub split_rules : List PolicyRule → SplitRules → Outcome SplitRules
  split_rules [] s = ok s
  split_rules (policy_rule ∷ policy_rules) s = do
    group ← or_panic (get_elem? policy_rule.api_groups 0)
    scope ← scope_of policy_rule (gvkrs_of p.resources_by_group group)
    split_rules policy_rules (add_scoped policy_rule scope s)

  unfoldable pub split_policy_rules : List PolicyRule → Outcome SplitRules
  split_policy_rules policy_rules =
      split_rules policy_rules (record { cluster_scoped = []; namespace_scoped = [] })
