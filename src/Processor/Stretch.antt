-- ===== src/Processor/Stretch.antt =====
-- StretchPolicyRules of internal/controller/dynamicclusterrole_sync.go: a rule becomes one rule for
-- each URL, or for each group, resource and name.
pub mod Laws
use kuberbac.Prelude.{
  Bool, true, false, List, [], ◌∷◌, map, Str, ◌==◌, is_empty, any, flat_map, if◌then◌else◌,
}
use kuberbac.Rbac.{PolicyRule, url_rule, resource_rule}
use kuberbac.Processor.Discovery.{Gvkr, PolicyRulesProcessor, gvkrs_of, full_name}

module _ (p : PolicyRulesProcessor) where
  -- `resourceFound`: the group has the resource.
  unfoldable pub resource_found : Str → Str → Bool
  unfolding any full_name ◌==◌
  resource_found group resource =
      any (λ gvkr. full_name gvkr == resource) (gvkrs_of p.resources_by_group group)

  -- One round of the loop over groups.
  unfoldable pub stretch_group : PolicyRule → Str → Str → List PolicyRule
  stretch_group rule resource group =
      if resource_found group resource
      then (if is_empty rule.resource_names
          then resource_rule rule.verbs group resource [] ∷ []
          else map (λ name. resource_rule rule.verbs group resource (name ∷ []))
              rule.resource_names)
      else []

  unfoldable pub stretch_rule : PolicyRule → List PolicyRule
  unfolding flat_map
  stretch_rule rule =
      if is_empty rule.non_resource_urls
      then flat_map (λ resource. flat_map (stretch_group rule resource) rule.api_groups)
          rule.resources
      else map (url_rule rule.verbs) rule.non_resource_urls

  unfoldable pub stretch_policy_rules : List PolicyRule → List PolicyRule
  unfolding stretch_rule flat_map
  stretch_policy_rules policy_rules = flat_map stretch_rule policy_rules
