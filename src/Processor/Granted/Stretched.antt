-- ===== src/Processor/Granted/Stretched.antt =====
-- The rules that the steps before the maps hand on: they have verbs, and the names of the user's rules.
use kuberbac.Prelude.{
  ◌≡◌, false, List, [], ◌∷◌, arith, Str, All, All-append, All-map, All-flat_map, flat_map, is_empty,
  if_intro, Bool-cases, inl, inr,
}
use kuberbac.GoMap.{Occasion, Range}
use kuberbac.Rbac.{PolicyRule, url_rule}
use kuberbac.Processor.Discovery.{PolicyRulesProcessor}
use kuberbac.Processor.Expand.{is_ignored, expand_verbs, expand_rule, expand_policy_rules}
use kuberbac.Processor.Stretch.{resource_found, stretch_group, stretch_rule, stretch_policy_rules}
use kuberbac.Processor.RuleMap.Singles.{HasNames}
use kuberbac.Processor.Keys.Touched.{HasVerbs}

expand_verbs_nonempty :
    (verbs : List Str) → is_empty verbs ≡ false → is_empty (expand_verbs verbs) ≡ false
unfolding expand_verbs
expand_verbs_nonempty verbs h = ground arith

module _ (range : Range) (p : PolicyRulesProcessor) where
  pub expand-HasVerbs :
      (o : Occasion) (rules : List PolicyRule) → All HasVerbs (expand_policy_rules range p o rules)
  unfolding expand_policy_rules expand_rule
  expand-HasVerbs o [] = tt
  expand-HasVerbs o (rule ∷ rules) = elim (Bool-cases (is_ignored rule)) [
    | inl ignored ↦ rw ignored (expand-HasVerbs ([] ∷ o) rules)
    | inr kept ↦ rw kept (
      expand_verbs_nonempty rule.verbs (unfold is_ignored in ground (arith, kept)),
      expand-HasVerbs ([] ∷ o) rules,
    )
  ]

  pub expand-HasNames :
      (o : Occasion) (rules : List PolicyRule)
      → All HasNames rules
      → All HasNames (expand_policy_rules range p o rules)
  unfolding expand_policy_rules expand_rule
  expand-HasNames o [] h = tt
  expand-HasNames o (rule ∷ rules) h =
      if_intro (All HasNames) (is_ignored rule) (expand-HasNames ([] ∷ o) rules h.1)
        (h.0, expand-HasNames ([] ∷ o) rules h.1)

module _ (p : PolicyRulesProcessor) where
  stretch_group-HasVerbs :
      (rule : PolicyRule) (resource group : Str)
      → HasVerbs rule
      → All HasVerbs (stretch_group p rule resource group)
  unfolding stretch_group
  stretch_group-HasVerbs rule resource group h =
      if_intro (All HasVerbs) (resource_found p group resource)
        (if_intro (All HasVerbs) (is_empty rule.resource_names) (h, tt)
          (All-map HasVerbs _ rule.resource_names (λ name. h)))
        tt

  stretch_rule-HasVerbs : (rule : PolicyRule) → HasVerbs rule → All HasVerbs (stretch_rule p rule)
  unfolding stretch_rule
  stretch_rule-HasVerbs rule h =
      if_intro (All HasVerbs) (is_empty rule.non_resource_urls)
        (All-flat_map HasVerbs _ rule.resources (λ resource.
          All-flat_map HasVerbs _ rule.api_groups
            (λ group. stretch_group-HasVerbs rule resource group h)))
        (All-map HasVerbs (url_rule rule.verbs) rule.non_resource_urls (λ u. h))

  pub stretch-HasVerbs :
      (rules : List PolicyRule) → All HasVerbs rules → All HasVerbs (stretch_policy_rules p rules)
  unfolding stretch_policy_rules flat_map
  stretch-HasVerbs [] h = tt
  stretch-HasVerbs (rule ∷ rules) h =
      All-append HasVerbs (stretch_rule p rule) _ (stretch_rule-HasVerbs rule h.0)
        (stretch-HasVerbs rules h.1)
