-- ===== src/Processor/RuleMap/Singles.antt =====
-- Stretched rules are for one target each.
use kuberbac.Prelude.{if_intro, All-flat_map}
use kuberbac.Prelude.{
  ◌≡◌, ◌≢◌, refl, true, List, [], ◌∷◌, map, Str, Lacks, All, All-append, is_empty, flat_map,
  Bool-cases, inl, inr,
}
use kuberbac.Rbac.{PolicyRule, url_rule, resource_rule}
use kuberbac.Processor.Discovery.{PolicyRulesProcessor}
use kuberbac.Processor.Targets.{url, generic, named}
use kuberbac.Processor.Stretch.{resource_found, stretch_group, stretch_rule, stretch_policy_rules}
use kuberbac.Processor.RuleMap.{hash}
use kuberbac.Processor.RuleMap.Laws.{IsSingle}
use kuberbac.Processor.Keys.{IsKeyable}

-- The names of the cluster's groups and resources make keys.
abbrev pub IsKeyableCluster : PolicyRulesProcessor → Type 0
IsKeyableCluster p =
    (group resource : Str)
    → resource_found p group resource ≡ true
    → IsKeyable (generic group resource)

-- An object's name.
abbrev pub IsName : Str → Type 0
IsName name = Lacks hash name × (name ≢ [])

-- The names that a rule lists make keys.
abbrev pub HasNames : PolicyRule → Type 0
HasNames rule = All IsName rule.resource_names

module _ (p : PolicyRulesProcessor) (c : IsKeyableCluster p) where
  named_rules-IsSingle :
      (verbs : List Str) (group resource : Str) (names : List Str)
      → resource_found p group resource ≡ true
      → All IsName names
      → All IsSingle (map (λ name. resource_rule verbs group resource (name ∷ [])) names)
  named_rules-IsSingle verbs group resource [] found h = tt
  named_rules-IsSingle verbs group resource (name ∷ names) found h =
      let k = c group resource found in
      (
        record {
          target = named group resource name;
          verbs = verbs;
          keyable = (k.0, k.1, k.2, h.0.0, h.0.1);
          shape = refl;
        },
        named_rules-IsSingle verbs group resource names found h.1,
      )

  url_rules-IsSingle : (verbs urls : List Str) → All IsSingle (map (url_rule verbs) urls)
  url_rules-IsSingle verbs [] = tt
  url_rules-IsSingle verbs (u ∷ urls) = (
    record { target = url u; verbs = verbs; keyable = tt; shape = refl },
    url_rules-IsSingle verbs urls,
  )

  stretch_group-IsSingle :
      (rule : PolicyRule) (resource group : Str)
      → HasNames rule
      → All IsSingle (stretch_group p rule resource group)
  unfolding stretch_group
  stretch_group-IsSingle rule resource group h =
      elim (Bool-cases (resource_found p group resource)) [
        | inl found ↦ rw found (
            if_intro (All IsSingle) (is_empty rule.resource_names)
              (
                record {
                  target = generic group resource;
                  verbs = rule.verbs;
                  keyable = c group resource found;
                  shape = refl;
                },
                tt,
              )
              (named_rules-IsSingle rule.verbs group resource rule.resource_names found h))
        | inr missing ↦ rw missing tt
      ]

  stretch_rule-IsSingle : (rule : PolicyRule) → HasNames rule → All IsSingle (stretch_rule p rule)
  unfolding stretch_rule
  stretch_rule-IsSingle rule h =
      if_intro (All IsSingle) (is_empty rule.non_resource_urls)
        (All-flat_map IsSingle _ rule.resources (λ resource.
          All-flat_map IsSingle _ rule.api_groups
            (λ group. stretch_group-IsSingle rule resource group h)))
        (url_rules-IsSingle rule.verbs rule.non_resource_urls)

  -- On a cluster whose names make keys every stretched rule is for one target, if the names that the
  -- rules list make keys.
  pub stretch_policy_rules-IsSingle :
      (rules : List PolicyRule) → All HasNames rules → All IsSingle (stretch_policy_rules p rules)
  unfolding stretch_policy_rules flat_map
  stretch_policy_rules-IsSingle [] h = tt
  stretch_policy_rules-IsSingle (rule ∷ rules) h =
      All-append IsSingle (stretch_rule p rule) (flat_map (stretch_rule p) rules)
        (stretch_rule-IsSingle rule h.0) (stretch_policy_rules-IsSingle rules h.1)
