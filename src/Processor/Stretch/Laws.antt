-- ===== src/Processor/Stretch/Laws.antt =====
-- Stretching keeps what the rules give, on the resources that the cluster has.
use kuberbac.Prelude.{
  ◌≡◌, refl, ◌∙◌, Bool, true, false, ◌&&◌, List, [], ◌∷◌, arith, map, Str, ◌==◌, ==_iff, is_empty,
  any, any_cong, any-&&, any-==, any-false, any-flat_map, flat_map, contains,
}
use kuberbac.Rbac.{PolicyRule, url_rule, resource_rule}
use kuberbac.Processor.Discovery.{PolicyRulesProcessor}
use kuberbac.Processor.Targets.{Target, url, generic, named, gives}
use kuberbac.Processor.Stretch.{resource_found, stretch_group, stretch_rule, stretch_policy_rules}

-- The cluster has the target's resource in its group.
abbrev pub is_present : PolicyRulesProcessor → Target → Bool
is_present p (url u) = true
is_present p (generic group resource) = resource_found p group resource
is_present p (named group resource name) = resource_found p group resource

-- What a rule for one group and one resource gives.
abbrev names_match : Target → List Str → Bool
names_match (url u) names = false
names_match (generic group resource) names = is_empty names
names_match (named group resource name) names = contains names name

abbrev at_group : Target → Str → Bool
at_group (url u) g = false
at_group (generic group resource) g = g == group
at_group (named group resource name) g = g == group

abbrev at_resource : Target → Str → Bool
at_resource (url u) r = false
at_resource (generic group resource) r = r == resource
at_resource (named group resource name) r = r == resource

module _ (v : Str) (verbs : List Str) (group resource : Str) where
  abbrev for_name : Str → PolicyRule
  for_name name = resource_rule verbs group resource (name ∷ [])

  any-named :
      (g r n : Str) (names : List Str)
      → any (gives (named g r n) v) (map for_name names)
        ≡ (group == g && (resource == r && (contains names n && contains verbs v)))
  unfolding any contains
  any-named g r n [] = ground arith
  any-named g r n (name ∷ names) = ground (arith, any-named g r n names)

  any-generic :
      (g r : Str) (names : List Str) → any (gives (generic g r) v) (map for_name names) ≡ false
  unfolding any
  any-generic g r [] = refl
  any-generic g r (name ∷ names) = ground (arith, any-generic g r names)

  any-url : (u : Str) (names : List Str) → any (gives (url u) v) (map for_name names) ≡ false
  unfolding any contains
  any-url u [] = refl
  any-url u (name ∷ names) = ground (arith, any-url u names)

module _ (p : PolicyRulesProcessor) (v : Str) where
  -- What is left of a rule's meaning when its groups and resources are set apart.
  abbrev rest_of : Target → PolicyRule → Bool
  rest_of t rule = is_present p t && (names_match t rule.resource_names && contains rule.verbs v)

  any-stretch_group :
      (t : Target) (rule : PolicyRule) (resource group : Str)
      → any (gives t v) (stretch_group p rule resource group)
        ≡ (at_group t group && (at_resource t resource && rest_of t rule))
  unfolding stretch_group any contains
  any-stretch_group (url u) rule resource group =
      ground (arith, any-url v rule.verbs group resource u rule.resource_names)
  any-stretch_group (generic g r) rule resource group = ground (
    arith,
    ==_iff group g,
    ==_iff resource r,
    any-generic v rule.verbs group resource g r rule.resource_names,
  )
  any-stretch_group (named g r n) rule resource group = ground (
    arith,
    ==_iff group g,
    ==_iff resource r,
    any-named v rule.verbs group resource g r n rule.resource_names,
  )

  any-groups :
      (t : Target) (rule : PolicyRule) (resource : Str) (groups : List Str)
      → any (gives t v) (flat_map (stretch_group p rule resource) groups)
        ≡ (at_resource t resource && (any (at_group t) groups && rest_of t rule))
  any-groups t rule resource groups =
      any-flat_map (gives t v) (stretch_group p rule resource) groups
      ∙ any_cong _ _ groups (any-stretch_group t rule resource)
      ∙ any-&& (at_group t) (at_resource t resource && rest_of t rule) groups
      ∙ ground arith

  any-resources :
      (t : Target) (rule : PolicyRule) (groups resources : List Str)
      → any
          (gives t v)
          (flat_map (λ resource. flat_map (stretch_group p rule resource) groups) resources)
        ≡ (any (at_resource t) resources && (any (at_group t) groups && rest_of t rule))
  any-resources t rule groups resources =
      any-flat_map (gives t v) (λ resource. flat_map (stretch_group p rule resource) groups)
        resources
      ∙ any_cong _ _ resources (λ resource. any-groups t rule resource groups)
      ∙ any-&& (at_resource t) (any (at_group t) groups && rest_of t rule) resources

  abbrev from_urls : Target → List Str → List Str → Bool
  from_urls (url u) verbs urls = contains urls u && contains verbs v
  from_urls t verbs urls = false

  any-url_rule :
      (t : Target) (verbs urls : List Str)
      → any (gives t v) (map (url_rule verbs) urls) ≡ from_urls t verbs urls
  unfolding any contains
  any-url_rule (url u) verbs [] = refl
  any-url_rule (url u) verbs (x ∷ urls) = ground (arith, any-url_rule (url u) verbs urls)
  any-url_rule (generic g r) verbs [] = refl
  any-url_rule (generic g r) verbs (x ∷ urls) = any-url_rule (generic g r) verbs urls
  any-url_rule (named g r n) verbs [] = refl
  any-url_rule (named g r n) verbs (x ∷ urls) = any-url_rule (named g r n) verbs urls

  any-stretch_rule :
      (t : Target) (rule : PolicyRule)
      → any (gives t v) (stretch_rule p rule) ≡ (gives t v rule && is_present p t)
  unfolding stretch_rule contains
  any-stretch_rule (url u) rule = ground (
    arith,
    any-resources (url u) rule rule.api_groups rule.resources,
    any-false rule.resources,
    any-url_rule (url u) rule.verbs rule.non_resource_urls,
  )
  any-stretch_rule (generic g r) rule = ground (
    arith,
    any-resources (generic g r) rule rule.api_groups rule.resources,
    any-== g rule.api_groups,
    any-== r rule.resources,
    any-url_rule (generic g r) rule.verbs rule.non_resource_urls,
  )
  any-stretch_rule (named g r n) rule = ground (
    arith,
    any-resources (named g r n) rule rule.api_groups rule.resources,
    any-== g rule.api_groups,
    any-== r rule.resources,
    any-url_rule (named g r n) rule.verbs rule.non_resource_urls,
  )

  -- StretchPolicyRules gives a verb on a target exactly when the rules that it is given do and the
  -- cluster has the target's resource in its group.
  pub any-stretch_policy_rules :
      (t : Target) (rules : List PolicyRule)
      → any (gives t v) (stretch_policy_rules p rules) ≡ (any (gives t v) rules && is_present p t)
  unfolding stretch_policy_rules
  any-stretch_policy_rules t rules =
      any-flat_map (gives t v) (stretch_rule p) rules
      ∙ any_cong _ _ rules (any-stretch_rule t)
      ∙ any-&& (gives t v) (is_present p t) rules
