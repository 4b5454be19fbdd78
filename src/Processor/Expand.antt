-- ===== src/Processor/Expand.antt =====
-- ExpandPolicyRules of internal/controller/dynamicclusterrole_sync.go: malformed rules are dropped, and
-- the wildcards of the others are replaced by what the cluster has.
pub mod Laws
pub mod Meaning
use kuberbac.Prelude.{
  Bool, true, false, not, ◌&&◌, ◌||◌, List, [], ◌∷◌, ◌++◌, map, Str, lit, ◌==◌, split, is_empty,
  any, flat_map, contains, if◌then◌else◌,
}
use kuberbac.GoMap.{has, keys, Occasion, Range}
use kuberbac.Rbac.{PolicyRule}
use kuberbac.Processor.Discovery.{Gvkr, PolicyRulesProcessor, slash, gvkrs_of, full_name}

abbrev pub star : Str
star = lit "*"

-- The four guards: no verbs; URLs beside groups, resources or names; neither URLs nor both groups and
-- resources; names without groups or resources.
unfoldable pub is_ignored : PolicyRule → Bool
is_ignored rule =
    is_empty rule.verbs
    || (not (is_empty rule.non_resource_urls)
        && (not (is_empty rule.api_groups)
            || not (is_empty rule.resources)
            || not (is_empty rule.resource_names)))
    || (is_empty rule.non_resource_urls && (is_empty rule.api_groups || is_empty rule.resources))
    || (not (is_empty rule.resource_names) && (is_empty rule.api_groups || is_empty rule.resources))

-- A loop that appends the items which pass a test.
unfoldable pub keep : (Str → Bool) → List Str → List Str
keep p [] = []
keep p (x ∷ xs) = let rest = keep p xs in if p x then x ∷ rest else rest

-- `strings.Split(resource, "/")[0]`; a split is never empty (`split-ne-nil`).
abbrev pub first_part : List Str → Str
first_part [] = []
first_part (part ∷ parts) = part

unfoldable pub resource_type : Str → Str
unfolding split
resource_type resource = first_part (split slash resource)

-- 4. The verbs.
abbrev pub wildcard_verbs : List Str
wildcard_verbs =
    lit "create"
    ∷ lit "delete"
    ∷ lit "deletecollection"
    ∷ lit "get"
    ∷ lit "list"
    ∷ lit "patch"
    ∷ lit "update"
    ∷ lit "watch"
    ∷ []

unfoldable pub expand_verbs : List Str → List Str
unfolding contains
expand_verbs verbs = if contains verbs star then wildcard_verbs else verbs

module _ (p : PolicyRulesProcessor) where
  -- 2. The resources, for the groups found in 1.
  group_resources : Str → List Str
  unfolding full_name has
  group_resources group =
      if has p.resources_by_group group
      then map full_name (gvkrs_of p.resources_by_group group)
      else []

  unfoldable pub expand_resources : List Str → List Str → List Str
  unfolding contains keep flat_map group_resources
  expand_resources new_groups resources =
      if contains resources star
      then flat_map group_resources new_groups
      else keep (contains p.resource_list) resources

  -- 2.1. One round of the cleanup: the group is marked, once, if it has the resource's type.
  mark_group : Str → List Str → Str → List Str
  unfolding contains any ◌==◌ resource_type
  mark_group resource marked group =
      if any (λ gvkr. gvkr.resource == resource_type resource) (gvkrs_of p.resources_by_group group)
        && not (contains marked group)
      then marked ++ group ∷ []
      else marked

  mark_groups : Str → List Str → List Str → List Str
  unfolding mark_group
  mark_groups resource marked [] = marked
  mark_groups resource marked (group ∷ groups) =
      mark_groups resource (mark_group resource marked group) groups

  unfoldable pub clean_groups : List Str → List Str → List Str → List Str
  unfolding mark_groups
  clean_groups marked [] groups = marked
  clean_groups marked (resource ∷ resources) groups =
      clean_groups (mark_groups resource marked groups) resources groups

module _ (range : Range) (p : PolicyRulesProcessor) where
  -- 1. The groups.
  unfoldable pub expand_groups : Occasion → List Str → List Str
  unfolding contains keep has
  expand_groups o groups =
      if contains groups star
      then range o (keys p.resources_by_group)
      else keep (has p.resources_by_group) groups

  unfoldable pub expand_rule : Occasion → PolicyRule → PolicyRule
  unfolding expand_groups expand_resources clean_groups expand_verbs
  expand_rule o rule =
      let groups = expand_groups o rule.api_groups in
      let resources = expand_resources p groups rule.resources in
      record {
        verbs = expand_verbs rule.verbs;
        api_groups = clean_groups p [] resources groups;
        resources = resources;
        resource_names = rule.resource_names;
        non_resource_urls = rule.non_resource_urls;
      }

  -- The occasion of a loop grows by a text for each rule in front.
  unfoldable pub expand_policy_rules : Occasion → List PolicyRule → List PolicyRule
  unfolding is_ignored expand_rule
  expand_policy_rules o [] = []
  expand_policy_rules o (rule ∷ rules) =
      let rest = expand_policy_rules ([] ∷ o) rules in
      if is_ignored rule then rest else expand_rule o rule ∷ rest
