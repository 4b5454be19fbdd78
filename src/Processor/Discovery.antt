-- ===== src/Processor/Discovery.antt =====
-- GVKR, SetResourcesByGroup and SetResourceList: what the processor knows of the cluster's resource
-- types. The discovery client is a parameter: its answer is an argument.
pub mod Laws
use kuberbac.Prelude.{
  ℕ, Bool, List, [], ◌∷◌, ◌++◌, map, Str, ◌==◌, split, join, flat_map, if◌then◌else◌, Outcome, ok,
  panic, ◌>>=◌,
}
use mathlib.Core.Option.{get_or}
use kuberbac.GoMap.{GoMap, lookup, insert, keys, Range}
use kuberbac.Rbac.{ApiResource, ApiResourceList, GroupVersionKind}

pub record Gvkr : Type 0 where
  pub gvk : GroupVersionKind
  pub resource : Str
  pub subresource : Str
  pub namespaced : Bool
  pub usable_verbs : List Str

-- PolicyRulesProcessorT, less the clients.
pub record PolicyRulesProcessor : Type 0 where
  pub resources_by_group : GoMap (List Gvkr)
  pub resource_list : List Str

abbrev pub slash : ℕ
slash = b'/'

-- `p.ResourcesByGroup[group]`: nil for a group that is not there.
abbrev pub gvkrs_of : GoMap (List Gvkr) → Str → List Gvkr
gvkrs_of by_group group = get_or (lookup group by_group) []

-- The group and the version of "group/version", or of "version" for the core group.
unfoldable pub group_version_of : List Str → Outcome (Str × Str)
group_version_of [] = panic
group_version_of (version ∷ []) = ok ([], version)
group_version_of (group ∷ version ∷ []) = ok (group, version)
group_version_of (version ∷ _ ∷ _ ∷ _) = ok ([], version)

-- The resource and the subresource of "resource/subresource".
unfoldable pub resource_of : List Str → Outcome (Str × Str)
resource_of [] = panic
resource_of (resource ∷ []) = ok (resource, [])
resource_of (resource ∷ part ∷ parts) = ok (resource, join slash (part ∷ parts))

unfoldable pub gvkr_of : Str → Str → ApiResource → Outcome Gvkr
unfolding resource_of
gvkr_of group version api_resource = do
  (resource, subresource) ← resource_of (split slash api_resource.name)
  ok (record {
    gvk = record { group = group; version = version; kind = api_resource.kind };
    resource = resource;
    subresource = subresource;
    namespaced = api_resource.namespaced;
    usable_verbs = api_resource.verbs;
  })

-- The inner loop: each resource is appended to its group's slice.
unfoldable pub add_resources :
    Str → Str → List ApiResource → GoMap (List Gvkr) → Outcome (GoMap (List Gvkr))
unfolding gvkr_of
add_resources group version [] by_group = ok by_group
add_resources group version (api_resource ∷ api_resources) by_group = do
  gvkr ← gvkr_of group version api_resource
  add_resources group version api_resources
      (insert group (gvkrs_of by_group group ++ gvkr ∷ []) by_group)

-- The outer loop: the group's slice is made anew for each list of the group.
unfoldable pub add_lists : List ApiResourceList → GoMap (List Gvkr) → Outcome (GoMap (List Gvkr))
unfolding add_resources group_version_of
add_lists [] by_group = ok by_group
add_lists (resources_list ∷ lists) by_group = do
  (group, version) ← group_version_of (split slash resources_list.group_version)
  by_group' ← add_resources group version resources_list.api_resources (insert group [] by_group)
  add_lists lists by_group'

unfoldable pub set_resources_by_group : Outcome (List ApiResourceList) → Outcome (GoMap (List Gvkr))
unfolding add_lists
set_resources_by_group answer = do lists ← answer; add_lists lists []

-- `res.Resource`, with "/" and `res.Subresource` if that is not empty.
unfoldable pub full_name : Gvkr → Str
unfolding ◌==◌
full_name res =
    if res.subresource == [] then res.resource else res.resource ++ slash ∷ res.subresource

-- SetResourceList, over the groups in the order of the run.
unfoldable pub set_resource_list : Range → GoMap (List Gvkr) → List Str
unfolding flat_map full_name
set_resource_list range by_group =
    flat_map (λ group. map full_name (gvkrs_of by_group group)) (range [] (keys by_group))

unfoldable pub new_policy_rule_processor :
    Range → Outcome (List ApiResourceList) → Outcome PolicyRulesProcessor
unfolding set_resources_by_group set_resource_list
new_policy_rule_processor range answer = do
  by_group ← set_resources_by_group answer
  ok (record { resources_by_group = by_group; resource_list = set_resource_list range by_group })
