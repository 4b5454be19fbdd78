-- ===== src/Processor/Special.antt =====
-- EvaluateSpecialCases of internal/controller/dynamicclusterrole_sync.go: an allow rule for a whole
-- resource becomes a rule for each object of it, where a deny rule names an object of the resource.
--
-- `p.Client.List` is a parameter: a `Lister` gives, for the deny key at whose round the call is made and
-- the kind that it asks for, the names of the objects or the error of the call.
pub mod Objects
pub mod Rounds
pub mod Verbs
pub mod Laws
use kuberbac.Prelude.{
  List, [], ◌∷◌, ◌++◌, Str, ◌==◌, has_prefix, split, join, get_elem?, if◌then◌else◌, Outcome, ok,
  ◌>>=◌, or_panic,
}
use kuberbac.GoMap.{GoMap, has, insert, delete, keys, Range}
use kuberbac.Rbac.{PolicyRule, GroupVersionKind}
use kuberbac.Processor.Discovery.{Gvkr, PolicyRulesProcessor, slash, gvkrs_of}
use kuberbac.Processor.RuleMap.{hash, nonresourceurl, rule_at}

abbrev pub Lister : Type 0
Lister = Str → GroupVersionKind → Outcome (List Str)

-- `GVKR{}.GVK`
abbrev pub zero_gvk : GroupVersionKind
zero_gvk = record { group = []; version = []; kind = [] }

-- The kind of the last resource type with the name.
unfoldable pub find_gvk : Str → GroupVersionKind → List Gvkr → GroupVersionKind
find_gvk core_resource_type found [] = found
find_gvk core_resource_type found (gvkr ∷ gvkrs) =
    find_gvk core_resource_type (if gvkr.resource == core_resource_type then gvkr.gvk else found)
      gvkrs

abbrev pub object_rule : Str → PolicyRule → PolicyRule
object_rule name rule = record {
  verbs = rule.verbs;
  api_groups = rule.api_groups;
  resources = rule.resources;
  resource_names = name ∷ [];
  non_resource_urls = [];
}

-- The loop over the objects.
unfoldable pub add_objects : Str → List Str → GoMap PolicyRule → GoMap PolicyRule
add_objects key [] allow_map = allow_map
add_objects key (name ∷ names) allow_map =
    add_objects key names
      (insert (key ++ name) (object_rule name (rule_at allow_map key)) allow_map)

-- `strings.Join(parts[:2], "#") + "#"`
unfoldable pub generic_key : List Str → Str
generic_key [] = hash ∷ []
generic_key (a ∷ []) = a ++ hash ∷ []
generic_key (a ∷ b ∷ parts) = join hash (a ∷ b ∷ []) ++ hash ∷ []

module _ (p : PolicyRulesProcessor) (list : Lister) where
  unfoldable pub expand_objects :
      Str → PolicyRule → Str → GoMap PolicyRule → Outcome (GoMap PolicyRule)
  expand_objects deny_map_key policy_rule key allow_map = do
    resource ← or_panic (get_elem? policy_rule.resources 0)
    core_resource_type ← or_panic (get_elem? (split slash resource) 0)
    group ← or_panic (get_elem? policy_rule.api_groups 0)
    names ←
        list deny_map_key
          (find_gvk core_resource_type zero_gvk (gvkrs_of p.resources_by_group group))
    ok (delete key (add_objects key names allow_map))

  -- A deny rule for a resource, with the parts of its key.
  unfoldable pub special_named :
      Str → PolicyRule → List Str → Str → GoMap PolicyRule → Outcome (GoMap PolicyRule)
  special_named deny_map_key policy_rule parts name allow_map =
      if name == []
      then ok allow_map
      else if has allow_map (generic_key parts)
      then expand_objects deny_map_key policy_rule (generic_key parts) allow_map
      else ok allow_map

  -- One round of the loop over the deny rules.
  unfoldable pub special_round : Str → PolicyRule → GoMap PolicyRule → Outcome (GoMap PolicyRule)
  special_round deny_map_key policy_rule allow_map =
      if has_prefix deny_map_key nonresourceurl then ok allow_map else (do
        name ← or_panic (get_elem? (split hash deny_map_key) 2)
        special_named deny_map_key policy_rule (split hash deny_map_key) name allow_map)

  unfoldable pub special_over :
      List Str → GoMap PolicyRule → GoMap PolicyRule → Outcome (GoMap PolicyRule)
  special_over [] deny_map allow_map = ok allow_map
  special_over (k ∷ ks) deny_map allow_map = do
    allow_map' ← special_round k (rule_at deny_map k) allow_map
    special_over ks deny_map allow_map'

  unfoldable pub evaluate_special_cases :
      Range → GoMap PolicyRule → GoMap PolicyRule → Outcome (GoMap PolicyRule)
  evaluate_special_cases range allow_map deny_map =
      special_over (range [] (keys deny_map)) deny_map allow_map
