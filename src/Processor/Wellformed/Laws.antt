-- ===== src/Processor/Wellformed/Laws.antt =====
-- NewPolicyRuleProcessor establishes the invariant.
use kuberbac.Prelude.{
  ◌≡◌, ◌∙◌, Option, none, some, List, [], ◌∷◌, map, Str, ◌==◌, split, AllLack-split, AllLack, Lacks,
  All, All-map, any, any_cong, contains, contains-map, contains-flat_map, if◌then◌else◌, if_intro,
  ok,
}
use mathlib.Core.Option.{get_or}
use kuberbac.GoMap.{GoMap, keys, Range, IsRange}
use kuberbac.GoMap.Laws.{any-range}
use kuberbac.Rbac.{ApiResourceList}
use kuberbac.Processor.Discovery.{
  Gvkr, PolicyRulesProcessor, slash, gvkrs_of, full_name, set_resource_list,
  new_policy_rule_processor,
}
use kuberbac.Processor.Discovery.Laws.{
  head_part, list_group, resource_types, last_types, set_resources_by_group_lem,
}
use kuberbac.Processor.Stretch.{resource_found}
use kuberbac.Processor.Wellformed.{IsProcessor}

abbrev ArePlain : List Gvkr → Type 0
ArePlain = All (λ gvkr. Lacks slash gvkr.resource)

head_part-Lacks : (parts : List Str) → AllLack slash parts → Lacks slash (head_part parts)
head_part-Lacks [] h = tt
head_part-Lacks (part ∷ parts) h = h.0

resource_types-ArePlain : (l : ApiResourceList) → ArePlain (resource_types l)
resource_types-ArePlain l =
    All-map _ _ l.api_resources
      (λ a. head_part-Lacks (split slash a.name) (AllLack-split slash a.name))

last_types-ArePlain :
    (group : Str) (lists : List ApiResourceList) (found : Option (List Gvkr))
    → ArePlain (get_or found [])
    → ArePlain (get_or (last_types group found lists) [])
unfolding last_types
last_types-ArePlain group [] found h = h
last_types-ArePlain group (l ∷ lists) found h =
    last_types-ArePlain group lists
      (if list_group l == group then some (resource_types l) else found)
      (if_intro (λ o. ArePlain (get_or o [])) (list_group l == group) (resource_types-ArePlain l) h)

module _ {range : Range} (r : IsRange range) where
  contains-set_resource_list :
      (by_group : GoMap (List Gvkr)) (resource : Str)
      → contains (set_resource_list range by_group) resource
        ≡ any
            (λ group. any (λ gvkr. full_name gvkr == resource) (gvkrs_of by_group group))
            (keys by_group)
  unfolding set_resource_list
  contains-set_resource_list by_group resource =
      contains-flat_map (λ group. map full_name (gvkrs_of by_group group)) resource
        (range [] (keys by_group))
      ∙ any_cong _ _ (range [] (keys by_group))
          (λ group. contains-map full_name resource (gvkrs_of by_group group))
      ∙ any-range r [] _ (keys by_group)

  -- NewPolicyRuleProcessor succeeds on every answer of the discovery client that is no error, and the
  -- processor that it returns meets the invariant.
  pub new_policy_rule_processor-IsProcessor :
      (lists : List ApiResourceList)
      → (p : PolicyRulesProcessor) × (new_policy_rule_processor range (ok lists) ≡ ok p)
        × IsProcessor p
  unfolding new_policy_rule_processor
  new_policy_rule_processor-IsProcessor lists =
      let (m, ran, looks) = set_resources_by_group_lem lists in
      (
        record { resources_by_group = m; resource_list = set_resource_list range m },
        rw ran,
        record {
          plain = λ group. rw (looks group) (last_types-ArePlain group lists none tt);
          listed = λ resource. unfold resource_found in contains-set_resource_list m resource;
        },
      )
