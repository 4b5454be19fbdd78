-- ===== src/Processor/Expand/Laws.antt =====
-- What the wildcards of a rule come to.
use kuberbac.Processor.Wellformed.{IsProcessor}
use kuberbac.GoMap.Laws.{contains-range, contains-keys, lookup_of_has}
use kuberbac.Processor.Expand.{
  keep, resource_type, expand_groups, expand_resources, group_resources, mark_group, mark_groups,
  clean_groups,
}
use kuberbac.Prelude.{
  lit, ◌≡◌, refl, Bool, true, ◌&&◌, ◌||◌, List, [], ◌∷◌, arith, Str, ◌==◌, ==_iff, split_of_Lacks,
  split-append, Lacks, All, any, contains-map, contains, contains-append, any_of_contains,
  contains-flat_map, ◌∙◌,
}
use kuberbac.GoMap.{has, keys, Occasion, Range, IsRange}
use kuberbac.Processor.Discovery.{Gvkr, PolicyRulesProcessor, slash, gvkrs_of, full_name}
use kuberbac.Processor.Stretch.{resource_found}

contains-keep :
    (p : Str → Bool) (v : Str) (xs : List Str) → contains (keep p xs) v ≡ (contains xs v && p v)
unfolding keep contains
contains-keep p v [] = refl
contains-keep p v (x ∷ xs) = ground (arith, ==_iff x v, contains-keep p v xs)

-- The list has the item or the wildcard.
abbrev pub mentions : List Str → Str → Bool
mentions xs x = contains xs (lit "*") || contains xs x

resource_type-full_name :
    (gvkr : Gvkr) → Lacks slash gvkr.resource → resource_type (full_name gvkr) ≡ gvkr.resource
unfolding resource_type full_name
resource_type-full_name gvkr h = ground (
  arith,
  split_of_Lacks slash gvkr.resource h,
  split-append slash gvkr.resource gvkr.subresource h,
)

any-resource_type :
    (resource : Str) (gvkrs : List Gvkr)
    → All (λ gvkr. Lacks slash gvkr.resource) gvkrs
    → any (λ gvkr. full_name gvkr == resource) gvkrs ≡ true
    → any (λ gvkr. gvkr.resource == resource_type resource) gvkrs ≡ true
unfolding any
any-resource_type resource [] h e = cc
any-resource_type resource (gvkr ∷ gvkrs) h e = ground (
  arith,
  ==_iff (full_name gvkr) resource,
  ==_iff gvkr.resource (resource_type resource),
  resource_type-full_name gvkr h.0,
  any-resource_type resource gvkrs h.1,
)

module _ (p : PolicyRulesProcessor) where
  has_type : Str → Str → Bool
  has_type group resource =
      any (λ gvkr. gvkr.resource == resource_type resource) (gvkrs_of p.resources_by_group group)

  pub has_of_resource_found :
      (group resource : Str)
      → resource_found p group resource ≡ true
      → has p.resources_by_group group ≡ true
  unfolding resource_found any
  has_of_resource_found group resource h = ground (arith, lookup_of_has p.resources_by_group group)

  contains-mark_groups :
      (resource g : Str) (marked groups : List Str)
      → contains (mark_groups p resource marked groups) g
        ≡ (contains marked g || (contains groups g && has_type g resource))
  unfolding mark_groups contains has_type
  contains-mark_groups resource g marked [] = ground arith
  contains-mark_groups resource g marked (group ∷ groups) = ground (
    arith,
    ==_iff group g,
    contains-append marked (group ∷ []) g,
    contains-mark_groups resource g (mark_group p resource marked group) groups,
  )

  contains-clean_groups :
      (g : Str) (marked resources groups : List Str)
      → contains (clean_groups p marked resources groups) g
        ≡ (contains marked g || (contains groups g && any (has_type g) resources))
  unfolding clean_groups any
  contains-clean_groups g marked [] groups = ground arith
  contains-clean_groups g marked (resource ∷ resources) groups = ground (
    arith,
    contains-mark_groups resource g marked groups,
    contains-clean_groups g (mark_groups p resource marked groups) resources groups,
  )

  contains-group_resources :
      (resource group : Str)
      → contains (group_resources p group) resource
        ≡ (has p.resources_by_group group && resource_found p group resource)
  unfolding group_resources resource_found contains
  contains-group_resources resource group =
      ground (arith, contains-map full_name resource (gvkrs_of p.resources_by_group group))

module _ {range : Range} (r : IsRange range) {p : PolicyRulesProcessor} (i : IsProcessor p) where
  contains-expand_groups :
      (o : Occasion) (groups : List Str) (g : Str)
      → contains (expand_groups range p o groups) g
        ≡ (mentions groups g && has p.resources_by_group g)
  unfolding expand_groups
  contains-expand_groups o groups g = ground (
    arith,
    contains-range r o (keys p.resources_by_group) g,
    contains-keys p.resources_by_group g,
    contains-keep (has p.resources_by_group) g groups,
  )

  -- The resource list holds what a group has.
  pub resource_list_of_found :
      (g resource : Str)
      → resource_found p g resource ≡ true
      → contains p.resource_list resource ≡ true
  resource_list_of_found g resource found =
      i.listed resource
      ∙ any_of_contains (λ group. resource_found p group resource) g (keys p.resources_by_group)
          (contains-keys p.resources_by_group g ∙ has_of_resource_found p g resource found) found

  contains-expand_resources :
      (groups resources : List Str) (g resource : Str)
      → resource_found p g resource ≡ true
      → contains groups g ≡ true
      → contains (expand_resources p groups resources) resource ≡ mentions resources resource
  unfolding expand_resources
  contains-expand_resources groups resources g resource found there = ground (
    arith,
    contains-keep (contains p.resource_list) resource resources,
    resource_list_of_found g resource,
    contains-flat_map (group_resources p) resource groups,
    any_of_contains (λ group. contains (group_resources p group) resource) g groups,
    contains-group_resources p resource g,
    has_of_resource_found p g resource,
  )

  has_type_of_found :
      (g resource : Str) (resources : List Str)
      → resource_found p g resource ≡ true
      → contains resources resource ≡ true
      → any (has_type p g) resources ≡ true
  has_type_of_found g resource resources found there =
      any_of_contains (has_type p g) resource resources there (
        unfold has_type resource_found in
        any-resource_type resource (gvkrs_of p.resources_by_group g) (i.plain g) found)

  -- The groups and the resources of an expanded rule, at a resource that the cluster has.
  pub expanded_pair :
      (o : Occasion) (groups resources : List Str) (g resource : Str)
      → resource_found p g resource ≡ true
      → let groups' = expand_groups range p o groups in
        let resources' = expand_resources p groups' resources in
        (contains (clean_groups p [] resources' groups') g && contains resources' resource)
        ≡ (mentions groups g && mentions resources resource)
  expanded_pair o groups resources g resource found =
      let groups' = expand_groups range p o groups in
      let resources' = expand_resources p groups' resources in
      unfold contains in
      ground (
        arith,
        contains-clean_groups p g [] resources' groups',
        contains-expand_groups o groups g,
        has_of_resource_found p g resource found,
        contains-expand_resources groups' resources g resource found,
        has_type_of_found g resource resources' found,
      )
