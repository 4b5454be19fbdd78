-- ===== src/Examples/Cluster.antt =====
-- A small cluster: its discovery answer, and the processor that comes of it.
use kuberbac.Prelude.{All, All_contains, Lacks, has_prefix, subst, arith, ◌∙◌}
use kuberbac.GoMap.Laws.{contains-keys}
use kuberbac.GoMap.{keys}
use kuberbac.Processor.Wellformed.{IsProcessor}
use kuberbac.Processor.Wellformed.Laws.{new_policy_rule_processor-IsProcessor}
use kuberbac.Processor.RuleMap.{hash, nonresourceurl}
use kuberbac.Processor.RuleMap.Singles.{IsKeyableCluster}
use kuberbac.Processor.Expand.Laws.{has_of_resource_found, resource_list_of_found}
use kuberbac.Prelude.{
  Bool, true, false, ◌≡◌, refl, List, [], ◌∷◌, Str, lit, ok, split, join, extend, ◌==◌,
}
use kuberbac.GoMap.{Range, IsRange, lookup, insert}
use kuberbac.Rbac.{ApiResource, ApiResourceList}
use kuberbac.Processor.Discovery.{new_policy_rule_processor, PolicyRulesProcessor, Gvkr}

-- The loops in the order in which the keys stand.
abbrev pub in_order : Range
in_order o ks = ks

pub in_order-IsRange : IsRange in_order
in_order-IsRange = record { visits = λ o ks k. refl }

abbrev pub standard_verbs : List Str
standard_verbs = lit "get" ∷ lit "list" ∷ []

abbrev pub resource_type : Str → Bool → Str → ApiResource
resource_type name namespaced kind = record {
  name = name;
  namespaced = namespaced;
  kind = kind;
  verbs = standard_verbs;
}

abbrev pub lists : List ApiResourceList
lists =
    record {
      group_version = lit "v1";
      api_resources =
          resource_type (lit "pods") true (lit "Pod")
          ∷ resource_type (lit "pods/log") true (lit "Pod")
          ∷ resource_type (lit "secrets") true (lit "Secret")
          ∷ resource_type (lit "nodes") false (lit "Node")
          ∷ [];
    }
    ∷ record {
      group_version = lit "apps/v1";
      api_resources = resource_type (lit "deployments") true (lit "Deployment") ∷ [];
    }
    ∷ []

abbrev pub gvkr : Str → Str → Str → Str → Str → Bool → Gvkr
gvkr group version kind resource subresource namespaced = record {
  gvk = record { group = group; version = version; kind = kind };
  resource = resource;
  subresource = subresource;
  namespaced = namespaced;
  usable_verbs = standard_verbs;
}

abbrev pub processor : PolicyRulesProcessor
processor = record {
  resources_by_group =
      (
        [],
        gvkr [] (lit "v1") (lit "Pod") (lit "pods") [] true
            ∷ gvkr [] (lit "v1") (lit "Pod") (lit "pods") (lit "log") true
            ∷ gvkr [] (lit "v1") (lit "Secret") (lit "secrets") [] true
            ∷ gvkr [] (lit "v1") (lit "Node") (lit "nodes") [] false
            ∷ [],
      )
      ∷ (
        lit "apps",
        gvkr (lit "apps") (lit "v1") (lit "Deployment") (lit "deployments") [] true ∷ [],
      )
      ∷ [];
  resource_list =
      lit "pods" ∷ lit "pods/log" ∷ lit "secrets" ∷ lit "nodes" ∷ lit "deployments" ∷ [];
}

processor_of_lists : new_policy_rule_processor in_order (ok lists) ≡ ok processor
unfolding new_policy_rule_processor ◌==◌ lookup insert split join extend
processor_of_lists = refl

pub processor-IsProcessor : IsProcessor processor
processor-IsProcessor =
    let (p, ran, i) = new_policy_rule_processor-IsProcessor in_order-IsRange lists in
    let e : p ≡ processor = cc (ran, processor_of_lists) in subst IsProcessor e i

abbrev IsKeyableGroup : Str → Type 0
IsKeyableGroup group = Lacks hash group × (has_prefix group nonresourceurl ≡ false)

groups_keyable : All IsKeyableGroup (keys processor.resources_by_group)
unfolding has_prefix
groups_keyable = ((tt, refl), ((omega arith, refl), tt))

resources_keyable : All (Lacks hash) processor.resource_list
resources_keyable = omega arith

pub processor-IsKeyableCluster : IsKeyableCluster processor
processor-IsKeyableCluster group resource found =
    let (lacks, apart) =
      All_contains IsKeyableGroup (keys processor.resources_by_group) group groups_keyable (
        contains-keys processor.resources_by_group group
        ∙ has_of_resource_found processor group resource found) in
    (
      lacks,
      apart,
      All_contains (Lacks hash) processor.resource_list resource resources_keyable
          (resource_list_of_found in_order-IsRange processor-IsProcessor group resource found),
    )
