-- ===== src/Examples/Granted.antt =====
-- The meaning of allow and deny rules at concrete inputs.
use kuberbac.Prelude.{
  err, Error, ApiError, subst, sym, ◌∙◌, ==_iff, if◌then◌else◌, ◌≡◌, ◌↔◌, refl, true, false, some,
  List, [], ◌∷◌, Str, lit, All, any, arith, ok, ◌==◌, split, join, extend,
}
use kuberbac.GoMap.{GoMap, has, lookup, insert, Occasion}
use kuberbac.Rbac.{PolicyRule}
use kuberbac.Resources.{DynamicClusterRole}
use kuberbac.Processor.Discovery.{new_policy_rule_processor}
use kuberbac.Processor.Targets.{Target, generic, gives}
use kuberbac.Processor.Keys.{key_of, IsKeyable}
use kuberbac.Processor.RuleMap.{values, verbs_at, url_key}
use kuberbac.Processor.RuleMap.Laws.{IsRuleMap}
use kuberbac.Processor.RuleMap.Singles.{IsName}
use kuberbac.Processor.Special.{Lister, evaluate_special_cases}
use kuberbac.Processor.Served.{listed_kind, last_kind}
use kuberbac.Processor.Special.Rounds.{after, touches, touches_key-key_of}
use kuberbac.Processor.Special.Laws.{is_touched, evaluate_special_cases_lem}
use kuberbac.Processor.Pipeline.{at, evaluate}
use kuberbac.Processor.Granted.{IsGranted}
use kuberbac.Processor.Granted.Laws.{evaluate_lem}
use kuberbac.ClusterRole.Types.{ClusterRole, Api}
use kuberbac.ClusterRole.Plan.{plan}
use kuberbac.ClusterRole.Scopes.{target_scope}
use kuberbac.ClusterRole.Rules.{plan_lem, plan-separate}
use kuberbac.Examples.Cluster.{
  in_order, in_order-IsRange, lists, processor, processor-IsProcessor, processor-IsKeyableCluster,
}
use kuberbac.Examples.Steps.{
  deny_map, deny_map-IsRuleMap, map_of, map_of-IsRuleMap, web, web-IsKeyable, pods, pods-IsKeyable,
  pods_rule, named_rule, named_rule-HasNames,
}
use kuberbac.Examples.Controllers.{cluster_resource, cluster_client}

abbrev objects : Str → Str → List Str
objects g r = lit "web" ∷ lit "db" ∷ []

objects-IsName : (g r : Str) → All IsName (objects g r)
objects-IsName g r = ((omega arith, λ e. cc), ((omega arith, λ e. cc), tt))

-- The cluster lists pods, and refuses other lists.
abbrev pod_list : Lister
pod_list key gvk =
    if gvk.kind == lit "Pod"
    then ok (lit "web" ∷ lit "db" ∷ [])
    else err (Error.api ApiError.not_found)

abbrev list : Lister
list key gvk = ok (lit "web" ∷ lit "db" ∷ [])

-- All pods are allowed.
abbrev pods_map : GoMap PolicyRule
pods_map = map_of pods (lit "get" ∷ lit "list" ∷ [])

pods_kind :
    (if (listed_kind processor [] (lit "pods")).kind == lit "Pod"
      then ok (lit "web" ∷ lit "db" ∷ [])
      else err (Error.api ApiError.not_found))
    ≡ ok (lit "web" ∷ lit "db" ∷ [])
unfolding last_kind split lookup ◌==◌
pods_kind = refl

pods_listed :
    (g r : Str)
    → IsKeyable (generic g r)
    → is_touched deny_map g r ≡ true
    → (d : Str) → pod_list d (listed_kind processor g r) ≡ ok (objects g r)
unfolding any
pods_listed g r k touched d =
    let same : touches web g r ≡ true =
      sym (touches_key-key_of g r web k web-IsKeyable) ∙ ground (arith, touched) in
    let e : [] ≡ g = (==_iff [] g).0 (ground (arith, same)) in
    let f : lit "pods" ≡ r = (==_iff (lit "pods") r).0 (ground (arith, same)) in
    subst (λ g'. pod_list d (listed_kind processor g' r) ≡ ok (objects g' r)) e
      (subst (λ r'. pod_list d (listed_kind processor [] r') ≡ ok (objects [] r')) f pods_kind)

evaluate_special_cases_lem_example :
    (result : GoMap PolicyRule) × (evaluate_special_cases processor pod_list in_order pods_map
        deny_map
      ≡ ok result)
    × IsRuleMap result
    × ((u : Str) → has result (url_key u) ≡ has pods_map (url_key u))
    × ((t : Target)
        → IsKeyable t
        → verbs_at result (key_of t) ≡ after objects (is_touched deny_map) pods_map t)
evaluate_special_cases_lem_example =
    evaluate_special_cases_lem in_order-IsRange processor objects pod_list pods_map deny_map
      objects-IsName pods_listed deny_map-IsRuleMap
      (map_of-IsRuleMap pods (lit "get" ∷ lit "list" ∷ []) pods-IsKeyable)

evaluate_lem_example :
    (result : GoMap PolicyRule) × (evaluate in_order list processor
        (pods_rule ∷ [])
        (named_rule ∷ [])
      ≡ ok result)
    × ((o : Occasion) (t : Target) (v : Str)
        → IsKeyable t
        → (any (gives t v) (values in_order o result) ≡ true)
          ↔ IsGranted processor objects (pods_rule ∷ []) (named_rule ∷ []) t v)
evaluate_lem_example =
    evaluate_lem in_order-IsRange processor-IsProcessor processor-IsKeyableCluster objects list
      objects-IsName (pods_rule ∷ []) (named_rule ∷ []) (tt, tt) named_rule-HasNames
      (λ g r touched d. refl)

abbrev client : Api
client = record cluster_client { list_objects = λ writes. list }

abbrev resource : DynamicClusterRole
resource = record cluster_resource {
  target = record cluster_resource.target { separate_scopes = false };
  allow = pods_rule ∷ [];
  deny = named_rule ∷ [];
}

abbrev separated : DynamicClusterRole
separated = record resource { target = record resource.target { separate_scopes = true } }

generated : new_policy_rule_processor (at in_order "resources") (ok lists) ≡ ok processor
unfolding new_policy_rule_processor ◌==◌ lookup insert split join extend
generated = refl

plan_lem_example :
    (role : ClusterRole) × (plan client in_order resource [] ≡ ok (role ∷ []))
    × (role.name ≡ lit "admin")
    × ((t : Target) (v : Str)
        → IsKeyable t
        → (any (gives t v) role.rules ≡ true)
          ↔ IsGranted processor objects (pods_rule ∷ []) (named_rule ∷ []) t v)
plan_lem_example =
    plan_lem client in_order-IsRange resource [] generated processor-IsKeyableCluster objects
      objects-IsName (tt, tt) named_rule-HasNames (λ g r touched d. refl) refl

plan-separate_example :
    (cluster namespace : ClusterRole) × (plan client in_order separated []
      ≡ ok (cluster ∷ namespace ∷ []))
    × (cluster.name ≡ lit "admin-cluster")
    × (namespace.name ≡ lit "admin-namespace")
    × ((t : Target) (v : Str)
        → IsKeyable t
        → (any (gives t v) cluster.rules ≡ true) ↔ (
            IsGranted processor objects (pods_rule ∷ []) (named_rule ∷ []) t v
            × (target_scope processor t ≡ some false)))
    × ((t : Target) (v : Str)
        → IsKeyable t
        → (any (gives t v) namespace.rules ≡ true) ↔ (
            IsGranted processor objects (pods_rule ∷ []) (named_rule ∷ []) t v
            × (target_scope processor t ≡ some true)))
plan-separate_example =
    plan-separate client in_order-IsRange separated [] generated processor-IsKeyableCluster objects
      objects-IsName (tt, tt) named_rule-HasNames (λ g r touched d. refl) refl (refl, tt)
