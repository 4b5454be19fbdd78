-- ===== src/Examples/Steps.antt =====
-- The processor's steps at concrete inputs.
use kuberbac.Prelude.{
  Bool-cases, ==_iff, ◌==◌, sym, has_prefix, ◌≡◌, ◌↔◌, refl, inl, inr, true, false, ◌&&◌, List, [],
  ◌∷◌, ◌++◌, arith, Str, lit, All, any, contains, count, ok, panic, some,
}
use kuberbac.GoMap.{GoMap, lookup}
use kuberbac.Rbac.{PolicyRule, ApiResourceList, url_rule}
use kuberbac.Processor.Discovery.{
  PolicyRulesProcessor, Gvkr, new_policy_rule_processor, set_resources_by_group, full_name, gvkr_of,
}
use kuberbac.Processor.Discovery.Laws.{
  resource_types, list_group, set_resources_by_group-last, full_name-gvkr_of,
}
use kuberbac.Processor.Verbs.{get_surviving_verbs}
use kuberbac.Processor.Verbs.Laws.{count-get_surviving_verbs}
use kuberbac.Processor.Targets.{Target, generic, named, gives, single}
use kuberbac.Processor.Stretch.{stretch_policy_rules}
use kuberbac.Processor.Served.{is_served}
use kuberbac.Processor.Expand.{expand_policy_rules}
use kuberbac.Processor.Expand.Meaning.{asks, any-stretch-expand}
use kuberbac.Processor.Wellformed.{IsProcessor}
use kuberbac.Processor.Wellformed.Laws.{new_policy_rule_processor-IsProcessor}
use kuberbac.Processor.RuleMap.{get_map_from_stretched_policy_rules, verbs_at}
use kuberbac.Processor.RuleMap.Laws.{IsSingle, IsRuleMap, get_map_from_stretched_policy_rules_lem}
use kuberbac.Processor.RuleMap.Singles.{HasNames, stretch_policy_rules-IsSingle}
use kuberbac.Processor.Keys.{key_of, IsKeyable}
use kuberbac.Processor.Keys.Evaluation.{IsDenied, evaluate_policy_rules_lem}
use kuberbac.Processor.Evaluate.{evaluate_policy_rules}
use kuberbac.Processor.Split.{split_policy_rules}
use kuberbac.Processor.Split.Laws.{
  keep_rules, rule_scope, is_scope, split_policy_rules_lem, split_policy_rules-panic,
}
use kuberbac.Examples.Cluster.{
  in_order, in_order-IsRange, lists, resource_type, processor, processor-IsProcessor,
  processor-IsKeyableCluster,
}

abbrev pub pods : Target
pods = generic [] (lit "pods")

abbrev pub pods_rule : PolicyRule
pods_rule = record {
  verbs = lit "get" ∷ lit "list" ∷ [];
  api_groups = lit "*" ∷ [];
  resources = lit "pods" ∷ lit "secrets" ∷ [];
  resource_names = [];
  non_resource_urls = [];
}

abbrev pub named_rule : PolicyRule
named_rule = record {
  verbs = lit "list" ∷ [];
  api_groups = [] ∷ [];
  resources = lit "pods" ∷ [];
  resource_names = lit "web" ∷ [];
  non_resource_urls = [];
}

count-get_surviving_verbs_example :
    count
      (lit "get")
      (get_surviving_verbs in_order [] (lit "get" ∷ lit "list" ∷ []) (lit "list" ∷ []))
    ≡ 1
unfolding contains ◌==◌
count-get_surviving_verbs_example =
    count-get_surviving_verbs in_order-IsRange [] (lit "get" ∷ lit "list" ∷ []) (lit "list" ∷ [])
      (lit "get")

-- Two versions of the group "apps": the first has a resource type that the second has not.
abbrev apps_beta : ApiResourceList
apps_beta = record {
  group_version = lit "apps/v1beta1";
  api_resources = resource_type (lit "scales") true (lit "Scale") ∷ [];
}

abbrev apps : ApiResourceList
apps = record {
  group_version = lit "apps/v1";
  api_resources = resource_type (lit "deployments") true (lit "Deployment") ∷ [];
}

set_resources_by_group-last_example :
    (m : GoMap (List Gvkr)) × (set_resources_by_group (ok (apps_beta ∷ apps ∷ [])) ≡ ok m)
    × (lookup (list_group apps) m ≡ some (resource_types apps))
set_resources_by_group-last_example = set_resources_by_group-last (apps_beta ∷ []) apps [] tt

full_name-gvkr_of_example :
    (gvkr : Gvkr) × (gvkr_of [] (lit "v1") (resource_type (lit "pods/log") true (lit "Pod"))
      ≡ ok gvkr)
    × (full_name gvkr ≡ lit "pods/log")
full_name-gvkr_of_example =
    full_name-gvkr_of [] (lit "v1") (resource_type (lit "pods/log") true (lit "Pod"))
      (inr (lit "pods", lit "log", omega arith, λ e. cc, refl))

new_policy_rule_processor-IsProcessor_example :
    (p : PolicyRulesProcessor) × (new_policy_rule_processor in_order (ok lists) ≡ ok p)
    × IsProcessor p
new_policy_rule_processor-IsProcessor_example =
    new_policy_rule_processor-IsProcessor in_order-IsRange lists

any-stretch-expand_example :
    any
      (gives pods (lit "get"))
      (stretch_policy_rules processor (expand_policy_rules in_order processor [] (pods_rule ∷ [])))
    ≡ (any (asks pods (lit "get")) (pods_rule ∷ []) && is_served processor pods)
any-stretch-expand_example =
    any-stretch-expand in_order-IsRange processor-IsProcessor (lit "get") pods [] (pods_rule ∷ [])

pub named_rule-HasNames : All HasNames (named_rule ∷ [])
named_rule-HasNames = (((omega arith, λ e. cc), tt), tt)

stretch_policy_rules-IsSingle_example :
    All IsSingle (stretch_policy_rules processor (named_rule ∷ []))
stretch_policy_rules-IsSingle_example =
    stretch_policy_rules-IsSingle processor processor-IsKeyableCluster (named_rule ∷ [])
      named_rule-HasNames

abbrev pub web : Target
web = named [] (lit "pods") (lit "web")

pub web-IsKeyable : IsKeyable web
unfolding has_prefix
web-IsKeyable = (tt, refl, omega arith, omega arith, λ e. cc)

pub pods-IsKeyable : IsKeyable pods
unfolding has_prefix
pods-IsKeyable = (tt, refl, omega arith)

abbrev deny_rules : List PolicyRule
deny_rules = single web (lit "list" ∷ []) ∷ single web (lit "get" ∷ []) ∷ []

deny_rules-IsSingle : All IsSingle deny_rules
deny_rules-IsSingle = (
  record { target = web; verbs = lit "list" ∷ []; keyable = web-IsKeyable; shape = refl },
  (record { target = web; verbs = lit "get" ∷ []; keyable = web-IsKeyable; shape = refl }, tt),
)

get_map_from_stretched_policy_rules_lem_example :
    (m : GoMap PolicyRule) × (get_map_from_stretched_policy_rules deny_rules ≡ ok m)
    × IsRuleMap m
    × ((t : Target) (v : Str)
        → IsKeyable t
        → contains (verbs_at m (key_of t)) v ≡ any (gives t v) deny_rules)
get_map_from_stretched_policy_rules_lem_example =
    get_map_from_stretched_policy_rules_lem deny_rules deny_rules-IsSingle

-- A map with one rule.
abbrev pub map_of : Target → List Str → GoMap PolicyRule
map_of t verbs = (key_of t, single t verbs) ∷ []

pub map_of-IsRuleMap : (t : Target) (verbs : List Str) → IsKeyable t → IsRuleMap (map_of t verbs)
unfolding lookup
map_of-IsRuleMap t verbs h k rule e = elim (Bool-cases (key_of t == k)) [
  | inl same ↦ record {
    target = t;
    keyable = h;
    key = sym ((==_iff (key_of t) k).0 same);
    shape = ground (arith, e, same);
  }
  | inr other ↦ absurd (ground (arith, e, other))
]

abbrev pub deny_map : GoMap PolicyRule
deny_map = map_of web (lit "list" ∷ [])

abbrev pub allow_map : GoMap PolicyRule
allow_map = map_of web (lit "get" ∷ lit "list" ∷ [])

pub deny_map-IsRuleMap : IsRuleMap deny_map
deny_map-IsRuleMap = map_of-IsRuleMap web _ web-IsKeyable

evaluate_policy_rules_lem_example :
    (result : GoMap PolicyRule) × (evaluate_policy_rules in_order allow_map deny_map ≡ ok result)
    × ((t : Target) (v : Str)
        → IsKeyable t
        → (contains (verbs_at result (key_of t)) v ≡ true)
          ↔ ((contains (verbs_at allow_map (key_of t)) v ≡ true) × ¬ IsDenied deny_map t v))
evaluate_policy_rules_lem_example =
    evaluate_policy_rules_lem in_order-IsRange allow_map deny_map deny_map-IsRuleMap

abbrev scoped_rules : List PolicyRule
scoped_rules =
    single pods (lit "get" ∷ []) ∷ single (generic [] (lit "nodes")) (lit "get" ∷ []) ∷ []

split_policy_rules_lem_example :
    split_policy_rules processor scoped_rules
    ≡ ok (record {
      cluster_scoped = keep_rules (λ r. is_scope false (rule_scope processor r)) scoped_rules;
      namespace_scoped = keep_rules (λ r. is_scope true (rule_scope processor r)) scoped_rules;
    })
split_policy_rules_lem_example =
    split_policy_rules_lem processor scoped_rules ((refl, refl), ((refl, refl), tt))

split_policy_rules-panic_example :
    split_policy_rules processor (scoped_rules ++ url_rule (lit "get" ∷ []) (lit "/metrics") ∷ [])
    ≡ panic
split_policy_rules-panic_example =
    split_policy_rules-panic processor scoped_rules (url_rule (lit "get" ∷ []) (lit "/metrics")) []
      refl
