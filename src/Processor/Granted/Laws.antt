-- ===== src/Processor/Granted/Laws.antt =====
-- The steps of the processor, together, give what the user's rules mean.
use kuberbac.Prelude.{◌≡◌, ◌∙◌, sym, ap, subst, ◌↔◌, true, List, Str, All, any, contains, ok, Holds}
use kuberbac.GoMap.{GoMap, Occasion, Range, IsRange}
use kuberbac.Rbac.{PolicyRule}
use kuberbac.Processor.Discovery.{PolicyRulesProcessor}
use kuberbac.Processor.Targets.{Target, url, gives}
use kuberbac.Processor.Wellformed.{IsProcessor}
use kuberbac.Processor.RuleMap.{values}
use kuberbac.Processor.RuleMap.Laws.{IsRuleMap}
use kuberbac.Processor.RuleMap.Singles.{IsKeyableCluster, IsName, HasNames}
use kuberbac.Processor.Keys.{key_of, IsKeyable}
use kuberbac.Processor.Keys.Evaluation.{evaluate_policy_rules_lem}
use kuberbac.Processor.Keys.Kept.{evaluate_policy_rules-IsRuleMap}
use kuberbac.Processor.Keys.Fewer.{IsFewer, evaluate_policy_rules-IsFewer}
use kuberbac.Processor.Keys.Values.{any-values}
use kuberbac.Processor.Served.{listed_kind}
use kuberbac.Processor.Special.{Lister}
use kuberbac.Processor.Special.Laws.{evaluate_special_cases_lem}
use kuberbac.Processor.Pipeline.{evaluate}
use kuberbac.Processor.Granted.Maps.{
  at-IsRange, IsTouched-iff, IsMapOf-rules, IsAllowed-iff, IsRefused-iff,
}
use kuberbac.Processor.Granted.{IsResult, IsGranted, IsTouched}

module _ {range : Range} (c : IsRange range) {p : PolicyRulesProcessor} (i : IsProcessor p)
    (kc : IsKeyableCluster p) (objects : Str → Str → List Str) (list : Lister)
    (names : (g r : Str) → All IsName (objects g r)) where
  pub evaluate-IsResult :
      (allow deny : List PolicyRule)
      → All HasNames allow
      → All HasNames deny
      → ((g r : Str)
          → IsTouched p objects allow deny g r
          → (d : Str) → list d (listed_kind p g r) ≡ ok (objects g r))
      → (result : GoMap PolicyRule) × (evaluate range list p allow deny ≡ ok result)
        × IsResult p objects allow deny range result
  unfolding evaluate
  evaluate-IsResult allow deny allow_names deny_names lists =
      let (allow_map, ran, am) = IsMapOf-rules (at-IsRange c "allow") i kc allow allow_names in
      let (deny_map, ran', dm) = IsMapOf-rules (at-IsRange c "deny") i kc deny deny_names in
      let (special, ran_special, sm, urls, verbs) =
        evaluate_special_cases_lem (at-IsRange c "special") p objects list allow_map deny_map names
          (λ g r k touched. lists g r ((IsTouched-iff p objects allow deny am dm g r k).0 touched))
          dm.keyed am.keyed in
      let (result, ran_evaluate, left) =
        evaluate_policy_rules_lem (at-IsRange c "evaluate") special deny_map dm.keyed in
      let rm : IsRuleMap result =
        subst (Holds IsRuleMap) ran_evaluate
          (evaluate_policy_rules-IsRuleMap (at-IsRange c "evaluate") special deny_map sm) in
      let fewer : IsFewer result special =
        subst (Holds (λ m. IsFewer m special)) ran_evaluate
          (evaluate_policy_rules-IsFewer (at-IsRange c "evaluate") special deny_map) in
      (
        result,
        rw (ran, ran', ran_special, ran_evaluate),
        record {
          keyed = rm;
          urls = λ u there. (am.present (url u) tt).0 (sym (urls u) ∙ fewer (key_of (url u)) there);
          grants = λ o t v k.
              let values_eq = any-values result rm t k v c o in
              let granted = left t v k in
              let allowed = IsAllowed-iff p objects allow deny am dm t v k in
              let refused = IsRefused-iff p objects allow deny am dm t v in
              (
                λ h.
                    let (there, free) = granted.0 (sym values_eq ∙ h) in
                    (
                      allowed.0 (ap (λ xs. contains xs v) (sym (verbs t k)) ∙ there),
                      λ q. free (refused.1 q),
                    ),
                λ (there, free).
                    values_eq
                    ∙ granted.1 (
                      ap (λ xs. contains xs v) (verbs t k) ∙ allowed.1 there,
                      λ q. free (refused.0 q),
                    ),
              );
        },
      )

  -- Suppose that the names of the cluster make keys, and that for each resource of which a deny rule
  -- names an object, a list of the kind of the last resource type of the resource or of one of its
  -- subresources gives, at every call, the names that `objects` has for the resource. Then the steps of
  -- the processor do not fail, and the rules of the map that they end with give a verb on a target
  -- exactly when it is granted: an allow rule asks for it and no deny rule asks for it on a target that
  -- covers this one, where a resource of which a deny rule names an object is exchanged for the objects
  -- so listed. Groups and resources are asked for by name or by a wildcard; a rule with the wildcard
  -- among its verbs asks for the eight standard verbs and for no other that it lists beside it. That is
  -- so in whatever order the loops over maps run.
  pub evaluate_lem :
      (allow deny : List PolicyRule)
      → All HasNames allow
      → All HasNames deny
      → ((g r : Str)
          → IsTouched p objects allow deny g r
          → (d : Str) → list d (listed_kind p g r) ≡ ok (objects g r))
      → (result : GoMap PolicyRule) × (evaluate range list p allow deny ≡ ok result)
        × ((o : Occasion) (t : Target) (v : Str)
            → IsKeyable t
            → (any (gives t v) (values range o result) ≡ true) ↔ IsGranted p objects allow deny t v)
  evaluate_lem allow deny allow_names deny_names lists =
      let (result, ran, full) = evaluate-IsResult allow deny allow_names deny_names lists in
      (result, ran, full.grants)
