-- ===== src/ClusterRole/Scopes.antt =====
-- What the two lists of SplitPolicyRules give, for rules that are for one target each.
use kuberbac.Prelude.{
  ◌≡◌, ◌≢◌, refl, ◌∙◌, sym, ap, Bool, true, false, ◌&&◌, Option, none, List, [], ◌∷◌, arith, map,
  Str, ==_iff, All, any, any-if, ==_refl, subst, contains, Option-cases, Bool-cases, inl, inr,
  subst,
}
use kuberbac.GoMap.{GoMap, lookup, has, keys, Range, IsRange, Occasion}
use kuberbac.GoMap.Laws.{has_of_none, contains-range, contains-keys}
use kuberbac.Rbac.{PolicyRule}
use kuberbac.Processor.Discovery.{PolicyRulesProcessor}
use kuberbac.Processor.Targets.{Target, url, generic, named, gives, lists_target, single}
use kuberbac.Processor.Keys.{key_of, IsKeyable}
use kuberbac.Processor.RuleMap.{rule_at, values, url_key}
use kuberbac.Processor.RuleMap.Laws.{IsSingle, IsRuleMap}
use kuberbac.Processor.Served.{types_of, first_scope}
use kuberbac.Processor.Split.Laws.{keep_rules, rule_scope, is_scope, IsResourceRule}

-- The scope of a target's resource: whether it has namespaces, if the cluster has it.
abbrev pub target_scope : PolicyRulesProcessor → Target → Option Bool
target_scope p (url u) = none
target_scope p (generic g r) = first_scope r (types_of p g)
target_scope p (named g r n) = first_scope r (types_of p g)

-- The rule is for a resource or an object of one.
pub record IsScoped (rule : PolicyRule) : Type 0 where
  pub rule_for : IsSingle rule
  pub no_url : (u : Str) → rule_for.target ≢ url u

same_target :
    (s t : Target) (verbs : List Str)
    → lists_target t (single s verbs) ≡ true
    → IsKeyable s
    → IsKeyable t
    → s ≡ t
unfolding contains
same_target (url u) (url w) verbs h ks k = ground (arith, ==_iff u w)
same_target (url u) (generic g r) verbs h ks k = cc
same_target (url u) (named g r n) verbs h ks k = cc
same_target (generic g r) (url w) verbs h ks k = cc
same_target (generic g r) (generic g' r') verbs h ks k = ground (arith, ==_iff g g', ==_iff r r')
same_target (generic g r) (named g' r' n') verbs h ks k = cc
same_target (named g r n) (url w) verbs h ks k = cc
same_target (named g r n) (generic g' r') verbs h ks k = cc
same_target (named g r n) (named g' r' n') verbs h ks k =
    ground (arith, ==_iff g g', ==_iff r r', ==_iff n n')

rule_scope-single :
    (p : PolicyRulesProcessor) (s : Target) (verbs : List Str)
    → ((u : Str) → s ≢ url u)
    → rule_scope p (single s verbs) ≡ target_scope p s
rule_scope-single p (url u) verbs h = absurd (h u refl)
rule_scope-single p (generic g r) verbs h = refl
rule_scope-single p (named g r n) verbs h = refl

IsResourceRule-single :
    (s : Target) (verbs : List Str) → ((u : Str) → s ≢ url u) → IsResourceRule (single s verbs)
IsResourceRule-single (url u) verbs h = absurd (h u refl)
IsResourceRule-single (generic g r) verbs h = (refl, refl)
IsResourceRule-single (named g r n) verbs h = (refl, refl)

pub IsScoped-IsResourceRule :
    (rules : List PolicyRule) → All IsScoped rules → All IsResourceRule rules
IsScoped-IsResourceRule [] h = tt
IsScoped-IsResourceRule (rule ∷ rules) (s, h) = (
  subst IsResourceRule (sym s.rule_for.shape)
      (IsResourceRule-single s.rule_for.target s.rule_for.verbs s.no_url),
  IsScoped-IsResourceRule rules h,
)

module _ (p : PolicyRulesProcessor) (t : Target) (k : IsKeyable t) (v : Str) (scope : Bool) where
  gives-scope :
      {rule : PolicyRule}
      → IsScoped rule
      → gives t v rule ≡ true
      → rule_scope p rule ≡ target_scope p t
  gives-scope {rule} s h =
      let one = s.rule_for in
      let listed : lists_target t (single one.target one.verbs) ≡ true =
        ap (lists_target t) (sym one.shape) ∙ ground (arith, h) in
      ap (rule_scope p) one.shape
      ∙ rule_scope-single p one.target one.verbs s.no_url
      ∙ ap (target_scope p) (same_target one.target t one.verbs listed one.keyable k)

  -- The rules of a scope give what all the rules give on the targets of that scope.
  pub any-keep_rules :
      (rules : List PolicyRule)
      → All IsScoped rules
      → any (gives t v) (keep_rules (λ rule. is_scope scope (rule_scope p rule)) rules)
        ≡ (any (gives t v) rules && is_scope scope (target_scope p t))
  unfolding any keep_rules
  any-keep_rules [] h = refl
  any-keep_rules (rule ∷ rules) (s, h) =
      let rest = keep_rules (λ rule'. is_scope scope (rule_scope p rule')) rules in
      any-if (gives t v) (is_scope scope (rule_scope p rule)) rule rest
      ∙ (elim (Bool-cases (gives t v rule)) [
        | inl here ↦ rw (gives-scope s here) (ground (arith, here, any-keep_rules rules h))
        | inr gone ↦ ground (arith, gone, any-keep_rules rules h)
      ])

module _ (m : GoMap PolicyRule) (h : IsRuleMap m)
    (no_urls : (u : Str) → has m (url_key u) ≡ false) where
  rule_at-IsScoped : (j : Str) → has m j ≡ true → IsScoped (rule_at m j)
  rule_at-IsScoped j there = elim (Option-cases (lookup j m)) [
    | inl gone ↦ absurd (ground (arith, has_of_none m j gone))
    | inr (rule, e) ↦
        let keyed = h j rule e in
        let one : IsSingle rule = record {
          target = keyed.target;
          verbs = rule.verbs;
          keyable = keyed.keyable;
          shape = keyed.shape;
        } in
        rw e (record {
          rule_for = one;
          no_url = λ u same. cc (no_urls u, there, ap (has m) (keyed.key ∙ ap key_of same));
        })
  ]

  rules-IsScoped :
      (js : List Str)
      → ((j : Str) → contains js j ≡ true → has m j ≡ true)
      → All IsScoped (map (rule_at m) js)
  rules-IsScoped [] within = tt
  rules-IsScoped (j ∷ js) within = (
    rule_at-IsScoped j (within j (unfold contains in rw ==_refl)),
    rules-IsScoped js (λ i there. within i (unfold contains in ground (arith, there))),
  )

  pub values-IsScoped :
      {range : Range} (c : IsRange range) (o : Occasion) → All IsScoped (values range o m)
  values-IsScoped {range} c o =
      rules-IsScoped (range o (keys m))
        (λ j there. sym (contains-keys m j) ∙ sym (contains-range c o (keys m) j) ∙ there)
