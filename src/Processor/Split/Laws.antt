-- ===== src/Processor/Split/Laws.antt =====
-- Which rules SplitPolicyRules keeps, and when it panics.
use kuberbac.Prelude.{
  ◌≡◌, refl, ◌∙◌, Bool, true, false, not, ◌⊎◌, inl, inr, Option, none, some, Option-cases, List, [],
  ◌∷◌, ◌++◌, arith, Str, get_elem?, All, is_empty, ok, panic, if◌then◌else◌,
}
use mathlib.Core.List.{append-nil, append_assoc}
use kuberbac.Rbac.{PolicyRule}
use kuberbac.Processor.Discovery.{Gvkr, PolicyRulesProcessor, gvkrs_of}
use kuberbac.Processor.Served.{types_of, first_scope, find_scope-types_of}
use kuberbac.Processor.Split.{
  SplitRules, find_scope, add_scoped, scope_of, split_rules, split_policy_rules,
}

-- The rules that pass a test.
unfoldable pub keep_rules : (PolicyRule → Bool) → List PolicyRule → List PolicyRule
keep_rules p [] = []
keep_rules p (rule ∷ rules) = let rest = keep_rules p rules in if p rule then rule ∷ rest else rest

abbrev pub first_or_empty : List Str → Str
first_or_empty [] = []
first_or_empty (x ∷ xs) = x

-- The scope of the first resource type of the rule's group that has the name of the rule's resource.
abbrev pub rule_scope : PolicyRulesProcessor → PolicyRule → Option Bool
rule_scope p rule =
    first_scope (first_or_empty rule.resources) (types_of p (first_or_empty rule.api_groups))

abbrev pub is_scope : Bool → Option Bool → Bool
is_scope namespaced none = false
is_scope namespaced (some true) = namespaced
is_scope namespaced (some false) = not namespaced

-- A rule with a group and a resource.
abbrev pub IsResourceRule : PolicyRule → Type 0
IsResourceRule rule = (is_empty rule.api_groups ≡ false) × (is_empty rule.resources ≡ false)

get_elem?-zero : (xs : List Str) → is_empty xs ≡ false → get_elem? xs 0 ≡ some (first_or_empty xs)
get_elem?-zero [] h = cc
get_elem?-zero (x ∷ xs) h = refl

scope_of_lem :
    (rule : PolicyRule) (gvkrs : List Gvkr)
    → is_empty rule.resources ≡ false
    → scope_of rule gvkrs ≡ ok (find_scope (first_or_empty rule.resources) gvkrs)
unfolding scope_of
scope_of_lem rule [] h = unfold find_scope in refl
scope_of_lem rule (gvkr ∷ gvkrs) h = rw (get_elem?-zero rule.resources h)

module _ (rule : PolicyRule) (o : Option Bool) (s : SplitRules) (rules : List PolicyRule) where
  add_scoped-cluster :
      (add_scoped rule o s).cluster_scoped ++ rules
      ≡ s.cluster_scoped ++ (if is_scope false o then rule ∷ rules else rules)
  unfolding add_scoped
  add_scoped-cluster = ground (arith, append_assoc s.cluster_scoped (rule ∷ []) rules)

  add_scoped-namespace :
      (add_scoped rule o s).namespace_scoped ++ rules
      ≡ s.namespace_scoped ++ (if is_scope true o then rule ∷ rules else rules)
  unfolding add_scoped
  add_scoped-namespace = ground (arith, append_assoc s.namespace_scoped (rule ∷ []) rules)

module _ (p : PolicyRulesProcessor) where
  split_rules_lem :
      (rules : List PolicyRule) (s : SplitRules)
      → All IsResourceRule rules
      → split_rules p rules s
        ≡ ok (record {
          cluster_scoped =
              s.cluster_scoped ++ keep_rules (λ r. is_scope false (rule_scope p r)) rules;
          namespace_scoped =
              s.namespace_scoped ++ keep_rules (λ r. is_scope true (rule_scope p r)) rules;
        })
  unfolding split_rules keep_rules
  split_rules_lem [] s h = rw (append-nil s.cluster_scoped, append-nil s.namespace_scoped)
  split_rules_lem (rule ∷ rules) s h =
      rw
        (
          get_elem?-zero rule.api_groups h.0.0,
          scope_of_lem rule (gvkrs_of p.resources_by_group (first_or_empty rule.api_groups)) h.0.1,
          find_scope-types_of,
        )
        (split_rules_lem rules (add_scoped rule (rule_scope p rule) s) h.1 ∙ (λ i. ok (record {
          cluster_scoped =
              add_scoped-cluster rule (rule_scope p rule) s
                (keep_rules (λ r. is_scope false (rule_scope p r)) rules) i;
          namespace_scoped =
              add_scoped-namespace rule (rule_scope p rule) s
                (keep_rules (λ r. is_scope true (rule_scope p r)) rules) i;
        })))

  -- On rules that have a group and a resource SplitPolicyRules returns, in their order, the rules whose
  -- resource type has no namespaces and those whose resource type has them; a rule whose resource type
  -- its group does not have is in neither list.
  pub split_policy_rules_lem :
      (rules : List PolicyRule)
      → All IsResourceRule rules
      → split_policy_rules p rules
        ≡ ok (record {
          cluster_scoped = keep_rules (λ r. is_scope false (rule_scope p r)) rules;
          namespace_scoped = keep_rules (λ r. is_scope true (rule_scope p r)) rules;
        })
  unfolding split_policy_rules
  split_policy_rules_lem rules h = split_rules_lem rules _ h

  scope_of_cases :
      (rule : PolicyRule) (gvkrs : List Gvkr)
      → (scope_of rule gvkrs ≡ panic) ⊎ ((o : Option Bool) × (scope_of rule gvkrs ≡ ok o))
  unfolding scope_of
  scope_of_cases rule [] = inr (none, refl)
  scope_of_cases rule (gvkr ∷ gvkrs) = elim (Option-cases (get_elem? rule.resources 0)) [
    | inl gone ↦ inl (rw gone)
    | inr (name, e) ↦ inr (find_scope name (gvkr ∷ gvkrs), rw e)
  ]

  split_rules-panic :
      (before : List PolicyRule) (rule : PolicyRule) (after : List PolicyRule) (s : SplitRules)
      → rule.api_groups ≡ []
      → split_rules p (before ++ rule ∷ after) s ≡ panic
  unfolding split_rules
  split_rules-panic [] rule after s h = rw h
  split_rules-panic (r ∷ before) rule after s h = elim (Option-cases (get_elem? r.api_groups 0)) [
    | inl gone ↦ rw gone
    | inr (group, e) ↦ elim (scope_of_cases r (gvkrs_of p.resources_by_group group)) [
      | inl stop ↦ rw (e, stop)
      | inr (o, f) ↦ rw (e, f) (split_rules-panic before rule after (add_scoped r o s) h)
    ]
  ]

  -- SplitPolicyRules panics on every list that holds a rule without groups, as the rules for URLs are.
  pub split_policy_rules-panic :
      (before : List PolicyRule) (rule : PolicyRule) (after : List PolicyRule)
      → rule.api_groups ≡ []
      → split_policy_rules p (before ++ rule ∷ after) ≡ panic
  unfolding split_policy_rules
  split_policy_rules-panic before rule after h = split_rules-panic before rule after _ h
