-- ===== src/ClusterRole/Rules.antt =====
-- The rules of the ClusterRoles that SyncTarget of the DynamicClusterRole controller is going to update.
use kuberbac.Prelude.{
  ◌≡◌, refl, ◌∙◌, subst, ◌↔◌, Bool, true, false, ◌&&◌, Option, none, some, List, [], ◌∷◌, ◌++◌,
  arith, Str, lit, All, any, contains, is_empty, Outcome, ok, err, panic, Bool-cases, inl, inr,
}
use kuberbac.GoMap.{GoMap, has, Range, IsRange}
use kuberbac.Rbac.{PolicyRule, ApiResourceList}
use kuberbac.Resources.{DynamicClusterRole}
use kuberbac.Processor.Discovery.{
  PolicyRulesProcessor, new_policy_rule_processor, set_resources_by_group,
}
use kuberbac.Processor.Wellformed.{IsProcessor}
use kuberbac.Processor.Wellformed.Laws.{new_policy_rule_processor-IsProcessor}
use kuberbac.Processor.Targets.{Target, url, gives}
use kuberbac.Processor.Keys.{IsKeyable}
use kuberbac.Processor.RuleMap.{url_key, values}
use kuberbac.Processor.RuleMap.Singles.{IsKeyableCluster, IsName, HasNames}
use kuberbac.Processor.Expand.Meaning.{asks}
use kuberbac.Processor.Split.{SplitRules, split_policy_rules}
use kuberbac.Processor.Split.Laws.{keep_rules, rule_scope, is_scope, split_policy_rules_lem}
use kuberbac.Processor.Pipeline.{at}
use kuberbac.Processor.Served.{listed_kind}
use kuberbac.Processor.Granted.{IsTouched, requested, IsGranted, IsResult}
use kuberbac.Processor.Granted.Maps.{at-IsRange}
use kuberbac.Processor.Granted.Laws.{evaluate-IsResult}
use kuberbac.ClusterRole.Types.{ClusterRole, Write, Api}
use kuberbac.ClusterRole.Plan.{cluster_role_of, separate, cluster_roles, plan}
use kuberbac.ClusterRole.Scopes.{
  target_scope, IsScoped-IsResourceRule, any-keep_rules, values-IsScoped,
}

plan-IsProcessor :
    {range : Range} (c : IsRange range) (discovered : Outcome (List ApiResourceList))
    (p : PolicyRulesProcessor)
    → new_policy_rule_processor range discovered ≡ ok p
    → IsProcessor p
plan-IsProcessor c (ok lists) p e =
    let (p', ran, i) = new_policy_rule_processor-IsProcessor c lists in
    let same : p' ≡ p = cc (ran, e) in subst IsProcessor same i
plan-IsProcessor c (err x) p e = unfold new_policy_rule_processor set_resources_by_group in cc e
plan-IsProcessor c panic p e = unfold new_policy_rule_processor set_resources_by_group in cc e

abbrev pub HasNoUrls : PolicyRule → Type 0
HasNoUrls rule = is_empty rule.non_resource_urls ≡ true

asks-url :
    (rules : List PolicyRule) (u v : Str) → All HasNoUrls rules → any (asks (url u) v) rules ≡ false
unfolding any contains
asks-url [] u v h = refl
asks-url (rule ∷ rules) u v h = ground (arith, h.0, asks-url rules u v h.1)

is_scope_iff : (b : Bool) (o : Option Bool) → (is_scope b o ≡ true) ↔ (o ≡ some b)
is_scope_iff b none = (λ h. cc, λ h. cc)
is_scope_iff true (some true) = (λ h. refl, λ h. refl)
is_scope_iff true (some false) = (λ h. cc, λ h. cc)
is_scope_iff false (some true) = (λ h. cc, λ h. cc)
is_scope_iff false (some false) = (λ h. refl, λ h. refl)

and_iff :
    (a b : Bool) {P Q : Type 0} → (a ≡ true) ↔ P → (b ≡ true) ↔ Q → ((a && b) ≡ true) ↔ (P × Q)
and_iff a b i j =
    (λ h. (i.0 (ground arith), j.0 (ground arith)), λ h. ground (arith, i.1 h.0, j.1 h.1))

cluster_roles-apart :
    (range : Range) (p : PolicyRulesProcessor) (resource : DynamicClusterRole)
    (result : GoMap PolicyRule) (s : SplitRules)
    → resource.target.separate_scopes ≡ true
    → split_policy_rules p (values range (lit "split" ∷ []) result) ≡ ok s
    → cluster_roles range p resource result
      ≡ separate (cluster_role_of resource (values range (lit "rules" ∷ []) result)) (ok s)
unfolding cluster_roles
cluster_roles-apart range p resource result s apart ran = rw (apart, ran)

module _ (client : Api) {range : Range} (c : IsRange range) (resource : DynamicClusterRole)
    (writes : List Write) {p : PolicyRulesProcessor}
    (generated : new_policy_rule_processor (at range "resources") (client.discover writes) ≡ ok p)
    (kc : IsKeyableCluster p) (objects : Str → Str → List Str)
    (names : (g r : Str) → All IsName (objects g r)) (allow_names : All HasNames resource.allow)
    (deny_names : All HasNames resource.deny)
    (lists : (g r : Str)
      → IsTouched p objects resource.allow resource.deny g r
      → (d : Str) → client.list_objects writes d (listed_kind p g r) ≡ ok (objects g r)) where
  abbrev Granted : Target → Str → Type 0
  Granted = IsGranted p objects resource.allow resource.deny

  plan-IsResult :
      (result : GoMap PolicyRule) × (plan client range resource writes
        ≡ cluster_roles range p resource result)
      × IsResult p objects resource.allow resource.deny range result
  unfolding plan
  plan-IsResult =
      let i = plan-IsProcessor (at-IsRange c "resources") (client.discover writes) p generated in
      let (result, ran, full) =
        evaluate-IsResult c i kc objects (client.list_objects writes) names resource.allow
          resource.deny allow_names deny_names lists in
      (result, rw (generated, ran), full)

  no_url_keys :
      (result : GoMap PolicyRule)
      → ((u : Str)
          → has result (url_key u) ≡ true
          → (v : Str) × (requested p resource.allow (url u) v ≡ true))
      → All HasNoUrls resource.allow
      → (u : Str) → has result (url_key u) ≡ false
  no_url_keys result urls no_urls u = elim (Bool-cases (has result (url_key u))) [
    | inl there ↦
        let (v, asked) = urls u there in
        absurd (ground (arith, asked, asks-url resource.allow u v no_urls))
    | inr gone ↦ gone
  ]

  -- Without separateScopes SyncTarget plans one ClusterRole, of the target's name, whose rules give a
  -- verb on a target exactly when the allow and deny rules of the resource grant it. That is so on a
  -- cluster of which the discovery succeeds and the names make keys, and if for each resource of which
  -- a deny rule names an object, a list of the kind of the last resource type of the resource or of one
  -- of its subresources gives, at every call, the names that `objects` has for the resource.
  pub plan_lem :
      resource.target.separate_scopes ≡ false
      → (role : ClusterRole) × (plan client range resource writes ≡ ok (role ∷ []))
        × (role.name ≡ resource.target.name)
        × ((t : Target) (v : Str) → IsKeyable t → (any (gives t v) role.rules ≡ true) ↔ Granted t v)
  unfolding cluster_roles
  plan_lem together =
      let (result, ran, full) = plan-IsResult in
      (
        cluster_role_of resource (values range (lit "rules" ∷ []) result),
        ran ∙ rw together,
        refl,
        full.grants (lit "rules" ∷ []),
      )

  -- With separateScopes, and if no allow rule is about URLs, SyncTarget plans two ClusterRoles: the
  -- rules of the one named "-cluster" give what is granted on resources without namespaces, and the
  -- rules of the one named "-namespace" what is granted on resources with namespaces, where the first
  -- resource type of the name in the group says which it is. That is so on a
  -- cluster of which the discovery succeeds and the names make keys, and if for each resource of which
  -- a deny rule names an object, a list of the kind of the last resource type of the resource or of one
  -- of its subresources gives, at every call, the names that `objects` has for the resource.
  pub plan-separate :
      resource.target.separate_scopes ≡ true
      → All HasNoUrls resource.allow
      → (cluster namespace : ClusterRole) × (plan client range resource writes
          ≡ ok (cluster ∷ namespace ∷ []))
        × (cluster.name ≡ resource.target.name ++ lit "-cluster")
        × (namespace.name ≡ resource.target.name ++ lit "-namespace")
        × ((t : Target) (v : Str)
            → IsKeyable t
            → (any (gives t v) cluster.rules ≡ true)
              ↔ (Granted t v × (target_scope p t ≡ some false)))
        × ((t : Target) (v : Str)
            → IsKeyable t
            → (any (gives t v) namespace.rules ≡ true)
              ↔ (Granted t v × (target_scope p t ≡ some true)))
  unfolding separate
  plan-separate apart no_urls =
      let (result, ran, full) = plan-IsResult in
      let rules = values range (lit "split" ∷ []) result in
      let role = cluster_role_of resource (values range (lit "rules" ∷ []) result) in
      let scoped =
        values-IsScoped result full.keyed (no_url_keys result full.urls no_urls) c
          (lit "split" ∷ []) in
      let kept = λ (b : Bool). keep_rules (λ rule. is_scope b (rule_scope p rule)) rules in
      let split = split_policy_rules_lem p rules (IsScoped-IsResourceRule rules scoped) in
      let given = λ (b : Bool) (t : Target) (v : Str) (k : IsKeyable t).
        any-keep_rules p t k v b rules scoped in
      (
        record role { name = role.name ++ lit "-cluster"; rules = kept false },
        record role { name = role.name ++ lit "-namespace"; rules = kept true },
        ran ∙ cluster_roles-apart range p resource result _ apart split,
        refl,
        refl,
        λ t v k. rw (given false t v k) (
            and_iff _ _ (full.grants (lit "split" ∷ []) t v k)
              (is_scope_iff false (target_scope p t))),
        λ t v k. rw (given true t v k) (
            and_iff _ _ (full.grants (lit "split" ∷ []) t v k)
              (is_scope_iff true (target_scope p t))),
      )
