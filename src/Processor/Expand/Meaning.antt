-- ===== src/Processor/Expand/Meaning.antt =====
-- What expanded and stretched rules give, in terms of the rules that the user wrote.
use kuberbac.Processor.Served.{is_served, is_present-eq-is_served}
use kuberbac.Prelude.{
  lit, ◌==◌, ap, if◌then◌else◌, ◌≡◌, refl, ◌∙◌, Bool, true, false, not, ◌&&◌, ◌||◌, List, [], ◌∷◌,
  arith, Str, is_empty, any, contains,
}
use kuberbac.GoMap.{Occasion, Range, IsRange}
use kuberbac.Rbac.{PolicyRule}
use kuberbac.Processor.Discovery.{PolicyRulesProcessor}
use kuberbac.Processor.Targets.{Target, url, generic, named, gives}
use kuberbac.Processor.Stretch.{stretch_policy_rules}
use kuberbac.Processor.Stretch.Laws.{is_present, any-stretch_policy_rules}
use kuberbac.Processor.Wellformed.{IsProcessor}
use kuberbac.Processor.Expand.{is_ignored, expand_verbs, expand_rule, expand_policy_rules}
use kuberbac.Processor.Expand.Laws.{mentions, expanded_pair}

-- A rule of Kubernetes RBAC: it has verbs, and it is about URLs alone or about resources alone.
abbrev pub is_valid : PolicyRule → Bool
is_valid rule =
    not (is_empty rule.verbs)
    && ((not (is_empty rule.non_resource_urls)
          && (is_empty rule.api_groups && is_empty rule.resources && is_empty rule.resource_names))
        || (is_empty rule.non_resource_urls
            && (not (is_empty rule.api_groups) && not (is_empty rule.resources))))

-- The four guards of ExpandPolicyRules let just the valid rules through.
is_ignored-eq-not : (rule : PolicyRule) → is_ignored rule ≡ not (is_valid rule)
unfolding is_ignored
is_ignored-eq-not rule = ground arith

-- The verbs that the wildcard stands for.
abbrev pub is_standard : Str → Bool
is_standard v =
    lit "create" == v
    || (lit "delete" == v
        || (lit "deletecollection" == v
            || (lit "get" == v
                || (lit "list" == v
                    || (lit "patch" == v || (lit "update" == v || lit "watch" == v))))))

-- With the wildcard among the verbs just the standard verbs are asked for, whatever is listed beside
-- it; without it, the listed ones.
abbrev pub asks_verb : List Str → Str → Bool
asks_verb verbs v = if contains verbs (lit "*") then is_standard v else contains verbs v

-- The user's rule lists the target, by its name or by a wildcard.
abbrev pub asks_target : Target → PolicyRule → Bool
asks_target (url u) rule = contains rule.non_resource_urls u
asks_target (generic group resource) rule =
    is_empty rule.resource_names
    && (mentions rule.api_groups group && mentions rule.resources resource)
asks_target (named group resource name) rule =
    contains rule.resource_names name
    && (mentions rule.api_groups group && mentions rule.resources resource)

abbrev pub is_about : Target → PolicyRule → Bool
is_about (url u) rule = true
is_about t rule = is_empty rule.non_resource_urls

-- What the user's rule asks for.
abbrev pub asks : Target → Str → PolicyRule → Bool
asks t v rule = is_valid rule && (is_about t rule && (asks_target t rule && asks_verb rule.verbs v))

contains-expand_verbs :
    (verbs : List Str) (v : Str) → contains (expand_verbs verbs) v ≡ asks_verb verbs v
unfolding expand_verbs contains
contains-expand_verbs verbs v = ground arith

-- The Boolean algebra of the next proofs.
pair_laws :
    (e n pair verb found m asked : Bool)
    → (found ≡ true → pair ≡ m)
    → verb ≡ asked
    → ((e && n && pair) && verb && found) ≡ (e && ((n && m) && asked) && found)
pair_laws e n pair verb found m asked h k = ground arith

step_laws :
    (valid g here about asked rest asks_rest : Bool)
    → (g && here) ≡ (about && asked && here)
    → (rest && here) ≡ (asks_rest && here)
    → (((valid && g) || rest) && here) ≡ (((valid && (about && asked)) || asks_rest) && here)
step_laws valid g here about asked rest asks_rest h k = ground arith

any-if :
    (p : PolicyRule → Bool) (b : Bool) (rule : PolicyRule) (rules : List PolicyRule)
    → any p (if not b then rules else rule ∷ rules) ≡ ((b && p rule) || any p rules)
unfolding any
any-if p true rule rules = refl
any-if p false rule rules = refl

module _ {range : Range} (r : IsRange range) {p : PolicyRulesProcessor} (i : IsProcessor p)
    (v : Str) where
  gives-expand_rule :
      (t : Target) (o : Occasion) (rule : PolicyRule)
      → (gives t v (expand_rule range p o rule) && is_present p t)
        ≡ (is_about t rule && (asks_target t rule && asks_verb rule.verbs v) && is_present p t)
  unfolding expand_rule
  gives-expand_rule (url u) o rule = ground (arith, contains-expand_verbs rule.verbs v)
  gives-expand_rule (generic g resource) o rule =
      pair_laws _ _ _ _ _ _ _ (expanded_pair r i o rule.api_groups rule.resources g resource)
        (contains-expand_verbs rule.verbs v)
  gives-expand_rule (named g resource n) o rule =
      pair_laws _ _ _ _ _ _ _ (expanded_pair r i o rule.api_groups rule.resources g resource)
        (contains-expand_verbs rule.verbs v)

  any-expand_policy_rules :
      (t : Target) (o : Occasion) (rules : List PolicyRule)
      → (any (gives t v) (expand_policy_rules range p o rules) && is_present p t)
        ≡ (any (asks t v) rules && is_present p t)
  unfolding expand_policy_rules any
  any-expand_policy_rules t o [] = refl
  any-expand_policy_rules t o (rule ∷ rules) =
      rw (is_ignored-eq-not rule, any-if)
        (step_laws (is_valid rule) _ _ (is_about t rule)
          (asks_target t rule && asks_verb rule.verbs v) _ _ (gives-expand_rule t o rule)
          (any-expand_policy_rules t ([] ∷ o) rules))

  -- Expanding and stretching rules gives a verb on a target exactly when some valid rule of the user
  -- asks for it on the target, whose group and resource it mentions by name or by a wildcard, and the
  -- cluster has the target's resource in its group. A rule that lists the wildcard among its verbs asks
  -- for the eight standard verbs and for no other that it lists beside it.
  pub any-stretch-expand :
      (t : Target) (o : Occasion) (rules : List PolicyRule)
      → any (gives t v) (stretch_policy_rules p (expand_policy_rules range p o rules))
        ≡ (any (asks t v) rules && is_served p t)
  any-stretch-expand t o rules =
      any-stretch_policy_rules p v t (expand_policy_rules range p o rules)
      ∙ (any-expand_policy_rules t o rules
          ∙ ap (λ there. any (asks t v) rules && there) (is_present-eq-is_served p t))
