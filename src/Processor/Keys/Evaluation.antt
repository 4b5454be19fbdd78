-- ===== src/Processor/Keys/Evaluation.antt =====
-- EvaluatePolicyRules on the maps that GetMapFromStretchedPolicyRules makes.
use kuberbac.Prelude.{
  ==_refl, not, Bool-cases, found_of_any, any_of_contains, ◌↔◌, Option-cases, inl, inr,
}
use kuberbac.Prelude.{
  ◌≡◌, refl, ◌∙◌, sym, Bool, true, false, not, ◌&&◌, List, [], ◌∷◌, arith, Str, any, contains, ok,
}
use kuberbac.GoMap.{GoMap, lookup, has, keys, Range, IsRange}
use kuberbac.GoMap.Laws.{has_of_none, lookup_of_has, contains-range, contains-keys, lookup_of_has}
use kuberbac.Rbac.{PolicyRule}
use kuberbac.Processor.Targets.{Target, url, generic, named}
use kuberbac.Processor.RuleMap.{rule_at, verbs_at}
use kuberbac.Processor.RuleMap.Laws.{IsRuleMap}
use kuberbac.Processor.Evaluate.{
  reduce_url, reduce_resource, deny_round, evaluate_over, evaluate_policy_rules,
}
use kuberbac.Processor.Evaluate.Laws.{covers_key, left-evaluate_policy_rules}
use kuberbac.Processor.Keys.{key_of, IsKeyable, covers}
use kuberbac.Processor.Keys.Covers.{
  covers_key-key_of, third_part, resource_key_not_url, url_key_is_url, covers_key-key_of,
}

-- The key of some target.
abbrev pub IsKey : Str → Type 0
IsKey k = (t : Target) × IsKeyable t × (k ≡ key_of t)

module _ (range : Range) (rule : PolicyRule) (m : GoMap PolicyRule) where
  deny_round-key_of :
      (t : Target)
      → IsKeyable t
      → (m' : GoMap PolicyRule) × (deny_round range (key_of t) rule m ≡ ok m')
  unfolding deny_round
  deny_round-key_of (url u) h =
      (reduce_url range (key_of (url u) ∷ []) rule (key_of (url u)) m, rw (url_key_is_url u))
  deny_round-key_of (generic g r) h = (
    reduce_resource range (key_of (generic g r) ∷ []) rule (key_of (generic g r)) [] m,
    rw (resource_key_not_url g _, h.1, third_part g r [] h.0 h.2 tt),
  )
  deny_round-key_of (named g r n) h = (
    reduce_resource range (key_of (named g r n) ∷ []) rule (key_of (named g r n)) n m,
    rw (resource_key_not_url g _, h.1, third_part g r n h.0 h.2 h.3),
  )

deny_round-IsKey :
    (range : Range) (rule : PolicyRule) (m : GoMap PolicyRule) (k : Str)
    → IsKey k
    → (m' : GoMap PolicyRule) × (deny_round range k rule m ≡ ok m')
deny_round-IsKey range rule m k (t, keyable, e) = rw e (deny_round-key_of range rule m t keyable)

evaluate_over_total :
    (range : Range) (ks : List Str) (deny m : GoMap PolicyRule)
    → ((k : Str) → contains ks k ≡ true → IsKey k)
    → (m' : GoMap PolicyRule) × (evaluate_over range ks deny m ≡ ok m')
unfolding evaluate_over
evaluate_over_total range [] deny m h = (m, refl)
evaluate_over_total range (k ∷ ks) deny m h =
    let (m', ran) =
      deny_round-IsKey range (rule_at deny k) m k (h k (unfold contains in rw ==_refl)) in
    let (m'', ran') =
      evaluate_over_total range ks deny m'
        (λ j there. h j (unfold contains in ground (arith, there))) in
    (m'', rw ran ran')

-- A key of a rule map is the key of a target.
pub has-IsKey : (m : GoMap PolicyRule) (k : Str) → IsRuleMap m → has m k ≡ true → IsKey k
has-IsKey m k h there = elim (Option-cases (lookup k m)) [
  | inl gone ↦ absurd (ground (arith, has_of_none m k gone))
  | inr (rule, e) ↦ let keyed = h k rule e in (keyed.target, keyed.keyable, keyed.key)
]

pub has_of_verb :
    (m : GoMap PolicyRule) (k v : Str) → contains (verbs_at m k) v ≡ true → has m k ≡ true
unfolding contains
has_of_verb m k v there = elim (Bool-cases (has m k)) [
  | inl here ↦ here
  | inr gone ↦ absurd (ground (arith, there, lookup_of_has m k gone))
]

-- A deny map has the verb for the target of some key that covers `t`.
abbrev pub IsDenied : GoMap PolicyRule → Target → Str → Type 0
IsDenied deny t v =
    (s : Target) × IsKeyable s
    × (covers s t ≡ true)
    × (contains (verbs_at deny (key_of s)) v ≡ true)

and_not_iff :
    (a b c : Bool) {P : Type 0}
    → a ≡ (b && not c)
    → (c ≡ true) ↔ P
    → (a ≡ true) ↔ ((b ≡ true) × ¬ P)
and_not_iff a b true e i = (λ h. absurd (ground (arith, e, h)), λ h. absurd (h.1 (i.0 refl)))
and_not_iff a b false e i =
    (λ h. (ground (arith, e, h), λ p. absurd (ground (arith, i.1 p))), λ h. ground (arith, e, h.0))

-- The search of the code among the deny keys finds the targets that cover the given one.
any-covers_key_iff :
    (deny : GoMap PolicyRule) (t : Target) (v : Str)
    → IsRuleMap deny
    → IsKeyable t
    → (any (λ d. covers_key d (key_of t) && contains (verbs_at deny d) v) (keys deny) ≡ true)
      ↔ IsDenied deny t v
any-covers_key_iff deny t v dm keyable = (
  λ h.
      let (d, there, both) = found_of_any _ (keys deny) h in
      let (s, ks, e) = has-IsKey deny d dm (sym (contains-keys deny d) ∙ there) in
      let both' : (covers_key (key_of s) (key_of t) && contains (verbs_at deny (key_of s)) v)
          ≡ true =
        rw e at both in
      (s, ks, ground (arith, covers_key-key_of s t ks keyable), ground arith),
  λ h.
      let (s, ks, c, there) = h in
      any_of_contains (λ d. covers_key d (key_of t) && contains (verbs_at deny d) v) (key_of s)
        (keys deny) (contains-keys deny (key_of s) ∙ has_of_verb deny (key_of s) v there)
        (ground (arith, covers_key-key_of s t ks keyable)),
)

module _ {range : Range} (r : IsRange range) (allow deny : GoMap PolicyRule)
    (dm : IsRuleMap deny) where
  -- EvaluatePolicyRules does not panic on a deny map of stretched rules. Afterwards a verb is left at
  -- the key of a target exactly when it was there and no deny rule for a target that covers this one
  -- has it, whatever the order of the loops.
  pub evaluate_policy_rules_lem :
      (result : GoMap PolicyRule) × (evaluate_policy_rules range allow deny ≡ ok result)
      × ((t : Target) (v : Str)
          → IsKeyable t
          → (contains (verbs_at result (key_of t)) v ≡ true)
            ↔ ((contains (verbs_at allow (key_of t)) v ≡ true) × ¬ IsDenied deny t v))
  unfolding evaluate_policy_rules
  evaluate_policy_rules_lem =
      let (result, ran) = evaluate_over_total range (range [] (keys deny)) deny allow (λ k there.
        has-IsKey deny k dm
          (sym (contains-keys deny k) ∙ sym (contains-range r [] (keys deny) k) ∙ there)) in
      (
        result,
        ran,
        λ t v keyable.
            and_not_iff _ _ _ (left-evaluate_policy_rules r v allow deny result (key_of t) ran)
              (any-covers_key_iff deny t v dm keyable),
      )
