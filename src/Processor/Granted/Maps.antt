-- ===== src/Processor/Granted/Maps.antt =====
-- The maps of the allow rules and of the deny rules, and what the targets in them mean.
use kuberbac.Prelude.{
  ◌≡◌, refl, ◌∙◌, sym, ◌↔◌, ◌⊎◌, Bool, true, false, ◌&&◌, List, [], arith, Str, All, contains,
  if◌then◌else◌, ok, inl, inr,
}
use Prim.Native.String.{String}
use kuberbac.GoMap.{GoMap, has, Range, IsRange}
use kuberbac.Rbac.{PolicyRule}
use kuberbac.Processor.Discovery.{PolicyRulesProcessor}
use kuberbac.Processor.Targets.{Target, url, generic, named}
use kuberbac.Processor.Expand.{expand_policy_rules}
use kuberbac.Processor.Expand.Meaning.{any-stretch-expand}
use kuberbac.Processor.Stretch.{stretch_policy_rules}
use kuberbac.Processor.Wellformed.{IsProcessor}
use kuberbac.Processor.RuleMap.{get_map_from_stretched_policy_rules, verbs_at}
use kuberbac.Processor.RuleMap.Laws.{IsRuleMap, get_map_from_stretched_policy_rules_lem}
use kuberbac.Processor.RuleMap.Singles.{IsKeyableCluster, HasNames, stretch_policy_rules-IsSingle}
use kuberbac.Processor.Keys.{key_of, IsKeyable}
use kuberbac.Processor.Keys.Evaluation.{IsDenied}
use kuberbac.Processor.Keys.Touched.{has_iff, is_touched_iff}
use kuberbac.Processor.Special.Rounds.{after}
use kuberbac.Processor.Special.Laws.{is_touched}
use kuberbac.Processor.Pipeline.{at}
use kuberbac.Processor.Granted.{requested, IsRefused, IsTouched, IsReplaced, IsAllowed}
use kuberbac.Processor.Granted.Stretched.{expand-HasVerbs, expand-HasNames, stretch-HasVerbs}

pub at-IsRange : {range : Range} → IsRange range → (place : String) → IsRange (at range place)
at-IsRange c place = record { visits = λ o ks k. c.visits _ ks k }

-- A map of the user's rules.
pub record IsMapOf (p : PolicyRulesProcessor) (rules : List PolicyRule) (m : GoMap PolicyRule)
    : Type 0 where
  pub keyed : IsRuleMap m
  pub verbs :
      (t : Target) (v : Str)
      → IsKeyable t
      → contains (verbs_at m (key_of t)) v ≡ requested p rules t v
  pub present :
      (t : Target)
      → IsKeyable t
      → (has m (key_of t) ≡ true) ↔ ((v : Str) × (requested p rules t v ≡ true))

module _ {range : Range} (c : IsRange range) {p : PolicyRulesProcessor} (i : IsProcessor p)
    (kc : IsKeyableCluster p) (rules : List PolicyRule) (names : All HasNames rules) where
  pub IsMapOf-rules :
      (m : GoMap PolicyRule) × (get_map_from_stretched_policy_rules
          (stretch_policy_rules p (expand_policy_rules range p [] rules))
        ≡ ok m)
      × IsMapOf p rules m
  IsMapOf-rules =
      let stretched = stretch_policy_rules p (expand_policy_rules range p [] rules) in
      let singles =
        stretch_policy_rules-IsSingle p kc (expand_policy_rules range p [] rules)
          (expand-HasNames range p [] rules names) in
      let (m, ran, keyed, left) = get_map_from_stretched_policy_rules_lem stretched singles in
      (
        m,
        ran,
        record {
          keyed = keyed;
          verbs = λ t v k. left t v k ∙ any-stretch-expand c i v t [] rules;
          present = λ t k.
              let there =
                has_iff t k stretched m singles
                  (stretch-HasVerbs p (expand_policy_rules range p [] rules)
                    (expand-HasVerbs range p [] rules))
                  ran (λ v. left t v k) in
              (
                λ h.
                    let (v, given) = there.0 h in
                    (v, sym (any-stretch-expand c i v t [] rules) ∙ given),
                λ (v, given). there.1 (v, any-stretch-expand c i v t [] rules ∙ given),
              );
        },
      )

unless_iff :
    (b x : Bool) {P : Type 0}
    → (b ≡ true) ↔ P
    → ((if b then false else x) ≡ true) ↔ ((¬ P) × (x ≡ true))
unless_iff true x i = (λ h. cc, λ h. absurd (h.0 (i.0 refl)))
unless_iff false x i = (λ h. (λ q. cc (i.1 q), h), λ h. h.1)

either_iff :
    (b x y : Bool) {P : Type 0}
    → (b ≡ true) ↔ P
    → ((if b then x else y) ≡ true) ↔ ((P × (x ≡ true)) ⊎ ((¬ P) × (y ≡ true)))
either_iff true x y i =
    (λ h. inl (i.0 refl, h), λ h. elim h [ inl (q, e) ↦ e | inr (n, e) ↦ absurd (n (i.0 refl)) ])
either_iff false x y i =
    (λ h. inr (λ q. cc (i.1 q), h), λ h. elim h [ inl (q, e) ↦ cc (i.1 q) | inr (n, e) ↦ e ])

contains-if :
    (b : Bool) (xs ys : List Str) (v : Str)
    → contains (if b then xs else ys) v ≡ (if b then contains xs v else contains ys v)
contains-if true xs ys v = refl
contains-if false xs ys v = refl

module _ (p : PolicyRulesProcessor) (objects : Str → Str → List Str) (allow deny : List PolicyRule)
    {allow_map deny_map : GoMap PolicyRule} (am : IsMapOf p allow allow_map)
    (dm : IsMapOf p deny deny_map) where
  pub IsTouched-iff :
      (g r : Str)
      → IsKeyable (generic g r)
      → (is_touched deny_map g r ≡ true) ↔ IsTouched p objects allow deny g r
  IsTouched-iff g r k =
      let i = is_touched_iff deny_map g r dm.keyed k in
      (
        λ h.
            let (n, kn, there) = i.0 h in
            let (v, asked) = (dm.present (named g r n) kn).0 there in (n, v, kn, asked),
        λ (n, v, kn, asked). i.1 (n, kn, (dm.present (named g r n) kn).1 (v, asked)),
      )

  IsReplaced-iff :
      (g r n : Str)
      → IsKeyable (generic g r)
      → ((is_touched deny_map g r
            && (has allow_map (key_of (generic g r)) && contains (objects g r) n))
          ≡ true)
        ↔ IsReplaced p objects allow deny g r n
  IsReplaced-iff g r n k =
      let touched = IsTouched-iff g r k in
      let there = am.present (generic g r) k in
      (
        λ h. (touched.0 (ground arith), there.0 (ground arith), ground arith),
        λ (t, a, o). ground (arith, touched.1 t, there.1 a),
      )

  pub IsAllowed-iff :
      (t : Target) (v : Str)
      → IsKeyable t
      → (contains (after objects (is_touched deny_map) allow_map t) v ≡ true)
        ↔ IsAllowed p objects allow deny t v
  IsAllowed-iff (url u) v k = (λ h. sym (am.verbs (url u) v k) ∙ h, λ h. am.verbs (url u) v k ∙ h)
  IsAllowed-iff (generic g r) v k =
      rw (contains-if, am.verbs (generic g r) v k)
        (unfold contains in
          unless_iff (is_touched deny_map g r) (requested p allow (generic g r) v)
            (IsTouched-iff g r k))
  IsAllowed-iff (named g r n) v k =
      let k' : IsKeyable (generic g r) = (k.0, k.1, k.2) in
      rw (contains-if, am.verbs (generic g r) v k', am.verbs (named g r n) v k)
        (either_iff _ (requested p allow (generic g r) v) (requested p allow (named g r n) v)
          (IsReplaced-iff g r n k'))

  pub IsRefused-iff :
      (t : Target) (v : Str) → IsDenied deny_map t v ↔ IsRefused p objects allow deny t v
  IsRefused-iff t v = (
    λ (s, ks, covering, there). (s, ks, covering, sym (dm.verbs s v ks) ∙ there),
    λ (s, ks, covering, asked). (s, ks, covering, dm.verbs s v ks ∙ asked),
  )
