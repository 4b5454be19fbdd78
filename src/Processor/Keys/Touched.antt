-- ===== src/Processor/Keys/Touched.antt =====
-- Which keys a map of stretched rules has.
use kuberbac.Prelude.{
  ◌≡◌, refl, ◌∙◌, sym, ap, ◌↔◌, true, false, ◌||◌, List, [], ◌∷◌, arith, Str, ◌==◌, ==_iff, All,
  any, found_of_any, any_of_contains, contains, is_empty, ok, Bool-cases, inl, inr, subst,
}
use kuberbac.GoMap.{GoMap, lookup, has, insert, keys}
use kuberbac.GoMap.Laws.{has-insert, contains-keys}
use kuberbac.Rbac.{PolicyRule}
use kuberbac.Processor.Targets.{Target, url, generic, named, gives, lists_target, single}
use kuberbac.Processor.RuleMap.{
  add_rules, get_map_from_stretched_policy_rules, verbs_at, resource_key,
}
use kuberbac.Processor.RuleMap.Laws.{
  IsSingle, IsRuleMap, rule_key-IsSingle, merged-IsSingle, kept_verbs, lists_target-single,
}
use kuberbac.Processor.Keys.{key_of, IsKeyable}
use kuberbac.Processor.Keys.Evaluation.{has-IsKey, has_of_verb}
use kuberbac.Processor.Special.Rounds.{touches, touches_key, touches_key-key_of}
use kuberbac.Processor.Special.Laws.{is_touched}

abbrev pub HasVerbs : PolicyRule → Type 0
HasVerbs rule = is_empty rule.verbs ≡ false

-- The first verb.
verb_of : (verbs : List Str) → is_empty verbs ≡ false → (v : Str) × (contains verbs v ≡ true)
unfolding contains
verb_of [] h = cc
verb_of (v ∷ verbs) h = (v, ground (arith, ==_iff v v))

gives_of_lists :
    (t : Target) (rules : List PolicyRule)
    → All HasVerbs rules
    → any (lists_target t) rules ≡ true
    → (v : Str) × (any (gives t v) rules ≡ true)
unfolding any
gives_of_lists t [] h e = cc
gives_of_lists t (rule ∷ rules) h e = elim (Bool-cases (lists_target t rule)) [
  | inl here ↦ let (v, there) = verb_of rule.verbs h.0 in (v, ground (arith, here, there))
  | inr gone ↦
      let (v, there) = gives_of_lists t rules h.1 (ground (arith, e, gone)) in
      (v, ground (arith, there))
]

module _ (t : Target) (k : IsKeyable t) where
  lists_target-IsSingle :
      {rule : PolicyRule} (s : IsSingle rule) → lists_target t rule ≡ (key_of s.target == key_of t)
  lists_target-IsSingle s =
      ap (lists_target t) s.shape ∙ lists_target-single s.target t s.verbs s.keyable k

  has-add_rules :
      (rules : List PolicyRule) (m m' : GoMap PolicyRule)
      → All IsSingle rules
      → add_rules m rules ≡ ok m'
      → has m' (key_of t) ≡ (has m (key_of t) || any (lists_target t) rules)
  unfolding add_rules any
  has-add_rules [] m m' singles e = ground arith
  has-add_rules (rule ∷ rules) m m' (s, singles) e =
      let o = lookup (key_of s.target) m in
      let next = insert (key_of s.target) (single s.target (kept_verbs o s.verbs)) m in
      let e' : add_rules next rules ≡ ok m' = rw (rule_key-IsSingle s, merged-IsSingle s o) at e in
      ground (
        arith,
        has-add_rules rules next m' singles e',
        has-insert (key_of s.target) (key_of t) (single s.target (kept_verbs o s.verbs)) m,
        lists_target-IsSingle s,
      )

  -- A target has a key exactly when some rule gives a verb on it.
  pub has_iff :
      (rules : List PolicyRule) (m : GoMap PolicyRule)
      → All IsSingle rules
      → All HasVerbs rules
      → get_map_from_stretched_policy_rules rules ≡ ok m
      → ((v : Str) → contains (verbs_at m (key_of t)) v ≡ any (gives t v) rules)
      → (has m (key_of t) ≡ true) ↔ ((v : Str) × (any (gives t v) rules ≡ true))
  unfolding get_map_from_stretched_policy_rules
  has_iff rules m singles verbs ran left = (
    λ there.
        gives_of_lists t rules verbs
          (sym (has-add_rules rules [] m singles ran ∙ unfold has in refl) ∙ there),
    λ (v, given). has_of_verb m (key_of t) v (left v ∙ given),
  )

named_of_touches :
    (s : Target) (g r : Str) → IsKeyable s → touches s g r ≡ true → (n : Str) × (s ≡ named g r n)
named_of_touches (url u) g r k h = cc
named_of_touches (generic g' r') g r k h = cc
named_of_touches (named g' r' n) g r k h = (n, ground (arith, ==_iff g' g, ==_iff r' r))

-- A resource is touched exactly when the map has the key of an object of it.
pub is_touched_iff :
    (m : GoMap PolicyRule) (g r : Str)
    → IsRuleMap m
    → IsKeyable (generic g r)
    → (is_touched m g r ≡ true)
      ↔ ((n : Str) × IsKeyable (named g r n) × (has m (resource_key g r n) ≡ true))
is_touched_iff m g r h k = (
  λ e.
      let (d, there, touching) = found_of_any (touches_key g r) (keys m) e in
      let present : has m d ≡ true = sym (contains-keys m d) ∙ there in
      let (s, ks, same) = has-IsKey m d h present in
      let (n, e') =
        named_of_touches s g r ks
          (sym (touches_key-key_of g r s k ks) ∙ ap (touches_key g r) (sym same) ∙ touching) in
      (
        n,
        subst IsKeyable e' ks,
        ap (λ s'. has m (key_of s')) (sym e') ∙ ap (has m) (sym same) ∙ present,
      ),
  λ (n, ks, there).
      any_of_contains (touches_key g r) (resource_key g r n) (keys m)
        (contains-keys m (resource_key g r n) ∙ there)
        (touches_key-key_of g r (named g r n) k ks ∙ ground (arith, ==_iff g g, ==_iff r r)),
)
