-- ===== src/Processor/RuleMap/Laws.antt =====
-- The map of stretched rules: which keys it has, and what it holds at a key.
use kuberbac.Prelude.{Bool-cases, inl, inr}
use kuberbac.Prelude.{
  ◌≡◌, refl, ◌∙◌, sym, ap, ◌&&◌, ◌||◌, Option, none, some, List, [], ◌∷◌, ◌++◌, arith, Str, ◌==◌,
  ==_iff, ==_comm, All, any, contains, contains-append, contains-sort, sort, contains-compact,
  if◌then◌else◌, ok,
}
use kuberbac.GoMap.{GoMap, lookup, insert}
use kuberbac.GoMap.Laws.{lookup-insert}
use kuberbac.Rbac.{PolicyRule}
use kuberbac.Processor.Targets.{Target, url, generic, named, gives, lists_target, single}
use kuberbac.Processor.RuleMap.{
  hash, url_key, resource_key, rule_key, merge_verbs, merged, add_rules,
  get_map_from_stretched_policy_rules, or_zero, verbs_at,
}
use kuberbac.Processor.Keys.{key_of, IsKeyable}
use kuberbac.Processor.Keys.Covers.{resource_key-==, resource_key-url_prefix}

-- A rule for one keyable target.
pub record IsSingle (rule : PolicyRule) : Type 0 where
  pub target : Target
  pub verbs : List Str
  pub keyable : IsKeyable target
  pub shape : rule ≡ single target verbs

-- The rule that stands at a key is for the target of the key.
pub record IsKeyed (k : Str) (rule : PolicyRule) : Type 0 where
  pub target : Target
  pub keyable : IsKeyable target
  pub key : k ≡ key_of target
  pub shape : rule ≡ single target rule.verbs

abbrev pub IsRuleMap : GoMap PolicyRule → Type 0
IsRuleMap m = (k : Str) (rule : PolicyRule) → lookup k m ≡ some rule → IsKeyed k rule

contains-merge_verbs :
    (a b : List Str) (v : Str) → contains (merge_verbs a b) v ≡ (contains a v || contains b v)
unfolding merge_verbs
contains-merge_verbs a b v =
    rw (contains-compact (sort (a ++ b)) v, contains-sort (a ++ b) v, contains-append a b v)

==-url_key : (u w : Str) → (url_key u == url_key w) ≡ (u == w)
unfolding ◌==◌
==-url_key u w = refl

rule_key-single : (t : Target) (verbs : List Str) → rule_key (single t verbs) ≡ ok (key_of t)
unfolding rule_key
rule_key-single (url u) verbs = refl
rule_key-single (generic g r) verbs = refl
rule_key-single (named g r n) verbs = refl

-- The verbs of what is stored.
abbrev pub kept_verbs : Option PolicyRule → List Str → List Str
kept_verbs none verbs = verbs
kept_verbs (some old) verbs = merge_verbs old.verbs verbs

merged-single :
    (t : Target) (o : Option PolicyRule) (verbs : List Str)
    → merged o (single t verbs) ≡ single t (kept_verbs o verbs)
unfolding merged
merged-single (url u) (some old) verbs = refl
merged-single (generic g r) (some old) verbs = refl
merged-single (named g r n) (some old) verbs = refl
merged-single t none verbs = refl

single-verbs : (t : Target) (verbs : List Str) → (single t verbs).verbs ≡ verbs
single-verbs (url u) verbs = refl
single-verbs (generic g r) verbs = refl
single-verbs (named g r n) verbs = refl

contains-kept_verbs :
    (o : Option PolicyRule) (verbs : List Str) (v : Str)
    → contains (kept_verbs o verbs) v ≡ (contains (or_zero o).verbs v || contains verbs v)
unfolding contains
contains-kept_verbs none verbs v = refl
contains-kept_verbs (some old) verbs v = contains-merge_verbs old.verbs verbs v

-- Equal keys stand for one target, and a rule for a target lists just that one.
pub lists_target-single :
    (s t : Target) (verbs : List Str)
    → IsKeyable s
    → IsKeyable t
    → lists_target t (single s verbs) ≡ (key_of s == key_of t)
unfolding contains
lists_target-single (url u) (url w) verbs h k = ground (arith, ==-url_key u w)
lists_target-single (url u) (generic g' r') verbs h k = ground (
  arith,
  ==_comm (url_key u) (resource_key g' r' []),
  resource_key-url_prefix g' (r' ++ hash ∷ []) u k.0 k.1,
)
lists_target-single (url u) (named g' r' n') verbs h k = ground (
  arith,
  ==_comm (url_key u) (resource_key g' r' n'),
  resource_key-url_prefix g' (r' ++ hash ∷ n') u k.0 k.1,
)
lists_target-single (generic g r) (url w) verbs h k =
    ground (arith, resource_key-url_prefix g (r ++ hash ∷ []) w h.0 h.1)
lists_target-single (generic g r) (generic g' r') verbs h k =
    ground (arith, resource_key-== g r [] g' r' [] h.0 h.2 k.0 k.2, ==_iff [] [])
lists_target-single (generic g r) (named g' r' n') verbs h k =
    ground (arith, resource_key-== g r [] g' r' n' h.0 h.2 k.0 k.2, ==_iff [] n', k.4)
lists_target-single (named g r n) (url w) verbs h k =
    ground (arith, resource_key-url_prefix g (r ++ hash ∷ n) w h.0 h.1)
lists_target-single (named g r n) (generic g' r') verbs h k =
    ground (arith, resource_key-== g r n g' r' [] h.0 h.2 k.0 k.2, ==_iff n [], h.4)
lists_target-single (named g r n) (named g' r' n') verbs h k =
    ground (arith, resource_key-== g r n g' r' n' h.0 h.2 k.0 k.2)

pub insert-IsRuleMap :
    (t : Target) (verbs : List Str) (m : GoMap PolicyRule)
    → IsKeyable t
    → IsRuleMap m
    → IsRuleMap (insert (key_of t) (single t verbs) m)
insert-IsRuleMap t verbs m keyable h k rule e = elim (Bool-cases (key_of t == k)) [
  | inl same ↦
      let e' : single t verbs ≡ rule =
        ground (arith, e, same, lookup-insert (key_of t) k (single t verbs) m) in
      record {
        target = t;
        keyable = keyable;
        key = sym ((==_iff _ _).0 same);
        shape = rw (← e', single-verbs t verbs);
      }
  | inr other ↦ h k rule (ground (arith, e, other, lookup-insert (key_of t) k (single t verbs) m))
]

verbs_at-insert :
    (t s : Target) (verbs : List Str) (m : GoMap PolicyRule)
    → verbs_at (insert (key_of s) (single s verbs) m) (key_of t)
      ≡ (if key_of s == key_of t then verbs else verbs_at m (key_of t))
verbs_at-insert t s verbs m =
    ground (arith, lookup-insert (key_of s) (key_of t) (single s verbs) m, single-verbs s verbs)

module _ {rule : PolicyRule} (s : IsSingle rule) where
  pub rule_key-IsSingle : rule_key rule ≡ ok (key_of s.target)
  rule_key-IsSingle = ap rule_key s.shape ∙ rule_key-single s.target s.verbs

  pub merged-IsSingle :
      (o : Option PolicyRule) → merged o rule ≡ single s.target (kept_verbs o s.verbs)
  merged-IsSingle o = ap (merged o) s.shape ∙ merged-single s.target o s.verbs

  pub gives-IsSingle :
      (t : Target) (v : Str)
      → IsKeyable t
      → gives t v rule ≡ (key_of s.target == key_of t && contains s.verbs v)
  gives-IsSingle t v keyable =
      ap (gives t v) s.shape
      ∙ ground (
        arith,
        lists_target-single s.target t s.verbs s.keyable keyable,
        single-verbs s.target s.verbs,
      )

add_rules_lem :
    (rules : List PolicyRule) (m : GoMap PolicyRule)
    → All IsSingle rules
    → IsRuleMap m
    → (m' : GoMap PolicyRule) × (add_rules m rules ≡ ok m')
      × IsRuleMap m'
      × ((t : Target) (v : Str)
          → IsKeyable t
          → contains (verbs_at m' (key_of t)) v
            ≡ (contains (verbs_at m (key_of t)) v || any (gives t v) rules))
unfolding add_rules any
add_rules_lem [] m singles h = (m, refl, h, λ t v keyable. ground arith)
add_rules_lem (rule ∷ rules) m (s, singles) h =
    let o = lookup (key_of s.target) m in
    let verbs = kept_verbs o s.verbs in
    let (m', ran, keyed, left) =
      add_rules_lem rules (insert (key_of s.target) (single s.target verbs) m) singles
        (insert-IsRuleMap s.target verbs m s.keyable h) in
    (
      m',
      rw (rule_key-IsSingle s, merged-IsSingle s o) ran,
      keyed,
      λ t v keyable. ground (
        arith,
        left t v keyable,
        verbs_at-insert t s.target verbs m,
        contains-kept_verbs o s.verbs v,
        gives-IsSingle s t v keyable,
        ==_iff (key_of s.target) (key_of t),
      ),
    )

-- On rules for one target each GetMapFromStretchedPolicyRules does not panic. Every rule of the map is
-- for the target of its key, and the verbs at a target's key are those that some rule gives on it.
pub get_map_from_stretched_policy_rules_lem :
    (rules : List PolicyRule)
    → All IsSingle rules
    → (m : GoMap PolicyRule) × (get_map_from_stretched_policy_rules rules ≡ ok m)
      × IsRuleMap m
      × ((t : Target) (v : Str)
          → IsKeyable t
          → contains (verbs_at m (key_of t)) v ≡ any (gives t v) rules)
unfolding get_map_from_stretched_policy_rules
get_map_from_stretched_policy_rules_lem rules singles =
    let (m, ran, keyed, left) = add_rules_lem rules [] singles (λ k rule e. unfold lookup in cc) in
    (m, ran, keyed, λ t v keyable. left t v keyable ∙ unfold lookup contains in refl)
