-- ===== src/Processor/Special/Laws.antt =====
-- EvaluateSpecialCases as a whole.
use kuberbac.Prelude.{
  ◌≡◌, refl, ◌∙◌, sym, ap, Bool, true, ◌||◌, List, [], ◌∷◌, ◌++◌, arith, Str, ==_iff, ==_refl, All,
  any, contains, ok, Bool-cases, Option-cases, inl, inr,
}
use kuberbac.GoMap.{GoMap, lookup, has, insert, delete, keys, Range, IsRange}
use kuberbac.GoMap.Laws.{
  lookup-insert, lookup-delete, has-delete, has_of_none, contains-range, contains-keys, any-range,
}
use kuberbac.Rbac.{PolicyRule}
use kuberbac.Processor.Discovery.{PolicyRulesProcessor}
use kuberbac.Processor.Targets.{Target, url, generic, named, single}
use kuberbac.Processor.Keys.{key_of, IsKeyable}
use kuberbac.Processor.Keys.Covers.{resource_key-==, resource_key-url_prefix}
use kuberbac.Processor.RuleMap.{hash, url_key, resource_key, rule_at, verbs_at}
use kuberbac.Processor.RuleMap.Laws.{IsRuleMap, insert-IsRuleMap}
use kuberbac.Processor.RuleMap.Singles.{IsName}
use kuberbac.Processor.Special.{
  Lister, add_objects, special_round, special_over, evaluate_special_cases,
}
use kuberbac.Processor.Special.Objects.{key-append, has-add_objects, writes_key-url}
use kuberbac.Processor.Served.{listed_kind}
use kuberbac.Processor.Special.Rounds.{
  AreListed, touches, touches_key, touches_key-key_of, round, after, special_round-single,
}
use kuberbac.Processor.Special.Verbs.{has-round, verbs_at-round}

generic_of_key :
    (g r : Str) (t : Target)
    → IsKeyable (generic g r)
    → IsKeyable t
    → resource_key g r [] ≡ key_of t
    → t ≡ generic g r
generic_of_key g r (url u) k h e = absurd (
    ground (
      arith,
      resource_key-url_prefix g (r ++ hash ∷ []) u k.0 k.1,
      ==_iff (resource_key g r []) (key_of (url u)),
    ))
generic_of_key g r (generic g' r') k h e = ground (
  arith,
  resource_key-== g r [] g' r' [] k.0 k.2 h.0 h.2,
  ==_iff (resource_key g r []) (resource_key g' r' []),
  ==_iff g g',
  ==_iff r r',
)
generic_of_key g r (named g' r' n) k h e = absurd (
    ground (
      arith,
      resource_key-== g r [] g' r' n k.0 k.2 h.0 h.2,
      ==_iff (resource_key g r []) (resource_key g' r' n),
      ==_iff [] n,
      h.4,
    ))

-- The rule at a generic key.
generic_rule :
    (g r : Str) (m : GoMap PolicyRule)
    → IsKeyable (generic g r)
    → IsRuleMap m
    → has m (resource_key g r []) ≡ true
    → (verbs : List Str) × (rule_at m (resource_key g r []) ≡ single (generic g r) verbs)
generic_rule g r m k h there = elim (Option-cases (lookup (resource_key g r []) m)) [
  | inl gone ↦ absurd (ground (arith, has_of_none m (resource_key g r []) gone))
  | inr (rule, e) ↦
      let keyed = h (resource_key g r []) rule e in
      (
        rule.verbs,
        rw e (
            keyed.shape
            ∙ ap (λ t. single t rule.verbs)
                (generic_of_key g r keyed.target k keyed.keyable keyed.key)),
      )
]

delete-IsRuleMap : (k : Str) (m : GoMap PolicyRule) → IsRuleMap m → IsRuleMap (delete k m)
delete-IsRuleMap k m h j rule e = h j rule (ground (arith, e, lookup-delete k j m))

add_objects-IsRuleMap :
    (g r : Str) (verbs : List Str) (names : List Str) (m : GoMap PolicyRule)
    → IsKeyable (generic g r)
    → All IsName names
    → rule_at m (resource_key g r []) ≡ single (generic g r) verbs
    → IsRuleMap m
    → IsRuleMap (add_objects (resource_key g r []) names m)
unfolding add_objects
add_objects-IsRuleMap g r verbs [] m k h e i = i
add_objects-IsRuleMap g r verbs (name ∷ names) m k h e i =
    let next = insert (resource_key g r name) (single (named g r name) verbs) m in
    let same : rule_at next (resource_key g r []) ≡ single (generic g r) verbs = ground (
      arith,
      e,
      lookup-insert (resource_key g r name) (resource_key g r []) (single (named g r name) verbs) m,
      resource_key-== g r name g r [] k.0 k.2 k.0 k.2,
      ==_iff name [],
      h.0.1,
    ) in
    rw (e, key-append)
      (add_objects-IsRuleMap g r verbs names next k h.1 same
        (insert-IsRuleMap (named g r name) verbs m (k.0, k.1, k.2, h.0.0, h.0.1) i))

module _ (p : PolicyRulesProcessor) (objects : Str → Str → List Str)
    (h : (g r : Str) → All IsName (objects g r)) where
  round-IsRuleMap :
      (s : Target) (m : GoMap PolicyRule)
      → IsKeyable s
      → IsRuleMap m
      → IsRuleMap (round objects s m)
  unfolding round
  round-IsRuleMap (url u) m ks i = i
  round-IsRuleMap (generic g r) m ks i = i
  round-IsRuleMap (named g r n) m ks i = elim (Bool-cases (has m (resource_key g r []))) [
    | inl there ↦
        let (verbs, e) = generic_rule g r m (ks.0, ks.1, ks.2) i there in
        rw there (
          delete-IsRuleMap (resource_key g r []) (add_objects (resource_key g r []) _ m)
            (add_objects-IsRuleMap g r verbs _ m (ks.0, ks.1, ks.2) (h _ _) e i))
    | inr missing ↦ rw missing i
  ]

  has-round_url :
      (s : Target) (m : GoMap PolicyRule) (u : Str)
      → IsKeyable s
      → has (round objects s m) (url_key u) ≡ has m (url_key u)
  unfolding round
  has-round_url (url w) m u ks = refl
  has-round_url (generic g r) m u ks = refl
  has-round_url (named g r n) m u ks = ground (
    arith,
    has-delete (resource_key g r []) (url_key u)
        (add_objects (resource_key g r []) (objects g r) m),
    has-add_objects (resource_key g r []) (objects g r) m (url_key u),
    writes_key-url g r (ks.0, ks.1, ks.2) (objects g r) u,
    resource_key-url_prefix g (r ++ hash ∷ []) u ks.0 ks.1,
  )

  after-round :
      (touched : Str → Str → Bool) (s : Target) (m : GoMap PolicyRule) (t : Target)
      → IsKeyable s
      → IsKeyable t
      → after objects touched (round objects s m) t
        ≡ after objects (λ g r. touches s g r || touched g r) m t
  after-round touched s m (url u) ks k = verbs_at-round objects h s m (url u) ks k
  after-round touched s m (generic g r) ks k =
      ground (arith, verbs_at-round objects h s m (generic g r) ks k)
  after-round touched s m (named g r n) ks k = ground (
    arith,
    verbs_at-round objects h s m (generic g r) ks (k.0, k.1, k.2),
    verbs_at-round objects h s m (named g r n) ks k,
    has-round objects h s m g r ks (k.0, k.1, k.2),
  )

  after-nil :
      (m : GoMap PolicyRule) (t : Target)
      → after objects (λ g r. any (touches_key g r) []) m t ≡ verbs_at m (key_of t)
  unfolding any
  after-nil m (url u) = refl
  after-nil m (generic g r) = refl
  after-nil m (named g r n) = refl

  after-any :
      (ks : List Str) (s : Target) (m : GoMap PolicyRule) (t : Target)
      → IsKeyable s
      → IsKeyable t
      → after objects (λ g r. touches s g r || any (touches_key g r) ks) m t
        ≡ after objects (λ g r. any (touches_key g r) (key_of s ∷ ks)) m t
  unfolding any
  after-any ks s m (url u) ks' k = refl
  after-any ks s m (generic g r) ks' k = rw (touches_key-key_of g r s k ks')
  after-any ks s m (named g r n) ks' k = rw (touches_key-key_of g r s (k.0, k.1, k.2) ks')

  module _ (list : Lister) where
    AreListed-target :
        (d : Str) (s : Target)
        → IsKeyable s
        → d ≡ key_of s
        → ((g r : Str)
            → IsKeyable (generic g r)
            → touches_key g r d ≡ true
            → (d' : Str) → list d' (listed_kind p g r) ≡ ok (objects g r))
        → AreListed p objects list s
    AreListed-target d (url u) k e lists = tt
    AreListed-target d (generic g r) k e lists = tt
    AreListed-target d (named g r n) k e lists =
        lists g r (k.0, k.1, k.2)
          (ap (touches_key g r) e
            ∙ (touches_key-key_of g r (named g r n) (k.0, k.1, k.2) k
                ∙ ground (arith, ==_iff g g, ==_iff r r)))

    -- The rule at a key of the deny map is for the target of the key.
    special_round-IsRuleMap :
        (d : Str) (deny m : GoMap PolicyRule)
        → IsRuleMap deny
        → has deny d ≡ true
        → ((g r : Str)
            → IsKeyable (generic g r)
            → touches_key g r d ≡ true
            → (d' : Str) → list d' (listed_kind p g r) ≡ ok (objects g r))
        → (s : Target) × IsKeyable s
          × (d ≡ key_of s)
          × (special_round p list d (rule_at deny d) m ≡ ok (round objects s m))
    special_round-IsRuleMap d deny m dm there lists = elim (Option-cases (lookup d deny)) [
      | inl gone ↦ absurd (ground (arith, has_of_none deny d gone))
      | inr (rule, e) ↦
          let keyed = dm d rule e in
          (
            keyed.target,
            keyed.keyable,
            keyed.key,
            ap (λ rule'. special_round p list d rule' m) ((rw e refl) ∙ keyed.shape)
                ∙ ap (λ d'. special_round p list d' (single keyed.target rule.verbs) m) keyed.key
                ∙ special_round-single p objects list keyed.target rule.verbs m keyed.keyable
                    (AreListed-target d keyed.target keyed.keyable keyed.key lists),
          )
    ]

    special_over_lem :
        (ks : List Str) (deny m : GoMap PolicyRule)
        → IsRuleMap deny
        → IsRuleMap m
        → ((d : Str) → contains ks d ≡ true → has deny d ≡ true)
        → ((g r : Str)
            → IsKeyable (generic g r)
            → any (touches_key g r) ks ≡ true
            → (d : Str) → list d (listed_kind p g r) ≡ ok (objects g r))
        → (m' : GoMap PolicyRule) × (special_over p list ks deny m ≡ ok m')
          × IsRuleMap m'
          × ((u : Str) → has m' (url_key u) ≡ has m (url_key u))
          × ((t : Target)
              → IsKeyable t
              → verbs_at m' (key_of t) ≡ after objects (λ g r. any (touches_key g r) ks) m t)
    unfolding special_over
    special_over_lem [] deny m dm i there lists =
        (m, refl, i, λ u. refl, λ t k. sym (after-nil m t))
    special_over_lem (d ∷ ks) deny m dm i there lists =
        let (s, ks', e, ran) =
          special_round-IsRuleMap d deny m dm (there d (unfold contains in rw ==_refl))
            (λ g r k touched. lists g r k (unfold any in ground (arith, touched))) in
        let (m', ran', i', urls, verbs) =
          special_over_lem ks deny (round objects s m) dm (round-IsRuleMap s m ks' i)
            (λ d' within. there d' (unfold contains in ground (arith, within)))
            (λ g r k touched. lists g r k (unfold any in ground (arith, touched))) in
        (
          m',
          rw ran ran',
          i',
          λ u. urls u ∙ has-round_url s m u ks',
          λ t k.
              verbs t k
              ∙ after-round (λ g r. any (touches_key g r) ks) s m t ks' k
              ∙ after-any ks s m t ks' k
              ∙ ap (λ d'. after objects (λ g r. any (touches_key g r) (d' ∷ ks)) m t) (sym e),
        )

-- The deny map has a rule for an object of the resource.
abbrev pub is_touched : GoMap PolicyRule → Str → Str → Bool
is_touched deny g r = any (touches_key g r) (keys deny)

module _ {range : Range} (c : IsRange range) (p : PolicyRulesProcessor)
    (objects : Str → Str → List Str) where
  after-range :
      (deny m : GoMap PolicyRule) (t : Target)
      → after objects (λ g r. any (touches_key g r) (range [] (keys deny))) m t
        ≡ after objects (is_touched deny) m t
  after-range deny m (url u) = refl
  after-range deny m (generic g r) = rw (any-range c [] (touches_key g r) (keys deny))
  after-range deny m (named g r n) = rw (any-range c [] (touches_key g r) (keys deny))

  -- Suppose that for each resource of which the deny map names an object, a list of the kind of the last
  -- resource type of the resource or of one of its subresources gives, at every call, the names that
  -- `objects` has for the resource. Then EvaluateSpecialCases returns a map of which every rule is for
  -- the target of its key. A resource of which the deny map names an object has no verbs left; each of
  -- its objects that is so listed has the resource's verbs, if the resource had a rule; and every other
  -- target keeps its own verbs, whatever the order of the loop. The URLs that have a rule stay the same.
  pub evaluate_special_cases_lem :
      (list : Lister) (allow deny : GoMap PolicyRule)
      → ((g r : Str) → All IsName (objects g r))
      → ((g r : Str)
          → IsKeyable (generic g r)
          → is_touched deny g r ≡ true
          → (d : Str) → list d (listed_kind p g r) ≡ ok (objects g r))
      → IsRuleMap deny
      → IsRuleMap allow
      → (result : GoMap PolicyRule) × (evaluate_special_cases p list range allow deny ≡ ok result)
        × IsRuleMap result
        × ((u : Str) → has result (url_key u) ≡ has allow (url_key u))
        × ((t : Target)
            → IsKeyable t
            → verbs_at result (key_of t) ≡ after objects (is_touched deny) allow t)
  unfolding evaluate_special_cases
  evaluate_special_cases_lem list allow deny names lists dm am =
      let (result, ran, i, urls, verbs) =
        special_over_lem p objects names list (range [] (keys deny)) deny allow dm am
          (λ d within.
            sym (contains-keys deny d) ∙ sym (contains-range c [] (keys deny) d) ∙ within)
          (λ g r k touched.
            lists g r k (sym (any-range c [] (touches_key g r) (keys deny)) ∙ touched)) in
      (result, ran, i, urls, λ t k. verbs t k ∙ after-range deny allow t)
