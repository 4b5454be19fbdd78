-- ===== src/Processor/Evaluate/Laws.antt =====
-- What the evaluation leaves of the verbs of a key.
use kuberbac.Prelude.{
  ◌≡◌, ◌∙◌, Bool, true, false, not, ◌&&◌, Option, none, some, List, [], ◌∷◌, arith, Str, ◌==◌,
  ==_iff, has_prefix, has_suffix, trim_suffix, split, get_elem?, any, contains, if◌then◌else◌, ok,
  Option-cases, inl, inr, >>=-eq-ok,
}
use kuberbac.GoMap.{GoMap, has, keys, Occasion, Range, IsRange}
use kuberbac.GoMap.Laws.{
  lookup-insert, lookup-delete, lookup_of_has, contains-range, contains-keys, any-range,
}
use kuberbac.Rbac.{PolicyRule}
use kuberbac.Processor.Verbs.Laws.{contains-get_surviving_verbs}
use kuberbac.Processor.Verbs.{get_surviving_verbs}
use kuberbac.Processor.RuleMap.{hash, nonresourceurl, rule_at, verbs_at}
use kuberbac.Processor.Evaluate.{
  asterisk, reduce, drop_empty, reduce_matching, reduce_over, reduce_prefix, reduce_exact,
  reduce_resource, reduce_url, deny_round, evaluate_over, evaluate_policy_rules,
}

-- The keys of the allow rules that a deny rule with the third part `name` of its key is about.
abbrev covers_named : Str → Str → Str → Bool
covers_named d name k = if name == [] then has_prefix k d else d == k

abbrev covers_resource : Str → Option Str → Str → Bool
covers_resource d none k = false
covers_resource d (some name) k = covers_named d name k

-- The deny rule with the key `d` is about the allow rule with the key `k`: the tests of the keys, apart
-- from the steps that make them, which the lemmas below tie to it.
unfoldable pub covers_key : Str → Str → Bool
covers_key d k =
    if has_prefix d nonresourceurl
    then (if has_suffix d asterisk then has_prefix k (trim_suffix d asterisk) else d == k)
    else covers_resource d (get_elem? (split hash d) 2) k

verbs_at-drop_empty :
    (k j : Str) (m : GoMap PolicyRule) → verbs_at (drop_empty k m) j ≡ verbs_at m j
unfolding drop_empty
verbs_at-drop_empty k j m = ground (arith, lookup-delete k j m, ==_iff k j)

module _ {range : Range} (r : IsRange range) (v : Str) where
  -- The verb is left at a key.
  abbrev left : GoMap PolicyRule → Str → Bool
  left m j = contains (verbs_at m j) v

  left-reduce :
      (o : Occasion) (rule : PolicyRule) (k j : Str) (m : GoMap PolicyRule)
      → left (reduce range o rule k m) j ≡ (left m j && not (k == j && contains rule.verbs v))
  unfolding reduce
  left-reduce o rule k j m = ground (
    arith,
    ==_iff k j,
    lookup-insert k j
        (record (rule_at m k) {
          verbs = get_surviving_verbs range (k ∷ o) (verbs_at m k) rule.verbs;
        })
        m,
    contains-get_surviving_verbs r (k ∷ o) (verbs_at m k) rule.verbs v,
  )

  left-reduce_matching :
      (o : Occasion) (rule : PolicyRule) (prefix k j : Str) (m : GoMap PolicyRule)
      → left (reduce_matching range o rule prefix k m) j
        ≡ (left m j && not (k == j && (has_prefix j prefix && contains rule.verbs v)))
  unfolding reduce_matching
  left-reduce_matching o rule prefix k j m = ground (
    arith,
    ==_iff k j,
    verbs_at-drop_empty k j (if has_prefix k prefix then reduce range o rule k m else m),
    left-reduce o rule k j m,
  )

  left-reduce_over :
      (o : Occasion) (rule : PolicyRule) (prefix : Str) (ks : List Str) (j : Str)
      (m : GoMap PolicyRule)
      → left (reduce_over range o rule prefix ks m) j
        ≡ (left m j && not (contains ks j && (has_prefix j prefix && contains rule.verbs v)))
  unfolding reduce_over contains
  left-reduce_over o rule prefix [] j m = ground arith
  left-reduce_over o rule prefix (k ∷ ks) j m = ground (
    arith,
    left-reduce_matching o rule prefix k j m,
    left-reduce_over o rule prefix ks j (reduce_matching range o rule prefix k m),
  )

  -- A key that is not there has no verbs.
  left_of_missing : (j : Str) (m : GoMap PolicyRule) → has m j ≡ false → left m j ≡ false
  unfolding contains
  left_of_missing j m h = ground (arith, lookup_of_has m j h)

  left-reduce_prefix :
      (o : Occasion) (rule : PolicyRule) (prefix j : Str) (m : GoMap PolicyRule)
      → left (reduce_prefix range o rule prefix m) j
        ≡ (left m j && not (has_prefix j prefix && contains rule.verbs v))
  unfolding reduce_prefix
  left-reduce_prefix o rule prefix j m = ground (
    arith,
    left-reduce_over o rule prefix (range o (keys m)) j m,
    contains-range r o (keys m) j,
    contains-keys m j,
    left_of_missing j m,
  )

  left-reduce_exact :
      (o : Occasion) (rule : PolicyRule) (k j : Str) (m : GoMap PolicyRule)
      → left (reduce_exact range o rule k m) j ≡ (left m j && not (k == j && contains rule.verbs v))
  unfolding reduce_exact
  left-reduce_exact o rule k j m =
      rw (verbs_at-drop_empty k j (reduce range o rule k m)) (left-reduce o rule k j m)

  left-reduce_resource :
      (o : Occasion) (rule : PolicyRule) (d name j : Str) (m : GoMap PolicyRule)
      → left (reduce_resource range o rule d name m) j
        ≡ (left m j && not (covers_named d name j && contains rule.verbs v))
  unfolding reduce_resource
  left-reduce_resource o rule d name j m = ground (
    arith,
    ==_iff d j,
    left-reduce_prefix o rule d j m,
    left-reduce_exact o rule d j m,
    left_of_missing j m,
  )

  left-reduce_url :
      (o : Occasion) (rule : PolicyRule) (d j : Str) (m : GoMap PolicyRule)
      → has_prefix d nonresourceurl ≡ true
      → left (reduce_url range o rule d m) j
        ≡ (left m j && not (covers_key d j && contains rule.verbs v))
  unfolding reduce_url covers_key
  left-reduce_url o rule d j m h = ground (
    arith,
    left-reduce_prefix o rule (trim_suffix d asterisk) j m,
    left-reduce_exact o rule d j m,
  )

  left-deny_round :
      (d : Str) (rule : PolicyRule) (m m' : GoMap PolicyRule) (j : Str)
      → deny_round range d rule m ≡ ok m'
      → left m' j ≡ (left m j && not (covers_key d j && contains rule.verbs v))
  unfolding deny_round covers_key
  left-deny_round d rule m m' j h = elim (Option-cases (get_elem? (split hash d) 2)) [
    | inl short ↦ ground (arith, left-reduce_url (d ∷ []) rule d j m)
    | inr (name, e) ↦
        ground (
          arith,
          left-reduce_url (d ∷ []) rule d j m,
          left-reduce_resource (d ∷ []) rule d name j m,
        )
  ]

  left-evaluate_over :
      (ks : List Str) (deny m m' : GoMap PolicyRule) (j : Str)
      → evaluate_over range ks deny m ≡ ok m'
      → left m' j ≡ (left m j && not (any (λ d. covers_key d j && contains (verbs_at deny d) v) ks))
  unfolding evaluate_over any
  left-evaluate_over [] deny m m' j h = ground arith
  left-evaluate_over (k ∷ ks) deny m m' j h =
      let (m'', first, rest) = >>=-eq-ok (deny_round range k (rule_at deny k) m) _ h in
      ground (
        arith,
        left-deny_round k (rule_at deny k) m m'' j first,
        left-evaluate_over ks deny m'' m' j rest,
      )

  -- After EvaluatePolicyRules a verb is left at a key exactly when it was there and no deny rule whose
  -- key is about that key has the verb, whatever the order of the loops.
  pub left-evaluate_policy_rules :
      (allow deny result : GoMap PolicyRule) (j : Str)
      → evaluate_policy_rules range allow deny ≡ ok result
      → left result j ≡ (
          left allow j
          && not (any (λ d. covers_key d j && contains (verbs_at deny d) v) (keys deny)))
  unfolding evaluate_policy_rules
  left-evaluate_policy_rules allow deny result j h =
      left-evaluate_over (range [] (keys deny)) deny allow result j h
      ∙ rw (any-range r [] (λ d. covers_key d j && contains (verbs_at deny d) v) (keys deny))
