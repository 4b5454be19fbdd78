-- ===== src/Processor/Keys/Kept.antt =====
-- EvaluatePolicyRules keeps the rules of the map at the keys of their targets.
use kuberbac.Prelude.{
  ◌≡◌, refl, ◌∙◌, sym, ap, true, false, none, some, List, [], ◌∷◌, arith, Str, ◌==◌, ==_iff,
  ==_refl, contains, is_empty, has_prefix, if_intro, ok, Option-cases, inl, inr, split, get_elem?,
  or_panic, subst, Holds, bind-Holds, bind_at-Holds, has_suffix, trim_suffix, subst,
}
use kuberbac.GoMap.{GoMap, lookup, has, insert, delete, keys, Occasion, Range, IsRange}
use kuberbac.GoMap.Laws.{lookup-insert, lookup-delete}
use kuberbac.Rbac.{PolicyRule}
use kuberbac.Processor.Targets.{Target, url, generic, named, single}
use kuberbac.Processor.Verbs.{get_surviving_verbs}
use kuberbac.Processor.Verbs.Laws.{contains-get_surviving_verbs}
use kuberbac.Processor.RuleMap.{hash, nonresourceurl, rule_at, verbs_at}
use kuberbac.Processor.RuleMap.Laws.{IsRuleMap, insert-IsRuleMap}
use kuberbac.Processor.Evaluate.{
  asterisk, reduce, drop_empty, reduce_matching, reduce_over, reduce_prefix, reduce_exact,
  reduce_resource, reduce_url, deny_round, evaluate_over, evaluate_policy_rules,
}

empty_of_none : (xs : List Str) → ((v : Str) → contains xs v ≡ false) → is_empty xs ≡ true
unfolding contains
empty_of_none [] h = refl
empty_of_none (x ∷ xs) h = absurd (ground (arith, h x, ==_iff x x))

delete-IsRuleMap : (k : Str) (m : GoMap PolicyRule) → IsRuleMap m → IsRuleMap (delete k m)
delete-IsRuleMap k m h j rule e = h j rule (ground (arith, e, lookup-delete k j m))

drop_empty-IsRuleMap : (k : Str) (m : GoMap PolicyRule) → IsRuleMap m → IsRuleMap (drop_empty k m)
unfolding drop_empty
drop_empty-IsRuleMap k m h = if_intro IsRuleMap (is_empty (verbs_at m k)) (delete-IsRuleMap k m h) h

with_verbs :
    (t : Target) (verbs verbs' : List Str)
    → record (single t verbs) { verbs = verbs' } ≡ single t verbs'
with_verbs (url u) verbs verbs' = refl
with_verbs (generic g r) verbs verbs' = refl
with_verbs (named g r n) verbs verbs' = refl

-- What was missing and is there without verbs goes again.
drop_empty-insert-IsRuleMap :
    (k : Str) (rule : PolicyRule) (m : GoMap PolicyRule)
    → is_empty rule.verbs ≡ true
    → IsRuleMap m
    → IsRuleMap (drop_empty k (insert k rule m))
unfolding drop_empty
drop_empty-insert-IsRuleMap k rule m e h =
    let gone : is_empty (verbs_at (insert k rule m) k) ≡ true =
      ground (arith, lookup-insert k k rule m, ==_refl k, e) in
    rw gone (λ j rule' e'.
      h j rule' (ground (arith, e', lookup-delete k j (insert k rule m), lookup-insert k j rule m)))

insert_verbs-IsRuleMap :
    (k : Str) (verbs : List Str) (m : GoMap PolicyRule) (old : PolicyRule)
    → IsRuleMap m
    → lookup k m ≡ some old
    → IsRuleMap (insert k (record (rule_at m k) { verbs = verbs }) m)
insert_verbs-IsRuleMap k verbs m old h e =
    let keyed = h k old e in
    let same : record old { verbs = verbs } ≡ single keyed.target verbs =
      ap (λ (r : PolicyRule). record r { verbs = verbs }) keyed.shape
      ∙ with_verbs keyed.target old.verbs verbs in
    rw (e, same)
      (subst (λ k'. IsRuleMap (insert k' (single keyed.target verbs) m)) (sym keyed.key)
        (insert-IsRuleMap keyed.target verbs m keyed.keyable h))

module _ {range : Range} (c : IsRange range) where
  reduce_present :
      (o : Occasion) (rule : PolicyRule) (k : Str) (m : GoMap PolicyRule) (old : PolicyRule)
      → IsRuleMap m
      → lookup k m ≡ some old
      → IsRuleMap (reduce range o rule k m)
  unfolding reduce
  reduce_present o rule k m old h e = insert_verbs-IsRuleMap k _ m old h e

  pub surviving-nil :
      (o : Occasion) (denied : List Str) → is_empty (get_surviving_verbs range o [] denied) ≡ true
  surviving-nil o denied =
      empty_of_none (get_surviving_verbs range o [] denied)
        (λ v. unfold contains in ground (arith, contains-get_surviving_verbs c o [] denied v))

  reduce_missing :
      (o : Occasion) (rule : PolicyRule) (k : Str) (m : GoMap PolicyRule)
      → IsRuleMap m
      → lookup k m ≡ none
      → IsRuleMap (drop_empty k (reduce range o rule k m))
  unfolding reduce
  reduce_missing o rule k m h e =
      let left = get_surviving_verbs range (k ∷ o) (verbs_at m k) rule.verbs in
      drop_empty-insert-IsRuleMap k (record (rule_at m k) { verbs = left }) m
        (empty_of_none left (λ v.
          unfold contains in
          ground (arith, e, contains-get_surviving_verbs c (k ∷ o) (verbs_at m k) rule.verbs v)))
        h

  reduce_exact-IsRuleMap :
      (o : Occasion) (rule : PolicyRule) (k : Str) (m : GoMap PolicyRule)
      → IsRuleMap m
      → IsRuleMap (drop_empty k (reduce range o rule k m))
  reduce_exact-IsRuleMap o rule k m h = elim (Option-cases (lookup k m)) [
    | inl gone ↦ reduce_missing o rule k m h gone
    | inr (old, e) ↦
        drop_empty-IsRuleMap k (reduce range o rule k m) (reduce_present o rule k m old h e)
  ]

  reduce_over-IsRuleMap :
      (o : Occasion) (rule : PolicyRule) (prefix : Str) (ks : List Str) (m : GoMap PolicyRule)
      → IsRuleMap m
      → IsRuleMap (reduce_over range o rule prefix ks m)
  unfolding reduce_over reduce_matching
  reduce_over-IsRuleMap o rule prefix [] m h = h
  reduce_over-IsRuleMap o rule prefix (k ∷ ks) m h =
      reduce_over-IsRuleMap o rule prefix ks (reduce_matching range o rule prefix k m) (
        if_intro (λ m'. IsRuleMap (drop_empty k m')) (has_prefix k prefix)
          (reduce_exact-IsRuleMap o rule k m h) (drop_empty-IsRuleMap k m h))

  reduce_prefix-IsRuleMap :
      (o : Occasion) (rule : PolicyRule) (prefix : Str) (m : GoMap PolicyRule)
      → IsRuleMap m
      → IsRuleMap (reduce_prefix range o rule prefix m)
  unfolding reduce_prefix
  reduce_prefix-IsRuleMap o rule prefix m h =
      reduce_over-IsRuleMap o rule prefix (range o (keys m)) m h

  reduce_url-IsRuleMap :
      (o : Occasion) (rule : PolicyRule) (d : Str) (m : GoMap PolicyRule)
      → IsRuleMap m
      → IsRuleMap (reduce_url range o rule d m)
  unfolding reduce_url reduce_exact
  reduce_url-IsRuleMap o rule d m h =
      if_intro IsRuleMap (has_suffix d asterisk)
        (reduce_prefix-IsRuleMap o rule (trim_suffix d asterisk) m h)
        (reduce_exact-IsRuleMap o rule d m h)

  reduce_resource-IsRuleMap :
      (o : Occasion) (rule : PolicyRule) (d name : Str) (m : GoMap PolicyRule)
      → IsRuleMap m
      → IsRuleMap (reduce_resource range o rule d name m)
  unfolding reduce_resource reduce_exact
  reduce_resource-IsRuleMap o rule d name m h =
      if_intro IsRuleMap (name == []) (reduce_prefix-IsRuleMap o rule d m h)
        (if_intro IsRuleMap (has m d) (reduce_exact-IsRuleMap o rule d m h) h)

  deny_round-IsRuleMap :
      (d : Str) (rule : PolicyRule) (m : GoMap PolicyRule)
      → IsRuleMap m
      → Holds IsRuleMap (deny_round range d rule m)
  unfolding deny_round
  deny_round-IsRuleMap d rule m h =
      if_intro (Holds IsRuleMap) (has_prefix d nonresourceurl)
        (reduce_url-IsRuleMap (d ∷ []) rule d m h)
        (bind-Holds IsRuleMap (or_panic (get_elem? (split hash d) 2))
          (λ name. ok (reduce_resource range (d ∷ []) rule d name m))
          (λ name. reduce_resource-IsRuleMap (d ∷ []) rule d name m h))

  evaluate_over-IsRuleMap :
      (ks : List Str) (deny m : GoMap PolicyRule)
      → IsRuleMap m
      → Holds IsRuleMap (evaluate_over range ks deny m)
  unfolding evaluate_over
  evaluate_over-IsRuleMap [] deny m h = h
  evaluate_over-IsRuleMap (k ∷ ks) deny m h =
      bind_at-Holds IsRuleMap (deny_round range k (rule_at deny k) m) (evaluate_over range ks deny)
        (λ m' ran.
          evaluate_over-IsRuleMap ks deny m'
            (subst (Holds IsRuleMap) ran (deny_round-IsRuleMap k (rule_at deny k) m h)))

  pub evaluate_policy_rules-IsRuleMap :
      (allow deny : GoMap PolicyRule)
      → IsRuleMap allow
      → Holds IsRuleMap (evaluate_policy_rules range allow deny)
  unfolding evaluate_policy_rules
  evaluate_policy_rules-IsRuleMap allow deny h =
      evaluate_over-IsRuleMap (range [] (keys deny)) deny allow h
