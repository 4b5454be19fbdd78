-- ===== src/Processor/Keys/Fewer.antt =====
-- The steps on maps add no key of a URL.
use kuberbac.Prelude.{
  ◌≡◌, true, List, [], ◌∷◌, arith, Str, ◌==◌, ==_iff, ==_refl, has_prefix, has_suffix, trim_suffix,
  if_intro, ok, Holds, bind-Holds, bind_at-Holds, subst, or_panic, get_elem?, split,
}
use kuberbac.GoMap.{GoMap, has, insert, keys, Occasion, Range, IsRange}
use kuberbac.GoMap.Laws.{has-insert, has-delete, lookup-insert, lookup_of_has}
use kuberbac.Rbac.{PolicyRule}
use kuberbac.Processor.Verbs.{get_surviving_verbs}
use kuberbac.Processor.Keys.Kept.{surviving-nil}
use kuberbac.Processor.RuleMap.{hash, nonresourceurl, rule_at, verbs_at}
use kuberbac.Processor.Evaluate.{
  asterisk, reduce, drop_empty, reduce_matching, reduce_over, reduce_prefix, reduce_exact,
  reduce_resource, reduce_url, deny_round, evaluate_over, evaluate_policy_rules,
}

-- The keys of the first map are keys of the second.
abbrev pub IsFewer : GoMap PolicyRule → GoMap PolicyRule → Type 0
IsFewer m' m = (j : Str) → has m' j ≡ true → has m j ≡ true

drop_empty-IsFewer : (k : Str) (m : GoMap PolicyRule) → IsFewer (drop_empty k m) m
unfolding drop_empty
drop_empty-IsFewer k m j h = ground (arith, has-delete k j m)

module _ {range : Range} (c : IsRange range) (o : Occasion) (rule : PolicyRule) where
  reduce_exact-IsFewer :
      (k : Str) (m : GoMap PolicyRule) → IsFewer (drop_empty k (reduce range o rule k m)) m
  unfolding drop_empty reduce
  reduce_exact-IsFewer k m j h =
      let left = get_surviving_verbs range (k ∷ o) (verbs_at m k) rule.verbs in
      let new : PolicyRule = record (rule_at m k) { verbs = left } in
      ground (
        arith,
        h,
        ==_iff k j,
        ==_refl k,
        lookup-insert k k new m,
        has-insert k j new m,
        has-delete k j (insert k new m),
        lookup_of_has m k,
        surviving-nil c (k ∷ o) rule.verbs,
      )

  reduce_over-IsFewer :
      (prefix : Str) (ks : List Str) (m : GoMap PolicyRule)
      → IsFewer (reduce_over range o rule prefix ks m) m
  unfolding reduce_over reduce_matching
  reduce_over-IsFewer prefix [] m j h = h
  reduce_over-IsFewer prefix (k ∷ ks) m j h =
      if_intro (λ m'. IsFewer (drop_empty k m') m) (has_prefix k prefix) (reduce_exact-IsFewer k m)
        (drop_empty-IsFewer k m) j
        (reduce_over-IsFewer prefix ks (reduce_matching range o rule prefix k m) j h)

  reduce_prefix-IsFewer :
      (prefix : Str) (m : GoMap PolicyRule) → IsFewer (reduce_prefix range o rule prefix m) m
  unfolding reduce_prefix
  reduce_prefix-IsFewer prefix m = reduce_over-IsFewer prefix (range o (keys m)) m

  reduce_url-IsFewer : (d : Str) (m : GoMap PolicyRule) → IsFewer (reduce_url range o rule d m) m
  unfolding reduce_url reduce_exact
  reduce_url-IsFewer d m =
      if_intro (λ m'. IsFewer m' m) (has_suffix d asterisk)
        (reduce_prefix-IsFewer (trim_suffix d asterisk) m) (reduce_exact-IsFewer d m)

  reduce_resource-IsFewer :
      (d name : Str) (m : GoMap PolicyRule) → IsFewer (reduce_resource range o rule d name m) m
  unfolding reduce_resource reduce_exact
  reduce_resource-IsFewer d name m =
      if_intro (λ m'. IsFewer m' m) (name == []) (reduce_prefix-IsFewer d m)
        (if_intro (λ m'. IsFewer m' m) (has m d) (reduce_exact-IsFewer d m) (λ j h. h))

module _ {range : Range} (c : IsRange range) where
  deny_round-IsFewer :
      (d : Str) (rule : PolicyRule) (m : GoMap PolicyRule)
      → Holds (λ m'. IsFewer m' m) (deny_round range d rule m)
  unfolding deny_round
  deny_round-IsFewer d rule m =
      if_intro (Holds (λ m'. IsFewer m' m)) (has_prefix d nonresourceurl)
        (reduce_url-IsFewer c (d ∷ []) rule d m)
        (bind-Holds (λ m'. IsFewer m' m) (or_panic (get_elem? (split hash d) 2))
          (λ name. ok (reduce_resource range (d ∷ []) rule d name m))
          (λ name. reduce_resource-IsFewer c (d ∷ []) rule d name m))

  evaluate_over-IsFewer :
      (ks : List Str) (deny m0 m : GoMap PolicyRule)
      → IsFewer m m0
      → Holds (λ m'. IsFewer m' m0) (evaluate_over range ks deny m)
  unfolding evaluate_over
  evaluate_over-IsFewer [] deny m0 m h = h
  evaluate_over-IsFewer (k ∷ ks) deny m0 m h =
      bind_at-Holds (λ m'. IsFewer m' m0) (deny_round range k (rule_at deny k) m)
        (evaluate_over range ks deny)
        (λ m' ran. evaluate_over-IsFewer ks deny m0 m' (λ j there. h j (
          subst (Holds (λ m''. IsFewer m'' m)) ran (deny_round-IsFewer k (rule_at deny k) m) j
            there)))

  pub evaluate_policy_rules-IsFewer :
      (allow deny : GoMap PolicyRule)
      → Holds (λ result. IsFewer result allow) (evaluate_policy_rules range allow deny)
  unfolding evaluate_policy_rules
  evaluate_policy_rules-IsFewer allow deny =
      evaluate_over-IsFewer (range [] (keys deny)) deny allow allow (λ j h. h)
