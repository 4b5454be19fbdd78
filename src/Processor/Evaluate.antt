-- ===== src/Processor/Evaluate.antt =====
-- EvaluatePolicyRules of internal/controller/dynamicclusterrole_sync.go: the verbs of the deny rules are
-- taken from the allow rules that they are about.
pub mod Laws
use kuberbac.Prelude.{
  ℕ, Bool, true, false, Option, none, some, List, [], ◌∷◌, Str, lit, ◌==◌, has_prefix, has_suffix,
  trim_suffix, split, get_elem?, is_empty, if◌then◌else◌, Outcome, ok, err, panic, ◌>>=◌, or_panic,
}
use kuberbac.GoMap.{GoMap, lookup, has, insert, delete, keys, Occasion, Range}
use kuberbac.Rbac.{PolicyRule}
use kuberbac.Processor.Verbs.{get_surviving_verbs}
use kuberbac.Processor.RuleMap.{hash, nonresourceurl, rule_at, verbs_at}

abbrev pub asterisk : Str
asterisk = lit "*"

-- `if len(allowMap[k].Verbs) == 0 { delete(allowMap, k) }`
unfoldable pub drop_empty : Str → GoMap PolicyRule → GoMap PolicyRule
drop_empty k allow_map = if is_empty (verbs_at allow_map k) then delete k allow_map else allow_map

module _ (range : Range) where
  -- `tmp := allowMap[k]; tmp.Verbs = GetSurvivingVerbs(...); allowMap[k] = tmp`
  unfoldable pub reduce : Occasion → PolicyRule → Str → GoMap PolicyRule → GoMap PolicyRule
  reduce o policy_rule k allow_map =
      insert k
        (record (rule_at allow_map k) {
          verbs = get_surviving_verbs range (k ∷ o) (verbs_at allow_map k) policy_rule.verbs;
        })
        allow_map

  -- One round of the loop over the allow rules with a prefix.
  unfoldable pub reduce_matching :
      Occasion → PolicyRule → Str → Str → GoMap PolicyRule → GoMap PolicyRule
  reduce_matching o policy_rule prefix k allow_map =
      drop_empty k (if has_prefix k prefix then reduce o policy_rule k allow_map else allow_map)

  unfoldable pub reduce_over :
      Occasion → PolicyRule → Str → List Str → GoMap PolicyRule → GoMap PolicyRule
  reduce_over o policy_rule prefix [] allow_map = allow_map
  reduce_over o policy_rule prefix (k ∷ ks) allow_map =
      reduce_over o policy_rule prefix ks (reduce_matching o policy_rule prefix k allow_map)

  unfoldable pub reduce_prefix : Occasion → PolicyRule → Str → GoMap PolicyRule → GoMap PolicyRule
  reduce_prefix o policy_rule prefix allow_map =
      reduce_over o policy_rule prefix (range o (keys allow_map)) allow_map

  unfoldable pub reduce_exact : Occasion → PolicyRule → Str → GoMap PolicyRule → GoMap PolicyRule
  reduce_exact o policy_rule k allow_map = drop_empty k (reduce o policy_rule k allow_map)

  -- A deny rule for a resource, with the third part of its key.
  unfoldable pub reduce_resource :
      Occasion → PolicyRule → Str → Str → GoMap PolicyRule → GoMap PolicyRule
  reduce_resource o policy_rule deny_map_key name allow_map =
      if name == []
      then reduce_prefix o policy_rule deny_map_key allow_map
      else if has allow_map deny_map_key
      then reduce_exact o policy_rule deny_map_key allow_map
      else allow_map

  -- A deny rule for a URL.
  unfoldable pub reduce_url : Occasion → PolicyRule → Str → GoMap PolicyRule → GoMap PolicyRule
  reduce_url o policy_rule deny_map_key allow_map =
      if has_suffix deny_map_key asterisk
      then reduce_prefix o policy_rule (trim_suffix deny_map_key asterisk) allow_map
      else reduce_exact o policy_rule deny_map_key allow_map

  -- One round of the outer loop; `denyMapKeyParts[2]` panics if the key has no third part.
  unfoldable pub deny_round : Str → PolicyRule → GoMap PolicyRule → Outcome (GoMap PolicyRule)
  deny_round deny_map_key policy_rule allow_map =
      if has_prefix deny_map_key nonresourceurl
      then ok (reduce_url (deny_map_key ∷ []) policy_rule deny_map_key allow_map)
      else (do
        name ← or_panic (get_elem? (split hash deny_map_key) 2)
        ok (reduce_resource (deny_map_key ∷ []) policy_rule deny_map_key name allow_map))

  unfoldable pub evaluate_over :
      List Str → GoMap PolicyRule → GoMap PolicyRule → Outcome (GoMap PolicyRule)
  evaluate_over [] deny_map allow_map = ok allow_map
  evaluate_over (k ∷ ks) deny_map allow_map = do
    allow_map' ← deny_round k (rule_at deny_map k) allow_map
    evaluate_over ks deny_map allow_map'

  unfoldable pub evaluate_policy_rules :
      GoMap PolicyRule → GoMap PolicyRule → Outcome (GoMap PolicyRule)
  evaluate_policy_rules allow_map deny_map =
      evaluate_over (range [] (keys deny_map)) deny_map allow_map
