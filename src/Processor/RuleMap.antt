-- ===== src/Processor/RuleMap.antt =====
-- GetMapFromStretchedPolicyRules of internal/controller/dynamicclusterrole_sync.go: the stretched rules
-- by their keys "group#resource#name" and "nonresourceurl#url", with the verbs of each key merged.
pub mod Laws
pub mod Singles
use kuberbac.Prelude.{
  ℕ, Option, none, some, List, [], ◌∷◌, ◌++◌, Str, lit, get_elem?, is_empty, sort, compact, map,
  if◌then◌else◌, Outcome, ok, err, panic, ◌>>=◌, or_panic,
}
use kuberbac.GoMap.{GoMap, lookup, insert, keys, Range, Occasion}
use kuberbac.Rbac.{PolicyRule, zero_rule}

abbrev pub hash : ℕ
hash = b'#'

-- "nonresourceurl"
abbrev pub nonresourceurl : Str
nonresourceurl = lit "nonresourceurl"

-- `"nonresourceurl#" + url`
abbrev pub url_key : Str → Str
url_key url = nonresourceurl ++ hash ∷ url

-- `group + "#" + resource + "#"`, and the name.
abbrev pub resource_key : Str → Str → Str → Str
resource_key group resource name = group ++ (hash ∷ (resource ++ hash ∷ name))

-- The first name, or nothing.
abbrev first_name : List Str → Str
first_name [] = []
first_name (name ∷ names) = name

-- The key of a rule; `xs[0]` panics on an empty slice.
unfoldable pub rule_key : PolicyRule → Outcome Str
rule_key rule =
    if is_empty rule.non_resource_urls
    then (do
      group ← or_panic (get_elem? rule.api_groups 0)
      resource ← or_panic (get_elem? rule.resources 0)
      ok (resource_key group resource (first_name rule.resource_names)))
    else (do url ← or_panic (get_elem? rule.non_resource_urls 0); ok (url_key url))

-- `append(a, b...)`, sorted and compacted.
unfoldable pub merge_verbs : List Str → List Str → List Str
merge_verbs a b = compact (sort (a ++ b))

-- What is stored for a rule, if its key is new and if it is there.
unfoldable pub merged : Option PolicyRule → PolicyRule → PolicyRule
merged none rule = rule
merged (some old) rule =
    if is_empty rule.non_resource_urls
    then record {
      verbs = merge_verbs old.verbs rule.verbs;
      api_groups = rule.api_groups;
      resources = rule.resources;
      resource_names = rule.resource_names;
      non_resource_urls = [];
    }
    else record {
      verbs = merge_verbs old.verbs rule.verbs;
      api_groups = [];
      resources = [];
      resource_names = [];
      non_resource_urls = rule.non_resource_urls;
    }

unfoldable pub add_rules : GoMap PolicyRule → List PolicyRule → Outcome (GoMap PolicyRule)
add_rules result [] = ok result
add_rules result (rule ∷ rules) = do
  key ← rule_key rule
  add_rules (insert key (merged (lookup key result) rule) result) rules

unfoldable pub get_map_from_stretched_policy_rules : List PolicyRule → Outcome (GoMap PolicyRule)
unfolding add_rules
get_map_from_stretched_policy_rules policy_rules = add_rules [] policy_rules

-- `m[k]`: the zero rule for a key that is not there.
abbrev pub or_zero : Option PolicyRule → PolicyRule
or_zero none = zero_rule
or_zero (some rule) = rule

abbrev pub rule_at : GoMap PolicyRule → Str → PolicyRule
rule_at m k = or_zero (lookup k m)

abbrev pub verbs_at : GoMap PolicyRule → Str → List Str
verbs_at m k = (rule_at m k).verbs

-- `maps.Values(m)`, in the order of the run.
abbrev pub values : Range → Occasion → GoMap PolicyRule → List PolicyRule
values range o m = map (rule_at m) (range o (keys m))
