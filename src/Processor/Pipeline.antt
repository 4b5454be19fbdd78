-- ===== src/Processor/Pipeline.antt =====
-- The processor's steps in the order in which SyncTarget of
-- internal/controller/dynamicclusterrole_sync.go makes them.
use kuberbac.Prelude.{List, [], ◌∷◌, lit, Outcome, ◌>>=◌, wrapped}
use Prim.Native.String.{String}
use kuberbac.Exec.{wrap_error}
use kuberbac.GoMap.{GoMap, Range}
use kuberbac.Rbac.{PolicyRule}
use kuberbac.Processor.Discovery.{PolicyRulesProcessor}
use kuberbac.Processor.Expand.{expand_policy_rules}
use kuberbac.Processor.Stretch.{stretch_policy_rules}
use kuberbac.Processor.RuleMap.{get_map_from_stretched_policy_rules}
use kuberbac.Processor.Special.{Lister, evaluate_special_cases}
use kuberbac.Processor.Evaluate.{evaluate_policy_rules}

-- A loop's occasion within SyncTarget.
abbrev pub at : Range → String → Range
at range place o = range (lit place ∷ o)

-- The rules of the ClusterRole, as a map: the processor's steps in the order of SyncTarget.
unfoldable pub evaluate :
    Range
    → Lister
    → PolicyRulesProcessor
    → List PolicyRule
    → List PolicyRule
    → Outcome (GoMap PolicyRule)
evaluate range list p allow deny = do
  allow_map ←
      get_map_from_stretched_policy_rules
        (stretch_policy_rules p (expand_policy_rules (at range "allow") p [] allow))
  deny_map ←
      get_map_from_stretched_policy_rules
        (stretch_policy_rules p (expand_policy_rules (at range "deny") p [] deny))
  allow_map' ←
      wrap_error (wrapped "error evaluating especial cases: %s")
        (evaluate_special_cases p list (at range "special") allow_map deny_map)
  wrap_error (wrapped "error evaluating allow and deny maps: %s")
      (evaluate_policy_rules (at range "evaluate") allow_map' deny_map)
