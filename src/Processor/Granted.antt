-- ===== src/Processor/Granted.antt =====
-- What the user's allow and deny rules mean together: which verbs the ClusterRole gives on which target.
-- No code stands for these definitions: they are the specification of the processor's steps together.
pub mod Stretched
pub mod Maps
pub mod Laws
use kuberbac.Prelude.{◌≡◌, ◌&&◌, ◌⊎◌, ◌↔◌, Bool, true, List, Str, any, contains}
use kuberbac.GoMap.{GoMap, has, Range, Occasion}
use kuberbac.Processor.RuleMap.{url_key, values}
use kuberbac.Processor.RuleMap.Laws.{IsRuleMap}
use kuberbac.Rbac.{PolicyRule, GroupVersionKind}
use kuberbac.Processor.Discovery.{PolicyRulesProcessor}
use kuberbac.Processor.Targets.{Target, url, generic, named, gives}
use kuberbac.Processor.Served.{is_served}
use kuberbac.Processor.Expand.Meaning.{asks}
use kuberbac.Processor.Keys.{IsKeyable, covers}

-- Some of the rules asks for the verb on the target, and the cluster has the target's resource.
abbrev pub requested : PolicyRulesProcessor → List PolicyRule → Target → Str → Bool
requested p rules t v = any (asks t v) rules && is_served p t

module _ (p : PolicyRulesProcessor) (objects : Str → Str → List Str)
    (allow deny : List PolicyRule) where
  -- A deny rule asks for a verb on a target that covers this one.
  abbrev pub IsRefused : Target → Str → Type 0
  IsRefused t v = (s : Target) × IsKeyable s × (covers s t ≡ true) × (requested p deny s v ≡ true)

  -- A deny rule names an object of the resource.
  abbrev pub IsTouched : Str → Str → Type 0
  IsTouched g r = (n v : Str) × IsKeyable (named g r n) × (requested p deny (named g r n) v ≡ true)

  -- The resource is allowed as a whole, a deny rule names an object of it, and the API lists the
  -- object: it is allowed what the resource is.
  abbrev pub IsReplaced : Str → Str → Str → Type 0
  IsReplaced g r n =
      IsTouched g r
      × ((v : Str) × (requested p allow (generic g r) v ≡ true))
      × (contains (objects g r) n ≡ true)

  abbrev pub IsAllowed : Target → Str → Type 0
  IsAllowed (url u) v = requested p allow (url u) v ≡ true
  IsAllowed (generic g r) v = (¬ IsTouched g r) × (requested p allow (generic g r) v ≡ true)
  IsAllowed (named g r n) v =
      (IsReplaced g r n × (requested p allow (generic g r) v ≡ true))
      ⊎ ((¬ IsReplaced g r n) × (requested p allow (named g r n) v ≡ true))

  -- What the ClusterRole is to give.
  abbrev pub IsGranted : Target → Str → Type 0
  IsGranted t v = IsAllowed t v × ¬ IsRefused t v

  -- What the map at the end of the steps is.
  pub record IsResult (range : Range) (result : GoMap PolicyRule) : Type 0 where
    pub keyed : IsRuleMap result
    pub urls :
        (u : Str) → has result (url_key u) ≡ true → (v : Str) × (requested p allow (url u) v ≡ true)
    pub grants :
        (o : Occasion) (t : Target) (v : Str)
        → IsKeyable t
        → (any (gives t v) (values range o result) ≡ true) ↔ IsGranted t v
