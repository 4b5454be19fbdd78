-- ===== src/Processor/Special/Verbs.antt =====
-- What EvaluateSpecialCases makes of the verbs of a target.
use kuberbac.Prelude.{
  ◌≡◌, refl, not, ◌&&◌, List, [], ◌∷◌, ◌++◌, arith, Str, ◌==◌, ==_iff, ==_refl, All, if◌then◌else◌,
}
use kuberbac.GoMap.{GoMap, has, delete}
use kuberbac.GoMap.Laws.{lookup-delete, has-delete, lookup_of_has}
use kuberbac.Rbac.{PolicyRule}
use kuberbac.Processor.Targets.{Target, url, generic, named}
use kuberbac.Processor.Keys.{key_of, IsKeyable}
use kuberbac.Processor.Keys.Covers.{resource_key-==, resource_key-url_prefix}
use kuberbac.Processor.RuleMap.{hash, resource_key, verbs_at}
use kuberbac.Processor.RuleMap.Singles.{IsName}
use kuberbac.Processor.Special.{add_objects}
use kuberbac.Processor.Special.Objects.{
  has-add_objects, verbs_at-add_objects, ArePast-of_IsName, writes_key, writes_key-url,
  writes_key-generic, writes_key-named,
}
use kuberbac.Processor.Special.Rounds.{touches, round, after}

module _ (g0 r0 : Str) (names : List Str) (k0 : IsKeyable (generic g0 r0)) (h : All IsName names)
    (m : GoMap PolicyRule) where
  -- The generic rule's place is taken by rules for the objects.
  abbrev replaced : GoMap PolicyRule
  replaced = delete (resource_key g0 r0 []) (add_objects (resource_key g0 r0 []) names m)

  has-replaced :
      (g r : Str)
      → IsKeyable (generic g r)
      → has replaced (resource_key g r [])
        ≡ (has m (resource_key g r []) && not (g0 == g && r0 == r))
  has-replaced g r k = ground (
    arith,
    has-delete (resource_key g0 r0 []) (resource_key g r [])
        (add_objects (resource_key g0 r0 []) names m),
    has-add_objects (resource_key g0 r0 []) names m (resource_key g r []),
    writes_key-generic g0 r0 k0 names g r h k,
    resource_key-== g0 r0 [] g r [] k0.0 k0.2 k.0 k.2,
    ==_refl [],
  )

  verbs_at-replaced :
      (j : Str)
      → verbs_at replaced j ≡ (
          if resource_key g0 r0 [] == j
          then []
          else if writes_key (resource_key g0 r0 []) names j
          then verbs_at m (resource_key g0 r0 [])
          else verbs_at m j)
  verbs_at-replaced j = ground (
    arith,
    lookup-delete (resource_key g0 r0 []) j (add_objects (resource_key g0 r0 []) names m),
    verbs_at-add_objects (resource_key g0 r0 []) names m j (ArePast-of_IsName g0 r0 k0 names h),
  )

module _ (objects : Str → Str → List Str) (h : (g r : Str) → All IsName (objects g r)) where
  pub has-round :
      (s : Target) (m : GoMap PolicyRule) (g r : Str)
      → IsKeyable s
      → IsKeyable (generic g r)
      → has (round objects s m) (resource_key g r [])
        ≡ (has m (resource_key g r []) && not (touches s g r))
  unfolding round
  has-round (url u) m g r ks k = ground arith
  has-round (generic g' r') m g r ks k = ground arith
  has-round (named g0 r0 n0) m g r ks k = ground (
    arith,
    has-replaced g0 r0 (objects g0 r0) (ks.0, ks.1, ks.2) (h _ _) m g r k,
    ==_iff g0 g,
    ==_iff r0 r,
  )

  pub verbs_at-round :
      (s : Target) (m : GoMap PolicyRule) (t : Target)
      → IsKeyable s
      → IsKeyable t
      → verbs_at (round objects s m) (key_of t) ≡ after objects (touches s) m t
  unfolding round
  verbs_at-round (url u) m (url w) ks k = refl
  verbs_at-round (url u) m (generic g r) ks k = refl
  verbs_at-round (url u) m (named g r n) ks k = refl
  verbs_at-round (generic g' r') m (url w) ks k = refl
  verbs_at-round (generic g' r') m (generic g r) ks k = refl
  verbs_at-round (generic g' r') m (named g r n) ks k = refl
  verbs_at-round (named g0 r0 n0) m (url w) ks k = ground (
    arith,
    verbs_at-replaced g0 r0 (objects g0 r0) (ks.0, ks.1, ks.2) (h _ _) m (key_of (url w)),
    resource_key-url_prefix g0 (r0 ++ hash ∷ []) w ks.0 ks.1,
    writes_key-url g0 r0 (ks.0, ks.1, ks.2) (objects g0 r0) w,
  )
  verbs_at-round (named g0 r0 n0) m (generic g r) ks k = ground (
    arith,
    verbs_at-replaced g0 r0 (objects g0 r0) (ks.0, ks.1, ks.2) (h _ _) m (resource_key g r []),
    writes_key-generic g0 r0 (ks.0, ks.1, ks.2) (objects g0 r0) g r (h _ _) k,
    resource_key-== g0 r0 [] g r [] ks.0 ks.2 k.0 k.2,
    ==_refl [],
    ==_iff g0 g,
    ==_iff r0 r,
    lookup_of_has m (resource_key g0 r0 []),
  )
  verbs_at-round (named g0 r0 n0) m (named g r n) ks k = ground (
    arith,
    verbs_at-replaced g0 r0 (objects g0 r0) (ks.0, ks.1, ks.2) (h _ _) m (resource_key g r n),
    writes_key-named g0 r0 (ks.0, ks.1, ks.2) (objects g0 r0) g r n k.0 k.2,
    resource_key-== g0 r0 [] g r n ks.0 ks.2 k.0 k.2,
    ==_iff [] n,
    k.4,
    ==_iff g0 g,
    ==_iff r0 r,
  )
