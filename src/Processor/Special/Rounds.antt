-- ===== src/Processor/Special/Rounds.antt =====
-- What EvaluateSpecialCases makes of the verbs of a key, while the API lists the same objects.
use kuberbac.Prelude.{
  ◌≡◌, ◌≢◌, refl, Bool, false, not, ◌&&◌, List, [], ◌∷◌, ◌++◌, arith, Str, ◌==◌, ==_iff, ==_refl,
  contains, has_prefix, has_prefix-nil, if◌then◌else◌, ok, split, split-append, split_of_Lacks,
  join, Lacks, split-ne-nil, get_elem?, or_panic, Bool-cases, inl, inr,
}
use mathlib.Core.List.{append_assoc}
use kuberbac.GoMap.{GoMap, has, delete}
use kuberbac.Rbac.{PolicyRule}
use kuberbac.Processor.Discovery.{PolicyRulesProcessor, slash}
use kuberbac.Processor.Targets.{Target, url, generic, named, single}
use kuberbac.Processor.Keys.{key_of, IsKeyable}
use kuberbac.Processor.Keys.Covers.{
  resource_key-==, resource_key-url_prefix, resource_key-prefix, resource_key_not_url,
  url_key_is_url, third_part,
}
use kuberbac.Processor.RuleMap.{hash, resource_key, verbs_at}
use kuberbac.Processor.Served.{before_slash, listed_kind, find_gvk-listed_kind}
use kuberbac.Processor.Special.{
  Lister, add_objects, generic_key, expand_objects, special_named, special_round,
}

-- A deny rule for the target is for an object of the resource.
abbrev pub touches : Target → Str → Str → Bool
touches (url u) g r = false
touches (generic g' r') g r = false
touches (named g' r' n) g r = g' == g && r' == r

-- The same of a deny key.
abbrev pub touches_key : Str → Str → Str → Bool
touches_key g r d = has_prefix d (resource_key g r []) && not (d == resource_key g r [])

pub touches_key-key_of :
    (g r : Str) (s : Target)
    → IsKeyable (generic g r)
    → IsKeyable s
    → touches_key g r (key_of s) ≡ touches s g r
touches_key-key_of g r (url u) k h =
    ground (arith, resource_key-url_prefix g (r ++ hash ∷ []) u k.0 k.1)
touches_key-key_of g r (generic g' r') k h = ground (
  arith,
  resource_key-prefix g r [] g' r' [] k.0 k.2 h.0 h.2,
  resource_key-== g' r' [] g r [] h.0 h.2 k.0 k.2,
  ==_refl [],
)
touches_key-key_of g r (named g' r' n) k h = ground (
  arith,
  resource_key-prefix g r [] g' r' n k.0 k.2 h.0 h.2,
  resource_key-== g' r' n g r [] h.0 h.2 k.0 k.2,
  has_prefix-nil n,
  ==_iff n [],
  h.4,
)

split-resource_key :
    (g r n : Str)
    → Lacks hash g
    → Lacks hash r
    → Lacks hash n
    → split hash (resource_key g r n) ≡ g ∷ r ∷ n ∷ []
split-resource_key g r n hg hr hn =
    rw (split-append hash g (r ++ hash ∷ n) hg, split-append hash r n hr, split_of_Lacks hash n hn)

generic_key_lem : (g r n : Str) → generic_key (g ∷ r ∷ n ∷ []) ≡ resource_key g r []
unfolding generic_key join
generic_key_lem g r n = append_assoc g (hash ∷ r) (hash ∷ [])

get_elem?-before_slash :
    (parts : List Str) → parts ≢ [] → or_panic (get_elem? parts 0) ≡ ok (before_slash parts)
get_elem?-before_slash [] h = absurd (h refl)
get_elem?-before_slash (part ∷ parts) h = refl

-- `objects` gives the names of the objects of a resource in a group.
module _ (objects : Str → Str → List Str) where
  -- A round of the loop over the deny rules, for the target of its key.
  unfoldable pub round : Target → GoMap PolicyRule → GoMap PolicyRule
  round (url u) m = m
  round (generic g r) m = m
  round (named g r n) m =
      if has m (resource_key g r [])
      then delete (resource_key g r []) (add_objects (resource_key g r []) (objects g r) m)
      else m

  -- The verbs at a target's key, if the resources with `touched` are replaced.
  abbrev pub after : (Str → Str → Bool) → GoMap PolicyRule → Target → List Str
  after touched m (url u) = verbs_at m (key_of (url u))
  after touched m (generic g r) = if touched g r then [] else verbs_at m (resource_key g r [])
  after touched m (named g r n) =
      if touched g r && (has m (resource_key g r []) && contains (objects g r) n)
      then verbs_at m (resource_key g r [])
      else verbs_at m (resource_key g r n)

module _ (p : PolicyRulesProcessor) (objects : Str → Str → List Str) (list : Lister) where
  -- If the target is an object, the API lists the objects of its resource, at every call.
  abbrev pub AreListed : Target → Type 0
  AreListed (url u) = Unit
  AreListed (generic g r) = Unit
  AreListed (named g r n) = (d : Str) → list d (listed_kind p g r) ≡ ok (objects g r)

  expand_objects_lem :
      (d g r n key : Str) (verbs : List Str) (m : GoMap PolicyRule)
      → AreListed (named g r n)
      → expand_objects p list d (single (named g r n) verbs) key m
        ≡ ok (delete key (add_objects key (objects g r) m))
  unfolding expand_objects
  expand_objects_lem d g r n key verbs m listed =
      rw (
        get_elem?-before_slash (split slash r) (split-ne-nil slash r),
        find_gvk-listed_kind,
        listed,
      )

  pub special_round-single :
      (s : Target) (verbs : List Str) (m : GoMap PolicyRule)
      → IsKeyable s
      → AreListed s
      → special_round p list (key_of s) (single s verbs) m ≡ ok (round objects s m)
  unfolding special_round special_named round
  special_round-single (url u) verbs m h listed = rw (url_key_is_url u)
  special_round-single (generic g r) verbs m h listed =
      rw (resource_key_not_url g (r ++ hash ∷ []), h.1, third_part g r [] h.0 h.2 tt, ==_refl [])
  special_round-single (named g r n) verbs m h listed =
      let key = resource_key g r [] in
      let other : (n == []) ≡ false = ground (arith, ==_iff n [], h.4) in
      rw
        (
          resource_key_not_url g (r ++ hash ∷ n),
          h.1,
          split-resource_key g r n h.0 h.2 h.3,
          other,
          generic_key_lem g r n,
        )
        (elim (Bool-cases (has m key)) [
          | inl there ↦ rw (there, expand_objects_lem (resource_key g r n) g r n key verbs m listed)
          | inr missing ↦ rw missing
        ])
