-- ===== src/Processor/Special/Objects.antt =====
-- The loop of EvaluateSpecialCases over the objects of a resource: which keys it writes.
use kuberbac.Prelude.{
  ◌≡◌, refl, ◌∙◌, ap, Bool, false, ◌&&◌, ◌||◌, List, [], ◌∷◌, ◌++◌, arith, Str, ◌==◌, ==_iff, All,
  any, contains, if◌then◌else◌, Lacks,
}
use mathlib.Core.List.{append_assoc}
use kuberbac.GoMap.{GoMap, has, insert}
use kuberbac.GoMap.Laws.{lookup-insert, has-insert}
use kuberbac.Rbac.{PolicyRule}
use kuberbac.Processor.Targets.{url, generic}
use kuberbac.Processor.Keys.{key_of, IsKeyable}
use kuberbac.Processor.Keys.Covers.{resource_key-==, resource_key-url_prefix}
use kuberbac.Processor.RuleMap.{hash, resource_key, rule_at, verbs_at}
use kuberbac.Processor.RuleMap.Singles.{IsName}
use kuberbac.Processor.Special.{object_rule, add_objects}

-- The keys that the loop over the objects writes.
abbrev pub writes_key : Str → List Str → Str → Bool
writes_key key names j = any (λ name. (key ++ name) == j) names

-- No object's key is the resource's own.
abbrev pub ArePast : Str → List Str → Type 0
ArePast key = All (λ name. ((key ++ name) == key) ≡ false)

pub has-add_objects :
    (key : Str) (names : List Str) (m : GoMap PolicyRule) (j : Str)
    → has (add_objects key names m) j ≡ (writes_key key names j || has m j)
unfolding add_objects any
has-add_objects key [] m j = refl
has-add_objects key (name ∷ names) m j = ground (
  arith,
  has-add_objects key names (insert (key ++ name) (object_rule name (rule_at m key)) m) j,
  has-insert (key ++ name) j (object_rule name (rule_at m key)) m,
)

verbs_at-insert_object :
    (key name : Str) (m : GoMap PolicyRule) (j : Str)
    → verbs_at (insert (key ++ name) (object_rule name (rule_at m key)) m) j
      ≡ (if (key ++ name) == j then verbs_at m key else verbs_at m j)
verbs_at-insert_object key name m j =
    ground (arith, lookup-insert (key ++ name) j (object_rule name (rule_at m key)) m)

pub verbs_at-add_objects :
    (key : Str) (names : List Str) (m : GoMap PolicyRule) (j : Str)
    → ArePast key names
    → verbs_at (add_objects key names m) j
      ≡ (if writes_key key names j then verbs_at m key else verbs_at m j)
unfolding add_objects any
verbs_at-add_objects key [] m j h = refl
verbs_at-add_objects key (name ∷ names) m j h = ground (
  arith,
  h.0,
  verbs_at-add_objects key names (insert (key ++ name) (object_rule name (rule_at m key)) m) j h.1,
  verbs_at-insert_object key name m j,
  verbs_at-insert_object key name m key,
)

pub key-append : (g r name : Str) → resource_key g r [] ++ name ≡ resource_key g r name
key-append g r name =
    append_assoc g (hash ∷ (r ++ hash ∷ [])) name
    ∙ ap (λ s. g ++ hash ∷ s) (append_assoc r (hash ∷ []) name)

module _ (g r : Str) (k : IsKeyable (generic g r)) where
  pub ArePast-of_IsName :
      (names : List Str) → All IsName names → ArePast (resource_key g r []) names
  ArePast-of_IsName [] h = tt
  ArePast-of_IsName (name ∷ names) h = (
    rw key-append
        (ground (arith, resource_key-== g r name g r [] k.0 k.2 k.0 k.2, ==_iff name [], h.0.1)),
    ArePast-of_IsName names h.1,
  )

  pub writes_key-url :
      (names : List Str) (u : Str) → writes_key (resource_key g r []) names (key_of (url u)) ≡ false
  unfolding any
  writes_key-url [] u = refl
  writes_key-url (name ∷ names) u = rw key-append (
      ground
        (arith, resource_key-url_prefix g (r ++ hash ∷ name) u k.0 k.1, writes_key-url names u))

  pub writes_key-generic :
      (names : List Str) (g' r' : Str)
      → All IsName names
      → IsKeyable (generic g' r')
      → writes_key (resource_key g r []) names (key_of (generic g' r')) ≡ false
  unfolding any
  writes_key-generic [] g' r' h k' = refl
  writes_key-generic (name ∷ names) g' r' h k' = rw key-append (
      ground (
        arith,
        resource_key-== g r name g' r' [] k.0 k.2 k'.0 k'.2,
        ==_iff name [],
        h.0.1,
        writes_key-generic names g' r' h.1 k',
      ))

  pub writes_key-named :
      (names : List Str) (g' r' n : Str)
      → Lacks hash g'
      → Lacks hash r'
      → writes_key (resource_key g r []) names (resource_key g' r' n)
        ≡ (g == g' && (r == r' && contains names n))
  unfolding any contains
  writes_key-named [] g' r' n hg hr = ground arith
  writes_key-named (name ∷ names) g' r' n hg hr = rw key-append (
      ground (
        arith,
        resource_key-== g r name g' r' n k.0 k.2 hg hr,
        writes_key-named names g' r' n hg hr,
      ))
