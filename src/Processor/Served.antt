-- ===== src/Processor/Served.antt =====
-- What a cluster serves, as the processor's resource types say: no code stands for these definitions,
-- they belong to the specifications.
use kuberbac.Prelude.{
  ◌≡◌, refl, ap, ◌∙◌, Bool, true, false, Option, none, some, List, [], ◌∷◌, ◌++◌, arith, Str, ◌==◌,
  split, any, if◌then◌else◌,
}
use mathlib.Core.Option
use kuberbac.GoMap.{lookup}
use kuberbac.Rbac.{GroupVersionKind}
use kuberbac.Processor.Discovery.{Gvkr, PolicyRulesProcessor, slash, gvkrs_of, full_name}
use kuberbac.Processor.Targets.{Target, url, generic, named}
use kuberbac.Processor.Stretch.{resource_found}
use kuberbac.Processor.Stretch.Laws.{is_present}
use kuberbac.Processor.Special.{find_gvk, zero_gvk}
use kuberbac.Processor.Split.{find_scope}

abbrev pub types_in : Option (List Gvkr) → List Gvkr
types_in none = []
types_in (some types) = types

-- The resource types of a group.
abbrev pub types_of : PolicyRulesProcessor → Str → List Gvkr
types_of p group = types_in (lookup group p.resources_by_group)

-- "resource", or "resource/subresource".
abbrev pub name_of : Gvkr → Str
name_of x = if x.subresource == [] then x.resource else x.resource ++ b'/' ∷ x.subresource

-- The cluster has the target's resource in its group.
abbrev pub is_served : PolicyRulesProcessor → Target → Bool
is_served p (url u) = true
is_served p (generic group resource) = any (λ x. name_of x == resource) (types_of p group)
is_served p (named group resource name) = any (λ x. name_of x == resource) (types_of p group)

-- Whether the first resource type of the name has namespaces.
unfoldable pub first_scope : Str → List Gvkr → Option Bool
first_scope name [] = none
first_scope name (x ∷ types) =
    let rest = first_scope name types in if name_of x == name then some x.namespaced else rest

-- The kind of the last resource type of the resource, of its subresources too.
unfoldable pub last_kind : Str → List Gvkr → Option GroupVersionKind
last_kind resource [] = none
last_kind resource (x ∷ types) = elim (last_kind resource types) [
  | some kind ↦ some kind
  | none ↦ if x.resource == resource then some x.gvk else none
]

-- The name without a subresource.
abbrev pub before_slash : List Str → Str
before_slash [] = []
before_slash (part ∷ parts) = part

abbrev pub kind_in : Option GroupVersionKind → GroupVersionKind
kind_in none = record { group = []; version = []; kind = [] }
kind_in (some kind) = kind

-- The kind of which the objects of a resource are listed: that of the last resource type of its group
-- whose name is the resource's or begins with it and a slash, and the empty kind if there is none.
abbrev pub listed_kind : PolicyRulesProcessor → Str → Str → GroupVersionKind
listed_kind p group resource =
    kind_in (last_kind (before_slash (split b'/' resource)) (types_of p group))

get_or-types_in : (found : Option (List Gvkr)) → Option.get_or found [] ≡ types_in found
get_or-types_in none = refl
get_or-types_in (some types) = refl

types_of-gvkrs_of :
    (p : PolicyRulesProcessor) (group : Str)
    → gvkrs_of p.resources_by_group group ≡ types_of p group
types_of-gvkrs_of p group = get_or-types_in (lookup group p.resources_by_group)

full_name-eq-name_of : (x : Gvkr) → full_name x ≡ name_of x
unfolding full_name
full_name-eq-name_of x = refl

any-full_name :
    (name : Str) (types : List Gvkr)
    → any (λ x. full_name x == name) types ≡ any (λ x. name_of x == name) types
unfolding any full_name
any-full_name name [] = refl
any-full_name name (x ∷ types) = ground (arith, any-full_name name types)

pub is_present-eq-is_served :
    (p : PolicyRulesProcessor) (t : Target) → is_present p t ≡ is_served p t
unfolding resource_found
is_present-eq-is_served p (url u) = refl
is_present-eq-is_served p (generic group resource) =
    rw (types_of-gvkrs_of p group) (any-full_name resource (types_of p group))
is_present-eq-is_served p (named group resource name) =
    rw (types_of-gvkrs_of p group) (any-full_name resource (types_of p group))

find_scope-eq-first_scope :
    (name : Str) (types : List Gvkr) → find_scope name types ≡ first_scope name types
unfolding find_scope first_scope full_name
find_scope-eq-first_scope name [] = refl
find_scope-eq-first_scope name (x ∷ types) = ground (arith, find_scope-eq-first_scope name types)

pub find_scope-types_of :
    (p : PolicyRulesProcessor) (group name : Str)
    → find_scope name (gvkrs_of p.resources_by_group group) ≡ first_scope name (types_of p group)
find_scope-types_of p group name =
    rw (types_of-gvkrs_of p group) (find_scope-eq-first_scope name (types_of p group))

-- The kind that the loop ends with, from the kind that it has found.
or_found : GroupVersionKind → Option GroupVersionKind → GroupVersionKind
or_found found none = found
or_found found (some kind) = kind

chosen :
    (found kind : GroupVersionKind) (here : Bool) (later : Option GroupVersionKind)
    → or_found (if here then kind else found) later
      ≡ or_found found
          (elim later [ some last ↦ some last | none ↦ if here then some kind else none ])
unfolding or_found
chosen found kind here (some last) = refl
chosen found kind true none = refl
chosen found kind false none = refl

or_found-zero : (kind : Option GroupVersionKind) → or_found zero_gvk kind ≡ kind_in kind
unfolding or_found
or_found-zero none = refl
or_found-zero (some kind) = refl

find_gvk-last_kind :
    (resource : Str) (found : GroupVersionKind) (types : List Gvkr)
    → find_gvk resource found types ≡ or_found found (last_kind resource types)
unfolding find_gvk last_kind or_found
find_gvk-last_kind resource found [] = refl
find_gvk-last_kind resource found (x ∷ types) =
    find_gvk-last_kind resource (if x.resource == resource then x.gvk else found) types
    ∙ chosen found x.gvk (x.resource == resource) (last_kind resource types)

pub find_gvk-listed_kind :
    (p : PolicyRulesProcessor) (group resource : Str)
    → find_gvk (before_slash (split slash resource)) zero_gvk (gvkrs_of p.resources_by_group group)
      ≡ listed_kind p group resource
unfolding or_found
find_gvk-listed_kind p group resource =
    let name = before_slash (split slash resource) in
    ap (find_gvk name zero_gvk) (types_of-gvkrs_of p group)
    ∙ (find_gvk-last_kind name zero_gvk (types_of p group)
        ∙ or_found-zero (last_kind name (types_of p group)))
