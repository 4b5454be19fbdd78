-- ===== src/Processor/Discovery/Laws.antt =====
-- What SetResourcesByGroup and SetResourceList store.
use kuberbac.Prelude.{
  ◌≡◌, refl, ◌∙◌, ap, ◌≢◌, ◌⊎◌, inl, inr, Option, none, some, List, [], ◌∷◌, ◌++◌, arith, map, Str,
  ◌==◌, ==_iff, split, join, split-ne-nil, join-split, Lacks, All, if◌then◌else◌, ok,
  split_of_Lacks, split-append,
}
use mathlib.Core.List.{append-nil, append_assoc}
use kuberbac.Prelude.{==_refl}
use kuberbac.GoMap.{GoMap, lookup, insert}
use kuberbac.GoMap.Laws.{lookup-insert}
use kuberbac.Rbac.{ApiResource, ApiResourceList}
use kuberbac.Processor.Discovery.{
  Gvkr, slash, group_version_of, resource_of, gvkr_of, add_resources, add_lists,
  set_resources_by_group, full_name,
}

-- The first part of a text, and the text behind the first separator.
abbrev pub head_part : List Str → Str
head_part [] = []
head_part (part ∷ parts) = part

abbrev pub tail_parts : List Str → Str
tail_parts [] = []
tail_parts (part ∷ parts) = join slash parts

-- The group and the version of a list, and the resource types that it stands for.
unfoldable pub group_of : List Str → Str
group_of (group ∷ version ∷ []) = group
group_of _ = []

unfoldable pub version_of : List Str → Str
version_of (group ∷ version ∷ []) = version
version_of (version ∷ _) = version
version_of [] = []

abbrev pub list_group : ApiResourceList → Str
list_group l = group_of (split slash l.group_version)

abbrev pub resource_type_of : Str → Str → ApiResource → Gvkr
resource_type_of group version api_resource = record {
  gvk = record { group = group; version = version; kind = api_resource.kind };
  resource = head_part (split slash api_resource.name);
  subresource = tail_parts (split slash api_resource.name);
  namespaced = api_resource.namespaced;
  usable_verbs = api_resource.verbs;
}

abbrev pub resource_types : ApiResourceList → List Gvkr
resource_types l =
    map (resource_type_of (list_group l) (version_of (split slash l.group_version))) l.api_resources

group_version_of_parts :
    (parts : List Str) → parts ≢ [] → group_version_of parts ≡ ok (group_of parts, version_of parts)
unfolding group_version_of group_of version_of
group_version_of_parts [] h = absurd (h refl)
group_version_of_parts (a ∷ []) h = refl
group_version_of_parts (a ∷ b ∷ []) h = refl
group_version_of_parts (a ∷ b ∷ c ∷ parts) h = refl

resource_of_parts :
    (parts : List Str) → parts ≢ [] → resource_of parts ≡ ok (head_part parts, tail_parts parts)
unfolding resource_of join
resource_of_parts [] h = absurd (h refl)
resource_of_parts (a ∷ []) h = refl
resource_of_parts (a ∷ b ∷ parts) h = refl

gvkr_of-eq-ok :
    (group version : Str) (api_resource : ApiResource)
    → gvkr_of group version api_resource ≡ ok (resource_type_of group version api_resource)
unfolding gvkr_of
gvkr_of-eq-ok group version api_resource =
    rw (resource_of_parts (split slash api_resource.name) (split-ne-nil slash api_resource.name))

-- The inner loop appends the list's resource types to its group, and leaves the other groups.
add_resources_lem :
    (group version : Str) (rs : List ApiResource) (m : GoMap (List Gvkr)) (old : List Gvkr)
    → lookup group m ≡ some old
    → (m' : GoMap (List Gvkr)) × (add_resources group version rs m ≡ ok m')
      × ((j : Str)
          → lookup j m' ≡ (
              if group == j
              then some (old ++ map (resource_type_of group version) rs)
              else lookup j m))
unfolding add_resources
add_resources_lem group version [] m old e =
    (m, refl, λ j. rw append-nil (ground (arith, ==_iff group j)))
add_resources_lem group version (a ∷ rs) m old e =
    let gvkr = resource_type_of group version a in
    let m' = insert group (old ++ gvkr ∷ []) m in
    let (m'', ran, looks) =
      add_resources_lem group version rs m' (old ++ gvkr ∷ [])
        (lookup-insert group group (old ++ gvkr ∷ []) m ∙ rw ==_refl) in
    (
      m'',
      rw (gvkr_of-eq-ok group version a, e) ran,
      λ j. ground (
        arith,
        looks j,
        lookup-insert group j (old ++ gvkr ∷ []) m,
        append_assoc old (gvkr ∷ []) (map (resource_type_of group version) rs),
      ),
    )

-- What a group holds after some lists: the resource types of its last list.
unfoldable pub last_types : Str → Option (List Gvkr) → List ApiResourceList → Option (List Gvkr)
last_types group found [] = found
last_types group found (l ∷ lists) =
    last_types group (if list_group l == group then some (resource_types l) else found) lists

add_lists_lem :
    (lists : List ApiResourceList) (m : GoMap (List Gvkr))
    → (m' : GoMap (List Gvkr)) × (add_lists lists m ≡ ok m')
      × ((j : Str) → lookup j m' ≡ last_types j (lookup j m) lists)
unfolding add_lists last_types
add_lists_lem [] m = (m, refl, λ j. refl)
add_lists_lem (l ∷ lists) m =
    let parts = split slash l.group_version in
    let group = list_group l in
    let (m', ran, looks) =
      add_resources_lem group (version_of parts) l.api_resources (insert group [] m) []
        (lookup-insert group group [] m ∙ rw ==_refl) in
    let (m'', ran', looks') = add_lists_lem lists m' in
    (
      m'',
      rw (group_version_of_parts parts (split-ne-nil slash l.group_version), ran) ran',
      λ j.
          looks' j
          ∙ ap (λ o. last_types j o lists) (looks j ∙ ground (arith, lookup-insert group j [] m)),
    )

pub set_resources_by_group_lem :
    (lists : List ApiResourceList)
    → (m : GoMap (List Gvkr)) × (set_resources_by_group (ok lists) ≡ ok m)
      × ((group : Str) → lookup group m ≡ last_types group none lists)
unfolding set_resources_by_group
set_resources_by_group_lem lists = unfold lookup in add_lists_lem lists []

last_types_of_later :
    (group : Str) (found : Option (List Gvkr)) (later : List ApiResourceList)
    → All (λ l. list_group l ≢ group) later
    → last_types group found later ≡ found
unfolding last_types
last_types_of_later group found [] h = refl
last_types_of_later group found (l ∷ later) h =
    ground (arith, ==_iff (list_group l) group, last_types_of_later group found later)

last_types-append :
    (group : Str) (earlier : List ApiResourceList) (found : Option (List Gvkr))
    (l : ApiResourceList) (later : List ApiResourceList)
    → list_group l ≡ group
    → All (λ l'. list_group l' ≢ group) later
    → last_types group found (earlier ++ l ∷ later) ≡ some (resource_types l)
unfolding last_types
last_types-append group [] found l later e h = ground (
  arith,
  ==_iff (list_group l) group,
  last_types_of_later group (some (resource_types l)) later h,
)
last_types-append group (l' ∷ earlier) found l later e h =
    last_types-append group earlier
      (if list_group l' == group then some (resource_types l') else found) l later e h

-- SetResourcesByGroup always succeeds on an answer of the discovery client, and a group then holds
-- exactly the resource types of the last list of the group: what the lists before it, of other
-- versions of the group, had is lost.
pub set_resources_by_group-last :
    (earlier : List ApiResourceList) (l : ApiResourceList) (later : List ApiResourceList)
    → All (λ l'. list_group l' ≢ list_group l) later
    → (m : GoMap (List Gvkr)) × (set_resources_by_group (ok (earlier ++ l ∷ later)) ≡ ok m)
      × (lookup (list_group l) m ≡ some (resource_types l))
set_resources_by_group-last earlier l later h =
    let (m, ran, looks) = set_resources_by_group_lem (earlier ++ l ∷ later) in
    (m, ran, looks (list_group l) ∙ last_types-append (list_group l) earlier none l later refl h)

-- A name of the discovery client: "resource", or "resource/subresource".
abbrev pub IsResourceName : Str → Type 0
IsResourceName name =
    Lacks slash name ⊎ ((a : Str) × (b : Str) × Lacks slash a × (b ≢ []) × (name ≡ a ++ slash ∷ b))

full_name_of_split :
    (gvkr : Gvkr) (parts : List Str)
    → gvkr.resource ≡ head_part parts
    → gvkr.subresource ≡ tail_parts parts
    → full_name gvkr ≡ (
        if tail_parts parts == []
        then head_part parts
        else head_part parts ++ slash ∷ tail_parts parts)
unfolding full_name
full_name_of_split gvkr parts e f = rw (e, f)

module _ (group version : Str) (api_resource : ApiResource) where
  full_name-resource_type_of :
      IsResourceName api_resource.name
      → full_name (resource_type_of group version api_resource) ≡ api_resource.name
  full_name-resource_type_of (inl plain) =
      full_name_of_split (resource_type_of group version api_resource)
        (split slash api_resource.name) refl refl
      ∙ (rw (split_of_Lacks slash api_resource.name plain) (unfold join ◌==◌ in refl))
  full_name-resource_type_of (inr (a, b, lacks, nonempty, e)) =
      full_name_of_split (resource_type_of group version api_resource)
        (split slash api_resource.name) refl refl
      ∙ rw (e, split-append slash a b lacks, join-split slash b) (ground (arith, ==_iff b []))

  -- The resource type that SetResourcesByGroup makes of an entry of the discovery client has the
  -- entry's name as its full name: taking the name apart loses nothing, unless it ends with its
  -- first slash.
  pub full_name-gvkr_of :
      IsResourceName api_resource.name
      → (gvkr : Gvkr) × (gvkr_of group version api_resource ≡ ok gvkr)
        × (full_name gvkr ≡ api_resource.name)
  full_name-gvkr_of h = (
    resource_type_of group version api_resource,
    gvkr_of-eq-ok group version api_resource,
    full_name-resource_type_of h,
  )
