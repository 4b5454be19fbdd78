-- ===== src/RoleBinding/Selectors/Laws.antt =====
-- Which namespaces FilterNamespaceListBySelector selects.
use kuberbac.Prelude.{
  ◌≡◌, refl, Bool, true, false, not, List, [], ◌∷◌, arith, Str, ℕ, ◌+◌, eqb, if◌then◌else◌,
  is_empty, contains, flat_map, ok,
}
use kuberbac.Globals.Subset.{is_subset}
use kuberbac.RoleBinding.Types.{NamespaceSelector, Namespace, Regexp}
use kuberbac.RoleBinding.Selectors.{
  items_of, namespace_is_zero, selected_names, append_if, compiled, check_namespace_selector,
  filter_namespace_list_by_selector,
}

-- How many of the selector's fields are filled.
abbrev pub filled_fields : NamespaceSelector → ℕ
filled_fields s =
    (if is_empty (items_of s.match_labels) then 0 else 1)
    + (if is_empty (items_of s.match_list) then 0 else 1)
    + (if is_empty s.match_regex.expression then 0 else 1)

-- The selector's filled field selects the namespace.
unfoldable pub selects : NamespaceSelector → (Str → Bool) → Namespace → Bool
selects s match_string namespace =
    if not (is_empty (items_of s.match_labels))
    then is_subset (items_of s.match_labels) namespace.labels
    else if not (is_empty (items_of s.match_list))
    then contains (items_of s.match_list) namespace.name
    else if s.match_regex.negative
    then not (match_string namespace.name)
    else match_string namespace.name

-- The names of the namespaces that pass, in the order of the list.
unfoldable pub names_where : (Namespace → Bool) → List Namespace → List Str
names_where test [] = []
names_where test (namespace ∷ items) =
    let rest = names_where test items in if test namespace then namespace.name ∷ rest else rest

-- With one field filled, at most one of the loop's three tests appends.
selected_names_lem :
    (s : NamespaceSelector) (match_string : Str → Bool) (namespace : Namespace)
    → eqb (filled_fields s) 1 ≡ true
    → selected_names s match_string namespace
      ≡ append_if (selects s match_string namespace) namespace
unfolding selected_names selects
selected_names_lem s match_string namespace h = ground arith

flat_map-selected_names :
    (s : NamespaceSelector) (match_string : Str → Bool) (items : List Namespace)
    → eqb (filled_fields s) 1 ≡ true
    → flat_map (selected_names s match_string) items ≡ names_where (selects s match_string) items
unfolding flat_map names_where
flat_map-selected_names s match_string [] h = refl
flat_map-selected_names s match_string (namespace ∷ items) h = ground (
  arith,
  selected_names_lem s match_string namespace h,
  flat_map-selected_names s match_string items h,
)

-- One filled field keeps the selector from being the zero value.
filled_fields-full :
    (s : NamespaceSelector) → eqb (filled_fields s) 1 ≡ true → namespace_is_zero s ≡ false
filled_fields-full s one = ground arith

-- If the selector fills exactly one of its three fields, and its regular expression compiles, if it
-- has one, FilterNamespaceListBySelector returns the names of the namespaces that the filled field
-- selects, each once and in the order of the list.
pub filter_namespace_list_by_selector_lem :
    (regexp : Regexp) (items : List Namespace) (s : NamespaceSelector) (match_string : Str → Bool)
    → eqb (filled_fields s) 1 ≡ true
    → compiled regexp s.match_regex.expression ≡ ok match_string
    → filter_namespace_list_by_selector regexp items s
      ≡ ok (names_where (selects s match_string) items)
unfolding filter_namespace_list_by_selector check_namespace_selector
filter_namespace_list_by_selector_lem regexp items s match_string one compiles =
    rw (filled_fields-full s one, one, compiles, flat_map-selected_names s match_string items one)
