-- ===== src/RoleBinding/Selectors.antt =====
-- The checks of the selectors, and FilterNamespaceListBySelector, of
-- internal/controller/dynamicrolebinding_sync.go.
pub mod Laws
use kuberbac.Prelude.{
  ℕ, ◌+◌, Bool, true, false, not, ◌&&◌, Option, none, some, List, [], ◌∷◌, ◌++◌, map, Str,
  if◌then◌else◌, eqb, is_empty, contains, flat_map, Outcome, ok, err, ◌>>=◌, Error,
}
use kuberbac.GoMap.{GoMap}
use kuberbac.Globals.Subset.{is_subset}
use kuberbac.RoleBinding.Types.{
  MatchRegex, MetaSelector, NameSelector, NamespaceSelector, Namespace, Regexp,
}

-- The items of a slice or a map that may be nil.
abbrev pub items_of {ℓ} : {A : Type ℓ} → Option (List A) → List A
items_of none = []
items_of (some xs) = xs

-- `reflect.ValueOf(xs).IsZero()`
abbrev pub is_nil {ℓ} : {A : Type ℓ} → Option A → Bool
is_nil none = true
is_nil (some x) = false

abbrev pub regex_is_zero : MatchRegex → Bool
regex_is_zero regex = not regex.negative && is_empty regex.expression

abbrev pub meta_is_zero : MetaSelector → Bool
meta_is_zero s = is_nil s.match_labels && is_nil s.match_annotations

abbrev pub name_is_zero : NameSelector → Bool
name_is_zero s = is_nil s.match_list && regex_is_zero s.match_regex

abbrev pub namespace_is_zero : NamespaceSelector → Bool
namespace_is_zero s = is_nil s.match_labels && (is_nil s.match_list && regex_is_zero s.match_regex)

-- A check, which comes to nothing or to an error.
abbrev pub Checked : Type 0
Checked = Outcome {0} Unit

-- `filledSelectorFields++` if the field is filled.
abbrev pub filled {ℓ} : {A : Type ℓ} → List A → ℕ
filled xs = if is_empty xs then 0 else 1

unfoldable pub check_meta_selector : MetaSelector → Checked
check_meta_selector s =
    if eqb (filled (items_of s.match_labels) + filled (items_of s.match_annotations)) 1
    then ok tt
    else err (
        Error.message
          "only one of the following fields is allowed as metaSelector: matchLabels, matchAnnotations")

unfoldable pub check_name_selector : NameSelector → Checked
check_name_selector s =
    if eqb (filled (items_of s.match_list) + filled s.match_regex.expression) 1
    then ok tt
    else err (
        Error.message
          "only one of the following fields is allowed as nameSelector: matchList, matchRegex")

unfoldable pub check_namespace_selector : NamespaceSelector → Checked
check_namespace_selector s =
    if eqb
      (filled (items_of s.match_labels)
        + filled (items_of s.match_list)
        + filled s.match_regex.expression)
      1
    then ok tt
    else err (
        Error.message
          "only one of the following fields is allowed as namespaceSelector: matchLabels, matchList, matchRegex")

-- The two tests on a regular expression's result.
abbrev pub regex_selects : MatchRegex → Bool → Bool
regex_selects regex matched = if matched then not regex.negative else regex.negative

abbrev pub append_if : Bool → Namespace → List Str
append_if c namespace = if c then namespace.name ∷ [] else []

-- What a round of the loop appends.
unfoldable pub selected_names : NamespaceSelector → (Str → Bool) → Namespace → List Str
selected_names s match_string namespace =
    append_if
      (not (is_empty (items_of s.match_labels))
        && is_subset (items_of s.match_labels) namespace.labels)
      namespace
    ++ (append_if
          (not (is_empty (items_of s.match_list))
            && contains (items_of s.match_list) namespace.name)
          namespace
        ++ append_if
            (not (is_empty s.match_regex.expression)
              && regex_selects s.match_regex (match_string namespace.name))
            namespace)

-- The compiled expression, when there is one; the loop does not use it otherwise.
abbrev pub compiled : Regexp → Str → Outcome (Str → Bool)
compiled regexp expression =
    if is_empty expression then ok (λ name. false) else regexp.compile expression

abbrev pub name_of : Namespace → Str
name_of namespace = namespace.name

unfoldable pub filter_namespace_list_by_selector :
    Regexp → List Namespace → NamespaceSelector → Outcome (List Str)
filter_namespace_list_by_selector regexp items s =
    if namespace_is_zero s then ok (map name_of items) else (do
      checked ← check_namespace_selector s
      match_string ← compiled regexp s.match_regex.expression
      ok (flat_map (selected_names s match_string) items))
