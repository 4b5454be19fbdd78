-- ===== src/Globals/Subset.antt =====
-- internal/globals/utils.go: `IsSubset`.
pub mod Laws
use kuberbac.Prelude.{
  ◌≡◌, Bool, true, false, Option, none, some, List, [], ◌∷◌, Str, ◌==◌, if◌then◌else◌,
}
use kuberbac.GoMap.{GoMap, lookup, keys}

-- `largerValue, ok := larger[key]; !ok || largerValue != value`, negated.
agrees : Str → Option Str → Bool
agrees value none = false
agrees value (some larger_value) = larger_value == value

-- One round of the loop, on what the two maps hold at a key.
entry_agrees : Option Str → Option Str → Bool
unfolding agrees
entry_agrees none larger_entry = true
entry_agrees (some value) larger_entry = agrees value larger_entry

-- The loop, over the keys in the order of the run, with its early return.
unfoldable pub is_subset_over : List Str → GoMap Str → GoMap Str → Bool
unfolding entry_agrees
is_subset_over [] smaller larger = true
is_subset_over (key ∷ ks) smaller larger =
    let rest = is_subset_over ks smaller larger in
    if entry_agrees (lookup key smaller) (lookup key larger) then rest else false

-- `IsSubset`, for a run that visits the keys as they stand.
unfoldable pub is_subset : GoMap Str → GoMap Str → Bool
unfolding is_subset_over
is_subset smaller larger = is_subset_over (keys smaller) smaller larger
