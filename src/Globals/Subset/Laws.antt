-- ===== src/Globals/Subset/Laws.antt =====
-- What `IsSubset` decides.
use kuberbac.Prelude.{
  ◌≡◌, refl, ◌↔◌, true, Option, none, some, List, [], ◌∷◌, arith, Str, ==_iff, contains, Bool_ext,
  ◌∙◌,
}
use kuberbac.GoMap.{GoMap, lookup, keys, Occasion, Range, IsRange}
use kuberbac.GoMap.Laws.{contains-range, contains-keys, has_of_lookup}
use kuberbac.Globals.Subset.{entry_agrees, agrees, is_subset_over, is_subset}

-- Every entry of `smaller` is an entry of `larger`.
abbrev pub Within : GoMap Str → GoMap Str → Type 0
Within smaller larger =
    (key value : Str) → lookup key smaller ≡ some value → lookup key larger ≡ some value

agrees_iff : (value : Str) (o : Option Str) → (agrees value o ≡ true) ↔ (o ≡ some value)
unfolding agrees
agrees_iff value none = ground arith
agrees_iff value (some w) = ground (arith, ==_iff w value)

entry_agrees_sound :
    (o larger_entry : Option Str) (value : Str)
    → entry_agrees o larger_entry ≡ true
    → o ≡ some value
    → larger_entry ≡ some value
unfolding entry_agrees
entry_agrees_sound none larger_entry value h e = cc
entry_agrees_sound (some w) larger_entry value h e = ground (arith, agrees_iff w larger_entry)

entry_agrees_complete :
    (o larger_entry : Option Str)
    → ((value : Str) → o ≡ some value → larger_entry ≡ some value)
    → entry_agrees o larger_entry ≡ true
unfolding entry_agrees
entry_agrees_complete none larger_entry w = refl
entry_agrees_complete (some value) larger_entry w = (agrees_iff value larger_entry).1 (w value refl)

over_sound :
    (ks : List Str) (smaller larger : GoMap Str) (key value : Str)
    → is_subset_over ks smaller larger ≡ true
    → contains ks key ≡ true
    → lookup key smaller ≡ some value
    → lookup key larger ≡ some value
unfolding is_subset_over contains
over_sound [] smaller larger key value h c e = cc
over_sound (k ∷ ks) smaller larger key value h c e = ground (
  arith,
  ==_iff k key,
  entry_agrees_sound (lookup key smaller) (lookup key larger) value,
  over_sound ks smaller larger key value,
)

over_complete :
    (ks : List Str) (smaller larger : GoMap Str)
    → Within smaller larger
    → is_subset_over ks smaller larger ≡ true
unfolding is_subset_over
over_complete [] smaller larger w = refl
over_complete (k ∷ ks) smaller larger w =
    rw (entry_agrees_complete (lookup k smaller) (lookup k larger) (w k))
      (over_complete ks smaller larger w)

module _ (smaller larger : GoMap Str) where
  -- IsSubset returns true exactly when every entry of the smaller map is an entry of the larger.
  pub is_subset_iff : (is_subset smaller larger ≡ true) ↔ Within smaller larger
  unfolding is_subset
  is_subset_iff = (
    λ h key value e.
        over_sound (keys smaller) smaller larger key value h
          (contains-keys smaller key ∙ has_of_lookup smaller key value e) e,
    over_complete (keys smaller) smaller larger,
  )

  -- The result of the loop is the same for every order in which `range` visits the map.
  pub is_subset_over-range :
      {range : Range} (r : IsRange range) (o : Occasion)
      → is_subset_over (range o (keys smaller)) smaller larger ≡ is_subset smaller larger
  unfolding is_subset
  is_subset_over-range {range} r o =
      Bool_ext _ _
        (λ h. over_complete (keys smaller) smaller larger (λ key value e.
          over_sound (range o (keys smaller)) smaller larger key value h
            (contains-range r o (keys smaller) key
              ∙ (contains-keys smaller key ∙ has_of_lookup smaller key value e))
            e))
        (λ h. over_complete (range o (keys smaller)) smaller larger (is_subset_iff.0 h))
