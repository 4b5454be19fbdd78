-- ===== src/GoMap.antt =====
-- Go's maps with string keys, as association lists, and `range` over them.
--
-- `range` visits the keys of a map in an order that Go leaves open and changes from loop to loop.
-- A loop is told apart by an `Occasion`, a list of texts that says which loop of which call runs, and
-- a `Range` gives, for an occasion and the keys of the map, the order of that run.
pub mod Laws
use kuberbac.Prelude.{
  ℕ, ◌≡◌, Bool, true, false, Option, none, some, List, [], ◌∷◌, Str, ◌==◌, count, if◌then◌else◌,
}

abbrev pub GoMap {ℓ} : Type ℓ → Type ℓ
GoMap V = List (Str × V)

module _ {ℓ} {V : Type ℓ} where
  -- `value, ok := m[key]`
  unfoldable pub lookup : Str → GoMap V → Option V
  lookup key [] = none
  lookup key ((other, value) ∷ rest) = if other == key then some value else lookup key rest

  -- `_, ok := m[k]`
  unfoldable pub has : GoMap V → Str → Bool
  has [] k = false
  has ((j, v) ∷ m) k = if j == k then true else has m k

  -- `m[key] = value`
  unfoldable pub insert : Str → V → GoMap V → GoMap V
  insert key value [] = (key, value) ∷ []
  insert key value ((other, old) ∷ rest) =
      if other == key then (other, value) ∷ rest else (other, old) ∷ insert key value rest

  -- `delete(m, k)`
  unfoldable pub delete : Str → GoMap V → GoMap V
  delete k [] = []
  delete k ((j, v) ∷ m) = let rest = delete k m in if j == k then rest else (j, v) ∷ rest

  -- The keys that a loop over the map visits.
  abbrev pub keys : GoMap V → List Str
  keys [] = []
  keys ((j, v) ∷ m) = j ∷ keys m

abbrev pub Occasion : Type 0
Occasion = List Str

abbrev pub Range : Type 0
Range = Occasion → List Str → List Str

-- What Go documents of `range`: every key is visited, and once.
pub record IsRange (range : Range) : Type 0 where
  pub visits : (o : Occasion) (ks : List Str) (k : Str) → count k (range o ks) ≡ count k ks

-- Every key stands once, as in a map that was built by writes and deletions.
abbrev pub IsMap {ℓ} : {V : Type ℓ} → GoMap V → Type 0
IsMap m = (k : Str) → count k (keys m) ≡ (if has m k then 1 else 0)
