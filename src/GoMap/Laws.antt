-- ===== src/GoMap/Laws.antt =====
-- The laws of maps: what a lookup gives after each operation.
use kuberbac.Prelude.{any, any_same, Bool}
use kuberbac.Prelude.{
  ◌+◌, ◌≡◌, refl, true, false, none, some, List, [], ◌∷◌, arith, Str, ◌==◌, ==_iff, count, contains,
  contains-eq-ltb, if◌then◌else◌,
}
use kuberbac.GoMap.{GoMap, lookup, has, insert, delete, keys, Occasion, Range, IsRange, IsMap}

module _ {ℓ} {V : Type ℓ} where
  pub lookup-insert :
      (written key : Str) (value : V) (m : GoMap V)
      → lookup key (insert written value m) ≡ (if written == key then some value else lookup key m)
  unfolding lookup insert
  lookup-insert written key value [] = refl
  lookup-insert written key value ((other, old) ∷ rest) = ground (
    arith,
    lookup-insert written key value rest,
    ==_iff written key,
    ==_iff other written,
    ==_iff other key,
  )

  pub lookup-delete :
      (k j : Str) (m : GoMap V) → lookup j (delete k m) ≡ (if k == j then none else lookup j m)
  unfolding lookup delete
  lookup-delete k j [] = ground arith
  lookup-delete k j ((i, w) ∷ m) =
      ground (arith, ==_iff k j, ==_iff i k, ==_iff i j, lookup-delete k j m)

  pub has-insert :
      (k j : Str) (v : V) (m : GoMap V) → has (insert k v m) j ≡ (if k == j then true else has m j)
  unfolding has insert
  has-insert k j v [] = refl
  has-insert k j v ((i, w) ∷ m) =
      ground (arith, ==_iff k j, ==_iff i k, ==_iff i j, has-insert k j v m)

  pub has-delete :
      (k j : Str) (m : GoMap V) → has (delete k m) j ≡ (if k == j then false else has m j)
  unfolding has delete
  has-delete k j [] = ground arith
  has-delete k j ((i, w) ∷ m) = ground (arith, ==_iff k j, ==_iff i k, ==_iff i j, has-delete k j m)

  pub contains-keys : (m : GoMap V) (k : Str) → contains (keys m) k ≡ has m k
  unfolding contains has
  contains-keys [] k = refl
  contains-keys ((j, v) ∷ m) k = ground (arith, contains-keys m k)

  pub lookup_of_has : (m : GoMap V) (k : Str) → has m k ≡ false → lookup k m ≡ none
  unfolding lookup has
  lookup_of_has [] k h = refl
  lookup_of_has ((j, v) ∷ m) k h = ground (arith, lookup_of_has m k)

  pub has_of_none : (m : GoMap V) (k : Str) → lookup k m ≡ none → has m k ≡ false
  unfolding lookup has
  has_of_none [] k h = refl
  has_of_none ((j, v) ∷ m) k h = ground (arith, has_of_none m k)

  pub has_of_lookup : (m : GoMap V) (k : Str) (v : V) → lookup k m ≡ some v → has m k ≡ true
  unfolding lookup has
  has_of_lookup [] k v h = cc
  has_of_lookup ((j, w) ∷ m) k v h = ground (arith, has_of_lookup m k v)

-- Whatever the order of a loop, it meets just the keys of its map.
pub contains-range :
    {range : Range} (r : IsRange range) (o : Occasion) (ks : List Str) (k : Str)
    → contains (range o ks) k ≡ contains ks k
contains-range {range} r o ks k =
    rw (contains-eq-ltb k (range o ks), contains-eq-ltb k ks, r.visits o ks k)

pub IsMap-nil {ℓ} : (V : Type ℓ) → IsMap {V = V} []
IsMap-nil V k = unfold count has in refl

module _ {ℓ} {V : Type ℓ} where
  pub count-keys-insert :
      (k j : Str) (v : V) (m : GoMap V)
      → count j (keys (insert k v m))
        ≡ (if has m k then count j (keys m) else (if k == j then 1 else 0) + count j (keys m))
  unfolding count has insert
  count-keys-insert k j v [] = refl
  count-keys-insert k j v ((i, w) ∷ m) = ground (arith, ==_iff i k, count-keys-insert k j v m)

  count-keys-delete :
      (k j : Str) (m : GoMap V)
      → count j (keys (delete k m)) ≡ (if k == j then 0 else count j (keys m))
  unfolding count delete
  count-keys-delete k j [] = ground arith
  count-keys-delete k j ((i, w) ∷ m) =
      ground (arith, ==_iff i k, ==_iff i j, ==_iff k j, count-keys-delete k j m)

  pub insert-IsMap : (k : Str) (v : V) (m : GoMap V) → IsMap m → IsMap (insert k v m)
  insert-IsMap k v m h j =
      ground (arith, count-keys-insert k j v m, has-insert k j v m, ==_iff k j, h j, h k)

  pub delete-IsMap : (k : Str) (m : GoMap V) → IsMap m → IsMap (delete k m)
  delete-IsMap k m h j = ground (arith, count-keys-delete k j m, has-delete k j m, ==_iff k j, h j)

-- A test of some key of a map does not depend on the order of the loop.
pub any-range :
    {range : Range} (r : IsRange range) (o : Occasion) (p : Str → Bool) (ks : List Str)
    → any p (range o ks) ≡ any p ks
any-range {range} r o p ks = any_same p (range o ks) ks (contains-range r o ks)
