-- ===== src/Processor/Verbs/Laws.antt =====
-- GetSurvivingVerbs is the difference of two sets.
use kuberbac.Prelude.{
  ℕ, ◌+◌, ◌≡◌, refl, not, ◌&&◌, Option, none, some, List, [], ◌∷◌, arith, Str, ◌==◌, ==_iff, count,
  contains, contains-eq-ltb, eqb, if◌then◌else◌,
}
use mathlib.Core.Option.{get_or}
use kuberbac.GoMap.{GoMap, lookup, insert, keys, Occasion, Range, IsRange, IsMap}
use kuberbac.GoMap.Laws.{lookup-insert, lookup_of_has, IsMap-nil, insert-IsMap}
use kuberbac.Processor.Verbs.{allow_verbs, raise, deny_verbs, collect, get_surviving_verbs}

lookup-allow_verbs :
    (k : Str) (vs : List Str) (m : GoMap ℕ)
    → lookup k (allow_verbs vs m) ≡ (if contains vs k then some 1 else lookup k m)
unfolding allow_verbs contains
lookup-allow_verbs k [] m = refl
lookup-allow_verbs k (v ∷ vs) m =
    ground (arith, lookup-allow_verbs k vs (insert v 1 m), lookup-insert v k 1 m)

plus : ℕ → Option ℕ → Option ℕ
plus d none = none
plus d (some n) = some (n + d)

lookup-raise :
    (k v : Str) (o : Option ℕ) (m : GoMap ℕ)
    → lookup v m ≡ o
    → lookup k (raise v o m) ≡ (if v == k then plus 1 (lookup k m) else lookup k m)
unfolding raise plus
lookup-raise k v none m e = ground (arith, ==_iff v k)
lookup-raise k v (some n) m e = ground (arith, ==_iff v k, lookup-insert v k (n + 1) m)

lookup-deny_verbs :
    (k : Str) (vs : List Str) (m : GoMap ℕ)
    → lookup k (deny_verbs vs m) ≡ plus (count k vs) (lookup k m)
unfolding deny_verbs count plus
lookup-deny_verbs k [] m = ground arith
lookup-deny_verbs k (v ∷ vs) m =
    ground
      (arith, lookup-deny_verbs k vs (raise v (lookup v m) m), lookup-raise k v (lookup v m) m refl)

allow_verbs-IsMap : (vs : List Str) (m : GoMap ℕ) → IsMap m → IsMap (allow_verbs vs m)
unfolding allow_verbs
allow_verbs-IsMap [] m h = h
allow_verbs-IsMap (v ∷ vs) m h = allow_verbs-IsMap vs (insert v 1 m) (insert-IsMap v 1 m h)

raise-IsMap : (v : Str) (o : Option ℕ) (m : GoMap ℕ) → IsMap m → IsMap (raise v o m)
unfolding raise
raise-IsMap v none m h = h
raise-IsMap v (some n) m h = insert-IsMap v (n + 1) m h

deny_verbs-IsMap : (vs : List Str) (m : GoMap ℕ) → IsMap m → IsMap (deny_verbs vs m)
unfolding deny_verbs
deny_verbs-IsMap [] m h = h
deny_verbs-IsMap (v ∷ vs) m h =
    deny_verbs-IsMap vs (raise v (lookup v m) m) (raise-IsMap v (lookup v m) m h)

count-collect :
    (v : Str) (ks : List Str) (m : GoMap ℕ)
    → count v (collect ks m) ≡ (if eqb (get_or (lookup v m) 0) 1 then count v ks else 0)
unfolding collect count
count-collect v [] m = ground arith
count-collect v (k ∷ ks) m = ground (arith, ==_iff k v, count-collect v ks m)

module _ {range : Range} (r : IsRange range) (o : Occasion) (allow deny : List Str) (v : Str) where
  -- A verb stands in the result of GetSurvivingVerbs once if it is allowed and not denied, and not at
  -- all otherwise, whatever the order of the loop over the counts.
  pub count-get_surviving_verbs :
      count v (get_surviving_verbs range o allow deny)
      ≡ (if contains allow v && not (contains deny v) then 1 else 0)
  unfolding get_surviving_verbs plus lookup
  count-get_surviving_verbs =
      let m = allow_verbs allow [] in
      let m' = deny_verbs deny m in
      ground (
        arith,
        count-collect v (range o (keys m')) m',
        r.visits o (keys m') v,
        deny_verbs-IsMap deny m (allow_verbs-IsMap allow [] (IsMap-nil ℕ)) v,
        lookup-deny_verbs v deny m,
        lookup-allow_verbs v allow [],
        lookup_of_has m' v,
        contains-eq-ltb v deny,
      )

  pub contains-get_surviving_verbs :
      contains (get_surviving_verbs range o allow deny) v
      ≡ (contains allow v && not (contains deny v))
  contains-get_surviving_verbs =
      ground (
        arith,
        count-get_surviving_verbs,
        contains-eq-ltb v (get_surviving_verbs range o allow deny),
      )
