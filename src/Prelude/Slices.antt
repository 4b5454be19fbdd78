-- ===== src/Prelude/Slices.antt =====
-- Go's slices as lists, and what the program uses of the package `slices`.
use kuberbac.Prelude.Tests.{Bool-cases, Bool_ext}
use mathlib.Core.Logic.{inl, inr}
use mathlib.Core.Path.{sym, ◌∙◌, subst}
use Prim.Native.Nat.{ℕ, ◌+◌, zero, suc}
use mathlib.Core.Path.{◌≡◌, refl}
use mathlib.Core.Bool.{Bool, true, false, ◌&&◌, ◌||◌}
use mathlib.Core.Option.{Option, none, some}
use mathlib.Core.List.{List, [], ◌∷◌, ◌++◌, map}
use native.Mathlib.Omega.{arith}
use kuberbac.Prelude.Tests.{eqb, ltb, if◌then◌else◌}
use kuberbac.Prelude.Text.{Str, ◌==◌, ==_iff}

module _ {ℓ} {A : Type ℓ} where
  abbrev pub length : List A → ℕ
  length [] = 0
  length (x ∷ xs) = suc (length xs)

  -- `len(xs) == 0`
  abbrev pub is_empty : List A → Bool
  is_empty [] = true
  is_empty (x ∷ xs) = false

  abbrev pub get_elem? : List A → ℕ → Option A
  get_elem? [] i = none
  get_elem? (x ∷ xs) zero = some x
  get_elem? (x ∷ xs) (suc i) = get_elem? xs i

  -- A test that some item passes.
  unfoldable pub any : (A → Bool) → List A → Bool
  any p [] = false
  any p (x ∷ xs) = p x || any p xs

  -- Every item has the property.
  abbrev pub All {κ} : (A → Type κ) → List A → Type κ
  All P [] = Unit
  All P (x ∷ xs) = P x × All P xs

  pub any-append : (p : A → Bool) (xs ys : List A) → any p (xs ++ ys) ≡ (any p xs || any p ys)
  unfolding any
  any-append p [] ys = refl
  any-append p (x ∷ xs) ys = ground (arith, any-append p xs ys)

  pub any-if :
      (p : A → Bool) (b : Bool) (x : A) (xs : List A)
      → any p (if b then x ∷ xs else xs) ≡ ((b && p x) || any p xs)
  unfolding any
  any-if p true x xs = refl
  any-if p false x xs = refl

  pub any_cong : (p q : A → Bool) (xs : List A) → ((x : A) → p x ≡ q x) → any p xs ≡ any q xs
  unfolding any
  any_cong p q [] h = refl
  any_cong p q (x ∷ xs) h = ground (arith, h x, any_cong p q xs h)

  pub any-&& : (p : A → Bool) (b : Bool) (xs : List A) → any (λ x. p x && b) xs ≡ (any p xs && b)
  unfolding any
  any-&& p b [] = refl
  any-&& p b (x ∷ xs) = ground (arith, any-&& p b xs)

  pub any-false : (xs : List A) → any (λ x. false) xs ≡ false
  unfolding any
  any-false [] = refl
  any-false (x ∷ xs) = any-false xs

  pub All-append {κ} : (P : A → Type κ) (xs ys : List A) → All P xs → All P ys → All P (xs ++ ys)
  All-append P [] ys h k = k
  All-append P (x ∷ xs) ys h k = (h.0, All-append P xs ys h.1 k)

-- A loop that appends the items of `f x` to its result, for each `x` in turn.
module _ {ℓ κ} {A : Type ℓ} {B : Type κ} where
  unfoldable pub flat_map : (A → List B) → List A → List B
  flat_map f [] = []
  flat_map f (x ∷ xs) = f x ++ flat_map f xs

  pub any-flat_map :
      (p : B → Bool) (f : A → List B) (xs : List A)
      → any p (flat_map f xs) ≡ any (λ x. any p (f x)) xs
  unfolding any flat_map
  any-flat_map p f [] = refl
  any-flat_map p f (x ∷ xs) =
      ground (arith, any-append p (f x) (flat_map f xs), any-flat_map p f xs)

  pub any-map : (p : B → Bool) (f : A → B) (xs : List A) → any p (map f xs) ≡ any (λ x. p (f x)) xs
  unfolding any
  any-map p f [] = refl
  any-map p f (x ∷ xs) = ground (arith, any-map p f xs)

  pub All-map {μ} :
      (P : B → Type μ) (f : A → B) (xs : List A) → ((x : A) → P (f x)) → All P (map f xs)
  All-map P f [] h = tt
  All-map P f (x ∷ xs) h = (h x, All-map P f xs h)

  pub All-flat_map {μ} :
      (P : B → Type μ) (f : A → List B) (xs : List A)
      → ((x : A) → All P (f x))
      → All P (flat_map f xs)
  unfolding flat_map
  All-flat_map P f [] h = tt
  All-flat_map P f (x ∷ xs) h = All-append P (f x) (flat_map f xs) (h x) (All-flat_map P f xs h)

-- slices.Contains(xs, v)
unfoldable pub contains : List Str → Str → Bool
contains [] v = false
contains (x ∷ xs) v = x == v || contains xs v

-- How often `v` stands in the slice.
unfoldable pub count : Str → List Str → ℕ
count v [] = 0
count v (x ∷ xs) = (if x == v then 1 else 0) + count v xs

pub contains-append :
    (xs ys : List Str) (v : Str) → contains (xs ++ ys) v ≡ (contains xs v || contains ys v)
unfolding contains
contains-append [] ys v = refl
contains-append (x ∷ xs) ys v = ground (arith, contains-append xs ys v)

pub contains-eq-ltb : (v : Str) (xs : List Str) → contains xs v ≡ ltb 0 (count v xs)
unfolding contains count
contains-eq-ltb v [] = refl
contains-eq-ltb v (x ∷ xs) = ground (arith, contains-eq-ltb v xs)

-- The order of Go's strings: byte by byte.
unfoldable pub str_lt : Str → Str → Bool
str_lt s [] = false
str_lt [] (b ∷ t) = true
str_lt (a ∷ s) (b ∷ t) = ltb a b || (eqb a b && str_lt s t)

unfoldable pub insert_sorted : Str → List Str → List Str
insert_sorted v [] = v ∷ []
insert_sorted v (x ∷ xs) =
    let rest = insert_sorted v xs in if str_lt x v then x ∷ rest else v ∷ x ∷ xs

-- slices.Sort(xs)
unfoldable pub sort : List Str → List Str
unfolding insert_sorted str_lt
sort [] = []
sort (x ∷ xs) = insert_sorted x (sort xs)

-- Puts an item in front unless its neighbour is the same.
unfoldable pub cons_compact : Str → List Str → List Str
cons_compact x [] = x ∷ []
cons_compact x (y ∷ ys) = if x == y then y ∷ ys else x ∷ y ∷ ys

-- slices.Compact(xs): every run of equal items becomes one item.
unfoldable pub compact : List Str → List Str
unfolding cons_compact
compact [] = []
compact (x ∷ xs) = cons_compact x (compact xs)

contains-insert_sorted :
    (x : Str) (xs : List Str) (v : Str)
    → contains (insert_sorted x xs) v ≡ (x == v || contains xs v)
unfolding contains insert_sorted
contains-insert_sorted x [] v = refl
contains-insert_sorted x (y ∷ xs) v = ground (arith, contains-insert_sorted x xs v)

-- Sorting keeps the items.
pub contains-sort : (xs : List Str) (v : Str) → contains (sort xs) v ≡ contains xs v
unfolding sort contains
contains-sort [] v = refl
contains-sort (x ∷ xs) v = ground (arith, contains-insert_sorted x (sort xs) v, contains-sort xs v)

contains-cons_compact :
    (x : Str) (xs : List Str) (v : Str) → contains (cons_compact x xs) v ≡ (x == v || contains xs v)
unfolding contains cons_compact
contains-cons_compact x [] v = refl
contains-cons_compact x (y ∷ ys) v = ground (arith, ==_iff x y)

-- Compacting keeps the items.
pub contains-compact : (xs : List Str) (v : Str) → contains (compact xs) v ≡ contains xs v
unfolding compact contains
contains-compact [] v = refl
contains-compact (x ∷ xs) v =
    ground (arith, contains-cons_compact x (compact xs) v, contains-compact xs v)

pub any-== : (v : Str) (xs : List Str) → any (λ x. x == v) xs ≡ contains xs v
unfolding any contains
any-== v [] = refl
any-== v (x ∷ xs) = ground (arith, any-== v xs)

pub any_of_contains :
    (p : Str → Bool) (v : Str) (xs : List Str) → contains xs v ≡ true → p v ≡ true → any p xs ≡ true
unfolding any contains
any_of_contains p v [] h e = cc
any_of_contains p v (x ∷ xs) h e = ground (arith, ==_iff x v, any_of_contains p v xs)

pub contains-flat_map {ℓ} :
    {A : Type ℓ} (f : A → List Str) (v : Str) (xs : List A)
    → contains (flat_map f xs) v ≡ any (λ x. contains (f x) v) xs
unfolding any flat_map contains
contains-flat_map f v [] = refl
contains-flat_map f v (x ∷ xs) =
    ground (arith, contains-append (f x) (flat_map f xs) v, contains-flat_map f v xs)

pub contains-map {ℓ} :
    {A : Type ℓ} (f : A → Str) (v : Str) (xs : List A)
    → contains (map f xs) v ≡ any (λ x. f x == v) xs
unfolding any contains
contains-map f v [] = refl
contains-map f v (x ∷ xs) = ground (arith, contains-map f v xs)

-- An item that passes the test.
pub found_of_any :
    (p : Str → Bool) (xs : List Str)
    → any p xs ≡ true
    → (v : Str) × (contains xs v ≡ true) × (p v ≡ true)
unfolding any contains
found_of_any p [] h = cc
found_of_any p (x ∷ xs) h = elim (Bool-cases (p x)) [
  | inl here ↦ (x, ground (arith, ==_iff x x), here)
  | inr gone ↦ let (v, there, e) = found_of_any p xs (ground arith) in (v, ground (arith, there), e)
]

-- A test of some item depends on which items there are, and not on their order.
pub any_same :
    (p : Str → Bool) (xs ys : List Str)
    → ((v : Str) → contains xs v ≡ contains ys v)
    → any p xs ≡ any p ys
any_same p xs ys h =
    Bool_ext (any p xs) (any p ys)
      (λ e.
        let (v, there, passes) = found_of_any p xs e in
        any_of_contains p v ys (sym (h v) ∙ there) passes)
      (λ e.
        let (v, there, passes) = found_of_any p ys e in any_of_contains p v xs (h v ∙ there) passes)

pub All_contains {κ} :
    (P : Str → Type κ) (xs : List Str) (v : Str) → All P xs → contains xs v ≡ true → P v
unfolding contains
All_contains P [] v h c = absurd (ground arith)
All_contains P (x ∷ xs) v h c = elim (Bool-cases (x == v)) [
  | inl same ↦ subst P ((==_iff x v).0 same) h.0
  | inr other ↦ All_contains P xs v h.1 (ground arith)
]
