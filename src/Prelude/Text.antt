-- ===== src/Prelude/Text.antt =====
-- Go's `string` as the list of its bytes, and what the program uses of the package `strings`.
use Prim.Native.Nat.{ℕ}
use Prim.Native.Char.{code}
use Prim.Native.String.{String}
use mathlib.Core.Path.{◌≡◌, refl}
use mathlib.Core.Logic.{◌↔◌, ◌≢◌}
use mathlib.Core.Bool.{Bool, true, false, ◌&&◌, ◌||◌}
use mathlib.Core.List.{List, [], ◌∷◌, ◌++◌}
use native.Mathlib.Omega.{arith}
use kuberbac.Prelude.Tests.{eqb, eqb_iff, if◌then◌else◌}

abbrev pub Str : Type 0
Str = List ℕ

-- A literal of the source, as its bytes: every literal of the program is ASCII.
abbrev pub lit : String → Str
lit String.[] = []
lit (String.◌∷◌ c s) = code c ∷ lit s

infix 50 ◌==◌
unfoldable pub ◌==◌ : Str → Str → Bool
[] == [] = true
(a ∷ s) == (b ∷ t) = eqb a b && s == t
[] == (b ∷ t) = false
(a ∷ s) == [] = false

pub ==_iff : (s t : Str) → ((s == t) ≡ true) ↔ (s ≡ t)
unfolding ◌==◌
==_iff [] [] = ground arith
==_iff (a ∷ s) (b ∷ t) = ground (arith, eqb_iff a b, ==_iff s t)
==_iff [] (b ∷ t) = ground arith
==_iff (a ∷ s) [] = ground arith

pub ==_refl : (s : Str) → (s == s) ≡ true
==_refl s = (==_iff s s).1 refl

pub ==_comm : (s t : Str) → (s == t) ≡ (t == s)
==_comm s t = ground (arith, ==_iff s t, ==_iff t s)

-- strings.HasPrefix(s, prefix)
unfoldable pub has_prefix : Str → Str → Bool
has_prefix s [] = true
has_prefix [] (b ∷ p) = false
has_prefix (a ∷ s) (b ∷ p) = eqb a b && has_prefix s p

pub has_prefix-nil : (s : Str) → has_prefix s [] ≡ true
unfolding has_prefix
has_prefix-nil s = refl

-- strings.HasSuffix(s, suffix)
unfoldable pub has_suffix : Str → Str → Bool
unfolding ◌==◌
has_suffix [] suffix = [] == suffix
has_suffix (a ∷ s) suffix = (a ∷ s) == suffix || has_suffix s suffix

-- strings.TrimSuffix(s, suffix)
unfoldable pub trim_suffix : Str → Str → Str
unfolding ◌==◌
trim_suffix [] suffix = []
trim_suffix (a ∷ s) suffix = if (a ∷ s) == suffix then [] else a ∷ trim_suffix s suffix

-- Puts a byte in front of the first part.
unfoldable pub extend : ℕ → List Str → List Str
extend a [] = (a ∷ []) ∷ []
extend a (part ∷ parts) = (a ∷ part) ∷ parts

-- strings.Split(s, sep) for a separator of one byte: never the empty list.
unfoldable pub split : ℕ → Str → List Str
unfolding extend
split sep [] = [] ∷ []
split sep (a ∷ s) = let rest = split sep s in if eqb a sep then [] ∷ rest else extend a rest

-- strings.Join(parts, sep)
unfoldable pub join : ℕ → List Str → Str
join sep [] = []
join sep (part ∷ []) = part
join sep (part ∷ next ∷ parts) = part ++ sep ∷ join sep (next ∷ parts)

-- The byte does not stand in the text.
abbrev pub Lacks : ℕ → Str → Type 0
Lacks sep [] = Unit
Lacks sep (a ∷ s) = (a ≢ sep) × Lacks sep s

pub has_prefix-append : (p s : Str) → has_prefix (p ++ s) p ≡ true
unfolding has_prefix
has_prefix-append [] s = refl
has_prefix-append (a ∷ p) s = ground (arith, has_prefix-append p s, eqb_iff a a)

pub has_prefix-append_both : (s p t : Str) → has_prefix (p ++ s) (p ++ t) ≡ has_prefix s t
unfolding has_prefix
has_prefix-append_both s [] t = refl
has_prefix-append_both s (a ∷ p) t = ground (arith, has_prefix-append_both s p t, eqb_iff a a)

pub split_of_Lacks : (sep : ℕ) (s : Str) → Lacks sep s → split sep s ≡ s ∷ []
unfolding split
split_of_Lacks sep [] h = refl
split_of_Lacks sep (a ∷ s) h = ground (arith, split_of_Lacks sep s h.1, eqb_iff a sep)

-- The part in front of the first separator is split off.
pub split-append : (sep : ℕ) (s t : Str) → Lacks sep s → split sep (s ++ sep ∷ t) ≡ s ∷ split sep t
unfolding split
split-append sep [] t h = ground (arith, eqb_iff sep sep)
split-append sep (a ∷ s) t h = ground (arith, split-append sep s t h.1, eqb_iff a sep)

pub split-ne-nil : (sep : ℕ) (s : Str) → split sep s ≢ []
unfolding split
split-ne-nil sep [] = cc
split-ne-nil sep (a ∷ s) = ground (arith, split-ne-nil sep s)

join-cons : (sep : ℕ) (parts : List Str) → parts ≢ [] → join sep ([] ∷ parts) ≡ sep ∷ join sep parts
unfolding join
join-cons sep [] h = absurd (h refl)
join-cons sep (p ∷ parts) h = refl

join-extend : (sep a : ℕ) (parts : List Str) → join sep (extend a parts) ≡ a ∷ join sep parts
unfolding join extend
join-extend sep a [] = refl
join-extend sep a (p ∷ []) = refl
join-extend sep a (p ∷ q ∷ parts) = refl

-- Joining the parts of a split text gives the text back.
pub join-split : (sep : ℕ) (s : Str) → join sep (split sep s) ≡ s
unfolding split
join-split sep [] = unfold join in refl
join-split sep (a ∷ s) = ground (
  arith,
  eqb_iff a sep,
  join-split sep s,
  join-cons sep (split sep s) (split-ne-nil sep s),
  join-extend sep a (split sep s),
)

-- No part of a split text holds the separator.
abbrev pub AllLack : ℕ → List Str → Type 0
AllLack sep [] = Unit
AllLack sep (part ∷ parts) = Lacks sep part × AllLack sep parts

AllLack-extend :
    (sep a : ℕ) (parts : List Str) → a ≢ sep → AllLack sep parts → AllLack sep (extend a parts)
unfolding extend
AllLack-extend sep a [] n h = ((n, tt), tt)
AllLack-extend sep a (part ∷ parts) n h = ((n, h.0), h.1)

pub AllLack-split : (sep : ℕ) (s : Str) → AllLack sep (split sep s)
unfolding split
AllLack-split sep [] = (tt, tt)
AllLack-split sep (a ∷ s) =
    ground (arith, eqb_iff a sep, AllLack-split sep s, AllLack-extend sep a (split sep s))

-- Texts made of a part without the separator, the separator and a rest are compared part by part.
pub has_prefix-segment :
    (sep : ℕ) (a b s t : Str)
    → Lacks sep a
    → Lacks sep b
    → has_prefix (a ++ sep ∷ s) (b ++ sep ∷ t) ≡ (a == b && has_prefix s t)
unfolding has_prefix ◌==◌
has_prefix-segment sep [] [] s t h k = ground (arith, eqb_iff sep sep)
has_prefix-segment sep [] (y ∷ b) s t h k = ground (arith, eqb_iff sep y, k.0)
has_prefix-segment sep (x ∷ a) [] s t h k = ground (arith, eqb_iff x sep, h.0)
has_prefix-segment sep (x ∷ a) (y ∷ b) s t h k =
    ground (arith, has_prefix-segment sep a b s t h.1 k.1)

pub ==-segment :
    (sep : ℕ) (a b s t : Str)
    → Lacks sep a
    → Lacks sep b
    → ((a ++ sep ∷ s) == (b ++ sep ∷ t)) ≡ (a == b && s == t)
unfolding ◌==◌
==-segment sep [] [] s t h k = ground (arith, eqb_iff sep sep)
==-segment sep [] (y ∷ b) s t h k = ground (arith, eqb_iff sep y, k.0)
==-segment sep (x ∷ a) [] s t h k = ground (arith, eqb_iff x sep, h.0)
==-segment sep (x ∷ a) (y ∷ b) s t h k = ground (arith, ==-segment sep a b s t h.1 k.1)

-- A prefix without the separator ends in front of it.
pub has_prefix-before :
    (sep : ℕ) (s t p : Str) → Lacks sep p → has_prefix (s ++ sep ∷ t) p ≡ has_prefix s p
unfolding has_prefix
has_prefix-before sep [] t [] h = refl
has_prefix-before sep [] t (b ∷ p) h = ground (arith, eqb_iff sep b)
has_prefix-before sep (a ∷ s) t [] h = refl
has_prefix-before sep (a ∷ s) t (b ∷ p) h = ground (arith, has_prefix-before sep s t p h.1)

pub has_prefix_weaken : (s p q : Str) → has_prefix s (p ++ q) ≡ true → has_prefix s p ≡ true
unfolding has_prefix
has_prefix_weaken s [] q h = refl
has_prefix_weaken [] (b ∷ p) q h = cc
has_prefix_weaken (a ∷ s) (b ∷ p) q h = ground (arith, has_prefix_weaken s p q)

pub has_prefix_refl : (s : Str) → has_prefix s s ≡ true
unfolding has_prefix
has_prefix_refl [] = refl
has_prefix_refl (a ∷ s) = ground (arith, eqb_iff a a, has_prefix_refl s)
