-- ===== src/Processor/Keys/Covers.antt =====
-- The tests that the code makes on keys decide which targets a deny rule is about.
use kuberbac.Prelude.{==_comm, ==_refl, has_prefix-nil}
use kuberbac.Prelude.{
  ◌≡◌, ◌≢◌, refl, ◌∙◌, true, false, ◌&&◌, [], ◌∷◌, ◌++◌, arith, some, Str, ◌==◌, ==_iff, Lacks,
  has_prefix, has_suffix, trim_suffix, split, get_elem?, has_prefix-segment, ==-segment,
  has_prefix-before, has_prefix_weaken, has_prefix_refl, split_of_Lacks, split-append,
  if◌then◌else◌, ap,
}
use kuberbac.Processor.Targets.{Target, url, generic, named}
use kuberbac.Processor.RuleMap.{hash, nonresourceurl, url_key, resource_key}
use kuberbac.Processor.Evaluate.{asterisk}
use kuberbac.Processor.Evaluate.Laws.{covers_key}
use kuberbac.Processor.Keys.{key_of, IsKeyable, covers}

nonresourceurl-Lacks : Lacks hash nonresourceurl
nonresourceurl-Lacks = omega arith

pub resource_key_not_url :
    (g s : Str) → has_prefix (g ++ hash ∷ s) nonresourceurl ≡ has_prefix g nonresourceurl
resource_key_not_url g s = has_prefix-before hash g s nonresourceurl nonresourceurl-Lacks

pub url_key_is_url : (u : Str) → has_prefix (url_key u) nonresourceurl ≡ true
unfolding has_prefix
url_key_is_url u = refl

-- No group is called "nonresourceurl".
group_ne : (g : Str) → has_prefix g nonresourceurl ≡ false → g ≢ nonresourceurl
group_ne g h e = cc (has_prefix_refl nonresourceurl, e)

pub third_part :
    (g r n : Str)
    → Lacks hash g
    → Lacks hash r
    → Lacks hash n
    → get_elem? (split hash (resource_key g r n)) 2 ≡ some n
third_part g r n hg hr hn =
    rw (split-append hash g (r ++ hash ∷ n) hg, split-append hash r n hr, split_of_Lacks hash n hn)

trim_url_key :
    (u : Str)
    → has_suffix (url_key u) asterisk ≡ true
    → trim_suffix (url_key u) asterisk ≡ nonresourceurl ++ trim_suffix (hash ∷ u) asterisk
unfolding has_suffix trim_suffix ◌==◌
trim_url_key u h = refl

-- A URL's deny key.
covers_key-url : (u w : Str) → covers_key (url_key u) (url_key w) ≡ covers (url u) (url w)
unfolding covers_key covers has_prefix has_suffix trim_suffix ◌==◌
covers_key-url u w = refl

covers_key-url_resource :
    (u g s : Str)
    → has_prefix g nonresourceurl ≡ false
    → covers_key (url_key u) (g ++ hash ∷ s) ≡ false
unfolding covers_key
covers_key-url_resource u g s h = ground (
  arith,
  url_key_is_url u,
  resource_key_not_url g s,
  ==_iff (url_key u) (g ++ hash ∷ s),
  has_prefix_weaken (g ++ hash ∷ s) nonresourceurl (trim_suffix (hash ∷ u) asterisk),
  trim_url_key u,
)

-- A deny key of a resource.
module _ (g r n k : Str) (hg : Lacks hash g) (hu : has_prefix g nonresourceurl ≡ false)
    (hr : Lacks hash r) (hn : Lacks hash n) where
  covers_key-resource :
      covers_key (resource_key g r n) k
      ≡ (if n == [] then has_prefix k (resource_key g r n) else resource_key g r n == k)
  unfolding covers_key
  covers_key-resource = rw (resource_key_not_url g (r ++ hash ∷ n), hu, third_part g r n hg hr hn)

-- The keys of resources and names, compared.
module _ (g r n g' r' n' : Str) (hg : Lacks hash g) (hr : Lacks hash r) (hg' : Lacks hash g')
    (hr' : Lacks hash r') where
  pub resource_key-prefix :
      has_prefix (resource_key g' r' n') (resource_key g r n)
      ≡ (g' == g && (r' == r && has_prefix n' n))
  resource_key-prefix =
      has_prefix-segment hash g' g (r' ++ hash ∷ n') (r ++ hash ∷ n) hg' hg
      ∙ ap (λ b. g' == g && b) (has_prefix-segment hash r' r n' n hr' hr)

  pub resource_key-== :
      (resource_key g r n == resource_key g' r' n') ≡ (g == g' && (r == r' && n == n'))
  resource_key-== =
      ==-segment hash g g' (r ++ hash ∷ n) (r' ++ hash ∷ n') hg hg'
      ∙ ap (λ b. g == g' && b) (==-segment hash r r' n n' hr hr')

pub resource_key-url_prefix :
    (g s w : Str)
    → Lacks hash g
    → has_prefix g nonresourceurl ≡ false
    → (has_prefix (url_key w) (g ++ hash ∷ s) ≡ false) × ((g ++ hash ∷ s) == url_key w ≡ false)
resource_key-url_prefix g s w hg hu = (
  has_prefix-segment hash nonresourceurl g w s nonresourceurl-Lacks hg
      ∙ ground (arith, ==_iff nonresourceurl g, has_prefix_refl nonresourceurl),
  ==-segment hash g nonresourceurl s w hg nonresourceurl-Lacks
      ∙ ground (arith, ==_iff g nonresourceurl, has_prefix_refl nonresourceurl),
)

-- The tests that EvaluatePolicyRules makes on the text of a deny key and of an allow key (the prefix
-- "nonresourceurl", the final asterisk, the third part, prefix and equality) agree with the relation
-- between the targets: a URL is covered by the same URL, or by a prefix with an asterisk; a resource
-- and each of its objects by the resource of the same group; an object by itself.
pub covers_key-key_of :
    (d t : Target) → IsKeyable d → IsKeyable t → covers_key (key_of d) (key_of t) ≡ covers d t
unfolding covers
covers_key-key_of (url u) (url w) h k = covers_key-url u w
covers_key-key_of (url u) (generic g' r') h k = covers_key-url_resource u g' _ k.1
covers_key-key_of (url u) (named g' r' n') h k = covers_key-url_resource u g' _ k.1
covers_key-key_of (generic g r) (url w) h k = ground (
  arith,
  covers_key-resource g r [] (url_key w) h.0 h.1 h.2 tt,
  ==_refl [],
  resource_key-url_prefix g (r ++ hash ∷ []) w h.0 h.1,
)
covers_key-key_of (generic g r) (generic g' r') h k = ground (
  arith,
  covers_key-resource g r [] (resource_key g' r' []) h.0 h.1 h.2 tt,
  ==_refl [],
  resource_key-prefix g r [] g' r' [] h.0 h.2 k.0 k.2,
  has_prefix-nil [],
  ==_comm g g',
  ==_comm r r',
)
covers_key-key_of (generic g r) (named g' r' n') h k = ground (
  arith,
  covers_key-resource g r [] (resource_key g' r' n') h.0 h.1 h.2 tt,
  ==_refl [],
  resource_key-prefix g r [] g' r' n' h.0 h.2 k.0 k.2,
  has_prefix-nil n',
  ==_comm g g',
  ==_comm r r',
)
covers_key-key_of (named g r n) (url w) h k = ground (
  arith,
  covers_key-resource g r n (url_key w) h.0 h.1 h.2 h.3,
  ==_iff n [],
  h.4,
  resource_key-url_prefix g (r ++ hash ∷ n) w h.0 h.1,
)
covers_key-key_of (named g r n) (generic g' r') h k = ground (
  arith,
  covers_key-resource g r n (resource_key g' r' []) h.0 h.1 h.2 h.3,
  ==_iff n [],
  h.4,
  resource_key-== g r n g' r' [] h.0 h.2 k.0 k.2,
)
covers_key-key_of (named g r n) (named g' r' n') h k = ground (
  arith,
  covers_key-resource g r n (resource_key g' r' n') h.0 h.1 h.2 h.3,
  ==_iff n [],
  h.4,
  resource_key-== g r n g' r' n' h.0 h.2 k.0 k.2,
)
