-- ===== src/Processor/Keys.antt =====
-- The keys of the rule maps, as the targets that they stand for, and which targets a deny rule is about.
-- No code stands for these functions: they say what the texts of dynamicclusterrole_sync.go mean.
pub mod Covers
pub mod Evaluation
pub mod Kept
pub mod Fewer
pub mod Values
pub mod Touched
use kuberbac.Prelude.{
  ◌≡◌, ◌≢◌, Bool, false, ◌&&◌, List, [], Str, ◌==◌, Lacks, has_prefix, has_suffix, trim_suffix,
  if◌then◌else◌,
}
use kuberbac.Processor.Targets.{Target, url, generic, named}
use kuberbac.Processor.RuleMap.{hash, nonresourceurl, url_key, resource_key}
use kuberbac.Processor.Evaluate.{asterisk}

-- The key of a target.
abbrev pub key_of : Target → Str
key_of (url u) = url_key u
key_of (generic group resource) = resource_key group resource []
key_of (named group resource name) = resource_key group resource name

-- The names of groups and resources of Kubernetes: no "#" in them, and no group is called as the
-- keys of URLs begin. An object's name is not empty and has no "#".
abbrev pub IsKeyable : Target → Type 0
IsKeyable (url u) = Unit
IsKeyable (generic group resource) =
    Lacks hash group × (has_prefix group nonresourceurl ≡ false) × Lacks hash resource
IsKeyable (named group resource name) =
    Lacks hash group
    × (has_prefix group nonresourceurl ≡ false)
    × Lacks hash resource
    × Lacks hash name
    × (name ≢ [])

-- A deny rule for the first target is about an allow rule for the second.
unfoldable pub covers : Target → Target → Bool
covers (url u) (url w) =
    if has_suffix u asterisk then has_prefix w (trim_suffix u asterisk) else u == w
covers (generic g r) (generic g' r') = g == g' && r == r'
covers (generic g r) (named g' r' n') = g == g' && r == r'
covers (named g r n) (named g' r' n') = g == g' && r == r' && n == n'
covers _ _ = false
