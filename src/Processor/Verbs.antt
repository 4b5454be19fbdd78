-- ===== src/Processor/Verbs.antt =====
-- GetSurvivingVerbs of internal/controller/dynamicclusterrole_sync.go: the allowed verbs that are not
-- denied, by a map that counts them.
pub mod Laws
use kuberbac.Prelude.{ℕ, ◌+◌, Option, none, some, List, [], ◌∷◌, Str, eqb, if◌then◌else◌}
use mathlib.Core.Option.{get_or}
use kuberbac.GoMap.{GoMap, lookup, insert, keys, Occasion, Range}

-- The first loop.
allow_verbs : List Str → GoMap ℕ → GoMap ℕ
allow_verbs [] tmp_map = tmp_map
allow_verbs (v ∷ vs) tmp_map = allow_verbs vs (insert v 1 tmp_map)

-- `tmpMap[v] = tmpMap[v] + 1` for a verb that is there.
raise : Str → Option ℕ → GoMap ℕ → GoMap ℕ
raise v none tmp_map = tmp_map
raise v (some n) tmp_map = insert v (n + 1) tmp_map

-- The second loop.
deny_verbs : List Str → GoMap ℕ → GoMap ℕ
unfolding raise
deny_verbs [] tmp_map = tmp_map
deny_verbs (v ∷ vs) tmp_map = deny_verbs vs (raise v (lookup v tmp_map) tmp_map)

-- The third loop, over the keys in the order of the run.
collect : List Str → GoMap ℕ → List Str
collect [] tmp_map = []
collect (k ∷ ks) tmp_map =
    let rest = collect ks tmp_map in if eqb (get_or (lookup k tmp_map) 0) 1 then k ∷ rest else rest

unfoldable pub get_surviving_verbs : Range → Occasion → List Str → List Str → List Str
unfolding allow_verbs deny_verbs collect
get_surviving_verbs range o allow deny =
    let tmp_map = deny_verbs deny (allow_verbs allow []) in collect (range o (keys tmp_map)) tmp_map
