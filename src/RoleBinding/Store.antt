-- ===== src/RoleBinding/Store.antt =====
-- A cluster that keeps RoleBindings: what the API server documents of updates, deletions and lists while
-- every call but the deletion of a missing object succeeds. An update of an object of the RBAC group that is not there creates it.
pub mod Writes
pub mod Converge
pub mod Memory
use kuberbac.Prelude.{
  not, ◌≡◌, Bool, true, false, ◌&&◌, Option, none, some, List, [], ◌∷◌, ◌++◌, Str, ◌==◌, any,
  if◌then◌else◌, ok,
}
use kuberbac.GoMap.{GoMap}
use kuberbac.Globals.Subset.{is_subset}
use kuberbac.RoleBinding.Types.{RoleBinding, Write, update_role_binding, delete_role_binding, Api}

abbrev pub is_at : Str → Str → RoleBinding → Bool
is_at namespace name b = b.namespace == namespace && b.name == name

abbrev pub passes : (RoleBinding → Bool) → Option RoleBinding → Bool
passes test none = false
passes test (some b) = test b

abbrev pub is_present : Option RoleBinding → Bool
is_present found = passes (λ b. true) found

-- A RoleBinding that lacks one of the annotations.
abbrev pub lacks : GoMap Str → RoleBinding → Bool
lacks annotations b = not (is_subset annotations b.annotations)

-- A RoleBinding that carries the annotations.
abbrev pub carries : GoMap Str → RoleBinding → Bool
carries annotations b = is_subset annotations b.annotations

-- No two RoleBindings share a namespace and a name.
abbrev pub AreUnique : List RoleBinding → Type 0
AreUnique [] = Unit
AreUnique (b ∷ bindings) = (any (is_at b.namespace b.name) bindings ≡ false) × AreUnique bindings

pub record IsStore (client : Api) : Type 0 where
  -- The RoleBinding of a namespace and a name, and all of them, after some writes.
  pub get : List Write → Str → Str → Option RoleBinding
  pub bindings : List Write → List RoleBinding
  pub updates :
      (writes : List Write) (b : RoleBinding) → client.answer writes (update_role_binding b) ≡ none
  pub deletes :
      (writes : List Write) (b : RoleBinding)
      → is_present (get writes b.namespace b.name) ≡ true
      → client.answer writes (delete_role_binding b) ≡ none
  pub lists : (writes : List Write) → client.list_role_bindings writes ≡ ok (bindings writes)
  -- The list has each RoleBinding once.
  pub unique : (writes : List Write) → AreUnique (bindings writes)
  pub listed :
      (writes : List Write) (namespace name : Str) (test : RoleBinding → Bool)
      → any (λ b. is_at namespace name b && test b) (bindings writes)
        ≡ passes test (get writes namespace name)
  pub get-update :
      (writes : List Write) (b : RoleBinding) (namespace name : Str)
      → get (writes ++ update_role_binding b ∷ []) namespace name
        ≡ (if is_at namespace name b then some b else get writes namespace name)
  pub get-delete :
      (writes : List Write) (b : RoleBinding) (namespace name : Str)
      → get (writes ++ delete_role_binding b ∷ []) namespace name
        ≡ (if is_at namespace name b then none else get writes namespace name)
