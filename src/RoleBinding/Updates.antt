-- ===== src/RoleBinding/Updates.antt =====
-- Which RoleBindings SyncTarget of the DynamicRoleBinding controller updates.
use kuberbac.Globals.Subset.{is_subset}
use kuberbac.Prelude.{
  refl, arith, not, ◌&&◌, Bool, ◌==◌, ◌≡◌, ◌∙◌, Bool-cases, inl, inr, Option, List, [], ◌∷◌, ◌++◌,
  map, Str, any, if◌then◌else◌, Error,
}
use mathlib.Core.List.{append-nil, append_assoc}
use kuberbac.RoleBinding.Types.{RoleBinding, Write, update_role_binding, Api}
use kuberbac.RoleBinding.{is_taken, update_role_bindings, as_result}

-- The RoleBinding is at the namespace, has the binding's name and lacks one of its annotations.
abbrev pub is_foreign_at : RoleBinding → Str → RoleBinding → Bool
is_foreign_at binding namespace b =
    (b.namespace == namespace && b.name == binding.name)
    && not (is_subset binding.annotations b.annotations)

pub any-is_taken :
    (binding : RoleBinding) (namespace : Str) (existent : List RoleBinding)
    → any (is_taken binding namespace) existent ≡ any (is_foreign_at binding namespace) existent
unfolding any is_taken
any-is_taken binding namespace [] = refl
any-is_taken binding namespace (b ∷ existent) =
    ground (arith, any-is_taken binding namespace existent)

-- The binding in each namespace that has no RoleBinding of its name without its annotations.
unfoldable pub placed : RoleBinding → List RoleBinding → List Str → List RoleBinding
placed binding existent [] = []
placed binding existent (namespace ∷ namespaces) =
    let rest = placed binding existent namespaces in
    if any (is_foreign_at binding namespace) existent
    then rest
    else record binding { namespace = namespace } ∷ rest

-- Whatever the API answers, the loop over the targeted namespaces updates the binding in each of them
-- in turn, past every failure, but for those in which a RoleBinding of the same name lacks one of the
-- binding's annotations.
pub update_role_bindings-placed :
    (client : Api) (binding : RoleBinding) (existent : List RoleBinding) (namespaces : List Str)
    (last : Option Error) (writes : List Write)
    → (update_role_bindings client binding existent namespaces last writes).1
      ≡ writes ++ map update_role_binding (placed binding existent namespaces)
unfolding update_role_bindings placed
update_role_bindings-placed client binding existent [] last writes = rw (append-nil writes)
update_role_bindings-placed client binding existent (namespace ∷ namespaces) last writes =
    elim (Bool-cases (any (is_foreign_at binding namespace) existent)) [
      | inl taken ↦
          rw (any-is_taken, taken)
            (update_role_bindings-placed client binding existent namespaces last writes)
      | inr free ↦
          let b : RoleBinding = record binding { namespace = namespace } in
          rw (any-is_taken, free)
            (update_role_bindings-placed client binding existent namespaces
                (as_result (client.answer writes (update_role_binding b)))
                (writes ++ update_role_binding b ∷ [])
              ∙ append_assoc writes _ _)
    ]
