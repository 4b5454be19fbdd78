-- ===== src/RoleBinding.antt =====
-- internal/controller/dynamicrolebinding_sync.go: the selectors of a DynamicRoleBinding, and SyncTarget
-- and DeleteTargets of its controller.
pub mod Types
pub mod Selectors
pub mod Accounts
pub mod Plan
pub mod Owned
pub mod Updates
pub mod Store
pub mod Deletion
use kuberbac.Prelude.{
  Bool, true, false, not, ◌&&◌, Option, none, some, List, [], ◌∷◌, ◌++◌, ◌==◌, Str, if◌then◌else◌,
  any, contains, Outcome, ok, err, panic, Error, ApiError, api, wrapped,
}
use Prim.Native.String.{String}
use kuberbac.Exec.{Exec, ◌>>=◌, continue, pure, call, read, ignore_not_found, as_error, join_errors}
use kuberbac.GoMap.{GoMap}
use kuberbac.Globals.Subset.{is_subset}
use kuberbac.Resources.{reference_annotations}
use Types.{
  DynamicRoleBinding, RoleBinding, Write, update_cluster_role_binding, update_role_binding,
  delete_cluster_role_binding, delete_role_binding, Answer, found, failed, Api, Regexp,
}
use Plan.{Planned, plan, complementary, target_namespaces}

abbrev pub as_result : Option ApiError → Option Error
as_result none = none
as_result (some e) = some (api e)

-- What is left of a get's error when "not found" is not one.
abbrev pub get_error : Answer → Option ApiError
get_error (found b) = none
get_error (failed e) = ignore_not_found (some e)

-- The ClusterRoleBinding that was found, if any, does not carry the reference annotations.
abbrev pub is_foreign : GoMap Str → Answer → Bool
is_foreign owner (found b) = not (is_subset owner b.annotations)
is_foreign owner (failed e) = false

-- There is a RoleBinding of that name and namespace that lacks one of the binding's annotations.
unfoldable pub is_taken : RoleBinding → Str → RoleBinding → Bool
is_taken binding namespace existent =
    (existent.namespace == namespace && existent.name == binding.name)
    && not (is_subset binding.annotations existent.annotations)

-- The last call's error, as the loop leaves it in `err`.
abbrev pub deletion_error : Option ApiError → Option Error
deletion_error none = none
deletion_error (some e) = some (wrapped "error deleting not needed rolebindings: %s" (api e))

abbrev pub collect : String → Option ApiError → List (String × ApiError) → List (String × ApiError)
collect text none errors = errors
collect text (some e) errors = (text, e) ∷ errors

module _ (client : Api) where
  -- The branch for `clusterScoped`.
  unfoldable pub sync_cluster_role_binding : GoMap Str → RoleBinding → Exec Write (Option Error)
  sync_cluster_role_binding owner binding writes =
      let answer = client.get_cluster_role_binding writes binding.name in
      elim (get_error answer) [
        | some e ↦ pure (some (api e)) writes
        | none ↦
            if is_foreign owner answer
            then pure none writes
            else (do
              e ← call client.answer (update_cluster_role_binding binding)
              pure (as_result e))
                writes
      ]

  -- The loop over the targeted namespaces; `last` is what `err` holds.
  unfoldable pub update_role_bindings :
      RoleBinding → List RoleBinding → List Str → Option Error → Exec Write (Option Error)
  update_role_bindings binding existent [] last = pure last
  update_role_bindings binding existent (namespace ∷ namespaces) last =
      if any (is_taken binding namespace) existent
      then update_role_bindings binding existent namespaces last
      else (do
        e ← call client.answer (update_role_binding (record binding { namespace = namespace }))
        update_role_bindings binding existent namespaces (as_result e))

  -- The loop over the existent RoleBindings, which deletes the owned ones outside the targets.
  unfoldable pub remove_abandoned :
      GoMap Str → List Str → List RoleBinding → Option Error → Exec Write (Option Error)
  remove_abandoned owner namespaces [] last = pure last
  remove_abandoned owner namespaces (binding ∷ bindings) last =
      if is_subset owner binding.annotations && contains namespaces binding.namespace
      then (do
        e ← call client.answer (delete_role_binding binding)
        remove_abandoned owner namespaces bindings (deletion_error e))
      else remove_abandoned owner namespaces bindings last

  -- The rest of SyncTarget, once the subjects are known.
  unfoldable pub apply_plan : Regexp → DynamicRoleBinding → Planned → Exec Write (Option Error)
  apply_plan regexp resource p =
      if resource.targets.cluster_scoped
      then sync_cluster_role_binding (reference_annotations resource.meta) p.binding
      else (do
        existent ← read client.list_role_bindings
        targeted ← read (λ writes. target_namespaces regexp p.namespaces resource)
        last ← update_role_bindings p.binding existent targeted none
        remove_abandoned (reference_annotations resource.meta) (complementary p.namespaces targeted)
            existent last)

  -- SyncTarget: the error that it returns, if any.
  unfoldable pub sync_target : Regexp → DynamicRoleBinding → Exec Write (Option Error)
  sync_target regexp resource writes =
      as_error (continue (plan client regexp resource writes) (apply_plan regexp resource) writes)

  -- A loop of DeleteTargets.
  unfoldable pub delete_owned :
      GoMap Str
      → String
      → (RoleBinding → Write)
      → List RoleBinding
      → Exec Write (List (String × ApiError))
  delete_owned owner text delete [] = pure []
  delete_owned owner text delete (binding ∷ items) =
      if is_subset owner binding.annotations
      then (do
        e ← call client.answer (delete binding)
        errors ← delete_owned owner text delete items
        pure (collect text (ignore_not_found e) errors))
      else delete_owned owner text delete items

  -- DeleteTargets: the error that it returns, if any.
  unfoldable pub delete_targets : DynamicRoleBinding → Exec Write (Option Error)
  delete_targets resource writes = as_error (
      (do
        cluster_role_bindings ← read client.list_cluster_role_bindings
        errors ←
            delete_owned (reference_annotations resource.meta)
              "error deleting ClusterRoleBinding: %s" delete_cluster_role_binding
              cluster_role_bindings
        role_bindings ← read client.list_role_bindings
        more ←
            delete_owned (reference_annotations resource.meta) "error deleting RoleBinding: %s"
              delete_role_binding role_bindings
        pure (join_errors (errors ++ more)))
        writes)
