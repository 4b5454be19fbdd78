-- ===== src/ClusterRole/Delete.antt =====
-- What DeleteTargets of the DynamicClusterRole controller deletes.
use kuberbac.Prelude.{
  Option, none, some, ◌≡◌, refl, List, [], ◌∷◌, ◌++◌, map, Str, if◌then◌else◌, Outcome, ok, err,
  panic, ApiError, Bool-cases, inl, inr,
}
use Prim.Native.String.{String}
use mathlib.Core.List.{append-nil, append_assoc}
use kuberbac.Exec.{
  ignore_not_found, with_failure, join_errors, as_error, after_list, continue, ◌>>=◌, pure,
}
use kuberbac.GoMap.{GoMap}
use kuberbac.Globals.Subset.{is_subset}
use kuberbac.Resources.{reference_annotations, DynamicClusterRole}
use kuberbac.ClusterRole.Types.{ClusterRole, Write, delete_cluster_role, Api}
use kuberbac.ClusterRole.{collect, delete_owned, delete_targets}

-- The objects that carry all the annotations.
unfoldable pub owned : GoMap Str → List ClusterRole → List ClusterRole
owned owner [] = []
owned owner (item ∷ items) =
    let rest = owned owner items in if is_subset owner item.annotations then item ∷ rest else rest

-- The errors, other than "not found", with which the API answers some deletions in turn.
unfoldable pub failures : Api → List Write → List ClusterRole → List (String × ApiError)
failures client writes [] = []
failures client writes (item ∷ items) =
    with_failure "error deleting ClusterRoleBinding: %s"
      (client.answer writes (delete_cluster_role item))
      (failures client (writes ++ delete_cluster_role item ∷ []) items)

collect-ignore_not_found :
    (e : Option ApiError) (errors : List (String × ApiError))
    → collect (ignore_not_found e) errors
      ≡ with_failure "error deleting ClusterRoleBinding: %s" e errors
collect-ignore_not_found none errors = refl
collect-ignore_not_found (some ApiError.not_found) errors = refl
collect-ignore_not_found (some (ApiError.refused code)) errors = refl

module _ (client : Api) (owner : GoMap Str) where
  delete_owned_lem :
      (items : List ClusterRole) (writes : List Write)
      → delete_owned client owner items writes ≡ (
        ok (failures client writes (owned owner items)),
        writes ++ map delete_cluster_role (owned owner items),
      )
  unfolding delete_owned owned failures
  delete_owned_lem [] writes = rw (append-nil writes)
  delete_owned_lem (item ∷ items) writes = elim (Bool-cases (is_subset owner item.annotations)) [
    | inl mine ↦ rw (
      mine,
      delete_owned_lem items (writes ++ delete_cluster_role item ∷ []),
      collect-ignore_not_found,
      append_assoc,
    )
    | inr other ↦ rw other (delete_owned_lem items writes)
  ]

after_list-delete :
    (client : Api) (resource : DynamicClusterRole) (writes : List Write)
    (listed : Outcome (List ClusterRole))
    → as_error (
        continue listed
          (λ items. delete_owned client (reference_annotations resource.meta) items >>= λ errors.
            pure (join_errors errors))
          writes)
      ≡ after_list listed writes (λ items. (
        ok (
            join_errors
              (failures client writes (owned (reference_annotations resource.meta) items))),
        writes ++ map delete_cluster_role (owned (reference_annotations resource.meta) items),
      ))
after_list-delete client resource writes (ok items) =
    rw (delete_owned_lem client (reference_annotations resource.meta) items writes)
after_list-delete client resource writes (err e) = refl
after_list-delete client resource writes panic = refl

-- DeleteTargets asks the API to delete each listed ClusterRole that carries the owner's four reference
-- annotations and no other one, in the order of the list and past every failure, and returns the
-- failures other than "not found" joined, or no error if there are none. If the list call fails it
-- deletes nothing and returns that error.
pub delete_targets_lem :
    (client : Api) (resource : DynamicClusterRole) (writes : List Write)
    → delete_targets client resource writes
      ≡ after_list (client.list_cluster_roles writes) writes (λ items. (
        ok (
            join_errors
              (failures client writes (owned (reference_annotations resource.meta) items))),
        writes ++ map delete_cluster_role (owned (reference_annotations resource.meta) items),
      ))
unfolding delete_targets
delete_targets_lem client resource writes =
    after_list-delete client resource writes (client.list_cluster_roles writes)
