-- ===== src/ClusterRole.antt =====
-- internal/controller/dynamicclusterrole_sync.go, the reconciler's part: SyncTarget and DeleteTargets of
-- the DynamicClusterRole controller.
pub mod Types
pub mod Plan
pub mod Delete
pub mod Sync
pub mod Scopes
pub mod Rules
pub mod Keeper
use Prim.Native.String.{String}
use kuberbac.Prelude.{
  Option, none, some, List, [], ◌∷◌, if◌then◌else◌, Outcome, ok, err, panic, Error, ApiError, api,
  wrapped, joined, Str,
}
use kuberbac.Exec.{Exec, ◌>>=◌, continue, pure, call, read, ignore_not_found, as_error, join_errors}
use kuberbac.GoMap.{GoMap, Range}
use kuberbac.Globals.Subset.{is_subset}
use kuberbac.Resources.{reference_annotations, DynamicClusterRole}
use Types.{ClusterRole, Write, update_cluster_role, delete_cluster_role, Api}
use Plan.{plan}

-- `break` at an error.
abbrev pub after_update : Option ApiError → Exec Write (Option Error) → Exec Write (Option Error)
after_update none rest = rest
after_update (some e) rest = pure (some (wrapped "error updating ClusterRole: %s" (api e)))

abbrev pub collect : Option ApiError → List (String × ApiError) → List (String × ApiError)
collect none errors = errors
collect (some e) errors = ("error deleting ClusterRoleBinding: %s", e) ∷ errors

module _ (client : Api) where
  -- The updates, until the first that fails.
  unfoldable pub update_cluster_roles : List ClusterRole → Exec Write (Option Error)
  update_cluster_roles [] = pure none
  update_cluster_roles (cluster_role ∷ cluster_roles) = do
    e ← call client.answer (update_cluster_role cluster_role)
    after_update e (update_cluster_roles cluster_roles)

  -- SyncTarget: the error that it returns, if any.
  unfoldable pub sync_target : Range → DynamicClusterRole → Exec Write (Option Error)
  sync_target range resource writes =
      as_error (continue (plan client range resource writes) update_cluster_roles writes)

  -- The deletions: each owned object, and the errors other than "not found".
  unfoldable pub delete_owned : GoMap Str → List ClusterRole → Exec Write (List (String × ApiError))
  delete_owned owner [] = pure []
  delete_owned owner (cluster_role ∷ items) =
      if is_subset owner cluster_role.annotations
      then (do
        e ← call client.answer (delete_cluster_role cluster_role)
        errors ← delete_owned owner items
        pure (collect (ignore_not_found e) errors))
      else delete_owned owner items

  -- DeleteTargets: the error that it returns, if any.
  unfoldable pub delete_targets : DynamicClusterRole → Exec Write (Option Error)
  delete_targets resource writes = as_error (
      (do
        items ← read client.list_cluster_roles
        errors ← delete_owned (reference_annotations resource.meta) items
        pure (join_errors errors))
        writes)
