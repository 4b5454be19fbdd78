-- ===== src/ClusterRole/Keeper/Gone.antt =====
-- What DeleteTargets of the DynamicClusterRole controller leaves in a cluster that may refuse calls.
use kuberbac.Prelude.{
  ok-injective, ◌≡◌, refl, ◌∙◌, sym, ap, Bool, true, false, ◌&&◌, Option, none, some, List, [], ◌∷◌,
  ◌++◌, arith, map, Str, any, if◌then◌else◌, Outcome, ok, err, panic, Error, ApiError,
}
use Prim.Native.String.{String}
use mathlib.Core.List.{append-nil, append_assoc}
use kuberbac.Exec.{is_gone, with_failure, join_errors, after_list}
use kuberbac.GoMap.{GoMap}
use kuberbac.Resources.{reference_annotations, DynamicClusterRole}
use kuberbac.ClusterRole.Types.{ClusterRole, Write, delete_cluster_role, Api}
use kuberbac.ClusterRole.{delete_targets}
use kuberbac.ClusterRole.Delete.{owned, failures, delete_targets_lem}
use kuberbac.ClusterRole.Keeper.{IsKeeper, is_named, passes, carries}

any-owned :
    (owner : GoMap Str) (test : ClusterRole → Bool) (roles : List ClusterRole)
    → any test (owned owner roles) ≡ any (λ role. test role && carries owner role) roles
unfolding any owned
any-owned owner test [] = refl
any-owned owner test (role ∷ roles) = ground (arith, any-owned owner test roles)

with_failure-nil :
    (e : Option ApiError) (errors : List (String × ApiError))
    → with_failure "error deleting ClusterRoleBinding: %s" e errors ≡ []
    → (is_gone e ≡ true) × (errors ≡ [])
with_failure-nil none errors h = (refl, h)
with_failure-nil (some ApiError.not_found) errors h = (refl, h)
with_failure-nil (some (ApiError.refused code)) errors h = cc

join_errors-nil : (errors : List (String × ApiError)) → join_errors errors ≡ none → errors ≡ []
join_errors-nil [] h = refl
join_errors-nil (e ∷ errors) h = cc

module _ {client : Api} (k : IsKeeper client) (name : Str) where
  get-deletions :
      (items : List ClusterRole) (writes : List Write)
      → failures client writes items ≡ []
      → k.get (writes ++ map delete_cluster_role items) name
        ≡ (if any (is_named name) items then none else k.get writes name)
  unfolding any failures
  get-deletions [] writes h = rw (append-nil writes)
  get-deletions (role ∷ items) writes h =
      let (gone, none_failed) =
        with_failure-nil (client.answer writes (delete_cluster_role role))
          (failures client (writes ++ delete_cluster_role role ∷ []) items) h in
      ap (λ ws. k.get ws name) (sym (append_assoc writes (delete_cluster_role role ∷ []) _))
      ∙ ground (
        arith,
        gone,
        k.deletes writes role name,
        get-deletions items (writes ++ delete_cluster_role role ∷ []) none_failed,
      )

  abbrev behind_list :
      GoMap Str → List Write → Outcome (List ClusterRole) → Outcome (Option Error) × List Write
  behind_list owner writes listed = after_list listed writes (λ items. (
    ok (join_errors (failures client writes (owned owner items))),
    writes ++ map delete_cluster_role (owned owner items),
  ))

  behind_list-carries :
      (owner : GoMap Str) (writes : List Write) (listed : Outcome (List ClusterRole))
      → client.list_cluster_roles writes ≡ listed
      → (behind_list owner writes listed).0 ≡ ok none
      → passes (carries owner) (k.get (behind_list owner writes listed).1 name) ≡ false
  behind_list-carries owner writes (ok items) listed h = ground (
    arith,
    k.lists writes items name (carries owner) listed,
    any-owned owner (is_named name) items,
    get-deletions (owned owner items) writes (join_errors-nil _ (ok-injective h)),
  )
  behind_list-carries owner writes (err e) listed h = cc
  behind_list-carries owner writes panic listed h = cc

  -- If the API keeps and lists ClusterRoles as documented, though it may refuse any call, and
  -- DeleteTargets returns no error, then the owner's reference annotations are on no ClusterRole
  -- that is left.
  pub delete_targets-carries :
      (resource : DynamicClusterRole) (writes : List Write)
      → (delete_targets client resource writes).0 ≡ ok none
      → passes
          (carries (reference_annotations resource.meta))
          (k.get (delete_targets client resource writes).1 name)
        ≡ false
  delete_targets-carries resource writes h = rw (delete_targets_lem client resource writes) (
      behind_list-carries (reference_annotations resource.meta) writes
        (client.list_cluster_roles writes) refl
        (rw (sym (delete_targets_lem client resource writes)) h))
