-- ===== src/RoleBinding/Deletion.antt =====
-- What DeleteTargets of the DynamicRoleBinding controller deletes.
pub mod Gone
use kuberbac.Prelude.{
  Option, none, some, ◌≡◌, refl, List, [], ◌∷◌, ◌++◌, map, Str, if◌then◌else◌, Outcome, ok, err,
  panic, ApiError, Bool-cases, inl, inr,
}
use Prim.Native.String.{String}
use mathlib.Core.List.{append-nil, append_assoc}
use kuberbac.Exec.{
  ignore_not_found, with_failure, join_errors, as_error, after_list, continue, ◌>>=◌, pure, read,
}
use kuberbac.GoMap.{GoMap}
use kuberbac.Globals.Subset.{is_subset}
use kuberbac.Resources.{reference_annotations}
use kuberbac.RoleBinding.Types.{
  DynamicRoleBinding, RoleBinding, Write, delete_cluster_role_binding, delete_role_binding, Api,
}
use kuberbac.RoleBinding.{collect, delete_owned, delete_targets}

-- The bindings that carry all the annotations.
unfoldable pub owned : GoMap Str → List RoleBinding → List RoleBinding
owned owner [] = []
owned owner (item ∷ items) =
    let rest = owned owner items in if is_subset owner item.annotations then item ∷ rest else rest

-- The errors, other than "not found", with which the API answers some deletions in turn.
unfoldable pub failures :
    Api → String → (RoleBinding → Write) → List Write → List RoleBinding → List (String × ApiError)
failures client text delete writes [] = []
failures client text delete writes (item ∷ items) =
    with_failure text (client.answer writes (delete item))
      (failures client text delete (writes ++ delete item ∷ []) items)

collect-ignore_not_found :
    (text : String) (e : Option ApiError) (errors : List (String × ApiError))
    → collect text (ignore_not_found e) errors ≡ with_failure text e errors
collect-ignore_not_found text none errors = refl
collect-ignore_not_found text (some ApiError.not_found) errors = refl
collect-ignore_not_found text (some (ApiError.refused code)) errors = refl

module _ (client : Api) (owner : GoMap Str) (text : String) (delete : RoleBinding → Write) where
  delete_owned_lem :
      (items : List RoleBinding) (writes : List Write)
      → delete_owned client owner text delete items writes ≡ (
        ok (failures client text delete writes (owned owner items)),
        writes ++ map delete (owned owner items),
      )
  unfolding delete_owned owned failures
  delete_owned_lem [] writes = rw (append-nil writes)
  delete_owned_lem (item ∷ items) writes = elim (Bool-cases (is_subset owner item.annotations)) [
    | inl mine ↦ rw (
      mine,
      delete_owned_lem items (writes ++ delete item ∷ []),
      collect-ignore_not_found,
      append_assoc,
    )
    | inr other ↦ rw other (delete_owned_lem items writes)
  ]

module _ (client : Api) (resource : DynamicRoleBinding) where
  -- The writes after the first loop of DeleteTargets.
  abbrev pub halfway : List Write → List RoleBinding → List Write
  halfway writes cluster_role_bindings =
      writes
      ++ map delete_cluster_role_binding
          (owned (reference_annotations resource.meta) cluster_role_bindings)

  -- The failures of the two loops.
  abbrev pub all_failures :
      List Write → List RoleBinding → List RoleBinding → List (String × ApiError)
  all_failures writes cluster_role_bindings role_bindings =
      failures client "error deleting ClusterRoleBinding: %s" delete_cluster_role_binding writes
        (owned (reference_annotations resource.meta) cluster_role_bindings)
      ++ failures client "error deleting RoleBinding: %s" delete_role_binding
          (halfway writes cluster_role_bindings)
          (owned (reference_annotations resource.meta) role_bindings)

module _ (client : Api) (resource : DynamicRoleBinding) (writes : List Write) where
  after_second_list :
      (bs : List RoleBinding) (listed : Outcome (List RoleBinding))
      → as_error (
          continue listed
            (λ cs.
              delete_owned client
                (reference_annotations resource.meta)
                "error deleting RoleBinding: %s"
                delete_role_binding
                cs
              >>= λ more. pure (
                  join_errors (
                    failures client "error deleting ClusterRoleBinding: %s"
                      delete_cluster_role_binding writes
                      (owned (reference_annotations resource.meta) bs)
                    ++ more)))
            (halfway client resource writes bs))
        ≡ after_list listed (halfway client resource writes bs) (λ cs. (
          ok (join_errors (all_failures client resource writes bs cs)),
          halfway client resource writes bs
              ++ map delete_role_binding (owned (reference_annotations resource.meta) cs),
        ))
  after_second_list bs (ok cs) = rw (
      delete_owned_lem client (reference_annotations resource.meta) "error deleting RoleBinding: %s"
        delete_role_binding cs (halfway client resource writes bs))
  after_second_list bs (err e) = refl
  after_second_list bs panic = refl

  after_first_list :
      (listed : Outcome (List RoleBinding))
      → as_error (
          continue listed
            (λ bs.
              delete_owned client
                (reference_annotations resource.meta)
                "error deleting ClusterRoleBinding: %s"
                delete_cluster_role_binding
                bs
              >>= λ errors. read client.list_role_bindings >>= λ cs.
                  delete_owned client
                    (reference_annotations resource.meta)
                    "error deleting RoleBinding: %s"
                    delete_role_binding
                    cs
                  >>= λ more. pure (join_errors (errors ++ more)))
            writes)
        ≡ after_list listed writes (λ bs.
          after_list
            (client.list_role_bindings (halfway client resource writes bs))
            (halfway client resource writes bs)
            (λ cs. (
              ok (join_errors (all_failures client resource writes bs cs)),
              halfway client resource writes bs
                  ++ map delete_role_binding (owned (reference_annotations resource.meta) cs),
            )))
  after_first_list (ok bs) =
      rw
        (delete_owned_lem client (reference_annotations resource.meta)
          "error deleting ClusterRoleBinding: %s" delete_cluster_role_binding bs writes)
        (after_second_list bs (client.list_role_bindings (halfway client resource writes bs)))
  after_first_list (err e) = refl
  after_first_list panic = refl

-- DeleteTargets asks the API to delete each listed ClusterRoleBinding, and then each listed
-- RoleBinding, that carries the owner's reference annotations and no other one, in the order of the
-- lists and past every failure, and returns the failures other than "not found" joined. If the first
-- list call fails it asks for no deletion and returns that error; if the second one fails, it returns
-- the error of that call alone, behind the deletions of ClusterRoleBindings.
pub delete_targets-all_failures :
    (client : Api) (resource : DynamicRoleBinding) (writes : List Write)
    → delete_targets client resource writes
      ≡ after_list (client.list_cluster_role_bindings writes) writes (λ bs.
        after_list
          (client.list_role_bindings (halfway client resource writes bs))
          (halfway client resource writes bs)
          (λ cs. (
            ok (join_errors (all_failures client resource writes bs cs)),
            halfway client resource writes bs
                ++ map delete_role_binding (owned (reference_annotations resource.meta) cs),
          )))
unfolding delete_targets
delete_targets-all_failures client resource writes =
    after_first_list client resource writes (client.list_cluster_role_bindings writes)
