-- ===== src/RoleBinding/Deletion/Gone.antt =====
-- What DeleteTargets of the DynamicRoleBinding controller leaves in a cluster that may refuse calls.
use kuberbac.Prelude.{
  ok-injective, ◌≡◌, refl, ◌∙◌, sym, ap, Bool, true, false, ◌&&◌, Option, none, some, List, [], ◌∷◌,
  ◌++◌, arith, map, Str, ◌==◌, any, if◌then◌else◌, Outcome, ok, err, panic, Error, ApiError,
}
use Prim.Native.String.{String}
use mathlib.Core.List.{append-nil, append_assoc}
use kuberbac.Exec.{is_gone, with_failure, join_errors, after_list}
use kuberbac.GoMap.{GoMap}
use kuberbac.Resources.{reference_annotations}
use kuberbac.RoleBinding.Types.{
  DynamicRoleBinding, RoleBinding, Write, delete_cluster_role_binding, delete_role_binding, Api,
}
use kuberbac.RoleBinding.{delete_targets}
use kuberbac.RoleBinding.Store.{is_at, passes, carries}
use kuberbac.RoleBinding.Deletion.{
  owned, failures, halfway, all_failures, delete_targets-all_failures,
}

abbrev pub is_named : Str → RoleBinding → Bool
is_named name b = b.name == name

-- What the API documents of deletions and lists, which it may refuse.
pub record IsKeeper (client : Api) : Type 0 where
  -- What is there after some writes.
  pub role_binding : List Write → Str → Str → Option RoleBinding
  pub cluster_role_binding : List Write → Str → Option RoleBinding
  -- A list that is not refused has all RoleBindings, each once.
  pub lists :
      (writes : List Write) (bindings : List RoleBinding) (namespace name : Str)
      (test : RoleBinding → Bool)
      → client.list_role_bindings writes ≡ ok bindings
      → any (λ b. is_at namespace name b && test b) bindings
        ≡ passes test (role_binding writes namespace name)
  pub cluster_lists :
      (writes : List Write) (bindings : List RoleBinding) (name : Str) (test : RoleBinding → Bool)
      → client.list_cluster_role_bindings writes ≡ ok bindings
      → any (λ b. is_named name b && test b) bindings
        ≡ passes test (cluster_role_binding writes name)
  pub deletes :
      (writes : List Write) (b : RoleBinding) (namespace name : Str)
      → role_binding (writes ++ delete_role_binding b ∷ []) namespace name ≡ (
          if is_at namespace name b && is_gone (client.answer writes (delete_role_binding b))
          then none
          else role_binding writes namespace name)
  pub cluster_deletes :
      (writes : List Write) (b : RoleBinding) (name : Str)
      → cluster_role_binding (writes ++ delete_cluster_role_binding b ∷ []) name ≡ (
          if is_named name b && is_gone (client.answer writes (delete_cluster_role_binding b))
          then none
          else cluster_role_binding writes name)
  -- A deletion of a RoleBinding leaves the ClusterRoleBindings alone.
  pub apart :
      (writes : List Write) (b : RoleBinding) (name : Str)
      → cluster_role_binding (writes ++ delete_role_binding b ∷ []) name
        ≡ cluster_role_binding writes name

any-owned :
    (owner : GoMap Str) (test : RoleBinding → Bool) (bindings : List RoleBinding)
    → any test (owned owner bindings) ≡ any (λ b. test b && carries owner b) bindings
unfolding any owned
any-owned owner test [] = refl
any-owned owner test (b ∷ bindings) = ground (arith, any-owned owner test bindings)

with_failure-nil :
    (text : String) (e : Option ApiError) (errors : List (String × ApiError))
    → with_failure text e errors ≡ []
    → (is_gone e ≡ true) × (errors ≡ [])
with_failure-nil text none errors h = (refl, h)
with_failure-nil text (some ApiError.not_found) errors h = (refl, h)
with_failure-nil text (some (ApiError.refused code)) errors h = cc

-- What is at one place, under deletions of which none fails.
module _ (client : Api) (text : String) (delete : RoleBinding → Write)
    (is_here : RoleBinding → Bool) (get : List Write → Option RoleBinding)
    (get-delete : (writes : List Write) (b : RoleBinding)
      → get (writes ++ delete b ∷ []) ≡ (
          if is_here b && is_gone (client.answer writes (delete b))
          then none
          else get writes)) where
  get-all :
      (items : List RoleBinding) (writes : List Write)
      → failures client text delete writes items ≡ []
      → get (writes ++ map delete items) ≡ (if any is_here items then none else get writes)
  unfolding any failures
  get-all [] writes h = rw (append-nil writes)
  get-all (b ∷ items) writes h =
      let (gone, none_failed) =
        with_failure-nil text (client.answer writes (delete b))
          (failures client text delete (writes ++ delete b ∷ []) items) h in
      ap get (sym (append_assoc writes (delete b ∷ []) _))
      ∙ ground
          (arith, gone, get-delete writes b, get-all items (writes ++ delete b ∷ []) none_failed)

  -- If the list was true, nothing of the owner is left there.
  get-owned :
      (owner : GoMap Str) (items : List RoleBinding) (writes : List Write)
      → any (λ b. is_here b && carries owner b) items ≡ passes (carries owner) (get writes)
      → failures client text delete writes (owned owner items) ≡ []
      → passes (carries owner) (get (writes ++ map delete (owned owner items))) ≡ false
  get-owned owner items writes listed h =
      ground (arith, listed, any-owned owner is_here items, get-all (owned owner items) writes h)

join_errors-none :
    (xs ys : List (String × ApiError)) → join_errors (xs ++ ys) ≡ none → (xs ≡ []) × (ys ≡ [])
join_errors-none [] [] h = (refl, refl)
join_errors-none [] (y ∷ ys) h = cc
join_errors-none (x ∷ xs) ys h = cc

module _ {client : Api} (k : IsKeeper client) (resource : DynamicRoleBinding)
    (namespace name : Str) where
  -- None of the owner's bindings is at that namespace and name, or at that name of the cluster.
  abbrev IsLeft : List Write → Type 0
  IsLeft writes =
      (passes (carries (reference_annotations resource.meta)) (k.role_binding writes namespace name)
        ≡ false)
      × (passes (carries (reference_annotations resource.meta)) (k.cluster_role_binding writes name)
          ≡ false)

  cluster_role_binding-apart :
      (items : List RoleBinding) (writes : List Write)
      → k.cluster_role_binding (writes ++ map delete_role_binding items) name
        ≡ k.cluster_role_binding writes name
  cluster_role_binding-apart [] writes = rw (append-nil writes)
  cluster_role_binding-apart (b ∷ items) writes =
      ap (λ ws. k.cluster_role_binding ws name)
        (sym (append_assoc writes (delete_role_binding b ∷ []) _))
      ∙ (cluster_role_binding-apart items (writes ++ delete_role_binding b ∷ [])
          ∙ k.apart writes b name)

  both_lists :
      (writes : List Write) (bs cs : List RoleBinding)
      → client.list_cluster_role_bindings writes ≡ ok bs
      → client.list_role_bindings (halfway client resource writes bs) ≡ ok cs
      → join_errors (all_failures client resource writes bs cs) ≡ none
      → IsLeft (
          halfway client resource writes bs
          ++ map delete_role_binding (owned (reference_annotations resource.meta) cs))
  both_lists writes bs cs first second fine =
      let owner = reference_annotations resource.meta in
      let half = halfway client resource writes bs in
      let (none_first, none_second) = join_errors-none _ _ fine in
      (
        get-owned client "error deleting RoleBinding: %s" delete_role_binding (is_at namespace name)
            (λ ws. k.role_binding ws namespace name) (λ ws b. k.deletes ws b namespace name) owner
            cs half (k.lists half cs namespace name (carries owner) second) none_second,
        ap (passes (carries owner)) (cluster_role_binding-apart (owned owner cs) half)
            ∙ get-owned client "error deleting ClusterRoleBinding: %s" delete_cluster_role_binding
                (is_named name) (λ ws. k.cluster_role_binding ws name)
                (λ ws b. k.cluster_deletes ws b name) owner bs writes
                (k.cluster_lists writes bs name (carries owner) first) none_first,
      )

  abbrev behind_second :
      List Write
      → List RoleBinding
      → Outcome (List RoleBinding)
      → Outcome (Option Error) × List Write
  behind_second writes bs listed = after_list listed (halfway client resource writes bs) (λ cs. (
    ok (join_errors (all_failures client resource writes bs cs)),
    halfway client resource writes bs
        ++ map delete_role_binding (owned (reference_annotations resource.meta) cs),
  ))

  second_list :
      (writes : List Write) (bs : List RoleBinding) (listed : Outcome (List RoleBinding))
      → client.list_cluster_role_bindings writes ≡ ok bs
      → client.list_role_bindings (halfway client resource writes bs) ≡ listed
      → (behind_second writes bs listed).0 ≡ ok none
      → IsLeft (behind_second writes bs listed).1
  second_list writes bs (ok cs) first second h =
      both_lists writes bs cs first second (ok-injective h)
  second_list writes bs (err e) first second h = cc
  second_list writes bs panic first second h = cc

  first_list :
      (writes : List Write) (listed : Outcome (List RoleBinding))
      → client.list_cluster_role_bindings writes ≡ listed
      → (after_list listed writes (λ bs.
          behind_second writes bs
            (client.list_role_bindings (halfway client resource writes bs)))).0
        ≡ ok none
      → IsLeft
          (after_list listed writes (λ bs.
            behind_second writes bs
              (client.list_role_bindings (halfway client resource writes bs)))).1
  first_list writes (ok bs) first h = second_list writes bs _ first refl h
  first_list writes (err e) first h = cc
  first_list writes panic first h = cc

  -- If the API keeps and lists bindings as documented, though it may refuse any call, and
  -- DeleteTargets returns no error, then the owner's reference annotations are on no RoleBinding
  -- that is left at any namespace and name, and on no ClusterRoleBinding at any name.
  pub delete_targets-gone :
      (writes : List Write)
      → (delete_targets client resource writes).0 ≡ ok none
      → (passes
            (carries (reference_annotations resource.meta))
            (k.role_binding (delete_targets client resource writes).1 namespace name)
          ≡ false)
        × (passes
              (carries (reference_annotations resource.meta))
              (k.cluster_role_binding (delete_targets client resource writes).1 name)
            ≡ false)
  delete_targets-gone writes h = rw (delete_targets-all_failures client resource writes) (
      first_list writes (client.list_cluster_role_bindings writes) refl
        (rw (sym (delete_targets-all_failures client resource writes)) h))
