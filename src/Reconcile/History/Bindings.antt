-- ===== src/Reconcile/History/Bindings.antt =====
-- The finalizer of the DynamicRoleBinding controller, in a cluster that keeps its bindings.
use kuberbac.Prelude.{
  ◌≡◌, ap, ◌∙◌, subst, inl, inr, Bool, false, none, List, [], ◌∷◌, ◌++◌, map, Str, ok,
}
use kuberbac.GoMap.{GoMap}
use kuberbac.Resources.{reference_annotations}
use kuberbac.RoleBinding
use kuberbac.RoleBinding.Types.{DynamicRoleBinding, Write, Api, Regexp}
use kuberbac.RoleBinding.Store.{passes, carries}
use kuberbac.RoleBinding.Deletion.Gone.{IsKeeper, delete_targets-gone}
use kuberbac.Reconcile.{Event, target, found, run}
use kuberbac.Reconcile.Controllers.{Surroundings, role_binding_reconciler}
use kuberbac.Reconcile.History.{Reach, IsFinalized, IsCleaning, IsCovered, is_target}
use kuberbac.Reconcile.History.Guarded.{Reach-IsCovered}

module _ {D : Type 0} (around : Surroundings DynamicRoleBinding Write D Api) (regexp : Regexp)
    (owner : GoMap Str) where
  -- What the cluster documents of the bindings: after some events, `keeper` has what its clients see.
  pub record IsCluster : Type 0 where
    pub keeper : (events : List (Event DynamicRoleBinding Write)) → IsKeeper (around.client events)
    -- The writes of a run are among the events behind it.
    pub follows :
        (events : List (Event DynamicRoleBinding Write)) (writes : List Write)
        (namespace name : Str)
        → ((keeper (events ++ map target writes)).role_binding [] namespace name
            ≡ (keeper events).role_binding writes namespace name)
          × ((keeper (events ++ map target writes)).cluster_role_binding [] name
              ≡ (keeper events).cluster_role_binding writes name)
    -- Nobody else makes bindings with the owner's reference annotations.
    pub apart :
        (events : List (Event DynamicRoleBinding Write)) (e : Event DynamicRoleBinding Write)
        (namespace name : Str)
        → is_target (role_binding_reconciler around regexp) e ≡ false
        → (passes (carries owner) ((keeper events).role_binding [] namespace name) ≡ false
            → passes (carries owner) ((keeper (events ++ e ∷ [])).role_binding [] namespace name)
              ≡ false)
          × (passes (carries owner) ((keeper events).cluster_role_binding [] name) ≡ false
              → passes (carries owner) ((keeper (events ++ e ∷ [])).cluster_role_binding [] name)
                ≡ false)
    -- The resource is the owner.
    pub owns :
        (events : List (Event DynamicRoleBinding Write)) (resource : DynamicRoleBinding)
        → around.get events ≡ found resource
        → reference_annotations resource.meta ≡ owner

  -- No binding of the owner is in the cluster.
  abbrev pub IsBare : IsCluster → List (Event DynamicRoleBinding Write) → Type 0
  IsBare cluster events =
      (namespace name : Str)
      → (passes (carries owner) ((cluster.keeper events).role_binding [] namespace name) ≡ false)
        × (passes (carries owner) ((cluster.keeper events).cluster_role_binding [] name) ≡ false)

  deleted_all :
      (cluster : IsCluster) (events : List (Event DynamicRoleBinding Write))
      (resource : DynamicRoleBinding) (namespace name : Str)
      → around.get events ≡ found resource
      → (RoleBinding.delete_targets (around.client events) resource []).0 ≡ ok none
      → (passes (carries owner) (
            (cluster.keeper events).role_binding
              (RoleBinding.delete_targets (around.client events) resource []).1
              namespace
              name)
          ≡ false)
        × (passes (carries owner) (
              (cluster.keeper events).cluster_role_binding
                (RoleBinding.delete_targets (around.client events) resource []).1
                name)
            ≡ false)
  deleted_all cluster events resource namespace name got fine =
      let writes = (RoleBinding.delete_targets (around.client events) resource []).1 in
      subst
        (λ o.
          (passes (carries o) ((cluster.keeper events).role_binding writes namespace name) ≡ false)
          × (passes (carries o) ((cluster.keeper events).cluster_role_binding writes name) ≡ false))
        (cluster.owns events resource got)
        (delete_targets-gone (cluster.keeper events) resource namespace name [] fine)

  pub role_binding-IsCleaning :
      (cluster : IsCluster) → IsCleaning (role_binding_reconciler around regexp) (IsBare cluster)
  unfolding run
  role_binding-IsCleaning cluster = record {
    stays = λ events e bare other namespace name.
        let (here, there) = cluster.apart events e namespace name other in
        (here (bare namespace name).0, there (bare namespace name).1);
    deletes = λ events resource got fine namespace name.
        let writes = (RoleBinding.delete_targets (around.client events) resource []).1 in
        let (roles, cluster_roles) = deleted_all cluster events resource namespace name got fine in
        let (same, cluster_same) = cluster.follows events writes namespace name in
        (
          ap (passes (carries owner)) same ∙ roles,
          ap (passes (carries owner)) cluster_same ∙ cluster_roles,
        );
  }

  -- Suppose that AddFinalizer adds the finalizer, a get of the resource is not stale, an accepted
  -- update is kept, nobody else takes the finalizer or makes objects with the owner's reference
  -- annotations, and the API keeps and lists bindings as documented, though it may refuse any call.
  -- From events after which it keeps the DynamicRoleBinding with the finalizer or keeps no binding
  -- of its owner, after any history of runs of Reconcile, each to its end or to a crash after any
  -- of its writes: once the API no longer keeps the resource with the finalizer, no RoleBinding and
  -- no ClusterRoleBinding with its reference annotations is left.
  pub role_binding-bare :
      {guarded : List (Event DynamicRoleBinding Write) → Bool}
      (api : IsFinalized (role_binding_reconciler around regexp) guarded) (cluster : IsCluster)
      (first events : List (Event DynamicRoleBinding Write)) (namespace name : Str)
      → IsCovered guarded (IsBare cluster) first
      → Reach (role_binding_reconciler around regexp) first events
      → guarded events ≡ false
      → (passes (carries owner) ((cluster.keeper events).role_binding [] namespace name) ≡ false)
        × (passes (carries owner) ((cluster.keeper events).cluster_role_binding [] name) ≡ false)
  role_binding-bare api cluster first events namespace name covered reached free =
      elim (Reach-IsCovered (role_binding_reconciler around regexp) api
        (role_binding-IsCleaning cluster) first events covered reached) [
          | inl held ↦ cc
          | inr bare ↦ bare namespace name
        ]
