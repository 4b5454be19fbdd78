-- ===== src/Reconcile/History/Roles.antt =====
-- The finalizer of the DynamicClusterRole controller, in a cluster that keeps its ClusterRoles.
use kuberbac.Prelude.{
  ◌≡◌, ap, ◌∙◌, subst, inl, inr, Bool, false, none, List, [], ◌∷◌, ◌++◌, map, Str, ok,
}
use kuberbac.GoMap.{GoMap, Range}
use kuberbac.Resources.{reference_annotations, DynamicClusterRole}
use kuberbac.ClusterRole
use kuberbac.ClusterRole.Types.{Write, Api}
use kuberbac.ClusterRole.Keeper.{IsKeeper, passes, carries}
use kuberbac.ClusterRole.Keeper.Gone.{delete_targets-carries}
use kuberbac.Reconcile.{Event, target, found, run}
use kuberbac.Reconcile.Controllers.{Surroundings, cluster_role_reconciler}
use kuberbac.Reconcile.History.{Reach, IsFinalized, IsCleaning, IsCovered, is_target}
use kuberbac.Reconcile.History.Guarded.{Reach-IsCovered}

module _ {D : Type 0} (around : Surroundings DynamicClusterRole Write D Api) (range : Range)
    (owner : GoMap Str) where
  -- What the cluster documents of the ClusterRoles: after some events, `keeper` has what the clients see.
  pub record IsCluster : Type 0 where
    pub keeper : (events : List (Event DynamicClusterRole Write)) → IsKeeper (around.client events)
    -- The writes of a run are among the events behind it.
    pub follows :
        (events : List (Event DynamicClusterRole Write)) (writes : List Write) (name : Str)
        → (keeper (events ++ map target writes)).get [] name ≡ (keeper events).get writes name
    -- Nobody else makes ClusterRoles with the owner's reference annotations.
    pub apart :
        (events : List (Event DynamicClusterRole Write)) (e : Event DynamicClusterRole Write)
        (name : Str)
        → is_target (cluster_role_reconciler around range) e ≡ false
        → passes (carries owner) ((keeper events).get [] name) ≡ false
        → passes (carries owner) ((keeper (events ++ e ∷ [])).get [] name) ≡ false
    -- The resource is the owner.
    pub owns :
        (events : List (Event DynamicClusterRole Write)) (resource : DynamicClusterRole)
        → around.get events ≡ found resource
        → reference_annotations resource.meta ≡ owner

  -- No ClusterRole of the owner is in the cluster.
  abbrev pub IsBare : IsCluster → List (Event DynamicClusterRole Write) → Type 0
  IsBare cluster events =
      (name : Str) → passes (carries owner) ((cluster.keeper events).get [] name) ≡ false

  deleted_all :
      (cluster : IsCluster) (events : List (Event DynamicClusterRole Write))
      (resource : DynamicClusterRole) (name : Str)
      → around.get events ≡ found resource
      → (ClusterRole.delete_targets (around.client events) resource []).0 ≡ ok none
      → passes (carries owner) (
          (cluster.keeper events).get
            (ClusterRole.delete_targets (around.client events) resource []).1
            name)
        ≡ false
  deleted_all cluster events resource name got fine =
      let writes = (ClusterRole.delete_targets (around.client events) resource []).1 in
      subst (λ o. passes (carries o) ((cluster.keeper events).get writes name) ≡ false)
        (cluster.owns events resource got)
        (delete_targets-carries (cluster.keeper events) name resource [] fine)

  pub cluster_role-IsCleaning :
      (cluster : IsCluster) → IsCleaning (cluster_role_reconciler around range) (IsBare cluster)
  unfolding run
  cluster_role-IsCleaning cluster = record {
    stays = λ events e bare other name. cluster.apart events e name other (bare name);
    deletes = λ events resource got fine name.
        let writes = (ClusterRole.delete_targets (around.client events) resource []).1 in
        ap (passes (carries owner)) (cluster.follows events writes name)
        ∙ deleted_all cluster events resource name got fine;
  }

  -- Suppose that AddFinalizer adds the finalizer, a get of the resource is not stale, an accepted
  -- update is kept, nobody else takes the finalizer or makes objects with the owner's reference
  -- annotations, and the API keeps and lists ClusterRoles as documented, though it may refuse any
  -- call. From events after which it keeps the DynamicClusterRole with the finalizer or keeps no
  -- ClusterRole of its owner, after any history of runs of Reconcile, each to its end or to a crash
  -- after any of its writes: once the API no longer keeps the resource with the finalizer, no
  -- ClusterRole with its reference annotations is left.
  pub cluster_role-bare :
      {guarded : List (Event DynamicClusterRole Write) → Bool}
      (api : IsFinalized (cluster_role_reconciler around range) guarded) (cluster : IsCluster)
      (first events : List (Event DynamicClusterRole Write)) (name : Str)
      → IsCovered guarded (IsBare cluster) first
      → Reach (cluster_role_reconciler around range) first events
      → guarded events ≡ false
      → passes (carries owner) ((cluster.keeper events).get [] name) ≡ false
  cluster_role-bare api cluster first events name covered reached free =
      elim (Reach-IsCovered (cluster_role_reconciler around range) api
        (cluster_role-IsCleaning cluster) first events covered reached) [
          | inl held ↦ cc
          | inr bare ↦ bare name
        ]
