-- ===== src/ClusterRole/Keeper/Stored.antt =====
-- What SyncTarget of the DynamicClusterRole controller leaves in a cluster that may refuse calls.
use kuberbac.Prelude.{
  ◌≡◌, refl, sym, ap, Outcome, err, panic, ◌∙◌, Option, none, some, List, [], ◌∷◌, ◌++◌, arith, Str,
  ◌==◌, if◌then◌else◌, ok, ApiError, Error,
}
use kuberbac.Exec.{as_error, continue}
use kuberbac.GoMap.{Range}
use kuberbac.Resources.{DynamicClusterRole}
use kuberbac.ClusterRole.Types.{ClusterRole, Write, update_cluster_role, Api}
use kuberbac.ClusterRole.Plan.{plan}
use kuberbac.ClusterRole.{after_update, update_cluster_roles, sync_target}
use kuberbac.ClusterRole.Keeper.{IsKeeper}

-- The last of the ClusterRoles that has the name, or what was there.
unfoldable pub latest : List ClusterRole → Str → Option ClusterRole → Option ClusterRole
latest [] name old = old
latest (role ∷ roles) name old = latest roles name (if role.name == name then some role else old)

-- An error of a step is not taken for a success.
as_error-none :
    (result : Outcome (Option Error) × List Write)
    → (as_error result).0 ≡ ok none
    → (result.0 ≡ ok none) × ((as_error result).1 ≡ result.1)
as_error-none (ok e, writes) h = (h, refl)
as_error-none (err e, writes) h = cc
as_error-none (panic, writes) h = cc

module _ {client : Api} (k : IsKeeper client) (name : Str) where
  after_update-latest :
      (role : ClusterRole) (roles : List ClusterRole) (writes : List Write)
      (answer : Option ApiError)
      → client.answer writes (update_cluster_role role) ≡ answer
      → ((update_cluster_roles client roles (writes ++ update_cluster_role role ∷ [])).0 ≡ ok none
          → k.get
              (update_cluster_roles client roles (writes ++ update_cluster_role role ∷ [])).1
              name
            ≡ latest roles name (k.get (writes ++ update_cluster_role role ∷ []) name))
      → (after_update answer
          (update_cluster_roles client roles)
          (writes ++ update_cluster_role role ∷ [])).0
        ≡ ok none
      → k.get
          (after_update answer
            (update_cluster_roles client roles)
            (writes ++ update_cluster_role role ∷ [])).1
          name
        ≡ latest roles name (if role.name == name then some role else k.get writes name)
  after_update-latest role roles writes none answered rest h =
      rest h ∙ ap (latest roles name) (ground (arith, answered, k.updates writes role name))
  after_update-latest role roles writes (some e) answered rest h = cc

  update_cluster_roles-latest :
      (roles : List ClusterRole) (writes : List Write)
      → (update_cluster_roles client roles writes).0 ≡ ok none
      → k.get (update_cluster_roles client roles writes).1 name
        ≡ latest roles name (k.get writes name)
  unfolding update_cluster_roles latest
  update_cluster_roles-latest [] writes h = refl
  update_cluster_roles-latest (role ∷ roles) writes h =
      after_update-latest role roles writes (client.answer writes (update_cluster_role role)) refl
        (update_cluster_roles-latest roles (writes ++ update_cluster_role role ∷ [])) h

  -- If the API keeps ClusterRoles as documented, though it may refuse any call, and SyncTarget has
  -- a plan and returns no error, then each name of the planned ClusterRoles holds the last one that
  -- bears it, whoever made what was there before, and every other name holds what it held.
  pub sync_target-latest :
      (range : Range) (resource : DynamicClusterRole) (roles : List ClusterRole)
      (writes : List Write)
      → plan client range resource writes ≡ ok roles
      → (sync_target client range resource writes).0 ≡ ok none
      → k.get (sync_target client range resource writes).1 name
        ≡ latest roles name (k.get writes name)
  unfolding sync_target
  sync_target-latest range resource roles writes plans fine =
      let result =
        continue (plan client range resource writes) (update_cluster_roles client) writes in
      let (updated, same) = as_error-none result fine in
      let e : result ≡ update_cluster_roles client roles writes = rw plans in
      ap (λ ws. k.get ws name) (same ∙ ap (λ x. x.1) e)
      ∙ update_cluster_roles-latest roles writes (sym (ap (λ x. x.0) e) ∙ updated)
