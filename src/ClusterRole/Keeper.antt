-- ===== src/ClusterRole/Keeper.antt =====
-- A cluster that keeps ClusterRoles and may refuse calls: what the API server documents of updates,
-- deletions and lists. An update of a ClusterRole that is not there creates it.
pub mod Stored
pub mod Gone
pub mod Memory
use kuberbac.Exec.{is_gone}
use kuberbac.Prelude.{
  ◌≡◌, Bool, true, false, ◌&&◌, Option, none, some, List, [], ◌∷◌, ◌++◌, Str, ◌==◌, any,
  if◌then◌else◌, ok, ApiError,
}
use kuberbac.GoMap.{GoMap}
use kuberbac.Globals.Subset.{is_subset}
use kuberbac.ClusterRole.Types.{ClusterRole, Write, update_cluster_role, delete_cluster_role, Api}

abbrev pub is_named : Str → ClusterRole → Bool
is_named name role = role.name == name

abbrev pub passes : (ClusterRole → Bool) → Option ClusterRole → Bool
passes test none = false
passes test (some role) = test role

-- A ClusterRole that carries the annotations.
abbrev pub carries : GoMap Str → ClusterRole → Bool
carries annotations role = is_subset annotations role.annotations

abbrev pub is_accepted : Option ApiError → Bool
is_accepted none = true
is_accepted (some e) = false

pub record IsKeeper (client : Api) : Type 0 where
  -- The ClusterRole of a name after some writes.
  pub get : List Write → Str → Option ClusterRole
  -- A list that is not refused has all ClusterRoles, each once.
  pub lists :
      (writes : List Write) (roles : List ClusterRole) (name : Str) (test : ClusterRole → Bool)
      → client.list_cluster_roles writes ≡ ok roles
      → any (λ role. is_named name role && test role) roles ≡ passes test (get writes name)
  pub updates :
      (writes : List Write) (role : ClusterRole) (name : Str)
      → get (writes ++ update_cluster_role role ∷ []) name ≡ (
          if is_named name role && is_accepted (client.answer writes (update_cluster_role role))
          then some role
          else get writes name)
  pub deletes :
      (writes : List Write) (role : ClusterRole) (name : Str)
      → get (writes ++ delete_cluster_role role ∷ []) name ≡ (
          if is_named name role && is_gone (client.answer writes (delete_cluster_role role))
          then none
          else get writes name)
