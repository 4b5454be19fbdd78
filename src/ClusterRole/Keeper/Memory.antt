-- ===== src/ClusterRole/Keeper/Memory.antt =====
-- A cluster whose ClusterRoles are a list, the latest first: an update puts the ClusterRole in front, a
-- deletion drops those of its name, and of the others the first one counts.
use kuberbac.Exec.{is_gone}
use kuberbac.Prelude.{
  ok-injective, ◌≡◌, refl, ◌∙◌, ap, subst, Bool, true, false, ◌&&◌, Option, none, some, List, [],
  ◌∷◌, ◌++◌, arith, Str, ◌==◌, ==_iff, any, if◌then◌else◌, ok, ApiError,
}
use kuberbac.Rbac.{ApiResourceList}
use kuberbac.ClusterRole.Types.{ClusterRole, Write, update_cluster_role, delete_cluster_role, Api}
use kuberbac.ClusterRole.Keeper.{IsKeeper, is_named, is_accepted, passes}

unfoldable pub find : List ClusterRole → Str → Option ClusterRole
find [] name = none
find (role ∷ roles) name =
    let rest = find roles name in if is_named name role then some role else rest

unfoldable pub drop_named : Str → List ClusterRole → List ClusterRole
drop_named name [] = []
drop_named name (role ∷ roles) =
    let rest = drop_named name roles in if is_named name role then rest else role ∷ rest

-- The ClusterRoles that count.
unfoldable pub current : List ClusterRole → List ClusterRole
unfolding drop_named
current [] = []
current (role ∷ roles) = role ∷ drop_named role.name (current roles)

unfoldable pub apply_write : List ClusterRole → Write → List ClusterRole
unfolding drop_named
apply_write roles (update_cluster_role role) = role ∷ roles
apply_write roles (delete_cluster_role role) = drop_named role.name roles

unfoldable pub stored : List ClusterRole → List Write → List ClusterRole
unfolding apply_write
stored roles [] = roles
stored roles (w ∷ writes) = stored (apply_write roles w) writes

unfoldable pub deletion_answer : Option ClusterRole → Option ApiError
deletion_answer none = some ApiError.not_found
deletion_answer (some role) = none

unfoldable pub memory_answer : List ClusterRole → Write → Option ApiError
unfolding find deletion_answer
memory_answer roles (update_cluster_role role) = none
memory_answer roles (delete_cluster_role role) = deletion_answer (find roles role.name)

-- The cluster, from what the discovery finds and the first ClusterRoles. It has no other objects.
unfoldable pub memory : List ApiResourceList → List ClusterRole → Api
unfolding stored memory_answer current
memory lists first = record {
  answer = λ writes w. memory_answer (stored first writes) w;
  discover = λ writes. ok lists;
  list_objects = λ writes key gvk. ok [];
  list_cluster_roles = λ writes. ok (current (stored first writes));
}

pub stored-append :
    (first : List ClusterRole) (writes more : List Write)
    → stored first (writes ++ more) ≡ stored (stored first writes) more
unfolding stored
stored-append first [] more = refl
stored-append first (w ∷ writes) more = stored-append (apply_write first w) writes more

find-drop_named :
    (n : Str) (roles : List ClusterRole) (name : Str)
    → find (drop_named n roles) name ≡ (if n == name then none else find roles name)
unfolding find drop_named
find-drop_named n [] name = ground arith
find-drop_named n (role ∷ roles) name =
    ground (
      arith,
      find-drop_named n roles name,
      ==_iff role.name n,
      ==_iff role.name name,
      ==_iff n name,
    )

any-drop_named :
    (n : Str) (roles : List ClusterRole) (name : Str) (test : ClusterRole → Bool)
    → any (λ role. is_named name role && test role) (drop_named n roles)
      ≡ (if n == name then false else any (λ role. is_named name role && test role) roles)
unfolding any drop_named
any-drop_named n [] name test = ground arith
any-drop_named n (role ∷ roles) name test = ground (
  arith,
  any-drop_named n roles name test,
  ==_iff role.name n,
  ==_iff role.name name,
  ==_iff n name,
)

any-current :
    (roles : List ClusterRole) (name : Str) (test : ClusterRole → Bool)
    → any (λ role. is_named name role && test role) (current roles) ≡ passes test (find roles name)
unfolding any current find
any-current [] name test = refl
any-current (role ∷ roles) name test =
    ground (arith, any-current roles name test, any-drop_named role.name (current roles) name test)

pub current-listed :
    (stored_roles roles : List ClusterRole) (name : Str) (test : ClusterRole → Bool)
    → current stored_roles ≡ roles
    → any (λ role. is_named name role && test role) roles ≡ passes test (find stored_roles name)
current-listed stored_roles roles name test h =
    subst
      (λ rs.
        any (λ role. is_named name role && test role) rs ≡ passes test (find stored_roles name))
      h (any-current stored_roles name test)

deletion-is_gone : (found : Option ClusterRole) → is_gone (deletion_answer found) ≡ true
unfolding deletion_answer
deletion-is_gone none = refl
deletion-is_gone (some role) = refl

pub find-update :
    (first : List ClusterRole) (writes : List Write) (role : ClusterRole) (name : Str)
    → find (stored first (writes ++ update_cluster_role role ∷ [])) name ≡ (
        if is_named name role
          && is_accepted (memory_answer (stored first writes) (update_cluster_role role))
        then some role
        else find (stored first writes) name)
unfolding memory_answer apply_write find stored
find-update first writes role name =
    ap (λ rs. find rs name) (stored-append first writes (update_cluster_role role ∷ []))
    ∙ ground arith

pub find-delete :
    (first : List ClusterRole) (writes : List Write) (role : ClusterRole) (name : Str)
    → find (stored first (writes ++ delete_cluster_role role ∷ [])) name ≡ (
        if is_named name role
          && is_gone (memory_answer (stored first writes) (delete_cluster_role role))
        then none
        else find (stored first writes) name)
unfolding memory_answer apply_write stored
find-delete first writes role name =
    ap (λ rs. find rs name) (stored-append first writes (delete_cluster_role role ∷ []))
    ∙ ground (
      arith,
      find-drop_named role.name (stored first writes) name,
      deletion-is_gone (find (stored first writes) role.name),
    )

unfoldable pub memory-IsKeeper :
    (lists : List ApiResourceList) (first : List ClusterRole) → IsKeeper (memory lists first)
unfolding memory
memory-IsKeeper lists first = record {
  get = λ writes. find (stored first writes);
  lists = λ writes roles name test h.
      current-listed (stored first writes) roles name test (ok-injective h);
  updates = λ writes role name. find-update first writes role name;
  deletes = λ writes role name. find-delete first writes role name;
}
