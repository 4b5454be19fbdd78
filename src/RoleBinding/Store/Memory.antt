-- ===== src/RoleBinding/Store/Memory.antt =====
-- A cluster whose RoleBindings are a list, the latest first: an update puts the RoleBinding in front,
-- a deletion drops those of its namespace and name, and of the others the first one counts.
use kuberbac.Exec.{is_gone}
use kuberbac.Prelude.{
  ◌≡◌, refl, ◌∙◌, ap, Bool, true, false, ◌&&◌, Option, none, some, List, [], ◌∷◌, ◌++◌, arith, Str,
  ◌==◌, ==_iff, any, if◌then◌else◌, ok, ApiError, if_intro, subst, ok-injective,
}
use kuberbac.RoleBinding.Types.{
  RoleBinding, Write, update_role_binding, delete_role_binding, Api, Namespace, ServiceAccount,
  failed,
}
use kuberbac.RoleBinding.Deletion.Gone.{IsKeeper, is_named}
use kuberbac.RoleBinding.Store.Writes.{any-true}
use kuberbac.RoleBinding.Store.{IsStore, is_at, is_present, passes, AreUnique}

unfoldable pub find : List RoleBinding → Str → Str → Option RoleBinding
find [] namespace name = none
find (b ∷ bindings) namespace name =
    let rest = find bindings namespace name in if is_at namespace name b then some b else rest

unfoldable pub drop_at : Str → Str → List RoleBinding → List RoleBinding
drop_at namespace name [] = []
drop_at namespace name (b ∷ bindings) =
    let rest = drop_at namespace name bindings in if is_at namespace name b then rest else b ∷ rest

-- The RoleBindings that count.
unfoldable pub current : List RoleBinding → List RoleBinding
unfolding drop_at
current [] = []
current (b ∷ bindings) = b ∷ drop_at b.namespace b.name (current bindings)

unfoldable pub apply_write : List RoleBinding → Write → List RoleBinding
unfolding drop_at
apply_write bindings (update_role_binding b) = b ∷ bindings
apply_write bindings (delete_role_binding b) = drop_at b.namespace b.name bindings
apply_write bindings w = bindings

unfoldable pub stored : List RoleBinding → List Write → List RoleBinding
unfolding apply_write
stored bindings [] = bindings
stored bindings (w ∷ writes) = stored (apply_write bindings w) writes

unfoldable pub deletion_answer : Option RoleBinding → Option ApiError
deletion_answer none = some ApiError.not_found
deletion_answer (some b) = none

unfoldable pub memory_answer : List RoleBinding → Write → Option ApiError
unfolding find deletion_answer
memory_answer bindings (delete_role_binding b) = deletion_answer (find bindings b.namespace b.name)
memory_answer bindings w = none

-- The cluster, from its namespaces, service accounts and first RoleBindings.
unfoldable pub memory : List Namespace → List ServiceAccount → List RoleBinding → Api
unfolding stored memory_answer current
memory namespaces accounts first = record {
  answer = λ writes w. memory_answer (stored first writes) w;
  list_namespaces = λ writes. ok namespaces;
  list_service_accounts = λ writes. ok accounts;
  get_cluster_role_binding = λ writes name. failed ApiError.not_found;
  list_role_bindings = λ writes. ok (current (stored first writes));
  list_cluster_role_bindings = λ writes. ok [];
}

stored-append :
    (first : List RoleBinding) (writes : List Write) (w : Write)
    → stored first (writes ++ w ∷ []) ≡ apply_write (stored first writes) w
unfolding stored
stored-append first [] w = refl
stored-append first (v ∷ writes) w = stored-append (apply_write first v) writes w

find-drop_at :
    (n m : Str) (bindings : List RoleBinding) (namespace name : Str)
    → find (drop_at n m bindings) namespace name
      ≡ (if n == namespace && m == name then none else find bindings namespace name)
unfolding find drop_at
find-drop_at n m [] namespace name = ground arith
find-drop_at n m (b ∷ bindings) namespace name = ground (
  arith,
  find-drop_at n m bindings namespace name,
  ==_iff b.namespace n,
  ==_iff b.name m,
  ==_iff b.namespace namespace,
  ==_iff b.name name,
  ==_iff n namespace,
  ==_iff m name,
)

any-drop_at :
    (n m : Str) (bindings : List RoleBinding) (namespace name : Str) (test : RoleBinding → Bool)
    → any (λ b. is_at namespace name b && test b) (drop_at n m bindings) ≡ (
        if n == namespace && m == name
        then false
        else any (λ b. is_at namespace name b && test b) bindings)
unfolding any drop_at
any-drop_at n m [] namespace name test = ground arith
any-drop_at n m (b ∷ bindings) namespace name test = ground (
  arith,
  any-drop_at n m bindings namespace name test,
  ==_iff b.namespace n,
  ==_iff b.name m,
  ==_iff b.namespace namespace,
  ==_iff b.name name,
  ==_iff n namespace,
  ==_iff m name,
)

any-current :
    (bindings : List RoleBinding) (namespace name : Str) (test : RoleBinding → Bool)
    → any (λ b. is_at namespace name b && test b) (current bindings)
      ≡ passes test (find bindings namespace name)
unfolding any current find
any-current [] namespace name test = refl
any-current (b ∷ bindings) namespace name test = ground (
  arith,
  any-current bindings namespace name test,
  any-drop_at b.namespace b.name (current bindings) namespace name test,
)

any-dropped :
    (n m : Str) (bindings : List RoleBinding) (namespace name : Str)
    → any (is_at namespace name) (drop_at n m bindings)
      ≡ (if n == namespace && m == name then false else any (is_at namespace name) bindings)
any-dropped n m bindings namespace name = ground (
  arith,
  any-drop_at n m bindings namespace name (λ b. true),
  any-true (is_at namespace name) (drop_at n m bindings),
  any-true (is_at namespace name) bindings,
)

drop_at-AreUnique :
    (n m : Str) (bindings : List RoleBinding)
    → AreUnique bindings
    → AreUnique (drop_at n m bindings)
unfolding drop_at
drop_at-AreUnique n m [] unique = tt
drop_at-AreUnique n m (b ∷ bindings) unique =
    if_intro AreUnique (is_at n m b) (drop_at-AreUnique n m bindings unique.1) (
      ground (arith, unique.0, any-dropped n m bindings b.namespace b.name),
      drop_at-AreUnique n m bindings unique.1,
    )

current-AreUnique : (bindings : List RoleBinding) → AreUnique (current bindings)
unfolding current
current-AreUnique [] = tt
current-AreUnique (b ∷ bindings) = (
  ground (
    arith,
    ==_iff b.namespace b.namespace,
    ==_iff b.name b.name,
    any-dropped b.namespace b.name (current bindings) b.namespace b.name,
  ),
  drop_at-AreUnique b.namespace b.name (current bindings) (current-AreUnique bindings),
)

find-deleted :
    (bindings : List RoleBinding) (b : RoleBinding)
    → is_present (find bindings b.namespace b.name) ≡ true
    → memory_answer bindings (delete_role_binding b) ≡ none
unfolding memory_answer deletion_answer
find-deleted bindings b h = ground arith

pub stored_append :
    (first : List RoleBinding) (writes more : List Write)
    → stored first (writes ++ more) ≡ stored (stored first writes) more
unfolding stored
stored_append first [] more = refl
stored_append first (w ∷ writes) more = stored_append (apply_write first w) writes more

pub memory-IsStore :
    (namespaces : List Namespace) (accounts : List ServiceAccount) (first : List RoleBinding)
    → IsStore (memory namespaces accounts first)
unfolding memory memory_answer apply_write find
memory-IsStore namespaces accounts first = record {
  get = λ writes. find (stored first writes);
  bindings = λ writes. current (stored first writes);
  updates = λ writes b. refl;
  deletes = λ writes b h. find-deleted (stored first writes) b h;
  lists = λ writes. refl;
  unique = λ writes. current-AreUnique (stored first writes);
  listed = λ writes namespace name test. any-current (stored first writes) namespace name test;
  get-update = λ writes b namespace name.
      ap (λ bs. find bs namespace name) (stored-append first writes (update_role_binding b));
  get-delete = λ writes b namespace name.
      ap (λ bs. find bs namespace name) (stored-append first writes (delete_role_binding b))
      ∙ find-drop_at b.namespace b.name (stored first writes) namespace name;
}

deletion-is_gone : (found : Option RoleBinding) → is_gone (deletion_answer found) ≡ true
unfolding deletion_answer
deletion-is_gone none = refl
deletion-is_gone (some b) = refl

pub current-listed :
    (stored_bindings bindings : List RoleBinding) (namespace name : Str) (test : RoleBinding → Bool)
    → current stored_bindings ≡ bindings
    → any (λ b. is_at namespace name b && test b) bindings
      ≡ passes test (find stored_bindings namespace name)
current-listed stored_bindings bindings namespace name test h =
    subst
      (λ bs.
        any (λ b. is_at namespace name b && test b) bs
        ≡ passes test (find stored_bindings namespace name))
      h (any-current stored_bindings namespace name test)

pub find-delete :
    (first : List RoleBinding) (writes : List Write) (b : RoleBinding) (namespace name : Str)
    → find (stored first (writes ++ delete_role_binding b ∷ [])) namespace name ≡ (
        if is_at namespace name b
          && is_gone (memory_answer (stored first writes) (delete_role_binding b))
        then none
        else find (stored first writes) namespace name)
unfolding memory_answer apply_write
find-delete first writes b namespace name =
    ap (λ bs. find bs namespace name) (stored-append first writes (delete_role_binding b))
    ∙ ground (
      arith,
      find-drop_at b.namespace b.name (stored first writes) namespace name,
      deletion-is_gone (find (stored first writes) b.namespace b.name),
    )

pub no_bindings :
    (bindings : List RoleBinding) (name : Str) (test : RoleBinding → Bool)
    → [] ≡ bindings
    → any (λ b. is_named name b && test b) bindings ≡ false
unfolding any
no_bindings [] name test h = refl
no_bindings (b ∷ bindings) name test h = cc

pub if_same : (c : Bool) (found : Option RoleBinding) → found ≡ (if c then found else found)
if_same true found = refl
if_same false found = refl

unfoldable pub memory-IsKeeper :
    (namespaces : List Namespace) (accounts : List ServiceAccount) (first : List RoleBinding)
    → IsKeeper (memory namespaces accounts first)
unfolding memory
memory-IsKeeper namespaces accounts first = record {
  role_binding = λ writes. find (stored first writes);
  cluster_role_binding = λ writes name. none;
  lists = λ writes bindings namespace name test h.
      current-listed (stored first writes) bindings namespace name test (ok-injective h);
  cluster_lists = λ writes bindings name test h. no_bindings bindings name test (ok-injective h);
  deletes = λ writes b namespace name. find-delete first writes b namespace name;
  cluster_deletes = λ writes b name. if_same _ none;
  apart = λ writes b name. refl;
}
