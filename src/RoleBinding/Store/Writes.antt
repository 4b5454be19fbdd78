-- ===== src/RoleBinding/Store/Writes.antt =====
-- What the loops of SyncTarget leave in a cluster.
use kuberbac.Prelude.{
  ◌≡◌, refl, ◌∙◌, sym, ap, Bool, true, false, not, ◌&&◌, none, some, List, [], ◌∷◌, ◌++◌, arith,
  map, Str, ◌==◌, ==_iff, any, contains, if◌then◌else◌, ok, Bool-cases, inl, inr,
}
use mathlib.Core.List.{append-nil, append_assoc}
use kuberbac.GoMap.{GoMap}
use kuberbac.Globals.Subset.{is_subset}
use kuberbac.RoleBinding.Types.{RoleBinding, Write, update_role_binding, delete_role_binding, Api}
use kuberbac.RoleBinding.{update_role_bindings, remove_abandoned}
use kuberbac.RoleBinding.Updates.{placed, is_foreign_at, any-is_taken}
use kuberbac.RoleBinding.Store.{IsStore, is_at, is_present, AreUnique}

-- The RoleBindings that the loop over the existent ones deletes.
unfoldable pub abandoned : GoMap Str → List Str → List RoleBinding → List RoleBinding
abandoned owner namespaces [] = []
abandoned owner namespaces (binding ∷ bindings) =
    let rest = abandoned owner namespaces bindings in
    if is_subset owner binding.annotations && contains namespaces binding.namespace
    then binding ∷ rest
    else rest

pub any-true :
    (test : RoleBinding → Bool) (bindings : List RoleBinding)
    → any (λ b. test b && true) bindings ≡ any test bindings
unfolding any
any-true test [] = refl
any-true test (b ∷ bindings) = ground (arith, any-true test bindings)

any-is_at :
    (b : RoleBinding) (bindings : List RoleBinding) (namespace name : Str)
    → is_at namespace name b ≡ true
    → any (is_at b.namespace b.name) bindings ≡ any (is_at namespace name) bindings
any-is_at b bindings namespace name h =
    let e : b.namespace ≡ namespace = (==_iff b.namespace namespace).0 (ground (arith, h)) in
    let f : b.name ≡ name = (==_iff b.name name).0 (ground (arith, h)) in
    ap (λ ns. any (is_at ns b.name) bindings) e ∙ ap (λ n. any (is_at namespace n) bindings) f

module _ {client : Api} (s : IsStore client) where
  pub update_role_bindings-healthy :
      (binding : RoleBinding) (existent : List RoleBinding) (namespaces : List Str)
      (writes : List Write)
      → update_role_bindings client binding existent namespaces none writes
        ≡ (ok none, writes ++ map update_role_binding (placed binding existent namespaces))
  unfolding update_role_bindings placed
  update_role_bindings-healthy binding existent [] writes = rw (append-nil writes)
  update_role_bindings-healthy binding existent (namespace ∷ namespaces) writes =
      elim (Bool-cases (any (is_foreign_at binding namespace) existent)) [
        | inl taken ↦
            rw (any-is_taken, taken)
              (update_role_bindings-healthy binding existent namespaces writes)
        | inr free ↦
            let b : RoleBinding = record binding { namespace = namespace } in
            rw (
              free,
              any-is_taken binding namespace existent ∙ free,
              s.updates,
              update_role_bindings-healthy binding existent namespaces
                  (writes ++ update_role_binding b ∷ []),
              append_assoc,
            )
      ]

  pub get-updates :
      (binding : RoleBinding) (existent : List RoleBinding) (namespaces : List Str)
      (writes : List Write) (namespace name : Str)
      → s.get
          (writes ++ map update_role_binding (placed binding existent namespaces))
          namespace
          name
        ≡ (if contains namespaces namespace
              && (not (any (is_foreign_at binding namespace) existent) && binding.name == name)
            then some (record binding { namespace = namespace })
            else s.get writes namespace name)
  unfolding placed contains
  get-updates binding existent [] writes namespace name = rw (append-nil writes)
  get-updates binding existent (ns ∷ namespaces) writes namespace name =
      elim (Bool-cases (any (is_foreign_at binding ns) existent)) [
        | inl taken ↦ rw taken (
            ground (
              arith,
              taken,
              ==_iff ns namespace,
              get-updates binding existent namespaces writes namespace name,
            ))
        | inr free ↦
            let b : RoleBinding = record binding { namespace = ns } in
            rw free (
              ap (λ ws. s.get ws namespace name)
                (sym (append_assoc writes (update_role_binding b ∷ []) _))
              ∙ ground (
                arith,
                free,
                ==_iff ns namespace,
                get-updates binding existent namespaces (writes ++ update_role_binding b ∷ [])
                    namespace name,
                s.get-update writes b namespace name,
              ))
      ]

  pub get-deletions :
      (deleted : List RoleBinding) (writes : List Write) (namespace name : Str)
      → s.get (writes ++ map delete_role_binding deleted) namespace name
        ≡ (if any (is_at namespace name) deleted then none else s.get writes namespace name)
  unfolding any
  get-deletions [] writes namespace name = rw (append-nil writes)
  get-deletions (b ∷ deleted) writes namespace name =
      ap (λ ws. s.get ws namespace name) (sym (append_assoc writes (delete_role_binding b ∷ []) _))
      ∙ ground (
        arith,
        get-deletions deleted (writes ++ delete_role_binding b ∷ []) namespace name,
        s.get-delete writes b namespace name,
      )

  pub any-abandoned :
      (owner : GoMap Str) (namespaces : List Str) (bindings : List RoleBinding)
      (namespace name : Str)
      → any (is_at namespace name) (abandoned owner namespaces bindings) ≡ (
          contains namespaces namespace
          && any (λ b. is_at namespace name b && is_subset owner b.annotations) bindings)
  unfolding any abandoned
  any-abandoned owner namespaces [] namespace name = ground arith
  any-abandoned owner namespaces (b ∷ bindings) namespace name =
      ground (
        arith,
        ==_iff b.namespace namespace,
        any-abandoned owner namespaces bindings namespace name,
      )

  -- What the list names is there.
  abbrev AreHeld : List Write → List RoleBinding → Type 0
  AreHeld writes bindings =
      (namespace name : Str)
      → any (is_at namespace name) bindings ≡ true
      → is_present (s.get writes namespace name) ≡ true

  any-head :
      (b : RoleBinding) (bindings : List RoleBinding)
      → any (is_at b.namespace b.name) (b ∷ bindings) ≡ true
  unfolding any
  any-head b bindings = ground (arith, ==_iff b.namespace b.namespace, ==_iff b.name b.name)

  AreHeld-tail :
      (b : RoleBinding) (bindings : List RoleBinding) (writes : List Write)
      → AreHeld writes (b ∷ bindings)
      → AreHeld writes bindings
  unfolding any
  AreHeld-tail b bindings writes held namespace name h = held namespace name (ground (arith, h))

  AreHeld-delete :
      (b : RoleBinding) (bindings : List RoleBinding) (writes : List Write)
      → any (is_at b.namespace b.name) bindings ≡ false
      → AreHeld writes (b ∷ bindings)
      → AreHeld (writes ++ delete_role_binding b ∷ []) bindings
  AreHeld-delete b bindings writes fresh held namespace name h =
      elim (Bool-cases (is_at namespace name b)) [
        | inl same ↦ absurd (ground (arith, h, fresh, any-is_at b bindings namespace name same))
        | inr other ↦ ground (
          arith,
          other,
          s.get-delete writes b namespace name,
          AreHeld-tail b bindings writes held namespace name h,
        )
      ]

  AreHeld-listed : (writes : List Write) → AreHeld writes (s.bindings writes)
  AreHeld-listed writes namespace name h =
      sym (s.listed writes namespace name (λ b. true))
      ∙ (any-true (is_at namespace name) (s.bindings writes) ∙ h)

  pub AreHeld-updates :
      (binding : RoleBinding) (existent : List RoleBinding) (namespaces : List Str)
      (writes : List Write)
      → AreHeld
          (writes ++ map update_role_binding (placed binding existent namespaces))
          (s.bindings writes)
  AreHeld-updates binding existent namespaces writes namespace name h = ground (
    arith,
    get-updates binding existent namespaces writes namespace name,
    AreHeld-listed writes namespace name h,
  )

  pub remove_abandoned-healthy :
      (owner : GoMap Str) (namespaces : List Str) (bindings : List RoleBinding)
      (writes : List Write)
      → AreUnique bindings
      → AreHeld writes bindings
      → remove_abandoned client owner namespaces bindings none writes
        ≡ (ok none, writes ++ map delete_role_binding (abandoned owner namespaces bindings))
  unfolding remove_abandoned abandoned
  remove_abandoned-healthy owner namespaces [] writes unique held = rw (append-nil writes)
  remove_abandoned-healthy owner namespaces (binding ∷ bindings) writes unique held =
      elim (Bool-cases
        (is_subset owner binding.annotations && contains namespaces binding.namespace)) [
          | inl gone ↦ rw (
            gone,
            s.deletes writes binding
                (held binding.namespace binding.name (any-head binding bindings)),
            remove_abandoned-healthy owner namespaces bindings
                (writes ++ delete_role_binding binding ∷ []) unique.1
                (AreHeld-delete binding bindings writes unique.0 held),
            append_assoc,
          )
          | inr kept ↦ rw kept (
              remove_abandoned-healthy owner namespaces bindings writes unique.1
                (AreHeld-tail binding bindings writes held))
        ]
