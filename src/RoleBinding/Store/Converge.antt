-- ===== src/RoleBinding/Store/Converge.antt =====
-- What SyncTarget of the DynamicRoleBinding controller leaves in a cluster that keeps RoleBindings.
use kuberbac.Prelude.{
  ◌≡◌, refl, ◌∙◌, sym, ap, subst, true, false, not, ◌&&◌, Option, none, some, List, [], ◌∷◌, ◌++◌,
  arith, map, Str, ◌==◌, ==_iff, any, contains, if◌then◌else◌, ok, Bool-cases, inl, inr, Bool,
}
use kuberbac.GoMap.{GoMap}
use kuberbac.Globals.Subset.{is_subset}
use kuberbac.Globals.Subset.Laws.{is_subset_iff}
use kuberbac.Resources.{reference_annotations}
use kuberbac.RoleBinding.Types.{
  DynamicRoleBinding, RoleBinding, Write, update_role_binding, delete_role_binding, Api, Namespace,
  Regexp,
}
use kuberbac.RoleBinding.Plan.{Planned, plan, complementary, target_namespaces}
use kuberbac.RoleBinding.{is_taken, apply_plan, sync_target}
use kuberbac.RoleBinding.Updates.{placed, is_foreign_at}
use kuberbac.RoleBinding.Store.{IsStore, passes, lacks, carries}
use kuberbac.RoleBinding.Store.Writes.{
  abandoned, AreHeld-updates, update_role_bindings-healthy, remove_abandoned-healthy, get-updates,
  get-deletions, any-abandoned,
}

-- The namespace is in the list.
abbrev pub is_listed : List Namespace → Str → Bool
is_listed items namespace = any (λ item. item.name == namespace) items

-- What is at a namespace and a name after a run, given what was there: the binding, at its name in a
-- targeted namespace where nothing lacks its annotations; nothing, in a listed namespace outside the
-- targets where the owner had something; otherwise what was there.
unfoldable pub left :
    GoMap Str
    → RoleBinding
    → List Str
    → List Namespace
    → Str
    → Str
    → Option RoleBinding
    → Option RoleBinding
left owner binding targeted items namespace name old =
    if contains targeted namespace
      && (not (passes (lacks binding.annotations) old) && binding.name == name)
    then some (record binding { namespace = namespace })
    else if is_listed items namespace
        && (not (contains targeted namespace) && passes (carries owner) old)
    then none
    else old

contains-complementary :
    (items : List Namespace) (targeted : List Str) (namespace : Str)
    → contains (complementary items targeted) namespace
      ≡ (is_listed items namespace && not (contains targeted namespace))
unfolding complementary contains any
contains-complementary [] targeted namespace = refl
contains-complementary (item ∷ items) targeted namespace =
    elim (Bool-cases (item.name == namespace)) [
      | inl same ↦
          let e : item.name ≡ namespace = (==_iff item.name namespace).0 same in
          ground (
            arith,
            same,
            e,
            ap (contains targeted) e,
            contains-complementary items targeted namespace,
          )
      | inr other ↦ ground (arith, other, contains-complementary items targeted namespace)
    ]

any-is_foreign_at :
    {client : Api} (s : IsStore client) (binding : RoleBinding) (writes : List Write)
    (namespace name : Str)
    → (binding.name == name) ≡ true
    → any (is_foreign_at binding namespace) (s.bindings writes)
      ≡ passes (lacks binding.annotations) (s.get writes namespace name)
unfolding is_taken
any-is_foreign_at s binding writes namespace name h =
    subst
      (λ n.
        any (is_foreign_at binding namespace) (s.bindings writes)
        ≡ passes (lacks binding.annotations) (s.get writes namespace n))
      ((==_iff binding.name name).0 h)
      (s.listed writes namespace binding.name (lacks binding.annotations))

get-loops :
    {client : Api} (s : IsStore client) (owner : GoMap Str) (binding : RoleBinding)
    (targeted : List Str) (items : List Namespace) (writes : List Write) (namespace name : Str)
    → s.get
        ((writes ++ map update_role_binding (placed binding (s.bindings writes) targeted))
          ++ map delete_role_binding
              (abandoned owner (complementary items targeted) (s.bindings writes)))
        namespace
        name
      ≡ left owner binding targeted items namespace name (s.get writes namespace name)
unfolding left
get-loops s owner binding targeted items writes namespace name =
    let updated = writes ++ map update_role_binding (placed binding (s.bindings writes) targeted) in
    elim (Bool-cases (binding.name == name)) [
      | inl same ↦ ground (
        arith,
        same,
        contains-complementary items targeted namespace,
        any-is_foreign_at s binding writes namespace name same,
        get-updates s binding (s.bindings writes) targeted writes namespace name,
        get-deletions s (abandoned owner (complementary items targeted) (s.bindings writes)) updated
            namespace name,
        any-abandoned s owner (complementary items targeted) (s.bindings writes) namespace name,
        s.listed writes namespace name (carries owner),
      )
      | inr other ↦ ground (
        arith,
        other,
        contains-complementary items targeted namespace,
        get-updates s binding (s.bindings writes) targeted writes namespace name,
        get-deletions s (abandoned owner (complementary items targeted) (s.bindings writes)) updated
            namespace name,
        any-abandoned s owner (complementary items targeted) (s.bindings writes) namespace name,
        s.listed writes namespace name (carries owner),
      )
    ]

-- The writes so far after the two loops.
settled : GoMap Str → RoleBinding → List Str → List Str → List RoleBinding → List Write → List Write
settled owner binding targeted outside existent writes =
    (writes ++ map update_role_binding (placed binding existent targeted))
    ++ map delete_role_binding (abandoned owner outside existent)

module _ {client : Api} (s : IsStore client) (regexp : Regexp) (resource : DynamicRoleBinding) where
  sync_target-healthy :
      (p : Planned) (targeted : List Str) (writes : List Write)
      → plan client regexp resource writes ≡ ok p
      → resource.targets.cluster_scoped ≡ false
      → target_namespaces regexp p.namespaces resource ≡ ok targeted
      → sync_target client regexp resource writes ≡ (
        ok none,
        settled
            (reference_annotations resource.meta)
            p.binding
            targeted
            (complementary p.namespaces targeted)
            (s.bindings writes)
            writes,
      )
  unfolding sync_target apply_plan settled
  sync_target-healthy p targeted writes plans namespaced targets =
      rw
        (
          plans,
          namespaced,
          s.lists writes,
          targets,
          update_role_bindings-healthy s,
          remove_abandoned-healthy s (reference_annotations resource.meta)
              (complementary p.namespaces targeted) (s.bindings writes) _ (s.unique writes)
              (AreHeld-updates s p.binding (s.bindings writes) targeted writes),
        )
        refl

  -- If the API keeps RoleBindings, lists them all, and refuses no update and no deletion of one
  -- that is there, the plan is made, the targets are not cluster scoped and their selector selects
  -- the namespaces, then SyncTarget returns no error and leaves, at every namespace and name, the
  -- planned binding if the name is its own, the namespace is targeted and no RoleBinding there
  -- lacked its annotations; nothing if the namespace is listed and not targeted and what was there
  -- carried the owner's reference annotations; and otherwise what was there.
  pub sync_target-left :
      (p : Planned) (targeted : List Str) (writes : List Write) (namespace name : Str)
      → plan client regexp resource writes ≡ ok p
      → resource.targets.cluster_scoped ≡ false
      → target_namespaces regexp p.namespaces resource ≡ ok targeted
      → ((sync_target client regexp resource writes).0 ≡ ok none)
        × (s.get (sync_target client regexp resource writes).1 namespace name
            ≡ left
                (reference_annotations resource.meta)
                p.binding
                targeted
                p.namespaces
                namespace
                name
                (s.get writes namespace name))
  unfolding settled
  sync_target-left p targeted writes namespace name plans namespaced targets =
      rw (sync_target-healthy p targeted writes plans namespaced targets) (
        refl,
        get-loops s (reference_annotations resource.meta) p.binding targeted p.namespaces writes
            namespace name,
      )

is_subset_refl : (m : GoMap Str) → is_subset m m ≡ true
is_subset_refl m = (is_subset_iff m m).1 (λ key value e. e)

left-left :
    (owner : GoMap Str) (binding : RoleBinding) (targeted : List Str) (items : List Namespace)
    (namespace name : Str) (old : Option RoleBinding)
    → left owner binding targeted items namespace name
        (left owner binding targeted items namespace name old)
      ≡ left owner binding targeted items namespace name old
unfolding left
left-left owner binding targeted items namespace name old =
    ground (arith, is_subset_refl binding.annotations)

-- If the API keeps RoleBindings, lists them all, and refuses no update and no deletion of one that
-- is there, the plan is made and is the same after the first run, the targets are not cluster
-- scoped and their selector selects the namespaces, then a second run of SyncTarget changes
-- nothing: every namespace and name holds what it held after the first.
pub sync_target-twice :
    {client : Api} (s : IsStore client) (regexp : Regexp) (resource : DynamicRoleBinding)
    (p : Planned) (targeted : List Str) (writes : List Write) (namespace name : Str)
    → plan client regexp resource writes ≡ ok p
    → plan client regexp resource (sync_target client regexp resource writes).1 ≡ ok p
    → resource.targets.cluster_scoped ≡ false
    → target_namespaces regexp p.namespaces resource ≡ ok targeted
    → s.get
        (sync_target client regexp resource (sync_target client regexp resource writes).1).1
        namespace
        name
      ≡ s.get (sync_target client regexp resource writes).1 namespace name
sync_target-twice s regexp resource p targeted writes namespace name plans again namespaced
      targets =
    let first =
      sync_target-left s regexp resource p targeted writes namespace name plans namespaced
        targets in
    let second =
      sync_target-left s regexp resource p targeted (sync_target _ regexp resource writes).1
        namespace name again namespaced targets in
    second.1
    ∙ (ap
          (left (reference_annotations resource.meta) p.binding targeted p.namespaces namespace
            name)
          first.1
        ∙ (left-left (reference_annotations resource.meta) p.binding targeted p.namespaces namespace
              name (s.get writes namespace name)
            ∙ sym first.1))
