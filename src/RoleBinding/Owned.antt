-- ===== src/RoleBinding/Owned.antt =====
-- What the DynamicRoleBinding controller writes.
use kuberbac.Prelude.{
  ◌≡◌, refl, true, false, Option, none, some, List, [], ◌∷◌, arith, Str, if_intro, contains, ◌==◌,
  ==_iff, ok, err, panic, Error, api, Bool-cases, inl, inr, Option-cases, any, subst, ◌>>=◌, Holds,
  bind-Holds,
}
use kuberbac.Exec.{call, read, continue, continue_intro}
use kuberbac.Exec.Writes.{Added, Writes, no_writes, call-Writes, bind-Writes, as_error-Added}
use kuberbac.GoMap.{GoMap, lookup, keys, insert}
use kuberbac.GoMap.Laws.{lookup-insert}
use kuberbac.Globals.Subset.{is_subset}
use kuberbac.Globals.Subset.Laws.{Within, is_subset_iff}
use kuberbac.Globals.Conditions.Laws.{AreDistinct}
use kuberbac.Resources.{reference_annotations, Meta}
use kuberbac.RoleBinding.Types.{
  DynamicRoleBinding, RoleBinding, Subject, Write, update_cluster_role_binding, update_role_binding,
  delete_cluster_role_binding, delete_role_binding, Api, Regexp,
}
use kuberbac.RoleBinding.Plan.{
  Planned, plan, copy_into, binding_of, complementary, planned, subjects_of, target_namespaces,
}
use kuberbac.RoleBinding.Accounts.{check_subject}
use kuberbac.RoleBinding.{
  sync_cluster_role_binding, update_role_bindings, remove_abandoned, apply_plan, sync_target,
  as_result, deletion_error, is_taken, is_foreign, get_error,
}

lookup-copy_into :
    (k : Str) (dst src : GoMap Str)
    → contains (keys src) k ≡ false
    → lookup k (copy_into dst src) ≡ lookup k dst
unfolding copy_into contains
lookup-copy_into k dst [] h = refl
lookup-copy_into k dst ((j, w) ∷ src) h =
    ground (arith, lookup-copy_into k (insert j w dst) src, lookup-insert j k w dst)

-- A copied map is within the result, which makes the reference annotations win over the user's.
pub copy_into-Within :
    (dst src : GoMap Str) → AreDistinct (keys src) → Within src (copy_into dst src)
unfolding copy_into lookup
copy_into-Within dst [] h key value e = cc
copy_into-Within dst ((j, w) ∷ src) h key value e = elim (Bool-cases (j == key)) [
  | inl same ↦
      ground
        (arith, ==_iff j key, lookup-copy_into j (insert j w dst) src h.0, lookup-insert j j w dst)
  | inr other ↦ copy_into-Within (insert j w dst) src h.1 key value (ground arith)
]

reference_annotations-AreDistinct : (meta : Meta) → AreDistinct (keys (reference_annotations meta))
unfolding contains ◌==◌
reference_annotations-AreDistinct meta = (refl, (refl, (refl, (refl, tt))))

-- A write that the controller may make for the resource: an update of a binding that has the target's
-- name and carries the owner's reference annotations, or the deletion of one that carries them.
abbrev pub IsPermitted : DynamicRoleBinding → Write → Type 0
IsPermitted resource (update_cluster_role_binding b) =
    (b.name ≡ resource.targets.name)
    × (is_subset (reference_annotations resource.meta) b.annotations ≡ true)
IsPermitted resource (update_role_binding b) =
    (b.name ≡ resource.targets.name)
    × (is_subset (reference_annotations resource.meta) b.annotations ≡ true)
IsPermitted resource (delete_cluster_role_binding b) =
    is_subset (reference_annotations resource.meta) b.annotations ≡ true
IsPermitted resource (delete_role_binding b) =
    is_subset (reference_annotations resource.meta) b.annotations ≡ true

module _ (client : Api) (resource : DynamicRoleBinding) where
  sync_cluster_role_binding-Writes :
      (binding : RoleBinding)
      → IsPermitted resource (update_cluster_role_binding binding)
      → Writes
          (IsPermitted resource)
          (sync_cluster_role_binding client (reference_annotations resource.meta) binding)
  unfolding sync_cluster_role_binding
  sync_cluster_role_binding-Writes binding h writes =
      elim (Option-cases (get_error (client.get_cluster_role_binding writes binding.name))) [
        | inl fine ↦
            rw (fine, sync_cluster_role_binding)
              (if_intro (Added (IsPermitted resource) writes)
                (is_foreign (reference_annotations resource.meta)
                  (client.get_cluster_role_binding writes binding.name))
                (no_writes (IsPermitted resource) {A = Option Error} (ok none) writes)
                (update_cluster_role_binding binding ∷ [], refl, (h, tt)))
        | inr (x, failed) ↦
            rw (failed, sync_cluster_role_binding)
              (no_writes (IsPermitted resource) (ok (some (api x))) writes)
      ]

  update_role_bindings-Writes :
      (binding : RoleBinding) (existent : List RoleBinding) (namespaces : List Str)
      (last : Option Error)
      → IsPermitted resource (update_role_binding binding)
      → Writes (IsPermitted resource) (update_role_bindings client binding existent namespaces last)
  unfolding update_role_bindings
  update_role_bindings-Writes binding existent [] last h =
      no_writes (IsPermitted resource) (ok last)
  update_role_bindings-Writes binding existent (namespace ∷ namespaces) last h =
      if_intro (Writes (IsPermitted resource)) (any (is_taken binding namespace) existent)
        (update_role_bindings-Writes binding existent namespaces last h)
        (bind-Writes (IsPermitted resource)
          (call client.answer (update_role_binding (record binding { namespace = namespace })))
          (λ e. update_role_bindings client binding existent namespaces (as_result e))
          (call-Writes (IsPermitted resource) client.answer
            (update_role_binding (record binding { namespace = namespace })) h)
          (λ e. update_role_bindings-Writes binding existent namespaces (as_result e) h))

  remove_abandoned-Writes :
      (namespaces : List Str) (bindings : List RoleBinding) (last : Option Error)
      → Writes
          (IsPermitted resource)
          (remove_abandoned client (reference_annotations resource.meta) namespaces bindings last)
  unfolding remove_abandoned
  remove_abandoned-Writes namespaces [] last = no_writes (IsPermitted resource) (ok last)
  remove_abandoned-Writes namespaces (binding ∷ bindings) last =
      elim (Bool-cases (is_subset (reference_annotations resource.meta) binding.annotations)) [
        | inl mine ↦ rw mine (
            if_intro (Writes (IsPermitted resource)) (contains namespaces binding.namespace)
              (bind-Writes (IsPermitted resource) (call client.answer (delete_role_binding binding))
                (λ e.
                  remove_abandoned client (reference_annotations resource.meta) namespaces bindings
                    (deletion_error e))
                (call-Writes (IsPermitted resource) client.answer (delete_role_binding binding)
                  mine)
                (λ e. remove_abandoned-Writes namespaces bindings (deletion_error e)))
              (remove_abandoned-Writes namespaces bindings last))
        | inr other ↦ rw other (remove_abandoned-Writes namespaces bindings last)
      ]

  apply_plan-Writes :
      (regexp : Regexp) (p : Planned)
      → IsPermitted resource (update_cluster_role_binding p.binding)
      → Writes (IsPermitted resource) (apply_plan client regexp resource p)
  unfolding apply_plan
  apply_plan-Writes regexp p h =
      if_intro (Writes (IsPermitted resource)) resource.targets.cluster_scoped
        (sync_cluster_role_binding-Writes p.binding h)
        (bind-Writes (IsPermitted resource) (read client.list_role_bindings) _
          (λ writes. no_writes (IsPermitted resource) (client.list_role_bindings writes) writes)
          (λ existent.
            bind-Writes (IsPermitted resource)
              (read (λ writes. target_namespaces regexp p.namespaces resource)) _
              (no_writes (IsPermitted resource) (target_namespaces regexp p.namespaces resource))
              (λ targeted.
                bind-Writes (IsPermitted resource)
                  (update_role_bindings client p.binding existent targeted none) _
                  (update_role_bindings-Writes p.binding existent targeted none h)
                  (λ last.
                    remove_abandoned-Writes (complementary p.namespaces targeted) existent last))))

  binding_of-IsPermitted :
      (subjects : List Subject)
      → IsPermitted resource (update_cluster_role_binding (binding_of resource subjects))
  unfolding binding_of
  binding_of-IsPermitted subjects = (
    refl,
    (is_subset_iff (reference_annotations resource.meta)
          (binding_of resource subjects).annotations).1
        (copy_into-Within resource.targets.annotations (reference_annotations resource.meta)
          (reference_annotations-AreDistinct resource.meta)),
  )

  IsPlanned : Planned → Type 0
  IsPlanned p = IsPermitted resource (update_cluster_role_binding p.binding)

  plan-Holds :
      (regexp : Regexp) (writes : List Write) → Holds IsPlanned (plan client regexp resource writes)
  unfolding plan IsPlanned
  plan-Holds regexp writes =
      bind-Holds IsPlanned (check_subject resource.subject)
        (λ checked. client.list_namespaces writes >>= λ namespaces.
          subjects_of client regexp resource writes namespaces >>= λ subjects.
          ok (planned resource namespaces subjects))
        (λ checked.
          bind-Holds IsPlanned (client.list_namespaces writes)
            (λ namespaces. subjects_of client regexp resource writes namespaces >>= λ subjects.
              ok (planned resource namespaces subjects))
            (λ namespaces.
              bind-Holds IsPlanned (subjects_of client regexp resource writes namespaces)
                (λ subjects. ok (planned resource namespaces subjects)) binding_of-IsPermitted))

-- Whatever the API answers and however the run ends, SyncTarget writes nothing but updates of
-- bindings that bear the target's name and carry the owner's four reference annotations, whatever
-- annotations the user asks for, and deletions of bindings that carry them.
pub sync_target-Added :
    (client : Api) (regexp : Regexp) (resource : DynamicRoleBinding) (writes : List Write)
    → Added (IsPermitted resource) writes (sync_target client regexp resource writes)
unfolding sync_target
sync_target-Added client regexp resource writes =
    as_error-Added (IsPermitted resource)
      (continue (plan client regexp resource writes) (apply_plan client regexp resource) writes)
      writes
      (continue_intro (Added (IsPermitted resource) writes) (plan client regexp resource writes)
        (apply_plan client regexp resource) writes
        (λ p e.
          apply_plan-Writes client resource regexp p
            (unfold IsPlanned in
              (subst (Holds (IsPlanned client resource)) e
                (plan-Holds client resource regexp writes)))
            writes)
        (λ e. no_writes (IsPermitted resource) {A = Option Error} (err e) writes)
        (no_writes (IsPermitted resource) {A = Option Error} panic writes))
