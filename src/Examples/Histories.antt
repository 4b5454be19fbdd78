-- ===== src/Examples/Histories.antt =====
-- A cluster in which a DynamicRoleBinding is synchronized, deleted by its user, and cleaned up.
use kuberbac.Prelude.{
  ◌≡◌, refl, sym, ap, ◌∙◌, inl, ℕ, true, false, Option, none, some, List, [], ◌∷◌, ◌++◌, map, Str,
  lit, ok, contains, ◌==◌, flat_map, any,
}
use mathlib.Core.List.{append-nil, append_assoc}
use kuberbac.Resources.{Meta, reference_annotations}
use kuberbac.RoleBinding.Types.{DynamicRoleBinding, RoleBinding, Write, ServiceAccount, Api}
use kuberbac.RoleBinding.Store.{passes, carries}
use kuberbac.RoleBinding.Store.Memory.{
  memory, memory-IsKeeper, stored, stored_append, find, current, drop_at, apply_write,
  memory_answer, deletion_answer,
}
use kuberbac.RoleBinding.Deletion.Gone.{delete_targets-gone}
use kuberbac.RoleBinding
use kuberbac.RoleBinding.{
  sync_target, delete_targets, apply_plan, is_taken, update_role_bindings, remove_abandoned,
  delete_owned,
}
use kuberbac.RoleBinding.Plan.{plan, subjects_of, complementary, binding_of, copy_into}
use kuberbac.RoleBinding.Selectors.{
  filter_namespace_list_by_selector, check_namespace_selector, check_name_selector,
  check_meta_selector, selected_names,
}
use kuberbac.RoleBinding.Accounts.{
  expand_subjects, check_subject, get_service_accounts_by_selectors, check_selectors,
  select_accounts, is_selected, matcher,
}
use kuberbac.GoMap.{lookup, insert}
use kuberbac.Globals.Conditions.{update_condition, new_condition}
use kuberbac.Globals.Subset.{is_subset, is_subset_over}
use kuberbac.Reconcile.{
  Reconciler, Event, update, update_status, target, found, resource_finalizer, reconcile, run,
  remove, synchronize, add_and_synchronize, deferred, update_condition_success,
}
use kuberbac.Reconcile.Controllers.{Surroundings, role_binding_reconciler}
use kuberbac.Reconcile.History.{Step, ran, here, next, IsFinalized, IsCovered, keeps_finalizer}
use kuberbac.Reconcile.History.Guarded.{Reach-IsCovered}
use kuberbac.Reconcile.History.Bindings.{
  IsCluster, role_binding-IsCleaning, IsBare, role_binding-bare,
}
use kuberbac.Examples.Controllers.{meta, binding_resource, regexp, account}
use kuberbac.Examples.World.{
  guards, util, contains-added, deletion_of, targets_of, targets_of-run, targets_of-other,
  finalizers_after, now_kept, guarded, now_kept-update, guarded-update, guarded-other, answer_of,
}
use kuberbac.Examples.Convergence.{namespaces, first}

abbrev Events : Type 0
Events = List (Event DynamicRoleBinding Write)

abbrev accounts : List ServiceAccount
accounts = account (lit "prod") ∷ []

abbrev meta_of : DynamicRoleBinding → Meta
meta_of resource = resource.meta

abbrev resource_with : Option ℕ → List Str → DynamicRoleBinding
resource_with deletion finalizers = record binding_resource {
  meta = record meta { finalizers = finalizers; deletion_timestamp = deletion };
}

abbrev around : Surroundings DynamicRoleBinding Write ℕ Api
around = record {
  client = λ events. memory namespaces accounts (stored first (targets_of events));
  get = λ events. answer_of resource_with (deletion_of events) (now_kept meta_of events);
  answer = λ events e. none;
  now = λ events. 5;
  parse_duration = λ text. ok 10;
  util = util;
}

abbrev reconciler : Reconciler DynamicRoleBinding Write ℕ
reconciler = role_binding_reconciler around regexp

answer_of-guards :
    (deletion : Option ℕ) (o : Option (List Str)) (resource : DynamicRoleBinding)
    → answer_of resource_with deletion o ≡ found resource
    → contains resource.meta.finalizers resource_finalizer ≡ true
    → guards o ≡ true
answer_of-guards deletion none resource h has = cc
answer_of-guards deletion (some finalizers) resource h has =
    let e : resource_with deletion finalizers ≡ resource = cc in
    ap (λ (x : DynamicRoleBinding). contains x.meta.finalizers resource_finalizer) e ∙ has

answer_of-owner :
    (deletion : Option ℕ) (o : Option (List Str)) (resource : DynamicRoleBinding)
    → answer_of resource_with deletion o ≡ found resource
    → reference_annotations resource.meta ≡ reference_annotations meta
answer_of-owner deletion none resource h = cc
answer_of-owner deletion (some finalizers) resource h =
    let e : resource ≡ resource_with deletion finalizers = cc in
    ap (λ (x : DynamicRoleBinding). reference_annotations x.meta) e

guarded-keeps :
    (events : Events) (e : Event DynamicRoleBinding Write)
    → guarded meta_of events ≡ true
    → keeps_finalizer reconciler e ≡ true
    → guarded meta_of (events ++ e ∷ []) ≡ true
unfolding finalizers_after
guarded-keeps events (update resource) h keeps = guarded-update meta_of events resource keeps
guarded-keeps events (update_status resource) h keeps =
    guarded-other meta_of events (update_status resource) refl h
guarded-keeps events (target w) h keeps = guarded-other meta_of events (target w) refl h

finalized : IsFinalized reconciler (guarded meta_of)
finalized = record {
  adds = λ resource. contains-added resource.meta.finalizers;
  reads = λ events resource got has.
      answer_of-guards (deletion_of events) (now_kept meta_of events) resource got has;
  accepts = λ events resource fine has. guarded-update meta_of events resource has;
  keeps = guarded-keeps;
}

abbrev bindings_after : Events → List RoleBinding
bindings_after events = stored first (targets_of events)

bindings_after-map :
    (events : Events) (writes : List Write)
    → bindings_after (events ++ map target writes) ≡ stored (bindings_after events) writes
bindings_after-map events writes =
    ap (stored first) (targets_of-run events writes)
    ∙ stored_append first (targets_of events) writes

cluster : IsCluster around regexp (reference_annotations meta)
unfolding memory-IsKeeper stored
cluster = record {
  keeper = λ events. memory-IsKeeper namespaces accounts (bindings_after events);
  follows = λ events writes namespace name.
      (ap (λ bs. find bs namespace name) (bindings_after-map events writes), refl);
  apart = λ events e namespace name other. (
    λ bare.
        ap (λ bs. passes (carries (reference_annotations meta)) (find bs namespace name))
          (ap (stored first) (targets_of-other reconciler events e other))
        ∙ bare,
    λ bare. refl,
  );
  owns = λ events resource got.
      answer_of-owner (deletion_of events) (now_kept meta_of events) resource got;
}

abbrev after_sync : Events
after_sync = (reconcile reconciler []).1

one_run : Step reconciler [] after_sync
one_run = ran [] after_sync [] (sym (append-nil after_sync))

-- What the API answers to the second run's get.
abbrev deleted : DynamicRoleBinding
deleted = resource_with (some 1) (resource_finalizer ∷ [])

-- The second run deletes the bindings and takes the finalizer.
abbrev cleaning : Events
cleaning =
    map target (RoleBinding.delete_targets (around.client after_sync) deleted []).1
    ++ update (resource_with (some 1) []) ∷ []

cleans : (reconcile reconciler after_sync).1 ≡ after_sync ++ cleaning
unfolding reconcile run remove sync_target delete_targets plan apply_plan subjects_of
    expand_subjects check_subject contains ◌==◌ get_service_accounts_by_selectors check_selectors
    select_accounts is_selected matcher filter_namespace_list_by_selector check_namespace_selector
    check_name_selector check_meta_selector selected_names flat_map any is_taken
    update_role_bindings remove_abandoned complementary is_subset is_subset_over lookup binding_of
    copy_into insert synchronize add_and_synchronize deferred memory stored current drop_at
    apply_write memory_answer deletion_answer find delete_owned targets_of finalizers_after
    update_condition_success update_condition new_condition
cleans = refl

two_runs : Step reconciler after_sync (after_sync ++ cleaning)
two_runs = ran after_sync cleaning [] (cleans ∙ sym (append-nil (after_sync ++ cleaning)))

freed : guarded meta_of (after_sync ++ cleaning) ≡ false
unfolding contains
freed = ap guards (
    ap (now_kept meta_of) (
      sym (
        append_assoc after_sync
          (map target (RoleBinding.delete_targets (around.client after_sync) deleted []).1) _))
    ∙ now_kept-update meta_of
        (after_sync
          ++ map target (RoleBinding.delete_targets (around.client after_sync) deleted []).1)
        (resource_with (some 1) []))

guarded_at_first : guarded {W = Write} meta_of [] ≡ true
unfolding finalizers_after contains ◌==◌
guarded_at_first = refl

role_binding-bare_example :
    (passes
        (carries (reference_annotations meta))
        ((cluster.keeper (after_sync ++ cleaning)).role_binding [] (lit "dev") (lit "bots"))
      ≡ false)
    × (passes
          (carries (reference_annotations meta))
          ((cluster.keeper (after_sync ++ cleaning)).cluster_role_binding [] (lit "bots"))
        ≡ false)
role_binding-bare_example =
    role_binding-bare around regexp (reference_annotations meta) finalized cluster []
      (after_sync ++ cleaning) (lit "dev") (lit "bots") (inl guarded_at_first)
      (next (next here one_run) two_runs) freed

deletes_all : (RoleBinding.delete_targets (around.client []) deleted []).0 ≡ ok none
unfolding delete_targets delete_owned memory stored current drop_at apply_write memory_answer
    deletion_answer find targets_of is_subset is_subset_over lookup ◌==◌
deletes_all = refl

delete_targets-gone_example :
    (passes (carries (reference_annotations meta)) (
        (cluster.keeper []).role_binding
          (RoleBinding.delete_targets (around.client []) deleted []).1
          (lit "dev")
          (lit "bots"))
      ≡ false)
    × (passes (carries (reference_annotations meta)) (
          (cluster.keeper []).cluster_role_binding
            (RoleBinding.delete_targets (around.client []) deleted []).1
            (lit "bots"))
        ≡ false)
delete_targets-gone_example =
    delete_targets-gone (cluster.keeper []) deleted (lit "dev") (lit "bots") [] deletes_all

Reach-IsCovered_example :
    IsCovered
      (guarded meta_of)
      (IsBare around regexp (reference_annotations meta) cluster)
      after_sync
Reach-IsCovered_example =
    Reach-IsCovered reconciler finalized
      (role_binding-IsCleaning around regexp (reference_annotations meta) cluster) [] after_sync
      (inl guarded_at_first) (next here one_run)
