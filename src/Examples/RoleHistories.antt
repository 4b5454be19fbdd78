-- ===== src/Examples/RoleHistories.antt =====
-- A cluster in which a DynamicClusterRole is deleted and its controller crashes in between; and what
-- SyncTarget and DeleteTargets leave in it.
use kuberbac.Prelude.{
  ◌≡◌, refl, ap, ◌∙◌, inl, ℕ, true, false, Option, none, some, List, [], ◌∷◌, ◌++◌, Str, lit, ok,
  contains, ◌==◌,
}
use kuberbac.GoMap.{lookup}
use kuberbac.Globals.Subset.{is_subset, is_subset_over}
use kuberbac.Resources.{Meta, reference_annotations, DynamicClusterRole}
use kuberbac.ClusterRole
use kuberbac.ClusterRole.{delete_targets, delete_owned, sync_target, update_cluster_roles}
use kuberbac.ClusterRole.Types.{ClusterRole, Write, delete_cluster_role, Api}
use kuberbac.ClusterRole.Keeper.{passes, carries}
use kuberbac.ClusterRole.Keeper.Gone.{delete_targets-carries}
use kuberbac.ClusterRole.Keeper.Stored.{latest, sync_target-latest}
use kuberbac.ClusterRole.Keeper.Memory.{
  memory, memory-IsKeeper, stored, stored-append, find, current, drop_named, apply_write,
  memory_answer, deletion_answer,
}
use kuberbac.Reconcile.{
  Reconciler, Event, update, update_status, target, found, resource_finalizer, reconcile, run,
  remove,
}
use kuberbac.Reconcile.Controllers.{Surroundings, cluster_role_reconciler}
use kuberbac.Reconcile.History.{ran, here, next, IsFinalized, keeps_finalizer}
use kuberbac.Reconcile.History.Roles.{IsCluster, cluster_role-bare}
use kuberbac.Examples.Cluster.{
  in_order, in_order-IsRange, lists, processor, processor-IsKeyableCluster,
}
use kuberbac.Prelude.{split, join, extend}
use kuberbac.GoMap.{insert}
use kuberbac.Processor.Discovery.{new_policy_rule_processor}
use kuberbac.Processor.Pipeline.{at}
use kuberbac.ClusterRole.Rules.{plan_lem}
use kuberbac.ClusterRole.Plan.{plan}
use kuberbac.Examples.Steps.{pods_rule}
use kuberbac.Examples.Controllers.{meta, cluster_resource, role}
use kuberbac.Examples.World.{
  guards, util, contains-added, targets_of, targets_of-run, targets_of-other, finalizers_after,
  now_kept, guarded, now_kept-update, guarded-update, guarded-other, answer_of,
}

abbrev Events : Type 0
Events = List (Event DynamicClusterRole Write)

-- One ClusterRole of someone else, and one of the resource.
abbrev first : List ClusterRole
first = record (role []) { name = lit "view" } ∷ role (reference_annotations meta) ∷ []

abbrev meta_of : DynamicClusterRole → Meta
meta_of resource = resource.meta

abbrev resource_with : Option ℕ → List Str → DynamicClusterRole
resource_with deletion finalizers = record cluster_resource {
  meta = record meta { finalizers = finalizers; deletion_timestamp = deletion };
}

-- The user has deleted the resource.
abbrev around : Surroundings DynamicClusterRole Write ℕ Api
around = record {
  client = λ events. memory lists (stored first (targets_of events));
  get = λ events. answer_of resource_with (some 1) (now_kept meta_of events);
  answer = λ events e. none;
  now = λ events. 5;
  parse_duration = λ text. ok 10;
  util = util;
}

abbrev reconciler : Reconciler DynamicClusterRole Write ℕ
reconciler = cluster_role_reconciler around in_order

answer_of-guards :
    (o : Option (List Str)) (resource : DynamicClusterRole)
    → answer_of resource_with (some 1) o ≡ found resource
    → contains resource.meta.finalizers resource_finalizer ≡ true
    → guards o ≡ true
answer_of-guards none resource h has = cc
answer_of-guards (some finalizers) resource h has =
    let e : resource_with (some 1) finalizers ≡ resource = cc in
    ap (λ (x : DynamicClusterRole). contains x.meta.finalizers resource_finalizer) e ∙ has

answer_of-owner :
    (o : Option (List Str)) (resource : DynamicClusterRole)
    → answer_of resource_with (some 1) o ≡ found resource
    → reference_annotations resource.meta ≡ reference_annotations meta
answer_of-owner none resource h = cc
answer_of-owner (some finalizers) resource h =
    let e : resource ≡ resource_with (some 1) finalizers = cc in
    ap (λ (x : DynamicClusterRole). reference_annotations x.meta) e

guarded-keeps :
    (events : Events) (e : Event DynamicClusterRole Write)
    → guarded meta_of events ≡ true
    → keeps_finalizer reconciler e ≡ true
    → guarded meta_of (events ++ e ∷ []) ≡ true
unfolding finalizers_after
guarded-keeps events (update resource) h keeps = guarded-update meta_of events resource keeps
guarded-keeps events (update_status resource) h keeps =
    guarded-other meta_of events (update_status resource) refl h
guarded-keeps events (target w) h keeps = guarded-other meta_of events (target w) refl h

finalized : IsFinalized reconciler (guarded meta_of)
finalized = record {
  adds = λ resource. contains-added resource.meta.finalizers;
  reads = λ events resource got has. answer_of-guards (now_kept meta_of events) resource got has;
  accepts = λ events resource fine has. guarded-update meta_of events resource has;
  keeps = guarded-keeps;
}

cluster : IsCluster around in_order (reference_annotations meta)
unfolding memory-IsKeeper stored
cluster = record {
  keeper = λ events. memory-IsKeeper lists (stored first (targets_of events));
  follows = λ events writes name.
      ap (λ rs. find rs name)
        (ap (stored first) (targets_of-run events writes)
          ∙ stored-append first (targets_of events) writes);
  apart = λ events e name other bare.
      ap (λ rs. passes (carries (reference_annotations meta)) (find rs name))
        (ap (stored first) (targets_of-other reconciler events e other))
      ∙ bare;
  owns = λ events resource got. answer_of-owner (now_kept meta_of events) resource got;
}

-- The run crashes behind its deletion, and the next one goes through.
abbrev crashed : Events
crashed = target (delete_cluster_role (role (reference_annotations meta))) ∷ []

-- The last write of both runs.
abbrev freeing : Events
freeing = update (resource_with (some 1) []) ∷ []

first_run : (reconcile reconciler []).1 ≡ crashed ++ freeing
unfolding reconcile run remove delete_targets delete_owned contains ◌==◌ is_subset is_subset_over
    lookup memory stored current drop_named apply_write memory_answer deletion_answer find
    targets_of finalizers_after
first_run = refl

second_run : (reconcile reconciler crashed).1 ≡ (crashed ++ freeing) ++ []
unfolding reconcile run remove delete_targets delete_owned contains ◌==◌ is_subset is_subset_over
    lookup memory stored current drop_named apply_write memory_answer deletion_answer find
    targets_of finalizers_after
second_run = refl

freed : guarded meta_of (crashed ++ freeing) ≡ false
unfolding contains
freed = ap guards (now_kept-update meta_of crashed (resource_with (some 1) []))

guarded_at_first : guarded {W = Write} meta_of [] ≡ true
unfolding finalizers_after contains ◌==◌
guarded_at_first = refl

cluster_role-bare_example :
    passes
      (carries (reference_annotations meta))
      ((cluster.keeper (crashed ++ freeing)).get [] (lit "admin"))
    ≡ false
cluster_role-bare_example =
    cluster_role-bare around in_order (reference_annotations meta) finalized cluster []
      (crashed ++ freeing) (lit "admin") (inl guarded_at_first)
      (next (next here (ran [] crashed freeing first_run)) (ran crashed freeing [] second_run))
      freed

deletes_all : (ClusterRole.delete_targets (around.client []) cluster_resource []).0 ≡ ok none
unfolding delete_targets delete_owned ◌==◌ is_subset is_subset_over lookup memory stored current
    drop_named apply_write memory_answer deletion_answer find targets_of
deletes_all = refl

delete_targets-carries_example :
    passes (carries (reference_annotations meta)) (
      (cluster.keeper []).get
        (ClusterRole.delete_targets (around.client []) cluster_resource []).1
        (lit "admin"))
    ≡ false
delete_targets-carries_example =
    delete_targets-carries (cluster.keeper []) (lit "admin") cluster_resource [] deletes_all

abbrev simple : DynamicClusterRole
simple = record cluster_resource {
  target = record cluster_resource.target { separate_scopes = false };
  allow = pods_rule ∷ [];
  deny = [];
}

generated :
    new_policy_rule_processor (at in_order "resources") ((around.client []).discover [])
    ≡ ok processor
unfolding memory new_policy_rule_processor ◌==◌ lookup insert split join extend
generated = refl

one_role :
    (planned : ClusterRole) × (plan (around.client []) in_order simple [] ≡ ok (planned ∷ []))
unfolding memory
one_role =
    let (planned, plans, named, granted) =
      plan_lem (around.client []) in_order-IsRange simple [] generated processor-IsKeyableCluster
        (λ g r. []) (λ g r. tt) (tt, tt) tt (λ g r touched d. refl) refl in
    (planned, plans)

synced : (sync_target (around.client []) in_order simple []).0 ≡ ok none
unfolding sync_target update_cluster_roles memory memory_answer
synced = rw (one_role.1) refl

sync_target-latest_example :
    (cluster.keeper []).get (sync_target (around.client []) in_order simple []).1 (lit "admin")
    ≡ latest (one_role.0 ∷ []) (lit "admin") ((cluster.keeper []).get [] (lit "admin"))
sync_target-latest_example =
    sync_target-latest (cluster.keeper []) (lit "admin") in_order simple (one_role.0 ∷ []) []
      one_role.1 synced
