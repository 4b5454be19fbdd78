-- ===== src/Reconcile/Laws.antt =====
-- What Reconcile returns and records.
use kuberbac.Exec.{continue}
use kuberbac.Prelude.{
  lit, Outcome, err, panic, api, ApiError, [], ◌∷◌, ◌++◌, ℕ, ◌≡◌, refl, true, false, Option, none,
  some, List, Str, ◌==◌, ==_refl, ap, ◌∙◌, ok, Error,
}
use mathlib.Core.Option
use kuberbac.Globals.Conditions.{
  Condition, new_condition, update_condition, condition_type_resource_synced, condition_true,
  condition_reason_kubernetes_api_call_error_type, condition_reason_target_synced,
  condition_reason_kubernetes_api_call_error_message, condition_reason_target_synced_message,
}
use kuberbac.Globals.Conditions.Laws.{condition_of, condition_of-update_condition, renewed_or_new}
use kuberbac.Reconcile.{
  after_sync, after_delete, as_result, update_status, Reconciler, Event, update, found,
  resource_finalizer, run, deferred, recorded, synchronize, remove, add_and_synchronize, is_deleted,
  reconcile, update_condition_success, update_condition_kubernetes_api_call_failure,
}

abbrev pub status_of : Condition → Str
status_of condition = condition.status

abbrev pub reason_of : Condition → Str
reason_of condition = condition.reason

module _ (now : ℕ) (conditions : List Condition) where
  -- What `ResourceSynced` is after an update by a condition of that type.
  synced_after :
      (condition : Condition)
      → (condition.condition_type == condition_type_resource_synced) ≡ true
      → condition_of condition_type_resource_synced (update_condition now conditions condition)
        ≡ some
            (renewed_or_new now condition (condition_of condition_type_resource_synced conditions))
  synced_after condition h =
      rw (condition_of-update_condition now condition condition_type_resource_synced conditions, h)

  renewed_status :
      (condition : Condition) (o : Option Condition)
      → (status_of (renewed_or_new now condition o) ≡ condition.status)
        × (reason_of (renewed_or_new now condition o) ≡ condition.reason)
  renewed_status condition none = (refl, refl)
  renewed_status condition (some current) = (refl, refl)

  synced_fields :
      (condition : Condition)
      → (condition.condition_type == condition_type_resource_synced) ≡ true
      → (Option.map status_of (
            condition_of condition_type_resource_synced (update_condition now conditions condition))
          ≡ some condition.status)
        × (Option.map reason_of (
              condition_of condition_type_resource_synced
                (update_condition now conditions condition))
            ≡ some condition.reason)
  synced_fields condition h =
      let fields =
        renewed_status condition (condition_of condition_type_resource_synced conditions) in
      (
        ap (Option.map status_of) (synced_after condition h) ∙ ap some fields.0,
        ap (Option.map reason_of) (synced_after condition h) ∙ ap some fields.1,
      )

-- After a failed synchronization the condition ResourceSynced of the status is "True" and its reason
-- "KubernetesApiCallError"; after a successful one it is "True" as well, and its reason "TargetSynced".
pub update_condition_failure-True :
    (now : ℕ) (conditions : List Condition)
    → (Option.map status_of (
          condition_of
            (lit "ResourceSynced")
            (update_condition_kubernetes_api_call_failure now conditions))
        ≡ some (lit "True"))
      × (Option.map reason_of (
            condition_of
              (lit "ResourceSynced")
              (update_condition_kubernetes_api_call_failure now conditions))
          ≡ some (lit "KubernetesApiCallError"))
      × (Option.map status_of
            (condition_of (lit "ResourceSynced") (update_condition_success now conditions))
          ≡ some (lit "True"))
      × (Option.map reason_of
            (condition_of (lit "ResourceSynced") (update_condition_success now conditions))
          ≡ some (lit "TargetSynced"))
unfolding update_condition_kubernetes_api_call_failure update_condition_success new_condition
update_condition_failure-True now conditions =
    let failure =
      synced_fields now conditions
        (new_condition now condition_type_resource_synced condition_true
          condition_reason_kubernetes_api_call_error_type
          condition_reason_kubernetes_api_call_error_message)
        (==_refl condition_type_resource_synced) in
    let success =
      synced_fields now conditions
        (new_condition now condition_type_resource_synced condition_true
          condition_reason_target_synced condition_reason_target_synced_message)
        (==_refl condition_type_resource_synced) in
    (failure.0, failure.1, success.0, success.1)

as_result-map : (answer : Option ApiError) → as_result answer ≡ Option.map api answer
as_result-map none = refl
as_result-map (some e) = refl

-- The reason and the message of the condition that stands for what SyncTarget returned.
abbrev reason_for : Option Error → Str
reason_for none = lit "TargetSynced"
reason_for (some e) = lit "KubernetesApiCallError"

abbrev message_for : Option Error → Str
message_for none = lit "Target was successfully synced"
message_for (some e) = lit "Call to Kubernetes API failed. More info in logs."

module _ {R W D : Type 0} (r : Reconciler R W D) where
  -- The resource with the condition for what SyncTarget returned.
  abbrev pub with_outcome : ℕ → Option Error → R → R
  with_outcome now e resource =
      r.with_conditions
        (update_condition now (r.conditions resource) (record {
          condition_type = lit "ResourceSynced";
          status = lit "True";
          last_transition_time = now;
          reason = reason_for e;
          message = message_for e;
        }))
        resource

  -- What Reconcile comes to when it ends with an update of the status, and asks for a requeue.
  abbrev pub requeued :
      D → R → List (Event R W) → Outcome (Option D × Option Error) × List (Event R W)
  requeued d resource events = (
    ok (some d, Option.map api (r.answer events (update_status resource))),
    events ++ update_status resource ∷ [],
  )

  -- What follows each end of SyncTarget.
  abbrev pub synced_end :
      D
      → R
      → Outcome (Option Error)
      → List (Event R W)
      → Outcome (Option D × Option Error) × List (Event R W)
  synced_end d resource (ok e) events = requeued d (with_outcome (r.now events) e resource) events
  synced_end d resource (err e) events =
      requeued d (with_outcome (r.now events) (some e) resource) events
  synced_end d resource panic events = (panic, events ++ update_status resource ∷ [])

  deferred-requeued :
      (d : D) (resource : R) (events : List (Event R W))
      → deferred r (some d) resource events ≡ requeued d resource events
  unfolding deferred
  deferred-requeued d resource events =
      rw (as_result-map (r.answer events (update_status resource)))

  recorded-with_outcome :
      (now : ℕ) (e : Option Error) (resource : R)
      → recorded r now e resource ≡ with_outcome now e resource
  unfolding update_condition_success update_condition_kubernetes_api_call_failure new_condition
  recorded-with_outcome now none resource = refl
  recorded-with_outcome now (some e) resource = refl

  after_sync-synced_end :
      (d : D) (resource : R) (result : Outcome (Option Error)) (events : List (Event R W))
      → after_sync r d resource result events ≡ synced_end d resource result events
  unfolding deferred
  after_sync-synced_end d resource (ok e) events =
      rw (recorded-with_outcome)
        (deferred-requeued d (with_outcome (r.now events) e resource) events)
  after_sync-synced_end d resource (err e) events =
      rw (recorded-with_outcome)
        (deferred-requeued d (with_outcome (r.now events) (some e) resource) events)
  after_sync-synced_end d resource panic events = refl

  -- For a resource that is not deleted, has the finalizer and a synchronization time that is a
  -- duration, Reconcile records what SyncTarget returned, success or failure, in the condition
  -- ResourceSynced with the status "True", updates the status, asks for a requeue after that time, and
  -- returns the error of the status update alone: an error of SyncTarget is not returned. If SyncTarget
  -- panics, the status is updated as it was, and the panic goes on.
  pub reconcile-synced_end :
      (events : List (Event R W)) (resource : R) (d : D)
      → r.get events ≡ found resource
      → is_deleted r resource ≡ false
      → r.util.contains_finalizer (r.meta resource) resource_finalizer ≡ true
      → r.parse_duration (r.synchronization_time resource) ≡ ok d
      → reconcile r events
        ≡ synced_end d resource
            (run r r.sync_target resource events).0
            (run r r.sync_target resource events).1
  unfolding reconcile add_and_synchronize synchronize
  reconcile-synced_end events resource d g alive guarded parsed =
      rw (g, alive, guarded, parsed)
        (after_sync-synced_end d resource (run r r.sync_target resource events).0
          (run r r.sync_target resource events).1)

  -- What follows each end of DeleteTargets.
  abbrev pub deleted_end :
      R
      → Outcome (Option Error)
      → List (Event R W)
      → Outcome (Option D × Option Error) × List (Event R W)
  deleted_end resource (ok none) events = (
    ok (none, none),
    events
        ++ update
            (r.with_meta (r.util.remove_finalizer (r.meta resource) resource_finalizer) resource)
          ∷ [],
  )
  deleted_end resource (ok (some e)) events = (ok (none, some e), events)
  deleted_end resource (err e) events = (err e, events)
  deleted_end resource panic events = (panic, events)

  after_delete-deleted_end :
      (resource : R) (result : Outcome (Option Error)) (events : List (Event R W))
      → continue result (after_delete r resource) events ≡ deleted_end resource result events
  after_delete-deleted_end resource (ok none) events = refl
  after_delete-deleted_end resource (ok (some e)) events = refl
  after_delete-deleted_end resource (err e) events = refl
  after_delete-deleted_end resource panic events = refl

  -- For a deleted resource that has the finalizer, Reconcile runs DeleteTargets, whatever the
  -- synchronization time is, and updates the resource without the finalizer exactly when DeleteTargets
  -- returned no error; it then returns no error and asks for no requeue, whatever the API answers to
  -- that update. An error of DeleteTargets is returned, nothing more is written, and the finalizer
  -- stays; so does it in a panic.
  pub reconcile-deleted_end :
      (events : List (Event R W)) (resource : R)
      → r.get events ≡ found resource
      → is_deleted r resource ≡ true
      → r.util.contains_finalizer (r.meta resource) resource_finalizer ≡ true
      → reconcile r events
        ≡ deleted_end resource
            (run r r.delete_targets resource events).0
            (run r r.delete_targets resource events).1
  unfolding reconcile remove
  reconcile-deleted_end events resource g deleted guarded =
      rw (g, deleted, guarded)
        (after_delete-deleted_end resource (run r r.delete_targets resource events).0
          (run r r.delete_targets resource events).1)
