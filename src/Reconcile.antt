-- ===== src/Reconcile.antt =====
-- internal/controller/dynamicclusterrole_controller.go and dynamicrolebinding_controller.go: Reconcile,
-- which is the same code in both but for the type of the resource, and the conditions of the two
-- status files. controllerutil's functions and `time.ParseDuration` are parameters.
pub mod Laws
pub mod Controllers
pub mod History
use kuberbac.Prelude.{
  ℕ, Bool, true, false, Option, none, some, List, [], ◌∷◌, ◌++◌, map, Str, lit, if◌then◌else◌,
  Outcome, ok, err, panic, Error, ApiError, api,
}
use kuberbac.Exec.{Exec, ◌>>=◌, continue, pure, call, ignore_not_found}
use kuberbac.Globals.Conditions.{
  Condition, new_condition, update_condition, condition_type_resource_synced, condition_true,
  condition_reason_target_synced, condition_reason_target_synced_message,
  condition_reason_kubernetes_api_call_error_type,
  condition_reason_kubernetes_api_call_error_message,
}
use kuberbac.Resources.{Meta}

abbrev pub resource_finalizer : Str
resource_finalizer = lit "kuberbac.prosimcorp.com/finalizer"

-- UpdateConditionSuccess and UpdateConditionKubernetesApiCallFailure, on the conditions of the status;
-- `now` is what `metav1.Now()` returns at both of its calls.
unfoldable pub update_condition_success : ℕ → List Condition → List Condition
update_condition_success now conditions = update_condition now conditions (
    new_condition now condition_type_resource_synced condition_true condition_reason_target_synced
      condition_reason_target_synced_message)

unfoldable pub update_condition_kubernetes_api_call_failure : ℕ → List Condition → List Condition
update_condition_kubernetes_api_call_failure now conditions = update_condition now conditions (
    new_condition now condition_type_resource_synced condition_true
      condition_reason_kubernetes_api_call_error_type
      condition_reason_kubernetes_api_call_error_message)

-- controllerutil, on the finalizers of an object.
pub record ControllerUtil : Type 0 where
  pub contains_finalizer : Meta → Str → Bool
  pub add_finalizer : Meta → Str → Meta
  pub remove_finalizer : Meta → Str → Meta

-- What Reconcile writes: the resource, its status, and what SyncTarget and DeleteTargets write.
pub data Event (R W : Type 0) : Type 0 where
  update : R → Event R W
  update_status : R → Event R W
  target : W → Event R W

-- The answer to the get of the resource.
pub data Got (R : Type 0) : Type 0 where
  found : R → Got R
  failed : ApiError → Got R

-- A reconciler: its resource's fields, its operations, and what the API, the clock and the libraries
-- answer, which may depend on all that was written. `D` is time.Duration.
pub record Reconciler (R W D : Type 0) : Type 0 where
  pub meta : R → Meta
  pub with_meta : Meta → R → R
  pub synchronization_time : R → Str
  pub conditions : R → List Condition
  pub with_conditions : List Condition → R → R
  pub sync_target : List (Event R W) → R → Exec W (Option Error)
  pub delete_targets : List (Event R W) → R → Exec W (Option Error)
  pub get : List (Event R W) → Got R
  pub answer : List (Event R W) → Event R W → Option ApiError
  pub now : List (Event R W) → ℕ
  pub parse_duration : Str → Outcome D
  pub util : ControllerUtil

abbrev pub as_result : Option ApiError → Option Error
as_result none = none
as_result (some e) = some (api e)

module _ {R W D : Type 0} (r : Reconciler R W D) where
  -- `ctrl.Result`, in which no requeue time is none, and the error.
  abbrev pub Returned : Type 0
  Returned = Option D × Option Error

  -- A run of SyncTarget or DeleteTargets.
  unfoldable pub run :
      (List (Event R W) → R → Exec W (Option Error)) → R → Exec (Event R W) (Option Error)
  run operation resource events =
      let (result, writes) = operation events resource [] in (result, events ++ map target writes)

  -- The deferred function, behind a return of `result` with any error.
  unfoldable pub deferred : Option D → R → Exec (Event R W) Returned
  deferred result resource = do
    e ← call r.answer (update_status resource)
    pure (result, as_result e)

  -- The resource with the condition that SyncTarget's error leads to.
  abbrev pub recorded : ℕ → Option Error → R → R
  recorded now none resource =
      r.with_conditions (update_condition_success now (r.conditions resource)) resource
  recorded now (some e) resource =
      r.with_conditions (update_condition_kubernetes_api_call_failure now (r.conditions resource))
        resource

  -- Behind SyncTarget. The deferred function runs in a panic as well.
  abbrev pub after_sync : D → R → Outcome (Option Error) → Exec (Event R W) Returned
  after_sync d resource (ok e) events =
      deferred (some d) (recorded (r.now events) e resource) events
  after_sync d resource (err e) events =
      deferred (some d) (recorded (r.now events) (some e) resource) events
  after_sync d resource panic events = (panic, (deferred (some d) resource events).1)

  -- From "Update the status before the requeue" on.
  abbrev pub schedule : R → Outcome D → Exec (Event R W) Returned
  schedule resource (ok d) events =
      let (result, events') = run r.sync_target resource events in
      after_sync d resource result events'
  schedule resource (err e) events = deferred none resource events
  schedule resource panic events = (panic, (deferred none resource events).1)

  unfoldable pub synchronize : R → Exec (Event R W) Returned
  synchronize resource = schedule resource (r.parse_duration (r.synchronization_time resource))

  -- "Delete all created targets" and what follows its error or success.
  abbrev pub after_delete : R → Option Error → Exec (Event R W) Returned
  after_delete resource (some e) = pure (none, some e)
  after_delete resource none = do
    e ← call r.answer (
        update
          (r.with_meta (r.util.remove_finalizer (r.meta resource) resource_finalizer) resource))
    pure (none, none)

  unfoldable pub remove : R → Exec (Event R W) Returned
  remove resource =
      if r.util.contains_finalizer (r.meta resource) resource_finalizer
      then (do e ← run r.delete_targets resource; after_delete resource e)
      else pure (none, none)

  -- Behind the update that adds the finalizer.
  abbrev pub after_add : R → Option ApiError → Exec (Event R W) Returned
  after_add resource none = synchronize resource
  after_add resource (some e) = pure (none, some (api e))

  unfoldable pub add_and_synchronize : R → Exec (Event R W) Returned
  add_and_synchronize resource =
      if r.util.contains_finalizer (r.meta resource) resource_finalizer
      then synchronize resource
      else (do
        e ← call r.answer (
            update
              (r.with_meta (r.util.add_finalizer (r.meta resource) resource_finalizer) resource))
        after_add (r.with_meta (r.util.add_finalizer (r.meta resource) resource_finalizer) resource)
            e)

  abbrev pub is_deleted : R → Bool
  is_deleted resource = elim (r.meta resource).deletion_timestamp [ none ↦ false | some t ↦ true ]

  abbrev pub after_get : Got R → Exec (Event R W) Returned
  after_get (failed e) = pure (none, as_result (ignore_not_found (some e)))
  after_get (found resource) =
      if is_deleted resource then remove resource else add_and_synchronize resource

  unfoldable pub reconcile : Exec (Event R W) Returned
  reconcile events = after_get (r.get events) events
