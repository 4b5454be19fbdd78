-- ===== src/Reconcile/History.antt =====
-- The histories of a reconciler: what may come of its runs, crashes included, one after the other.
pub mod Runs
pub mod Guarded
pub mod Bindings
pub mod Roles
use kuberbac.Prelude.{
  ◌≡◌, refl, sym, subst, ap, ◌∙◌, ◌⊎◌, inl, inr, Bool, true, false, Option, none, some, List, [],
  ◌∷◌, ◌++◌, map, arith, Str, ok, err, panic, Outcome, Error, ApiError, All, All-append, Bool-cases,
  Option-cases, if_intro,
}
use mathlib.Core.List.{append-nil, append_assoc}
use kuberbac.Exec.{Exec, ◌>>=◌, continue, call, pure}
use kuberbac.Exec.Writes.{Added, Writes, no_writes, call-Writes, bind-Writes}
use kuberbac.Resources.{Meta}
use kuberbac.Reconcile.{
  Reconciler, Event, update, update_status, target, Got, found, resource_finalizer, run, deferred,
  synchronize, schedule, after_sync, remove, after_delete, after_add, after_get,
  add_and_synchronize, is_deleted, reconcile, failed,
}

module _ {R W D : Type 0} (r : Reconciler R W D) where
  -- A run that goes on from some events, to its end or to a crash after a part of what it writes.
  pub data Step : List (Event R W) → List (Event R W) → Type 0 where
    ran :
        (events more rest : List (Event R W))
        → (reconcile r events).1 ≡ (events ++ more) ++ rest
        → Step events (events ++ more)

  -- Any number of them.
  pub data Reach (first : List (Event R W)) : List (Event R W) → Type 0 where
    here : Reach first first
    next :
        {events events' : List (Event R W)}
        → Reach first events
        → Step events events'
        → Reach first events'

  abbrev pub has_finalizer : R → Bool
  has_finalizer resource = r.util.contains_finalizer (r.meta resource) resource_finalizer

  -- The write does not take the finalizer from the resource.
  abbrev pub keeps_finalizer : Event R W → Bool
  keeps_finalizer (update resource) = has_finalizer resource
  keeps_finalizer (update_status resource) = true
  keeps_finalizer (target w) = true

  abbrev pub is_target : Event R W → Bool
  is_target (update resource) = false
  is_target (update_status resource) = false
  is_target (target w) = true

-- What the API and controllerutil document of finalizers: `guarded` tells whether, after some events,
-- the API keeps the resource with the finalizer.
pub record IsFinalized {R W D : Type 0} (r : Reconciler R W D) (guarded : List (Event R W) → Bool)
    : Type 0 where
  -- controllerutil.AddFinalizer adds the finalizer.
  pub adds :
      (resource : R)
      → has_finalizer r
          (r.with_meta (r.util.add_finalizer (r.meta resource) resource_finalizer) resource)
        ≡ true
  -- A get is not stale.
  pub reads :
      (events : List (Event R W)) (resource : R)
      → r.get events ≡ found resource
      → has_finalizer r resource ≡ true
      → guarded events ≡ true
  -- An update that is not refused is kept.
  pub accepts :
      (events : List (Event R W)) (resource : R)
      → r.answer events (update resource) ≡ none
      → has_finalizer r resource ≡ true
      → guarded (events ++ update resource ∷ []) ≡ true
  -- Nobody else takes the finalizer, and the API keeps a resource that has it.
  pub keeps :
      (events : List (Event R W)) (e : Event R W)
      → guarded events ≡ true
      → keeps_finalizer r e ≡ true
      → guarded (events ++ e ∷ []) ≡ true

-- When DeleteTargets and the API leave nothing: `Clean` says that, after some events, the API keeps none
-- of the resource's targets.
pub record IsCleaning {R W D : Type 0} (r : Reconciler R W D) (Clean : List (Event R W) → Type 0)
    : Type 0 where
  -- Nobody else makes targets.
  pub stays :
      (events : List (Event R W)) (e : Event R W)
      → Clean events
      → is_target r e ≡ false
      → Clean (events ++ e ∷ [])
  -- DeleteTargets leaves nothing when it returns no error.
  pub deletes :
      (events : List (Event R W)) (resource : R)
      → r.get events ≡ found resource
      → (run r r.delete_targets resource events).0 ≡ ok none
      → Clean (run r r.delete_targets resource events).1

-- The API keeps the resource with the finalizer, or it keeps none of its targets.
abbrev pub IsCovered : {E : Type 0} → (List E → Bool) → (List E → Type 0) → List E → Type 0
IsCovered guarded Clean events = (guarded events ≡ true) ⊎ Clean events
