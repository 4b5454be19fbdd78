-- ===== src/Reconcile/History/Runs.antt =====
-- Runs of Reconcile after each of whose events the API keeps the finalizer, or no target.
use kuberbac.Prelude.{
  ◌≡◌, refl, sym, subst, ap, ◌∙◌, inl, inr, Bool, true, Option, none, some, List, [], ◌∷◌, ◌++◌,
  map, ok, err, panic, Outcome, Error, ApiError, All, All-append, Bool-cases, if_intro,
}
use mathlib.Core.List.{append-nil, append_assoc}
use kuberbac.Exec.{Exec, continue}
use kuberbac.Exec.Writes.{Added, Writes}
use kuberbac.Reconcile.{
  Reconciler, Event, update, update_status, target, Got, found, resource_finalizer, run, deferred,
  synchronize, schedule, after_sync, remove, after_delete, after_add, after_get,
  add_and_synchronize, is_deleted, failed,
}
use kuberbac.Reconcile.History.{IsFinalized, IsCleaning, IsCovered, has_finalizer, keeps_finalizer}

-- After each of some further events.
abbrev pub Through : {E : Type 0} → (List E → Bool) → (List E → Type 0) → List E → List E → Type 0
Through guarded Clean events [] = IsCovered guarded Clean events
Through guarded Clean events (e ∷ trace) =
    IsCovered guarded Clean events × Through guarded Clean (events ++ e ∷ []) trace

module _ {R W D : Type 0} (r : Reconciler R W D) {guarded : List (Event R W) → Bool}
    {Clean : List (Event R W) → Type 0} (g : IsFinalized r guarded) (c : IsCleaning r Clean) where
  abbrev pub Runs {ℓ} : {A : Type ℓ} → List (Event R W) → Outcome A × List (Event R W) → Type 0
  Runs events result =
      (trace : List (Event R W)) × (result.1 ≡ events ++ trace) × Through guarded Clean events trace

  Through-append :
      (events trace more : List (Event R W))
      → Through guarded Clean events trace
      → Through guarded Clean (events ++ trace) more
      → Through guarded Clean events (trace ++ more)
  Through-append events [] more h k =
      subst (λ es. Through guarded Clean es more) (append-nil events) k
  Through-append events (e ∷ trace) more h k = (
    h.0,
    Through-append (events ++ e ∷ []) trace more h.1
        (subst (λ es. Through guarded Clean es more) (sym (append_assoc events (e ∷ []) trace)) k),
  )

  abbrev Keeps : Event R W → Type 0
  Keeps e = keeps_finalizer r e ≡ true

  -- Events that keep the finalizer of a resource that has it.
  Through-guarded :
      (events trace : List (Event R W))
      → guarded events ≡ true
      → All Keeps trace
      → Through guarded Clean events trace
  Through-guarded events [] h k = inl h
  Through-guarded events (e ∷ trace) h k =
      (inl h, Through-guarded (events ++ e ∷ []) trace (g.keeps events e h k.0) k.1)

  Runs-guarded {ℓ} :
      {A : Type ℓ} (events : List (Event R W)) (result : Outcome A × List (Event R W))
      → guarded events ≡ true
      → Added Keeps events result
      → Runs events result
  Runs-guarded events result h (done, e, k) = (done, e, Through-guarded events done h k)

  All-target : (writes : List W) → All Keeps (map target writes)
  All-target [] = tt
  All-target (w ∷ writes) = (refl, All-target writes)

  run-Writes :
      (operation : List (Event R W) → R → Exec W (Option Error)) (resource : R)
      → Writes Keeps (run r operation resource)
  unfolding run
  run-Writes operation resource events = (
    map target (operation events resource []).1,
    refl,
    All-target (operation events resource []).1,
  )

  deferred-Writes : (result : Option D) (resource : R) → Writes Keeps (deferred r result resource)
  unfolding deferred
  deferred-Writes result resource events = (update_status resource ∷ [], refl, (refl, tt))

  after_sync-Writes :
      (d : D) (resource : R) (result : Outcome (Option Error))
      → Writes Keeps (after_sync r d resource result)
  after_sync-Writes d resource (ok e) events = deferred-Writes (some d) _ events
  after_sync-Writes d resource (err e) events = deferred-Writes (some d) _ events
  after_sync-Writes d resource panic events = deferred-Writes (some d) resource events

  Added-append {ℓ κ} :
      {A : Type ℓ} {B : Type κ} (events middle : List (Event R W)) (a : Outcome A)
      (result : Outcome B × List (Event R W))
      → Added Keeps events (a, middle)
      → Added Keeps middle result
      → Added Keeps events result
  Added-append events middle a result (done, e, h) (more, e', h') = (
    done ++ more,
    e' ∙ (ap (λ ws. ws ++ more) e ∙ append_assoc events done more),
    All-append Keeps done more h h',
  )

  schedule-Writes :
      (resource : R) (duration : Outcome D) → Writes Keeps (schedule r resource duration)
  schedule-Writes resource (ok d) events =
      let (result, events') = run r r.sync_target resource events in
      Added-append events events' result (after_sync r d resource result events')
        (run-Writes r.sync_target resource events) (after_sync-Writes d resource result events')
  schedule-Writes resource (err e) events = deferred-Writes none resource events
  schedule-Writes resource panic events = deferred-Writes none resource events

  synchronize-Writes : (resource : R) → Writes Keeps (synchronize r resource)
  unfolding synchronize
  synchronize-Writes resource =
      schedule-Writes resource (r.parse_duration (r.synchronization_time resource))

  -- Behind DeleteTargets, from what it returned.
  after_delete-Runs :
      (resource : R) (events : List (Event R W))
      (result : Outcome (Option Error) × List (Event R W))
      → Runs events result
      → (result.0 ≡ ok none → Clean result.1)
      → Runs events (continue result.0 (after_delete r resource) result.1)
  after_delete-Runs resource events (err e, after) runs clean = runs
  after_delete-Runs resource events (panic, after) runs clean = runs
  after_delete-Runs resource events (ok (some e), after) runs clean = runs
  after_delete-Runs resource events (ok none, after) (trace, e, through) clean =
      let last : Event R W =
        update
          (r.with_meta (r.util.remove_finalizer (r.meta resource) resource_finalizer) resource) in
      (
        trace ++ last ∷ [],
        ap (λ es. es ++ last ∷ []) e ∙ append_assoc events trace (last ∷ []),
        Through-append events trace (last ∷ []) through (
            subst (λ es. Through guarded Clean es (last ∷ [])) e
              (inr (clean refl), inr (c.stays after last (clean refl) refl))),
      )

  nothing {ℓ} :
      {A : Type ℓ} (a : Outcome A) (events : List (Event R W))
      → IsCovered guarded Clean events
      → Runs events (a, events)
  nothing a events covered = ([], sym (append-nil events), covered)

  remove-Runs :
      (resource : R) (events : List (Event R W))
      → r.get events ≡ found resource
      → IsCovered guarded Clean events
      → Runs events (remove r resource events)
  unfolding remove
  remove-Runs resource events got covered = elim (Bool-cases (has_finalizer r resource)) [
    | inl has ↦ rw has (
        after_delete-Runs resource events (run r r.delete_targets resource events)
          (Runs-guarded events (run r r.delete_targets resource events)
            (g.reads events resource got has) (run-Writes r.delete_targets resource events))
          (c.deletes events resource got))
    | inr lacks ↦ rw lacks (nothing {A = Option D × Option Error} (ok (none, none)) events covered)
  ]

  -- Behind an update that adds the finalizer, from its answer.
  after_add-Runs :
      (resource : R) (events : List (Event R W)) (answer : Option ApiError)
      → has_finalizer r resource ≡ true
      → r.answer events (update resource) ≡ answer
      → IsCovered guarded Clean events
      → Runs events (after_add r resource answer (events ++ update resource ∷ []))
  after_add-Runs resource events none has answered covered =
      let after = events ++ update resource ∷ [] in
      let (trace, e, through) =
        Runs-guarded after (synchronize r resource after) (g.accepts events resource answered has)
          (synchronize-Writes resource after) in
      (
        update resource ∷ trace,
        e ∙ append_assoc events (update resource ∷ []) trace,
        (covered, through),
      )
  after_add-Runs resource events (some e) has answered covered = (
    update resource ∷ [],
    refl,
    (
      covered,
      elim covered [
        | inl h ↦ inl (g.keeps events (update resource) h has)
        | inr h ↦ inr (c.stays events (update resource) h refl)
      ],
    ),
  )

  add_and_synchronize-Runs :
      (resource : R) (events : List (Event R W))
      → r.get events ≡ found resource
      → IsCovered guarded Clean events
      → Runs events (add_and_synchronize r resource events)
  unfolding add_and_synchronize
  add_and_synchronize-Runs resource events got covered =
      elim (Bool-cases (has_finalizer r resource)) [
        | inl has ↦ rw has (
            Runs-guarded events (synchronize r resource events) (g.reads events resource got has)
              (synchronize-Writes resource events))
        | inr lacks ↦ rw lacks (
            after_add-Runs
              (r.with_meta (r.util.add_finalizer (r.meta resource) resource_finalizer) resource)
              events _ (g.adds resource) refl covered)
      ]

  pub after_get-Runs :
      (events : List (Event R W)) (got : Got R)
      → r.get events ≡ got
      → IsCovered guarded Clean events
      → Runs events (after_get r got events)
  after_get-Runs events (failed e) got covered =
      nothing {A = Option D × Option Error} (after_get r (failed e) events).0 events covered
  after_get-Runs events (found resource) got covered =
      if_intro (λ (m : Exec (Event R W) (Option D × Option Error)). Runs events (m events))
        (is_deleted r resource) (remove-Runs resource events got covered)
        (add_and_synchronize-Runs resource events got covered)

  pub Through-part :
      (events more rest : List (Event R W))
      → Through guarded Clean events (more ++ rest)
      → IsCovered guarded Clean (events ++ more)
  Through-part events [] [] h = subst (IsCovered guarded Clean) (sym (append-nil events)) h
  Through-part events [] (e ∷ rest) h =
      subst (IsCovered guarded Clean) (sym (append-nil events)) h.0
  Through-part events (e ∷ more) rest h =
      subst (IsCovered guarded Clean) (append_assoc events (e ∷ []) more)
        (Through-part (events ++ e ∷ []) more rest h.1)
