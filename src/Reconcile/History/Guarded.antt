-- ===== src/Reconcile/History/Guarded.antt =====
-- The finalizer of the two controllers, over all their histories.
use kuberbac.Prelude.{◌≡◌, refl, sym, subst, ◌∙◌, Bool, List, ◌++◌}
use mathlib.Core.List.{append_assoc}
use kuberbac.Reconcile.{Reconciler, Event, reconcile}
use mathlib.Core.List.{append_cancel_left}
use kuberbac.Reconcile.History.{Step, ran, Reach, here, next, IsFinalized, IsCovered, IsCleaning}
use kuberbac.Reconcile.History.Runs.{Through, Through-part, after_get-Runs}

module _ {R W D : Type 0} (r : Reconciler R W D) {guarded : List (Event R W) → Bool}
    {Clean : List (Event R W) → Type 0} (g : IsFinalized r guarded) (c : IsCleaning r Clean) where
  Step-IsCovered :
      {events events' : List (Event R W)}
      → Step r events events'
      → IsCovered guarded Clean events
      → IsCovered guarded Clean events'
  unfolding reconcile
  Step-IsCovered (ran events more rest e) covered =
      let (trace, e', through) = after_get-Runs r g c events (r.get events) refl covered in
      let same : trace ≡ more ++ rest =
        append_cancel_left events trace (more ++ rest)
          (sym e' ∙ (e ∙ append_assoc events more rest)) in
      Through-part r g c events more rest (subst (Through guarded Clean events) same through)

  -- Suppose that AddFinalizer adds the finalizer, a get of the resource is not stale, an accepted
  -- update is kept, nobody else takes the finalizer or makes targets, and DeleteTargets leaves no
  -- target when it returns no error. From events after which the API keeps the resource with the
  -- finalizer or keeps none of its targets, after any history of runs of Reconcile, each to its end
  -- or to a crash after any of its writes, it is so again.
  pub Reach-IsCovered :
      (first events : List (Event R W))
      → IsCovered guarded Clean first
      → Reach r first events
      → IsCovered guarded Clean events
  Reach-IsCovered first events covered here = covered
  Reach-IsCovered first events covered (next reached step) =
      Step-IsCovered step (Reach-IsCovered first _ covered reached)
