-- ===== src/Examples/World.antt =====
-- A cluster that keeps one resource: its finalizers after some events, and when its user deletes it.
use kuberbac.Prelude.{
  ◌≡◌, refl, ap, ◌∙◌, ℕ, Bool, true, false, Option, none, some, List, [], ◌∷◌, ◌++◌, map, arith,
  Str, contains, contains-append, if◌then◌else◌, ==_refl, ApiError,
}
use mathlib.Core.List.{append-nil}
use kuberbac.Resources.{Meta}
use kuberbac.Reconcile.{
  Reconciler, ControllerUtil, Event, update, update_status, target, Got, found, failed,
  resource_finalizer,
}
use kuberbac.Reconcile.History.{is_target}

-- The finalizers that the API keeps: it drops the resource with the last one.
abbrev pub kept : List Str → Option (List Str)
kept finalizers = if contains finalizers resource_finalizer then some finalizers else none

abbrev pub guards : Option (List Str) → Bool
guards none = false
guards (some finalizers) = contains finalizers resource_finalizer

pub kept-guards :
    (finalizers : List Str)
    → contains finalizers resource_finalizer ≡ true
    → guards (kept finalizers) ≡ true
kept-guards finalizers h = rw h h

-- controllerutil, as far as the examples need it.
abbrev pub util : ControllerUtil
util = record {
  contains_finalizer = λ meta name. contains meta.finalizers name;
  add_finalizer = λ meta name. record meta { finalizers = meta.finalizers ++ name ∷ [] };
  remove_finalizer = λ meta name. record meta { finalizers = [] };
}

pub contains-added :
    (finalizers : List Str)
    → contains (finalizers ++ resource_finalizer ∷ []) resource_finalizer ≡ true
unfolding contains
contains-added finalizers = ground (
  arith,
  contains-append finalizers (resource_finalizer ∷ []) resource_finalizer,
  ==_refl resource_finalizer,
)

module _ {R W : Type 0} where
  -- The user deletes the resource once something is written.
  abbrev pub deletion_of : List (Event R W) → Option ℕ
  deletion_of [] = none
  deletion_of (e ∷ events) = some 1

  -- The writes to the targets.
  unfoldable pub targets_of : List (Event R W) → List W
  targets_of [] = []
  targets_of (target w ∷ events) = w ∷ targets_of events
  targets_of (update resource ∷ events) = targets_of events
  targets_of (update_status resource ∷ events) = targets_of events

  pub targets_of-append :
      (xs ys : List (Event R W)) → targets_of (xs ++ ys) ≡ targets_of xs ++ targets_of ys
  unfolding targets_of
  targets_of-append [] ys = refl
  targets_of-append (target w ∷ xs) ys = ap (λ ws. w ∷ ws) (targets_of-append xs ys)
  targets_of-append (update resource ∷ xs) ys = targets_of-append xs ys
  targets_of-append (update_status resource ∷ xs) ys = targets_of-append xs ys

targets_of-map :
    (R : Type 0) {W : Type 0} (writes : List W) → targets_of {R = R} (map target writes) ≡ writes
unfolding targets_of
targets_of-map R [] = refl
targets_of-map R (w ∷ writes) = ap (λ ws. w ∷ ws) (targets_of-map R writes)

module _ {R W : Type 0} where
  pub targets_of-run :
      (events : List (Event R W)) (writes : List W)
      → targets_of (events ++ map target writes) ≡ targets_of events ++ writes
  targets_of-run events writes =
      targets_of-append events (map target writes)
      ∙ ap (λ ws. targets_of events ++ ws) (targets_of-map R writes)

module _ {R W D : Type 0} (r : Reconciler R W D) where
  pub targets_of-other :
      (events : List (Event R W)) (e : Event R W)
      → is_target r e ≡ false
      → targets_of (events ++ e ∷ []) ≡ targets_of events
  unfolding targets_of
  targets_of-other events (update resource) h =
      targets_of-append events _ ∙ append-nil (targets_of events)
  targets_of-other events (update_status resource) h =
      targets_of-append events _ ∙ append-nil (targets_of events)
  targets_of-other events (target w) h = cc

module _ {R W : Type 0} (meta_of : R → Meta) where
  unfoldable pub finalizers_after : Option (List Str) → List (Event R W) → Option (List Str)
  finalizers_after kept_ones [] = kept_ones
  finalizers_after kept_ones (update resource ∷ events) =
      finalizers_after (kept (meta_of resource).finalizers) events
  finalizers_after kept_ones (update_status resource ∷ events) = finalizers_after kept_ones events
  finalizers_after kept_ones (target w ∷ events) = finalizers_after kept_ones events

  abbrev pub now_kept : List (Event R W) → Option (List Str)
  now_kept events = finalizers_after (some (resource_finalizer ∷ [])) events

  abbrev pub guarded : List (Event R W) → Bool
  guarded events = guards (now_kept events)

  finalizers_after-append :
      (kept_ones : Option (List Str)) (xs ys : List (Event R W))
      → finalizers_after kept_ones (xs ++ ys) ≡ finalizers_after (finalizers_after kept_ones xs) ys
  unfolding finalizers_after
  finalizers_after-append kept_ones [] ys = refl
  finalizers_after-append kept_ones (target w ∷ xs) ys = finalizers_after-append kept_ones xs ys
  finalizers_after-append kept_ones (update resource ∷ xs) ys =
      finalizers_after-append (kept (meta_of resource).finalizers) xs ys
  finalizers_after-append kept_ones (update_status resource ∷ xs) ys =
      finalizers_after-append kept_ones xs ys

  pub now_kept-update :
      (events : List (Event R W)) (resource : R)
      → now_kept (events ++ update resource ∷ []) ≡ kept (meta_of resource).finalizers
  unfolding finalizers_after
  now_kept-update events resource =
      finalizers_after-append (some (resource_finalizer ∷ [])) events (update resource ∷ [])

  pub guarded-update :
      (events : List (Event R W)) (resource : R)
      → contains (meta_of resource).finalizers resource_finalizer ≡ true
      → guarded (events ++ update resource ∷ []) ≡ true
  guarded-update events resource has =
      ap guards (now_kept-update events resource) ∙ kept-guards (meta_of resource).finalizers has

  pub guarded-other :
      (events : List (Event R W)) (e : Event R W)
      → finalizers_after (now_kept events) (e ∷ []) ≡ now_kept events
      → guarded events ≡ true
      → guarded (events ++ e ∷ []) ≡ true
  guarded-other events e same h =
      ap guards (finalizers_after-append (some (resource_finalizer ∷ [])) events (e ∷ []) ∙ same)
      ∙ h

-- What the API answers to a get.
module _ {R : Type 0} (resource_with : Option ℕ → List Str → R) where
  abbrev pub answer_of : Option ℕ → Option (List Str) → Got R
  answer_of deletion none = failed ApiError.not_found
  answer_of deletion (some finalizers) = found (resource_with deletion finalizers)
