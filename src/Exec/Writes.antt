-- ===== src/Exec/Writes.antt =====
-- Programs of whose writes each has a property.
use kuberbac.Prelude.{
  ◌≡◌, refl, sym, ap, ◌∙◌, List, [], ◌∷◌, ◌++◌, Option, Outcome, ok, err, panic, Error, ApiError,
  All, All-append,
}
use mathlib.Core.List.{append-nil, append_assoc}
use kuberbac.Exec.{Exec, ◌>>=◌, continue, call, as_error}

module _ {W : Type 0} (P : W → Type 0) where
  -- What the run has added to the writes has the property.
  abbrev pub Added {ℓ} : {A : Type ℓ} → List W → Outcome A × List W → Type 0
  Added writes result = (done : List W) × (result.1 ≡ writes ++ done) × All P done

  -- So it is in every run of the program.
  abbrev pub Writes {ℓ} : {A : Type ℓ} → Exec W A → Type 0
  Writes m = (writes : List W) → Added writes (m writes)

  pub no_writes {ℓ} : {A : Type ℓ} (r : Outcome A) (writes : List W) → Added writes (r, writes)
  no_writes r writes = ([], sym (append-nil writes), tt)

  pub call-Writes : (answer : List W → W → Option ApiError) (w : W) → P w → Writes (call answer w)
  call-Writes answer w h writes = (w ∷ [], refl, (h, tt))

  continue-Added {ℓ κ} :
      {A : Type ℓ} {B : Type κ} (r : Outcome A) (writes writes' : List W) (f : A → Exec W B)
      → Added writes (r, writes')
      → ((a : A) → Writes (f a))
      → Added writes (continue r f writes')
  continue-Added (ok a) writes writes' f (done, e, h) k =
      let (more, e', h') = k a writes' in
      (
        done ++ more,
        e' ∙ (ap (λ ws. ws ++ more) e ∙ append_assoc writes done more),
        All-append P done more h h',
      )
  continue-Added (err x) writes writes' f (done, e, h) k = (done, e, h)
  continue-Added panic writes writes' f (done, e, h) k = (done, e, h)

  pub bind-Writes {ℓ κ} :
      {A : Type ℓ} {B : Type κ} (m : Exec W A) (f : A → Exec W B)
      → Writes m
      → ((a : A) → Writes (f a))
      → Writes (m >>= f)
  bind-Writes m f h k writes = continue-Added (m writes).0 writes (m writes).1 f (h writes) k

  pub as_error-Added :
      (result : Outcome (Option Error) × List W) (writes : List W)
      → Added writes result
      → Added writes (as_error result)
  as_error-Added (ok e, ws) writes h = h
  as_error-Added (err e, ws) writes h = h
  as_error-Added (panic, ws) writes h = h
