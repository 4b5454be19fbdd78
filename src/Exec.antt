-- ===== src/Exec.antt =====
-- Programs that call the Kubernetes API. A program goes on from the list of the writes that it has
-- made, the latest last, and what the API answers to a read or a write may depend on that list in any
-- way. So a statement for every API holds whatever the cluster does between two calls.
pub mod Writes
use Prim.Native.String.{String}
use kuberbac.Prelude.{
  ◌≡◌, refl, Bool, true, false, List, [], ◌∷◌, ◌++◌, Option, none, some, Outcome, ok, err, panic,
  Error, ApiError, api, joined,
}

-- The run of a program that makes writes of type `W`: what it comes to, and the writes so far.
abbrev pub Exec {ℓ} : Type 0 → Type ℓ → Type ℓ
Exec W A = List W → Outcome A × List W

abbrev pub continue {ℓ κ} :
    {W : Type 0} {A : Type ℓ} {B : Type κ} → Outcome A → (A → Exec W B) → Exec W B
continue (ok a) f writes = f a writes
continue (err e) f writes = (err e, writes)
continue panic f writes = (panic, writes)

infixl 5 ◌>>=◌
abbrev pub ◌>>=◌ {ℓ κ} :
    {W : Type 0} {A : Type ℓ} {B : Type κ} → Exec W A → (A → Exec W B) → Exec W B
◌>>=◌ m f writes = let (r, writes') = m writes in continue r f writes'

-- A step that calls nothing.
abbrev pub lift {ℓ} : {W : Type 0} {A : Type ℓ} → Outcome A → Exec W A
lift r writes = (r, writes)

abbrev pub pure {ℓ} : {W : Type 0} {A : Type ℓ} → A → Exec W A
pure a writes = (ok a, writes)

-- `err = client.Update(…)` or `err = client.Delete(…)`, where `answer` is the API's.
abbrev pub call : {W : Type 0} → (List W → W → Option ApiError) → W → Exec W (Option ApiError)
call answer w writes = (ok (answer writes w), writes ++ w ∷ [])

-- A read, which may fail.
abbrev pub read {ℓ} : {W : Type 0} {A : Type ℓ} → (List W → Outcome A) → Exec W A
read query writes = (query writes, writes)

-- `fmt.Errorf(text, err.Error())` around a step's error.
abbrev pub wrap_error {ℓ} : {A : Type ℓ} → (Error → Error) → Outcome A → Outcome A
wrap_error f (ok a) = ok a
wrap_error f (err e) = err (f e)
wrap_error f panic = panic

-- client.IgnoreNotFound
abbrev pub ignore_not_found : Option ApiError → Option ApiError
ignore_not_found none = none
ignore_not_found (some ApiError.not_found) = none
ignore_not_found (some (ApiError.refused code)) = some (ApiError.refused code)

-- The answer to a deletion behind which the object is not there.
abbrev pub is_gone : Option ApiError → Bool
is_gone none = true
is_gone (some ApiError.not_found) = true
is_gone (some (ApiError.refused code)) = false

-- The failures of some deletions with that of one more in front, unless that one succeeded or found
-- nothing to delete.
abbrev pub with_failure :
    String → Option ApiError → List (String × ApiError) → List (String × ApiError)
with_failure text none failures = failures
with_failure text (some ApiError.not_found) failures = failures
with_failure text (some (ApiError.refused code)) failures = (text, ApiError.refused code) ∷ failures

-- An error of a step is the error that the function returns.
abbrev pub as_error :
    {W : Type 0} → Outcome (Option Error) × List W → Outcome (Option Error) × List W
as_error (ok e, writes) = (ok e, writes)
as_error (err e, writes) = (ok (some e), writes)
as_error (panic, writes) = (panic, writes)

-- What a function returns after a list call: the call's error, or what becomes of the items.
abbrev pub after_list {ℓ} :
    {W : Type 0} {A : Type ℓ}
    → Outcome A
    → List W
    → (A → Outcome (Option Error) × List W)
    → Outcome (Option Error) × List W
after_list (ok items) writes f = f items
after_list (err e) writes f = (ok (some e), writes)
after_list panic writes f = (panic, writes)

-- errors.Join
abbrev pub join_errors : List (String × ApiError) → Option Error
join_errors [] = none
join_errors (e ∷ errors) = some (joined (e ∷ errors))

-- A step that calls nothing, and the rest of the program.
pub continue_intro {ℓ κ μ} :
    {W : Type 0} {A : Type ℓ} {B : Type κ} (Q : Outcome B × List W → Type μ) (r : Outcome A)
    (f : A → Exec W B) (writes : List W)
    → ((a : A) → r ≡ ok a → Q (f a writes))
    → ((e : Error) → Q (err e, writes))
    → Q (panic, writes)
    → Q (continue r f writes)
continue_intro Q (ok a) f writes h k l = h a refl
continue_intro Q (err e) f writes h k l = k e
continue_intro Q panic f writes h k l = l
