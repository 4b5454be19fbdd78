-- ===== src/Prelude/Results.antt =====
-- What a call of the program comes to: a value, an error value, or a panic.
use mathlib.Core.Path.{◌≡◌, refl}
use mathlib.Core.Option.{Option, none, some}
use mathlib.Core.List.{List}
use Prim.Native.Nat.{ℕ}
use Prim.Native.String.{String}

-- The errors of the Kubernetes API, as far as the program tells them apart.
pub data ApiError : Type 0 where
  not_found : ApiError
  refused : ℕ → ApiError

-- The errors that the program makes: `errors.New` texts, `fmt.Errorf("…: %s", err.Error())`, and
-- `errors.Join`.
pub data Error : Type 0 where
  api : ApiError → Error
  message : String → Error
  wrapped : String → Error → Error
  joined : List (String × ApiError) → Error

pub data Outcome {ℓ} (A : Type ℓ) : Type ℓ where
  ok : A → Outcome A
  err : Error → Outcome A
  panic : Outcome A

infixl 5 ◌>>=◌
abbrev pub ◌>>=◌ {ℓ κ} : {A : Type ℓ} {B : Type κ} → Outcome A → (A → Outcome B) → Outcome B
panic >>= next = panic
err e >>= next = err e
ok value >>= next = next value

-- `xs[i]`, which panics out of range.
abbrev pub or_panic {ℓ} : {A : Type ℓ} → Option A → Outcome A
or_panic none = panic
or_panic (some a) = ok a

pub >>=-eq-ok {ℓ κ} :
    {A : Type ℓ} {B : Type κ} (r : Outcome A) (next : A → Outcome B) {result : B}
    → (r >>= next) ≡ ok result
    → (value : A) × (r ≡ ok value) × (next value ≡ ok result)
>>=-eq-ok panic next ran = cc
>>=-eq-ok (err e) next ran = cc
>>=-eq-ok (ok value) next ran = (value, refl, ran)

-- What holds of the value that is returned, if one is.
abbrev pub Holds {ℓ} : {A : Type ℓ} → (A → Type 0) → Outcome A → Type 0
Holds P (ok a) = P a
Holds P (err e) = Unit
Holds P panic = Unit

pub bind-Holds {ℓ κ} :
    {A : Type ℓ} {B : Type κ} (P : B → Type 0) (r : Outcome A) (f : A → Outcome B)
    → ((a : A) → Holds P (f a))
    → Holds P (r >>= f)
bind-Holds P (ok a) f h = h a
bind-Holds P (err e) f h = tt
bind-Holds P panic f h = tt

-- The same, where the rest is known to run on the value of the first step.
pub bind_at-Holds {ℓ κ} :
    {A : Type ℓ} {B : Type κ} (P : B → Type 0) (r : Outcome A) (f : A → Outcome B)
    → ((a : A) → r ≡ ok a → Holds P (f a))
    → Holds P (r >>= f)
bind_at-Holds P (ok a) f h = h a refl
bind_at-Holds P (err e) f h = tt
bind_at-Holds P panic f h = tt

pub >>=_cong {ℓ κ} :
    {A : Type ℓ} {B : Type κ} (r : Outcome A) (f g : A → Outcome B)
    → ((a : A) → f a ≡ g a)
    → (r >>= f) ≡ (r >>= g)
>>=_cong (ok a) f g h = h a
>>=_cong (err e) f g h = refl
>>=_cong panic f g h = refl

pub ok-injective {ℓ} : {A : Type ℓ} {x y : A} → ok x ≡ ok y → x ≡ y
ok-injective h = cc
