-- ===== src/Base/Errors.antt =====
-- Errors as values. A Go function that returns `(T, error)` is a function into `Result T`.
use Prim.Native.Nat.{ℕ}
use Prim.Native.String.{String}
use mathlib.Core.Path.{◌≡◌, refl}
use mathlib.Core.Logic.{◌⊎◌, inl, inr}
use mathlib.Core.Option.{Option, none, some}

-- The sentinel errors of errors.go and of the cloud-provider package, the two SDK errors that
-- `is404Error` looks at, and formatted errors. `errorf` keeps the fixed text alone of a format
-- whose error is printed by %v or %s, and `wrapf` the error under %w.
pub data Error : Type 0 where
  bad_provider_id : Error
  instance_duplicated : Error
  instance_not_found : Error
  not_implemented : Error
  ip_address_not_found : Error
  ip_address_in_use : Error
  load_balancer_not_found : Error
  load_balancer_duplicated : Error
  load_balancer_not_ready : Error
  invalid_annotation : Error
  invalid_load_balancer_id : Error
  annotation_error : String → String → Error
  resource_not_found : Error
  response_error : ℕ → Error
  errorf : String → Error
  wrapf : String → Error → Error

pub data Result {ℓ} (A : Type ℓ) : Type ℓ where
  ok : A → Result A
  err : Error → Result A

infixl 5 ◌>>=◌
abbrev pub ◌>>=◌ {ℓ κ} : {B : Type κ} {A : Type ℓ} → Result A → (A → Result B) → Result B
ok value >>= next = next value
err failure >>= next = err failure

-- `return fmt.Errorf(…)` in place of the error of a call.
abbrev pub or_errorf {ℓ} : {A : Type ℓ} → Result A → Error → Result A
or_errorf (ok a) e = ok a
or_errorf (err _) e = err e

abbrev pub some_or {ℓ} : {A : Type ℓ} → Option A → Error → Result A
some_or none e = err e
some_or (some a) e = ok a

pub Result-cases {ℓ} :
    {A : Type ℓ} (r : Result A) → ((a : A) × (r ≡ ok a)) ⊎ ((e : Error) × (r ≡ err e))
Result-cases (ok a) = inl (a, refl)
Result-cases (err e) = inr (e, refl)

pub >>=-eq-ok {ℓ κ} :
    {B : Type κ} {b : B} {A : Type ℓ} (r : Result A) (next : A → Result B)
    → (r >>= next) ≡ ok b
    → (value : A) × (r ≡ ok value) × (next value ≡ ok b)
>>=-eq-ok (ok value) next e = (value, refl, e)
>>=-eq-ok (err failure) next e = cc

-- Two continuations that agree give one result.
pub bind-congr {ℓ κ} :
    {A : Type ℓ} {B : Type κ} (m : Result A) {f g : A → Result B}
    → ((a : A) → f a ≡ g a)
    → (m >>= f) ≡ (m >>= g)
bind-congr (ok a) h = h a
bind-congr (err e) h = refl

pub or_errorf-ok : {A : Type 0} (r : Result A) (e : Error) (a : A) → or_errorf r e ≡ ok a → r ≡ ok a
or_errorf-ok (ok b) e a h = h
or_errorf-ok (err f) e a h = cc
