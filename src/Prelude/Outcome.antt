-- ===== src/Prelude/Outcome.antt =====
-- What a C++ function that may throw gives back, and the exceptions that the sources throw.
use Prim.Native.Nat.{ℕ}
use Prim.Native.String.{String}
use mathlib.Core.Path.{◌≡◌, refl}
use mathlib.Core.Logic.{◌⊎◌, inl, inr}
use mathlib.Core.List.{List}

-- The classes of exceptions.h with the arguments that their messages are made of; the exceptions of
-- the C++ library; and `undefined`, for an operation whose behaviour C++ does not define (signed
-- overflow, a null dereference, an index out of range). `out_of_fuel` is of the model alone: each
-- function that recurses on fuel has a theorem that says how much is enough.
pub data Error : Type 0 where
  bad_type : String → String → String → Error
  value_equality_expected : String → String → String → Error
  type_equality_expected : String → String → String → Error
  nil_dot : Error
  bad_dot_access : String → Error
  crossed_local : String → List String → Error
  invisible_label : String → Error
  lonely_break : ℕ → Error
  label_already_defined : String → Error
  bad_call : String → Error
  bad_for_in : Error
  for_in_bad_type : String → Error
  bind_overflow : Error
  unbounded_call : Error
  runtime_error : String → Error
  invalid_argument : Error
  out_of_range : Error
  bad_variant_access : Error
  bad_any_cast : Error
  bad_function_call : Error
  undefined : Error
  out_of_fuel : Error

-- ContextlessBadTypeException(expected, received).
abbrev pub contextless_bad_type : String → String → Error
contextless_bad_type expected received = bad_type expected received ""

pub data Result {ℓ} (A : Type ℓ) : Type ℓ where
  ok : A → Result A
  err : Error → Result A

infixl 5 ◌>>=◌
abbrev pub ◌>>=◌ {ℓ κ} : {S : Type ℓ} {T : Type κ} → Result S → (S → Result T) → Result T
ok s >>= next = next s
err raised >>= next = err raised

pub Result-cases {ℓ} :
    {A : Type ℓ} (r : Result A) → ((a : A) × (r ≡ ok a)) ⊎ ((e : Error) × (r ≡ err e))
Result-cases (ok a) = inl (a, refl)
Result-cases (err e) = inr (e, refl)

infixl 5 ◌>>◌
abbrev pub ◌>>◌ {ℓ} : {T : Type ℓ} → Result (Unit {0}) → Result T → Result T
check >> after = check >>= λ _. after

-- Inversion of a bind that succeeds.
pub >>=-eq-ok {ℓ κ} :
    {S : Type ℓ} {T : Type κ} (first : Result S) (next : S → Result T) {t : T}
    → (first >>= next) ≡ ok t
    → (s : S) × (first ≡ ok s) × (next s ≡ ok t)
>>=-eq-ok (ok s) next e = (s, refl, e)
>>=-eq-ok (err raised) next e = cc
