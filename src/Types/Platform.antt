-- ===== src/Types/Platform.antt =====
-- What types.cpp and interpreter.cpp use of C++ itself: `double` with its operations, the conversions
-- between texts and numbers, and the range of `int`.
use luapp.Prelude.{
  ℕ, suc, ◌+◌, ◌^◌, ◌≤◌, String, Option, none, some, Bool, false, leb, nat_eq, if◌then◌else◌,
  Result, ok, err, undefined,
}
use luapp.Prelude.Int.{ℤ, pos, negsuc}

pub record Platform : Type 1 where
  pub Double : Type 0
  -- The conversion of an `int`, and of a `double` to `int`, which is undefined out of range.
  pub of_int : ℤ → Double
  pub to_int : Double → Option ℤ
  -- `std::modf(d, &intpart) == 0.0`.
  pub is_whole : Double → Bool
  pub add : Double → Double → Double
  pub sub : Double → Double → Double
  pub mul : Double → Double → Double
  pub div : Double → Double → Double
  pub neg : Double → Double
  pub pow : Double → Double → Double
  pub remainder : Double → Double → Double
  pub floor : Double → Double
  pub fabs : Double → Double
  pub eq : Double → Double → Bool
  pub lt : Double → Double → Bool
  pub le : Double → Double → Bool
  pub one : Double
  pub epsilon : Double
  -- `std::stod` and `std::stoi`: a number, or the exception that they throw.
  pub stod : String → Result Double
  pub stoi : String → Result ℤ
  -- `std::stoi` in base 16.
  pub stoi_16 : String → Result ℤ
  -- `operator<<` of an output stream.
  pub show_int : ℤ → String
  pub show_double : Double → String
  pub show_pointer : ℕ → String

-- The values of a 32-bit `int`.
abbrev pub IsInt : ℤ → Type 0
IsInt (pos n) = suc n ≤ 2 ^ 31
IsInt (negsuc n) = suc n ≤ 2 ^ 31

-- The result of an operation on `int`: signed overflow is undefined.
unfoldable pub as_int : ℤ → Result ℤ
as_int (pos n) = if leb (n + 1) (2 ^ 31) then ok (pos n) else err undefined
as_int (negsuc n) = if leb (n + 1) (2 ^ 31) then ok (negsuc n) else err undefined

abbrev pub int_eq : ℤ → ℤ → Bool
int_eq (pos m) (pos n) = nat_eq m n
int_eq (negsuc m) (negsuc n) = nat_eq m n
int_eq (pos m) (negsuc n) = false
int_eq (negsuc m) (pos n) = false

-- The conversion of a `double` that is returned as an `int`.
abbrev pub deref_int : Option ℤ → Result ℤ
deref_int none = err undefined
deref_int (some i) = ok i
