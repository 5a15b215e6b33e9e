-- ===== src/Types/Halves.antt =====
-- Test data: doubles that are the multiples of one half, by twice their value, and the texts "10" and
-- "10.5" as the only ones that read as numbers.
use luapp.Prelude.{
  suc, ◌+◌, ◌*◌, ◌/◌, ◌%◌, String, some, Bool, not, nat_eq, if◌then◌else◌, Result, ok, err,
  invalid_argument, ◌==◌, eq_string,
}
use luapp.Prelude.Int.{ℤ, pos, negsuc, ◌+ℤ◌, ◌-ℤ◌, ◌*ℤ◌, ltb_ℤ}
use luapp.Types.Platform.{Platform, int_eq}

abbrev half : ℤ → ℤ
half (pos n) = pos (n / 2)
half (negsuc n) = negsuc (n / 2)

abbrev even : ℤ → Bool
even (pos n) = nat_eq (n % 2) 0
even (negsuc n) = nat_eq (n % 2) 1

abbrev quotient : ℤ → ℤ → ℤ
quotient (pos m) (pos (suc n)) = pos (2 * m / suc n)
quotient (negsuc m) (pos (suc n)) = negsuc ((2 * m + 1) / suc n)
quotient m n = pos 0

abbrev magnitude : ℤ → ℤ
magnitude (pos n) = pos n
magnitude (negsuc n) = pos (suc n)

abbrev parse : String → Result ℤ
parse s =
    if s == "10" then ok (pos 20) else (if s == "10.5" then ok (pos 21) else err invalid_argument)

abbrev pub halves : Platform
halves = record {
  Double = ℤ;
  of_int = λ i. pos 2 *ℤ i;
  to_int = λ d. some (half d);
  is_whole = even;
  add = λ a b. a +ℤ b;
  sub = λ a b. a -ℤ b;
  mul = λ a b. half (a *ℤ b);
  div = quotient;
  neg = λ d. pos 0 -ℤ d;
  pow = λ a b. half (a *ℤ b);
  remainder = λ a b. a -ℤ b;
  floor = λ d. pos 2 *ℤ half d;
  fabs = magnitude;
  eq = int_eq;
  lt = ltb_ℤ;
  le = λ a b. not (ltb_ℤ b a);
  one = pos 2;
  epsilon = pos 0;
  stod = parse;
  stoi = λ s. elim (parse s) [ ok d ↦ ok (half d) | err e ↦ err e ];
  stoi_16 = λ s. err invalid_argument;
  show_int = λ i. "10";
  show_double = λ d. "10.5";
  show_pointer = λ p. "0x10";
}
