-- ===== src/Types/Equal.antt =====
-- types.cpp: `Value::operator==`.
pub mod Laws
use luapp.Prelude.{
  ℕ, String, Bool, true, false, not, ◌==◌, eq_nat, eq_string, bool_eq, nat_eq, if◌then◌else◌, ◌≡◌,
  refl, Result, ok, err, Error, bad_type, contextless_bad_type, bad_variant_access, undefined,
  ◌>>=◌, arith, Option, none, some, ◌≢◌, ◌⊎◌, inl, inr, Bool-cases,
}
use text.Mathlib.TextEquality.{eq_iff}
use luapp.Prelude.Int.{ℤ, pos, negsuc}
use luapp.Types.Platform.{Platform, int_eq, deref_int}
use luapp.Types.Value.{
  LuaValue, boolean, int, double, string, nil, elipsis, function, userdata, table, index,
  type_as_string,
}
use luapp.Types.Coerce.{as_int_weak, as_double_weak, as_bool_weak, whole}

module _ (P : Platform) where
  open P use {Double, of_int, is_whole, to_int, sub, mul, fabs, eq, lt, le, one, epsilon}

  -- `std::max`.
  unfoldable pub std_max : Double → Double → Double
  std_max a b = if lt a b then b else a

  -- Two doubles are equal up to a tolerance that grows with them.
  unfoldable pub close : Double → Double → Bool
  close a b = le (fabs (sub a b)) (mul epsilon (std_max one (std_max (fabs a) (fabs b))))

  -- The comparison of two values of one alternative.
  unfoldable pub same_type_equal : LuaValue Double → LuaValue Double → Result Bool
  same_type_equal (double a) (double b) = ok (close a b)
  same_type_equal (int a) (int b) = ok (int_eq a b)
  same_type_equal (boolean a) (boolean b) = ok (bool_eq a b)
  same_type_equal (string a) (string b) = ok (a == b)
  same_type_equal nil nil = ok true
  same_type_equal (elipsis _) (elipsis _) = ok true
  same_type_equal (table a) (table b) = ok (nat_eq a b)
  same_type_equal (userdata a) (userdata b) = ok (nat_eq a b)
  same_type_equal (function a) (function b) = ok (nat_eq a b)
  same_type_equal v _ = err bad_variant_access

  -- The comparison of two values of different alternatives.
  unfoldable pub mixed_equal : LuaValue Double → LuaValue Double → Result Bool
  mixed_equal (double a) (int b) = as_double_weak P (int b) >>= λ b'. ok (eq a b')
  mixed_equal (int a) (double b) = as_int_weak P true (double b) >>= λ b'. ok (int_eq a b')
  mixed_equal (boolean a) v = ok (bool_eq a (as_bool_weak P v))
  mixed_equal v (boolean b) = ok (bool_eq (as_bool_weak P v) b)
  mixed_equal _ _ = ok false

  -- `same_object` is `this == &other`.
  unfoldable pub equal : Bool → LuaValue Double → LuaValue Double → Result Bool
  equal same_object a b =
      if same_object
      then ok true
      else if nat_eq (index a) (index b)
      then same_type_equal a b
      else mixed_equal a b
