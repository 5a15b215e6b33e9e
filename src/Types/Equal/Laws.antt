-- ===== src/Types/Equal/Laws.antt =====
-- When the equality of values is symmetric, what it throws, and what it makes of booleans.
use luapp.Prelude.{
  Error, ℕ, Bool, true, false, nat_eq, bool_eq, if◌then◌else◌, ◌≡◌, ◌⊎◌, inl, inr, refl, Result, ok,
  err, contextless_bad_type, undefined, ◌>>=◌, arith, Option, none, some, eq_string, Bool-cases, ap,
}
use text.Mathlib.TextEquality.{eq_iff}
use luapp.Prelude.Int.{ℤ, pos, negsuc}
use luapp.Types.Platform.{Platform, int_eq, deref_int}
use luapp.Types.Value.{
  LuaValue, boolean, int, double, string, nil, elipsis, function, userdata, table, index,
}
use luapp.Types.Coerce.{as_int_weak, as_double_weak, as_bool_weak, whole}
use luapp.Types.Equal.{same_type_equal, mixed_equal, equal}
use luapp.Types.Table.{eq_int}

bool_eq_comm : (a b : Bool) → bool_eq a b ≡ bool_eq b a
bool_eq_comm true true = refl
bool_eq_comm true false = refl
bool_eq_comm false true = refl
bool_eq_comm false false = refl

nat_eq_comm : (a b : ℕ) → nat_eq a b ≡ nat_eq b a
nat_eq_comm a b = ground arith

int_eq_comm : (a b : ℤ) → int_eq a b ≡ int_eq b a
int_eq_comm (pos m) (pos n) = nat_eq_comm m n
int_eq_comm (negsuc m) (negsuc n) = nat_eq_comm m n
int_eq_comm (pos m) (negsuc n) = refl
int_eq_comm (negsuc m) (pos n) = refl

module _ (P : Platform) where
  open P use {Double, is_whole, to_int}

  -- Neither two doubles nor an int and a double.
  abbrev pub NotNumericMix : LuaValue Double → LuaValue Double → Type 0
  NotNumericMix (double _) (double _) = ⊥
  NotNumericMix (double _) (int _) = ⊥
  NotNumericMix (int _) (double _) = ⊥
  NotNumericMix _ _ = Unit

  equal-comm_false :
      (a b : LuaValue Double) → NotNumericMix a b → equal P false a b ≡ equal P false b a
  unfolding equal same_type_equal mixed_equal index
  equal-comm_false (boolean x) (boolean y) h = ap (λ r. ok r) (bool_eq_comm x y)
  equal-comm_false (int x) (int y) h = ap (λ r. ok r) (int_eq_comm x y)
  equal-comm_false (string x) (string y) h = ground (arith, eq_iff x y, eq_iff y x)
  equal-comm_false (table x) (table y) h = ap (λ r. ok r) (nat_eq_comm x y)
  equal-comm_false (function x) (function y) h = ap (λ r. ok r) (nat_eq_comm x y)
  equal-comm_false (userdata x) (userdata y) h = ap (λ r. ok r) (nat_eq_comm x y)
  equal-comm_false (double x) (double y) h = absurd h
  equal-comm_false (double x) (int y) h = absurd h
  equal-comm_false (int x) (double y) h = absurd h
  equal-comm_false (boolean x) y h = ap (λ r. ok r) (bool_eq_comm x (as_bool_weak P y))
  equal-comm_false x (boolean y) h = ap (λ r. ok r) (bool_eq_comm (as_bool_weak P x) y)
  equal-comm_false x y h = refl

  same_type_equal_returns :
      (a b : LuaValue Double)
      → nat_eq (index a) (index b) ≡ true
      → (r : Bool) × (same_type_equal P a b ≡ ok r)
  unfolding same_type_equal index
  same_type_equal_returns (boolean _) (boolean _) h = (_, refl)
  same_type_equal_returns (int _) (int _) h = (_, refl)
  same_type_equal_returns (double _) (double _) h = (_, refl)
  same_type_equal_returns (string _) (string _) h = (_, refl)
  same_type_equal_returns nil nil h = (_, refl)
  same_type_equal_returns (elipsis _) (elipsis _) h = (_, refl)
  same_type_equal_returns (function _) (function _) h = (_, refl)
  same_type_equal_returns (userdata _) (userdata _) h = (_, refl)
  same_type_equal_returns (table _) (table _) h = (_, refl)
  same_type_equal_returns _ _ h = cc

  -- The double that `equal` has to read as an int, where it stands, is not the double of one.
  abbrev pub Fails : LuaValue Double → LuaValue Double → Error → Type 0
  Fails (int i) (double d) e =
      ((is_whole d ≡ false) × (e ≡ contextless_bad_type "integer" "double"))
      ⊎ ((is_whole d ≡ true) × (to_int d ≡ none) × (e ≡ undefined))
  Fails _ _ e = ⊥

  -- A result where nothing fails, or just the error that says what does.
  abbrev pub Decided : LuaValue Double → LuaValue Double → Result Bool → Type 0
  Decided a b (ok _) = (e : Error) → Fails a b e → ⊥
  Decided a b (err e) = Fails a b e

  whole-Decided :
      (i : ℤ) (d : Double)
      → Decided
          (int i)
          (double d)
          (whole P (contextless_bad_type "integer" "double") d >>= λ j. ok (int_eq i j))
  whole-Decided i d = go (is_whole d) (to_int d) refl refl
    where
      go :
          (w : Bool) (o : Option ℤ)
          → is_whole d ≡ w
          → to_int d ≡ o
          → Decided (int i) (double d) (
              (if w then deref_int o else err (contextless_bad_type "integer" "double")) >>= λ j.
              ok (int_eq i j))
      go false o p q = inl (p, refl)
      go true none p q = inr (p, q, refl)
      go true (some j) p q = λ e. elim [ inl h ↦ cc | inr h ↦ cc ]

  mixed-Decided :
      (a b : LuaValue Double) → nat_eq (index a) (index b) ≡ false → Decided a b (mixed_equal P a b)
  unfolding mixed_equal index as_int_weak as_double_weak
  mixed-Decided (int i) (double d) h = whole-Decided i d
  mixed-Decided (double d) (int i) h = λ e t. t
  mixed-Decided (boolean b) v h = λ e t. t
  mixed-Decided v (boolean b) h = λ e t. t
  mixed-Decided _ _ h = λ e t. t

  not-Fails :
      (a b : LuaValue Double) (x : Error) → nat_eq (index a) (index b) ≡ true → Fails a b x → ⊥
  unfolding index
  not-Fails (int i) (double d) x e t = cc
  not-Fails (int i) v x e t = absurd t
  not-Fails v w x e t = absurd t

  same_type-Decided :
      (a b : LuaValue Double)
      → nat_eq (index a) (index b) ≡ true
      → Decided a b (same_type_equal P a b)
  same_type-Decided a b e =
      let (r, p) = same_type_equal_returns a b e in rw p (λ x t. not-Fails a b x e t)

  -- The comparison of two values that are not one object gives a boolean unless the left one is an
  -- int and the right one a double that has a fractional part or does not fit an int. With a
  -- fractional part it throws the type error that names "integer" and "double", and otherwise it is
  -- undefined.
  pub equal-Decided : (a b : LuaValue Double) → Decided a b (equal P false a b)
  unfolding equal
  equal-Decided a b = elim (Bool-cases (nat_eq (index a) (index b))) [
    | inl e ↦ rw e (same_type-Decided a b e)
    | inr e ↦ rw e (mixed-Decided a b e)
  ]

  -- Unless both values are doubles, or one is an int and the other a double, the comparison gives
  -- the same whichever value stands left.
  pub equal_comm :
      (same_object : Bool) (a b : LuaValue Double)
      → NotNumericMix a b
      → equal P same_object a b ≡ equal P same_object b a
  unfolding equal
  equal_comm true a b h = refl
  equal_comm false a b h = equal-comm_false a b h
