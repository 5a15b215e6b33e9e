-- ===== src/Types/Var.antt =====
-- types.h and types.cpp: `Var`, a value of its own, a pointer to a bound value, a list of values, or
-- an error.
pub mod Reading
use luapp.Prelude.{
  Option, ℕ, String, List, [], ◌∷◌, Bool, true, false, none, some, Result, ok, err, runtime_error,
  undefined, ◌>>=◌, eq_nat,
}
use luapp.Prelude.Int.{ℤ}
use luapp.Types.Platform.{Platform}
use luapp.Types.Value.{LuaValue}
use luapp.Types.Value
use luapp.Types.Coerce
use luapp.Types.Equal.{equal}

-- A `Value*`: an object of its own, a field of a table under a key, or the shared `Value::_nil`.
pub data Place (D : Type 0) : Type 0 where
  object : ℕ → Place D
  field : ℕ → LuaValue D → Place D
  shared_nil : Place D

pub data Var (D : Type 0) : Type 0 where
  rvalue : LuaValue D → Var D
  lvalue : Place D → Var D
  list : List (LuaValue D) → Var D
  var_error : Var D

-- The values behind the pointers.
abbrev pub Heap : Type 0 → Type 0
Heap D = Place D → Option (LuaValue D)

abbrev pub errored {ℓ} : {A : Type ℓ} → Result A
errored = err (runtime_error "Attempted to access an errored value")

module _ {D : Type 0} where
  unfoldable pub deref : Heap D → Place D → Result (LuaValue D)
  deref h p = elim (h p) [ none ↦ err undefined | some v ↦ ok v ]

  -- `_list()[0]`.
  abbrev pub front : List (LuaValue D) → Result (LuaValue D)
  front [] = err undefined
  front (v ∷ vs) = ok v

  unfoldable pub get : Heap D → Var D → Result (LuaValue D)
  get h (lvalue p) = deref h p
  get h (rvalue v) = ok v
  get h (list vs) = front vs
  get h var_error = errored

  unfoldable pub morph : Heap D → Var D → Result (Var D)
  morph h (lvalue p) = deref h p >>= λ v. ok (rvalue v)
  morph h _ = err (runtime_error "Cannot morph a Var that doesn't hold an lvalue")

  unfoldable pub error : Var D → Bool
  error var_error = true
  error _ = false

  -- The assignment of another `Var`.
  unfoldable pub copy : Var D → Result (Var D)
  copy (lvalue p) = ok (lvalue p)
  copy (rvalue v) = ok (rvalue v)
  copy (list vs) = ok (list vs)
  copy var_error = errored

  unfoldable pub has_dot : Heap D → Var D → Result Bool
  has_dot h (lvalue p) = deref h p >>= λ v. ok (Value.has_dot v)
  has_dot h (rvalue v) = ok (Value.has_dot v)
  has_dot h (list vs) = front vs >>= λ v. ok (Value.has_dot v)
  has_dot h var_error = errored

  unfoldable pub is_refcounted : Heap D → Var D → Result Bool
  is_refcounted h (lvalue p) = deref h p >>= λ v. ok (Value.is_refcounted v)
  is_refcounted h (rvalue v) = ok (Value.is_refcounted v)
  is_refcounted h (list vs) = front vs >>= λ v. ok (Value.is_refcounted v)
  is_refcounted h var_error = errored

  unfoldable pub type_as_string : Heap D → Var D → Result String
  type_as_string h (lvalue p) = deref h p >>= λ v. ok (Value.type_as_string v)
  type_as_string h (rvalue v) = ok (Value.type_as_string v)
  type_as_string h (list vs) = front vs >>= λ v. ok (Value.type_as_string v)
  type_as_string h var_error = errored

module _ (P : Platform) where
  open P use {Double}

  unfoldable pub as_double_weak : Heap Double → Var Double → Result Double
  as_double_weak h (rvalue v) = Coerce.as_double_weak P v
  as_double_weak h (lvalue p) = deref h p >>= Coerce.as_double_weak P
  as_double_weak h (list vs) = front vs >>= Coerce.as_double_weak P
  as_double_weak h var_error = errored

  unfoldable pub as_int_weak : Bool → Heap Double → Var Double → Result ℤ
  as_int_weak allow_double h (rvalue v) = Coerce.as_int_weak P allow_double v
  as_int_weak allow_double h (lvalue p) = deref h p >>= Coerce.as_int_weak P allow_double
  as_int_weak allow_double h (list vs) = front vs >>= Coerce.as_int_weak P allow_double
  as_int_weak allow_double h var_error = errored

  unfoldable pub as_bool_weak : Heap Double → Var Double → Result Bool
  as_bool_weak h (rvalue v) = ok (Coerce.as_bool_weak P v)
  as_bool_weak h (lvalue p) = deref h p >>= λ v. ok (Coerce.as_bool_weak P v)
  as_bool_weak h (list vs) = front vs >>= λ v. ok (Coerce.as_bool_weak P v)
  as_bool_weak h var_error = errored

  unfoldable pub as_string : Heap Double → Var Double → Result String
  as_string h (rvalue v) = Coerce.as_string P v
  as_string h (lvalue p) = deref h p >>= Coerce.as_string P
  as_string h (list vs) = front vs >>= Coerce.as_string P
  as_string h var_error = errored

  unfoldable pub from_string_to_number : Bool → Heap Double → Var Double → Result (LuaValue Double)
  from_string_to_number force h (lvalue p) = deref h p >>= Coerce.from_string_to_number P force
  from_string_to_number force h (rvalue v) = Coerce.from_string_to_number P force v
  from_string_to_number force h (list vs) = front vs >>= Coerce.from_string_to_number P force
  from_string_to_number force h var_error = errored

  unfoldable pub value_as_string : Heap Double → Var Double → Result String
  value_as_string h (lvalue p) = deref h p >>= λ v. ok (Coerce.value_as_string P v)
  value_as_string h (rvalue v) = ok (Coerce.value_as_string P v)
  value_as_string h (list vs) = front vs >>= λ v. ok (Coerce.value_as_string P v)
  value_as_string h var_error = errored

  -- `get() == other.get()`: two copies, so never one object.
  unfoldable pub var_equal : Heap Double → Var Double → Var Double → Result Bool
  var_equal h a b = do v ← get h a; w ← get h b; equal P false v w
