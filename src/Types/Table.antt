-- ===== src/Types/Table.antt =====
-- types.h and types.cpp: `Table`, with `FieldSetter` and `FieldGetter`.
pub mod Fields
pub mod Border
use luapp.Prelude.{
  ℕ, suc, ◌+◌, String, List, [], ◌∷◌, Bool, true, false, Option, none, some, ◌==◌, Eq, eq_nat,
  eq_string, if◌then◌else◌, Result, ok, err, runtime_error, ◌>>=◌, nat_eq, nat_eq_iff, ◌↔◌, ◌≡◌,
  arith, ltb,
}
use luapp.Prelude.Int.{ℤ, pos, negsuc}
use luapp.Prelude.Map.{Map, find, put}
use luapp.Types.Platform.{Platform, int_eq}
use luapp.Types.Value.{
  LuaValue, boolean, int, double, string, nil, elipsis, function, userdata, table,
}

pub int_eq_iff : (a b : ℤ) → (int_eq a b ≡ true) ↔ (a ≡ b)
int_eq_iff (pos m) (pos n) = ground (arith, nat_eq_iff m n)
int_eq_iff (negsuc m) (negsuc n) = ground (arith, nat_eq_iff m n)
int_eq_iff (pos m) (negsuc n) = (λ h. cc, λ h. cc)
int_eq_iff (negsuc m) (pos n) = (λ h. cc, λ h. cc)

instance abbrev pub eq_int : Eq ℤ
eq_int = record { beq = int_eq; beq_iff = int_eq_iff }

module _ (P : Platform) where
  open P use {Double, lt}

  -- A map keyed by doubles finds a key by `<` alone: two keys are one if neither is less.
  abbrev pub same_double : Double → Double → Bool
  same_double a b = if lt a b then false else (if lt b a then false else true)

  abbrev pub DoubleMap : Type 0
  DoubleMap = List (Double × LuaValue Double)

  unfoldable pub find_double : Double → DoubleMap → Option (LuaValue Double)
  find_double k [] = none
  find_double k ((j, v) ∷ m) = if same_double j k then some v else find_double k m

  unfoldable pub put_double : Double → LuaValue Double → DoubleMap → DoubleMap
  put_double k v [] = (k, v) ∷ []
  put_double k v ((j, w) ∷ m) = if same_double j k then (j, v) ∷ m else (j, w) ∷ put_double k v m

  -- The fields, one map for each type of key; `_bool_fields` is a vector of two.
  pub record Table : Type 0 where
    pub int_fields : Map ℤ (LuaValue Double)
    pub double_fields : DoubleMap
    pub false_field : LuaValue Double
    pub true_field : LuaValue Double
    pub string_fields : Map String (LuaValue Double)
    pub function_fields : Map ℕ (LuaValue Double)
    pub table_fields : Map ℕ (LuaValue Double)
    pub userdata_fields : Map ℕ (LuaValue Double)

  unfoldable pub empty : Table
  empty = record {
    int_fields = [];
    double_fields = [];
    false_field = nil;
    true_field = nil;
    string_fields = [];
    function_fields = [];
    table_fields = [];
    userdata_fields = [];
  }

  -- `FieldSetter`, and `add_field` by a value; nil and an elipsis are no keys.
  unfoldable pub add_field : LuaValue Double → LuaValue Double → Table → Table
  add_field (int i) v t = record t { int_fields = put i v t.int_fields }
  add_field (double d) v t = record t { double_fields = put_double d v t.double_fields }
  add_field (boolean true) v t = record t { true_field = v }
  add_field (boolean false) v t = record t { false_field = v }
  add_field (string s) v t = record t { string_fields = put s v t.string_fields }
  add_field (function p) v t = record t { function_fields = put p v t.function_fields }
  add_field (table p) v t = record t { table_fields = put p v t.table_fields }
  add_field (userdata p) v t = record t { userdata_fields = put p v t.userdata_fields }
  add_field nil v t = t
  add_field (elipsis _) v t = t

  -- `add_field` by a name.
  unfoldable pub add_named_field : String → LuaValue Double → Table → Table
  add_named_field name v t = record t { string_fields = put name v t.string_fields }

  -- The constructor, from the list of a table constructor's fields.
  unfoldable pub add_fields : List (LuaValue Double × LuaValue Double) → Table → Table
  add_fields [] t = t
  add_fields ((k, v) ∷ ps) t = add_fields ps (add_field k v t)

  unfoldable pub make : List (LuaValue Double × LuaValue Double) → Table
  make ps = add_fields ps empty

  -- What a `Value&` refers to: the shared `Value::_nil`, or the slot of a key in this table.
  pub data Ref : Type 0 where
    shared_nil : Ref
    slot : LuaValue Double → Ref

  -- The getter's answer for a key that is looked up in one of the maps: its slot, or, where there is
  -- none, the shared nil, or a new slot that holds nil.
  unfoldable pub field_ref : Bool → LuaValue Double → Option (LuaValue Double) → Table → Ref × Table
  field_ref set_nil k (some v) t = (slot k, t)
  field_ref true k none t = (slot k, add_field k nil t)
  field_ref false k none t = (shared_nil, t)

  -- `subscript`, by `FieldGetter`.
  unfoldable pub subscript : LuaValue Double → Bool → Table → Result (Ref × Table)
  subscript (int i) set_nil t = ok (field_ref set_nil (int i) (find i t.int_fields) t)
  subscript (double d) set_nil t =
      ok (field_ref set_nil (double d) (find_double d t.double_fields) t)
  subscript (boolean b) set_nil t = ok (slot (boolean b), t)
  subscript (string s) set_nil t = ok (field_ref set_nil (string s) (find s t.string_fields) t)
  subscript (function p) set_nil t =
      ok (field_ref set_nil (function p) (find p t.function_fields) t)
  subscript (table p) set_nil t = ok (field_ref set_nil (table p) (find p t.table_fields) t)
  subscript (userdata p) set_nil t =
      ok (field_ref set_nil (userdata p) (find p t.userdata_fields) t)
  subscript nil set_nil t = err (runtime_error "No nil allowed in table")
  subscript (elipsis _) set_nil t = err (runtime_error "No elipsis allowed in table")

  unfoldable pub dot : String → Bool → Table → Ref × Table
  dot name set_nil t = field_ref set_nil (string name) (find name t.string_fields) t
