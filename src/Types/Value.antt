-- ===== src/Types/Value.antt =====
-- types.h: the variant `LuaValue`, its alternatives and their names.
use luapp.Prelude.{ℕ, String, List, [], ◌∷◌, Bool, true, false, ◌≡◌, refl, ap}
use luapp.Prelude.Int.{ℤ}

-- std::variant<bool, int, double, std::string, Nil, Elipsis, Function*, Userdata*, Table*>. A pointer
-- is an address; `D` is the type of doubles. An elipsis holds a vector of values.
mutual
  pub data LuaValue (D : Type 0) : Type 0 where
    boolean : Bool → LuaValue D
    int : ℤ → LuaValue D
    double : D → LuaValue D
    string : String → LuaValue D
    nil : LuaValue D
    elipsis : Values D → LuaValue D
    function : ℕ → LuaValue D
    userdata : ℕ → LuaValue D
    table : ℕ → LuaValue D

  pub data Values (D : Type 0) : Type 0 where
    no_values : Values D
    and_value : LuaValue D → Values D → Values D

module _ {D : Type 0} where
  -- `Elipsis::values`, and the constructor of an elipsis.
  abbrev pub values : Values D → List (LuaValue D)
  values no_values = []
  values (and_value v vs) = v ∷ values vs

  abbrev pub of_list : List (LuaValue D) → Values D
  of_list [] = no_values
  of_list (v ∷ vs) = and_value v (of_list vs)

  pub values-of_list : (vs : List (LuaValue D)) → values (of_list vs) ≡ vs
  values-of_list [] = refl
  values-of_list (v ∷ vs) = ap (λ l. v ∷ l) (values-of_list vs)

  -- `_type.index()`.
  unfoldable pub index : LuaValue D → ℕ
  index (boolean _) = 0
  index (int _) = 1
  index (double _) = 2
  index (string _) = 3
  index nil = 4
  index (elipsis _) = 5
  index (function _) = 6
  index (userdata _) = 7
  index (table _) = 8

  -- `IsReferenceChecker`.
  unfoldable pub is_refcounted : LuaValue D → Bool
  is_refcounted (function _) = true
  is_refcounted (userdata _) = true
  is_refcounted (table _) = true
  is_refcounted _ = false

  unfoldable pub has_dot : LuaValue D → Bool
  has_dot (table _) = true
  has_dot (userdata _) = true
  has_dot _ = false

  unfoldable pub type_as_string : LuaValue D → String
  type_as_string nil = "nil"
  type_as_string (double _) = "double"
  type_as_string (int _) = "int"
  type_as_string (string _) = "string"
  type_as_string (function _) = "function"
  type_as_string (userdata _) = "userdata"
  type_as_string (table _) = "table"
  type_as_string (boolean _) = "bool"
  type_as_string (elipsis _) = "unknown type"
