-- ===== src/Interpreter/Access.antt =====
-- types.cpp: `subscript` and `dot` of `Value` and of `Var`, which no visitor calls.
use luapp.Prelude.{String, false, contextless_bad_type}
use luapp.Types.Platform.{Platform}
use luapp.Types.Value.{LuaValue, table, userdata, type_as_string}
use luapp.Types.Var.{Var, Place, shared_nil}
use luapp.Interpreter.Machine.{◌>>=◌, give, fail, M, read}
use luapp.Interpreter.Functions.{dot_place}
use luapp.Interpreter.Operands.{subscript_place}

module _ (P : Platform) where
  open P use {Double}

  -- `Value::_nil` is the shared nil.
  unfoldable pub value_subscript : LuaValue Double → LuaValue Double → M P (Place Double)
  value_subscript (table t) key = subscript_place P t key false
  value_subscript (userdata u) key = give shared_nil
  value_subscript v key = fail (contextless_bad_type "table or userdata" (type_as_string v))

  unfoldable pub value_dot : LuaValue Double → String → M P (Place Double)
  value_dot (table t) name = dot_place P t name false
  value_dot (userdata u) name = give shared_nil
  value_dot v name = fail (contextless_bad_type "table or userdata" (type_as_string v))

  -- Of the value that is bound, of the value itself, or of the first of the list.
  unfoldable pub var_subscript : Var Double → LuaValue Double → M P (Place Double)
  var_subscript x key = read P x >>= λ v. value_subscript v key

  unfoldable pub var_dot : Var Double → String → M P (Place Double)
  var_dot x name = read P x >>= λ v. value_dot v name
