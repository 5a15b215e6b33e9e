-- ===== src/Interpreter/Expressions.antt =====
-- interpreter.cpp: the visitors of expressions and variables. `visit_exp` and `visit_block` are the
-- visitors of the nodes behind pointers.
use luapp.Prelude.{
  ℕ, List, [], ◌∷◌, true, false, eq_nat, eq_string, if◌then◌else◌, Result, runtime_error,
}
use luapp.Analyzer.Scope.{Block}
use luapp.Types.Platform.{Platform}
use luapp.Types.Value.{LuaValue, boolean, string, nil}
use luapp.Types.Coerce.{as_bool_weak, as_double_weak}
use luapp.Types.Var.{Var, rvalue}
use luapp.Interpreter.Syntax.{
  SuffixContext, VarSuffixContext, HeadContext, VarNode, VarOrExpContext, PrefixexpContext,
  ExpContext,
}
use luapp.Interpreter.Operators.{
  OperatorUnary, negation, minus, bin_not, visit_operator_unary, visit_operator_mul_div_mod,
  visit_operator_add_sub, visit_operator_comparison, visit_operator_bitwise,
}
use luapp.Interpreter.Arithmetic.{
  power, mul_div_mod, add_sub, strcat, comparison, negate, logical_not, bang,
}
use luapp.Interpreter.Bitwise.{bitwise, bitwise_not}
use luapp.Interpreter.Environment.{VarContext, varlist, other}
use luapp.Interpreter.Machine.{◌>>=◌, ◌>>◌, give, fail, lift, gets, modify, map_all, M, read}
use luapp.Interpreter.Functions.{as_table, dot_place, visit_functiondef}
use luapp.Interpreter.Operands.{
  visit_number, visit_string, visit_dots, visit_name, subscript_place, field_var, in_varlist,
  visit_tableconstructor, visit_name_and_args,
}
use luapp.Interpreter.Calls.{Host, process_names_and_args}

module _ (P : Platform) (visit_exp : ℕ → M P (Var P.Double)) (H : Host P.Double)
    (visit_block : Block → M P (Unit {0})) where
  open P use {Double}

  -- One suffix: the calls before it, then the field of the table that they give.
  unfoldable pub visit_suffix : VarSuffixContext → Var Double → M P (Var Double)
  visit_suffix c result = do
    calls ← map_all (visit_name_and_args P visit_exp) c.name_and_args
    key ← elim c.suffix [
      | SuffixContext.dot n ↦ give (rvalue (string n))
      | SuffixContext.subscript e ↦ visit_exp e
    ]
    called ← process_names_and_args P H visit_block result calls
    v ← read P called
    t ← as_table P v
    set_nil ← gets (in_varlist P)
    place ← elim c.suffix [
      | SuffixContext.dot n ↦ dot_place P t n set_nil
      | SuffixContext.subscript e ↦ read P key >>= λ k. subscript_place P t k set_nil
    ]
    gets (field_var P place)

  unfoldable pub visit_suffixes : List VarSuffixContext → Var Double → M P (Var Double)
  visit_suffixes [] result = give result
  visit_suffixes (c ∷ cs) result = visit_suffix c result >>= visit_suffixes cs

  unfoldable pub visit_var : VarNode → M P (Var Double)
  visit_var c = do
    result ← elim c.head [ HeadContext.name n ↦ visit_name P n | HeadContext.exp e ↦ visit_exp e ]
    visit_suffixes c.var_suffix result

  abbrev pub set_context : VarContext → M P (Unit {0})
  set_context c = modify λ s. record s { var_context = c }

  unfoldable pub visit_varlist : List VarNode → M P (List (Var Double))
  visit_varlist cs = do set_context varlist; xs ← map_all visit_var cs; set_context other; give xs

  unfoldable pub visit_var_or_exp : VarOrExpContext → M P (Var Double)
  visit_var_or_exp (VarOrExpContext.var_ c) = visit_var c
  visit_var_or_exp (VarOrExpContext.exp e) = visit_exp e

  -- `visitPrefixexp`, and `visitFunctioncall` where the test infrastructure has no such function.
  unfoldable pub visit_prefixexp : PrefixexpContext → M P (Var Double)
  visit_prefixexp c = do
    val ← visit_var_or_exp c.var_or_exp
    calls ← map_all (visit_name_and_args P visit_exp) c.name_and_args
    process_names_and_args P H visit_block val calls

  abbrev pub value : Result (LuaValue Double) → M P (Var Double)
  value r = lift r >>= λ v. give (rvalue v)

  -- Both operands are visited, then read.
  abbrev pub binary :
      (LuaValue Double → LuaValue Double → Result (LuaValue Double)) → ℕ → ℕ → M P (Var Double)
  binary f l r = do
    leftV ← visit_exp l
    rightV ← visit_exp r
    left ← read P leftV
    right ← read P rightV
    value (f left right)

  unfoldable pub apply_unary : OperatorUnary → LuaValue Double → M P (Var Double)
  apply_unary OperatorUnary.bang v = λ s. value (bang P s.tables v) s
  apply_unary bin_not v = value (bitwise_not P v)
  apply_unary minus v = value (negate P 2 v)
  apply_unary negation v = give (rvalue (logical_not P v))
  apply_unary OperatorUnary.error v = fail (runtime_error "Invalid Unary operator")

  -- `and` reads its left operand before it visits the right one, `or` after it.
  abbrev pub visit_and : ℕ → ℕ → M P (Var Double)
  visit_and l r = do
    leftV ← visit_exp l
    left ← read P leftV
    rightV ← visit_exp r
    give (if as_bool_weak P left then rightV else leftV)

  abbrev pub visit_or : ℕ → ℕ → M P (Var Double)
  visit_or l r = do
    leftV ← visit_exp l
    rightV ← visit_exp r
    left ← read P leftV
    give (if as_bool_weak P left then leftV else rightV)

  unfoldable pub visit_context : ExpContext → M P (Var Double)
  visit_context ExpContext.nil = give (rvalue nil)
  visit_context ExpContext.true_ = give (rvalue (boolean true))
  visit_context ExpContext.false_ = give (rvalue (boolean false))
  visit_context ExpContext.dots = visit_dots P
  visit_context (ExpContext.number c) = visit_number P c
  visit_context (ExpContext.string c) = visit_string P c
  visit_context (ExpContext.functiondef c) = visit_functiondef P c
  visit_context (ExpContext.prefixexp c) = visit_prefixexp c
  visit_context (ExpContext.tableconstructor fields) = visit_tableconstructor P visit_exp fields
  visit_context (ExpContext.power l r) = do
    leftV ← visit_exp l
    left ← read P leftV
    _ ← lift (as_double_weak P left)
    rightV ← visit_exp r
    right ← read P rightV
    value (power P left right)
  visit_context (ExpContext.unary op e) = do
    x ← visit_exp e
    v ← read P x
    apply_unary (visit_operator_unary op) v
  visit_context (ExpContext.mul_div_mod op l r) =
      binary (mul_div_mod P (visit_operator_mul_div_mod op)) l r
  visit_context (ExpContext.add_sub op l r) = binary (add_sub P (visit_operator_add_sub op)) l r
  visit_context (ExpContext.strcat l r) = binary (strcat P) l r
  visit_context (ExpContext.comparison op l r) =
      binary (comparison P (visit_operator_comparison op)) l r
  visit_context (ExpContext.and_ l r) = visit_and l r
  visit_context (ExpContext.or_ l r) = visit_or l r
  visit_context (ExpContext.bitwise op l r) = binary (bitwise P (visit_operator_bitwise op)) l r
  visit_context ExpContext.invalid = fail (runtime_error "Invalid expression")
