-- ===== src/Interpreter/Stacks/Expressions.antt =====
-- interpreter.cpp: variables and expressions keep the stacks, if the visitors they call do.
use luapp.Prelude.{ℕ, String, List, [], ◌∷◌, refl}
use luapp.Analyzer.Scope.{Block}
use luapp.Types.Platform.{Platform}
use luapp.Types.Value.{LuaValue, string}
use luapp.Types.Var.{Var, rvalue}
use luapp.Interpreter.Syntax.{
  SuffixContext, VarSuffixContext, HeadContext, VarNode, VarOrExpContext, PrefixexpContext,
  ExpContext,
}
use luapp.Interpreter.Operators.{OperatorUnary, visit_operator_unary}
use luapp.Interpreter.Arithmetic.{bang}
use luapp.Interpreter.Environment.{VarContext}
use luapp.Interpreter.Machine.{M}
use luapp.Interpreter.Operands.{field_var, in_varlist}
use luapp.Interpreter.Calls.{Host}
use luapp.Interpreter.Expressions.{
  visit_suffix, visit_suffixes, visit_var, visit_varlist, visit_var_or_exp, visit_prefixexp,
  apply_unary, visit_context, set_context,
}
use luapp.Interpreter.Stacks.{Base, Keeps, still, >>=-Keeps, >>-Keeps, map_all-Keeps}
use luapp.Interpreter.Stacks.Actions.{
  give-Keeps, fail-Keeps, lift-Keeps, read-Keeps, gets-Keeps, view-Keeps,
}
use luapp.Interpreter.Stacks.Operands.{
  visit_number-Keeps, visit_string-Keeps, visit_functiondef-Keeps,
}
use luapp.Interpreter.Stacks.Names.{
  visit_name-Keeps, dot_place-Keeps, subscript_place-Keeps, as_table-Keeps,
}
use luapp.Interpreter.Stacks.Arguments.{
  visit_dots-Keeps, visit_tableconstructor-Keeps, visit_name_and_args-Keeps,
}
use luapp.Interpreter.Stacks.Calls.{BlockKeeps, process_names_and_args-Keeps}

module _ {P : Platform} (H : Host P.Double) {e : ℕ → M P (Var P.Double)}
    (he : (base : Base) (i : ℕ) → Keeps base (e i)) {b : Block → M P (Unit {0})}
    (hb : BlockKeeps P b) {base : Base} where
  open P use {Double}

  suffix-Keeps :
      {A : Type 0} {f : String → M P A} {g : ℕ → M P A} (c : SuffixContext)
      → ((n : String) → Keeps base (f n))
      → ((i : ℕ) → Keeps base (g i))
      → Keeps base (elim c [ SuffixContext.dot n ↦ f n | SuffixContext.subscript i ↦ g i ])
  suffix-Keeps (SuffixContext.dot n) k h = k n
  suffix-Keeps (SuffixContext.subscript i) k h = h i

  visit_suffix-Keeps :
      (c : VarSuffixContext) (x : Var Double) → Keeps base (visit_suffix P e H b c x)
  unfolding visit_suffix
  visit_suffix-Keeps c x =
      >>=-Keeps (map_all-Keeps (visit_name_and_args-Keeps he) c.name_and_args) λ calls.
        >>=-Keeps (suffix-Keeps c.suffix (λ n. give-Keeps (rvalue (string n))) (he base)) λ key.
          >>=-Keeps (process_names_and_args-Keeps H hb calls x) λ called.
            >>=-Keeps (read-Keeps called) λ v. >>=-Keeps (as_table-Keeps v) λ t.
              >>=-Keeps (gets-Keeps (in_varlist P)) λ set_nil.
                >>=-Keeps
                  (suffix-Keeps c.suffix (λ n. dot_place-Keeps t n set_nil)
                    λ i. >>=-Keeps (read-Keeps key) λ k. subscript_place-Keeps t k set_nil)
                  λ place. gets-Keeps (field_var P place)

  visit_suffixes-Keeps :
      (cs : List VarSuffixContext) (x : Var Double) → Keeps base (visit_suffixes P e H b cs x)
  unfolding visit_suffixes
  visit_suffixes-Keeps [] x = give-Keeps x
  visit_suffixes-Keeps (c ∷ cs) x = >>=-Keeps (visit_suffix-Keeps c x) (visit_suffixes-Keeps cs)

  head-Keeps :
      {A : Type 0} {f : String → M P A} {g : ℕ → M P A} (c : HeadContext)
      → ((n : String) → Keeps base (f n))
      → ((i : ℕ) → Keeps base (g i))
      → Keeps base (elim c [ HeadContext.name n ↦ f n | HeadContext.exp i ↦ g i ])
  head-Keeps (HeadContext.name n) k h = k n
  head-Keeps (HeadContext.exp i) k h = h i

  visit_var-Keeps : (c : VarNode) → Keeps base (visit_var P e H b c)
  unfolding visit_var
  visit_var-Keeps c =
      >>=-Keeps (head-Keeps c.head visit_name-Keeps (he base)) (visit_suffixes-Keeps c.var_suffix)

  set_context-Keeps : (c : VarContext) → Keeps base (set_context P e H b c)
  set_context-Keeps c = still λ s. refl

  pub visit_varlist-Keeps : (cs : List VarNode) → Keeps base (visit_varlist P e H b cs)
  unfolding visit_varlist
  visit_varlist-Keeps cs = >>-Keeps (set_context-Keeps _) (
      >>=-Keeps (map_all-Keeps visit_var-Keeps cs)
        λ xs. >>-Keeps (set_context-Keeps _) (give-Keeps xs))

  visit_var_or_exp-Keeps : (c : VarOrExpContext) → Keeps base (visit_var_or_exp P e H b c)
  unfolding visit_var_or_exp
  visit_var_or_exp-Keeps (VarOrExpContext.var_ c) = visit_var-Keeps c
  visit_var_or_exp-Keeps (VarOrExpContext.exp i) = he base i

  pub visit_prefixexp-Keeps : (c : PrefixexpContext) → Keeps base (visit_prefixexp P e H b c)
  unfolding visit_prefixexp
  visit_prefixexp-Keeps c = >>=-Keeps (visit_var_or_exp-Keeps c.var_or_exp) λ val.
      >>=-Keeps (map_all-Keeps (visit_name_and_args-Keeps he) c.name_and_args)
        λ calls. process_names_and_args-Keeps H hb calls val

  apply_unary-Keeps :
      (op : OperatorUnary) (v : LuaValue Double) → Keeps base (apply_unary P e H b op v)
  unfolding apply_unary
  apply_unary-Keeps OperatorUnary.bang v =
      >>=-Keeps (view-Keeps λ s. bang P s.tables v) λ w. give-Keeps (rvalue w)
  apply_unary-Keeps OperatorUnary.bin_not v = search (>>=-Keeps, lift-Keeps, give-Keeps)
  apply_unary-Keeps OperatorUnary.minus v = search (>>=-Keeps, lift-Keeps, give-Keeps)
  apply_unary-Keeps OperatorUnary.negation v = give-Keeps _
  apply_unary-Keeps OperatorUnary.error v = fail-Keeps _

  pub visit_context-Keeps : (c : ExpContext) → Keeps base (visit_context P e H b c)
  unfolding visit_context
  visit_context-Keeps ExpContext.nil = give-Keeps _
  visit_context-Keeps ExpContext.true_ = give-Keeps _
  visit_context-Keeps ExpContext.false_ = give-Keeps _
  visit_context-Keeps ExpContext.dots = visit_dots-Keeps
  visit_context-Keeps (ExpContext.number c) = visit_number-Keeps c
  visit_context-Keeps (ExpContext.string c) = visit_string-Keeps c
  visit_context-Keeps (ExpContext.functiondef c) = visit_functiondef-Keeps c
  visit_context-Keeps (ExpContext.prefixexp c) = visit_prefixexp-Keeps c
  visit_context-Keeps (ExpContext.tableconstructor fields) = visit_tableconstructor-Keeps he fields
  visit_context-Keeps (ExpContext.power l r) =
      search (>>=-Keeps, read-Keeps, lift-Keeps, give-Keeps, he) depth 12
  visit_context-Keeps (ExpContext.unary op i) =
      >>=-Keeps (he base i)
        λ x. >>=-Keeps (read-Keeps x) λ v. apply_unary-Keeps (visit_operator_unary op) v
  visit_context-Keeps (ExpContext.mul_div_mod op l r) =
      search (>>=-Keeps, read-Keeps, lift-Keeps, give-Keeps, he) depth 12
  visit_context-Keeps (ExpContext.add_sub op l r) =
      search (>>=-Keeps, read-Keeps, lift-Keeps, give-Keeps, he) depth 12
  visit_context-Keeps (ExpContext.strcat l r) =
      search (>>=-Keeps, read-Keeps, lift-Keeps, give-Keeps, he) depth 12
  visit_context-Keeps (ExpContext.comparison op l r) =
      search (>>=-Keeps, read-Keeps, lift-Keeps, give-Keeps, he) depth 12
  visit_context-Keeps (ExpContext.and_ l r) =
      search (>>=-Keeps, read-Keeps, give-Keeps, he) depth 12
  visit_context-Keeps (ExpContext.or_ l r) = search (>>=-Keeps, read-Keeps, give-Keeps, he) depth 12
  visit_context-Keeps (ExpContext.bitwise op l r) =
      search (>>=-Keeps, read-Keeps, lift-Keeps, give-Keeps, he) depth 12
  visit_context-Keeps ExpContext.invalid = fail-Keeps _
