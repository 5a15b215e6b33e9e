-- ===== src/Interpreter/Stacks/Operands.antt =====
-- interpreter.cpp: the visitors of operands and functions keep the stacks.
use luapp.Prelude.{String, [], eq_nat, eq_string, refl}
use luapp.Types.Platform.{Platform}
use luapp.Interpreter.Syntax.{ParlistContext, FuncbodyContext, NumberContext, StringContext}
use luapp.Interpreter.Functions.{
  visit_parlist, visit_funcbody, visit_functiondef, process_local_function,
}
use luapp.Interpreter.Operands.{print_line, visit_number, visit_string}
use luapp.Interpreter.Stacks.{Base, Keeps, still, >>=-Keeps, >>-Keeps, if-Keeps, option-Keeps}
use luapp.Interpreter.Stacks.Actions.{
  give-Keeps, fail-Keeps, lift-Keeps, gets-Keeps, child-Keeps, new_value-Keeps, new_function-Keeps,
  count_up-Keeps, set_local-Keeps, close_function-Keeps,
}

module _ {P : Platform} {base : Base} where
  open P use {Double}

  pub print_line-Keeps : (line : String) → Keeps base (print_line P line)
  print_line-Keeps line = still λ s. refl

  visit_parlist-Keeps : (c : ParlistContext) → Keeps base (visit_parlist P c)
  unfolding visit_parlist
  visit_parlist-Keeps c = search (if-Keeps, >>=-Keeps, child-Keeps, give-Keeps) depth 12

  pub visit_funcbody-Keeps : (c : FuncbodyContext) → Keeps base (visit_funcbody P c)
  unfolding visit_funcbody
  visit_funcbody-Keeps c = option-Keeps c.parlist (give-Keeps []) visit_parlist-Keeps

  pub visit_functiondef-Keeps : (c : FuncbodyContext) → Keeps base (visit_functiondef P c)
  unfolding visit_functiondef
  visit_functiondef-Keeps c =
      search
        (
          >>=-Keeps, >>-Keeps, visit_funcbody-Keeps, new_function-Keeps, close_function-Keeps,
          count_up-Keeps, give-Keeps,
        )
        depth 12

  pub process_local_function-Keeps :
      (name : String) (c : FuncbodyContext) → Keeps base (process_local_function P name c)
  unfolding process_local_function
  process_local_function-Keeps name c =
      search
        (
          >>=-Keeps, >>-Keeps, child-Keeps, visit_parlist-Keeps, new_function-Keeps,
          close_function-Keeps, new_value-Keeps, count_up-Keeps, gets-Keeps, set_local-Keeps,
        )
        depth 12

  pub visit_number-Keeps : (c : NumberContext) → Keeps base (visit_number P c)
  unfolding visit_number
  visit_number-Keeps (NumberContext.int t) = search (>>=-Keeps, lift-Keeps, give-Keeps)
  visit_number-Keeps (NumberContext.hex t) = search (>>=-Keeps, lift-Keeps, give-Keeps)
  visit_number-Keeps (NumberContext.float t) = search (>>=-Keeps, lift-Keeps, give-Keeps)
  visit_number-Keeps (NumberContext.hex_float t) =
      search (>>=-Keeps, >>-Keeps, print_line-Keeps, lift-Keeps, give-Keeps)
  visit_number-Keeps NumberContext.missing = fail-Keeps _

  pub visit_string-Keeps : (c : StringContext) → Keeps base (visit_string P c)
  unfolding visit_string
  visit_string-Keeps (StringContext.normal t) = give-Keeps _
  visit_string-Keeps (StringContext.char t) = give-Keeps _
  visit_string-Keeps (StringContext.long t) = search (>>-Keeps, print_line-Keeps, give-Keeps)
  visit_string-Keeps StringContext.missing = fail-Keeps _
