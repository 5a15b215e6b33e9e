-- ===== src/Interpreter/Stacks/Arguments.antt =====
-- interpreter.cpp: the visitors of expression lists, table constructors and arguments keep the stacks.
use text.Mathlib.Text.{starts_with}
use luapp.Prelude.{ℕ, List, [], ◌∷◌, Option, none, some, back?}
use luapp.Types.Platform.{Platform}
use luapp.Types.Value.{string}
use luapp.Types.Var.{Var, rvalue, lvalue, object}
use luapp.Interpreter.Syntax.{FieldContext, ArgsContext, NameAndArgsContext}
use luapp.Interpreter.Operands.{
  keyed_field, visit_dots, visit_explist, nth, visit_field, visit_fieldlist, visit_tableconstructor,
  visit_args, visit_name_and_args,
}
use luapp.Interpreter.Machine.{M}
use luapp.Interpreter.Environment.{current_block}
use luapp.Interpreter.Stacks.{
  Base, Keeps, >>=-Keeps, >>-Keeps, if-Keeps, option-Keeps, map_all-Keeps,
}
use luapp.Interpreter.Stacks.Actions.{
  give-Keeps, read-Keeps, gets-Keeps, child_at-Keeps, new_table-Keeps, count_up-Keeps,
  set_local-Keeps, find_local-Keeps,
}
use luapp.Interpreter.Stacks.Operands.{visit_string-Keeps}

module _ {P : Platform} {base : Base} where
  open P use {Double}

  pub visit_dots-Keeps : Keeps base (visit_dots P)
  unfolding visit_dots
  visit_dots-Keeps = >>=-Keeps (gets-Keeps (current_block P)) λ block.
      >>=-Keeps (find_local-Keeps block "...") λ found.
        option-Keeps found
          (>>-Keeps (set_local-Keeps block "..." 0) (give-Keeps (lvalue (object 0))))
          (λ a. give-Keeps (lvalue (object a)))

  keyed_field-Keeps :
      (i : ℕ) (k : Option (Var Double)) (x : Var Double) → Keeps base (keyed_field P i k x)
  unfolding keyed_field
  keyed_field-Keeps i (some k) x = search (>>=-Keeps, if-Keeps, read-Keeps, give-Keeps) depth 12
  keyed_field-Keeps i none x = search (>>=-Keeps, read-Keeps, give-Keeps) depth 12

  module _ {e : ℕ → M P (Var Double)} (he : (base : Base) (i : ℕ) → Keeps base (e i)) where
    pub visit_explist-Keeps : (es : List ℕ) → Keeps base (visit_explist P e es)
    unfolding visit_explist
    visit_explist-Keeps es = map_all-Keeps (he base) es

    pub nth-Keeps : (i : ℕ) (es : List ℕ) → Keeps base (nth P e i es)
    nth-Keeps i es = >>=-Keeps (child_at-Keeps i es) (he base)

    visit_field-Keeps : (c : FieldContext) → Keeps base (visit_field P e c)
    unfolding visit_field
    visit_field-Keeps c =
        if-Keeps (starts_with c.text "[")
          (>>=-Keeps (nth-Keeps 0 c.exp)
            λ k. >>=-Keeps (nth-Keeps 1 c.exp) λ v. give-Keeps (some k, v))
          (option-Keeps c.name (>>=-Keeps (nth-Keeps 0 c.exp) λ v. give-Keeps (none, v))
            λ n. >>=-Keeps (nth-Keeps 0 c.exp) λ v. give-Keeps (some (rvalue (string n)), v))

    visit_fieldlist-Keeps : (cs : List FieldContext) (i : ℕ) → Keeps base (visit_fieldlist P e i cs)
    unfolding visit_fieldlist
    visit_fieldlist-Keeps [] i = give-Keeps []
    visit_fieldlist-Keeps (c ∷ cs) i =
        search
          (>>=-Keeps, visit_field-Keeps, keyed_field-Keeps, visit_fieldlist-Keeps cs, give-Keeps)
          depth 12

    pub visit_tableconstructor-Keeps :
        (cs : List FieldContext) → Keeps base (visit_tableconstructor P e cs)
    unfolding visit_tableconstructor
    visit_tableconstructor-Keeps cs =
        search
          (>>=-Keeps, >>-Keeps, visit_fieldlist-Keeps, new_table-Keeps, count_up-Keeps, give-Keeps)
          depth 12

    visit_args-Keeps : (c : ArgsContext) → Keeps base (visit_args P e c)
    unfolding visit_args
    visit_args-Keeps (ArgsContext.explist es) = >>=-Keeps (visit_explist-Keeps es) λ xs.
        option-Keeps (back? xs) (give-Keeps _) λ last. search (>>=-Keeps, read-Keeps, give-Keeps)
    visit_args-Keeps (ArgsContext.tableconstructor fields) =
        search (>>=-Keeps, visit_tableconstructor-Keeps, give-Keeps)
    visit_args-Keeps (ArgsContext.string c) = search (>>=-Keeps, visit_string-Keeps, give-Keeps)
    visit_args-Keeps ArgsContext.nothing = give-Keeps _

    pub visit_name_and_args-Keeps :
        (c : NameAndArgsContext) → Keeps base (visit_name_and_args P e c)
    unfolding visit_name_and_args
    visit_name_and_args-Keeps c = search (>>=-Keeps, visit_args-Keeps, give-Keeps)
