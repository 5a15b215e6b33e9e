-- ===== src/Interpreter/Stacks/Statements.antt =====
-- interpreter.cpp: statements keep the stacks, if the visitors do.
use text.Mathlib.Text.{starts_with}
use luapp.Prelude.{ℕ, [], ◌==◌, eq_string, eq_nat}
use luapp.Types.Platform.{Platform}
use luapp.Interpreter.Syntax.{
  StatContext, RetstatContext, PrefixexpContext, ParseTree, absent, bare,
}
use luapp.Interpreter.Machine.{break, goto, return}
use luapp.Interpreter.Calls.{Host}
use luapp.Interpreter.Statements.{
  Visitor, visit_retstat, visit_functioncall, process_for, process_local, visit_other, visit_stat,
}
use luapp.Interpreter.Stacks.{Base, Keeps, >>=-Keeps, if-Keeps, option-Keeps}
use luapp.Interpreter.Stacks.Actions.{
  give-Keeps, fail-Keeps, throw-Keeps, child-Keeps, child_at-Keeps,
}
use luapp.Interpreter.Stacks.Operands.{process_local_function-Keeps}
use luapp.Interpreter.Stacks.Names.{visit_funcname-Keeps}
use luapp.Interpreter.Stacks.Arguments.{visit_explist-Keeps}
use luapp.Interpreter.Stacks.Assign.{process_local_variables-Keeps, process_stat_var_list-Keeps}
use luapp.Interpreter.Stacks.Calls.{BlockKeeps}
use luapp.Interpreter.Stacks.Expressions.{visit_varlist-Keeps, visit_prefixexp-Keeps}
use luapp.Interpreter.Stacks.Infrastructure.{funcall_test_infrastructure-Keeps}
use luapp.Interpreter.Stacks.For.{process_for_loop-Keeps, process_for_in-Keeps}
use luapp.Interpreter.Stacks.Control.{process_while-Keeps, process_repeat-Keeps, process_if-Keeps}

module _ (P : Platform) (H : Host P.Double) (tree : ParseTree) where
  open P use {Double}

  module _ {V : Visitor P} (he : (base : Base) (i : ℕ) → Keeps base (V.exp i))
      (hb : BlockKeeps P V.block) where
    pub visit_retstat-Keeps :
        {base : Base} (c : RetstatContext) → Keeps base (visit_retstat P H tree V c)
    unfolding visit_retstat
    visit_retstat-Keeps absent = give-Keeps tt
    visit_retstat-Keeps bare = throw-Keeps _
    visit_retstat-Keeps (RetstatContext.explist es) =
        >>=-Keeps (visit_explist-Keeps he es) λ xs. throw-Keeps (return xs)

    visit_functioncall-Keeps :
        {base : Base} (c : PrefixexpContext) → Keeps base (visit_functioncall P H tree V c)
    unfolding visit_functioncall
    visit_functioncall-Keeps c =
        >>=-Keeps (funcall_test_infrastructure-Keeps tree.text he c.var_or_exp c.name_and_args)
          λ taken. if-Keeps taken (give-Keeps _) (visit_prefixexp-Keeps H he hb c)

    process_for-Keeps :
        {base : Base} (n : ℕ) (c : StatContext) → Keeps base (process_for P H tree V n c)
    unfolding process_for
    process_for-Keeps n c = option-Keeps c.namelist (process_for_loop-Keeps he hb n c) λ names.
        >>=-Keeps (child-Keeps c.explist) λ el.
          >>=-Keeps (child_at-Keeps 0 c.block)
            λ block. process_for_in-Keeps he hb H n names el block

    process_local-Keeps : {base : Base} (c : StatContext) → Keeps base (process_local P H tree V c)
    unfolding process_local
    process_local-Keeps c =
        option-Keeps c.attnamelist
          (>>=-Keeps (child-Keeps c.name) λ name.
            >>=-Keeps (child-Keeps c.funcbody) λ body. process_local_function-Keeps name body)
          λ names.
            option-Keeps c.explist
              (process_local_variables-Keeps names (visit_explist-Keeps he [])).0
              λ es. (process_local_variables-Keeps names (visit_explist-Keeps he es)).1

    visit_other-Keeps : {base : Base} (c : StatContext) → Keeps base (visit_other P H tree V c)
    unfolding visit_other
    visit_other-Keeps c =
        option-Keeps c.varlist
          (option-Keeps c.functioncall (option-Keeps c.label (fail-Keeps _) λ l. give-Keeps tt)
            λ call. >>=-Keeps (visit_functioncall-Keeps call) λ x. give-Keeps tt)
          (λ xs. >>=-Keeps (child-Keeps c.explist) λ es.
            process_stat_var_list-Keeps (visit_varlist-Keeps H he hb xs)
              (visit_explist-Keeps he es))

    pub visit_stat-Keeps :
        {base : Base} (n : ℕ) (c : StatContext) → Keeps base (visit_stat P H tree V n c)
    unfolding visit_stat
    visit_stat-Keeps {base = base} n c = if-Keeps (c.text == ";") (give-Keeps tt) (
        if-Keeps (c.text == "break") (throw-Keeps break) (
          if-Keeps (starts_with c.text "goto")
            (>>=-Keeps (child-Keeps c.name) λ l. throw-Keeps (goto l))
            (if-Keeps (starts_with c.text "do")
              (>>=-Keeps (child_at-Keeps 0 c.block) (hb.plain base))
              (if-Keeps (starts_with c.text "while")
                (>>=-Keeps (child_at-Keeps 0 c.exp)
                  λ i. >>=-Keeps (child_at-Keeps 0 c.block) λ b. process_while-Keeps he hb n i b)
                (if-Keeps (starts_with c.text "repeat")
                  (>>=-Keeps (child_at-Keeps 0 c.exp)
                    λ i. >>=-Keeps (child_at-Keeps 0 c.block) λ b. process_repeat-Keeps he hb n b i)
                  (if-Keeps (starts_with c.text "if") (process_if-Keeps he hb c.exp c.block) (
                    if-Keeps (starts_with c.text "for") (process_for-Keeps n c) (
                      if-Keeps (starts_with c.text "function")
                        (>>=-Keeps (child-Keeps c.funcname)
                          λ f. >>=-Keeps (child-Keeps c.funcbody) λ b. visit_funcname-Keeps f b)
                        (if-Keeps (starts_with c.text "local") (process_local-Keeps c)
                          (visit_other-Keeps c))))))))))
