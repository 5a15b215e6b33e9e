-- ===== src/Interpreter/Statements.antt =====
-- interpreter.cpp: `visitStat`, `visitRetstat`, `visitBlock` and `visitFunctioncall`, and then the
-- visitors as they call one another, `visitChunk` and `register_global_c_function`. The fuel bounds
-- how deep the calls of visitors nest, and the rounds of each loop.
pub mod Ending
use text.Mathlib.Text.{starts_with}
use luapp.Prelude.{
  ℕ, zero, suc, String, List, [], ◌∷◌, Bool, false, ◌||◌, Option, none, some, ◌==◌, eq_nat,
  eq_string, if◌then◌else◌, out_of_fuel, runtime_error, undefined,
}
use luapp.Prelude.Map.{put}
use luapp.Analyzer.Scope.{Block}
use luapp.Analyzer.Listener.{is_associated_with_label}
use luapp.Types.Platform.{Platform}
use luapp.Types.Value.{nil, function}
use luapp.Types.Var.{Var, rvalue}
use luapp.Interpreter.Syntax.{
  StatContext, RetstatContext, PrefixexpContext, ParseTree, absent, bare,
}
use luapp.Interpreter.Environment.{current_block}
use luapp.Interpreter.Environment.Closing.{stabilize_blocks, erase_block}
use luapp.Interpreter.Machine.{
  done, thrown, error, break, goto, return, ◌>>=◌, ◌>>◌, give, throw, fail, gets, modify, attempt,
  child, child_at, M, new_value, count_up, push_block, pop_block,
}
use luapp.Interpreter.Functions.{visit_funcname, process_local_function}
use luapp.Interpreter.Assign.{process_local_variables, process_stat_var_list}
use luapp.Interpreter.Calls.{Host}
use luapp.Interpreter.Operands.{visit_explist}
use luapp.Interpreter.Expressions.{visit_varlist, visit_prefixexp, visit_context}
use luapp.Interpreter.Infrastructure.{funcall_test_infrastructure}
use luapp.Interpreter.Control.{
  process_while, process_repeat, process_if, process_for_in, process_for_loop,
}

-- The visitors of the nodes behind pointers.
pub record Visitor (P : Platform) : Type 0 where
  pub exp : ℕ → M P (Var P.Double)
  pub block : Block → M P (Unit {0})

module _ (P : Platform) (H : Host P.Double) (tree : ParseTree) where
  open P use {Double}

  module _ (V : Visitor P) where
    unfoldable pub visit_retstat : RetstatContext → M P (Unit {0})
    visit_retstat absent = give tt
    visit_retstat bare = throw (return (rvalue nil ∷ []))
    visit_retstat (RetstatContext.explist es) = visit_explist P V.exp es >>= λ xs. throw (return xs)

    unfoldable pub visit_functioncall : PrefixexpContext → M P (Var Double)
    visit_functioncall c = do
      taken ← funcall_test_infrastructure P tree.text V.exp c
      if taken then give (rvalue nil) else visit_prefixexp P V.exp H V.block c

    unfoldable pub process_for : ℕ → StatContext → M P (Unit {0})
    process_for fuel c = elim c.namelist [
      | none ↦ process_for_loop P V.exp V.block fuel c
      | some names ↦ (do
        el ← child c.explist
        block ← child_at 0 c.block
        process_for_in P V.exp V.block H fuel names el block)
    ]

    unfoldable pub process_local : StatContext → M P (Unit {0})
    process_local c = elim c.attnamelist [
      | none ↦ (do name ← child c.name; body ← child c.funcbody; process_local_function P name body)
      | some names ↦ elim c.explist [
        | none ↦ process_local_variables P names none
        | some es ↦ process_local_variables P names (some (visit_explist P V.exp es))
      ]
    ]

    -- What is left when the text starts with no keyword.
    unfoldable pub visit_other : StatContext → M P (Unit {0})
    visit_other c = elim c.varlist [
      | some xs ↦ (do
        es ← child c.explist
        process_stat_var_list P (visit_varlist P V.exp H V.block xs) (visit_explist P V.exp es))
      | none ↦ elim c.functioncall [
        | some call ↦ visit_functioncall call >>= λ _. give tt
        | none ↦ elim c.label [ some _ ↦ give tt | none ↦ fail (runtime_error "Unknown statement") ]
      ]
    ]

    unfoldable pub visit_stat : ℕ → StatContext → M P (Unit {0})
    visit_stat fuel c =
        let t = c.text in
        if t == ";"
        then give tt
        else if t == "break"
        then throw break
        else if starts_with t "goto"
        then (child c.name >>= λ l. throw (goto l))
        else if starts_with t "do"
        then (child_at 0 c.block >>= V.block)
        else if starts_with t "while"
        then (child_at 0 c.exp >>= λ e.
            child_at 0 c.block >>= λ b. process_while P V.exp V.block fuel e b)
        else if starts_with t "repeat"
        then (child_at 0 c.exp >>= λ e.
            child_at 0 c.block >>= λ b. process_repeat P V.exp V.block fuel b e)
        else if starts_with t "if"
        then process_if P V.exp V.block c.exp c.block
        else if starts_with t "for"
        then process_for fuel c
        else if starts_with t "function"
        then (child c.funcname >>= λ n. child c.funcbody >>= λ b. visit_funcname P n b)
        else if starts_with t "local"
        then process_local c
        else visit_other c

    -- The handler of Goto. `Goto` has a reference to the label, a temporary of `visitStat` that is gone
    -- when the handler reads it, which nothing defines; so the rest of the handler is never reached.
    unfoldable pub catch_goto : Block → M P (Unit {0}) → M P (Unit {0})
    catch_goto context body s = elim (body s) [
      | done _ s' ↦ done tt s'
      | thrown x s' ↦ elim x [
        | goto l ↦ (attempt (stabilize_blocks P context) >> fail undefined) s'
        | error e ↦ thrown (error e) s'
        | break ↦ thrown break s'
        | return vs ↦ thrown (return vs) s'
      ]
    ]

    -- The statements from one on.
    unfoldable pub visit_stats : ℕ → Block → List ℕ → M P (Unit {0})
    visit_stats fuel context [] = give tt
    visit_stats fuel context (i ∷ is) =
        catch_goto context (visit_stat fuel (tree.stat i)) >> visit_stats fuel context is

    -- The end of a block that no jump has left.
    unfoldable pub end_block : Block → Bool → M P (Unit {0})
    end_block context coming_from_for = do
      if coming_from_for then give tt else attempt (erase_block P context)
      back ← gets (current_block P)
      if back == context then give tt else fail (runtime_error "Unbalanced blocks")
      if coming_from_for then give tt else pop_block P

    unfoldable pub visit_block : ℕ → Block → M P (Unit {0})
    visit_block fuel context = do
      coming_from_for ← gets (λ s. s.coming_from_for)
      coming_from_funcall ← gets (λ s. s.coming_from_funcall)
      modify λ s. record s { coming_from_for = false; coming_from_funcall = false }
      if coming_from_for || coming_from_funcall then give tt else push_block P context
      visit_stats fuel context (tree.block context).stat
      visit_retstat (tree.block context).retstat
      end_block context coming_from_for

  unfoldable pub visitor : ℕ → Visitor P
  visitor zero = record { exp = λ e. fail out_of_fuel; block = λ b. fail out_of_fuel }
  visitor (suc n) = record {
    exp = λ e. let V = visitor n in visit_context P V.exp H V.block (tree.exp e);
    block = λ b. visit_block (visitor n) n b;
  }

  -- `catch (Exceptions::Return&)`: the values that the chunk returns.
  unfoldable pub catch_chunk : M P (Unit {0}) → M P (List (Var Double))
  catch_chunk body s = elim (body s) [
    | done _ s' ↦ done [] s'
    | thrown x s' ↦ elim x [
      | return vs ↦ done vs s'
      | error e ↦ thrown (error e) s'
      | break ↦ thrown break s'
      | goto l ↦ thrown (goto l) s'
    ]
  ]

  unfoldable pub visit_chunk : ℕ → Block → M P (List (Var Double))
  visit_chunk fuel b =
      catch_chunk
        (modify (λ s. record s { local_values = [] ∷ s.local_values }) >> (visitor fuel).block b)

module _ (P : Platform) where
  unfoldable pub register_global_c_function : String → ℕ → M P (Unit {0})
  register_global_c_function name f = do
    a ← new_value P (function f)
    count_up P (function f)
    modify λ s. record s { global_values = put name a s.global_values }
