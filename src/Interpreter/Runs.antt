-- ===== src/Interpreter/Runs.antt =====
-- The theorems about blocks, loops, calls and chunks at small environments.
use luapp.Prelude.{
  ap, sym, ◌∙◌, subst, ◌≤◌, ℕ, zero, suc, String, [], ◌∷◌, Option, none, some, true, false, eq_nat,
  eq_string, ok, bad_type, arith, inl, inr, ◌≡◌, ◌⊎◌, refl,
}
use luapp.Prelude.Int.{ℤ, pos, ◌*ℤ◌}
use luapp.Prelude.Map.{find, put, erase}
use luapp.Analyzer.Scope.{Block}
use luapp.Analyzer.State.{at, touch}
use luapp.Analyzer.Listener.{init}
use luapp.Types.Value.{LuaValue, int, boolean}
use luapp.Types.Var.{object, Var, rvalue, get}
use luapp.Types.Coerce.{as_bool_weak}
use luapp.Types.Halves.{halves}
use luapp.Interpreter.Syntax.{StatContext, BlockContext, ParseTree, absent}
use luapp.Interpreter.Syntax
use luapp.Interpreter.Environment.{Environment, other}
use luapp.Interpreter.Environment.Closing.{
  split_blocks, erase_blocks, erase_block, clear_block, forget_store, release_all, stabilize_blocks,
}
use luapp.Interpreter.Environment.Closing.Unwinding.{Unwound, stabilize_blocks-Unwound}
use luapp.Interpreter.Machine.{
  done, thrown, break, give, throw, fail, push_block, ◌>>◌, M, heap, write, Outcome,
}
use luapp.Interpreter.Loops.{int_rounds, sweep_block, sweep_store, get_store, set_store}
use luapp.Interpreter.Loops.Counting.{counted, int_rounds-counted}
use luapp.Interpreter.Calls.{Host}
use luapp.Interpreter.Calls.Binding.{Binding, bind_parameters-Binding}
use luapp.Interpreter.Control.{visit_condition, process_while, process_repeat, for_round}
use luapp.Interpreter.Control.Unrolling.{Caught, leave, process_while_lem, process_repeat_lem}
use luapp.Interpreter.Infrastructure.{expect_failure}
use luapp.Interpreter.Infrastructure.Failing.{IsDone, expect_failure_lem}
use luapp.Interpreter.Statements.{Visitor, visit_stats}
use luapp.Interpreter.Statements.{visit_chunk, catch_chunk, visitor, visit_block, visit_retstat}
use luapp.Interpreter.Operands.{visit_explist, visit_number}
use luapp.Interpreter.Expressions.{visit_context}
use luapp.Interpreter.Machine.{map_all}
use luapp.Interpreter.Statements.{end_block}
use luapp.Interpreter.Environment.{current_block}
use luapp.Interpreter.Statements.Ending.{end_block_lem}
use luapp.Interpreter.Fuel.{IsOutOfFuel}
use luapp.Interpreter.Stacks.{Within, final}
use luapp.Interpreter.Stacks.Chunks.{visit_chunk-Within}

-- Block 3 in block 2 in block 1, and an object 5 that holds 2.
abbrev nested : Environment halves
nested = record {
  local_values = [] ∷ [];
  global_values = [];
  listener = record init { label_to_context = ("x", 2 ∷ []) ∷ [] };
  blocks = 3 ∷ 2 ∷ 1 ∷ [];
  functions = [];
  closures = [];
  values = (5, (int (pos 2), 1)) ∷ [];
  gc = record { references = []; deleted = [] };
  tables = [];
  code = [];
  next = 20;
  var_context = other;
  coming_from_for = false;
  coming_from_funcall = false;
  output = [];
}

abbrev unwound : Environment halves
unwound = record nested { blocks = 2 ∷ 1 ∷ [] }

stabilize_blocks_example : Unwound 2 nested.blocks unwound.blocks
unfolding stabilize_blocks split_blocks erase_blocks erase_block clear_block forget_store
    release_all at touch find put erase
stabilize_blocks_example = stabilize_blocks-Unwound halves 2 nested unwound refl

-- A condition that holds, and a block that breaks.
abbrev holds : ℕ → M halves (Var halves.Double)
holds e = give (rvalue (boolean true))

abbrev breaks : Block → M halves (Unit {0})
breaks b = push_block halves b >> throw break

process_while_example :
    (n : ℕ) × ((fuel : ℕ)
      → n ≤ fuel
      → process_while halves holds breaks fuel 0 4 nested
        ≡ Caught halves holds breaks 0 4 nested
            (thrown break (record nested { blocks = 4 ∷ nested.blocks })))
unfolding visit_condition get as_bool_weak
process_while_example = (process_while_lem halves holds breaks 0 4 nested).0 _ (leave refl refl)

process_repeat_example :
    (n : ℕ) × ((fuel : ℕ)
      → n ≤ fuel
      → process_repeat halves holds breaks fuel 4 0 nested
        ≡ Caught halves holds breaks 0 4 nested
            (thrown break (record nested { blocks = 4 ∷ nested.blocks })))
process_repeat_example = (process_repeat_lem halves holds breaks 0 4 nested).0 _ (leave refl)

abbrev fails : ℕ → M halves (Var halves.Double)
fails e = fail (bad_type "a" "b" "c")

expect_failure_example :
    IsDone halves (λ _. "x") fails (expect_failure halves (λ _. "x") fails (0 ∷ []) nested)
expect_failure_example =
    (expect_failure_lem halves (λ _. "x") fails 0 [] nested).1 ("a", "b", "c", nested, refl)

different : false ≡ true → ⊥
different e = cc

bind_parameters-Binding_example :
    Binding halves 7 ("a" ∷ "b" ∷ []) [] ("a" ∷ "b" ∷ []) (int (pos 3) ∷ []) nested []
bind_parameters-Binding_example =
    bind_parameters-Binding halves 7 ("a" ∷ "b" ∷ []) [] ("a" ∷ "b" ∷ []) (int (pos 3) ∷ []) nested
      [] (omega arith)
      (
        (λ m. elim m [ inl e ↦ different ((eq_string.beq_iff "b" "a").1 e) | inr n ↦ n ]),
        ((λ m. m), tt),
      )

-- Block 2: `goto x`, then `break`, then the label `x`.
abbrev statement : String → Option String → Option String → StatContext
statement text name label = record {
  text = text;
  exp = [];
  block = [];
  name = name;
  namelist = none;
  explist = none;
  attnamelist = none;
  funcname = none;
  funcbody = none;
  varlist = none;
  functioncall = none;
  label = label;
}

abbrev statements : ℕ → StatContext
statements zero = statement "gotox" (some "x") none
statements (suc zero) = statement "break" none none
statements (suc (suc n)) = statement "::x::" none (some "::x::")

abbrev tree : ParseTree
tree = record {
  exp = λ e. Syntax.ExpContext.nil;
  text = λ e. "nil";
  stat = statements;
  block = λ b. record { stat = 0 ∷ 1 ∷ 2 ∷ []; retstat = absent };
}

abbrev host : Host halves.Double
host = record {
  Any = Unit;
  kinds = λ f. [];
  type_of = λ a. 0;
  conversions = [];
  run = λ f as'. ok tt;
}

abbrev visitors : Visitor halves
visitors = record { exp = holds; block = breaks }

visit_chunk-Within_example :
    IsOutOfFuel (visit_chunk halves host tree 5 2 nested)
    ⊎ Within
        (record { blocks = 2 ∷ 1 ∷ []; functions = []; frames = 2 })
        (final (visit_chunk halves host tree 5 2 nested))
visit_chunk-Within_example =
    visit_chunk-Within halves host tree 5 2
      (record { blocks = 2 ∷ 1 ∷ []; functions = []; frames = 1 }) nested
      (record {
        blocks = (3 ∷ [], refl);
        functions = ([], refl);
        frames = refl;
        from_for = refl;
        from_funcall = refl;
      })

-- `return 10`, in a chunk of its own.
abbrev returning : ParseTree
returning = record tree {
  exp = λ e. Syntax.ExpContext.number (Syntax.NumberContext.int "10");
  block = λ b. record { stat = []; retstat = Syntax.RetstatContext.explist (0 ∷ []) };
}

abbrev returned : Environment halves
returned = record nested { local_values = [] ∷ [] ∷ []; blocks = 4 ∷ 3 ∷ 2 ∷ 1 ∷ [] }

visit_chunk_returns :
    visit_chunk halves host returning 2 4 nested ≡ done (rvalue (int (pos 10)) ∷ []) returned
unfolding visit_chunk catch_chunk visitor visit_block visit_stats visit_retstat visit_explist
    map_all visit_context visit_number
visit_chunk_returns = refl

end_block_example : nested.blocks ≡ 3 ∷ unwound.blocks
unfolding end_block current_block erase_block clear_block forget_store release_all at touch find put
    erase
end_block_example = end_block_lem halves host tree visitors 3 nested unwound refl

-- `for i = 2, 3 do end`, with the block 4 and the counter at the object 5.
abbrev empty : ParseTree
empty = record tree { block = λ b. record { stat = []; retstat = absent } }

abbrev round : M halves (Unit {0})
round = for_round halves holds (visit_block halves host empty visitors 0) 4 "i"

abbrev counting : ℤ → Environment halves
counting i = record nested {
  local_values = ((4, ("i", 5) ∷ []) ∷ []) ∷ [];
  blocks = 4 ∷ 3 ∷ 2 ∷ 1 ∷ [];
  values = (5, (int i, 1)) ∷ [];
}

round_returns : (i : ℤ) → round (counting i) ≡ done tt (counting i)
unfolding visit_block visit_stats visit_retstat end_block current_block sweep_block sweep_store
    get_store set_store at put find
round_returns i = refl

ok_inj : {s s' : Environment halves} → ok s ≡ ok s' → s ≡ s'
ok_inj e = cc

abbrev returned_state : Outcome ℤ (Environment halves) (Unit {0}) → Environment halves
returned_state (done u s) = s
returned_state (thrown x s) = s

done_inj :
    (s s' : Environment halves)
    → Path (Outcome ℤ (Environment halves) (Unit {0})) (done tt s) (done tt s')
    → s ≡ s'
done_inj s s' e = ap returned_state e

counts : (i j : ℤ) → write halves (object 5) (int j) (counting i) ≡ ok (counting j)
unfolding write find put
counts i j = refl

-- The states that the loop comes to.
abbrev IsCounting : Environment halves → Type 0
IsCounting s = (i : ℤ) × (counting i ≡ s)

keeps :
    ((v : LuaValue ℤ) (s s' : Environment halves)
      → IsCounting s
      → round s ≡ done tt s'
      → heap halves s (object 5) ≡ some v
      → (heap halves s' (object 5) ≡ some v) × IsCounting s')
    × ((j : ℤ) (s s' : Environment halves)
        → IsCounting s
        → write halves (object 5) (int j) s ≡ ok s'
        → IsCounting s')
keeps = (
  λ v s s' (i, p) q h.
      let s₀ = counting i in
      let same : s ≡ s' = sym p ∙ done_inj s₀ s' (sym (round_returns i) ∙ ap round p ∙ q) in
      (subst (λ t. heap halves t (object 5) ≡ some v) same h, (i, p ∙ same)),
  λ j s s' (i, p) w. (j, ok_inj (sym (counts i j) ∙ ap (write halves (object 5) (int j)) p ∙ w)),
)

int_rounds-counted_example :
    int_rounds halves 10 5 (pos 6) (ok (pos 1)) round (pos 2) (counting (pos 2))
    ≡ counted halves 5 3 (pos 6) round 2 2 (counting (pos 2))
unfolding heap find ◌*ℤ◌
int_rounds-counted_example =
    int_rounds-counted halves 5 3 (pos 6) round (omega arith) (λ i. ground arith) IsCounting keeps 2
      2 (counting (pos 2)) refl (pos 2, refl) refl 10 (omega arith)
