-- ===== src/Interpreter/Control.antt =====
-- interpreter.cpp: the statements with a block of their own, `process_while`, `process_repeat`,
-- `process_if`, `process_for_in` and `process_for_loop`. The fuel bounds the rounds of one loop.
pub mod Unrolling
use luapp.Prelude.{
  ℕ, zero, suc, String, List, [], ◌∷◌, Bool, true, none, some, back?, length, take, ltb,
  if◌then◌else◌, undefined, out_of_fuel, bad_for_in, for_in_bad_type, bad_variant_access,
}
use luapp.Prelude.Int.{pos}
use luapp.Analyzer.Scope.{Block}
use luapp.Types.Platform.{Platform, deref_int}
use luapp.Types.Value.{LuaValue, int, double, nil, elipsis, function, values, type_as_string}
use luapp.Types.Coerce
use luapp.Types.Coerce.{as_bool_weak, as_double_weak}
use luapp.Types.Var.{Var, list, object}
use luapp.Interpreter.Syntax.{StatContext}
use luapp.Interpreter.Environment.{current_block}
use luapp.Interpreter.Environment.Closing.{clear_block, erase_block}
use luapp.Interpreter.Machine.{
  break, ◌>>=◌, ◌>>◌, give, throw, fail, lift, gets, modify, attempt, child, child_at, map_all, M,
  read, write, new_value, set_local, push_block, pop_block,
}
use luapp.Interpreter.Calls.{Host, call_function}
use luapp.Interpreter.Operands.{nth, visit_explist, is_nil}
use luapp.Interpreter.Loops.{
  catch_break, while_loop, repeat_loop, set_store, sweep_block, as_number, int_rounds,
  double_rounds, promoted, bind_loop_values, fill_names,
}

module _ (P : Platform) where
  open P use {Double}

  -- The values of the expressions of a `for in`: all but the last one are read, and the last one only
  -- counts where it has several values.
  unfoldable pub loop_values : List (Var Double) → M P (List (LuaValue Double))
  loop_values [] = fail undefined
  loop_values (x ∷ []) = read P x >>= λ v. elim x [
    | list vs ↦ give vs
    | _ ↦ elim v [ elipsis vs ↦ give (values vs) | _ ↦ give [] ]
  ]
  loop_values (x ∷ y ∷ ys) = do v ← read P x; vs ← loop_values (y ∷ ys); give (v ∷ vs)

  abbrev pub second_or_nil : List (LuaValue Double) → LuaValue Double
  second_or_nil (_ ∷ v ∷ _) = v
  second_or_nil _ = nil

  abbrev pub third_or_nil : List (LuaValue Double) → LuaValue Double
  third_or_nil (_ ∷ _ ∷ v ∷ _) = v
  third_or_nil _ = nil

  abbrev pub front_value : List (Var Double) → M P (LuaValue Double)
  front_value [] = give nil
  front_value (x ∷ xs) = read P x

  unfoldable pub for_rounds :
      ℕ → ℕ → LuaValue Double → LuaValue Double → LuaValue Double → M P (Unit {0}) → M P (Unit {0})
  for_rounds fuel a limit increment counter round = do
    bound ← lift (as_double_weak P limit)
    step ← lift (as_double_weak P increment)
    elim counter [
      | int i ↦ int_rounds P fuel a bound (deref_int (P.to_int step)) round i
      | double d ↦ double_rounds P fuel a bound step round d
      | _ ↦ fail bad_variant_access
    ]

module _ (P : Platform) (visit_exp : ℕ → M P (Var P.Double))
    (visit_block : Block → M P (Unit {0})) where
  open P use {Double}

  -- `visit(exp).as<Types::Var>().as_bool_weak()`.
  unfoldable pub visit_condition : ℕ → M P Bool
  visit_condition e = do x ← visit_exp e; v ← read P x; give (Coerce.as_bool_weak P v)

  unfoldable pub process_while : ℕ → ℕ → Block → M P (Unit {0})
  process_while fuel exp block = do
    current ← gets (current_block P)
    catch_break P current (while_loop P fuel (visit_condition exp) (visit_block block))

  unfoldable pub process_repeat : ℕ → Block → ℕ → M P (Unit {0})
  process_repeat fuel block exp = do
    current ← gets (current_block P)
    catch_break P current (repeat_loop P fuel (visit_block block) (visit_condition exp))

  -- The conditions with their blocks; a block beyond the conditions is that of `else`.
  unfoldable pub process_if : List ℕ → List Block → M P (Unit {0})
  process_if [] blocks = elim (back? blocks) [ none ↦ give tt | some last ↦ visit_block last ]
  process_if (e ∷ es) [] = do b ← visit_condition e; if b then fail undefined else process_if es []
  process_if (e ∷ es) (block ∷ blocks) = do
    b ← visit_condition e
    if b then visit_block block else process_if es blocks

  -- The names of one round, its visit, and the end of its locals.
  unfoldable pub for_in_round : List String → Block → List (Var Double) → M P (Unit {0})
  for_in_round names block results = do
    vs ← map_all (read P) (take (length names) results)
    bind_loop_values P block names vs
    if ltb (length results) (length names) then fill_names P block names results else give tt
    modify λ s. record s { coming_from_for = true }
    visit_block block
    attempt (clear_block P block)
    attempt (set_store P block [])

  module _ (H : Host Double) where
    unfoldable pub for_in_rounds :
        ℕ → ℕ → LuaValue Double → List String → Block → LuaValue Double → M P (Unit {0})
    for_in_rounds zero f state names block iteration_value = fail out_of_fuel
    for_in_rounds (suc n) f state names block iteration_value = do
      results ← call_function P H visit_block f (state ∷ iteration_value ∷ [])
      v ← front_value P results
      let go_on = for_in_round names block results >> for_in_rounds n f state names block v in
          if is_nil P v then throw break else go_on

    -- The values begin with the iterator, its state and the first value that it is called on.
    unfoldable pub for_in : ℕ → List String → Block → List (LuaValue Double) → M P (Unit {0})
    for_in fuel names block [] = fail bad_for_in
    for_in fuel names block (function f ∷ vs) = do
      current ← gets (current_block P)
      push_block P block
      let rounds =
            for_in_rounds fuel f (second_or_nil P (function f ∷ vs)) names block
              (third_or_nil P (function f ∷ vs)) in
          catch_break P current rounds
    for_in fuel names block (v ∷ vs) = fail (for_in_bad_type (type_as_string v))

    unfoldable pub process_for_in : ℕ → List String → List ℕ → Block → M P (Unit {0})
    process_for_in fuel names el block = do
      exprs ← visit_explist P visit_exp el
      vs ← loop_values P exprs
      for_in fuel names block vs

  -- One round of a numeric `for`.
  abbrev pub for_round : Block → String → M P (Unit {0})
  for_round block name = do
    modify λ s. record s { coming_from_for = true }
    visit_block block
    sweep_block P block name

  -- The step is 1 unless there are three expressions.
  unfoldable pub for_increment : List ℕ → M P (LuaValue Double)
  for_increment (_ ∷ _ ∷ e ∷ []) = do
    x ← visit_exp e
    v ← read P x
    as_number P "increment of numeric for" v
  for_increment _ = give (int (pos 1))

  abbrev pub for_number : ℕ → List ℕ → String → M P (LuaValue Double)
  for_number i es role = do x ← nth P visit_exp i es; v ← read P x; as_number P role v

  -- The rest of the `try`, from the promotion of the counter on.
  unfoldable pub run_for :
      ℕ → ℕ → LuaValue Double → LuaValue Double → LuaValue Double → String → Block → M P (Unit {0})
  run_for fuel a limit increment start name block =
      attempt (write P (object a) start)
      >> (push_block P block
          >> (for_rounds P fuel a limit increment start (for_round block name)
              >> (pop_block P >> attempt (erase_block P block))))

  -- The body of the `try`. The counter's object has the counter's own value when the rounds begin.
  unfoldable pub for_loop : ℕ → StatContext → M P (Unit {0})
  for_loop fuel c = do
    counter ← for_number 0 c.exp "counter of numeric for"
    limit ← for_number 1 c.exp "limit of numeric for"
    name ← child c.name
    block ← child_at 0 c.block
    a ← new_value P counter
    attempt (set_local P block name a)
    increment ← for_increment c.exp
    run_for fuel a limit increment (promoted P increment counter) name block

  unfoldable pub process_for_loop : ℕ → StatContext → M P (Unit {0})
  process_for_loop fuel c = do
    current ← gets (current_block P)
    catch_break P current (for_loop fuel c)
