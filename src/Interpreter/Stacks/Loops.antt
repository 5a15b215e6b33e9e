-- ===== src/Interpreter/Stacks/Loops.antt =====
-- interpreter.cpp: loops keep the stacks, if their bodies do.
use luapp.Prelude.{
  ℕ, zero, suc, List, String, [], ◌∷◌, Bool, Result, undefined, out_of_fuel, back?, drop, length,
  inl, inr, ◌-◌, ◌==◌, eq_string,
}
use luapp.Prelude.Int.{ℤ, ◌+ℤ◌}
use luapp.Analyzer.Scope.{Block}
use luapp.Types.Platform.{Platform, as_int}
use luapp.Types.Coerce.{as_double_weak}
use luapp.Types.Value.{LuaValue, int, double, nil, elipsis, values, is_refcounted}
use luapp.Types.Var.{Var, rvalue, lvalue, list, var_error, object}
use luapp.Interpreter.Environment.{ValueStore, Environment}
use luapp.Interpreter.Machine.{Outcome, done, thrown, error, break, goto, return, M, ◌>>◌, fail}
use luapp.Interpreter.Loops.{
  catch_break, while_loop, repeat_loop, sweep_store, get_store, sweep_block, as_number, held_int,
  held_double, int_rounds, double_rounds, copy_value, bind_loop_values, nil_loop_values,
  spread_elipsis, fill_names,
}
use luapp.Interpreter.Control.{for_rounds}
use luapp.Interpreter.Stacks.{Base, Ends, Keeps, >>=-Keeps, >>-Keeps, if-Keeps, option-Keeps}
use luapp.Interpreter.Stacks.Actions.{
  give-Keeps, fail-Keeps, lift-Keeps, read-Keeps, view-Keeps, child-Keeps, new_value-Keeps,
  count_up-Keeps, count_down-Keeps, set_local-Keeps, find_local-Keeps, set_store-Keeps, write-Keeps,
  release-Keeps,
}
use luapp.Interpreter.Stacks.Unwinding.{Anchored, stabilize_blocks-Keeps}

module _ (P : Platform) where
  open P use {Double}

  abbrev others_of : Block → List String → List (Var Double) → Var Double → M P (Unit {0})
  others_of b names results last = elim last [
    | list (_ ∷ vs) ↦
        bind_loop_values P b (drop (length results) names) vs
        >> nil_loop_values P b (drop (length vs) (drop (length results) names))
    | _ ↦ fail undefined
  ]

  abbrev values_of :
      Block → List String → List (Var Double) → Var Double → LuaValue Double → M P (Unit {0})
  values_of b names results last v = elim v [
    | elipsis vs ↦ spread_elipsis P b (drop (length results - 1) names) (values vs)
    | _ ↦ others_of b names results last
  ]

module _ {P : Platform} {base : Base} where
  open P use {Double}

  pub catch_break-Ends :
      (c : Block) (s : Environment P) (o : Outcome Double (Environment P) (Unit {0}))
      → Anchored base c
      → Ends base o
      → Ends base (catch_break P c (λ _. o) s)
  unfolding catch_break
  catch_break-Ends c s (done u t) h (inl (t', e)) = cc
  catch_break-Ends c s (done u t) h (inr w) = inr w
  catch_break-Ends c s (thrown break t) h (inl (t', e)) = cc
  catch_break-Ends c s (thrown break t) h (inr w) = (stabilize_blocks-Keeps c h).keeps t w
  catch_break-Ends c s (thrown (error x) t) h (inl (t', e)) = inl (t', cc)
  catch_break-Ends c s (thrown (error x) t) h (inr w) = inr w
  catch_break-Ends c s (thrown (goto l) t) h (inl (t', e)) = cc
  catch_break-Ends c s (thrown (goto l) t) h (inr w) = inr w
  catch_break-Ends c s (thrown (return vs) t) h (inl (t', e)) = cc
  catch_break-Ends c s (thrown (return vs) t) h (inr w) = inr w

  pub catch_break-Keeps :
      (c : Block) {run : M P (Unit {0})}
      → Anchored base c
      → Keeps base run
      → Keeps base (catch_break P c run)
  unfolding catch_break
  catch_break-Keeps c {run = run} h k = record {
    keeps = λ s w. catch_break-Ends c s (run s) h (k.keeps s w);
  }

  sweep_store-Keeps : (name : String) (store : ValueStore) → Keeps base (sweep_store P name store)
  unfolding sweep_store
  sweep_store-Keeps name [] = give-Keeps []
  sweep_store-Keeps name ((n, a) ∷ store) =
      if-Keeps (n == name)
        (>>=-Keeps (sweep_store-Keeps name store) λ kept. give-Keeps ((n, a) ∷ kept))
        (>>-Keeps (release-Keeps a) (sweep_store-Keeps name store))

  pub sweep_block-Keeps : (b : Block) (name : String) → Keeps base (sweep_block P b name)
  unfolding sweep_block
  sweep_block-Keeps b name =
      >>=-Keeps (view-Keeps (get_store P b))
        λ store. >>=-Keeps (sweep_store-Keeps name store) λ kept. set_store-Keeps b kept

  pub as_number-Keeps : (role : String) (v : LuaValue Double) → Keeps base (as_number P role v)
  unfolding as_number
  as_number-Keeps role (int i) = give-Keeps _
  as_number-Keeps role (double d) = give-Keeps _
  as_number-Keeps role v = fail-Keeps _

  held_int-Keeps : (v : LuaValue Double) → Keeps base (held_int P v)
  held_int-Keeps (int i) = give-Keeps i
  held_int-Keeps v = fail-Keeps _

  held_double-Keeps : (v : LuaValue Double) → Keeps base (held_double P v)
  held_double-Keeps (double d) = give-Keeps d
  held_double-Keeps v = fail-Keeps _

  copy_value-Keeps : (v : LuaValue Double) → Keeps base (copy_value P v)
  copy_value-Keeps v =
      >>=-Keeps (new_value-Keeps v)
        λ a. >>-Keeps (if-Keeps (is_refcounted v) (count_up-Keeps v) (give-Keeps tt)) (give-Keeps a)

  pub bind_loop_values-Keeps :
      (b : Block) (names : List String) (vs : List (LuaValue Double))
      → Keeps base (bind_loop_values P b names vs)
  unfolding bind_loop_values
  bind_loop_values-Keeps b [] vs = give-Keeps tt
  bind_loop_values-Keeps b (name ∷ names) [] = give-Keeps tt
  bind_loop_values-Keeps b (name ∷ names) (v ∷ vs) =
      >>=-Keeps (copy_value-Keeps v)
        λ a. >>-Keeps (set_local-Keeps b name a) (bind_loop_values-Keeps b names vs)

  nil_loop_values-Keeps : (b : Block) (names : List String) → Keeps base (nil_loop_values P b names)
  unfolding nil_loop_values
  nil_loop_values-Keeps b [] = give-Keeps tt
  nil_loop_values-Keeps b (name ∷ names) =
      >>=-Keeps (new_value-Keeps nil)
        λ a. >>-Keeps (set_local-Keeps b name a) (nil_loop_values-Keeps b names)

  spread_elipsis-Keeps :
      (b : Block) (names : List String) (vs : List (LuaValue Double))
      → Keeps base (spread_elipsis P b names vs)
  unfolding spread_elipsis
  spread_elipsis-Keeps b [] vs = nil_loop_values-Keeps b []
  spread_elipsis-Keeps b (name ∷ names) [] = nil_loop_values-Keeps b (name ∷ names)
  spread_elipsis-Keeps b (name ∷ names) (v ∷ vs) = >>=-Keeps (find_local-Keeps b name) λ found.
      >>=-Keeps (child-Keeps found) λ a. >>=-Keeps (read-Keeps (lvalue (object a))) λ old.
        >>-Keeps (count_down-Keeps old) (
          >>-Keeps (write-Keeps (object a) v) (
            >>-Keeps (if-Keeps (is_refcounted v) (count_up-Keeps v) (give-Keeps tt))
              (>>-Keeps (bind_loop_values-Keeps b names vs) (nil_loop_values-Keeps b _))))

  others_of-Keeps :
      (b : Block) (names : List String) (results : List (Var Double)) (last : Var Double)
      → Keeps base (others_of P b names results last)
  others_of-Keeps b names results (list (v ∷ vs)) =
      >>-Keeps (bind_loop_values-Keeps b (drop (length results) names) vs)
        (nil_loop_values-Keeps b _)
  others_of-Keeps b names results (list []) = fail-Keeps _
  others_of-Keeps b names results (lvalue p) = fail-Keeps _
  others_of-Keeps b names results (rvalue v) = fail-Keeps _
  others_of-Keeps b names results var_error = fail-Keeps _

  values_of-Keeps :
      (b : Block) (names : List String) (results : List (Var Double)) (last : Var Double)
      (v : LuaValue Double)
      → Keeps base (values_of P b names results last v)
  values_of-Keeps b names results last (elipsis vs) = spread_elipsis-Keeps b _ (values vs)
  values_of-Keeps b names results last v = others_of-Keeps b names results last

  pub fill_names-Keeps :
      (b : Block) (names : List String) (results : List (Var Double))
      → Keeps base (fill_names P b names results)
  unfolding fill_names
  fill_names-Keeps b names results =
      option-Keeps (back? results) (fail-Keeps _)
        λ last. >>=-Keeps (read-Keeps last) (values_of-Keeps b names results last)

  pub while_loop-Keeps :
      (n : ℕ) {cond : M P Bool} {body : M P (Unit {0})}
      → Keeps base cond
      → Keeps base body
      → Keeps base (while_loop P n cond body)
  unfolding while_loop
  while_loop-Keeps zero c k = fail-Keeps out_of_fuel
  while_loop-Keeps (suc n) c k =
      >>=-Keeps c λ go_on. if-Keeps go_on (>>-Keeps k (while_loop-Keeps n c k)) (give-Keeps tt)

  pub repeat_loop-Keeps :
      (n : ℕ) {cond : M P Bool} {body : M P (Unit {0})}
      → Keeps base cond
      → Keeps base body
      → Keeps base (repeat_loop P n body cond)
  unfolding repeat_loop
  repeat_loop-Keeps zero c k = fail-Keeps out_of_fuel
  repeat_loop-Keeps (suc n) c k =
      >>-Keeps k (>>=-Keeps c λ stop. if-Keeps stop (give-Keeps tt) (repeat_loop-Keeps n c k))

  int_rounds-Keeps :
      (n a : ℕ) (limit : Double) (step : Result ℤ) {round : M P (Unit {0})} (i : ℤ)
      → Keeps base round
      → Keeps base (int_rounds P n a limit step round i)
  unfolding int_rounds
  int_rounds-Keeps zero a limit step i k = fail-Keeps out_of_fuel
  int_rounds-Keeps (suc n) a limit step i k = >>=-Keeps (read-Keeps (lvalue (object a))) λ v.
      >>=-Keeps (held_int-Keeps v) λ j.
        if-Keeps (P.le (P.of_int j) limit)
          (>>-Keeps k (
            >>=-Keeps (lift-Keeps step) λ d. >>=-Keeps (lift-Keeps (as_int (i +ℤ d))) λ next.
              >>-Keeps (write-Keeps (object a) (int next))
                (int_rounds-Keeps n a limit step next k)))
          (give-Keeps tt)

  double_rounds-Keeps :
      (n a : ℕ) (limit step : Double) {round : M P (Unit {0})} (d : Double)
      → Keeps base round
      → Keeps base (double_rounds P n a limit step round d)
  unfolding double_rounds
  double_rounds-Keeps zero a limit step d k = fail-Keeps out_of_fuel
  double_rounds-Keeps (suc n) a limit step d k = >>=-Keeps (read-Keeps (lvalue (object a))) λ v.
      >>=-Keeps (held_double-Keeps v) λ j.
        if-Keeps (P.le j limit)
          (>>-Keeps k (
            >>-Keeps (write-Keeps (object a) (double (P.add d step)))
              (double_rounds-Keeps n a limit step (P.add d step) k)))
          (give-Keeps tt)

  pub for_rounds-Keeps :
      (n a : ℕ) (limit increment counter : LuaValue Double) {round : M P (Unit {0})}
      → Keeps base round
      → Keeps base (for_rounds P n a limit increment counter round)
  unfolding for_rounds
  for_rounds-Keeps n a limit increment (int i) k =
      >>=-Keeps (lift-Keeps (as_double_weak P limit)) λ bound.
        >>=-Keeps (lift-Keeps (as_double_weak P increment)) λ step. int_rounds-Keeps n a bound _ i k
  for_rounds-Keeps n a limit increment (double d) k =
      >>=-Keeps (lift-Keeps (as_double_weak P limit)) λ bound.
        >>=-Keeps (lift-Keeps (as_double_weak P increment))
          λ step. double_rounds-Keeps n a bound step d k
  for_rounds-Keeps n a limit increment v k =
      >>=-Keeps (lift-Keeps (as_double_weak P limit))
        λ bound. >>=-Keeps (lift-Keeps (as_double_weak P increment)) λ step. fail-Keeps _
