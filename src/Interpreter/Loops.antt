-- ===== src/Interpreter/Loops.antt =====
-- interpreter.cpp: the rounds of the loops, and what a numeric `for` and a `for in` bind. The fuel
-- bounds the rounds of a loop.
pub mod Counting
use luapp.Prelude.{
  ℕ, zero, suc, ◌-◌, String, List, [], ◌∷◌, Bool, none, some, back?, length, drop, ◌==◌, eq_nat,
  eq_string, if◌then◌else◌, Result, ok, err, undefined, out_of_fuel, bad_type, bad_variant_access,
}
use luapp.Prelude.Int.{ℤ, ◌+ℤ◌}
use luapp.Prelude.Map.{put}
use luapp.Analyzer.Scope.{Block}
use luapp.Analyzer.State.{at}
use luapp.Types.Platform.{Platform, as_int}
use luapp.Types.Value.{LuaValue, int, double, nil, elipsis, values, type_as_string, is_refcounted}
use luapp.Types.Var.{Var, lvalue, list, object}
use luapp.Interpreter.Environment.{Environment, ValueStore, release}
use luapp.Interpreter.Environment.Closing.{stabilize_blocks}
use luapp.Interpreter.Machine.{
  done, thrown, error, break, goto, return, ◌>>=◌, ◌>>◌, give, fail, lift, attempt, child, M, read,
  write, new_value, find_local, set_local, count_up, count_down,
}

module _ (P : Platform) where
  open P use {Double, of_int, to_int, add, le}

  -- `catch (Exceptions::Break&)`.
  unfoldable pub catch_break : Block → M P (Unit {0}) → M P (Unit {0})
  catch_break current body s = elim (body s) [
    | done _ s' ↦ done tt s'
    | thrown x s' ↦ elim x [
      | break ↦ attempt (stabilize_blocks P current) s'
      | error e ↦ thrown (error e) s'
      | goto l ↦ thrown (goto l) s'
      | return vs ↦ thrown (return vs) s'
    ]
  ]

  unfoldable pub while_loop : ℕ → M P Bool → M P (Unit {0}) → M P (Unit {0})
  while_loop zero cond body = fail out_of_fuel
  while_loop (suc n) cond body =
      let again = while_loop n cond body in cond >>= λ b. if b then (body >> again) else give tt

  unfoldable pub repeat_loop : ℕ → M P (Unit {0}) → M P Bool → M P (Unit {0})
  repeat_loop zero body cond = fail out_of_fuel
  repeat_loop (suc n) body cond =
      let again = repeat_loop n body cond in body >> (cond >>= λ b. if b then give tt else again)

  -- Every local of the block but the counter goes, which keeps its object.
  unfoldable pub sweep_store : String → ValueStore → M P ValueStore
  sweep_store name [] = give []
  sweep_store name ((n, a) ∷ store) =
      if n == name
      then (sweep_store name store >>= λ kept. give ((n, a) ∷ kept))
      else (attempt (release P a) >> sweep_store name store)

  unfoldable pub set_store : Block → ValueStore → Environment P → Result (Environment P)
  set_store block store s = elim s.local_values [
    | [] ↦ err undefined
    | top ∷ below ↦ ok (record s { local_values = put block store top ∷ below })
  ]

  unfoldable pub get_store : Block → Environment P → Result ValueStore
  get_store block s = elim s.local_values [
    | [] ↦ err undefined
    | top ∷ below ↦ ok (at [] block top)
  ]

  unfoldable pub sweep_block : Block → String → M P (Unit {0})
  sweep_block block name = do
    store ← (λ s. lift (get_store block s) s)
    kept ← sweep_store name store
    attempt (set_store block kept)

  -- A number, or the type error that names its role.
  unfoldable pub as_number : String → LuaValue Double → M P (LuaValue Double)
  as_number role (int i) = give (int i)
  as_number role (double d) = give (double d)
  as_number role v = fail (bad_type "int or double" (type_as_string v) role)

  -- `value->as<int>()` and `value->as<double>()`.
  abbrev pub held_int : LuaValue Double → M P ℤ
  held_int (int i) = give i
  held_int v = fail bad_variant_access

  abbrev pub held_double : LuaValue Double → M P Double
  held_double (double d) = give d
  held_double v = fail bad_variant_access

  -- One round and the count of it; `round` visits the block and sweeps it.
  abbrev pub int_round : ℕ → Result ℤ → M P (Unit {0}) → (ℤ → M P (Unit {0})) → ℤ → M P (Unit {0})
  int_round a step round again counter = do
    round
    k ← lift step
    next ← lift (as_int (counter +ℤ k))
    attempt (write P (object a) (int next))
    again next

  abbrev pub double_round :
      ℕ → Double → M P (Unit {0}) → (Double → M P (Unit {0})) → Double → M P (Unit {0})
  double_round a step round again counter = do
    round
    attempt (write P (object a) (double (add counter step)))
    again (add counter step)

  -- The rounds of an int counter at the object `a`.
  unfoldable pub int_rounds : ℕ → ℕ → Double → Result ℤ → M P (Unit {0}) → ℤ → M P (Unit {0})
  int_rounds zero a limit step round counter = fail out_of_fuel
  int_rounds (suc n) a limit step round counter =
      let go_on = int_round a step round (int_rounds n a limit step round) counter in
      read P (lvalue (object a)) >>= λ v.
      held_int v >>= λ i. if le (of_int i) limit then go_on else give tt

  unfoldable pub double_rounds : ℕ → ℕ → Double → Double → M P (Unit {0}) → Double → M P (Unit {0})
  double_rounds zero a limit step round counter = fail out_of_fuel
  double_rounds (suc n) a limit step round counter =
      let go_on = double_round a step round (double_rounds n a limit step round) counter in
      read P (lvalue (object a)) >>= λ v.
      held_double v >>= λ d. if le d limit then go_on else give tt

  -- The counter's own type, and then a double if the increment is one.
  unfoldable pub promoted : LuaValue Double → LuaValue Double → LuaValue Double
  promoted (double inc) (int i) = double (of_int i)
  promoted inc counter = counter

  -- `new Value` with `operator=`, which counts a reference.
  abbrev pub copy_value : LuaValue Double → M P ℕ
  copy_value v = do a ← new_value P v; if is_refcounted v then count_up P v else give tt; give a

  unfoldable pub bind_loop_values : Block → List String → List (LuaValue Double) → M P (Unit {0})
  bind_loop_values block (name ∷ names) (v ∷ vs) = do
    a ← copy_value v
    attempt (set_local P block name a)
    bind_loop_values block names vs
  bind_loop_values block _ _ = give tt

  unfoldable pub nil_loop_values : Block → List String → M P (Unit {0})
  nil_loop_values block [] = give tt
  nil_loop_values block (name ∷ names) = do
    a ← new_value P nil
    attempt (set_local P block name a)
    nil_loop_values block names

  -- The first name holds the elipsis itself, and gets its first value instead.
  unfoldable pub spread_elipsis : Block → List String → List (LuaValue Double) → M P (Unit {0})
  spread_elipsis block (name ∷ names) (v ∷ vs) = do
    found ← (λ s. lift (find_local P block name s) s)
    a ← child found
    old ← read P (lvalue (object a))
    count_down P old
    attempt (write P (object a) v)
    if is_refcounted v then count_up P v else give tt
    bind_loop_values block names vs
    nil_loop_values block (drop (length vs) names)
  spread_elipsis block names _ = nil_loop_values block names

  -- The names beyond the results. Where the last result is a single value the source reads an index
  -- that nothing has set.
  unfoldable pub fill_names : Block → List String → List (Var Double) → M P (Unit {0})
  fill_names block names results = elim (back? results) [
    | none ↦ fail undefined
    | some last ↦ read P last >>= λ v. elim v [
      | elipsis vs ↦ spread_elipsis block (drop (length results - 1) names) (values vs)
      | _ ↦ elim last [
        | list (_ ∷ vs) ↦
            bind_loop_values block (drop (length results) names) vs
            >> nil_loop_values block (drop (length vs) (drop (length results) names))
        | _ ↦ fail undefined
      ]
    ]
  ]
