-- ===== src/Interpreter/Stacks/For.antt =====
-- interpreter.cpp: the loops of `for` keep the stacks, if the visitors do.
use luapp.Prelude.{
  ℕ, inr, zero, suc, String, List, [], ◌∷◌, true, length, take, ltb, out_of_fuel, refl,
}
use luapp.Analyzer.Scope.{Block}
use luapp.Types.Platform.{Platform}
use luapp.Types.Value.{LuaValue, elipsis, values, function}
use luapp.Types.Var.{Var, rvalue, lvalue, list, var_error, object}
use luapp.Interpreter.Syntax.{StatContext}
use luapp.Interpreter.Environment.{Environment}
use luapp.Interpreter.Environment.Closing.{erase_block}
use luapp.Interpreter.Machine.{break, M, give, ◌>>◌, modify, push_block, pop_block, attempt}
use luapp.Interpreter.Operands.{is_nil}
use luapp.Interpreter.Loops.{catch_break}
use luapp.Interpreter.Calls.{Host}
use luapp.Interpreter.Control.{
  for_in_round, for_in_rounds, for_in, loop_values, second_or_nil, third_or_nil, front_value,
  process_for_in, for_round, for_increment, for_number, run_for, for_rounds, for_loop,
  process_for_loop,
}
use luapp.Interpreter.Stacks.{Base, Within, Keeps, >>=-Keeps, >>-Keeps, if-Keeps, map_all-Keeps}
use luapp.Interpreter.Stacks.Actions.{
  give-Keeps, fail-Keeps, throw-Keeps, read-Keeps, child-Keeps, child_at-Keeps, new_value-Keeps,
  set_local-Keeps, set_store-Keeps, write-Keeps, clear_block-Keeps, erase_block-Keeps,
}
use luapp.Interpreter.Stacks.Arguments.{visit_explist-Keeps, nth-Keeps}
use luapp.Interpreter.Stacks.Entering.{
  Suffix-trans, Within-below, Leads, >>-Leads, >>=-Leads, Ends-Weaker, entered,
}
use luapp.Interpreter.Stacks.Unwinding.{Anchored, at_current, pop_block-Leads}
use luapp.Interpreter.Stacks.Calls.{BlockKeeps, call_function-Keeps}
use luapp.Interpreter.Stacks.Loops.{
  catch_break-Ends, catch_break-Keeps, sweep_block-Keeps, as_number-Keeps, bind_loop_values-Keeps,
  fill_names-Keeps, for_rounds-Keeps,
}

-- The base, with a block on top of some blocks.
abbrev with_block : Base → Block → List Block → Base
with_block base b bs = record base { blocks = b ∷ bs }

module _ {P : Platform} {base : Base} where
  open P use {Double}

  last_values :
      (x : Var Double) (v : LuaValue Double)
      → Keeps {P = P} {A = List (LuaValue Double)} base (elim x [
        | list vs ↦ give vs
        | _ ↦ elim v [ elipsis vs ↦ give (values vs) | _ ↦ give [] ]
      ])
  last_values (list vs) v = give-Keeps vs
  last_values (rvalue x) (elipsis vs) = give-Keeps (values vs)
  last_values (rvalue x) v = give-Keeps []
  last_values (lvalue x) (elipsis vs) = give-Keeps (values vs)
  last_values (lvalue x) v = give-Keeps []
  last_values var_error (elipsis vs) = give-Keeps (values vs)
  last_values var_error v = give-Keeps []

  loop_values-Keeps : (xs : List (Var Double)) → Keeps base (loop_values P xs)
  unfolding loop_values
  loop_values-Keeps [] = fail-Keeps _
  loop_values-Keeps (x ∷ []) = >>=-Keeps (read-Keeps x) (last_values x)
  loop_values-Keeps (x ∷ y ∷ ys) =
      >>=-Keeps (read-Keeps x) λ v. >>=-Keeps (loop_values-Keeps (y ∷ ys)) λ vs. give-Keeps (v ∷ vs)

  front_value-Keeps : (xs : List (Var Double)) → Keeps base (front_value P xs)
  front_value-Keeps [] = give-Keeps _
  front_value-Keeps (x ∷ xs) = read-Keeps x

  pushed :
      (b : Block) (s : Environment P)
      → Within base s
      → Within (with_block base b s.blocks) (record s { blocks = b ∷ s.blocks })
  pushed b s w = record {
    blocks = ([], refl);
    functions = w.functions;
    frames = w.frames;
    from_for = w.from_for;
    from_funcall = w.from_funcall;
  }

  unpushed :
      (b : Block) (s t : Environment P)
      → Within base s
      → Within (with_block base b s.blocks) t
      → Within base t
  unpushed b s t w v =
      Within-below {inner = with_block base b s.blocks} (Suffix-trans w.blocks (b ∷ [], refl))
        ([], refl) refl v

  popped :
      (b : Block) (s : Environment P)
      → Within base s
      → Leads (with_block base b s.blocks) base (pop_block P)
  popped b s w = record {
    leads = λ t v.
        Ends-Weaker (λ u x. Within-below w.blocks ([], refl) refl x) (pop_block P t)
          ((pop_block-Leads {base = record base { blocks = s.blocks }} b).leads t v);
  }

module _ {P : Platform} {e : ℕ → M P (Var P.Double)} (he : (base : Base) (i : ℕ) → Keeps base (e i))
    {b : Block → M P (Unit {0})} (hb : BlockKeeps P b) where
  open P use {Double}

  -- A round's visit of its block, and what follows.
  looped :
      {base : Base} (block : Block) {next : M P (Unit {0})}
      → Anchored base block
      → Keeps base next
      → Keeps base (modify (λ s. record s { coming_from_for = true }) >> (b block >> next))
  looped {base = base} block h k = record {
    keeps = λ s w. (>>-Keeps (hb.looping base block h) k).keeps s w;
  }

  for_in_round-Keeps :
      {base : Base} (names : List String) (block : Block) (results : List (Var Double))
      → Anchored base block
      → Keeps base (for_in_round P e b names block results)
  unfolding for_in_round
  for_in_round-Keeps {base = base} names block results h =
      >>=-Keeps (map_all-Keeps read-Keeps (take (length names) results)) λ vs.
        >>-Keeps (bind_loop_values-Keeps block names vs) (
          >>-Keeps
            (if-Keeps (ltb (length results) (length names)) (fill_names-Keeps block names results)
              (give-Keeps tt))
            (looped block h (>>-Keeps (clear_block-Keeps block) (set_store-Keeps block []))))

  for_increment-Keeps : {base : Base} (es : List ℕ) → Keeps base (for_increment P e b es)
  unfolding for_increment
  for_increment-Keeps {base = base} (_ ∷ _ ∷ i ∷ []) =
      >>=-Keeps (he base i) λ x. >>=-Keeps (read-Keeps x) λ v. as_number-Keeps _ v
  for_increment-Keeps _ = give-Keeps _

  for_number-Keeps :
      {base : Base} (i : ℕ) (es : List ℕ) (role : String) → Keeps base (for_number P e b i es role)
  for_number-Keeps i es role =
      >>=-Keeps (nth-Keeps he i es) λ x. >>=-Keeps (read-Keeps x) λ v. as_number-Keeps role v

  for_round-Keeps :
      {base : Base} (block : Block) (name : String)
      → Anchored base block
      → Keeps base (for_round P e b block name)
  for_round-Keeps block name h = looped block h (sweep_block-Keeps block name)

  run_for-Keeps :
      {base : Base} (n a : ℕ) (limit increment start : LuaValue Double) (name : String)
      (block : Block)
      → Keeps base (run_for P e b n a limit increment start name block)
  unfolding run_for
  run_for-Keeps {base = base} n a limit increment start name block =
      let rounds = for_rounds P n a limit increment start (for_round P e b block name) in
      >>-Keeps (write-Keeps (object a) start) (
        entered (λ s. record s { blocks = block ∷ s.blocks })
          (rounds >> (pop_block P >> attempt (erase_block P block)))
          λ s w. (
            with_block base block s.blocks,
            pushed block s w,
            >>-Leads
                (for_rounds-Keeps n a limit increment start
                  (for_round-Keeps block name (inr (s.blocks, refl))))
                (>>=-Leads (popped block s w) λ _. erase_block-Keeps block)
                (λ t v. unpushed block s t w v),
          ))

  for_loop-Keeps : {base : Base} (n : ℕ) (c : StatContext) → Keeps base (for_loop P e b n c)
  unfolding for_loop
  for_loop-Keeps n c = >>=-Keeps (for_number-Keeps 0 c.exp _) λ counter.
      >>=-Keeps (for_number-Keeps 1 c.exp _) λ limit. >>=-Keeps (child-Keeps c.name) λ name.
        >>=-Keeps (child_at-Keeps 0 c.block) λ block. >>=-Keeps (new_value-Keeps counter) λ a.
          >>-Keeps (set_local-Keeps block name a) (
            >>=-Keeps (for_increment-Keeps c.exp)
              λ increment. run_for-Keeps n a limit increment _ name block)

  pub process_for_loop-Keeps :
      {base : Base} (n : ℕ) (c : StatContext) → Keeps base (process_for_loop P e b n c)
  unfolding process_for_loop
  process_for_loop-Keeps n c =
      at_current (λ d. catch_break P d (for_loop P e b n c))
        λ inner d h. catch_break-Keeps d h (for_loop-Keeps n c)

  module _ (H : Host Double) where
    for_in_rounds-Keeps :
        {base : Base} (n f : ℕ) (state : LuaValue Double) (names : List String) (block : Block)
        (v : LuaValue Double)
        → Anchored base block
        → Keeps base (for_in_rounds P e b H n f state names block v)
    unfolding for_in_rounds
    for_in_rounds-Keeps zero f state names block v h = fail-Keeps out_of_fuel
    for_in_rounds-Keeps (suc n) f state names block v h =
        >>=-Keeps (call_function-Keeps H hb f _) λ results.
          >>=-Keeps (front_value-Keeps results) λ x. if-Keeps (is_nil P x) (throw-Keeps break) (
            >>-Keeps (for_in_round-Keeps names block results h)
              (for_in_rounds-Keeps n f state names block x h))

    -- The rounds with the loop's block on the stack, which only a jump takes off again.
    for_in_rounds-Ends :
        {base : Base} (n : ℕ) (names : List String) (block : Block) (f : ℕ)
        (state v : LuaValue Double) (c : Block)
        → Anchored base c
        → Keeps base
            (push_block P block >> catch_break P c (for_in_rounds P e b H n f state names block v))
    unfolding catch_break
    for_in_rounds-Ends {base = base} n names block f state v c h = record {
      keeps = λ s w.
          let s₁ = record s { blocks = block ∷ s.blocks } in
          let o = for_in_rounds P e b H n f state names block v s₁ in
          catch_break-Ends {base = base} c s₁ o h (
            Ends-Weaker (λ t x. unpushed block s t w x) o
              ((for_in_rounds-Keeps {base = with_block base block s.blocks} n f state names block v
                  (inr (s.blocks, refl))).keeps
                s₁ (pushed block s w)));
    }

    for_in-Keeps :
        {base : Base} (n : ℕ) (names : List String) (block : Block) (vs : List (LuaValue Double))
        → Keeps base (for_in P e b H n names block vs)
    unfolding for_in
    for_in-Keeps n names block [] = fail-Keeps _
    for_in-Keeps n names block (function f ∷ vs) =
        at_current
          (λ c.
            push_block P block
            >> catch_break P c (
                for_in_rounds P e b H n f (second_or_nil P (function f ∷ vs)) names block
                  (third_or_nil P (function f ∷ vs))))
          (λ inner c h. for_in_rounds-Ends n names block f _ _ c h)
    for_in-Keeps n names block (v ∷ vs) = fail-Keeps _

    pub process_for_in-Keeps :
        {base : Base} (n : ℕ) (names : List String) (el : List ℕ) (block : Block)
        → Keeps base (process_for_in P e b H n names el block)
    unfolding process_for_in
    process_for_in-Keeps n names el block =
        >>=-Keeps (visit_explist-Keeps he el)
          λ exprs. >>=-Keeps (loop_values-Keeps exprs) (for_in-Keeps n names block)
