-- ===== src/Interpreter/Stacks/Calls.antt =====
-- interpreter.cpp: calls keep the stacks, if the visitor of blocks does.
use luapp.Prelude.{
  ℕ, suc, ◌+◌, arith, Option-cases, eq_nat, String, List, [], ◌∷◌, Option, none, some, true, back?,
  inl, inr, refl, ◌==◌, eq_string, ◌≡◌,
}
use luapp.Prelude.Map.{find}
use luapp.Analyzer.Scope.{Block}
use luapp.Types.Platform.{Platform}
use luapp.Types.Value.{LuaValue, function}
use luapp.Types.Var.{Var}
use luapp.Interpreter.Environment.{Environment, Code}
use luapp.Interpreter.Machine.{
  Outcome, done, thrown, error, break, goto, return, M, ◌>>◌, modify, give,
}
use luapp.Interpreter.Calls.{
  Host, Args, vars, table_constructor, string_literal, NameAndArgs, bind_rest, bind_parameters,
  bind_parameter, pop_frame, catch_return, visit_arguments, as_function, callee, call_builder,
  call_body, call_function, process_names_and_args,
}
use luapp.Interpreter.Stacks.{
  Base, Within, Ends, Keeps, >>=-Keeps, >>-Keeps, if-Keeps, option-Keeps, map_all-Keeps, later,
}
use luapp.Interpreter.Stacks.Actions.{
  give-Keeps, fail-Keeps, lift-Keeps, read-Keeps, new_value-Keeps, count_up-Keeps, set_local-Keeps,
}
use luapp.Interpreter.Stacks.Names.{dot_place-Keeps, as_table-Keeps, place_value-Keeps}
use luapp.Interpreter.Stacks.Entering.{
  entered, Suffix-trans, Within-below, Leads, Weaker, >>-Leads, >>=-Leads, Ends-Weaker,
}
use luapp.Interpreter.Stacks.Unwinding.{
  Anchored, stabilize_blocks-Keeps, at_current, pop_frame-Leads,
}

-- What a visitor of blocks does with the stacks: on its own it pushes and pops the block; in a loop the
-- block is there before and after; and in a call it is there before, and popped.
pub record BlockKeeps (P : Platform) (b : Block → M P (Unit {0})) : Type 0 where
  pub plain : (base : Base) (i : Block) → Keeps base (b i)
  pub looping :
      (base : Base) (i : Block)
      → Anchored base i
      → Keeps base (modify (λ s. record s { coming_from_for = true }) >> b i)
  pub calling :
      (base : Base) (i : Block)
      → Leads
          (record base { blocks = i ∷ base.blocks })
          base
          (modify (λ s. record s { coming_from_funcall = true }) >> b i)

one_more : (k n m : ℕ) → m ≡ k + n → suc m ≡ k + suc n
one_more k n m e = omega (arith, e)

module _ {P : Platform} {base : Base} where
  open P use {Double}

  bind_parameter-Keeps :
      (ctx : Block) (name : String) (v : LuaValue Double) → Keeps base (bind_parameter P ctx name v)
  bind_parameter-Keeps ctx name v = search (>>=-Keeps, new_value-Keeps, set_local-Keeps)

  bind_rest-Keeps :
      (ctx : Block) (formals : List String) (vs : List (LuaValue Double))
      → Keeps base (bind_rest P ctx formals vs)
  unfolding bind_rest
  bind_rest-Keeps ctx formals vs =
      option-Keeps (back? formals) (fail-Keeps _)
        λ last. if-Keeps (last == "...") (bind_parameter-Keeps ctx "..." _) (give-Keeps tt)

  bind_parameters-Keeps :
      (ctx : Block) (formals ps : List String) (vs : List (LuaValue Double))
      → Keeps base (bind_parameters P ctx formals ps vs)
  unfolding bind_parameters
  bind_parameters-Keeps ctx formals [] [] = give-Keeps tt
  bind_parameters-Keeps ctx formals [] (v ∷ vs) = bind_rest-Keeps ctx formals (v ∷ vs)
  bind_parameters-Keeps ctx formals (p ∷ ps) [] =
      >>-Keeps (bind_parameter-Keeps ctx p _) (bind_parameters-Keeps ctx formals ps [])
  bind_parameters-Keeps ctx formals (p ∷ ps) (v ∷ vs) =
      search
        (
          >>=-Keeps,
          >>-Keeps,
          new_value-Keeps,
          count_up-Keeps,
          set_local-Keeps,
          later (bind_parameters-Keeps ctx formals ps vs),
        )
        depth 12

  visit_arguments-Keeps : (c : Args Double) → Keeps base (visit_arguments P c)
  unfolding visit_arguments
  visit_arguments-Keeps (vars xs) = map_all-Keeps read-Keeps xs
  visit_arguments-Keeps (table_constructor x) = search (>>=-Keeps, read-Keeps, give-Keeps)
  visit_arguments-Keeps (string_literal x) = search (>>=-Keeps, read-Keeps, give-Keeps)

  as_function-Keeps : (v : LuaValue Double) → Keeps base (as_function P v)
  as_function-Keeps (function f) = give-Keeps f
  as_function-Keeps v = fail-Keeps _

  callee-Keeps : (name : Option String) (x : Var Double) → Keeps base (callee P name x)
  unfolding callee
  callee-Keeps none x = search (>>=-Keeps, read-Keeps, as_function-Keeps, give-Keeps) depth 12
  callee-Keeps (some name) x =
      search
        (
          >>=-Keeps, read-Keeps, as_table-Keeps, dot_place-Keeps, place_value-Keeps,
          as_function-Keeps, give-Keeps,
        )
        depth 12

  returned :
      (c : Block) (f : ℕ) (vs : List (Var Double))
      → Leads (record base { functions = f ∷ base.functions }) base (pop_frame P >> give vs)
  returned c f vs = >>=-Leads (pop_frame-Leads f) λ _. give-Keeps vs

  dropped : (f : ℕ) → Weaker P (record base { functions = f ∷ base.functions }) base
  dropped f s w = Within-below ([], refl) (f ∷ [], refl) refl w

  caught :
      (c : Block) (f : ℕ) (s : Environment P) (o : Outcome Double (Environment P) (Unit {0}))
      → Anchored base c
      → Ends (record base { functions = f ∷ base.functions }) o
      → Ends base (catch_return P c (λ _. o) s)
  unfolding catch_return
  caught c f s (done u t) h (inl (t', e)) = cc
  caught c f s (done u t) h (inr w) = (returned c f []).leads t w
  caught c f s (thrown (return vs) t) h (inl (t', e)) = cc
  caught c f s (thrown (return vs) t) h (inr w) =
      (>>-Leads (stabilize_blocks-Keeps c h) (returned c f vs) (dropped f)).leads t w
  caught c f s (thrown (error x) t) h (inl (t', e)) = inl (t', cc)
  caught c f s (thrown (error x) t) h (inr w) = inr (dropped f t w)
  caught c f s (thrown break t) h (inl (t', e)) = cc
  caught c f s (thrown break t) h (inr w) = inr (dropped f t w)
  caught c f s (thrown (goto l) t) h (inl (t', e)) = cc
  caught c f s (thrown (goto l) t) h (inr w) = inr (dropped f t w)

module _ {P : Platform} (H : Host P.Double) {b : Block → M P (Unit {0})} (hb : BlockKeeps P b) where
  open P use {Double}

  call_builder-Keeps :
      {base : Base} (f : ℕ) (vs : List (LuaValue Double)) → Keeps base (call_builder P H b f vs)
  unfolding call_builder
  call_builder-Keeps f vs = search (>>=-Keeps, lift-Keeps, give-Keeps) depth 12

  -- The visit of the body in its frame, from a state `s` before the call.
  visited :
      (base : Base) (current ctx : Block) (f : ℕ) (s : Environment P)
      → Anchored base current
      → Within base s
      → Leads
          (record { blocks = ctx ∷ s.blocks; functions = f ∷ s.functions; frames = base.frames })
          base
          (modify (λ t. record t { coming_from_funcall = true }) >> catch_return P current (b ctx))
  unfolding catch_return
  visited base current ctx f s h w = record {
    leads = λ t v.
        let frame : Base = record {
          blocks = s.blocks;
          functions = f ∷ s.functions;
          frames = base.frames;
        } in
        let o = b ctx (record t { coming_from_funcall = true }) in
        Ends-Weaker (λ u x. Within-below ([], refl) w.functions refl x) _
          (caught {base = record base { functions = s.functions }} current f t o h (
            Ends-Weaker (λ u x. Within-below {inner = frame} w.blocks ([], refl) refl x) o
              ((hb.calling frame ctx).leads t v)));
  }

  abbrev enter_frame : ℕ → Block → Environment P → Environment P
  enter_frame f ctx s = record s {
    blocks = ctx ∷ s.blocks;
    local_values = [] ∷ s.local_values;
    functions = f ∷ s.functions;
  }

  abbrev in_frame : List String → Block → List (LuaValue Double) → Block → M P (List (Var Double))
  in_frame formals ctx vs current =
      bind_parameters P ctx formals formals vs
      >> (modify (λ s. record s { coming_from_funcall = true }) >> catch_return P current (b ctx))

  call_body-Keeps :
      {base : Base} (f : ℕ) (formals : List String) (ctx : Block) (vs : List (LuaValue Double))
      → Keeps base (call_body P H b f formals ctx vs)
  unfolding call_body
  call_body-Keeps f formals ctx vs =
      at_current (λ c. modify (enter_frame f ctx) >> in_frame formals ctx vs c)
        λ inner c h. entered (enter_frame f ctx) (in_frame formals ctx vs c) λ s w. (
          record { blocks = ctx ∷ s.blocks; functions = f ∷ s.functions; frames = inner.frames },
          record {
            blocks = ([], refl);
            functions = ([], refl);
            frames = one_more _ _ _ w.frames;
            from_for = w.from_for;
            from_funcall = w.from_funcall;
          },
          >>-Leads (bind_parameters-Keeps ctx formals formals vs) (visited inner c ctx f s h w)
              (λ t v.
                Within-below (Suffix-trans w.blocks (ctx ∷ [], refl))
                  (Suffix-trans w.functions (f ∷ [], refl)) refl v),
        )

  pub call_function-Keeps :
      {base : Base} (f : ℕ) (vs : List (LuaValue Double)) → Keeps base (call_function P H b f vs)
  unfolding call_function
  call_function-Keeps f vs = record {
    keeps = λ s w. elim (Option-cases (find f s.code)) [
      | inl e ↦ rw (call_function, e) (inr w)
      | inr (Code.c c, e) ↦ rw (call_function, e) ((call_builder-Keeps c vs).keeps s w)
      | inr (Code.pure formals ctx, e) ↦
          rw (call_function, e) ((call_body-Keeps f formals ctx vs).keeps s w)
    ];
  }

  pub process_names_and_args-Keeps :
      {base : Base} (cs : List (NameAndArgs Double)) (x : Var Double)
      → Keeps base (process_names_and_args P H b x cs)
  unfolding process_names_and_args
  process_names_and_args-Keeps [] x = give-Keeps x
  process_names_and_args-Keeps {base = base} (c ∷ cs) x =
      search
        (
          >>=-Keeps,
          callee-Keeps,
          visit_arguments-Keeps,
          call_function-Keeps,
          map_all-Keeps,
          read-Keeps,
          process_names_and_args-Keeps {base = base} cs,
        )
        depth 12
