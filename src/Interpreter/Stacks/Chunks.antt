-- ===== src/Interpreter/Stacks/Chunks.antt =====
-- interpreter.cpp: `visitChunk` keeps the stacks of blocks, functions and locals.
use luapp.Prelude.{ℕ, zero, suc, [], ◌∷◌, inl, inr, refl, arith, ◌⊎◌, out_of_fuel}
use luapp.Analyzer.Scope.{Block}
use luapp.Types.Platform.{Platform}
use luapp.Interpreter.Syntax.{ParseTree}
use luapp.Interpreter.Environment.{Environment}
use luapp.Interpreter.Machine.{Outcome, done, thrown, error, break, goto, return}
use luapp.Interpreter.Calls.{Host}
use luapp.Interpreter.Statements.{Visitor, visitor, catch_chunk, visit_chunk}
use luapp.Interpreter.Fuel.{IsOutOfFuel}
use luapp.Interpreter.Stacks.{Base, Within, Ends, Keeps, final}
use luapp.Interpreter.Stacks.Actions.{fail-Keeps}
use luapp.Interpreter.Stacks.Calls.{BlockKeeps}
use luapp.Interpreter.Stacks.Expressions.{visit_context-Keeps}
use luapp.Interpreter.Stacks.Blocks.{visit_block-BlockKeeps}

module _ (P : Platform) (H : Host P.Double) (tree : ParseTree) where
  open P use {Double}

  abbrev VisitorKeeps : Visitor P → Type 0
  VisitorKeeps V = ((base : Base) (i : ℕ) → Keeps base (V.exp i)) × BlockKeeps P V.block

  visitor-VisitorKeeps : (n : ℕ) → VisitorKeeps (visitor P H tree n)
  unfolding visitor
  visitor-VisitorKeeps zero = (
    (λ base i. fail-Keeps out_of_fuel),
    record {
      plain = λ base i. fail-Keeps out_of_fuel;
      looping = λ base i h. record { keeps = λ s w. inl (_, refl) };
      calling = λ base i. record { leads = λ s w. inl (_, refl) };
    },
  )
  visitor-VisitorKeeps (suc n) =
      let (he, hb) = visitor-VisitorKeeps n in
      (
        (λ base i. visit_context-Keeps H he hb (tree.exp i)),
        visit_block-BlockKeeps P H tree he hb n,
      )

  caught :
      {base : Base} (s : Environment P) (o : Outcome Double (Environment P) (Unit {0}))
      → Ends base o
      → Ends base (catch_chunk P H tree (λ _. o) s)
  unfolding catch_chunk
  caught s (done u t) (inl (t', e)) = cc
  caught s (done u t) (inr w) = inr w
  caught s (thrown (return vs) t) (inl (t', e)) = cc
  caught s (thrown (return vs) t) (inr w) = inr w
  caught s (thrown (error x) t) (inl (t', e)) = inl (t', cc)
  caught s (thrown (error x) t) (inr w) = inr w
  caught s (thrown break t) (inl (t', e)) = cc
  caught s (thrown break t) (inr w) = inr w
  caught s (thrown (goto l) t) (inl (t', e)) = cc
  caught s (thrown (goto l) t) (inr w) = inr w

  -- A chunk, from a state with no flag set whose stacks of blocks and functions end in given lists,
  -- and which has a number of frames of locals beside one for each function. However the chunk ends,
  -- the lack of fuel apart, by values or by any exception: both stacks still end in those lists, there
  -- is a frame of locals for each function and one more than before beside them, and no flag is set.
  pub visit_chunk-Within :
      (n : ℕ) (b : Block) (base : Base) (s : Environment P)
      → Within base s
      → IsOutOfFuel (visit_chunk P H tree n b s)
        ⊎ Within (record base { frames = suc base.frames }) (final (visit_chunk P H tree n b s))
  unfolding visit_chunk catch_chunk
  visit_chunk-Within n b base s w =
      let s₁ = record s { local_values = [] ∷ s.local_values } in
      let inner = record base { frames = suc base.frames } in
      caught {base = inner} s ((visitor P H tree n).block b s₁) (
        ((visitor-VisitorKeeps n).1.plain inner b).keeps s₁ (record {
          blocks = w.blocks;
          functions = w.functions;
          frames = omega (arith, w.frames);
          from_for = w.from_for;
          from_funcall = w.from_funcall;
        }))
