-- ===== src/Interpreter/Stacks/Control.antt =====
-- interpreter.cpp: the statements with blocks of their own keep the stacks, if the visitors do.
use luapp.Prelude.{ℕ, List, [], ◌∷◌, back?}
use luapp.Analyzer.Scope.{Block}
use luapp.Types.Platform.{Platform}
use luapp.Types.Var.{Var}
use luapp.Interpreter.Machine.{M}
use luapp.Interpreter.Loops.{catch_break, while_loop, repeat_loop}
use luapp.Interpreter.Control.{visit_condition, process_while, process_repeat, process_if}
use luapp.Interpreter.Stacks.{Base, Keeps, >>=-Keeps, if-Keeps, option-Keeps}
use luapp.Interpreter.Stacks.Actions.{give-Keeps, fail-Keeps, read-Keeps}
use luapp.Interpreter.Stacks.Unwinding.{at_current}
use luapp.Interpreter.Stacks.Calls.{BlockKeeps}
use luapp.Interpreter.Stacks.Loops.{catch_break-Keeps, while_loop-Keeps, repeat_loop-Keeps}

module _ {P : Platform} {e : ℕ → M P (Var P.Double)} (he : (base : Base) (i : ℕ) → Keeps base (e i))
    {b : Block → M P (Unit {0})} (hb : BlockKeeps P b) where
  open P use {Double}

  visit_condition-Keeps : {base : Base} (i : ℕ) → Keeps base (visit_condition P e b i)
  unfolding visit_condition
  visit_condition-Keeps {base = base} i =
      >>=-Keeps (he base i) λ x. >>=-Keeps (read-Keeps x) λ v. give-Keeps _

  pub process_while-Keeps :
      {base : Base} (n i : ℕ) (block : Block) → Keeps base (process_while P e b n i block)
  unfolding process_while
  process_while-Keeps n i block =
      at_current (λ c. catch_break P c (while_loop P n (visit_condition P e b i) (b block)))
        λ inner c h.
          catch_break-Keeps c h
            (while_loop-Keeps n (visit_condition-Keeps i) (hb.plain inner block))

  pub process_repeat-Keeps :
      {base : Base} (n : ℕ) (block : Block) (i : ℕ) → Keeps base (process_repeat P e b n block i)
  unfolding process_repeat
  process_repeat-Keeps n block i =
      at_current (λ c. catch_break P c (repeat_loop P n (b block) (visit_condition P e b i)))
        λ inner c h.
          catch_break-Keeps c h
            (repeat_loop-Keeps n (visit_condition-Keeps i) (hb.plain inner block))

  pub process_if-Keeps :
      {base : Base} (es : List ℕ) (blocks : List Block) → Keeps base (process_if P e b es blocks)
  unfolding process_if
  process_if-Keeps {base = base} [] blocks =
      option-Keeps (back? blocks) (give-Keeps tt) (hb.plain base)
  process_if-Keeps (i ∷ es) [] =
      >>=-Keeps (visit_condition-Keeps i) λ c. if-Keeps c (fail-Keeps _) (process_if-Keeps es [])
  process_if-Keeps {base = base} (i ∷ es) (block ∷ blocks) =
      >>=-Keeps (visit_condition-Keeps i)
        λ c. if-Keeps c (hb.plain base block) (process_if-Keeps es blocks)
