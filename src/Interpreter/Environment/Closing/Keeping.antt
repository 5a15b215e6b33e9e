-- ===== src/Interpreter/Environment/Closing/Keeping.antt =====
-- interpreter.cpp and types.cpp: the end of a block's locals leaves the stack of blocks as it is.
use luapp.Prelude.{Result, ok, ◌≡◌, ap, subst}
use luapp.Analyzer.Scope.{Block}
use luapp.Types.Platform.{Platform}
use luapp.Interpreter.Environment.{Environment}
use luapp.Interpreter.Environment.Closing.{erase_block}
use luapp.Interpreter.Stacks.Stores.{Fixed, erase_block-Fixed}

module _ (P : Platform) where
  abbrev pub KeepsBlocks : Environment P → Result (Environment P) → Type 0
  KeepsBlocks s r = (s' : Environment P) → r ≡ ok s' → s'.blocks ≡ s.blocks

  pub erase_block-KeepsBlocks :
      (ctx : Block) (s : Environment P) → KeepsBlocks s (erase_block P ctx s)
  erase_block-KeepsBlocks ctx s s' e = ap (λ x. x.0) (subst (Fixed s) e (erase_block-Fixed ctx s))
