-- ===== src/Interpreter/Environment/Closing/Erasing.antt =====
-- What the end of a block leaves of its locals.
use luapp.Prelude.{ℕ, List, [], ◌∷◌, none, eq_nat, eq_string, ◌≡◌, ◌≢◌}
use luapp.Prelude.Map.{Map, find}
use luapp.Analyzer.Scope.{Block}
use luapp.Analyzer.State.{at}
use luapp.Types.Platform.{Platform}
use luapp.Interpreter.Environment.{ValueStore, Environment}
use luapp.Interpreter.Environment.Closing.Releasing.{NoZero, after_release}

module _ (P : Platform) where
  open P use {Double}

  -- A block's end, with the state `s'` that it leaves.
  pub record Erased (ctx : Block) (s s' : Environment P) (top : Map Block ValueStore)
      (below : List (Map Block ValueStore)) : Type 0 where
    pub top' : Map Block ValueStore
    pub locals : s'.local_values ≡ top' ∷ below
    pub forgotten : find ctx top' ≡ none
    pub others : (b : Block) → ctx ≢ b → find b top' ≡ find b top
    pub objects : (a : ℕ) → find a s'.values ≡ after_release P (at [] ctx top) a (find a s.values)
    pub counts : NoZero P s'.gc
