-- ===== src/Interpreter/Environment/Closing/Cascade.antt =====
-- types.cpp: what the release of a function's last reference releases in turn.
use luapp.Prelude.{ℕ, ◌++◌, [], ◌∷◌, eq_nat}
use luapp.Prelude.Map.{erase}
use luapp.Types.Platform.{Platform}
use luapp.Types.Value.{function}
use luapp.Types.Gc.{drop_count}
use luapp.Interpreter.Environment.{Environment}

module _ (P : Platform) where
  open P use {Double}

  -- What is left when the object `a` and the function `f` that it held are deleted.
  abbrev pub without : ℕ → ℕ → Environment P → Environment P
  without a f s = record s {
    values = erase a s.values;
    code = erase f s.code;
    closures = erase f s.closures;
    gc = record {
      references = drop_count P (function f) s.gc.references;
      deleted = s.gc.deleted ++ function f ∷ [];
    };
  }
