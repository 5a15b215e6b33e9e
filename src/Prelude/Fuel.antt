-- ===== src/Prelude/Fuel.antt =====
-- Statements about every fuel from some amount on.
use Prim.Native.Nat.{ℕ, zero, suc, ◌≤◌}
use native.Mathlib.Omega.{arith}

pub from_suc :
    (Q : ℕ → Type 0) (n : ℕ) → ((m : ℕ) → n ≤ m → Q (suc m)) → (fuel : ℕ) → suc n ≤ fuel → Q fuel
from_suc Q n h zero k = absurd (omega (arith, k))
from_suc Q n h (suc m) k = h m (omega (arith, k))
