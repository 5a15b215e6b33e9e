-- ===== src/Interpreter/Fuel.antt =====
-- When the model's fuel was not enough for a visitor.
use luapp.Prelude.{out_of_fuel, ◌≡◌}
use luapp.Types.Platform.{Platform}
use luapp.Interpreter.Environment.{Environment}
use luapp.Interpreter.Machine.{Outcome, thrown, error}

module _ {P : Platform} where
  abbrev pub IsOutOfFuel : {A : Type 0} → Outcome P.Double (Environment P) A → Type 0
  IsOutOfFuel o = (s : Environment P) × (o ≡ thrown (error out_of_fuel) s)
