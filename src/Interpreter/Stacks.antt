-- ===== src/Interpreter/Stacks.antt =====
-- What every part of the interpreter keeps of its stacks: the relation, and what composes it.
pub mod Stores
pub mod Actions
pub mod Operands
pub mod Looking
pub mod Names
pub mod Arguments
pub mod Assign
pub mod Entering
pub mod Unwinding
pub mod Calls
pub mod Expressions
pub mod Listing
pub mod Infrastructure
pub mod Loops
pub mod Control
pub mod For
pub mod Statements
pub mod Blocks
pub mod Chunks
use luapp.Prelude.{
  ℕ, ◌+◌, List, [], ◌∷◌, ◌++◌, Bool, true, false, Option, none, some, Error, Result, ok, err,
  out_of_fuel, length, if◌then◌else◌, ◌≡◌, refl, ap, sym, ◌∙◌, ◌⊎◌, inl, inr,
}
use luapp.Analyzer.Scope.{Block}
use luapp.Types.Platform.{Platform}
use luapp.Interpreter.Environment.{Environment}
use luapp.Interpreter.Machine.{
  Thrown, Outcome, done, thrown, error, break, goto, return, ◌>>=◌, ◌>>◌, give, map_all, M,
}
use luapp.Interpreter.Fuel.{IsOutOfFuel}

abbrev pub Suffix : {A : Type 0} → List A → List A → Type 0
Suffix {A} l m = (above : List A) × (m ≡ above ++ l)

-- What the stacks of blocks and functions are to hold at their bottoms, and how many frames of locals
-- there are beside those of the functions.
pub record Base : Type 0 where
  pub blocks : List Block
  pub functions : List ℕ
  pub frames : ℕ

module _ {P : Platform} where
  -- The stacks hold the base, there is a frame of locals for each function, and no flag is set.
  pub record Within (base : Base) (s : Environment P) : Type 0 where
    pub blocks : Suffix base.blocks s.blocks
    pub functions : Suffix base.functions s.functions
    pub frames : length s.local_values ≡ base.frames + length s.functions
    pub from_for : s.coming_from_for ≡ false
    pub from_funcall : s.coming_from_funcall ≡ false

  abbrev pub shape : Environment P → List Block × List ℕ × ℕ × Bool × Bool
  shape s = (s.blocks, s.functions, length s.local_values, s.coming_from_for, s.coming_from_funcall)

  abbrev pub SameStacks : Environment P → Environment P → Type 0
  SameStacks s t = shape t ≡ shape s

  abbrev pub final : {A : Type 0} → Outcome P.Double (Environment P) A → Environment P
  final (done a s) = s
  final (thrown x s) = s

  abbrev pub Ends : {A : Type 0} → Base → Outcome P.Double (Environment P) A → Type 0
  Ends base o = IsOutOfFuel o ⊎ Within base (final o)

  -- Whatever the outcome, unless the fuel is out.
  pub record Keeps {A : Type 0} (base : Base) (run : M P A) : Type 0 where
    pub keeps : (s : Environment P) → Within base s → Ends base (run s)

  pub Within-same :
      (base : Base) (s t : Environment P) → Within base s → SameStacks s t → Within base t
  Within-same base s t w q = record {
    blocks = (w.blocks.0, ap (λ x. x.0) q ∙ w.blocks.1);
    functions = (w.functions.0, ap (λ x. x.1) q ∙ w.functions.1);
    frames = ap (λ x. x.2) q ∙ w.frames ∙ ap (λ x. base.frames + length x.1) (sym q);
    from_for = ap (λ x. x.3) q ∙ w.from_for;
    from_funcall = ap (λ x. x.4) q ∙ w.from_funcall;
  }

  done-fuel :
      {A : Type 0} {a : A} {x : Thrown P.Double} {s s' : Environment P} → done a s ≡ thrown x s' → ⊥
  done-fuel e = cc

  module _ {base : Base} where
    -- An action that leaves the stacks as they are.
    pub still :
        {A : Type 0} {run : M P A}
        → ((s : Environment P) → SameStacks s (final (run s)))
        → Keeps base run
    still h = record { keeps = λ s w. inr (Within-same base s _ w (h s)) }

    pub bound :
        {A B : Type 0} {next : A → M P B} (o : Outcome P.Double (Environment P) A)
        (s : Environment P)
        → Ends base o
        → ((a : A) → Keeps base (next a))
        → Ends base (((λ _. o) >>= next) s)
    bound (done a s') s (inl (t, e)) h = absurd (done-fuel e)
    bound (done a s') s (inr w) h = (h a).keeps s' w
    bound (thrown x s') s (inl (t, e)) h = inl (t, cc)
    bound (thrown x s') s (inr w) h = inr w

    pub >>=-Keeps :
        {A B : Type 0} {run : M P A} {next : A → M P B}
        → Keeps base run
        → ((a : A) → Keeps base (next a))
        → Keeps base (run >>= next)
    >>=-Keeps {run} g h = record { keeps = λ s w. bound (run s) s (g.keeps s w) h }

    pub >>-Keeps :
        {A : Type 0} {run : M P (Unit {0})} {next : M P A}
        → Keeps base run
        → Keeps base next
        → Keeps base (run >> next)
    >>-Keeps g h = >>=-Keeps g λ _. h

    -- As a rule for `search`, which takes a closed term of a record type apart.
    pub later : {A : Type 0} {run : M P A} → Keeps base run → Unit {0} → Keeps base run
    later k u = k

    pub if-Keeps :
        {A : Type 0} {x y : M P A} (b : Bool)
        → Keeps base x
        → Keeps base y
        → Keeps base (if b then x else y)
    if-Keeps true g h = g
    if-Keeps false g h = h

    pub option-Keeps :
        {X A : Type 0} {n : M P A} {f : X → M P A} (o : Option X)
        → Keeps base n
        → ((x : X) → Keeps base (f x))
        → Keeps base (elim o [ none ↦ n | some x ↦ f x ])
    option-Keeps none g h = g
    option-Keeps (some x) g h = h x

    pub map_all-Keeps :
        {A B : Type 0} {f : A → M P B}
        → ((a : A) → Keeps base (f a))
        → (l : List A) → Keeps base (map_all f l)
    unfolding map_all
    map_all-Keeps h [] = still λ s. refl
    map_all-Keeps h (a ∷ l) =
        >>=-Keeps (h a) λ b. >>=-Keeps (map_all-Keeps h l) λ bs. still λ s. refl

    -- A handler that keeps the base after each outcome, and lets the lack of fuel pass.
    pub handle-Keeps :
        {A B : Type 0} {run : M P A}
        (handle : Outcome P.Double (Environment P) A → Outcome P.Double (Environment P) B)
        → ((s : Environment P)
            → handle (thrown (error out_of_fuel) s) ≡ thrown (error out_of_fuel) s)
        → ((o : Outcome P.Double (Environment P) A) → Within base (final o) → Ends base (handle o))
        → Keeps base run
        → Keeps base (λ s. handle (run s))
    handle-Keeps {run} handle passes h g = record {
      keeps = λ s w. elim (g.keeps s w) [
        | inl (t, e) ↦ inl (t, ap handle e ∙ passes t)
        | inr v ↦ h (run s) v
      ];
    }
