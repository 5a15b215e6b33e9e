-- ===== src/Interpreter/Stacks/Looking.antt =====
-- interpreter.cpp: the look-up of a name keeps the stacks.
use luapp.Prelude.{
  ℕ, List, String, [], ◌∷◌, Option, none, some, Bool, eq_nat, eq_string, inl, inr, Result, ok, err,
  Option-cases, Bool-cases, undefined, ◌≡◌, refl, ap, length, ◌∙◌,
}
use luapp.Prelude.Map.{Map, find}
use luapp.Analyzer.Scope.{Block}
use luapp.Types.Platform.{Platform}
use luapp.Interpreter.Environment.{
  ValueStore, Environment, Scope, lookup_global, lookup_outside, lookup_name, current_function,
}
use luapp.Interpreter.Stacks.{SameStacks, Base, Within, Within-same}

module _ {P : Platform} where
  open P use {Double}

  abbrev pub Looks : {A : Type 0} → Environment P → Result (A × Environment P) → Type 0
  Looks s (ok (a, t)) = SameStacks s t
  Looks s (err e) = Unit

  lookup_global-Looks :
      (name : String) (b : Bool) (s : Environment P) → Looks s (lookup_global P name b s)
  unfolding lookup_global
  lookup_global-Looks name b s = elim (Option-cases (find name s.global_values)) [
    | inr (a, e) ↦ rw (lookup_global, e) refl
    | inl e ↦ elim (Bool-cases b) [
      | inl q ↦ rw (lookup_global, e, q) tt
      | inr q ↦ rw (lookup_global, e, q) refl
    ]
  ]

  lookup_outside-Looks :
      (name : String) (b : Bool) (s : Environment P) → Looks s (lookup_outside P name b s)
  unfolding lookup_outside
  lookup_outside-Looks name b s = elim (Option-cases (current_function P s)) [
    | inl e ↦ rw (lookup_outside, e) (lookup_global-Looks name b s)
    | inr (f, e) ↦ elim (Option-cases (find f s.closures)) [
      | inl e' ↦ rw (lookup_outside, e, e') tt
      | inr (names, e') ↦ elim (Option-cases (find name names)) [
        | inl q ↦ rw (lookup_outside, e, e', q) (lookup_global-Looks name b s)
        | inr (a, q) ↦ rw (lookup_outside, e, e', q) refl
      ]
    ]
  ]

  Looks-trans :
      {A : Type 0} (s t : Environment P) (r : Result (A × Environment P))
      → SameStacks s t
      → Looks t r
      → Looks s r
  Looks-trans s t (ok (a, u)) p q = q ∙ p
  Looks-trans s t (err e) p q = tt

  -- After the blocks' stores, in a state of the same stacks.
  unframed :
      (name : String) (b : Bool) (s t : Environment P) (contexts : List Block)
      → SameStacks s t
      → Looks s (elim contexts [ [] ↦ lookup_outside P name b t | _ ∷ _ ↦ err undefined ])
  unframed name b s t [] p = Looks-trans s t _ p (lookup_outside-Looks name b t)
  unframed name b s t (c ∷ cs) p = tt

  framed :
      (name : String) (b : Bool) (s t : Environment P) (candidate : Option ℕ)
      → SameStacks s t
      → Looks s (elim candidate [
        | none ↦ lookup_outside P name b t
        | some a ↦ ok ((some a, Scope.local), t)
      ])
  framed name b s t none p = Looks-trans s t _ p (lookup_outside-Looks name b t)
  framed name b s t (some a) p = p

  looked :
      (name : String) (b : Bool) (s : Environment P) (l : List (Map Block ValueStore))
      → s.local_values ≡ l
      → Looks s (lookup_name P name b s)
  unfolding lookup_name
  looked name b s [] q =
      rw (lookup_name, q)
        (unframed name b (record s { local_values = [] }) _ _
          (ap (λ l. (s.blocks, s.functions, length l, s.coming_from_for, s.coming_from_funcall)) q))
  looked name b s (top ∷ below) q =
      rw (lookup_name, q) (framed name b (record s { local_values = top ∷ below }) _ _ refl)

  pub lookup_name-Looks :
      (name : String) (b : Bool) (s : Environment P) → Looks s (lookup_name P name b s)
  lookup_name-Looks name b s = looked name b s s.local_values refl

  pub within :
      {base : Base} {A : Type 0} {r : Result (A × Environment P)} {a : A} {s t : Environment P}
      → r ≡ ok (a, t)
      → Looks s r
      → Within base s
      → Within base t
  within {base = base} {s = s} {t = t} e q w = Within-same base s t w (rw e at q)
