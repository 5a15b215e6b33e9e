-- ===== src/Interpreter/Control/Unrolling.antt =====
-- interpreter.cpp: `process_while` and `process_repeat` against the runs of their loops as Lua has
-- them, which no fuel bounds.
use luapp.Prelude.{
  ℕ, zero, suc, ◌≤◌, from_suc, Bool, true, false, out_of_fuel, ◌≡◌, refl, ap, ◌⊎◌, inl, inr,
}
use luapp.Analyzer.Scope.{Block}
use luapp.Types.Platform.{Platform}
use luapp.Types.Var.{Var}
use luapp.Interpreter.Environment.{Environment, current_block}
use luapp.Interpreter.Machine.{Thrown, Outcome, done, thrown, error, Outcome-cases, ◌>>=◌, ◌>>◌, M}
use luapp.Interpreter.Loops.{catch_break, while_loop, repeat_loop}
use luapp.Interpreter.Control.{visit_condition, process_while, process_repeat}

module _ (P : Platform) where
  abbrev pub Ended : Type 0
  Ended = Outcome P.Double (Environment P) (Unit {0})

  abbrev pub IsOutOfFuel : Ended → Type 0
  IsOutOfFuel r = (s : Environment P) × (r ≡ thrown (error out_of_fuel) s)

  -- The runs of `while cond do body end` from a state: how one ends.
  pub data While (cond : M P Bool) (body : M P (Unit {0})) : Environment P → Ended → Type 0 where
    stop : {s s' : Environment P} → cond s ≡ done false s' → While cond body s (done tt s')
    raise :
        {x : Thrown P.Double} {s s' : Environment P}
        → cond s ≡ thrown x s'
        → While cond body s (thrown x s')
    leave :
        {x : Thrown P.Double} {s s₁ s' : Environment P}
        → cond s ≡ done true s₁
        → body s₁ ≡ thrown x s'
        → While cond body s (thrown x s')
    next :
        {r : Ended} {s s₁ s₂ : Environment P}
        → cond s ≡ done true s₁
        → body s₁ ≡ done tt s₂
        → While cond body s₂ r
        → While cond body s r

  -- The runs of `repeat body until cond`.
  pub data Repeat (body : M P (Unit {0})) (cond : M P Bool) : Environment P → Ended → Type 0 where
    leave :
        {x : Thrown P.Double} {s s' : Environment P}
        → body s ≡ thrown x s'
        → Repeat body cond s (thrown x s')
    raise :
        {x : Thrown P.Double} {s s₁ s' : Environment P}
        → body s ≡ done tt s₁
        → cond s₁ ≡ thrown x s'
        → Repeat body cond s (thrown x s')
    stop :
        {s s₁ s' : Environment P}
        → body s ≡ done tt s₁
        → cond s₁ ≡ done true s'
        → Repeat body cond s (done tt s')
    next :
        {r : Ended} {s s₁ s₂ : Environment P}
        → body s ≡ done tt s₁
        → cond s₁ ≡ done false s₂
        → Repeat body cond s₂ r
        → Repeat body cond s r

  module _ (cond : M P Bool) (body : M P (Unit {0})) where
    while_loop-run :
        (s : Environment P) (r : Ended)
        → While cond body s r
        → (n : ℕ) × ((fuel : ℕ) → n ≤ fuel → while_loop P fuel cond body s ≡ r)
    unfolding while_loop
    while_loop-run s r (stop e) = (1, from_suc _ 0 λ m h. rw (while_loop, ◌>>=◌, e))
    while_loop-run s r (raise e) = (1, from_suc _ 0 λ m h. rw (while_loop, ◌>>=◌, e))
    while_loop-run s r (leave e e') = (1, from_suc _ 0 λ m h. rw (while_loop, ◌>>=◌, ◌>>◌, e, e'))
    while_loop-run s r (next e e' w) =
        let (n, h) = while_loop-run _ r w in
        (suc n, from_suc _ n λ m k. rw (while_loop, ◌>>=◌, ◌>>◌, e, e', h m k))

    abbrev Sound : Environment P → Ended → Type 0
    Sound s r = While cond body s r ⊎ IsOutOfFuel r

    while_loop-Sound : (n : ℕ) (s : Environment P) → Sound s (while_loop P n cond body s)
    unfolding while_loop
    while_loop-Sound zero s = inr (s, refl)
    while_loop-Sound (suc n) s = elim (Outcome-cases (cond s)) [
      | inr (x, s₁, e) ↦ rw (while_loop, ◌>>=◌, e) (inl (raise e))
      | inl (false, s₁, e) ↦ rw (while_loop, ◌>>=◌, e) (inl (stop e))
      | inl (true, s₁, e) ↦ elim (Outcome-cases (body s₁)) [
        | inr (x, s₂, e') ↦ rw (while_loop, ◌>>=◌, ◌>>◌, e, e') (inl (leave e e'))
        | inl (u, s₂, e') ↦ elim (while_loop-Sound n s₂) [
          | inl w ↦ rw (while_loop, ◌>>=◌, ◌>>◌, e, e') (inl (next e e' w))
          | inr h ↦ rw (while_loop, ◌>>=◌, ◌>>◌, e, e') (inr h)
        ]
      ]
    ]

  module _ (body : M P (Unit {0})) (cond : M P Bool) where
    repeat_loop-run :
        (s : Environment P) (r : Ended)
        → Repeat body cond s r
        → (n : ℕ) × ((fuel : ℕ) → n ≤ fuel → repeat_loop P fuel body cond s ≡ r)
    unfolding repeat_loop
    repeat_loop-run s r (leave e) = (1, from_suc _ 0 λ m h. rw (repeat_loop, ◌>>=◌, ◌>>◌, e))
    repeat_loop-run s r (raise e e') = (1, from_suc _ 0 λ m h. rw (repeat_loop, ◌>>=◌, ◌>>◌, e, e'))
    repeat_loop-run s r (stop e e') = (1, from_suc _ 0 λ m h. rw (repeat_loop, ◌>>=◌, ◌>>◌, e, e'))
    repeat_loop-run s r (next e e' w) =
        let (n, h) = repeat_loop-run _ r w in
        (suc n, from_suc _ n λ m k. rw (repeat_loop, ◌>>=◌, ◌>>◌, e, e', h m k))

    repeat_loop_sound :
        (n : ℕ) (s : Environment P)
        → Repeat body cond s (repeat_loop P n body cond s)
          ⊎ IsOutOfFuel (repeat_loop P n body cond s)
    unfolding repeat_loop
    repeat_loop_sound zero s = inr (s, refl)
    repeat_loop_sound (suc n) s = elim (Outcome-cases (body s)) [
      | inr (x, s₁, e) ↦ rw (repeat_loop, ◌>>=◌, ◌>>◌, e) (inl (leave e))
      | inl (u, s₁, e) ↦ elim (Outcome-cases (cond s₁)) [
        | inr (x, s₂, e') ↦ rw (repeat_loop, ◌>>=◌, ◌>>◌, e, e') (inl (raise e e'))
        | inl (true, s₂, e') ↦ rw (repeat_loop, ◌>>=◌, ◌>>◌, e, e') (inl (stop e e'))
        | inl (false, s₂, e') ↦ elim (repeat_loop_sound n s₂) [
          | inl w ↦ rw (repeat_loop, ◌>>=◌, ◌>>◌, e, e') (inl (next e e' w))
          | inr h ↦ rw (repeat_loop, ◌>>=◌, ◌>>◌, e, e') (inr h)
        ]
      ]
    ]

  module _ (visit_exp : ℕ → M P (Var P.Double)) (visit_block : Block → M P (Unit {0})) (exp : ℕ)
      (block : Block) (s : Environment P) where
    abbrev cond : M P Bool
    cond = visit_condition P visit_exp visit_block exp

    -- How a loop ends once its Break is caught.
    abbrev pub Caught : Ended → Ended
    Caught r = catch_break P (current_block P s) (λ _. r) s

    -- A run of `while` that ends, however it does, is what `process_while` computes with enough fuel,
    -- a Break caught; and with any fuel it computes such a run, unless a visitor or the loop lacks
    -- fuel.
    pub process_while_lem :
        ((r : Ended)
          → While cond (visit_block block) s r
          → (n : ℕ) × ((fuel : ℕ)
              → n ≤ fuel
              → process_while P visit_exp visit_block fuel exp block s ≡ Caught r))
        × ((fuel : ℕ)
            → (r : Ended) × (process_while P visit_exp visit_block fuel exp block s ≡ Caught r)
              × (While cond (visit_block block) s r ⊎ IsOutOfFuel r))
    unfolding process_while catch_break
    process_while_lem = (
      (λ r w.
          let (n, h) = while_loop-run cond (visit_block block) s r w in
          (n, λ fuel k. ap Caught (h fuel k))),
      (λ fuel. (
        while_loop P fuel cond (visit_block block) s,
        refl,
        while_loop-Sound cond (visit_block block) fuel s,
      )),
    )

    -- The same of `repeat` and `process_repeat`.
    pub process_repeat_lem :
        ((r : Ended)
          → Repeat (visit_block block) cond s r
          → (n : ℕ) × ((fuel : ℕ)
              → n ≤ fuel
              → process_repeat P visit_exp visit_block fuel block exp s ≡ Caught r))
        × ((fuel : ℕ)
            → (r : Ended) × (process_repeat P visit_exp visit_block fuel block exp s ≡ Caught r)
              × (Repeat (visit_block block) cond s r ⊎ IsOutOfFuel r))
    unfolding process_repeat catch_break
    process_repeat_lem = (
      (λ r w.
          let (n, h) = repeat_loop-run (visit_block block) cond s r w in
          (n, λ fuel k. ap Caught (h fuel k))),
      (λ fuel. (
        repeat_loop P fuel (visit_block block) cond s,
        refl,
        repeat_loop_sound (visit_block block) cond fuel s,
      )),
    )
