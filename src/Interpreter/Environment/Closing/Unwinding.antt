-- ===== src/Interpreter/Environment/Closing/Unwinding.antt =====
-- interpreter.cpp: the blocks that `stabilize_blocks` leaves.
use luapp.Prelude.{
  List, [], ◌∷◌, ◌++◌, reverse, some, In, eq_nat, nat_eq_iff, ◌==◌, ok, err, undefined, subst,
  ◌>>=◌, ◌≡◌, refl, ap, sym, ◌∙◌, inl, inr, arith, Bool-cases, Option-cases, >>=-eq-ok,
}
use luapp.Analyzer.Scope.{Block}
use luapp.Types.Platform.{Platform}
use luapp.Interpreter.Environment.{Environment}
use luapp.Interpreter.Environment.Closing.{split_blocks, erase_blocks, stabilize_blocks}

-- The blocks `context ∷ below` are what is left of `bs` when all above the topmost `context` is gone.
pub record Unwound (context : Block) (bs left : List Block) : Type 0 where
  pub above : List Block
  pub below : List Block
  pub left_eq : left ≡ context ∷ below
  pub bs_eq : bs ≡ above ++ context ∷ below
  pub topmost : In context above → ⊥

module _ (P : Platform) where
  split_blocks-Unwound :
      (context : Block) (bs gone left : List Block)
      → split_blocks P context bs ≡ some (gone, left)
      → Unwound context bs left
  unfolding split_blocks
  split_blocks-Unwound context [] gone left h = cc
  split_blocks-Unwound context (b ∷ bs) gone left h = elim (Bool-cases (b == context)) [
    | inl e ↦ record {
      above = [];
      below = bs;
      left_eq = ground (arith, nat_eq_iff b context);
      bs_eq = ap (λ c. c ∷ bs) (ground (arith, nat_eq_iff b context));
      topmost = λ m. m;
    }
    | inr e ↦ elim (Option-cases (split_blocks P context bs)) [
      | inl none_eq ↦ absurd (ground (arith, nat_eq_iff b context))
      | inr ((gone', left'), q) ↦
          let u = split_blocks-Unwound context bs gone' left' q in
          record {
            above = b ∷ u.above;
            below = u.below;
            left_eq = ground (arith, u.left_eq);
            bs_eq = ap (λ l. b ∷ l) u.bs_eq;
            topmost =
                λ m. elim m [ inl n ↦ ground (arith, nat_eq_iff b context) | inr n ↦ u.topmost n ];
          }
    ]
  ]

  ok-blocks : (s s' : Environment P) → ok s ≡ ok s' → s.blocks ≡ s'.blocks
  ok-blocks s s' h = cc

  ok-undefined : {s : Environment P} → err undefined ≡ ok s → ⊥
  ok-undefined h = cc

  erased-Unwound :
      (context : Block) (bs gone left : List Block) (s s' : Environment P)
      → split_blocks P context bs ≡ some (gone, left)
      → (erase_blocks P (reverse gone) s >>= λ s₁. ok (record s₁ { blocks = left })) ≡ ok s'
      → Unwound context bs s'.blocks
  erased-Unwound context bs gone left s s' q h =
      let (s₁, _, e) = >>=-eq-ok (erase_blocks P (reverse gone) s) _ h in
      subst (Unwound context bs) (ok-blocks _ s' e) (split_blocks-Unwound context bs gone left q)

  stabilized :
      (context : Block) (bs : List Block) (s s' : Environment P)
      → s.blocks ≡ bs
      → stabilize_blocks P context s ≡ ok s'
      → Unwound context bs s'.blocks
  unfolding stabilize_blocks
  stabilized context [] s s' q h = absurd (ok-undefined (sym (rw (stabilize_blocks, q) refl) ∙ h))
  stabilized context (b ∷ bs) s s' q h = elim (Bool-cases (b == context)) [
    | inl e ↦ record {
      above = [];
      below = bs;
      left_eq =
          sym (ok-blocks s s' (rw (stabilize_blocks, q, e) at h))
          ∙ q
          ∙ ap (λ c. c ∷ bs) (ground (arith, nat_eq_iff b context));
      bs_eq = ap (λ c. c ∷ bs) (ground (arith, nat_eq_iff b context));
      topmost = λ m. m;
    }
    | inr e ↦ elim (Option-cases (split_blocks P context (b ∷ bs))) [
      | inl none_eq ↦ absurd (ok-undefined (sym (rw (stabilize_blocks, q, e, none_eq) refl) ∙ h))
      | inr ((gone, left), q') ↦
          erased-Unwound context (b ∷ bs) gone left _ s' q' (rw (stabilize_blocks, q, e, q') at h)
    ]
  ]

  -- When `stabilize_blocks` succeeds, the block is the current one, and just the blocks above its
  -- topmost place have gone.
  pub stabilize_blocks-Unwound :
      (context : Block) (s s' : Environment P)
      → stabilize_blocks P context s ≡ ok s'
      → Unwound context s.blocks s'.blocks
  unfolding stabilize_blocks
  stabilize_blocks-Unwound context s s' h = stabilized context s.blocks s s' refl h
