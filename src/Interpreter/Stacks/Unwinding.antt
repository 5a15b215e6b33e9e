-- ===== src/Interpreter/Stacks/Unwinding.antt =====
-- What `stabilize_blocks` and the pops leave on the stacks.
use luapp.Prelude.{
  ℕ, suc, ◌+◌, List, [], ◌∷◌, ◌++◌, length, reverse, eq_nat, ◌==◌, In, Result, ok, err,
  ◌>>=◌ as bind, ◌≡◌, refl, ap, sym, ◌∙◌, ◌⊎◌, inl, inr, arith, Bool-cases, Option-cases,
  Result-cases,
}
use luapp.Analyzer.Scope.{Block}
use luapp.Types.Platform.{Platform}
use luapp.Interpreter.Environment.{Environment, current_block}
use luapp.Interpreter.Environment.Closing.{split_blocks, erase_blocks, stabilize_blocks}
use luapp.Interpreter.Environment.Closing.Unwinding.{Unwound, stabilize_blocks-Unwound}
use luapp.Interpreter.Machine.{M, attempt, gets, ◌>>=◌, pop_block}
use luapp.Interpreter.Calls.{pop_frame}
use luapp.Interpreter.Stacks.{Suffix, Base, Within, Ends, Keeps}
use luapp.Interpreter.Stacks.Stores.{Fixed, erase_blocks-Fixed}
use luapp.Interpreter.Stacks.Entering.{Suffix-tail, Within-below, Leads, Ends-Weaker}

-- The base has this block on top, or no block at all.
abbrev pub Anchored : Base → Block → Type 0
Anchored base c = (base.blocks ≡ []) ⊎ ((rest : List Block) × (base.blocks ≡ c ∷ rest))

-- What stays when all above the topmost `c` is gone still has the stack at its bottom.
topmost :
    (c : Block) (above below upper rest : List Block)
    → (In c above → ⊥)
    → above ++ c ∷ below ≡ upper ++ c ∷ rest
    → Suffix (c ∷ rest) (c ∷ below)
topmost c [] below upper rest out e = (upper, e)
topmost c (x ∷ above) below [] rest out e = absurd (out (inl cc))
topmost c (x ∷ above) below (y ∷ upper) rest out e =
    topmost c above below upper rest (λ m. out (inr m)) cc

nil_right : (l : List Block) → l ++ [] ≡ l
nil_right [] = refl
nil_right (x ∷ l) = ap (λ m. x ∷ m) (nil_right l)

not_nil : {A : Type 0} (x : A) (l above : List A) → [] ≡ above ++ x ∷ l → ⊥
not_nil x l [] e = cc
not_nil x l (y ∷ above) e = cc

no_frame : (k n : ℕ) → 0 ≡ k + suc n → ⊥
no_frame k n e = omega (arith, e)

one_less : (k n m : ℕ) → suc m ≡ k + suc n → m ≡ k + n
one_less k n m e = omega (arith, e)

module _ {P : Platform} where
  -- All but the blocks is the same.
  abbrev Restacked : Environment P → Result (Environment P) → Type 0
  Restacked s (ok t) =
      (t.functions ≡ s.functions)
      × (length t.local_values ≡ length s.local_values)
      × (t.coming_from_for ≡ s.coming_from_for)
      × (t.coming_from_funcall ≡ s.coming_from_funcall)
  Restacked s (err e) = Unit

  dropped :
      (s : Environment P) (bs : List Block) (r : Result (Environment P)) (left : List Block)
      → Fixed s r
      → Restacked (record s { blocks = bs }) (bind r (λ t. ok (record t { blocks = left })))
  dropped s bs (ok t) left q = (ap (λ x. x.1) q, ap (λ x. x.2) q, ap (λ x. x.3) q, ap (λ x. x.4) q)
  dropped s bs (err e) left q = tt

  restacked :
      (c : Block) (s : Environment P) (bs : List Block)
      → s.blocks ≡ bs
      → Restacked s (stabilize_blocks P c s)
  unfolding stabilize_blocks
  restacked c s [] q = rw (stabilize_blocks, q) tt
  restacked c s (b ∷ bs) q = elim (Bool-cases (b == c)) [
    | inl e ↦ rw (stabilize_blocks, q, e) (refl, refl, refl, refl)
    | inr e ↦ elim (Option-cases (split_blocks P c (b ∷ bs))) [
      | inl e' ↦ rw (stabilize_blocks, q, e, e') tt
      | inr ((gone, left), e') ↦
          rw (stabilize_blocks, q, e, e')
            (dropped s (b ∷ bs) (erase_blocks P (reverse gone) s) left
              (erase_blocks-Fixed (reverse gone) s))
    ]
  ]

  Within-Restacked :
      {base : Base} (c : Block) (s t : Environment P)
      → Anchored base c
      → Restacked s (ok t)
      → Unwound c s.blocks t.blocks
      → Within base s
      → Within base t
  Within-Restacked {base} c s t anchored (f, l, r, g) u w = record {
    blocks = left anchored;
    functions = (w.functions.0, f ∙ w.functions.1);
    frames = l ∙ w.frames ∙ ap (λ x. base.frames + length x) (sym f);
    from_for = r ∙ w.from_for;
    from_funcall = g ∙ w.from_funcall;
  }
    where
      left : Anchored base c → Suffix base.blocks t.blocks
      left (inl e) = (t.blocks, rw e (sym (nil_right t.blocks)))
      left (inr (rest, e)) =
          rw (e, u.left_eq)
            (topmost c u.above u.below w.blocks.0 rest u.topmost
              (sym u.bs_eq ∙ w.blocks.1 ∙ ap (λ x. w.blocks.0 ++ x) e))

  pub stabilize_blocks-Keeps :
      {base : Base} (c : Block) → Anchored base c → Keeps base (attempt (stabilize_blocks P c))
  stabilize_blocks-Keeps {base} c anchored = record {
    keeps = λ s w. elim (Result-cases (stabilize_blocks P c s)) [
      | inl (t, e) ↦
          (let q = restacked c s s.blocks refl in
            rw (attempt, e)
              (inr (
                Within-Restacked c s t anchored (rw e at q) (stabilize_blocks-Unwound P c s t e)
                  w)))
      | inr (x, e) ↦ rw (attempt, e) (inr w)
    ];
  }

  anchored :
      (s : Environment P) (bs : List Block)
      → s.blocks ≡ bs
      → (s.blocks ≡ []) ⊎ ((rest : List Block) × (s.blocks ≡ current_block P s ∷ rest))
  unfolding current_block
  anchored s [] q = inl q
  anchored s (b ∷ bs) q = inr (bs, q ∙ ap (λ c. c ∷ bs) (rw (current_block, q) refl))

  -- A run that begins with the current block stays within what the stack of blocks is then.
  pub at_current :
      {A : Type 0} {base : Base} (body : Block → M P A)
      → ((inner : Base) (c : Block) → Anchored inner c → Keeps inner (body c))
      → Keeps base (gets (current_block P) >>= body)
  at_current {base = base} body h = record {
    keeps = λ s w.
        let inner = record base { blocks = s.blocks } in
        Ends-Weaker (λ t v. Within-below w.blocks ([], refl) refl v) (body (current_block P s) s)
          ((h inner (current_block P s) (anchored s s.blocks refl)).keeps s (record {
            blocks = ([], refl);
            functions = w.functions;
            frames = w.frames;
            from_for = w.from_for;
            from_funcall = w.from_funcall;
          }));
  }

  -- With the block on top of the base, a pop leaves the base.
  pub pop_block-Leads :
      {base : Base} (b : Block)
      → Leads (record base { blocks = b ∷ base.blocks }) base (pop_block P)
  pop_block-Leads {base = base} b = record { leads = λ s w. popped s s.blocks refl w }
    where
      popped :
          (s : Environment P) (bs : List Block)
          → s.blocks ≡ bs
          → Within (record base { blocks = b ∷ base.blocks }) s
          → Ends base (pop_block P s)
      popped s [] q w = absurd (not_nil b base.blocks w.blocks.0 (sym q ∙ w.blocks.1))
      popped s (x ∷ bs) q w =
          rw (pop_block, q)
            (inr (record {
              blocks = Suffix-tail (w.blocks.0, sym q ∙ w.blocks.1);
              functions = w.functions;
              frames = w.frames;
              from_for = w.from_for;
              from_funcall = w.from_funcall;
            }))

  -- With the function on top of the base, the end of its frame leaves the base.
  pub pop_frame-Leads :
      {base : Base} (f : ℕ)
      → Leads (record base { functions = f ∷ base.functions }) base (pop_frame P)
  unfolding pop_frame
  pop_frame-Leads {base = base} f = record {
    leads = λ s w. popped s s.functions s.local_values refl refl w;
  }
    where
      popped :
          (s : Environment P) (fs : List ℕ) (l : List _)
          → s.functions ≡ fs
          → s.local_values ≡ l
          → Within (record base { functions = f ∷ base.functions }) s
          → Ends base (pop_frame P s)
      popped s [] l q p w = absurd (not_nil f base.functions w.functions.0 (sym q ∙ w.functions.1))
      popped s (x ∷ fs) [] q p w = absurd (no_frame base.frames (length fs) (rw (p, q) at w.frames))
      popped s (x ∷ fs) (y ∷ l) q p w =
          rw (pop_frame, q, p)
            (inr (record {
              blocks = w.blocks;
              functions = Suffix-tail (w.functions.0, sym q ∙ w.functions.1);
              frames = one_less base.frames (length fs) (length l) (rw (p, q) at w.frames);
              from_for = w.from_for;
              from_funcall = w.from_funcall;
            }))
