-- ===== src/Interpreter/Stacks/Entering.antt =====
-- What a block or a call puts on the stacks, and takes off again.
use luapp.Prelude.{◌+◌, List, [], ◌∷◌, ◌++◌, length, ◌≡◌, refl, ap, sym, ◌∙◌, inl, inr}
use luapp.Types.Platform.{Platform}
use luapp.Interpreter.Environment.{Environment}
use luapp.Interpreter.Machine.{M, Thrown, Outcome, done, thrown, ◌>>=◌, ◌>>◌, modify}
use luapp.Interpreter.Stacks.{Suffix, Base, Within, Ends, final, Keeps, bound}

module _ {A : Type 0} where
  pub Suffix-trans : {l m n : List A} → Suffix l m → Suffix m n → Suffix l n
  Suffix-trans {l} (a, p) (b, q) = (b ++ a, q ∙ ap (λ x. b ++ x) p ∙ sym (assoc b a))
    where
      assoc : (b a : List A) → (b ++ a) ++ l ≡ b ++ (a ++ l)
      assoc [] a = refl
      assoc (x ∷ b) a = ap (λ y. x ∷ y) (assoc b a)

  pub Suffix-cons : {x : A} {l m : List A} → Suffix (x ∷ l) m → Suffix l m
  Suffix-cons {x = x} {l = l} = Suffix-trans {m = x ∷ l} (x ∷ [], refl)

  -- Without the top, of a list with one more element.
  pub Suffix-tail : {x y : A} {l m : List A} → Suffix (x ∷ l) (y ∷ m) → Suffix l m
  Suffix-tail ([], q) = ([], cc)
  Suffix-tail {x = x} (z ∷ a, q) = Suffix-cons {x = x} (a, cc)

abbrev pub Weaker : (P : Platform) → Base → Base → Type 0
Weaker P inner base = (s : Environment P) → Within inner s → Within base s

module _ {P : Platform} where
  pub Within-below :
      {base inner : Base} {s : Environment P}
      → Suffix base.blocks inner.blocks
      → Suffix base.functions inner.functions
      → inner.frames ≡ base.frames
      → Within inner s
      → Within base s
  Within-below {s = s} p q e w = record {
    blocks = Suffix-trans p w.blocks;
    functions = Suffix-trans q w.functions;
    frames = w.frames ∙ ap (λ k. k + length s.functions) e;
    from_for = w.from_for;
    from_funcall = w.from_funcall;
  }

  -- From a state within one base, to the other base.
  pub record Leads {A : Type 0} (inner base : Base) (run : M P A) : Type 0 where
    pub leads : (s : Environment P) → Within inner s → Ends base (run s)

  pub Ends-Weaker :
      {A : Type 0} {inner base : Base}
      → Weaker P inner base
      → (o : Outcome P.Double (Environment P) A) → Ends inner o
      → Ends base o
  Ends-Weaker h o (inl x) = inl x
  Ends-Weaker h o (inr w) = inr (h (final o) w)

  done-thrown :
      {A : Type 0} {a : A} {x : Thrown P.Double} {s t : Environment P} → done a s ≡ thrown x t → ⊥
  done-thrown e = cc

  led :
      {A B : Type 0} {inner base : Base} {next : A → M P B} (o : Outcome P.Double (Environment P) A)
      (s : Environment P)
      → Ends inner o
      → ((a : A) → Leads inner base (next a))
      → Weaker P inner base
      → Ends base (((λ _. o) >>= next) s)
  led (done a s') s (inl (t, e)) h k = absurd (done-thrown e)
  led (done a s') s (inr w) h k = (h a).leads s' w
  led (thrown x s') s (inl (t, e)) h k = inl (t, cc)
  led (thrown x s') s (inr w) h k = inr (k s' w)

  pub >>-Leads :
      {A : Type 0} {inner base : Base} {run : M P (Unit {0})} {next : M P A}
      → Keeps inner run
      → Leads inner base next
      → Weaker P inner base
      → Leads inner base (run >> next)
  >>-Leads {run} g h k = record { leads = λ s w. led (run s) s (g.keeps s w) (λ _. h) k }

  pub >>=-Leads :
      {A B : Type 0} {inner base : Base} {run : M P A} {next : A → M P B}
      → Leads inner base run
      → ((a : A) → Keeps base (next a))
      → Leads inner base (run >>= next)
  >>=-Leads {run = run} g h = record { leads = λ s w. bound (run s) s (g.leads s w) h }

  -- What is entered is left again by the rest of the run.
  pub entered :
      {A : Type 0} {base : Base} (enter : Environment P → Environment P) (rest : M P A)
      → ((s : Environment P)
          → Within base s
          → (inner : Base) × Within inner (enter s) × Leads inner base rest)
      → Keeps base (modify enter >> rest)
  entered enter rest h = record {
    keeps = λ s w. (let (inner, v, k) = h s w in k.leads (enter s) v);
  }
