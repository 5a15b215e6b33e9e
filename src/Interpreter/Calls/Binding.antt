-- ===== src/Interpreter/Calls/Binding.antt =====
-- interpreter.cpp: what the formal parameters are bound to, in the loops of `call_function`.
use luapp.Prelude.{
  ℕ, suc, ◌≤◌, String, List, [], ◌∷◌, length, In, some, eq_nat, eq_string, arith, ◌≡◌, refl, ap,
  sym, subst, ◌∙◌, inl, inr,
}
use luapp.Prelude.Map.{Map, find, put, find-put, find-put_self}
use luapp.Analyzer.Scope.{Block}
use luapp.Analyzer.State.{at}
use luapp.Types.Platform.{Platform}
use luapp.Types.Value.{LuaValue, nil}
use luapp.Types.Gc.{add_reference}
use luapp.Interpreter.Environment.{ValueStore, Environment}
use luapp.Interpreter.Machine.{done, new_value, set_local}
use luapp.Interpreter.Calls.{bind_parameters}

abbrev pub IsDistinct : List String → Type 0
IsDistinct [] = Unit
IsDistinct (p ∷ ps) = (In p ps → ⊥) × IsDistinct ps

module _ (P : Platform) (ctx : Block) (all : List String)
    (below : List (Map Block ValueStore)) where
  open P use {Double}

  abbrev pub with_top : Environment P → Map Block ValueStore → Environment P
  with_top s top = record s { local_values = top ∷ below }

  abbrev pub argument : List (LuaValue Double) → LuaValue Double
  argument [] = nil
  argument (v ∷ vs) = v

  abbrev pub later : List (LuaValue Double) → List (LuaValue Double)
  later [] = []
  later (v ∷ vs) = vs

  -- Each name has an object with its argument, or with nil where there is none, at an address from
  -- `least` on and above those of the names before it, so that no two names share an object.
  abbrev pub Bound :
      ℕ → List String → List (LuaValue Double) → Environment P → Map Block ValueStore → Type 0
  Bound least [] vs s top = Unit
  Bound least (p ∷ ps) vs s top =
      (a : ℕ) × (least ≤ a)
      × (find p (at [] ctx top) ≡ some a)
      × (find a s.values ≡ some (argument vs, 1))
      × Bound (suc a) ps (later vs) s top

  -- The end of the binding of `ps` to `vs`, which changes no other name and no earlier object.
  pub record Binding (ps : List String) (vs : List (LuaValue Double)) (s : Environment P)
      (top : Map Block ValueStore) : Type 0 where
    pub s' : Environment P
    pub top' : Map Block ValueStore
    pub run : bind_parameters P ctx all ps vs (with_top s top) ≡ done tt (with_top s' top')
    pub bound : Bound s.next ps vs s' top'
    pub names : (q : String) → (In q ps → ⊥) → find q (at [] ctx top') ≡ find q (at [] ctx top)
    pub objects : (b : ℕ) → suc b ≤ s.next → find b s'.values ≡ find b s.values

  abbrev bound_top : String → ℕ → Map Block ValueStore → Map Block ValueStore
  bound_top p a top = let store : ValueStore = at [] ctx top in put ctx (put p a store) top

  abbrev bound_one : LuaValue Double → Environment P → Environment P
  bound_one v s = record s { values = put s.next (v, 1) s.values; next = suc s.next }

  at-bound_top :
      (p : String) (a : ℕ) (top : Map Block ValueStore)
      → at [] ctx (bound_top p a top) ≡ put p a (at [] ctx top)
  unfolding at
  at-bound_top p a top = rw (at, find-put_self ctx (put p a (at [] ctx top)) top) refl

  find-fresh :
      (v : LuaValue Double) (s : Environment P) (b : ℕ)
      → suc b ≤ s.next
      → find b (put s.next (v, 1) s.values) ≡ find b s.values
  find-fresh v s b h = find-put s.next b (v, 1) s.values ∙ ground (arith, h)

  find-put_ne :
      (p q : String) (a : ℕ) (store : ValueStore)
      → (p ≡ q → ⊥)
      → find q (put p a store) ≡ find q store
  find-put_ne p q a store ne = find-put p q a store ∙ ground (arith, eq_string.beq_iff p q, ne)

  -- One more name, bound first.
  extend :
      (p : String) (ps : List String) (v : LuaValue Double) (vs vs' : List (LuaValue Double))
      (s s₁ : Environment P) (top : Map Block ValueStore)
      → argument vs' ≡ v
      → later vs' ≡ vs
      → s₁.values ≡ put s.next (v, 1) s.values
      → s₁.next ≡ suc s.next
      → (In p ps → ⊥)
      → (b : Binding ps vs s₁ (bound_top p s.next top))
      → bind_parameters P ctx all (p ∷ ps) vs' (with_top s top) ≡ done tt (with_top b.s' b.top')
      → Binding (p ∷ ps) vs' s top
  extend p ps v vs vs' s s₁ top ev evs values_eq next_eq fresh b run = record {
    s' = b.s';
    top' = b.top';
    run = run;
    bound = (
      s.next,
      omega arith,
      b.names p fresh ∙ ap (find p) (at-bound_top p s.next top) ∙ find-put_self p s.next _,
      b.objects s.next (omega (arith, next_eq))
          ∙ ap (find s.next) values_eq
          ∙ find-put_self s.next (v, 1) s.values
          ∙ ap (λ w. some (w, 1)) (sym ev),
      subst (λ w. Bound (suc s.next) ps w b.s' b.top') (sym evs)
          (subst (λ m. Bound m ps vs b.s' b.top') next_eq b.bound),
    );
    names = λ q out.
        b.names q (λ m. out (inr m))
        ∙ ap (find q) (at-bound_top p s.next top)
        ∙ find-put_ne p q s.next (at [] ctx top) (λ e. out (inl e));
    objects =
        λ a h. b.objects a (omega (arith, h, next_eq)) ∙ ap (find a) values_eq ∙ find-fresh v s a h;
  }

  -- A call with no more arguments than parameters, whose names differ, binds each parameter to its
  -- argument, or to nil where there is none, in an object of its own: one that is new, from the next
  -- free address on, and at a higher address than those of the parameters before it, with the count
  -- 1. The block's other names and the objects that there were stay.
  pub bind_parameters-Binding :
      (ps : List String) (vs : List (LuaValue Double)) (s : Environment P)
      (top : Map Block ValueStore)
      → length vs ≤ length ps
      → IsDistinct ps
      → Binding ps vs s top
  unfolding bind_parameters set_local new_value
  bind_parameters-Binding [] [] s top h d = record {
    s' = s;
    top' = top;
    run = refl;
    bound = tt;
    names = λ q out. refl;
    objects = λ b h'. refl;
  }
  bind_parameters-Binding [] (v ∷ vs) s top h d = absurd (omega (arith, h))
  bind_parameters-Binding (p ∷ ps) [] s top h (fresh, d) =
      let s₁ = bound_one nil s in
      let b = bind_parameters-Binding ps [] s₁ (bound_top p s.next top) (omega arith) d in
      extend p ps nil [] [] s s₁ top refl refl refl refl fresh b b.run
  bind_parameters-Binding (p ∷ ps) (v ∷ vs) s top h (fresh, d) =
      let s₁ = record (bound_one v s) { gc = add_reference P v s.gc } in
      let b = bind_parameters-Binding ps vs s₁ (bound_top p s.next top) (omega (arith, h)) d in
      extend p ps v vs (v ∷ vs) s s₁ top refl refl refl refl fresh b b.run
