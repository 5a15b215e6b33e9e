-- ===== src/Interpreter/Machine/Storage.antt =====
-- What a store to an object leaves behind the pointers.
use luapp.Prelude.{
  ℕ, some, none, eq_nat, nat_eq_iff, arith, ok, ◌≡◌, ◌≢◌, refl, ap, ◌∙◌, inl, inr, Option-cases,
}
use luapp.Prelude.Map.{find, put, find-put, find-put_self}
use luapp.Types.Platform.{Platform}
use luapp.Types.Value.{LuaValue}
use luapp.Types.Var.{Place, object, shared_nil}
use luapp.Interpreter.Environment.{Environment}
use luapp.Interpreter.Machine.{heap, write}

module _ (P : Platform) where
  open P use {Double}

  -- The object `a` holds `v`, and all else is as it was.
  pub record Stored (a : ℕ) (v : LuaValue Double) (s s' : Environment P) : Type 0 where
    pub stored : heap P s' (object a) ≡ some v
    pub others : (p : Place Double) → object a ≢ p → heap P s' p ≡ heap P s p

  none-some : {A : Type 0} {a : A} → none ≡ some a → ⊥
  none-some h = cc

  heap-put :
      (a b n : ℕ) (v : LuaValue Double) (s : Environment P)
      → a ≢ b
      → heap P (record s { values = put a (v, n) s.values }) (object b) ≡ heap P s (object b)
  unfolding heap write
  heap-put a b n v s ne =
      ap (λ o. elim o [ none ↦ none | some (w, _) ↦ some w ])
        (find-put a b (v, n) s.values ∙ ground (arith, nat_eq_iff a b))

  pub put-Stored :
      (a n : ℕ) (v : LuaValue Double) (s : Environment P)
      → Stored a v s (record s { values = put a (v, n) s.values })
  unfolding heap write
  put-Stored a n v s = record {
    stored = rw (heap, find-put_self a (v, n) s.values) refl;
    others = λ p ne.
        elim p
            as (λ p.
              object a ≢ p → heap P (record s { values = put a (v, n) s.values }) p ≡ heap P s p) [
                | object b ↦ λ ne'. heap-put a b n v s (λ e. ne' (ap object e))
                | Place.field t k ↦ λ _. refl
                | shared_nil ↦ λ _. refl
              ]
          ne;
  }

  -- A store to an object that there is succeeds.
  pub write-Stored :
      (a : ℕ) (v w : LuaValue Double) (s : Environment P)
      → heap P s (object a) ≡ some w
      → (s' : Environment P) × (write P (object a) v s ≡ ok s') × Stored a v s s'
  unfolding heap write
  write-Stored a v w s h = elim (Option-cases (find a s.values)) [
    | inl e ↦ absurd (none-some (rw (heap, e) at h))
    | inr ((u, n), e) ↦ (_, rw (write, e) refl, put-Stored a n v s)
  ]
