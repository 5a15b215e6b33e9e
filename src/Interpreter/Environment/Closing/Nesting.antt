-- ===== src/Interpreter/Environment/Closing/Nesting.antt =====
-- types.cpp: how deep the destructors nest that a release of an object runs.
use luapp.Prelude.{
  ℕ, zero, suc, ◌≤◌, [], ◌∷◌, Bool, true, false, Option, none, some, length, arith, eq_nat, inl,
  inr, Error, Result, ok, err, out_of_fuel, Result-cases, Option-cases, Bool-cases, ◌>>=◌, ◌==◌,
  ◌≡◌, ◌≢◌, refl,
}
use luapp.Prelude.Map.{Map, find, put, erase}
use luapp.Types.Platform.{Platform}
use luapp.Types.Value.{LuaValue, function, is_refcounted}
use luapp.Types.Gc.{Gc, count_of, remove_counted, remove_reference, remove_value_reference}
use luapp.Interpreter.Environment.{
  ValueStore, Environment, Code, release_names, destroy_function, delete_object, drop_value,
  destroy, release_within,
}

length-put :
    {V : Type 0} (a : ℕ) (v : V) (m : Map ℕ V) {w : V}
    → find a m ≡ some w
    → length (put a v m) ≡ length m
unfolding put find
length-put a v [] e = cc
length-put a v ((k, u) ∷ m) e = elim (Bool-cases (k == a)) [
  | inl q ↦ rw (put, q) refl
  | inr q ↦ rw (put, q) (let e' = rw (find, q) at e in rw (length-put a v m e') refl)
]

length-erase_le : {V : Type 0} (a : ℕ) (m : Map ℕ V) → length (erase a m) ≤ length m
unfolding erase
length-erase_le a [] = omega arith
length-erase_le a ((k, u) ∷ m) = elim (Bool-cases (k == a)) [
  | inl q ↦ rw (erase, q) (omega (arith, length-erase_le a m))
  | inr q ↦ rw (erase, q) (omega (arith, length-erase_le a m))
]

pub length-erase :
    {V : Type 0} (a : ℕ) (m : Map ℕ V) {w : V}
    → find a m ≡ some w
    → suc (length (erase a m)) ≤ length m
unfolding erase find
length-erase a [] e = cc
length-erase a ((k, u) ∷ m) e = elim (Bool-cases (k == a)) [
  | inl q ↦ rw (erase, q) (omega (arith, length-erase_le a m))
  | inr q ↦ rw (erase, q) (let e' = rw (find, q) at e in omega (arith, length-erase a m e'))
]

module _ (P : Platform) where
  open P use {Double}

  -- No more objects than before, or an exception other than the lack of fuel.
  abbrev pub Ended : Environment P → Result (Environment P) → Type 0
  Ended s (ok t) = length t.values ≤ length s.values
  Ended s (err x) = x ≢ out_of_fuel

  Ended-weaker :
      (s t : Environment P) (r : Result (Environment P))
      → length t.values ≤ length s.values
      → Ended t r
      → Ended s r
  Ended-weaker s t (ok u) le h = omega (arith, le, h)
  Ended-weaker s t (err x) le h = h

  >>=-Ended :
      (s : Environment P) (r : Result (Environment P))
      (next : Environment P → Result (Environment P))
      → Ended s r
      → ((t : Environment P) → length t.values ≤ length s.values → Ended t (next t))
      → Ended s (r >>= next)
  >>=-Ended s (ok t) next le h = Ended-weaker s t (next t) le (h t le)
  >>=-Ended s (err x) next ne h = ne

  -- The destructors, for a release that ends where there are at most `n` objects.
  module _ (n : ℕ) (rel : ℕ → Environment P → Result (Environment P))
      (h : (a : ℕ) (s : Environment P) → length s.values ≤ n → Ended s (rel a s)) where
    release_names-Ended :
        (store : ValueStore) (s : Environment P)
        → length s.values ≤ n
        → Ended s (release_names P rel store s)
    unfolding release_names
    release_names-Ended [] s le = omega arith
    release_names-Ended ((name, a) ∷ store) s le =
        >>=-Ended s (rel a s) (release_names P rel store) (h a s le)
          (λ t k. release_names-Ended store t (omega (arith, le, k)))

    destroy_function-Ended :
        (f : ℕ) (s : Environment P) → length s.values ≤ n → Ended s (destroy_function P rel f s)
    unfolding destroy_function
    destroy_function-Ended f s le = elim (Option-cases (find f s.code)) [
      | inl e ↦ rw (destroy_function, e) (λ q. cc)
      | inr (Code.c b, e) ↦ rw (destroy_function, e) (omega arith)
      | inr (Code.pure formals body, e) ↦ elim (Option-cases (find f s.closures)) [
        | inl e' ↦ rw (destroy_function, e, e') (λ q. cc)
        | inr (names, e') ↦ rw (destroy_function, e, e') (release_names-Ended names _ le)
      ]
    ]

    delete_object-Ended :
        (b : Bool) (v : LuaValue Double) (s : Environment P)
        → length s.values ≤ n
        → Ended s (delete_object P rel b v s)
    unfolding delete_object
    delete_object-Ended true (function f) s le = destroy_function-Ended f s le
    delete_object-Ended true _ s le = omega arith
    delete_object-Ended false _ s le = omega arith

    remove_counted-fueled :
        (v : LuaValue Double) (o : Option ℕ) (g : Gc P) {x : Error}
        → remove_counted P v o g ≡ err x
        → x ≢ out_of_fuel
    unfolding remove_counted
    remove_counted-fueled v none g e = cc
    remove_counted-fueled v (some zero) g e = λ q. cc
    remove_counted-fueled v (some (suc zero)) g e = cc
    remove_counted-fueled v (some (suc (suc k))) g e = cc

    drop_value-Ended :
        (v : LuaValue Double) (s : Environment P)
        → length s.values ≤ n
        → Ended s (drop_value P rel v s)
    unfolding drop_value remove_reference
    drop_value-Ended v s le = elim (Result-cases (remove_reference P v s.gc)) [
      | inl (g, e) ↦ rw (drop_value, e) (delete_object-Ended _ v _ le)
      | inr (x, e) ↦
          rw (drop_value, e) (remove_counted-fueled v (count_of P v s.gc.references) s.gc e)
    ]

    destroy-Ended :
        (a : ℕ) (v : LuaValue Double) (s : Environment P)
        → length (erase a s.values) ≤ n
        → length (erase a s.values) ≤ length s.values
        → Ended s (destroy P rel a v s)
    destroy-Ended a v s le less = elim (Bool-cases (is_refcounted v)) [
      | inr e ↦ rw e less
      | inl e ↦ rw e (
          Ended-weaker s (record s { values = erase a s.values })
            (drop_value P rel v (record s { values = erase a s.values })) less
            (drop_value-Ended v (record s { values = erase a s.values }) le))
    ]

  remove_value-fueled : (k : ℕ) {x : Error} → remove_value_reference k ≡ err x → x ≢ out_of_fuel
  unfolding remove_value_reference
  remove_value-fueled zero e = λ q. cc
  remove_value-fueled (suc zero) e = cc
  remove_value-fueled (suc (suc k)) e = cc

  -- One level, if the destructors below it end.
  level-Ended :
      (fuel a : ℕ) (s : Environment P)
      → ((v : LuaValue Double)
          → suc (length (erase a s.values)) ≤ length s.values
          → Ended s (destroy P (release_within P fuel) a v s))
      → Ended s (release_within P (suc fuel) a s)
  unfolding release_within
  level-Ended fuel a s below = elim (Option-cases (find a s.values)) [
    | inl e ↦ rw (release_within, e) (λ q. cc)
    | inr ((v, k), e) ↦ elim (Result-cases (remove_value_reference k)) [
      | inr (x, e') ↦ rw (release_within, e, e') (remove_value-fueled k e')
      | inl (none, e') ↦ rw (release_within, e, e') (below v (length-erase a s.values e))
      | inl (some k', e') ↦
          rw (release_within, e, e') (rw (length-put a (v, k') s.values e) (omega arith))
    ]
  ]

  pub release_within-Ended :
      (fuel a : ℕ) (s : Environment P)
      → length s.values ≤ fuel
      → Ended s (release_within P (suc fuel) a s)
  release_within-Ended zero a s le =
      level-Ended zero a s (λ v less. absurd (omega (arith, le, less)))
  release_within-Ended (suc m) a s le = level-Ended (suc m) a s (λ v less.
      destroy-Ended m (release_within P (suc m)) (release_within-Ended m) a v s
        (omega (arith, le, less)) (omega (arith, less)))
