-- ===== src/Types/Gc/Counting.antt =====
-- The counts of `GC` against plain counters, over any sequence of calls.
use luapp.Prelude.{
  ℕ, zero, suc, ◌+◌, ◌-◌, ◌%◌, ◌<◌, List, [], ◌∷◌, ◌++◌, true, false, Option, none, some, nat_eq,
  length, if◌then◌else◌, ◌≡◌, inl, inr, refl, ap, ◌∙◌, Result, ok, ◌>>=◌, arith, All, Bool-cases,
  Option-cases,
}
use native.Mathlib.Nat.{zero-add, suc-add}
use luapp.Types.Platform.{Platform}
use luapp.Types.Value.{LuaValue, nil, function, userdata, table, is_refcounted}
use luapp.Types.Gc.Keys.{IsReference, same_key_left, count_of-set_count, count_of-drop_count}
use luapp.Types.Gc.{
  Gc, uint_mod, same_key, count_of, set_count, drop_count, or_zero, add_reference, delete,
  remove_counted, remove_reference,
}

module _ (P : Platform) where
  open P use {Double}

  -- A call of the collector.
  pub data Op : Type 0 where
    add : LuaValue Double → Op
    remove : LuaValue Double → Op

  unfoldable pub run : List Op → Gc P → Result (Gc P)
  run [] g = ok g
  run (add l ∷ ops) g = run ops (add_reference P l g)
  run (remove l ∷ ops) g = remove_reference P l g >>= run ops

  -- How often an object was deleted.
  unfoldable pub deaths : LuaValue Double → List (LuaValue Double) → ℕ
  deaths p [] = 0
  deaths p (l ∷ ls) = let rest = deaths p ls in if same_key P l p then suc rest else rest

  -- One plain counter for the object `p`: its references, and how often it was deleted.
  abbrev pub step : LuaValue Double → Op → ℕ × ℕ → ℕ × ℕ
  step p (add l) (n, d) = if same_key P l p then (n + 1, d) else (n, d)
  step p (remove l) (n, d) =
      if same_key P l p then (n - 1, if nat_eq n 1 then d + 1 else d) else (n, d)

  abbrev pub steps : LuaValue Double → List Op → ℕ × ℕ → ℕ × ℕ
  steps p [] c = c
  steps p (op ∷ ops) c = steps p ops (step p op c)

  abbrev pub view : LuaValue Double → Gc P → ℕ × ℕ
  view p g = (or_zero P (count_of P p g.references), deaths p g.deleted)

  -- No count is 0, and `b` more references can be counted before one wraps round.
  abbrev pub Bounded : ℕ → Gc P → Type 0
  Bounded b g = All (λ e. (0 < e.1) × (e.1 + b < uint_mod)) g.references

  abbrev Within : ℕ → List (LuaValue Double × ℕ) → Type 0
  Within b m = All (λ e. (0 < e.1) × (e.1 + b < uint_mod)) m

  Within-count :
      (b : ℕ) (l : LuaValue Double) (m : List (LuaValue Double × ℕ)) (n : ℕ)
      → Within b m
      → count_of P l m ≡ some n
      → (0 < n) × (n + b < uint_mod)
  unfolding count_of
  Within-count b l [] n h e = cc
  Within-count b l ((k, c) ∷ m) n h e = elim (Bool-cases (same_key P k l)) [
    | inl q ↦ let e' : c ≡ n = ground (arith, q) in omega (arith, h.0)
    | inr q ↦ Within-count b l m n h.1 (rw q at e)
  ]

  Within-weaken : (b : ℕ) (m : List (LuaValue Double × ℕ)) → Within (suc b) m → Within b m
  Within-weaken b [] h = tt
  Within-weaken b (e ∷ m) h = ((h.0.0, omega (arith, h.0)), Within-weaken b m h.1)

  Within-set_count :
      (b : ℕ) (l : LuaValue Double) (n : ℕ) (m : List (LuaValue Double × ℕ))
      → 0 < n
      → n + b < uint_mod
      → Within (suc b) m
      → Within b (set_count P l n m)
  unfolding set_count
  Within-set_count b l n [] pos lt h = ((pos, lt), tt)
  Within-set_count b l n ((k, c) ∷ m) pos lt h = elim (Bool-cases (same_key P k l)) [
    | inl q ↦ rw q ((pos, lt), Within-weaken b m h.1)
    | inr q ↦ rw q ((h.0.0, omega (arith, h.0)), Within-set_count b l n m pos lt h.1)
  ]

  Within-drop_count :
      (b : ℕ) (l : LuaValue Double) (m : List (LuaValue Double × ℕ))
      → Within (suc b) m
      → Within b (drop_count P l m)
  unfolding drop_count
  Within-drop_count b l [] h = tt
  Within-drop_count b l ((k, c) ∷ m) h = elim (Bool-cases (same_key P k l)) [
    | inl q ↦ rw q (Within-drop_count b l m h.1)
    | inr q ↦ rw q ((h.0.0, omega (arith, h.0)), Within-drop_count b l m h.1)
  ]

  IsReference-refcounted :
      (l p : LuaValue Double) → IsReference P p → same_key P l p ≡ true → is_refcounted l ≡ true
  unfolding is_refcounted
  IsReference-refcounted l (function x) r e = rw ((same_key_left P (function x) l r).0 e)
  IsReference-refcounted l (userdata x) r e = rw ((same_key_left P (userdata x) l r).0 e)
  IsReference-refcounted l (table x) r e = rw ((same_key_left P (table x) l r).0 e)
  IsReference-refcounted l nil r e = absurd r
  IsReference-refcounted l _ r e = absurd r

  deaths-append :
      (p l : LuaValue Double) (ls : List (LuaValue Double))
      → deaths p (ls ++ l ∷ []) ≡ (if same_key P l p then suc (deaths p ls) else deaths p ls)
  unfolding deaths
  deaths-append p l [] = refl
  deaths-append p l (k ∷ ls) = ground (arith, deaths-append p l ls)

  deaths-delete :
      (p l : LuaValue Double) (ls : List (LuaValue Double))
      → IsReference P p
      → deaths p (delete P l ls) ≡ (if same_key P l p then suc (deaths p ls) else deaths p ls)
  unfolding deaths
  deaths-delete p l ls r = ground (arith, deaths-append p l ls, IsReference-refcounted l p r)

  add_reference-Bounded :
      (b : ℕ) (l : LuaValue Double) (g : Gc P)
      → Bounded (suc b) g
      → 1 + b < uint_mod
      → Bounded b (add_reference P l g)
  unfolding add_reference
  add_reference-Bounded b l g h lt = elim (Option-cases (count_of P l g.references)) [
    | inl e ↦ rw e (Within-set_count b l 1 g.references (omega arith) lt h)
    | inr (n, e) ↦
        let w = Within-count (suc b) l g.references n h e in
        let small : (n + 1) % uint_mod ≡ n + 1 = omega (arith, w) in
        rw (e, small) (Within-set_count b l (n + 1) g.references (omega arith) (omega (arith, w)) h)
  ]

  same_key_self : (p : LuaValue Double) → IsReference P p → same_key P p p ≡ true
  same_key_self p r = (same_key_left P p p r).1 refl

  add_reference_self :
      (b : ℕ) (p : LuaValue Double) (g : Gc P)
      → IsReference P p
      → Bounded (suc b) g
      → or_zero P (count_of P p (add_reference P p g).references)
        ≡ or_zero P (count_of P p g.references) + 1
  unfolding add_reference
  add_reference_self b p g r h =
      rw
        (
          count_of-set_count P p r p ((or_zero P (count_of P p g.references) + 1) % uint_mod)
              g.references,
          same_key_self p r,
        )
        (elim (Option-cases (count_of P p g.references)) [
          | inl e ↦ rw e (omega arith)
          | inr (n, e) ↦
              let w = Within-count (suc b) p g.references n h e in rw e (omega (arith, w))
        ])

  add_reference-view :
      (b : ℕ) (l p : LuaValue Double) (g : Gc P)
      → IsReference P p
      → Bounded (suc b) g
      → view p (add_reference P l g) ≡ step p (add l) (view p g)
  unfolding add_reference
  add_reference-view b l p g r h = elim (Bool-cases (same_key P l p)) [
    | inl q ↦
        let e = (same_key_left P p l r).0 q in
        rw (e, same_key_self p r) (ap (λ n. (n, deaths p g.deleted)) (add_reference_self b p g r h))
    | inr q ↦ rw q (other q)
  ]
    where
      other : same_key P l p ≡ false → view p (add_reference P l g) ≡ view p g
      other q = rw (
        count_of-set_count P p r l ((or_zero P (count_of P l g.references) + 1) % uint_mod)
            g.references,
        q,
      )

  -- What a call leaves: the next state is within the bound, and each object's view makes its step.
  record After (b : ℕ) (op : Op) (g g' : Gc P) : Type 0 where
    bounded : Bounded b g'
    views : (p : LuaValue Double) → IsReference P p → view p g' ≡ step p op (view p g)

  module _ (b : ℕ) (l : LuaValue Double) (g : Gc P) (h : Bounded (suc b) g) where
    -- An object that is not `l` keeps its view; of `l` itself the count `n` is read.
    remove_views :
        (g' : Gc P) (n : ℕ)
        → or_zero P (count_of P l g.references) ≡ n
        → ((p : LuaValue Double)
            → IsReference P p
            → (same_key P l p ≡ true
                → view p g'
                  ≡ (n - 1, if nat_eq n 1 then deaths p g.deleted + 1 else deaths p g.deleted))
              × (same_key P l p ≡ false → view p g' ≡ view p g))
        → (p : LuaValue Double) → IsReference P p
        → view p g' ≡ step p (remove l) (view p g)
    remove_views g' n e each p r = elim (Bool-cases (same_key P l p)) [
      | inl q ↦
          let same = (same_key_left P p l r).0 q in
          let at_p : or_zero P (count_of P p g.references) ≡ n = rw (← same) e in
          rw (q, at_p) ((each p r).0 q)
      | inr q ↦ rw q ((each p r).1 q)
    ]

    remove_counted-After :
        (o : Option ℕ)
        → count_of P l g.references ≡ o
        → (g' : Gc P) × (remove_counted P l o g ≡ ok g') × After b (remove l) g g'
    unfolding remove_counted
    remove_counted-After none e = (
      g,
      refl,
      record {
        bounded = Within-weaken b g.references h;
        views = remove_views g 0 (rw e) λ p r. (
          λ q.
              let none_of_p : count_of P p g.references ≡ none =
                rw (← (same_key_left P p l r).0 q) e in
              rw none_of_p,
          λ q. refl,
        );
      },
    )
    remove_counted-After (some zero) e =
        absurd (omega (arith, Within-count (suc b) l g.references 0 h e))
    remove_counted-After (some (suc zero)) e = (
      _,
      refl,
      record {
        bounded = Within-drop_count b l g.references h;
        views = remove_views _ 1 (rw e) λ p r. (
          λ q.
              ground
                (arith, count_of-drop_count P p r l g.references, deaths-delete p l g.deleted r),
          λ q.
              ground
                (arith, count_of-drop_count P p r l g.references, deaths-delete p l g.deleted r),
        );
      },
    )
    remove_counted-After (some (suc (suc n))) e = (
      _,
      refl,
      record {
        bounded =
            Within-set_count b l (suc n) g.references (omega arith)
              (omega (arith, Within-count (suc b) l g.references (suc (suc n)) h e)) h;
        views = remove_views _ (suc (suc n)) (rw e) λ p r. (
          λ q. ground (arith, count_of-set_count P p r l (suc n) g.references),
          λ q. ground (arith, count_of-set_count P p r l (suc n) g.references),
        );
      },
    )

  -- Any sequence of calls, from counts that leave room for as many references as it has calls: it
  -- throws nothing, no count becomes 0 or wraps round, and each object is counted and deleted as its
  -- own plain counter says: one up for `add`, one down for `remove`, never below 0, and a deletion
  -- exactly when the counter goes from 1 to 0.
  pub run_lem :
      (ops : List Op) (b : ℕ) (g : Gc P)
      → Bounded (length ops + b) g
      → length ops + b < uint_mod
      → (g' : Gc P) × (run ops g ≡ ok g')
        × Bounded b g'
        × ((p : LuaValue Double) → IsReference P p → view p g' ≡ steps p ops (view p g))
  unfolding run remove_reference
  run_lem [] b g h lt = (g, refl, simp zero-add at h, λ p r. refl)
  run_lem (add l ∷ ops) b g h lt =
      let h' : Bounded (suc (length ops + b)) g = simp suc-add at h in
      let (g', e, bounded, views) =
        run_lem ops b (add_reference P l g)
          (add_reference-Bounded (length ops + b) l g h' (omega arith)) (omega arith) in
      (
        g',
        e,
        bounded,
        λ p r. views p r ∙ ap (steps p ops) (add_reference-view (length ops + b) l p g r h'),
      )
  run_lem (remove l ∷ ops) b g h lt =
      let h' : Bounded (suc (length ops + b)) g = simp suc-add at h in
      let (g₁, e₁, after) =
        remove_counted-After (length ops + b) l g h' (count_of P l g.references) refl in
      let (g', e, bounded, views) = run_lem ops b g₁ after.bounded (omega arith) in
      (g', rw e₁ e, bounded, λ p r. views p r ∙ ap (steps p ops) (after.views p r))
