-- ===== src/Interpreter/Environment/Closing/Shadowing.antt =====
-- When a function can be closed over the locals around it.
use Prim.Native.String.{◌++◌ as concat}
use luapp.Prelude.{
  ℕ, String, List, [], ◌∷◌, ◌++◌, none, some, eq_nat, eq_string, Result, ok, err, runtime_error,
  ◌>>=◌, ◌≡◌, ◌≢◌, ◌↔◌, refl, ◌∙◌, ap, subst, ◌⊎◌, inl, inr, All, arith, Option-cases,
}
use luapp.Prelude.Map.{Map, find, put, find-put, find-put_self}
use luapp.Analyzer.Scope.{Block}
use luapp.Analyzer.State.{at, touch, equal_range}
use luapp.Types.Platform.{Platform}
use luapp.Types.Gc.{add_value_reference}
use luapp.Interpreter.Environment.{ValueStore, Environment, retain}
use luapp.Interpreter.Environment.Lookup.{at-touch}
use luapp.Interpreter.Environment.Closing.{close, close_store, close_blocks, close_function}

-- The entries of the stores of some blocks, block after block.
abbrev pub entries : List Block → Map Block ValueStore → ValueStore
entries [] m = []
entries (ctx ∷ contexts) m = at [] ctx m ++ entries contexts m

-- No name stands twice among the entries, and none is in `names`.
abbrev pub Fresh : ValueStore → ValueStore → Type 0
Fresh [] names = Unit
Fresh ((n, a) ∷ es) names = (find n names ≡ none) × Fresh es (put n a names)

-- The closure with the entries added.
abbrev pub extend : ValueStore → ValueStore → ValueStore
extend [] names = names
extend ((n, a) ∷ es) names = extend es (put n a names)

entries-touch :
    (b : Block) (cs : List Block) (m : Map Block ValueStore)
    → entries cs (touch [] b m) ≡ entries cs m
entries-touch b [] m = refl
entries-touch b (c ∷ cs) m = rw (at-touch b c m, entries-touch b cs m)

module _ (P : Platform) where
  -- Every entry's object is there.
  abbrev pub Alive : ValueStore → Environment P → Type 0
  Alive es s = All (λ e. find e.1 s.values ≢ none) es

  retain-alive :
      (a : ℕ) (s : Environment P)
      → find a s.values ≢ none
      → (s' : Environment P) × (retain P a s ≡ ok s')
        × (s'.closures ≡ s.closures)
        × (s'.local_values ≡ s.local_values)
        × ((b : ℕ) → find b s.values ≢ none → find b s'.values ≢ none)
  unfolding retain
  retain-alive a s h = elim (Option-cases (find a s.values)) [
    | inl e ↦ absurd (h e)
    | inr (v, e) ↦
        rw (retain, e)
          (
            _,
            refl,
            refl,
            refl,
            λ b k. ground (arith, find-put a b (v.0, add_value_reference v.1) s.values),
          )
  ]

  abbrev Survive : Environment P → Environment P → Type 0
  Survive s s' = (b : ℕ) → find b s.values ≢ none → find b s'.values ≢ none

  close_new :
      (f : ℕ) (n : String) (a : ℕ) (names : ValueStore) (s : Environment P)
      → find f s.closures ≡ some names
      → find n names ≡ none
      → find a s.values ≢ none
      → (s' : Environment P) × (close P f n a s ≡ ok s')
        × (find f s'.closures ≡ some (put n a names))
        × (s'.local_values ≡ s.local_values)
        × Survive s s'
  unfolding close
  close_new f n a names s e free alive =
      let s₁ = record s { closures = put f (put n a names) s.closures } in
      let (s', p, c, l, k) = retain-alive a s₁ alive in
      (s', rw (close, e, free) p, ap (find f) c ∙ find-put_self f (put n a names) s.closures, l, k)

  All-Survive : (es : ValueStore) (s s' : Environment P) → Survive s s' → Alive es s → Alive es s'
  All-Survive [] s s' k h = tt
  All-Survive (e ∷ es) s s' k h = (k e.1 h.0, All-Survive es s s' k h.1)

  close_store_cases :
      (f : ℕ) (es names : ValueStore) (s : Environment P)
      → find f s.closures ≡ some names
      → Alive es s
      → ((s' : Environment P) × (close_store P f es s ≡ ok s')
          × Fresh es names
          × (find f s'.closures ≡ some (extend es names))
          × (s'.local_values ≡ s.local_values)
          × Survive s s')
        ⊎ ((n : String) × (close_store P f es s
              ≡ err (runtime_error (concat "Closing function twice under " n)))
            × (Fresh es names → ⊥))
  unfolding close_store close
  close_store_cases f [] names s e alive = inl (s, refl, tt, e, refl, λ b h. h)
  close_store_cases f ((n, a) ∷ es) names s e alive = elim (Option-cases (find n names)) [
    | inl free ↦
        let (s₁, p, c, l, k) = close_new f n a names s e free alive.0 in
        elim (close_store_cases f es (put n a names) s₁ c (All-Survive es s s₁ k alive.1)) [
          | inl (s', q, fresh, c', l', k') ↦ inl (
            s',
            ap (λ r. r >>= close_store P f es) p ∙ q,
            (free, fresh),
            c',
            l' ∙ l,
            λ b h. k' b (k b h),
          )
          | inr (m, q, bad) ↦
              inr (m, ap (λ r. r >>= close_store P f es) p ∙ q, λ fresh. bad fresh.1)
        ]
    | inr (b, taken) ↦ inr (n, rw (close, e, taken), λ fresh. cc)
  ]

  -- What closing over some entries gives: the closure `names` with the entries, where no name stands
  -- twice, and else the exception.
  abbrev pub ClosedOver : ℕ → ValueStore → ValueStore → Result (Environment P) → Type 0
  ClosedOver f es names r =
      ((s' : Environment P) × (r ≡ ok s')
        × Fresh es names
        × (find f s'.closures ≡ some (extend es names)))
      ⊎ ((n : String) × (r ≡ err (runtime_error (concat "Closing function twice under " n)))
          × (Fresh es names → ⊥))

  Alive-append_left : (es fs : ValueStore) (s : Environment P) → Alive (es ++ fs) s → Alive es s
  Alive-append_left [] fs s h = tt
  Alive-append_left (e ∷ es) fs s h = (h.0, Alive-append_left es fs s h.1)

  Alive-append_right : (es fs : ValueStore) (s : Environment P) → Alive (es ++ fs) s → Alive fs s
  Alive-append_right [] fs s h = h
  Alive-append_right (e ∷ es) fs s h = Alive-append_right es fs s h.1

  Fresh-append :
      (es fs names : ValueStore)
      → Fresh (es ++ fs) names ↔ (Fresh es names × Fresh fs (extend es names))
  Fresh-append [] fs names = (λ h. (tt, h), λ h. h.1)
  Fresh-append ((n, a) ∷ es) fs names =
      let rest = Fresh-append es fs (put n a names) in
      (λ h. ((h.0, (rest.0 h.1).0), (rest.0 h.1).1), λ h. (h.0.0, rest.1 (h.0.1, h.1)))

  extend-append : (es fs names : ValueStore) → extend (es ++ fs) names ≡ extend fs (extend es names)
  extend-append [] fs names = refl
  extend-append ((n, a) ∷ es) fs names = extend-append es fs (put n a names)

  ClosedOver-append :
      (f : ℕ) (es fs names : ValueStore) {s : Environment P} {r : Result (Environment P)}
      → r ≡ ok s
      → Fresh es names
      → (k : Environment P → Result (Environment P)) → ClosedOver f fs (extend es names) (k s)
      → ClosedOver f (es ++ fs) names (r >>= k)
  ClosedOver-append f es fs names p fresh k (inl (s', q, fresh', c)) = inl (
    s',
    ap (λ r. r >>= k) p ∙ q,
    (Fresh-append es fs names).1 (fresh, fresh'),
    rw (extend-append es fs names) c,
  )
  ClosedOver-append f es fs names p fresh k (inr (n, q, bad)) =
      inr (n, ap (λ r. r >>= k) p ∙ q, λ h. bad ((Fresh-append es fs names).0 h).1)

  close_blocks_cases :
      (f : ℕ) (contexts : List Block) (names : ValueStore) (s : Environment P)
      (top : Map Block ValueStore) (below : List (Map Block ValueStore))
      → s.local_values ≡ top ∷ below
      → find f s.closures ≡ some names
      → Alive (entries contexts top) s
      → ClosedOver f (entries contexts top) names (close_blocks P f contexts s)
  unfolding close_blocks
  close_blocks_cases f [] names s top below l e alive = inl (s, refl, tt, e)
  close_blocks_cases f (ctx ∷ contexts) names s top below l e alive =
      let own = at [] ctx top in
      let later = entries contexts top in
      let s₁ = record s { local_values = touch [] ctx top ∷ below } in
      rw l (elim (close_store_cases f own names s₁ e (Alive-append_left own later s alive)) [
        | inl (s₂, p, fresh, c, l₂, k) ↦
            ClosedOver-append f own later names p fresh (close_blocks P f contexts) (
              subst (λ es. ClosedOver f es (extend own names) (close_blocks P f contexts s₂))
                (entries-touch ctx contexts top)
                (close_blocks_cases f contexts (extend own names) s₂ (touch [] ctx top) below l₂ c (
                  rw (entries-touch ctx contexts top)
                    (All-Survive later s s₂ k (Alive-append_right own later s alive)))))
        | inr (n, p, bad) ↦ inr (
          n,
          ap (λ r. r >>= close_blocks P f contexts) p,
          λ h. bad ((Fresh-append own later names).0 h).0,
        )
      ])

  -- The closing of a function over the blocks around it, whose locals' objects are all there: the
  -- function's closure gets every local of those blocks, under its name, if no name stands twice
  -- among them or is in the closure already; and if one does, the closing throws "Closing function
  -- twice" instead.
  pub close_function_lem :
      (f : ℕ) (body : Block) (names : ValueStore) (s : Environment P) (top : Map Block ValueStore)
      (below : List (Map Block ValueStore))
      → s.local_values ≡ top ∷ below
      → find f s.closures ≡ some names
      → Alive (entries (equal_range body s.listener.functions_parents) top) s
      → ClosedOver f
          (entries (equal_range body s.listener.functions_parents) top)
          names
          (close_function P f body s)
  unfolding close_function
  close_function_lem f body names s top below l e alive =
      close_blocks_cases f (equal_range body s.listener.functions_parents) names s top below l e
        alive
