-- ===== src/Interpreter/Environment/Lookup.antt =====
-- Which binding a name has: the innermost block's, the closure's, or the global one.
use luapp.Prelude.{
  ℕ, String, List, [], ◌∷◌, Bool, Option, none, some, ◌==◌, eq_nat, eq_string, if◌then◌else◌,
  Result, ok, err, nil_dot, ◌≡◌, ◌≢◌, refl, ◌∙◌, ap, sym, subst, ◌⊎◌, inl, inr, All, Option-cases,
  nat_eq_iff, Bool-cases,
}
use luapp.Prelude.Map.{Map, find, find-put}
use luapp.Analyzer.Scope.{Block}
use luapp.Analyzer.State.{at, touch}
use luapp.Types.Platform.{Platform}
use luapp.Interpreter.Environment.{
  ValueStore, Scope, global, local, closure, Environment, get_context_for_local, current_block,
  current_function, latest, search_blocks, lookup_global, lookup_outside, lookup_name,
}

-- `operator[]` on a key that is missing changes no store.
pub at-touch : (b c : Block) (m : Map Block ValueStore) → at [] c (touch [] b m) ≡ at [] c m
unfolding at touch
at-touch b c m = elim (Option-cases (find b m)) [
  | inl e ↦ elim (Bool-cases (b == c)) [
    | inl q ↦
        rw (
          touch,
          e,
          at,
          find-put b c [] m,
          q,
          subst (λ x. find x m ≡ none) ((nat_eq_iff b c).0 q) e,
        )
    | inr q ↦ rw (touch, e, at, find-put b c [] m, q)
  ]
  | inr (v, e) ↦ rw (touch, e)
]

abbrev pub bound_in : String → Map Block ValueStore → Block → Option ℕ
bound_in name m ctx = find name (at [] ctx m)

-- No block of the list has the name.
abbrev pub Unbound : String → Map Block ValueStore → List Block → Type 0
Unbound name m contexts = All (λ ctx. bound_in name m ctx ≡ none) contexts

-- The last block of the list that has the name binds it to `a`.
pub data LastBinds (name : String) (m : Map Block ValueStore) (a : ℕ) : List Block → Type 0 where
  here :
      {ctx : Block} {contexts : List Block}
      → bound_in name m ctx ≡ some a
      → Unbound name m contexts
      → LastBinds name m a (ctx ∷ contexts)
  later :
      {ctx : Block} {contexts : List Block}
      → LastBinds name m a contexts
      → LastBinds name m a (ctx ∷ contexts)

module _ (P : Platform) where
  -- What the loop over the blocks gives, from a candidate.
  Searched : String → Map Block ValueStore → List Block → Option ℕ → Option ℕ → Type 0
  Searched name m contexts candidate r =
      ((a : ℕ) × LastBinds name m a contexts × (r ≡ some a))
      ⊎ (Unbound name m contexts × (r ≡ candidate))

  search_blocks_cases :
      (name : String) (contexts : List Block) (m m₀ : Map Block ValueStore) (candidate : Option ℕ)
      → ((c : Block) → at [] c m ≡ at [] c m₀)
      → Searched name m₀ contexts candidate (search_blocks P name contexts m candidate).0
        × ((c : Block) → at [] c (search_blocks P name contexts m candidate).1 ≡ at [] c m₀)
  unfolding search_blocks Searched
  search_blocks_cases name [] m m₀ candidate same = (inr (tt, refl), same)
  search_blocks_cases name (ctx ∷ contexts) m m₀ candidate same =
      let (r, kept) =
        search_blocks_cases name contexts (touch [] ctx m) m₀
          (latest candidate (find name (at [] ctx m))) (λ c. at-touch ctx c m ∙ same c) in
      (
        elim r [
          | inl (a, l, e) ↦ inl (a, later l, e)
          | inr (u, e) ↦ elim (Option-cases (bound_in name m₀ ctx)) [
            | inl n ↦ inr ((n, u), e ∙ ap (λ o. latest candidate o) (ap (find name) (same ctx) ∙ n))
            | inr (a, b) ↦
                inl (a, here b u, e ∙ ap (λ o. latest candidate o) (ap (find name) (same ctx) ∙ b))
          ]
        ],
        kept,
      )

  -- The object of the current function, where there is one, is there.
  abbrev pub FunctionAlive : Environment P → Type 0
  FunctionAlive s = (f : ℕ) → current_function P s ≡ some f → find f s.closures ≢ none

  -- The current function's closure binds the name to `a`.
  pub record ClosureBinds (s : Environment P) (name : String) (a : ℕ) : Type 0 where
    pub function : ℕ
    pub names : ValueStore
    pub current : current_function P s ≡ some function
    pub known : find function s.closures ≡ some names
    pub binds : find name names ≡ some a

  -- What is found outside the blocks.
  pub data FoundOutside (s : Environment P) (name : String) (should_throw : Bool)
      (r : Result ((Option ℕ × Scope) × Environment P)) : Type 0 where
    closed :
        (a : ℕ)
        → ClosureBinds s name a
        → r ≡ ok ((some a, closure), s)
        → FoundOutside s name should_throw r
    everywhere :
        ((a : ℕ) → ClosureBinds s name a → ⊥)
        → (a : ℕ) → find name s.global_values ≡ some a
        → r ≡ ok ((some a, global), s)
        → FoundOutside s name should_throw r
    missing :
        ((a : ℕ) → ClosureBinds s name a → ⊥)
        → find name s.global_values ≡ none
        → r ≡ (if should_throw then err nil_dot else ok ((none, global), s))
        → FoundOutside s name should_throw r

  lookup_global-FoundOutside :
      (name : String) (should_throw : Bool) (s : Environment P)
      → ((a : ℕ) → ClosureBinds s name a → ⊥)
      → FoundOutside s name should_throw (lookup_global P name should_throw s)
  unfolding lookup_global
  lookup_global-FoundOutside name should_throw s open_name =
      elim (Option-cases (find name s.global_values)) [
        | inl e ↦ missing open_name e (rw (lookup_global, e))
        | inr (a, e) ↦ everywhere open_name a e (rw (lookup_global, e))
      ]

  lookup_outside-FoundOutside :
      (name : String) (should_throw : Bool) (s : Environment P)
      → FunctionAlive s
      → FoundOutside s name should_throw (lookup_outside P name should_throw s)
  unfolding lookup_outside
  lookup_outside-FoundOutside name should_throw s alive =
      elim (Option-cases (current_function P s)) [
        | inl e ↦
            rw (lookup_outside, e) (lookup_global-FoundOutside name should_throw s (λ a c. cc))
        | inr (f, e) ↦ elim (Option-cases (find f s.closures)) [
          | inl e' ↦ absurd (alive f e e')
          | inr (names, e') ↦ elim (Option-cases (find name names)) [
            | inl n ↦
                rw (lookup_outside, e, e', n)
                  (lookup_global-FoundOutside name should_throw s (λ a c. cc))
            | inr (a, b) ↦
                closed a
                  (record { function = f; names = names; current = e; known = e'; binds = b })
                  (rw (lookup_outside, e, e', b))
          ]
        ]
      ]

  -- The states differ at most in entries that `operator[]` adds: every name has the same bindings.
  pub record SameBindings (s s' : Environment P) : Type 0 where
    pub globals : s'.global_values ≡ s.global_values
    pub functions : s'.functions ≡ s.functions
    pub closures : s'.closures ≡ s.closures
    pub values : s'.values ≡ s.values
    pub blocks : s'.blocks ≡ s.blocks

  abbrev pub contexts_of : String → Environment P → List Block
  contexts_of name s = (get_context_for_local (current_block P s) name s.listener).0

  -- The answer for a name, and the state that is left.
  abbrev pub Looked :
      String → Bool → Environment P → Map Block ValueStore → List (Map Block ValueStore) → Type 0
  Looked name should_throw s top below =
      (s' : Environment P) × (top' : Map Block ValueStore) × SameBindings s s'
      × (s'.local_values ≡ top' ∷ below)
      × ((c : Block) → at [] c top' ≡ at [] c top)
      × (((a : ℕ) × LastBinds name top a (contexts_of name s)
            × (lookup_name P name should_throw s ≡ ok ((some a, local), s')))
          ⊎ (Unbound name top (contexts_of name s)
              × FoundOutside s' name should_throw (lookup_name P name should_throw s)))

  lookup_name-Looked :
      (name : String) (should_throw : Bool) (s : Environment P) (top : Map Block ValueStore)
      (below : List (Map Block ValueStore))
      → FunctionAlive s
      → Looked name should_throw (record s { local_values = top ∷ below }) top below
  unfolding lookup_name Searched current_function current_block
  lookup_name-Looked name should_throw s top below alive =
      let contexts = contexts_of name s in
      let found = search_blocks P name contexts top none in
      let s' = record s {
        listener = (get_context_for_local (current_block P s) name s.listener).1;
        local_values = found.1 ∷ below;
      } in
      let (r, kept) = search_blocks_cases name contexts top top none (λ c. refl) in
      (
        s',
        found.1,
        record { globals = refl; functions = refl; closures = refl; values = refl; blocks = refl },
        refl,
        kept,
        elim r [
          | inl (a, last, e) ↦ inl (a, last, rw (lookup_name, e))
          | inr (u, e) ↦
              inr (u, rw (lookup_name, e) (lookup_outside-FoundOutside name should_throw s' alive))
        ],
      )

  -- The lookup of a name, in a state with a current store of locals and whose current function, if
  -- any, is there. Of the blocks that the analyzer lists for the name in the current block, the last
  -- one that binds it gives the answer, as a local; if none binds it, the current function's closure
  -- does; and else the global store, where a name that is missing gives a null pointer, or throws
  -- NilDot if that is asked for. Whatever is found, no binding changes.
  pub lookup_name_lem :
      (name : String) (should_throw : Bool) (s : Environment P) (top : Map Block ValueStore)
      (below : List (Map Block ValueStore))
      → s.local_values ≡ top ∷ below
      → FunctionAlive s
      → Looked name should_throw s top below
  lookup_name_lem name should_throw s top below l alive =
      subst (λ lv. Looked name should_throw (record s { local_values = lv }) top below) (sym l)
        (lookup_name-Looked name should_throw s top below alive)
