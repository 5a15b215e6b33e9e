-- ===== src/Analyzer/Labels.antt =====
-- `validate_labels`: a label is declared once in a block.
use luapp.Prelude.{
  In-append_cases, ℕ, zero, suc, ◌≤◌, ◌<◌, String, List, [], ◌∷◌, ◌++◌, false, some, ◌≡◌, refl, sym,
  subst, ◌⊎◌, ◌↔◌, inl, inr, Result, ok, err, label_already_defined, ◌>>=◌, In, In-append_left,
  In-append_right, elem, elem_iff, arith, eq_nat, eq_string, Bool-cases,
}
use luapp.Prelude.Map.{find}
use luapp.Analyzer.Scope.{Block, Element, Scope}
use luapp.Analyzer.Validate.{label_elements, validate_labels}
use luapp.Analyzer.Explore.{
  Tree, done, goto_then, label_then, local_then, block_then, elements, depth, Holds,
}

-- The labels that a block declares itself, in order.
abbrev pub own_labels : Tree → List String
own_labels done = []
own_labels (goto_then l t) = own_labels t
own_labels (label_then l t) = l ∷ own_labels t
own_labels (local_then n t) = own_labels t
own_labels (block_then b inside t) = own_labels t

abbrev pub Distinct : List String → Type 0
Distinct [] = Unit
Distinct (l ∷ ls) = (In l ls → ⊥) × Distinct ls

-- Of every block inside the tree, the labels are distinct.
abbrev pub InsideDistinct : Tree → Type 0
InsideDistinct done = Unit
InsideDistinct (goto_then l t) = InsideDistinct t
InsideDistinct (label_then l t) = InsideDistinct t
InsideDistinct (local_then n t) = InsideDistinct t
InsideDistinct (block_then b inside t) =
    Distinct (own_labels inside) × InsideDistinct inside × InsideDistinct t

-- The blocks inside the tree.
abbrev pub blocks : Tree → List Block
blocks done = []
blocks (goto_then l t) = blocks t
blocks (label_then l t) = blocks t
blocks (local_then n t) = blocks t
blocks (block_then b inside t) = b ∷ (blocks inside ++ blocks t)

-- A block stands in one place of the tree.
abbrev pub Once : Tree → Type 0
Once done = Unit
Once (goto_then l t) = Once t
Once (label_then l t) = Once t
Once (local_then n t) = Once t
Once (block_then b inside t) =
    (In b (blocks inside) → ⊥)
    × (In b (blocks t) → ⊥)
    × ((c : Block) → In c (blocks inside) → In c (blocks t) → ⊥)
    × Once inside
    × Once t

abbrev pub Apart : List Block → List Block → Type 0
Apart bs cs = (b : Block) → In b bs → In b cs → ⊥

-- The same with the labels already met in the block, as the loop goes.
abbrev NoClash : Tree → List String → Type 0
NoClash done met = Unit
NoClash (goto_then l t) met = NoClash t met
NoClash (label_then l t) met = (In l met → ⊥) × NoClash t (l ∷ met)
NoClash (local_then n t) met = NoClash t met
NoClash (block_then b inside t) met = NoClash inside [] × NoClash t met

NoClash-sound :
    (t : Tree) (met : List String)
    → NoClash t met
    → Distinct (own_labels t)
      × ((l : String) → In l (own_labels t) → In l met → ⊥)
      × InsideDistinct t
NoClash-sound done met h = (tt, λ l m n. m, tt)
NoClash-sound (goto_then l t) met h = NoClash-sound t met h
NoClash-sound (local_then l t) met h = NoClash-sound t met h
NoClash-sound (block_then b inside t) met h =
    let (d, apart, rest) = NoClash-sound t met h.1 in
    let (d', _, rest') = NoClash-sound inside [] h.0 in (d, apart, (d', rest', rest))
NoClash-sound (label_then l t) met h =
    let (d, apart, rest) = NoClash-sound t (l ∷ met) h.1 in
    (
      (λ m. apart l m (inl refl), d),
      λ k. elim [
        | inl e ↦ λ n. h.0 (subst (λ x. In x met) (sym e) n)
        | inr m ↦ λ n. apart k m (inr n)
      ],
      rest,
    )

NoClash-complete :
    (t : Tree) (met : List String)
    → Distinct (own_labels t)
    → ((l : String) → In l (own_labels t) → In l met → ⊥)
    → InsideDistinct t
    → NoClash t met
NoClash-complete done met d apart i = tt
NoClash-complete (goto_then l t) met d apart i = NoClash-complete t met d apart i
NoClash-complete (local_then l t) met d apart i = NoClash-complete t met d apart i
NoClash-complete (block_then b inside t) met d apart i =
    (NoClash-complete inside [] i.0 (λ l m n. n) i.1, NoClash-complete t met d apart i.2)
NoClash-complete (label_then l t) met d apart i = (
  apart l (inl refl),
  NoClash-complete t (l ∷ met) d.1
      (λ k m. elim [
        | inl e ↦ d.0 (subst (λ x. In x (own_labels t)) (sym e) m)
        | inr n ↦ apart k (inr m) n
      ])
      i,
)

-- What the loop gives: it passes and adds just the tree's blocks to the set, or it meets a clash.
abbrev Outcome : Tree → List String → List Block → Result (List Block) → Type 0
Outcome t met seen r =
    ((seen' : List Block) × (r ≡ ok seen')
      × ((b : Block) → In b seen' ↔ (In b seen ⊎ In b (blocks t)))
      × NoClash t met)
    ⊎ ((l : String) × (r ≡ err (label_already_defined l)) × (NoClash t met → ⊥))

module _ (scope : Scope) where
  validate_labels-found :
      (fuel : ℕ) (ctx : Block) {es : List Element} (seen : List Block)
      → find ctx scope.scope_elements ≡ some es
      → validate_labels (suc fuel) scope ctx seen
        ≡ label_elements (validate_labels fuel scope) es [] (ctx ∷ seen)
  unfolding validate_labels
  validate_labels-found fuel ctx seen e = rw (e, validate_labels)

Outcome-label :
    (l : String) (t : Tree) (met : List String) (seen : List Block) {r : Result (List Block)}
    → (In l met → ⊥)
    → Outcome t (l ∷ met) seen r
    → Outcome (label_then l t) met seen r
Outcome-label l t met seen new (inl (s, e, sub, h)) = inl (s, e, sub, (new, h))
Outcome-label l t met seen new (inr (k, e, bad)) = inr (k, e, λ h. bad h.1)

-- The set after the blocks inside `b`, from which the loop goes on with the rest.
abbrev Added : Block → Tree → List Block → List Block → Type 0
Added b inside seen s = (c : Block) → In c s ↔ (In c (b ∷ seen) ⊎ In c (blocks inside))

added :
    (b : Block) (inside t : Tree) (seen s : List Block)
    → Added b inside seen s
    → (c : Block) → In c s
    → In c seen ⊎ In c (blocks (block_then b inside t))
added b inside t seen s sub c m = elim ((sub c).0 m) [
  | inl (inl e) ↦ inr (inl e)
  | inl (inr old) ↦ inl old
  | inr new ↦ inr (inr (In-append_left c (blocks inside) (blocks t) new))
]

-- The other way: what was seen, and every block of the tree, is in the set at the end.
Added-complete :
    (b : Block) (inside t : Tree) (seen s s' : List Block)
    → Added b inside seen s
    → ((c : Block) → In c s' ↔ (In c s ⊎ In c (blocks t)))
    → (c : Block) → In c seen ⊎ In c (blocks (block_then b inside t))
    → In c s'
Added-complete b inside t seen s s' sub sub' c (inl old) =
    (sub' c).1 (inl ((sub c).1 (inl (inr old))))
Added-complete b inside t seen s s' sub sub' c (inr (inl e)) =
    (sub' c).1 (inl ((sub c).1 (inl (inl e))))
Added-complete b inside t seen s s' sub sub' c (inr (inr m)) =
    elim (In-append_cases c (blocks inside) (blocks t) m) [
      | inl n ↦ (sub' c).1 (inl ((sub c).1 (inr n)))
      | inr n ↦ (sub' c).1 (inr n)
    ]

Outcome-block :
    (b : Block) (inside t : Tree) (met : List String) (seen : List Block) {r : Result (List Block)}
    (k : List Block → Result (List Block))
    → Outcome inside [] (b ∷ seen) r
    → ((s : List Block) → Added b inside seen s → Outcome t met s (k s))
    → Outcome (block_then b inside t) met seen (r >>= k)
Outcome-block b inside t met seen k (inr (l, e, bad)) rest = inr (l, rw e, λ h. bad h.0)
Outcome-block b inside t met seen k (inl (s, e, sub, h)) rest = rw e (elim (rest s sub) [
  | inr (l, e', bad) ↦ inr (l, e', λ g. bad g.1)
  | inl (s', e', sub', g) ↦ inl (
    s',
    e',
    λ c. (
      λ m. elim ((sub' c).0 m) [
        | inl old ↦ added b inside t seen s sub c old
        | inr new ↦ inr (inr (In-append_right c (blocks inside) (blocks t) new))
      ],
      Added-complete b inside t seen s s' sub sub' c,
    ),
    (h, g),
  )
])

module _ (scope : Scope) where
  label_elements-Outcome :
      (t : Tree) (fuel : ℕ) (met : List String) (seen : List Block)
      → Holds scope.scope_elements t
      → depth t ≤ fuel
      → Once t
      → Apart (blocks t) seen
      → Outcome t met seen (label_elements (validate_labels fuel scope) (elements t) met seen)
  unfolding label_elements
  label_elements-Outcome done fuel met seen h le once apart =
      inl (seen, refl, λ b. (λ m. inl m, elim [ inl m ↦ m | inr n ↦ absurd n ]), tt)
  label_elements-Outcome (goto_then l t) fuel met seen h le once apart =
      label_elements-Outcome t fuel met seen h le once apart
  label_elements-Outcome (local_then l t) fuel met seen h le once apart =
      label_elements-Outcome t fuel met seen h le once apart
  label_elements-Outcome (label_then l t) fuel met seen h le once apart =
      let ih = label_elements-Outcome t fuel (l ∷ met) seen h le once apart in
      elim (Bool-cases (elem l met)) [
        | inl e ↦ rw e (inr (l, refl, λ g. g.0 ((elem_iff l met).0 e)))
        | inr e ↦ rw e (Outcome-label l t met seen (λ m. cc ((elem_iff l met).1 m)) ih)
      ]
  label_elements-Outcome (block_then b inside t) zero met seen h le once apart =
      absurd (omega arith)
  label_elements-Outcome (block_then b inside t) (suc fuel) met seen h le once apart =
      let ih = label_elements-Outcome inside fuel [] (b ∷ seen) h.1 (omega arith) once.3 (λ c m.
        elim [
          | inl e ↦ once.0 (subst (λ x. In x (blocks inside)) (sym e) m)
          | inr n ↦ apart c (inr (In-append_left c (blocks inside) (blocks t) m)) n
        ]) in
      let new : elem b seen ≡ false = elim (Bool-cases (elem b seen)) [
        | inl e ↦ absurd (apart b (inl refl) ((elem_iff b seen).0 e))
        | inr e ↦ e
      ] in
      rw (new, validate_labels-found scope fuel b seen h.0)
        (Outcome-block b inside t met seen
          (label_elements (validate_labels (suc fuel) scope) (elements t) met) ih
          (λ s sub. label_elements-Outcome t (suc fuel) met s h.2 (omega arith) once.4 (λ c m n.
            elim ((sub c).0 n) [
              | inl (inl e) ↦ once.1 (subst (λ x. In x (blocks t)) (sym e) m)
              | inl (inr old) ↦ apart c (inr (In-append_right c (blocks inside) (blocks t) m)) old
              | inr new ↦ once.2 c new m
            ])))

  -- The check of labels over a scope whose map stands for the tree `t`, whose blocks are distinct
  -- and not yet seen, with fuel above the tree's depth: it returns exactly when in the scope's root
  -- block, and in every block inside, no label is declared twice. Otherwise it throws
  -- LabelAlreadyDefined. When it returns, the blocks it has seen are just those seen before, the root
  -- block and every block of the tree.
  pub validate_labels_lem :
      (ctx : Block) (t : Tree) (fuel : ℕ) (seen : List Block)
      → find ctx scope.scope_elements ≡ some (elements t)
      → Holds scope.scope_elements t
      → depth t < fuel
      → Once t
      → Apart (blocks t) (ctx ∷ seen)
      → ((seen' : List Block) × (validate_labels fuel scope ctx seen ≡ ok seen')
          × ((b : Block) → In b seen' ↔ (In b (ctx ∷ seen) ⊎ In b (blocks t)))
          × Distinct (own_labels t)
          × InsideDistinct t)
        ⊎ ((l : String) × (validate_labels fuel scope ctx seen ≡ err (label_already_defined l))
            × (Distinct (own_labels t) × InsideDistinct t → ⊥))
  validate_labels_lem ctx t zero seen e h lt once apart = absurd (omega arith)
  validate_labels_lem ctx t (suc fuel) seen e h lt once apart =
      rw (validate_labels-found scope fuel ctx seen e)
        (elim (label_elements-Outcome t fuel [] (ctx ∷ seen) h (omega arith) once apart) [
          | inl (s, p, sub, g) ↦ let (d, _, i) = NoClash-sound t [] g in inl (s, p, sub, d, i)
          | inr (l, p, bad) ↦ inr (l, p, λ (d, i). bad (NoClash-complete t [] d (λ k m n. n) i))
        ])
