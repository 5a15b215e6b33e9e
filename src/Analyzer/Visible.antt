-- ===== src/Analyzer/Visible.antt =====
-- What makes a goto legal, without the loops: the label stands ahead in the block, or in a block
-- around it, and no local is declared on the way to it there.
use luapp.Prelude.{
  String, List, [], ◌∷◌, ◌++◌, reverse, Bool, false, ◌≡◌, refl, ap, subst, ◌∙◌, ◌≢◌, ◌↔◌, ◌⊎◌, inl,
  inr, Result, ok, err, crossed_local, invisible_label, ◌>>=◌, arith, ◌==◌, eq_string, Bool-cases,
  if◌then◌else◌,
}
use mathlib.Core.List.{append-nil, append_assoc}
use text.Mathlib.TextEquality.{eq_iff}
use luapp.Analyzer.Scope.{Element, goto, label, local, block, locals}
use luapp.Analyzer.Validate.{scan_level, met_label, search_levels, validate_goto}

-- No element is the label `l`.
abbrev pub Absent : String → List Element → Type 0
Absent l [] = Unit
Absent l (label n ∷ es) = (n ≢ l) × Absent l es
Absent l (local n ∷ es) = Absent l es
Absent l (goto n ∷ es) = Absent l es
Absent l (block b ∷ es) = Absent l es

-- The label `l` stands among the elements, `before` is what precedes its first occurrence.
pub record FirstAt (l : String) (es before : List Element) : Type 0 where
  pub after : List Element
  pub split : es ≡ before ++ (label l ∷ after)
  pub absent : Absent l before

-- The label's first occurrence comes before every local.
pub record Reaches (l : String) (es : List Element) : Type 0 where
  pub before : List Element
  pub first : FirstAt l es before
  pub uncrossed : locals before ≡ []

-- Levels are listed from the innermost block outwards.
pub data Visible (l : String) : List (List Element) → Type 0 where
  here : {es : List Element} {levels : List (List Element)} → Reaches l es → Visible l (es ∷ levels)
  outside :
      {es : List Element} {levels : List (List Element)}
      → Absent l es
      → Visible l levels
      → Visible l (es ∷ levels)

-- The innermost block that holds the label ahead declares a local before it.
pub data Crossing (l : String) (names : List String) : List (List Element) → Type 0 where
  here :
      {es before : List Element} {levels : List (List Element)}
      → FirstAt l es before
      → locals before ≡ names
      → names ≢ []
      → Crossing l names (es ∷ levels)
  outside :
      {es : List Element} {levels : List (List Element)}
      → Absent l es
      → Crossing l names levels
      → Crossing l names (es ∷ levels)

abbrev pub AbsentAll : String → List (List Element) → Type 0
AbsentAll l [] = Unit
AbsentAll l (es ∷ levels) = Absent l es × AbsentAll l levels

module _ {l : String} {es before : List Element} where
  FirstAt-step :
      (e : Element) → Absent l (e ∷ []) → FirstAt l es before → FirstAt l (e ∷ es) (e ∷ before)
  FirstAt-step e h f = record {
    after = f.after;
    split = ap (λ r. e ∷ r) f.split;
    absent = absent_step e h f.absent;
  }
    where
      absent_step : (e : Element) → Absent l (e ∷ []) → Absent l before → Absent l (e ∷ before)
      absent_step (goto n) h a = a
      absent_step (label n) h a = (h.0, a)
      absent_step (local n) h a = a
      absent_step (block n) h a = a

-- What `scan_level` gives, by where the label stands first.
abbrev Scanned : String → List Element → List String → Result Bool → Type 0
Scanned l es crossed r =
    Absent l es × (r ≡ ok false)
    ⊎ ((before : List Element) × FirstAt l es before × (r ≡ met_label l (crossed ++ locals before)))

Scanned-step :
    {l : String} {es : List Element} {r : Result Bool} (crossed : List String) (e : Element)
    → Absent l (e ∷ [])
    → Scanned l es (crossed ++ locals (e ∷ [])) r
    → Scanned l (e ∷ es) crossed r
Scanned-step crossed (goto n) h (inl (a, p)) = inl (a, p)
Scanned-step crossed (label n) h (inl (a, p)) = inl ((h.0, a), p)
Scanned-step crossed (local n) h (inl (a, p)) = inl (a, p)
Scanned-step crossed (block n) h (inl (a, p)) = inl (a, p)
Scanned-step crossed (goto n) h (inr (b, f, p)) =
    inr (goto n ∷ b, FirstAt-step (goto n) h f, simp append-nil at p)
Scanned-step crossed (label n) h (inr (b, f, p)) =
    inr (label n ∷ b, FirstAt-step (label n) h f, simp append-nil at p)
Scanned-step crossed (local n) h (inr (b, f, p)) =
    inr (local n ∷ b, FirstAt-step (local n) h f, simp append_assoc at p)
Scanned-step crossed (block n) h (inr (b, f, p)) =
    inr (block n ∷ b, FirstAt-step (block n) h f, simp append-nil at p)

scan_level-Scanned :
    (l : String) (es : List Element) (crossed : List String)
    → Scanned l es crossed (scan_level l es crossed)
unfolding scan_level
scan_level-Scanned l [] crossed = inl (tt, refl)
scan_level-Scanned l (local n ∷ es) crossed =
    Scanned-step crossed (local n) tt (scan_level-Scanned l es (crossed ++ n ∷ []))
scan_level-Scanned l (goto n ∷ es) crossed =
    Scanned-step crossed (goto n) tt (rw append-nil (scan_level-Scanned l es crossed))
scan_level-Scanned l (block n ∷ es) crossed =
    Scanned-step crossed (block n) tt (rw append-nil (scan_level-Scanned l es crossed))
scan_level-Scanned l (label n ∷ es) crossed = elim (Bool-cases (n == l)) [
  | inl e ↦
      rw e
        (inr ([], record { after = es; split = rw ((eq_iff n l).0 e); absent = tt }, rw append-nil))
  | inr e ↦ rw e (
      Scanned-step crossed (label n) (λ p. cc ((eq_iff n l).1 p), tt)
        (rw append-nil (scan_level-Scanned l es crossed)))
]

abbrev Searched : String → List (List Element) → Result (Unit {0}) → Type 0
Searched l levels r =
    Visible l levels × (r ≡ ok tt)
    ⊎ AbsentAll l levels × (r ≡ err (invisible_label l))
    ⊎ ((names : List String) × Crossing l names levels × (r ≡ err (crossed_local l names)))

Searched-first :
    (l : String) {es before : List Element} (levels : List (List Element)) (names : List String)
    → FirstAt l es before
    → locals before ≡ names
    → {r : Result Bool} (outer : Result (Unit {0})) → r ≡ met_label l names
    → Searched l (es ∷ levels) (r >>= λ found. if found then ok tt else outer)
Searched-first l levels [] f e outer p =
    inl (here (record { before = _; first = f; uncrossed = e }), rw p)
Searched-first l levels (n ∷ ns) f e outer p = inr (inr (n ∷ ns, here f e (λ q. cc q), rw p))

search_levels-Searched :
    (l : String) (levels : List (List Element)) → Searched l levels (search_levels l levels)
unfolding search_levels
search_levels-Searched l [] = inr (inl (tt, refl))
search_levels-Searched l (es ∷ levels) = elim (scan_level-Scanned l es []) [
  | inl (a, p) ↦ rw p (elim (search_levels-Searched l levels) [
    | inl (v, q) ↦ inl (outside a v, q)
    | inr (inl (v, q)) ↦ inr (inl ((a, v), q))
    | inr (inr (names, v, q)) ↦ inr (inr (names, outside a v, q))
  ])
  | inr (b, f, p) ↦ Searched-first l levels (locals b) f refl (search_levels l levels) p
]

scan_level-Absent :
    (l : String) (es : List Element) (crossed : List String)
    → Absent l es
    → scan_level l es crossed ≡ ok false
unfolding scan_level
scan_level-Absent l [] crossed a = refl
scan_level-Absent l (local n ∷ es) crossed a = scan_level-Absent l es (crossed ++ n ∷ []) a
scan_level-Absent l (goto n ∷ es) crossed a = scan_level-Absent l es crossed a
scan_level-Absent l (block n ∷ es) crossed a = scan_level-Absent l es crossed a
scan_level-Absent l (label n ∷ es) crossed a =
    ground (arith, eq_iff n l, scan_level-Absent l es crossed a.1)

scan_level-first :
    (l : String) (before after : List Element) (crossed : List String)
    → Absent l before
    → scan_level l (before ++ (label l ∷ after)) crossed ≡ met_label l (crossed ++ locals before)
unfolding scan_level
scan_level-first l [] after crossed a = rw ((eq_iff l l).1 refl, append-nil)
scan_level-first l (local n ∷ es) after crossed a =
    scan_level-first l es after (crossed ++ n ∷ []) a ∙ rw append_assoc
scan_level-first l (goto n ∷ es) after crossed a = scan_level-first l es after crossed a
scan_level-first l (block n ∷ es) after crossed a = scan_level-first l es after crossed a
scan_level-first l (label n ∷ es) after crossed a =
    ground (arith, eq_iff n l, scan_level-first l es after crossed a.1)

scan_level-FirstAt :
    {l : String} {es before : List Element}
    → FirstAt l es before
    → scan_level l es [] ≡ met_label l (locals before)
scan_level-FirstAt {l} {before} f = rw f.split (scan_level-first l before f.after [] f.absent)

search_levels-Visible :
    {l : String} {levels : List (List Element)} → Visible l levels → search_levels l levels ≡ ok tt
unfolding search_levels
search_levels-Visible (here r) = rw (scan_level-FirstAt r.first, r.uncrossed)
search_levels-Visible (outside {es} a v) =
    rw (scan_level-Absent _ es [] a) (search_levels-Visible v)

search_levels-Crossing :
    {l : String} (names : List String) {levels : List (List Element)}
    → Crossing l names levels
    → search_levels l levels ≡ err (crossed_local l names)
unfolding search_levels
search_levels-Crossing [] (here f e ne) = absurd (ne refl)
search_levels-Crossing (n ∷ ns) (here f e ne) = rw (scan_level-FirstAt f, e)
search_levels-Crossing names (outside {es} a v) =
    rw (scan_level-Absent _ es [] a) (search_levels-Crossing names v)

search_levels-AbsentAll :
    (l : String) (levels : List (List Element))
    → AbsentAll l levels
    → search_levels l levels ≡ err (invisible_label l)
unfolding search_levels
search_levels-AbsentAll l [] a = refl
search_levels-AbsentAll l (es ∷ levels) a =
    rw (scan_level-Absent l es [] a.0) (search_levels-AbsentAll l levels a.1)

module _ (levels : List (List Element)) (l : String) where
  -- The search of a goto's label, over the elements still ahead in the goto's block and in each
  -- block around it (`reverse`, since the list has the innermost last): it succeeds exactly when the
  -- nearest block that holds the label ahead declares no local before it; it throws CrossedLocal
  -- with exactly the locals that stand before the label there; and it throws InvisibleLabel exactly
  -- when the label stands ahead in no block.
  pub validate_goto_lem :
      ((validate_goto levels l ≡ ok tt) ↔ Visible l (reverse levels))
      × ((names : List String)
          → (validate_goto levels l ≡ err (crossed_local l names))
            ↔ Crossing l names (reverse levels))
      × ((validate_goto levels l ≡ err (invisible_label l)) ↔ AbsentAll l (reverse levels))
  unfolding validate_goto
  validate_goto_lem = elim (search_levels-Searched l (reverse levels)) [
    | inl (v, p) ↦ (
      (λ _. v, λ _. p),
      λ names. (λ q. cc, λ c. search_levels-Crossing names c),
      (λ q. cc, λ a. search_levels-AbsentAll l (reverse levels) a),
    )
    | inr (inl (a, p)) ↦ (
      (λ q. cc, λ v. search_levels-Visible v),
      λ names. (λ q. cc, λ c. search_levels-Crossing names c),
      (λ _. a, λ _. p),
    )
    | inr (inr (found, c, p)) ↦ (
      (λ q. cc, λ v. search_levels-Visible v),
      λ names. (
        λ q. subst (λ x. Crossing l x (reverse levels)) (cc) c,
        λ d. search_levels-Crossing names d,
      ),
      (λ q. cc, λ a. search_levels-AbsentAll l (reverse levels) a),
    )
  ]
