-- ===== src/Types/Table/Border.antt =====
-- types.cpp: `Table::border`, the length operator of a table.
use luapp.Prelude.{
  ℕ, zero, suc, ◌-◌, ◌≤◌, ◌<◌, List, [], ◌∷◌, Option, none, some, nat_eq, ltb, if◌then◌else◌, ◌≡◌,
  ◌≢◌, ◌↔◌, ◌⊎◌, inl, inr, refl, arith, All, In, Bool-cases,
}
use native.Mathlib.Decide.{dec_le}
use luapp.Prelude.Int.{ℤ, pos, negsuc}
use luapp.Prelude.Map.{Map, find}
use luapp.Types.Platform.{Platform}
use luapp.Types.Table.{Table, eq_int}

-- The filter of `border`: the keys above 0.
unfoldable pub positive_keys : {V : Type 0} → Map ℤ V → List ℕ
positive_keys [] = []
positive_keys ((pos zero, v) ∷ m) = positive_keys m
positive_keys ((pos (suc n), v) ∷ m) = suc n ∷ positive_keys m
positive_keys ((negsuc n, v) ∷ m) = positive_keys m

-- A std::set as the ascending list of its members.
unfoldable pub set_insert : ℕ → List ℕ → List ℕ
set_insert k [] = k ∷ []
set_insert k (j ∷ js) =
    let later = set_insert k js in
    if ltb k j then k ∷ j ∷ js else (if nat_eq k j then j ∷ js else j ∷ later)

unfoldable pub set_of : List ℕ → List ℕ
set_of [] = []
set_of (k ∷ ks) = set_insert k (set_of ks)

-- The loop over the set: the first key whose successor is not the next key.
unfoldable pub border_loop : List ℕ → ℕ
border_loop [] = 0
border_loop (k ∷ []) = k
border_loop (k ∷ j ∷ js) = let later = border_loop (j ∷ js) in if nat_eq k (j - 1) then later else k

unfoldable pub border : {P : Platform} → Table P → ℕ
border t = border_loop (set_of (positive_keys t.int_fields))

abbrev Ascending : List ℕ → Type 0
Ascending [] = Unit
Ascending (k ∷ ks) = All (λ j. k < j) ks × Ascending ks

All-set_insert :
    (l k : ℕ) (ks : List ℕ) → l < k → All (λ j. l < j) ks → All (λ j. l < j) (set_insert k ks)
unfolding set_insert
All-set_insert l k [] lt h = (lt, tt)
All-set_insert l k (j ∷ js) lt h = ground (arith, All-set_insert l k js lt h.1)

All-lt_trans : (l k : ℕ) (ks : List ℕ) → l < k → All (λ j. k < j) ks → All (λ j. l < j) ks
All-lt_trans l k [] lt h = tt
All-lt_trans l k (j ∷ js) lt h = (omega arith, All-lt_trans l k js lt h.1)

set_insert-Ascending : (k : ℕ) (ks : List ℕ) → Ascending ks → Ascending (set_insert k ks)
unfolding set_insert
set_insert-Ascending k [] h = (tt, tt)
set_insert-Ascending k (j ∷ js) h = elim (Bool-cases (ltb k j)) [
  | inl e ↦ rw e ((ground arith, All-lt_trans k j js (ground arith) h.0), h)
  | inr e ↦ rw e (elim (Bool-cases (nat_eq k j)) [
    | inl e' ↦ rw e' h
    | inr e' ↦ rw e' (All-set_insert j k js (ground arith) h.0, set_insert-Ascending k js h.1)
  ])
]

set_of-Ascending : (ks : List ℕ) → Ascending (set_of ks)
unfolding set_of
set_of-Ascending [] = tt
set_of-Ascending (k ∷ ks) = set_insert-Ascending k (set_of ks) (set_of-Ascending ks)

In-set_insert : (n k : ℕ) (ks : List ℕ) → In n (set_insert k ks) ↔ ((k ≡ n) ⊎ In n ks)
unfolding set_insert
In-set_insert n k [] = (λ h. h, λ h. h)
In-set_insert n k (j ∷ js) = ground (arith, In-set_insert n k js)

In-set_of : (n : ℕ) (ks : List ℕ) → In n (set_of ks) ↔ In n ks
unfolding set_of
In-set_of n [] = (λ h. h, λ h. h)
In-set_of n (k ∷ ks) = ground (arith, In-set_insert n k (set_of ks), In-set_of n ks)

In-positive_keys :
    {V : Type 0} (n : ℕ) (m : Map ℤ V)
    → In n (positive_keys m) ↔ ((0 < n) × (find (pos n) m ≢ none))
unfolding positive_keys find
In-positive_keys n [] = (λ h. absurd h, λ h. h.1 refl)
In-positive_keys n ((pos zero, v) ∷ m) = ground (arith, In-positive_keys n m)
In-positive_keys n ((pos (suc k), v) ∷ m) = ground (arith, In-positive_keys n m)
In-positive_keys n ((negsuc k, v) ∷ m) = In-positive_keys n m

-- The first run of successive keys in an ascending list: from its head up to the border.
record FirstRun (k : ℕ) (ks : List ℕ) (b : ℕ) : Type 0 where
  member : In b (k ∷ ks)
  above : k ≤ b
  ends : In (suc b) (k ∷ ks) → ⊥
  full : (n : ℕ) → k ≤ n → n ≤ b → In n (k ∷ ks)

border_loop-two :
    (k j : ℕ) (js : List ℕ)
    → border_loop (k ∷ j ∷ js) ≡ (if nat_eq k (j - 1) then border_loop (j ∷ js) else k)
unfolding border_loop
border_loop-two k j js = refl

border_loop-one : (k : ℕ) → border_loop (k ∷ []) ≡ k
unfolding border_loop
border_loop-one k = refl

not-In_below : (n : ℕ) (ks : List ℕ) → All (λ j. n < j) ks → (m : ℕ) → m ≤ n → In m ks → ⊥
not-In_below n [] h m le i = i
not-In_below n (k ∷ ks) h m le (inl e) = omega arith
not-In_below n (k ∷ ks) h m le (inr i) = not-In_below n ks h.1 m le i

border_loop-FirstRun :
    (k : ℕ) (ks : List ℕ) → 0 < k → Ascending (k ∷ ks) → FirstRun k ks (border_loop (k ∷ ks))
border_loop-FirstRun k [] lt h = rw border_loop-one (record {
  member = inl refl;
  above = omega arith;
  ends = elim [ inl e ↦ omega arith | inr i ↦ i ];
  full = λ n le ge. inl (omega arith);
})
border_loop-FirstRun k (j ∷ js) lt h =
    let ih = border_loop-FirstRun j js (omega (arith, h.0.0)) h.1 in
    elim (Bool-cases (nat_eq k (j - 1))) [
      | inl e ↦
          let next : j ≡ suc k = ground (arith, h.0.0) in
          rw (border_loop-two, e)
            (record {
              member = (inr ih.member);
              above = (omega (arith, ih.above));
              ends = (elim [ inl q ↦ omega (arith, ih.above) | inr i ↦ ih.ends i ]);
              full = (λ n le ge. elim (dec_le n k) [
                | yes p ↦ inl (omega arith)
                | no p ↦ inr (ih.full n (omega arith) ge)
              ]);
            })
      | inr e ↦
          let gap : suc k < j = ground (arith, h.0.0) in
          rw (border_loop-two, e)
            (record {
              member = (inl refl);
              above = (omega arith);
              ends = (elim [
                | inl q ↦ omega arith
                | inr (inl q) ↦ omega arith
                | inr (inr i) ↦ not-In_below j js h.1.0 (suc k) (omega arith) i
              ]);
              full = (λ n le ge. inl (omega arith));
            })
    ]

-- `b` is the end of the first run of numbers above 0 that `held` has an entry for, or 0.
pub record IsBorder {V : Type 0} (held : ℕ → Option V) (b : ℕ) : Type 0 where
  pub zero_iff : (b ≡ 0) ↔ ((n : ℕ) → 0 < n → held n ≡ none)
  pub key : 0 < b → held b ≢ none
  pub free : held (suc b) ≡ none
  pub run : (m n : ℕ) → 0 < m → held m ≢ none → m ≤ n → n ≤ b → held n ≢ none

none_of {ℓ} : {A : Type ℓ} (o : Option A) → (o ≢ none → ⊥) → o ≡ none
none_of none h = refl
none_of (some a) h = absurd (h (λ e. cc))

module _ {V : Type 0} (held : ℕ → Option V) where
  abbrev Lists : List ℕ → Type 0
  Lists ks = (n : ℕ) → In n ks ↔ ((0 < n) × (held n ≢ none))

  border_loop-IsBorder : (ks : List ℕ) → Ascending ks → Lists ks → IsBorder held (border_loop ks)
  unfolding border_loop
  border_loop-IsBorder [] asc lists = record {
    zero_iff = (λ _ n lt. none_of (held n) (λ h. (lists n).1 (lt, h)), λ _. refl);
    key = λ lt. absurd (omega arith);
    free = none_of (held 1) (λ h. (lists 1).1 (omega arith, h));
    run = λ m n lt h le ge. absurd ((lists m).1 (lt, h));
  }
  border_loop-IsBorder (k ∷ ks) asc lists =
      let k_key = (lists k).0 (inl refl) in
      let r = border_loop-FirstRun k ks k_key.0 asc in
      record {
        zero_iff =
            (λ e. absurd (omega (arith, k_key.0, r.above)), λ h. absurd (k_key.1 (h k k_key.0)));
        key = λ lt. ((lists (border_loop (k ∷ ks))).0 r.member).1;
        free =
            none_of (held (suc (border_loop (k ∷ ks))))
              (λ h. r.ends ((lists _).1 (omega arith, h)));
        run = λ m n lt h le ge. ((lists n).0 (r.full n (least m ((lists m).1 (lt, h)) le) ge)).1;
      }
    where
      least : (m : ℕ) {n : ℕ} → In m (k ∷ ks) → m ≤ n → k ≤ n
      least m (inl e) le = omega arith
      least m {n} (inr i) le = elim (dec_le k n) [
        | yes p ↦ p
        | no p ↦ absurd (not-In_below k ks asc.0 m (omega arith) i)
      ]

module _ {P : Platform} (t : Table P) where
  member-keys :
      (n : ℕ)
      → In n (set_of (positive_keys t.int_fields)) ↔ ((0 < n) × (find (pos n) t.int_fields ≢ none))
  member-keys n =
      let a = In-set_of n (positive_keys t.int_fields) in
      let b = In-positive_keys n t.int_fields in (λ i. b.0 (a.0 i), λ h. a.1 (b.1 h))

  -- The length operator: with no integer key above 0 it gives 0; otherwise it gives the end of the
  -- first run of integer keys above 0, so that its result is such a key and the next number is none,
  -- and from any key above 0 up to the result there is no gap.
  pub border_lem : IsBorder (λ n. find (pos n) t.int_fields) (border t)
  unfolding border
  border_lem =
      border_loop-IsBorder (λ n. find (pos n) t.int_fields) (set_of (positive_keys t.int_fields))
        (set_of-Ascending (positive_keys t.int_fields)) member-keys
