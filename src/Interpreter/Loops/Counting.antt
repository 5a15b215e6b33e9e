-- ===== src/Interpreter/Loops/Counting.antt =====
-- interpreter.cpp: how many rounds a numeric `for` with an int counter and the step 1 runs.
use luapp.Prelude.{
  ℕ, zero, suc, ◌+◌, ◌≤◌, ◌^◌, true, false, some, leb, from_suc, arith, ok, ◌≡◌, refl, inl, inr,
}
use luapp.Prelude.Int.{ℤ, pos, ◌+ℤ◌}
use luapp.Types.Platform.{Platform, as_int}
use luapp.Types.Value.{LuaValue, int}
use luapp.Types.Var.{object, get, deref}
use luapp.Interpreter.Environment.{Environment}
use luapp.Interpreter.Machine.{
  done, Outcome-cases, ◌>>=◌, ◌>>◌, give, attempt, M, heap, read, write,
}
use luapp.Interpreter.Machine.Storage.{write-Stored}
use luapp.Interpreter.Loops.{int_rounds}

next-fits : (i : ℕ) → i + 2 ≤ 2 ^ 31 → as_int (pos i +ℤ pos 1) ≡ ok (pos (suc i))
unfolding as_int ◌+ℤ◌
next-fits i h = ground (arith, h)

module _ (P : Platform) (a n : ℕ) (limit : P.Double) (round : M P (Unit {0})) where
  open P use {of_int, le}

  -- The rounds as `k` copies of the body, each followed by the count.
  unfoldable pub counted : ℕ → ℕ → M P (Unit {0})
  counted zero i = give tt
  counted (suc k) i =
      round >> (attempt (write P (object a) (int (pos (suc i)))) >> counted k (suc i))

  -- From the states of `I`, which a store to the counter does not leave, a round that returns leaves
  -- the counter's object as it is, and ends in such a state.
  abbrev pub KeepsCounter : (Environment P → Type 0) → Type 0
  KeepsCounter I =
      ((v : LuaValue P.Double) (s s' : Environment P)
        → I s
        → round s ≡ done tt s'
        → heap P s (object a) ≡ some v
        → (heap P s' (object a) ≡ some v) × I s')
      × ((i : ℤ) (s s' : Environment P) → I s → write P (object a) (int i) s ≡ ok s' → I s')

  -- `limit` is the number `n`, as far as the counter is compared with it.
  abbrev pub IsLimit : Type 0
  IsLimit = (i : ℕ) → le (of_int (pos i)) limit ≡ leb i n

  module _ (in_range : n + 2 ≤ 2 ^ 31) (is_limit : IsLimit) (I : Environment P → Type 0)
      (keeps : KeepsCounter I) where
    -- With the step 1, a limit that is the number `n` with `n + 2 ≤ 2 ^ 31`, and rounds that, in the
    -- states that the loop comes to, leave the counter's object as it is: the loop from `i`, at most
    -- `suc n`, with enough fuel runs the round `suc n - i` times, with the counter `i`, `suc i` and so
    -- on, and ends; if a round throws, it throws then and there.
    pub int_rounds-counted :
        (k i : ℕ) (s : Environment P)
        → i + k ≡ suc n
        → I s
        → heap P s (object a) ≡ some (int (pos i))
        → (fuel : ℕ) → suc k ≤ fuel
        → int_rounds P fuel a limit (ok (pos 1)) round (pos i) s ≡ counted k i s
    unfolding int_rounds counted get deref
    int_rounds-counted zero i s e is_state h = from_suc _ 0 λ m _.
        let past : leb i n ≡ false = (ground (arith, e)) in
        rw (int_rounds, read, ◌>>=◌, get, deref, h, is_limit i, past) refl
    int_rounds-counted (suc k) i s e is_state h = from_suc _ (suc k) λ m fuel_left.
        let below : leb i n ≡ true = (ground (arith, e)) in
        elim (Outcome-cases (round s)) [
          | inr (x, s₁, q) ↦
              rw (int_rounds, read, ◌>>=◌, ◌>>◌, get, deref, h, is_limit i, below, counted, q) refl
          | inl (u, s₁, q) ↦
              let (s₂, w, st) =
                write-Stored P a (int (pos (suc i))) (int (pos i)) s₁
                  (keeps.0 (int (pos i)) s s₁ is_state q h).0 in
              let fits : as_int (pos i +ℤ pos 1) ≡ ok (pos (suc i)) =
                next-fits i (omega (arith, e, in_range)) in
              rw
                (
                  int_rounds,
                  read,
                  ◌>>=◌,
                  ◌>>◌,
                  get,
                  deref,
                  h,
                  is_limit i,
                  below,
                  counted,
                  q,
                  fits,
                  w,
                )
                (int_rounds-counted k (suc i) s₂ (omega (arith, e))
                  (keeps.1 (pos (suc i)) s₁ s₂ (keeps.0 (int (pos i)) s s₁ is_state q h).1 w)
                  st.stored m fuel_left)
        ]
