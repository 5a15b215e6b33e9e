-- ===== src/Analyzer/Walk/Post.antt =====
-- Postconditions of the callbacks: a property of the state that they leave, and what they may throw.
use luapp.Prelude.{
  ℕ, Option, none, some, Bool, true, false, eq_nat, if◌then◌else◌, ◌≡◌, refl, ◌∙◌, Result, ok, err,
  Error, undefined, lonely_break, ◌>>=◌,
}
use luapp.Analyzer.State.{Analyzer}
use luapp.Analyzer.Listener.{deref}
use luapp.Analyzer.Walk.{SameStacks}

-- What a callback may throw: a break outside every loop; or a null pointer is followed, or the top
-- of an empty stack read.
pub data IsListenerError : Error → Type 0 where
  lonely : (line : ℕ) → IsListenerError (lonely_break line)
  fault : IsListenerError undefined

pub data Post (P : Analyzer → Type 0) : Result Analyzer → Type 0 where
  returns : {s : Analyzer} → P s → Post P (ok s)
  throws : {e : Error} → IsListenerError e → Post P (err e)

module _ {P Q : Analyzer → Type 0} where
  pub Post-map : {r : Result Analyzer} → ((s : Analyzer) → P s → Q s) → Post P r → Post Q r
  Post-map f (returns h) = returns (f _ h)
  Post-map f (throws h) = throws h

  pub Post-bind :
      {r : Result Analyzer} {k : Analyzer → Result Analyzer}
      → Post P r
      → ((s : Analyzer) → P s → Post Q (k s))
      → Post Q (r >>= k)
  Post-bind (returns h) f = f _ h
  Post-bind (throws h) f = throws h

module _ {Q : Analyzer → Type 0} where
  pub Post-deref :
      {A : Type 0} (o : Option A) {k : A → Result Analyzer}
      → ((a : A) → Post Q (k a))
      → Post Q (deref o >>= k)
  Post-deref none f = throws fault
  Post-deref (some a) f = f a

pub Post-if :
    {P : Analyzer → Type 0} (b : Bool) {r s : Result Analyzer}
    → Post P r
    → Post P s
    → Post P (if b then r else s)
Post-if true h k = h
Post-if false h k = k

module _ {s t u : Analyzer} where
  pub SameStacks-trans : SameStacks s t → SameStacks t u → SameStacks s u
  SameStacks-trans h k = record {
    blocks = k.blocks ∙ h.blocks;
    relations = k.relations ∙ h.relations;
    scopes = k.scopes ∙ h.scopes;
    current = k.current ∙ h.current;
  }

pub kept :
    {s t : Analyzer}
    → t.blocks ≡ s.blocks
    → t.blocks_relations ≡ s.blocks_relations
    → t.stack_scopes ≡ s.stack_scopes
    → t.current_scope ≡ s.current_scope
    → SameStacks s t
kept b r k c = record { blocks = b; relations = r; scopes = k; current = c }

pub SameStacks-refl : (s : Analyzer) → SameStacks s s
SameStacks-refl s = record { blocks = refl; relations = refl; scopes = refl; current = refl }
