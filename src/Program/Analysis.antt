-- ===== src/Program/Analysis.antt =====
-- environment.cpp: what the analysis decides before a program runs.
use luapp.Prelude.{
  ℕ, String, List, [], ◌∷◌, ◌++◌, some, Error, ok, err, Result-cases, runtime_error, Bool-cases,
  ◌≡◌, refl, ap, sym, ◌∙◌, inl, inr,
}
use luapp.Exceptions.{is_exception, what}
use luapp.Analyzer.Scope.{Scope}
use luapp.Analyzer.Explore.{Tree}
use luapp.Analyzer.State.{Analyzer}
use luapp.Analyzer.Validate.{validate_scopes}
use luapp.Analyzer.Walk.{walk_chunk}
use luapp.Analyzer.Program.{AllLegal, StandsFor, scopes_of, validate_scopes_lem}
use luapp.Types.Platform.{Platform}
use luapp.Interpreter.Environment.{Environment}
use luapp.Interpreter.Machine.{Thrown, thrown, error, ◌>>=◌, ◌>>◌}
use luapp.Interpreter.Calls.{Host}
use luapp.Program.{Frontend, launch, failure, catch_exception, run_chunk, run_contents, run_file}

module _ (P : Platform) (F : Frontend) (H : Host P.Double) (fuel : ℕ) (file text : String)
    (s : Environment P) (a : Analyzer) where
  -- The environment once the tree is printed and walked.
  abbrev pub analysed : Environment P
  analysed = record s { output = s.output ++ F.to_string_tree text ∷ []; listener = a }

  -- It ends by an exception before any statement.
  abbrev pub IsRejected : Type 0
  IsRejected = (x : Thrown P.Double) × (run_file P F H fuel file s ≡ thrown x analysed)

  run_file-rejected :
      (e : Error)
      → F.contents file ≡ some text
      → F.syntax_errors text ≡ 0
      → walk_chunk (F.chunk text).root (F.chunk text).forest s.listener ≡ ok a
      → validate_scopes fuel a.scopes [] ≡ err e
      → IsRejected
  unfolding run_file run_contents catch_exception run_chunk launch
  run_file-rejected e found clean walked bad = elim (Bool-cases (is_exception e)) [
    | inl q ↦ (
      error (runtime_error (failure P F file (what P F.library e))),
      rw
          (
            run_file, found, run_contents, clean, ◌>>◌, ◌>>=◌, catch_exception, run_chunk, launch,
            walked, bad, q,
          )
          refl,
    )
    | inr q ↦ (
      error e,
      rw
          (
            run_file, found, run_contents, clean, ◌>>◌, ◌>>=◌, catch_exception, run_chunk, launch,
            walked, bad, q,
          )
          refl,
    )
  ]

  -- A file whose chunk has a goto without a label to go to, or a block that declares a label twice,
  -- ends by an exception, and no statement has run: only its tree was printed and walked. The scopes of
  -- the walk are to stand for trees of distinct blocks, with fuel above their depths.
  pub run_file-rejects :
      F.contents file ≡ some text
      → F.syntax_errors text ≡ 0
      → walk_chunk (F.chunk text).root (F.chunk text).forest s.listener ≡ ok a
      → (ps : List (Scope × Tree)) → a.scopes ≡ scopes_of ps
      → StandsFor fuel ps []
      → (AllLegal ps → ⊥)
      → IsRejected
  run_file-rejects found clean walked ps scopes stands illegal =
      elim (Result-cases (validate_scopes fuel a.scopes [])) [
        | inl (tt, q) ↦ absurd (
            illegal (
              (validate_scopes_lem fuel ps stands).0
                (ap (λ l. validate_scopes fuel l []) (sym scopes) ∙ q)))
        | inr (e, q) ↦ run_file-rejected e found clean walked q
      ]
