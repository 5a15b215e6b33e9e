-- ===== src/Analyzer/Walk/Balance.antt =====
-- Every callback keeps the stacks in step with the tree, so the walk never throws for blocks that
-- do not match.
use luapp.Prelude.{
  ℕ, String, List, [], ◌∷◌, ◌++◌, Option, none, some, not, ◌||◌, ◌==◌, eq_nat, nat_eq_iff,
  if◌then◌else◌, ◌≡◌, refl, ap, ◌∙◌, ◌⊎◌, inl, inr, Result, ok, err, Error, undefined, lonely_break,
  ◌>>=◌, length, sym,
}
use luapp.Analyzer.Scope.{Block, Scope, nullptr}
use luapp.Analyzer.State.{StatContext, FuncbodyContext, Analyzer, modify, with_current_scope, top}
use luapp.Analyzer.Listener.{
  init, enter_chunk, enter_block, exit_block, enter_stat, enter_funcbody, exit_funcbody,
  enter_label, last?, drop_last, open_scope, add_local, add_locals, add_loop, declare_locals,
  enter_local, enter_for, enter_rest, enter_label_stat, first_block, is_relevant, parents,
}
use luapp.Analyzer.Walk.{
  Forest, leaf, block_node, stat_node, funcbody_node, label_node, walk, walk_chunk, SameStacks,
}
use text.Mathlib.Text.{starts_with}
use luapp.Analyzer.Walk.Post.{
  IsListenerError, lonely, fault, Post, returns, throws, Post-map, Post-bind, Post-deref, Post-if,
  SameStacks-trans, kept, SameStacks-refl,
}

with_current_scope-Post :
    (f : Scope → Scope) (s : Analyzer) → Post (SameStacks s) (with_current_scope f s)
unfolding with_current_scope
with_current_scope-Post f s = go s.current_scope
  where
    stored :
        (i : Option (List Scope))
        → Post
            (SameStacks s)
            (elim i [ none ↦ err undefined | some scopes' ↦ ok (record s { scopes = scopes' }) ])
    stored none = throws fault
    stored (some scopes') = returns (kept refl refl refl refl)

    go :
        (c : Option ℕ)
        → Post (SameStacks s) (elim c [
          | none ↦ err undefined
          | some i ↦ elim (modify f i s.scopes) [
            | none ↦ err undefined
            | some scopes' ↦ ok (record s { scopes = scopes' })
          ]
        ])
    go none = throws fault
    go (some i) = stored (modify f i s.scopes)

add_locals-SameStacks :
    (ns : List String) (b : Block) (s : Analyzer) → SameStacks s (add_locals ns b s)
unfolding add_locals
add_locals-SameStacks [] b s = SameStacks-refl s
add_locals-SameStacks (n ∷ ns) b s =
    SameStacks-trans (kept refl refl refl refl) (add_locals-SameStacks ns b (add_local n b s))

declare_locals-Post :
    (ns : List String) (here : Block) (s : Analyzer)
    → Post (SameStacks s) (declare_locals ns here s)
unfolding declare_locals
declare_locals-Post [] here s = returns (SameStacks-refl s)
declare_locals-Post (n ∷ ns) here s = Post-bind (with_current_scope-Post _ s) λ t h.
    Post-map (λ u k. SameStacks-trans (kept h.blocks h.relations h.scopes h.current) k)
      (declare_locals-Post ns here (add_local n here t))

enter_local-Post : (c : StatContext) (s : Analyzer) → Post (SameStacks s) (enter_local c s)
unfolding enter_local
enter_local-Post c s = Post-deref (last? s.blocks_relations) λ here.
    Post-if c.has_funcbody (Post-deref c.name λ n. declare_locals-Post (n ∷ []) here s)
      (Post-deref c.attnamelist λ ns. declare_locals-Post ns here s)

-- The block of a loop, and the error where there is none.
Post-first_block :
    {P : Analyzer → Type 0} (c : StatContext) {k : Block → Result Analyzer}
    → ((b : Block) → Post P (k b))
    → Post P (first_block c >>= k)
Post-first_block {P} c {k} f = go c.blocks
  where
    go : (bs : List Block) → Post P ((elim bs [ [] ↦ err undefined | b ∷ _ ↦ ok b ]) >>= k)
    go [] = throws fault
    go (b ∷ bs) = f b

enter_for-Post : (c : StatContext) (s : Analyzer) → Post (SameStacks s) (enter_for c s)
unfolding enter_for
enter_for-Post c s = Post-first_block c λ body.
    Post-if c.has_explist
      (Post-deref c.namelist λ ns. returns (
        SameStacks-trans (kept refl refl refl refl)
          (add_locals-SameStacks ns body (add_loop body s))))
      (Post-deref c.name λ n. returns (kept refl refl refl refl))

lonely-Post :
    (line : ℕ) (s : Analyzer) (bs : List Block)
    → Post (SameStacks s) (elim bs [ [] ↦ err (lonely_break line) | _ ∷ _ ↦ ok s ])
lonely-Post line s [] = throws (lonely line)
lonely-Post line s (b ∷ bs) = returns (SameStacks-refl s)

enter_rest-Post : (c : StatContext) (s : Analyzer) → Post (SameStacks s) (enter_rest c s)
unfolding enter_rest enter_label_stat
enter_rest-Post c s = go c.label_name
  where
    go :
        (l : Option String)
        → Post (SameStacks s) (elim l [
          | some l ↦ ok (enter_label_stat l s)
          | none ↦
              if starts_with c.text "for"
              then enter_for c s
              else if starts_with c.text "while" || starts_with c.text "repeat"
              then (first_block c >>= λ b. ok (add_loop b s))
              else elim s.loop_blocks [ [] ↦ err (lonely_break c.line) | _ ∷ _ ↦ ok s ]
        ])
    go (some l) = returns (kept refl refl refl refl)
    go none = Post-if (starts_with c.text "for") (enter_for-Post c s) (
        Post-if (starts_with c.text "while" || starts_with c.text "repeat")
          (Post-first_block c λ b. returns (kept refl refl refl refl))
          (lonely-Post c.line s s.loop_blocks))

enter_stat-Post : (c : StatContext) (s : Analyzer) → Post (SameStacks s) (enter_stat c s)
unfolding enter_stat
enter_stat-Post c s = Post-if (not (is_relevant c)) (returns (SameStacks-refl s)) (
    Post-if (starts_with c.text "goto") (Post-deref c.name λ l. with_current_scope-Post _ s) (
      Post-if (starts_with c.text "local") (enter_local-Post c s) (
        Post-if (starts_with c.text "function")
          (Post-deref c.funcname λ n. with_current_scope-Post _ s) (enter_rest-Post c s))))

-- The block `b` entered on top of the stacks of `s`.
record Entered (b : Block) (s t : Analyzer) : Type 0 where
  blocks : t.blocks ≡ b ∷ s.blocks
  relations : t.blocks_relations ≡ s.blocks_relations ++ b ∷ []
  scopes : t.stack_scopes ≡ s.stack_scopes
  current : t.current_scope ≡ s.current_scope

enter_block-Post : (b : Block) (s : Analyzer) → Post (Entered b s) (enter_block b s)
unfolding enter_block
enter_block-Post b s =
    let pushed = record s { blocks = b ∷ s.blocks } in
    Post-bind
      (Post-if (s.current_context == nullptr) (returns (SameStacks-refl pushed))
        (with_current_scope-Post _ pushed))
      λ t h. Post-bind (with_current_scope-Post _ t) λ u k. returns (record {
        blocks = k.blocks ∙ h.blocks;
        relations = ap (λ l. l ++ b ∷ []) (k.relations ∙ h.relations);
        scopes = k.scopes ∙ h.scopes;
        current = k.current ∙ h.current;
      })

drop_last-append : (bs : List Block) (b : Block) → drop_last (bs ++ b ∷ []) ≡ bs
drop_last-append [] b = refl
drop_last-append (c ∷ []) b = refl
drop_last-append (c ∷ d ∷ bs) b = ap (λ l. c ∷ l) (drop_last-append (d ∷ bs) b)

exit_block-Post :
    (b : Block) (s t u : Analyzer)
    → Entered b s t
    → SameStacks t u
    → Post (SameStacks s) (exit_block b u)
unfolding exit_block
exit_block-Post b s t u h k =
    rw (k.blocks ∙ h.blocks, exit_block, (nat_eq_iff b b).1 refl)
      (returns (
        kept refl (ap drop_last (k.relations ∙ h.relations) ∙ drop_last-append s.blocks_relations b)
          (k.scopes ∙ h.scopes) (k.current ∙ h.current)))

-- The scope `i` opened on top of the stacks of `s`.
record Opened (s t : Analyzer) : Type 0 where
  scope : ℕ
  blocks : t.blocks ≡ s.blocks
  relations : t.blocks_relations ≡ s.blocks_relations
  scopes : t.stack_scopes ≡ scope ∷ s.stack_scopes
  current : t.current_scope ≡ some scope

enter_funcbody-Post : (c : FuncbodyContext) (s : Analyzer) → Post (Opened s) (enter_funcbody c s)
unfolding enter_funcbody open_scope
enter_funcbody-Post c s = go c.params
  where
    after :
        (named : Analyzer)
        → SameStacks s named
        → Post (Opened s) (
            ok
              (record (open_scope c.body (record named {
                functions_parents =
                    named.functions_parents ++ parents c.body named.blocks_relations;
              })) { current_context = nullptr }))
    after named h = returns (record {
      scope = length named.scopes;
      blocks = h.blocks;
      relations = h.relations;
      scopes = ap (λ l. length named.scopes ∷ l) h.scopes;
      current = refl;
    })

    go :
        (ps : Option (List String))
        → Post (Opened s) (
            let named : Analyzer = elim ps [ none ↦ s | some ns ↦ add_locals ns c.body s ] in
            ok
              (record (open_scope c.body (record named {
                functions_parents =
                    named.functions_parents ++ parents c.body named.blocks_relations;
              })) { current_context = nullptr }))
    go none = after s (SameStacks-refl s)
    go (some ns) = after (add_locals ns c.body s) (add_locals-SameStacks ns c.body s)

exit_funcbody-Post :
    (s t u : Analyzer)
    → s.current_scope ≡ top s.stack_scopes
    → Opened s t
    → SameStacks t u
    → Post (SameStacks s) (exit_funcbody u)
unfolding exit_funcbody
exit_funcbody-Post s t u at_top h k =
    rw (k.scopes ∙ h.scopes, exit_funcbody)
      (returns (kept (k.blocks ∙ h.blocks) (k.relations ∙ h.relations) refl (sym at_top)))

walk-Post :
    (f : Forest) (s : Analyzer)
    → s.current_scope ≡ top s.stack_scopes
    → Post (SameStacks s) (walk f s)
unfolding walk enter_label
walk-Post leaf s at_top = returns (SameStacks-refl s)
walk-Post (block_node b inside next) s at_top = Post-bind (enter_block-Post b s) λ t h.
    Post-bind (walk-Post inside t (h.current ∙ at_top ∙ ap top (sym h.scopes))) λ u k.
      Post-bind (exit_block-Post b s t u h k) λ v m.
        Post-map (λ w n. SameStacks-trans m n)
          (walk-Post next v (m.current ∙ at_top ∙ ap top (sym m.scopes)))
walk-Post (stat_node c inside next) s at_top = Post-bind (enter_stat-Post c s) λ t h.
    Post-bind (walk-Post inside t (h.current ∙ at_top ∙ ap top (sym h.scopes))) λ u k.
      let m = SameStacks-trans h k in
      Post-map (λ w n. SameStacks-trans m n)
        (walk-Post next u (m.current ∙ at_top ∙ ap top (sym m.scopes)))
walk-Post (funcbody_node c inside next) s at_top = Post-bind (enter_funcbody-Post c s) λ t h.
    Post-bind (walk-Post inside t (h.current ∙ ap top (sym h.scopes))) λ u k.
      Post-bind (exit_funcbody-Post s t u at_top h k) λ v m.
        Post-map (λ w n. SameStacks-trans m n)
          (walk-Post next v (m.current ∙ at_top ∙ ap top (sym m.scopes)))
walk-Post (label_node n next) s at_top = Post-bind (with_current_scope-Post _ s) λ t h.
    Post-map (λ w k. SameStacks-trans h k)
      (walk-Post next t (h.current ∙ at_top ∙ ap top (sym h.scopes)))

-- The walk over a chunk, from the state that the constructor leaves: either it returns, and then the
-- stack and the vector of blocks are empty and the chunk's scope alone is open, as before its block;
-- or it throws for a lonely break, or follows a null pointer. It never throws "Unbalanced blocks".
pub walk_chunk_lem :
    (root : Block) (inside : Forest)
    → ((t : Analyzer) × (walk_chunk root inside init ≡ ok t)
        × (t.blocks ≡ [])
        × (t.blocks_relations ≡ [])
        × (t.stack_scopes ≡ 0 ∷ [])
        × (t.current_scope ≡ some 0))
      ⊎ ((e : Error) × (walk_chunk root inside init ≡ err e) × IsListenerError e)
unfolding walk_chunk enter_chunk init open_scope
walk_chunk_lem root inside = go (walk_chunk root inside init) refl (
    Post-bind (with_current_scope-Post _ (open_scope root init)) λ s h.
      Post-map (λ t k. SameStacks-trans h k)
        (walk-Post (block_node root inside leaf) s (h.current ∙ ap top (sym h.scopes))))
  where
    go :
        (r : Result Analyzer)
        → walk_chunk root inside init ≡ r
        → Post (SameStacks (open_scope root init)) r
        → ((t : Analyzer) × (walk_chunk root inside init ≡ ok t)
            × (t.blocks ≡ [])
            × (t.blocks_relations ≡ [])
            × (t.stack_scopes ≡ 0 ∷ [])
            × (t.current_scope ≡ some 0))
          ⊎ ((e : Error) × (walk_chunk root inside init ≡ err e) × IsListenerError e)
    go r p (returns {s = t} h) = inl (t, p, h.blocks, h.relations, h.scopes, h.current)
    go r p (throws {e} h) = inr (e, p, h)
