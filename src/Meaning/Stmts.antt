-- ===== src/Meaning/Stmts.antt =====
-- `codegen` of assignments, outputs and errors, and of blocks of them (src/TIPtreeGen.cpp), against
-- what they mean.
use tipc.Prelude.{ℕ, refl, String_eq, Option, none, some, length, ◌∙◌}
use tipc.Prelude.Dict.{lookup}
use tipc.Prelude.Result.{Post, ◌▷◌, returns}
use tipc.Llvm.{Value}
use tipc.Tree.{
  Stmts, no_stmts, stmts, Stmt, decl_stmt, block_stmt, assign_stmt, while_stmt, if_stmt,
  output_stmt, error_stmt, return_stmt,
}
use tipc.Codegen.{CodeState}
use tipc.Codegen.Grown.{IsReady}
use tipc.Codegen.Supported.{Names, Decls, At, StmtSupported, StmtsSupported}
use tipc.Codegen.Statements.{gen_stmt, gen_block}
use tipc.Prelude.State.{◌⇒◌}
use tipc.Meaning.{Machine, Results, Added, Steps, execute}
use tipc.Meaning.Sequence.{Runs, sequence, no_code, Ends}
use tipc.Meaning.Parts.{Keeps, Keeps-trans}
use tipc.Meaning.Computed.{part, IsReady-kept, At-kept, Computed}
use tipc.Meaning.Evaluate.{perform_all, Scope, IsLawful, perform}
use tipc.Meaning.Linked.{IsKnown, HoldsBefore, NamesBefore, IsLinked, IsLocated, StandsFor}
use tipc.Meaning.Blocks.{HasNop, last-Computes}
use tipc.Meaning.Targets.{no_word}
use tipc.Meaning.Assigned.{assign-Computes}
use tipc.Meaning.Printed.{output-Computes, error-Computes}

-- Assignments, outputs and errors, and blocks of them.
unfoldable mutual
  pub IsStraight : Stmt → Type 0
  IsStraight (assign_stmt i l r) = Unit
  IsStraight (output_stmt i e) = Unit
  IsStraight (error_stmt i e) = Unit
  IsStraight (block_stmt i bs) = AllStraight bs
  IsStraight (decl_stmt d) = ⊥
  IsStraight (while_stmt i c b) = ⊥
  IsStraight (if_stmt i c b e) = ⊥
  IsStraight (return_stmt i e) = ⊥

  pub AllStraight : Stmts → Type 0
  AllStraight no_stmts = Unit
  AllStraight (stmts b bs) = IsStraight b × AllStraight bs

module _ (M : Machine) (scope : Scope M) (table : M.Word) where
  holds_before :
      (n : ℕ) (r : Results M) (o : Option Value) (w : M.Word)
      → StandsFor M n r o w
      → HoldsBefore n o
  holds_before n r none w h = tt
  holds_before n r (some v) w h = h.0

  names_before :
      (n : ℕ) (r : Results M) (o : Option (Option Value)) (a : Option M.Word)
      → IsLocated M n r o a
      → NamesBefore n o
  names_before n r none a h = tt
  names_before n r (some none) a h = tt
  names_before n r (some (some v)) none h = absurd h
  names_before n r (some (some v)) (some a) h = h.0

  linked-IsKnown : (r : Results M) (s : CodeState) → IsLinked M scope table r s → IsKnown s
  linked-IsKnown r s (named, indexed, ftable, input, output, error, malloc, nop) = record {
    named =
        λ x. names_before (length s.calls) r (lookup x s.named_values) (scope.location x) (named x);
    output = holds_before (length s.calls) r s.output_intrinsic (M.symbol "_tip_output") output;
    error = holds_before (length s.calls) r s.error_intrinsic (M.symbol "_tip_error") error;
  }

  -- The code that has been added, run from results of the earlier calls and a memory, ends as the
  -- outcome says.
  abbrev pub PerformsTo :
      CodeState
      → Results M
      → M.Memory
      → Option (Unit {0} × M.Memory)
      → Option Value × CodeState
      → Type 0
  PerformsTo s r m outcome (none, s') = ⊥
  PerformsTo s r m outcome (some v, s') =
      (added : Added s.calls s'.calls) × Ends M scope table (length s.calls) s' r (λ r'. tt) outcome
        (execute M added r m)

module _ (M : Machine) (scope : Scope M) (table : M.Word) (laws : IsLawful M scope table) where
  -- Code that leaves nothing to read, whether it has a value or not.
  abbrev Finished : CodeState → Steps M.Memory (Unit {0}) → Option Value × CodeState → Type 0
  Finished s meaning q = Runs M scope table s q.1 (λ r. tt) (λ r. meaning) × Keeps s q.1

  mutual
    unfolding gen_stmt StmtSupported IsStraight perform

    straight :
        (b : Stmt) (vars : Names) (funs : Decls) (s : CodeState)
        → IsReady s
        → HasNop s
        → At vars funs s
        → StmtSupported vars funs b
        → IsStraight b
        → IsKnown s
        → Post
            (Computed M scope table (no_word M scope table) s (λ r. perform M scope b))
            (λ _. ⊥)
            (gen_stmt b s)
    straight (assign_stmt i l e) vars funs s ready nop at (hl, he) h known =
        assign-Computes M scope table laws l e i vars funs s ready at hl he known
    straight (output_stmt i e) vars funs s ready nop at he h known =
        output-Computes M scope table laws e i vars funs s ready at he known
    straight (error_stmt i e) vars funs s ready nop at he h known =
        error-Computes M scope table laws e i vars funs s ready at he known
    straight (block_stmt i bs) vars funs s ready nop at hs h known =
        straight_all bs none vars funs s ready nop at hs h known ⇒ λ o s₁ (runs, keeps).
        last-Computes M scope table laws o s s₁ (perform_all M scope bs) nop runs keeps
    straight (decl_stmt d) vars funs s ready nop at he h known = absurd h
    straight (while_stmt i c b) vars funs s ready nop at he h known = absurd h
    straight (if_stmt i c b e) vars funs s ready nop at he h known = absurd h
    straight (return_stmt i e) vars funs s ready nop at he h known = absurd h

    straight_all :
        (bs : Stmts) (last : Option Value) (vars : Names) (funs : Decls) (s : CodeState)
        → IsReady s
        → HasNop s
        → At vars funs s
        → StmtsSupported vars funs bs
        → AllStraight bs
        → IsKnown s
        → Post (Finished s (perform_all M scope bs)) (λ _. ⊥) (gen_block bs last s)
    straight_all no_stmts last vars funs s ready nop at hs h known = returns (
      no_code M scope table s (λ r. tt) (λ r r' same. refl),
      (refl, refl, refl, refl, refl, λ k. k),
    )
    straight_all (stmts b bs) last vars funs s ready nop at (hb, hs) (h, hh) known =
        part M scope table _ (straight b vars funs s ready nop at hb h known) λ v s₁ runs keeps.
          straight_all bs (some v) vars funs s₁ (IsReady-kept M scope table s s₁ keeps ready)
            (nop.0, keeps.4 ∙ nop.1) (At-kept M scope table vars funs s s₁ keeps at) hs hh
            (keeps.5 known)
          ▷ λ q (more, keeps'). (
            sequence M scope table (λ _ _. perform_all M scope bs) runs more
                (λ r r₁ m same linked. refl),
            Keeps-trans s s₁ q.1 keeps keeps',
          )

  performed :
      (s : CodeState) (r : Results M) (m : M.Memory) (meaning : Steps M.Memory (Unit {0}))
      → IsLinked M scope table r s
      → (o : Option Value) (s' : CodeState)
      → Computed M scope table (no_word M scope table) s (λ r. meaning) (o, s')
      → PerformsTo M scope table s r m (meaning m) (o, s')
  performed s r m meaning linked none s' h = h
  performed s r m meaning linked (some v) s' (runs, keeps) = (runs.added, runs.run r m linked)

  -- On a state with a dispatch table and the intrinsic nop and outside of an l-value, for an
  -- assignment, an output, an error or a block of such statements in which every name stands for
  -- something and every construct has code, `codegen` returns a value. The calls that it has added,
  -- run from results and a memory where the globals stand for the addresses, the table and the
  -- functions of the runtime, end exactly if the statement does: an assignment finds the address,
  -- then the value, and stores it there; an output and an error find the value and call their
  -- function of the runtime with it; the statements of a block follow each other. The memory is
  -- then the one that the statement leaves, the earlier results are as they were, and the globals
  -- stand for the same.
  pub gen_stmt-PerformsTo :
      (b : Stmt) (vars : Names) (funs : Decls) (s : CodeState) (r : Results M) (m : M.Memory)
      → IsReady s
      → HasNop s
      → At vars funs s
      → StmtSupported vars funs b
      → IsStraight b
      → IsLinked M scope table r s
      → Post (PerformsTo M scope table s r m (perform M scope b m)) (λ _. ⊥) (gen_stmt b s)
  gen_stmt-PerformsTo b vars funs s r m ready nop at h is_straight linked =
      straight b vars funs s ready nop at h is_straight (linked-IsKnown M scope table r s linked)
      ▷ λ q k. performed s r m (perform M scope b) linked q.0 q.1 k
