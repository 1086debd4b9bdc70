-- ===== src/Meaning/Printed.antt =====
-- The code of outputs and errors (src/TIPtreeGen.cpp) against their meaning.
use tipc.Prelude.{
  subst, String, ℕ, ◌≡◌, refl, ap, String_eq, Option, none, some, [], ◌∷◌, length, arith,
}
use tipc.Prelude.Result.{Result, Post, returns}
use tipc.Prelude.State.{◌⇒◌, then_run, ◌>>=◌}
use tipc.Llvm.{i64, ptr, fn, Value, create_call}
use tipc.Tree.{Expr, output_stmt, error_stmt}
use tipc.Codegen.{CodeState, gen_expr, emit_last, unless_null}
use tipc.Codegen.Grown.{IsReady}
use tipc.Codegen.Supported.{Names, Decls, Supported, At}
use tipc.Codegen.Statements.{gen_stmt, output_function, error_function}
use tipc.Meaning.{value, Machine, Results, done}
use tipc.Meaning.{◌>>=◌ as and_so}
use tipc.Meaning.Evaluate.{call_runtime, Scope, IsLawful, eval, perform}
use tipc.Meaning.Linked.{
  IsKnown, IsKnown-with, HoldsBefore, HoldsBefore-later, IsBefore-IsStable, IsKnown-later, IsStable,
  IsLinked,
}
use tipc.Meaning.Sequence.{Runs, no_code, means}
use tipc.Meaning.Parts.{Keeps, stands, declare_output, declare_error}
use tipc.Meaning.Computed.{word, IsReady-kept, At-kept, Computed, joined_with}
use tipc.Meaning.Targets.{no_word}
use tipc.Meaning.Assigned.{passed-Computes}

module _ (M : Machine) (scope : Scope M) (table : M.Word) (laws : IsLawful M scope table) where
  -- A function of the runtime that is there, or has been declared.
  abbrev Obtained : String → CodeState → Value × CodeState → Type 0
  Obtained name s q =
      Runs M scope table s q.1 (word M scope table q.0) (λ r. done (M.symbol name)) × Keeps s q.1

  -- It may have been declared before.
  Obtained-before :
      (f : Value) (name : String) (s : CodeState)
      → IsStable M (length s.calls) (word M scope table f)
      → ((r : Results M) → IsLinked M scope table r s → value M r f ≡ M.symbol name)
      → Obtained name s (f, s)
  Obtained-before f name s stable is_symbol = (
    means M scope table (λ r m linked. ap (λ w. done w m) (is_symbol r linked))
        (no_code M scope table s (word M scope table f) stable),
    (refl, refl, refl, refl, refl, IsKnown-later _ _ _ _ _ _ (omega arith)),
  )

  output-Obtained :
      (o : Option Value) (s : CodeState)
      → s.output_intrinsic ≡ o
      → IsKnown s
      → Post (Obtained "_tip_output" s) (λ _. ⊥) (output_function o s)
  output-Obtained (some f) s found known = returns (
      Obtained-before f "_tip_output" s
        (IsBefore-IsStable M (length s.calls) f
          (subst (HoldsBefore (length s.calls)) found known.output))
        λ r linked.
          stands M scope table (length s.calls) r s.output_intrinsic f (M.symbol "_tip_output")
            found linked.4)
  output-Obtained none s found known = returns (
    declare_output M scope table 1 i64 (ptr (fn 1 i64)) s _,
    (
      refl,
      refl,
      refl,
      refl,
      refl,
      IsKnown-with s _ _ _ _ _ _ _ (omega arith) (omega arith)
          (HoldsBefore-later (omega arith) s.error_intrinsic known.error),
    ),
  )

  error-Obtained :
      (o : Option Value) (s : CodeState)
      → s.error_intrinsic ≡ o
      → IsKnown s
      → Post (Obtained "_tip_error" s) (λ _. ⊥) (error_function o s)
  error-Obtained (some f) s found known = returns (
      Obtained-before f "_tip_error" s
        (IsBefore-IsStable M (length s.calls) f
          (subst (HoldsBefore (length s.calls)) found known.error))
        λ r linked.
          stands M scope table (length s.calls) r s.error_intrinsic f (M.symbol "_tip_error") found
            linked.5)
  error-Obtained none s found known = returns (
    declare_error M scope table 1 i64 (ptr (fn 1 i64)) s _,
    (
      refl,
      refl,
      refl,
      refl,
      refl,
      IsKnown-with s _ _ _ _ _ _ _ (omega arith)
          (HoldsBefore-later (omega arith) s.output_intrinsic known.output) (omega arith),
    ),
  )

  -- The function, then the value that it is called with.
  runtime-Computes :
      (name : String) (e : Expr) (vars : Names) (funs : Decls) (s : CodeState)
      {r : Result (Value × CodeState)}
      → Post (Obtained name s) (λ _. ⊥) r
      → IsReady s
      → At vars funs s
      → Supported vars funs e
      → Post
          (Computed M scope table
            (no_word M scope table)
            s
            λ r. and_so (eval M scope e) (call_runtime M scope name))
          (λ _. ⊥)
          (then_run r
            λ f. gen_expr e >>= λ arg. unless_null arg λ v. emit_last (create_call f (v ∷ [])))
  runtime-Computes name e vars funs s obtained ready at h = obtained ⇒ λ f s₁ (runs, keeps).
      joined_with M scope table
        (λ _ g. and_so (eval M scope e) λ w. and_so (M.call g (w ∷ [])) λ _. done tt) runs keeps
        (λ r r₁ m same linked. refl)
        (passed-Computes M scope table laws f e vars funs s₁
          (IsReady-kept M scope table s s₁ keeps ready)
          (At-kept M scope table vars funs s s₁ keeps at) h runs.stable)

  pub output-Computes :
      (e : Expr) (i : ℕ) (vars : Names) (funs : Decls) (s : CodeState)
      → IsReady s
      → At vars funs s
      → Supported vars funs e
      → IsKnown s
      → Post
          (Computed M scope table
            (no_word M scope table)
            s
            (λ r. perform M scope (output_stmt i e)))
          (λ _. ⊥)
          (gen_stmt (output_stmt i e) s)
  unfolding gen_stmt perform
  output-Computes e i vars funs s ready at h known =
      runtime-Computes "_tip_output" e vars funs s (output-Obtained s.output_intrinsic s refl known)
        ready at h

  pub error-Computes :
      (e : Expr) (i : ℕ) (vars : Names) (funs : Decls) (s : CodeState)
      → IsReady s
      → At vars funs s
      → Supported vars funs e
      → IsKnown s
      → Post
          (Computed M scope table (no_word M scope table) s (λ r. perform M scope (error_stmt i e)))
          (λ _. ⊥)
          (gen_stmt (error_stmt i e) s)
  unfolding gen_stmt perform
  error-Computes e i vars funs s ready at h known =
      runtime-Computes "_tip_error" e vars funs s (error-Obtained s.error_intrinsic s refl known)
        ready at h
