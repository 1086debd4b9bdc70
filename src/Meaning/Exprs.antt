-- ===== src/Meaning/Exprs.antt =====
-- `codegen` of expressions (src/TIPtreeGen.cpp) against what the expressions mean.
use tipc.Prelude.{refl, ap, String_eq, Option, none, some, [], ◌∷◌, length, arith}
use tipc.Prelude.Dict.{lookup}
use tipc.Prelude.Result.{Post, returns, ◌▷◌}
use tipc.Llvm.{Value}
use tipc.Tree.{
  Expr, Exprs, number_expr, variable_expr, binary_expr, fun_app_expr, input_expr, alloc_expr,
  ref_expr, de_ref_expr, null_expr, field_expr, record_expr, access_expr, no_exprs, exprs,
}
use tipc.Codegen.{CodeState, operator_of, gen_expr, gen_args}
use tipc.Codegen.Grown.{IsReady}
use tipc.Codegen.Supported.{Names, Decls, Supported, AllSupported, At}
use tipc.Meaning.{Machine, Results, Added, execute, value, values, Steps, partial, done}
use tipc.Meaning.{◌>>=◌ as and_so}
use tipc.Meaning.Evaluate.{Scope, IsLawful, operation, new_cell, eval, eval_args}
use tipc.Meaning.Linked.{Added-length, IsLinked}
use tipc.Meaning.Sequence.{Ends, no_code}
use tipc.Meaning.Computed.{
  Computed, Computes, word, words, IsReady-kept, At-kept, part, joined_with,
}
use tipc.Meaning.NameCode.{variable-Computes, ref-Computes}
use tipc.Meaning.OperatorCode.{
  binary-Computes, de_ref-Computes, null-Computes, pushed, input-Computes,
}
use tipc.Meaning.CallCode.{alloc-Computes, apply-Computes}

module _ (M : Machine) (scope : Scope M) (table : M.Word) where
  -- The code that has been added, run from results of the earlier calls and a memory, ends as the
  -- outcome says.
  abbrev pub RunsTo :
      CodeState
      → Results M
      → M.Memory
      → Option (M.Word × M.Memory)
      → Option Value × CodeState
      → Type 0
  RunsTo s r m outcome (none, s') = ⊥
  RunsTo s r m outcome (some v, s') =
      (added : Added s.calls s'.calls) × Ends M scope table (length s.calls) s' r
        (λ r'. value M r' v) outcome (execute M added r m)

module _ (M : Machine) (scope : Scope M) (table : M.Word) (laws : IsLawful M scope table) where
  mutual
    unfolding gen_expr Supported eval

    pub computes :
        (e : Expr) (vars : Names) (funs : Decls) (s : CodeState)
        → IsReady s
        → At vars funs s
        → Supported vars funs e
        → Computes M scope table s (eval M scope e) (gen_expr e s)
    computes (number_expr i v) vars funs s ready at h = returns (
      no_code M scope table s (λ r. M.const v) (λ r r' same. refl),
      (refl, refl, refl, refl, refl, λ k. k),
    )
    computes (variable_expr i x) vars funs s ready at h =
        variable-Computes M scope table (lookup x s.named_values) x s refl ready.0
          (rw (at.0, at.1) h)
    computes (binary_expr i op l r) vars funs s ready at (hl, hr, ho) =
        part M scope table _ (computes l vars funs s ready at hl) λ lv s₁ runs keeps.
          let ready₁ = IsReady-kept M scope table s s₁ keeps ready in
          let at₁ = At-kept M scope table vars funs s s₁ keeps at in
          joined_with M scope table
            (λ _ x. and_so (eval M scope r) λ y. partial (operation M scope (operator_of op) x y))
            runs keeps (λ r r₁ m same linked. refl)
            (part M scope table _ (computes r vars funs s₁ ready₁ at₁ hr) λ rv s₂ runs₂ keeps₂.
              joined_with M scope table
                (λ r y. partial (operation M scope (operator_of op) (value M r lv) y)) runs₂ keeps₂
                (λ r r₁ m same linked.
                  ap (λ x. partial (operation M scope (operator_of op) x (value M r₁ rv)) m)
                    (runs.stable r r₁ same))
                (binary-Computes M scope table (operator_of op) op lv rv s₂ ho))
    computes (fun_app_expr i f es) vars funs s ready at (hf, hs) =
        part M scope table _ (computes f vars funs s ready at hf) λ fv s₁ runs keeps.
          let (flag, t, known) = IsReady-kept M scope table s s₁ keeps ready in
          let at₁ = At-kept M scope table vars funs s s₁ keeps at in
          joined_with M scope table
            (λ _ w.
              and_so (partial (scope.entry w)) λ g. and_so (eval_args M scope es) λ ws. M.call g ws)
            runs keeps (λ r r₁ m same linked. refl)
            (apply-Computes M scope table laws s₁.tip_ftable t fv es s₁ refl known
              (λ cs. computes_all es vars funs (record s₁ { calls = cs }) (flag, t, known) at₁ hs))
    computes (input_expr i) vars funs s ready at h =
        input-Computes M scope table s.input_intrinsic s refl
    computes (alloc_expr i e) vars funs s ready at h =
        part M scope table _ (computes e vars funs s ready at h) λ v s₁ runs keeps.
          joined_with M scope table (λ _ w. new_cell M scope (M.symbol "malloc") w) runs keeps
            (λ r r₁ m same linked. refl)
            (alloc-Computes M scope table laws s₁.malloc_fun v s₁ refl runs.stable)
    computes (ref_expr i x r) vars funs s ready at h =
        ref-Computes M scope table (lookup x s.named_values) x s refl (rw at.0 h)
    computes (de_ref_expr i e) vars funs s ready at h =
        de_ref-Computes M scope table s.l_value_gen (gen_expr e) s (eval M scope e) ready.0
          (computes e vars funs s ready at h)
    computes (null_expr i) vars funs s ready at h = null-Computes M scope table s
    computes (field_expr f) vars funs s ready at h = absurd h
    computes (record_expr i fs) vars funs s ready at h = absurd h
    computes (access_expr i e f) vars funs s ready at h = absurd h

    computes_all :
        (es : Exprs) (vars : Names) (funs : Decls) (s : CodeState)
        → IsReady s
        → At vars funs s
        → AllSupported vars funs es
        → Post
            (Computed M scope table (words M scope table) s (λ r. eval_args M scope es))
            (λ _. ⊥)
            (gen_args es s)
    computes_all no_exprs vars funs s ready at h = returns (
      no_code M scope table s (λ r. []) (λ r r' same. refl),
      (refl, refl, refl, refl, refl, λ k. k),
    )
    computes_all (exprs e es) vars funs s ready at (h, hs) =
        part M scope table _ (computes e vars funs s ready at h) λ v s₁ runs keeps.
          joined_with M scope table (λ _ w. and_so (eval_args M scope es) λ ws. done (w ∷ ws)) runs
            keeps (λ r r₁ m same linked. refl)
            (part M scope table _
              (computes_all es vars funs s₁ (IsReady-kept M scope table s s₁ keeps ready)
                (At-kept M scope table vars funs s s₁ keeps at) hs)
              λ vs s₂ runs₂ keeps₂.
                joined_with M scope table (λ r ws. done (value M r v ∷ ws)) runs₂ keeps₂
                  (λ r r₁ m same linked.
                    ap (λ w. done (w ∷ values M r₁ vs) m) (runs.stable r r₁ same))
                  (pushed M scope table v vs s₂
                    (λ r r' same.
                      runs.stable r r' λ i l. same i (omega (arith, Added-length runs₂.added, l)))
                    runs₂.stable))

  runs_of :
      (s : CodeState) (r : Results M) (m : M.Memory) (meaning : Steps M.Memory M.Word)
      → IsLinked M scope table r s
      → (o : Option Value) (s' : CodeState)
      → Computed M scope table (word M scope table) s (λ r. meaning) (o, s')
      → RunsTo M scope table s r m (meaning m) (o, s')
  runs_of s r m meaning linked none s' h = h
  runs_of s r m meaning linked (some v) s' (runs, keeps) = (runs.added, runs.run r m linked)

  -- On a state with a dispatch table and outside of an l-value, where every name in an expression
  -- stands for a variable or a function and every construct has code, `codegen` returns a value.
  -- The calls that it has added, run from results and a memory where the globals stand for the
  -- addresses, the table and the functions of the runtime, end exactly if the expression has a
  -- value: then the value that `codegen` returned stands for it, the memory is the one that the
  -- expression leaves, the earlier results are as they were, and the globals stand for the same.
  pub gen_expr-RunsTo :
      (e : Expr) (vars : Names) (funs : Decls) (s : CodeState) (r : Results M) (m : M.Memory)
      → IsReady s
      → At vars funs s
      → Supported vars funs e
      → IsLinked M scope table r s
      → Post (RunsTo M scope table s r m (eval M scope e m)) (λ _. ⊥) (gen_expr e s)
  gen_expr-RunsTo e vars funs s r m ready at h linked =
      computes e vars funs s ready at h ▷ λ q k. runs_of s r m (eval M scope e) linked q.0 q.1 k
