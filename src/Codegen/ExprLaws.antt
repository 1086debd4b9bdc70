-- ===== src/Codegen/ExprLaws.antt =====
-- `codegen` of expressions (src/TIPtreeGen.cpp) against the condition that there is code for them.
use tipc.Prelude.{inl, inr, refl, sym, ap, String_eq, Option, none, some, []}
use tipc.Prelude.Dict.{lookup}
use tipc.Prelude.Result.{returns}
use tipc.Prelude.State.{then_run}
use tipc.Llvm.{Value, create_call}
use tipc.Tree.{
  Expr, Exprs, number_expr, variable_expr, binary_expr, fun_app_expr, input_expr, alloc_expr,
  ref_expr, de_ref_expr, null_expr, field_expr, record_expr, access_expr, no_exprs, exprs,
}
use tipc.Codegen.{CodeState, operator_of, gen_expr, gen_args, input_function, emit_last}
use tipc.Codegen.Grown.{Plain-trans, plainly, with_function, same, more, IsReady, Plain-IsReady}
use tipc.Codegen.Supported.{Names, Decls, Supported, AllSupported, At}
use tipc.Codegen.PartLaws.{
  Codes, part, null, variable-Codes, ref-Codes, alloc-Codes, called-Codes, de_ref-Codes,
  binary-Codes, Codes-iff, lost,
}

mutual
  unfolding gen_expr Supported

  codes :
      (e : Expr) (vars : Names) (funs : Decls) (s : CodeState)
      → IsReady s
      → At vars funs s
      → Codes (Supported vars funs e) vars funs s (gen_expr e s)
  codes (number_expr i v) vars funs s ready at = returns (plainly same, (tt, at))
  codes (variable_expr i x) vars funs s ready at =
      variable-Codes vars funs (lookup x s.named_values) x s (ap (λ m. lookup x m) (sym at.0)) ready
        at
  codes (binary_expr i op l r) vars funs s ready at =
      part _ (λ h. h.0) (codes l vars funs s ready at)
        (λ lv s₁ p hl at₁.
          part _ (λ h. h.1) (codes r vars funs s₁ (Plain-IsReady p ready) at₁)
            (λ rv s₂ q hr at₂.
              Codes-iff (λ h. (hl, hr, h)) (λ h. h.2)
                (binary-Codes vars funs (operator_of op) op lv rv s₂ at₂))
            (λ s₂ q fails. null s₂ fails))
        (λ s₁ p fails.
          lost _ fails
            (codes r s₁.named_values s₁.function_decls s₁ (Plain-IsReady p ready) (refl, refl))
            (λ o s₂. refl))
  codes (fun_app_expr i f es) vars funs s ready at =
      part _ (λ h. h.0) (codes f vars funs s ready at)
        (λ fv s₁ p hf at₁.
          let (flag, t, table) = Plain-IsReady p ready in
          called-Codes vars funs s₁.tip_ftable t fv es s₁ table hf at₁
            (λ cs. codes_all es vars funs (record s₁ { calls = cs }) (flag, t, table) at₁))
        (λ s₁ p fails. null s₁ fails)
  codes (input_expr i) vars funs s ready at = input s.input_intrinsic
    where
      input :
          (o : Option Value)
          → Codes Unit vars funs s
              (then_run (input_function o s) (λ f. emit_last (create_call f [])))
      input none = returns (
        Plain-trans (with_function "_tip_input" _ (more (inr (inl refl)) same))
            (plainly (more tt same)),
        (tt, at),
      )
      input (some f) = returns (plainly (more tt same), (tt, at))
  codes (alloc_expr i e) vars funs s ready at =
      part _ (λ h. h) (codes e vars funs s ready at)
        (λ v s₁ p h at₁. alloc-Codes vars funs s₁.malloc_fun v s₁ h at₁)
        (λ s₁ p fails. null s₁ fails)
  codes (ref_expr i x r) vars funs s ready at =
      ref-Codes vars funs (lookup x s.named_values) x s (ap (λ m. lookup x m) (sym at.0)) at
  codes (de_ref_expr i e) vars funs s ready at =
      de_ref-Codes vars funs s.l_value_gen (gen_expr e) s ready.0 (codes e vars funs s ready at)
  codes (null_expr i) vars funs s ready at = returns (plainly (more tt same), (tt, at))
  codes (field_expr f) vars funs s ready at = returns (plainly same, λ h. h)
  codes (record_expr i fs) vars funs s ready at = returns (plainly same, λ h. h)
  codes (access_expr i e f) vars funs s ready at = returns (plainly same, λ h. h)

  codes_all :
      (es : Exprs) (vars : Names) (funs : Decls) (s : CodeState)
      → IsReady s
      → At vars funs s
      → Codes (AllSupported vars funs es) vars funs s (gen_args es s)
  codes_all no_exprs vars funs s ready at = returns (plainly same, (tt, at))
  codes_all (exprs e es) vars funs s ready at =
      part _ (λ h. h.0) (codes e vars funs s ready at)
        (λ v s₁ p h at₁.
          part _ (λ k. k.1) (codes_all es vars funs s₁ (Plain-IsReady p ready) at₁)
            (λ vs s₂ q hs at₂. returns (plainly same, ((h, hs), at₂)))
            (λ s₂ q fails. null s₂ fails))
        (λ s₁ p fails. null s₁ fails)

-- On a state with a dispatch table and outside of an l-value, there is code for an expression
-- exactly if every name in it stands for a variable or a function and every construct has code:
-- then `codegen` returns a value and leaves the tables as they were, else it returns a null pointer
-- or hands one to LLVM, which ends the run. Where it returns, the calls that it has added are
-- instructions that do not end the block and declarations of functions of the runtime; the label
-- count, the flag for l-values, the dispatch table, the input array and the intrinsic nop are as they
-- were, and no function of the module is lost.
pub gen_expr-Codes :
    (e : Expr) (vars : Names) (funs : Decls) (s : CodeState)
    → IsReady s
    → At vars funs s
    → Codes (Supported vars funs e) vars funs s (gen_expr e s)
gen_expr-Codes = codes
