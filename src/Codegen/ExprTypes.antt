-- ===== src/Codegen/ExprTypes.antt =====
-- The types of the code of an expression (src/TIPtreeGen.cpp).
use tipc.Prelude.{refl, String_eq}
use tipc.Prelude.Dict.{lookup}
use tipc.Prelude.Result.{returns, ◌▷◌}
use tipc.Prelude.State.{after}
use tipc.Tree.{
  Expr, Exprs, number_expr, variable_expr, binary_expr, fun_app_expr, input_expr, alloc_expr,
  ref_expr, de_ref_expr, null_expr, field_expr, record_expr, access_expr, no_exprs, exprs,
}
use tipc.Codegen.Supported.{Decls}
use tipc.Codegen.{CodeState, operator_of, gen_expr, gen_args, count_exprs}
use tipc.Codegen.Typing.{WellTyped, typed_more, Types, valued}
use tipc.Codegen.OperandTypes.{
  IsIntegral, AllIntegral, IsCondition, HasInteger, HasWord, logged, integer, variable-Types,
  ref-Types, input-Types, alloc-Types, binary-Types, compare-Types,
}
use tipc.Codegen.CallTypes.{HasArgs, arg-Types, called-Types, de_ref-Types, operands}

module _ {funs : Decls} where
  mutual
    unfolding gen_expr IsIntegral

    pub expr-Types :
        (e : Expr) (s : CodeState)
        → IsIntegral e
        → WellTyped funs s
        → Types funs HasWord (gen_expr e s)
    expr-Types (number_expr i v) s h w = returns (w, refl)
    expr-Types (variable_expr i x) s h w =
        variable-Types (lookup x s.named_values) x s (w.named_values x) w
    expr-Types (binary_expr i op l r) s (ha, hl, hr) w =
        operands HasWord (gen_expr l) (gen_expr r) _ s tt (expr-Types l s hl w)
          (λ s₁ w₁. expr-Types r s₁ hr w₁)
          (λ lv rv s₂ el er w₂. binary-Types (operator_of op) op lv rv s₂ ha el er w₂)
    expr-Types (fun_app_expr i f es) s (hf, hs) w =
        valued HasWord HasWord _ tt (expr-Types f s hf w) (λ fv s₁ w₁ e.
          called-Types s₁.tip_ftable fv (count_exprs es) (gen_args es) s₁ e w₁.tip_ftable w₁
            (λ s₂ w₂. args-Types es s₂ hs w₂))
    expr-Types (input_expr i) s h w = input-Types s.input_intrinsic s w.input_intrinsic w
    expr-Types (alloc_expr i e) s h w =
        valued HasWord HasWord _ tt (expr-Types e s h w)
          (λ v s₁ w₁ k. alloc-Types s₁.malloc_fun v s₁ k w₁.malloc_fun w₁)
    expr-Types (ref_expr i x r) s h w =
        ref-Types (lookup x s.named_values) x s refl (w.named_values x) w
    expr-Types (de_ref_expr i e) s h w =
        de_ref-Types s.l_value_gen (gen_expr e) s w.l_value_gen (expr-Types e s h w)
    expr-Types (null_expr i) s h w = returns (typed_more tt w, refl)
    expr-Types (field_expr f) s h w = returns (logged w.named_values w, tt)
    expr-Types (record_expr i fs) s h w = returns (logged w.named_values w, tt)
    expr-Types (access_expr i e f) s h w = returns (logged w.named_values w, tt)

    args-Types :
        (es : Exprs) (s : CodeState)
        → AllIntegral es
        → WellTyped funs s
        → Types funs (HasArgs (count_exprs es)) (gen_args es s)
    args-Types no_exprs s h w = returns (w, (refl, tt))
    args-Types (exprs e es) s (h, hs) w =
        after (λ t _. tt) (expr-Types e s h w)
          λ o s₁ (w₁, k).
            arg-Types o (count_exprs es) (gen_args es) s₁ k w₁ (λ s₂ w₂. args-Types es s₂ hs w₂)

  -- A condition, which is compared with zero of its own type.
  pub condition-Types :
      (e : Expr) (s : CodeState)
      → IsCondition e
      → WellTyped funs s
      → Types funs HasInteger (gen_expr e s)
  unfolding gen_expr
  condition-Types (binary_expr i op l r) s (hl, hr) w =
      operands HasInteger (gen_expr l) (gen_expr r) _ s tt (expr-Types l s hl w)
        (λ s₁ w₁. expr-Types r s₁ hr w₁)
        (λ lv rv s₂ el er w₂. compare-Types (operator_of op) op lv rv s₂ el er w₂)
  condition-Types (number_expr i v) s h w =
      expr-Types (number_expr i v) s h w ▷ λ q (w₁, k). (w₁, integer q.0 k)
  condition-Types (variable_expr i x) s h w =
      expr-Types (variable_expr i x) s h w ▷ λ q (w₁, k). (w₁, integer q.0 k)
  condition-Types (fun_app_expr i f es) s h w =
      expr-Types (fun_app_expr i f es) s h w ▷ λ q (w₁, k). (w₁, integer q.0 k)
  condition-Types (input_expr i) s h w =
      expr-Types (input_expr i) s h w ▷ λ q (w₁, k). (w₁, integer q.0 k)
  condition-Types (alloc_expr i e) s h w =
      expr-Types (alloc_expr i e) s h w ▷ λ q (w₁, k). (w₁, integer q.0 k)
  condition-Types (ref_expr i x r) s h w =
      expr-Types (ref_expr i x r) s h w ▷ λ q (w₁, k). (w₁, integer q.0 k)
  condition-Types (de_ref_expr i e) s h w =
      expr-Types (de_ref_expr i e) s h w ▷ λ q (w₁, k). (w₁, integer q.0 k)
  condition-Types (null_expr i) s h w =
      expr-Types (null_expr i) s h w ▷ λ q (w₁, k). (w₁, integer q.0 k)
  condition-Types (field_expr f) s h w =
      expr-Types (field_expr f) s h w ▷ λ q (w₁, k). (w₁, integer q.0 k)
  condition-Types (record_expr i fs) s h w =
      expr-Types (record_expr i fs) s h w ▷ λ q (w₁, k). (w₁, integer q.0 k)
  condition-Types (access_expr i e f) s h w =
      expr-Types (access_expr i e f) s h w ▷ λ q (w₁, k). (w₁, integer q.0 k)
