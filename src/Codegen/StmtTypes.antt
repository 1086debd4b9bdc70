-- ===== src/Codegen/StmtTypes.antt =====
-- The types of the code of a statement (src/TIPtreeGen.cpp).
use tipc.Prelude.{
  ℕ, ◌≡◌, refl, ap, ◌∙◌, String, String_eq, true, Option, none, some, List, [], ◌∷◌, length,
}
use tipc.Prelude.Dict.{lookup}
use tipc.Prelude.Result.{Result, returns, throws}
use tipc.Prelude.State.{then_run, after, ◌>>=◌}
use tipc.Llvm.{result, i64, void, ptr, fn, Value, value_type, create_call}
use tipc.Tree.{
  Expr, number_expr, variable_expr, binary_expr, fun_app_expr, input_expr, alloc_expr, ref_expr,
  de_ref_expr, null_expr, field_expr, record_expr, access_expr, Stmt, ElseStmt, Stmts, decl_stmt,
  block_stmt, assign_stmt, while_stmt, if_stmt, output_stmt, error_stmt, return_stmt, no_else,
  else_stmt, no_stmts, stmts,
}
use tipc.Codegen.Supported.{Decls}
use tipc.Codegen.{
  CodeState, Code, gen_expr, not_null, emit_last, unless_null, variable_code, function_code,
}
use tipc.Codegen.Statements.{
  gen_target, gen_stmt, gen_else, gen_block, reset_l_value, output_function, error_function,
  call_nop, last_or_nop,
}
use tipc.Codegen.Typing.{
  HasType, IsAddress, WellTyped, typed_more, typed_with, relabelled, Types, valued,
}
use tipc.Codegen.OperandTypes.{logged, HasWord, HasInteger, IsIntegral, IsCondition}
use tipc.Codegen.ExprTypes.{expr-Types, condition-Types}

-- A variable that is assigned to is not a function's name.
abbrev pub IsTypedTarget : Decls → Expr → Type 0
IsTypedTarget funs (variable_expr i x) = lookup x funs ≡ none
IsTypedTarget funs (de_ref_expr i e) = IsIntegral e
IsTypedTarget funs _ = ⊥

-- Comparisons stand as conditions only, and nothing is declared or returned.
unfoldable mutual
  pub IsTypable : Decls → Stmt → Type 0
  IsTypable funs (block_stmt i bs) = AllTypable funs bs
  IsTypable funs (assign_stmt i l r) = IsTypedTarget funs l × IsIntegral r
  IsTypable funs (while_stmt i c b) = IsCondition c × IsTypable funs b
  IsTypable funs (if_stmt i c b e) = IsCondition c × IsTypable funs b × ElseIsTypable funs e
  IsTypable funs (output_stmt i e) = IsIntegral e
  IsTypable funs (error_stmt i e) = IsIntegral e
  IsTypable funs (return_stmt i e) = ⊥
  IsTypable funs (decl_stmt d) = ⊥

  pub ElseIsTypable : Decls → ElseStmt → Type 0
  ElseIsTypable funs no_else = Unit
  ElseIsTypable funs (else_stmt b) = IsTypable funs b

  pub AllTypable : Decls → Stmts → Type 0
  AllTypable funs no_stmts = Unit
  AllTypable funs (stmts b bs) = IsTypable funs b × AllTypable funs bs

abbrev Any : Option Value → Type 0
Any o = Unit

abbrev Address : Option Value → Type 0
Address = HasType (ptr i64)

module _ {funs : Decls} where
  nop-Types : (s : CodeState) → WellTyped funs s → Types funs Any (call_nop s)
  nop-Types s w = go s.nop w.nop
    where
      go :
          (o : Option Value)
          → HasType (ptr (fn 0 void)) o
          → Types funs Any (then_run (not_null o s) (λ f. emit_last (create_call f [])))
      go none h = throws tt
      go (some f) h = returns (typed_more (rw h (refl, tt)) w, tt)

  -- The left side, with the flag for l-values.
  variable_target-Types :
      (nv : Option (Option Value)) (x : String) (s : CodeState)
      → IsAddress nv
      → lookup x s.function_decls ≡ none
      → WellTyped funs s
      → Types funs Address
          (then_run (variable_code nv x (record s { l_value_gen = true })) reset_l_value)
  variable_target-Types (some o) x s h e w = returns (relabelled w.calls refl w, h)
  variable_target-Types none x s h e w = absent (lookup x s.function_decls) e
    where
      absent :
          (d : Option (ℕ × List String))
          → d ≡ none
          → Types funs Address
              (then_run (function_code d x (record s { l_value_gen = true })) reset_l_value)
      absent none e = returns (logged w.named_values (relabelled w.calls refl w), tt)
      absent (some d) e = absurd (cc (e))

  reset-Types :
      {r : Result (Option Value × CodeState)}
      → Types funs Address r
      → Types funs Address (then_run r reset_l_value)
  reset-Types r = after (λ t _. tt) r λ o s (w, h). returns (relabelled w.calls refl w, h)

  target-Types :
      (l : Expr) (s : CodeState)
      → IsTypedTarget funs l
      → WellTyped funs s
      → Types funs Address (gen_target l s)
  unfolding gen_target gen_expr
  target-Types (variable_expr i x) s h w =
      variable_target-Types (lookup x s.named_values) x s (w.named_values x)
        (ap (lookup x) w.function_decls ∙ h) w
  target-Types (de_ref_expr i e) s h w = reset-Types (
      valued HasWord Address _ tt (expr-Types e _ h (relabelled w.calls refl w))
        (λ v s₁ w₁ k. returns (typed_more k w₁, refl)))
  target-Types (number_expr i v) s h w = absurd h
  target-Types (binary_expr i op l r) s h w = absurd h
  target-Types (fun_app_expr i f es) s h w = absurd h
  target-Types (input_expr i) s h w = absurd h
  target-Types (alloc_expr i e) s h w = absurd h
  target-Types (ref_expr i x r) s h w = absurd h
  target-Types (null_expr i) s h w = absurd h
  target-Types (field_expr f) s h w = absurd h
  target-Types (record_expr i fs) s h w = absurd h
  target-Types (access_expr i e f) s h w = absurd h

  -- A call of an intrinsic with the value of an expression.
  passed-Types :
      (f : Value) (e : Expr) (s : CodeState)
      → value_type f ≡ ptr (fn 1 i64)
      → IsIntegral e
      → WellTyped funs s
      → Types funs Any
          (then_run (gen_expr e s) (λ arg. unless_null arg λ v. emit_last (create_call f (v ∷ []))))
  passed-Types f e s h integral w =
      valued HasWord Any _ tt (expr-Types e s integral w)
        (λ v s₁ w₁ k. returns (typed_more (rw h (refl, (k, tt))) w₁, tt))

  output-Types :
      (o : Option Value) (e : Expr) (s : CodeState)
      → HasType (ptr (fn 1 i64)) o
      → IsIntegral e
      → WellTyped funs s
      → Types funs Any (
          then_run
            (output_function o s)
            (λ f. gen_expr e >>= λ arg. unless_null arg λ v. emit_last (create_call f (v ∷ []))))
  output-Types (some f) e s h integral w = passed-Types f e s h integral w
  output-Types none e s h integral w =
      passed-Types (result (length s.calls) (ptr (fn 1 i64))) e _ refl integral
        (typed_with (tt, w.calls) w.input_intrinsic refl w.error_intrinsic w.malloc_fun w)

  error-Types :
      (o : Option Value) (e : Expr) (s : CodeState)
      → HasType (ptr (fn 1 i64)) o
      → IsIntegral e
      → WellTyped funs s
      → Types funs Any (
          then_run
            (error_function o s)
            (λ f. gen_expr e >>= λ arg. unless_null arg λ v. emit_last (create_call f (v ∷ []))))
  error-Types (some f) e s h integral w = passed-Types f e s h integral w
  error-Types none e s h integral w =
      passed-Types (result (length s.calls) (ptr (fn 1 i64))) e _ refl integral
        (typed_with (tt, w.calls) w.input_intrinsic w.output_intrinsic refl w.malloc_fun w)

  parent-Types :
      (o : Option Value) (s : CodeState) (next : Value → Code (Option Value))
      → ((f : Value) → Types funs Any (next f s))
      → Types funs Any (then_run (not_null o s) next)
  parent-Types none s next h = throws tt
  parent-Types (some f) s next h = h f

  mutual
    unfolding gen_stmt IsTypable

    pub stmt-Types :
        (b : Stmt) (s : CodeState)
        → IsTypable funs b
        → WellTyped funs s
        → Types funs Any (gen_stmt b s)
    stmt-Types (decl_stmt d) s h w = absurd h
    stmt-Types (return_stmt i e) s h w = absurd h
    stmt-Types (assign_stmt i l r) s (hl, hr) w =
        valued Address Any _ tt (target-Types l s hl w) λ lv s₁ w₁ el.
          valued HasWord Any _ tt (expr-Types r s₁ hr w₁)
            λ rv s₂ w₂ er. returns (typed_more (rw (el, er) refl) w₂, tt)
    stmt-Types (output_stmt i e) s h w = output-Types s.output_intrinsic e s w.output_intrinsic h w
    stmt-Types (error_stmt i e) s h w = error-Types s.error_intrinsic e s w.error_intrinsic h w
    stmt-Types (block_stmt i bs) s h w =
        after (λ t _. tt) (stmts-Types bs none s h w) λ o s₁ (w₁, _). last o s₁ w₁
      where
        last :
            (o : Option Value) (s₁ : CodeState)
            → WellTyped funs s₁
            → Types funs Any (last_or_nop o s₁)
        last none s₁ w₁ = nop-Types s₁ w₁
        last (some v) s₁ w₁ = returns (w₁, tt)
    stmt-Types (while_stmt i c b) s (hc, hb) w = parent-Types s.insert_function s _ λ f.
        valued HasInteger Any _ tt
          (condition-Types c _ hc
            (relabelled (tt, (tt, (tt, (tt, (tt, w.calls))))) w.l_value_gen w))
          λ v s₁ w₁ k.
            valued Any Any _ tt
              (stmt-Types b _ hb (relabelled (tt, (tt, (refl, (k, w₁.calls)))) w₁.l_value_gen w₁))
              λ u s₂ w₂ _. nop-Types _ (relabelled (tt, (tt, (tt, w₂.calls))) w₂.l_value_gen w₂)
    stmt-Types (if_stmt i c b e) s (hc, hb, he) w =
        valued HasInteger Any _ tt (condition-Types c s hc w) λ v s₁ w₁ k.
          parent-Types s₁.insert_function _ _ λ f.
            valued Any Any _ tt
              (stmt-Types b _ hb
                (relabelled (tt, (refl, (tt, (tt, (tt, (k, w₁.calls)))))) w₁.l_value_gen w₁))
              λ u s₂ w₂ _.
                valued Any Any _ tt
                  (else-Types e _ he (relabelled (tt, (tt, (tt, w₂.calls))) w₂.l_value_gen w₂))
                  λ t s₃ w₃ _. nop-Types _ (relabelled (tt, (tt, (tt, w₃.calls))) w₃.l_value_gen w₃)

    else-Types :
        (e : ElseStmt) (s : CodeState)
        → ElseIsTypable funs e
        → WellTyped funs s
        → Types funs Any (gen_else e s)
    else-Types no_else s h w = nop-Types s w
    else-Types (else_stmt b) s h w = stmt-Types b s h w

    stmts-Types :
        (bs : Stmts) (last : Option Value) (s : CodeState)
        → AllTypable funs bs
        → WellTyped funs s
        → Types funs Any (gen_block bs last s)
    stmts-Types no_stmts last s h w = returns (w, tt)
    stmts-Types (stmts b bs) last s (h, hs) w =
        after (λ t _. tt) (stmt-Types b s h w) λ o s₁ (w₁, _). stmts-Types bs o s₁ hs w₁
