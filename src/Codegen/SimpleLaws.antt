-- ===== src/Codegen/SimpleLaws.antt =====
-- `codegen` of the statements without blocks (src/TIPtreeGen.cpp).
use tipc.Prelude.{
  inl, inr, subst, ℕ, ◌≡◌, refl, sym, ◌∙◌, String, String_eq, true, false, Option, none, some, List,
  [], ◌∷◌,
}
use tipc.Prelude.Dict.{lookup}
use tipc.Prelude.Result.{Result, returns, throws}
use tipc.Prelude.State.{then_run, ◌>>=◌}
use tipc.Llvm.{Value, create_call}
use tipc.Tree.{
  Expr, number_expr, variable_expr, binary_expr, fun_app_expr, input_expr, alloc_expr, ref_expr,
  de_ref_expr, null_expr, field_expr, record_expr, access_expr, assign_stmt, output_stmt,
  error_stmt,
}
use tipc.Codegen.{CodeState, gen_expr, variable_code, function_code, emit_last, unless_null}
use tipc.Codegen.Statements.{
  gen_target, gen_stmt, reset_l_value, output_function, error_function, call_nop,
}
use tipc.Codegen.Grown.{plainly, with_function, same, more, IsReady}
use tipc.Codegen.Supported.{Names, Decls, IsVariable, At, Supported, TargetSupported, IsTarget}
use tipc.Codegen.PartLaws.{Codes, Judged}
use tipc.Codegen.ExprLaws.{gen_expr-Codes}
use tipc.Codegen.Emitted.{Emitted-trans, Plain-Emitted}
use tipc.Codegen.Made.{
  IsInside, Emitted-IsInside, Yields, Makes, Makes-after, stage, present, reflag,
}

module _ {cond : Type 0} {vars : Names} {funs : Decls} where
  pub nop-Makes :
      (s : CodeState) → IsInside s → (cond → At vars funs s) → Makes cond vars funs s (call_nop s)
  nop-Makes s (_, _, n, nop) at =
      present s.nop n _ nop
        (λ f. returns (Plain-Emitted (plainly (more tt same)), λ c. ((_, refl), at c)))

  pub expr-Makes :
      (e : Expr) (s : CodeState)
      → (cond → Supported vars funs e)
      → IsReady s
      → (cond → At vars funs s)
      → Makes cond vars funs s (gen_expr e s)
  expr-Makes e s needs ready at =
      given (gen_expr-Codes e s.named_values s.function_decls s ready (refl, refl))
    where
      here : cond → Supported s.named_values s.function_decls e
      here c =
          let (v, f) = at c in
          subst (λ m. Supported m s.function_decls e) (sym v)
            (subst (λ m. Supported vars m e) (sym f) (needs c))

      yields :
          (o : Option Value) (s' : CodeState)
          → Judged
              (Supported s.named_values s.function_decls e)
              s.named_values
              s.function_decls
              o
              s'
          → Yields cond vars funs o s'
      yields none s' fails = λ c. absurd (fails (here c))
      yields (some v) s' (_, (same_vars, same_funs)) =
          λ c. ((v, refl), (same_vars ∙ (at c).0, same_funs ∙ (at c).1))

      given :
          {r : Result (Option Value × CodeState)}
          → Codes (Supported s.named_values s.function_decls e) s.named_values s.function_decls s r
          → Makes cond vars funs s r
      given (returns {val} (p, h)) = returns (Plain-Emitted p, yields val.0 val.1 h)
      given (throws (u, fails)) = throws (u, λ c. fails (here c))

  -- A left side that is a variable, by what `NamedValues` has for it.
  variable-Makes :
      (nv : Option (Option Value)) (x : String) (s : CodeState)
      → lookup x s.named_values ≡ nv
      → (cond → IsVariable (lookup x vars))
      → s.l_value_gen ≡ false
      → (cond → At vars funs s)
      → Makes cond vars funs s
          (then_run (variable_code nv x (record s { l_value_gen = true })) reset_l_value)
  variable-Makes (some nv) x s found needs flag at =
      returns (reflag flag, λ c. (has_address nv (rw (← (at c).0, found) at (needs c)), at c))
    where
      has_address : (nv : Option Value) → IsVariable (some nv) → (v : Value) × (nv ≡ some v)
      has_address none h = absurd h
      has_address (some v) h = (v, refl)
  variable-Makes none x s found needs flag at = absent (lookup x s.function_decls)
    where
      never : cond → ⊥
      never c = rw (← (at c).0, found) at (needs c)

      absent :
          (d : Option (ℕ × List String))
          → Makes cond vars funs s
              (then_run (function_code d x (record s { l_value_gen = true })) reset_l_value)
      absent none =
          returns
            (Emitted-trans (reflag flag) (Plain-Emitted (plainly same)), λ c. absurd (never c))
      absent (some d) = returns (reflag flag, λ c. absurd (never c))

  -- A left side that is a dereference.
  de_ref-Makes :
      (e : Expr) (s : CodeState)
      → (cond → Supported vars funs e)
      → IsReady s
      → (cond → At vars funs s)
      → Makes cond vars funs s (gen_target (de_ref_expr 0 e) s)
  unfolding gen_target gen_expr
  de_ref-Makes e s needs (flag, t, table) at = Makes-after (reflag flag) (
      again (
        stage _ (λ c. c) (expr-Makes e (record s { l_value_gen = false }) needs (refl, t, table) at)
          (λ v s₁ x at₁.
            returns (Plain-Emitted (plainly (more tt same)), λ c. ((_, refl), at₁ c)))))
    where
      again :
          {r : Result (Option Value × CodeState)}
          → Makes cond vars funs (record s { l_value_gen = false }) r
          → Makes cond vars funs (record s { l_value_gen = false }) (then_run r reset_l_value)
      again (returns (x, h)) = returns (Emitted-trans x (reflag x.l_value_gen), h)
      again (throws h) = throws h

  target-Makes :
      (l : Expr) (s : CodeState)
      → IsTarget l
      → (cond → TargetSupported vars funs l)
      → IsReady s
      → (cond → At vars funs s)
      → Makes cond vars funs s (gen_target l s)
  unfolding gen_target gen_expr
  target-Makes (variable_expr i x) s target needs ready at =
      variable-Makes (lookup x s.named_values) x s refl needs ready.0 at
  target-Makes (de_ref_expr i e) s target needs ready at = de_ref-Makes e s needs ready at
  target-Makes (number_expr i v) s target needs ready at = absurd target
  target-Makes (binary_expr i op l r) s target needs ready at = absurd target
  target-Makes (fun_app_expr i f es) s target needs ready at = absurd target
  target-Makes (input_expr i) s target needs ready at = absurd target
  target-Makes (alloc_expr i e) s target needs ready at = absurd target
  target-Makes (ref_expr i x r) s target needs ready at = absurd target
  target-Makes (null_expr i) s target needs ready at = absurd target
  target-Makes (field_expr f) s target needs ready at = absurd target
  target-Makes (record_expr i fs) s target needs ready at = absurd target
  target-Makes (access_expr i e f) s target needs ready at = absurd target

  pub assign-Makes :
      (l r : Expr) (i : ℕ) (s : CodeState)
      → IsTarget l
      → (cond → TargetSupported vars funs l × Supported vars funs r)
      → IsInside s
      → (cond → At vars funs s)
      → Makes cond vars funs s (gen_stmt (assign_stmt i l r) s)
  unfolding gen_stmt
  assign-Makes l r i s target needs inside at =
      stage _ (λ c. c) (target-Makes l s target (λ c. (needs c).0) inside.0 at)
        λ lv s₁ x at₁.
          stage _ (λ c. c) (expr-Makes r s₁ (λ c. (needs c).1) (Emitted-IsInside x inside).0 at₁)
            λ rv s₂ y at₂. returns (Plain-Emitted (plainly (more tt same)), λ c. ((_, refl), at₂ c))

  pub output-Makes :
      (e : Expr) (i : ℕ) (s : CodeState)
      → (cond → Supported vars funs e)
      → IsInside s
      → (cond → At vars funs s)
      → Makes cond vars funs s (gen_stmt (output_stmt i e) s)
  unfolding gen_stmt
  output-Makes e i s needs inside at = declared s.output_intrinsic
    where
      declared :
          (o : Option Value)
          → Makes cond vars funs s (
              then_run (output_function o s) (λ f.
                gen_expr e >>= λ arg. unless_null arg λ v. emit_last (create_call f (v ∷ []))))
      declared none =
          Makes-after
            (Plain-Emitted (with_function "_tip_output" _ (more (inr (inr (inl refl))) same)))
            (stage _ (λ c. c) (expr-Makes e _ needs inside.0 at)
              λ v s₁ x at₁.
                returns (Plain-Emitted (plainly (more tt same)), λ c. ((_, refl), at₁ c)))
      declared (some f) =
          stage _ (λ c. c) (expr-Makes e s needs inside.0 at)
            λ v s₁ x at₁. returns (Plain-Emitted (plainly (more tt same)), λ c. ((_, refl), at₁ c))

  pub error-Makes :
      (e : Expr) (i : ℕ) (s : CodeState)
      → (cond → Supported vars funs e)
      → IsInside s
      → (cond → At vars funs s)
      → Makes cond vars funs s (gen_stmt (error_stmt i e) s)
  unfolding gen_stmt
  error-Makes e i s needs inside at = declared s.error_intrinsic
    where
      declared :
          (o : Option Value)
          → Makes cond vars funs s (
              then_run (error_function o s) (λ f.
                gen_expr e >>= λ arg. unless_null arg λ v. emit_last (create_call f (v ∷ []))))
      declared none =
          Makes-after
            (Plain-Emitted (with_function "_tip_error" _ (more (inr (inr (inr refl))) same)))
            (stage _ (λ c. c) (expr-Makes e _ needs inside.0 at)
              λ v s₁ x at₁.
                returns (Plain-Emitted (plainly (more tt same)), λ c. ((_, refl), at₁ c)))
      declared (some f) =
          stage _ (λ c. c) (expr-Makes e s needs inside.0 at)
            λ v s₁ x at₁. returns (Plain-Emitted (plainly (more tt same)), λ c. ((_, refl), at₁ c))
