-- ===== src/Ast/Resolves.antt =====
-- The ids that `genId` (src/TIPast.cpp) gives to the variables and references of a body.
use tipc.Prelude.{ℕ, ◌≡◌, refl, sym, ap, Option, none, some, String, String_eq}
use tipc.Prelude.Dict.{Dict, lookup}
use tipc.Prelude.Result.{Post, returns, throws}
use tipc.Unify.Laws.{IsTypeError}
use tipc.Ast.{
  GenState, found_fun, found_var, resolve, var_entry, gen_expr, gen_exprs, gen_stmt, gen_else,
  gen_stmts,
}
use tipc.Ast.Erase.{
  erase_expr_twice, erase_fields_twice, erase_expr, erase_exprs, erase_stmt, erase_else,
  erase_stmts,
}
use tipc.Prelude.State.{◌⇒◌}
use tipc.Ast.FunctionNumbering.{HasNumber}
use tipc.Tree.{
  Expr, Exprs, number_expr, variable_expr, binary_expr, fun_app_expr, input_expr, alloc_expr,
  ref_expr, de_ref_expr, null_expr, field_expr, record_expr, access_expr, no_exprs, exprs, field,
  Stmt, ElseStmt, Stmts, decl_stmt, block_stmt, assign_stmt, while_stmt, if_stmt, output_stmt,
  error_stmt, return_stmt, no_else, else_stmt, no_stmts, stmts,
}
use tipc.Ast.Scope.{
  first_of, Resolved, AllResolved, StmtResolved, ElseResolved, StmtsResolved, RefsIn, AllRefsIn,
  StmtRefsIn, ElseRefsIn, StmtsRefsIn,
}

module _ (vars funs : Dict String ℕ) (P : String → Type 0)
    (numbered : (x : String) → P x → HasNumber vars x) where
  -- The globals during the walk over a body.
  abbrev pub At : GenState → Type 0
  At s = (s.var2id ≡ vars) × (s.fun2id ≡ funs)

  resolve-At :
      (x : String) (s : GenState)
      → At s
      → Post
          (λ r. (first_of (lookup x vars) (lookup x funs) ≡ some r.0) × At r.1)
          IsTypeError
          (resolve x s)
  unfolding resolve
  resolve-At x s (v, f) = by_variable (lookup x s.var2id) (ap (λ m. lookup x m) (sym v))
    where
      by_function :
          (o : Option ℕ)
          → lookup x vars ≡ none
          → lookup x funs ≡ o
          → Post
              (λ r. (first_of (lookup x vars) (lookup x funs) ≡ some r.0) × At r.1)
              IsTypeError
              (found_fun o x s)
      by_function none e k = throws (_, refl)
      by_function (some n) e k = returns (rw (e, k) refl, (v, f))

      by_variable :
          (o : Option ℕ)
          → lookup x vars ≡ o
          → Post
              (λ r. (first_of (lookup x vars) (lookup x funs) ≡ some r.0) × At r.1)
              IsTypeError
              (found_var o x s)
      by_variable none e = by_function (lookup x s.fun2id) e (ap (λ m. lookup x m) (sym f))
      by_variable (some n) e = returns (rw e refl, (v, f))

  var_entry-At :
      (x : String) (s : GenState)
      → P x
      → At s
      → Post (λ r. (lookup x vars ≡ some r.0) × At r.1) IsTypeError (var_entry x s)
  var_entry-At x s p (v, f) =
      let (n, found) = numbered x p in
      let here : lookup x s.var2id ≡ some n = rw v found in rw here (returns (found, (v, f)))

  mutual
    unfolding gen_expr erase_expr Resolved RefsIn

    resolves :
        (e : Expr) (s : GenState)
        → RefsIn P e
        → At s
        → Post (λ r. Resolved vars funs r.0 × At r.1) IsTypeError (gen_expr (erase_expr e) s)
    resolves (number_expr i v) s h a = returns (tt, a)
    resolves (variable_expr i x) s h a = resolve-At x s a ⇒ λ n s' k. returns k
    resolves (binary_expr i op l r) s (hl, hr) a = resolves l _ hl a ⇒ λ l' s₁ (kl, a₁).
        resolves r s₁ hr a₁ ⇒ λ r' s₂ (kr, a₂). returns ((kl, kr), a₂)
    resolves (fun_app_expr i f es) s (hs, hf) a = resolves_all es _ hs a ⇒ λ es' s₁ (ks, a₁).
        resolves f s₁ hf a₁ ⇒ λ f' s₂ (kf, a₂). returns ((ks, kf), a₂)
    resolves (input_expr i) s h a = returns (tt, a)
    resolves (alloc_expr i e) s h a = resolves e _ h a ⇒ λ e' s₁ k. returns k
    resolves (ref_expr i x r) s h a = var_entry-At x _ h a ⇒ λ n s₁ k. returns k
    resolves (de_ref_expr i e) s h a = resolves e _ h a ⇒ λ e' s₁ k. returns k
    resolves (null_expr i) s h a = returns (tt, a)
    resolves (field_expr (field i f e)) s h a = returns (erase_expr_twice e, a)
    resolves (record_expr i fs) s h a = returns (erase_fields_twice fs, a)
    resolves (access_expr i e f) s h a = returns (erase_expr_twice e, a)

    resolves_all :
        (es : Exprs) (s : GenState)
        → AllRefsIn P es
        → At s
        → Post (λ r. AllResolved vars funs r.0 × At r.1) IsTypeError (gen_exprs (erase_exprs es) s)
    resolves_all no_exprs s h a = returns (tt, a)
    resolves_all (exprs e es) s (h, hs) a = resolves e s h a ⇒ λ e' s₁ (k, a₁).
        resolves_all es s₁ hs a₁ ⇒ λ es' s₂ (ks, a₂). returns ((k, ks), a₂)

  mutual
    unfolding gen_stmt erase_stmt StmtResolved StmtRefsIn

    stmt_resolves :
        (b : Stmt) (s : GenState)
        → StmtRefsIn P b
        → At s
        → Post (λ r. StmtResolved vars funs r.0 × At r.1) IsTypeError (gen_stmt (erase_stmt b) s)
    stmt_resolves (decl_stmt d) s h a = absurd h
    stmt_resolves (block_stmt i bs) s h a = stmts_resolve bs _ h a ⇒ λ bs' s₁ k. returns k
    stmt_resolves (assign_stmt i l r) s (hl, hr) a = resolves l _ hl a ⇒ λ l' s₁ (kl, a₁).
        resolves r s₁ hr a₁ ⇒ λ r' s₂ (kr, a₂). returns ((kl, kr), a₂)
    stmt_resolves (while_stmt i c b) s (hc, hb) a = resolves c _ hc a ⇒ λ c' s₁ (kc, a₁).
        stmt_resolves b s₁ hb a₁ ⇒ λ b' s₂ (kb, a₂). returns ((kc, kb), a₂)
    stmt_resolves (if_stmt i c b e) s (hc, hb, he) a = resolves c _ hc a ⇒ λ c' s₁ (kc, a₁).
        stmt_resolves b s₁ hb a₁ ⇒ λ b' s₂ (kb, a₂).
        else_resolves e s₂ he a₂ ⇒ λ e' s₃ (ke, a₃). returns ((kc, kb, ke), a₃)
    stmt_resolves (output_stmt i e) s h a = resolves e _ h a ⇒ λ e' s₁ k. returns k
    stmt_resolves (error_stmt i e) s h a = resolves e _ h a ⇒ λ e' s₁ k. returns k
    stmt_resolves (return_stmt i e) s h a = resolves e _ h a ⇒ λ e' s₁ k. returns k

    else_resolves :
        (e : ElseStmt) (s : GenState)
        → ElseRefsIn P e
        → At s
        → Post (λ r. ElseResolved vars funs r.0 × At r.1) IsTypeError (gen_else (erase_else e) s)
    else_resolves no_else s h a = returns (tt, a)
    else_resolves (else_stmt b) s h a = stmt_resolves b s h a ⇒ λ b' s₁ k. returns k

    stmts_resolve :
        (bs : Stmts) (s : GenState)
        → StmtsRefsIn P bs
        → At s
        → Post
            (λ r. StmtsResolved vars funs r.0 × At r.1)
            IsTypeError
            (gen_stmts (erase_stmts bs) s)
    stmts_resolve no_stmts s h a = returns (tt, a)
    stmts_resolve (stmts b bs) s (h, hs) a = stmt_resolves b s h a ⇒ λ b' s₁ (k, a₁).
        stmts_resolve bs s₁ hs a₁ ⇒ λ bs' s₂ (ks, a₂). returns ((k, ks), a₂)

  pub gen_stmts-Resolved :
      (bs : Stmts) (s : GenState)
      → StmtsRefsIn P bs
      → At s
      → Post (λ r. StmtsResolved vars funs r.0 × At r.1) IsTypeError (gen_stmts (erase_stmts bs) s)
  gen_stmts-Resolved = stmts_resolve
