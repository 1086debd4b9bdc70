-- ===== src/Ast/StmtNumbering.antt =====
-- `genId` on the statements of a tree that has no ids yet.
use tipc.Prelude.{
  ℕ, suc, ◌≡◌, refl, sym, ap, ap₂, ◌∙◌, List, [], ◌∷◌, ◌++◌, append_assoc, append-nil, String,
  length,
}
use tipc.Prelude.Result.{Post, returns, ◌▷◌}
use tipc.Unify.Laws.{IsTypeError}
use tipc.Ast.Reached.{StmtRefsSet, ElseRefsSet, StmtsRefsSet}
use tipc.Ast.{GenState, gen_names, gen_decl, gen_decls, gen_stmt, gen_else, gen_stmts}
use tipc.Ast.Erase.{erase_decl, erase_decls, erase_stmt, erase_else, erase_stmts}
use tipc.Ast.Numbering.{
  OneIdEach, Ran, Ran-refl, Ran-append, decl_ids, decls_ids, stmt_ids, else_ids, stmts_ids,
}
use tipc.Prelude.State.{◌⇒◌}
use tipc.Ast.ExprNumbering.{Ran-next, gen_expr-Numbered}
use tipc.Tree.{
  DeclStmt, Stmt, ElseStmt, Stmts, decl_stmt, block_stmt, assign_stmt, while_stmt, if_stmt,
  output_stmt, error_stmt, return_stmt, no_else, else_stmt, no_stmts, stmts,
}

-- A loop over names pushes consecutive numbers, one for each name.
pub record NamesNumbered (xs : List String) (ids : List ℕ) (s : GenState) (r : List ℕ × GenState)
    : Type 0 where
  pub new : List ℕ
  pub pushed : r.0 ≡ ids ++ new
  pub ran : Ran s new r.1
  pub one_each : length new ≡ length xs

pub gen_names-Numbered :
    (xs : List String) (ids : List ℕ) (s : GenState)
    → Post (NamesNumbered xs ids s) IsTypeError (gen_names xs ids s)
unfolding gen_names
gen_names-Numbered [] ids s =
    returns (record { new = []; pushed = sym (append-nil ids); ran = Ran-refl; one_each = refl })
gen_names-Numbered (x ∷ xs) ids s = gen_names-Numbered xs (ids ++ s.ast_counter ∷ []) _ ▷ λ r h.
    record {
      new = s.ast_counter ∷ h.new;
      pushed = h.pushed ∙ append_assoc ids (s.ast_counter ∷ []) h.new;
      ran =
          Ran-append {ms = s.ast_counter ∷ []}
            (record { gives = (refl, refl); same_functions = refl }) h.ran;
      one_each = ap suc h.one_each;
    }

pub record DeclNumbered (d : DeclStmt) (s : GenState) (r : DeclStmt × GenState) : Type 0 where
  pub shape : erase_decl r.0 ≡ erase_decl d
  pub ran : Ran s (decl_ids r.0) r.1
  pub one_each : length r.0.var_ids ≡ length r.0.vars

pub gen_decl-Numbered :
    (d : DeclStmt) (s : GenState) → Post (DeclNumbered d s) IsTypeError (gen_decl (erase_decl d) s)
unfolding gen_decl
gen_decl-Numbered d s = gen_names-Numbered d.vars [] _ ⇒ λ ids s₁ h. returns (record {
  shape = refl;
  ran = rw h.pushed (Ran-append (Ran-next s) h.ran);
  one_each = rw h.pushed h.one_each;
})

pub record DeclsNumbered (ds : List DeclStmt) (s : GenState) (r : List DeclStmt × GenState)
    : Type 0 where
  pub shape : erase_decls r.0 ≡ erase_decls ds
  pub ran : Ran s (decls_ids r.0) r.1
  pub one_each : OneIdEach r.0

pub gen_decls-Numbered :
    (ds : List DeclStmt) (s : GenState)
    → Post (DeclsNumbered ds s) IsTypeError (gen_decls (erase_decls ds) s)
unfolding gen_decls
gen_decls-Numbered [] s = returns (record { shape = refl; ran = Ran-refl; one_each = tt })
gen_decls-Numbered (d ∷ ds) s = gen_decl-Numbered d s ⇒ λ d' s₁ h.
    gen_decls-Numbered ds s₁ ⇒ λ ds' s₂ k. returns (record {
      shape = ap₂ (λ a b. a ∷ b) h.shape k.shape;
      ran = Ran-append h.ran k.ran;
      one_each = (h.one_each, k.one_each);
    })

-- The result has the shape of the statement, consecutive ids, and numbered references.
pub record StmtNumbered (b : Stmt) (s : GenState) (r : Stmt × GenState) : Type 0 where
  pub shape : erase_stmt r.0 ≡ erase_stmt b
  pub ran : Ran s (stmt_ids r.0) r.1
  pub refs : StmtRefsSet r.0

record ElseNumbered (e : ElseStmt) (s : GenState) (r : ElseStmt × GenState) : Type 0 where
  shape : erase_else r.0 ≡ erase_else e
  ran : Ran s (else_ids r.0) r.1
  refs : ElseRefsSet r.0

pub record StmtsNumbered (bs : Stmts) (s : GenState) (r : Stmts × GenState) : Type 0 where
  pub shape : erase_stmts r.0 ≡ erase_stmts bs
  pub ran : Ran s (stmts_ids r.0) r.1
  pub refs : StmtsRefsSet r.0

mutual
  unfolding gen_stmt erase_stmt stmt_ids StmtRefsSet

  numbered :
      (b : Stmt) (s : GenState) → Post (StmtNumbered b s) IsTypeError (gen_stmt (erase_stmt b) s)
  numbered (decl_stmt d) s = gen_decl-Numbered d s ⇒ λ d' s₁ h.
      returns (record { shape = ap decl_stmt h.shape; ran = h.ran; refs = tt })
  numbered (block_stmt i bs) s = all_numbered bs _ ⇒ λ bs' s₁ h. returns (record {
    shape = ap (block_stmt 0) h.shape;
    ran = Ran-append (Ran-next s) h.ran;
    refs = h.refs;
  })
  numbered (assign_stmt i l r) s = gen_expr-Numbered l _ ⇒ λ l' s₁ h.
      gen_expr-Numbered r s₁ ⇒ λ r' s₂ k. returns (record {
        shape = ap₂ (assign_stmt 0) h.shape k.shape;
        ran = Ran-append (Ran-next s) (Ran-append h.ran k.ran);
        refs = (h.refs, k.refs);
      })
  numbered (while_stmt i c b) s = gen_expr-Numbered c _ ⇒ λ c' s₁ h. numbered b s₁ ⇒ λ b' s₂ k.
      returns (record {
        shape = ap₂ (while_stmt 0) h.shape k.shape;
        ran = Ran-append (Ran-next s) (Ran-append h.ran k.ran);
        refs = (h.refs, k.refs);
      })
  numbered (if_stmt i c b e) s = gen_expr-Numbered c _ ⇒ λ c' s₁ h. numbered b s₁ ⇒ λ b' s₂ k.
      else_numbered e s₂ ⇒ λ e' s₃ l. returns (record {
        shape = rw (h.shape, k.shape, l.shape);
        ran = Ran-append (Ran-next s) (Ran-append h.ran (Ran-append k.ran l.ran));
        refs = (h.refs, k.refs, l.refs);
      })
  numbered (output_stmt i e) s = gen_expr-Numbered e _ ⇒ λ e' s₁ h. returns (record {
    shape = ap (output_stmt 0) h.shape;
    ran = Ran-append (Ran-next s) h.ran;
    refs = h.refs;
  })
  numbered (error_stmt i e) s = gen_expr-Numbered e _ ⇒ λ e' s₁ h. returns (record {
    shape = ap (error_stmt 0) h.shape;
    ran = Ran-append (Ran-next s) h.ran;
    refs = h.refs;
  })
  numbered (return_stmt i e) s = gen_expr-Numbered e _ ⇒ λ e' s₁ h. returns (record {
    shape = ap (return_stmt 0) h.shape;
    ran = Ran-append (Ran-next s) h.ran;
    refs = h.refs;
  })

  else_numbered :
      (e : ElseStmt) (s : GenState)
      → Post (ElseNumbered e s) IsTypeError (gen_else (erase_else e) s)
  else_numbered no_else s = returns (record { shape = refl; ran = Ran-refl; refs = tt })
  else_numbered (else_stmt b) s = numbered b s ⇒ λ b' s₁ h.
      returns (record { shape = ap else_stmt h.shape; ran = h.ran; refs = h.refs })

  all_numbered :
      (bs : Stmts) (s : GenState)
      → Post (StmtsNumbered bs s) IsTypeError (gen_stmts (erase_stmts bs) s)
  all_numbered no_stmts s = returns (record { shape = refl; ran = Ran-refl; refs = tt })
  all_numbered (stmts b bs) s = numbered b s ⇒ λ b' s₁ h. all_numbered bs s₁ ⇒ λ bs' s₂ k.
      returns (record {
        shape = ap₂ stmts h.shape k.shape;
        ran = Ran-append h.ran k.ran;
        refs = (h.refs, k.refs);
      })

pub gen_stmts-Numbered :
    (bs : Stmts) (s : GenState)
    → Post (StmtsNumbered bs s) IsTypeError (gen_stmts (erase_stmts bs) s)
gen_stmts-Numbered = all_numbered
