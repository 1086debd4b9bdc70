-- ===== src/Ast/Scope.antt =====
-- Which declaration the id of a variable stands for.
use tipc.Prelude.{ℕ, ◌≡◌, Option, none, some, String, String_eq}
use tipc.Prelude.Dict.{Dict, lookup}
use tipc.Ast.Erase.{erase_expr, erase_fields}
use tipc.Tree.{
  Expr, Exprs, variable_expr, binary_expr, fun_app_expr, alloc_expr, ref_expr, de_ref_expr,
  no_exprs, exprs, field_expr, record_expr, access_expr, field, Stmt, ElseStmt, Stmts, decl_stmt,
  block_stmt, assign_stmt, while_stmt, if_stmt, output_stmt, error_stmt, return_stmt, no_else,
  else_stmt, no_stmts, stmts,
}

abbrev pub first_of : Option ℕ → Option ℕ → Option ℕ
first_of none o = o
first_of (some n) o = some n

-- With the numbers `vars` of the variables and `funs` of the functions, every variable has the
-- number of the variable of its name, else that of the function, and a reference that of its
-- variable; but what stands inside of a record, a field or an access has no ids.
unfoldable mutual
  pub Resolved : Dict String ℕ → Dict String ℕ → Expr → Type 0
  Resolved vars funs (variable_expr i x) = first_of (lookup x vars) (lookup x funs) ≡ some i
  Resolved vars funs (binary_expr i op l r) = Resolved vars funs l × Resolved vars funs r
  Resolved vars funs (fun_app_expr i f es) = AllResolved vars funs es × Resolved vars funs f
  Resolved vars funs (alloc_expr i e) = Resolved vars funs e
  Resolved vars funs (ref_expr i x r) = lookup x vars ≡ r
  Resolved vars funs (de_ref_expr i e) = Resolved vars funs e
  Resolved vars funs (field_expr (field i f e)) = erase_expr e ≡ e
  Resolved vars funs (record_expr i fs) = erase_fields fs ≡ fs
  Resolved vars funs (access_expr i e f) = erase_expr e ≡ e
  Resolved vars funs _ = Unit

  pub AllResolved : Dict String ℕ → Dict String ℕ → Exprs → Type 0
  AllResolved vars funs no_exprs = Unit
  AllResolved vars funs (exprs e es) = Resolved vars funs e × AllResolved vars funs es

unfoldable mutual
  unfolding Resolved

  pub StmtResolved : Dict String ℕ → Dict String ℕ → Stmt → Type 0
  StmtResolved vars funs (decl_stmt d) = Unit
  StmtResolved vars funs (block_stmt i bs) = StmtsResolved vars funs bs
  StmtResolved vars funs (assign_stmt i l r) = Resolved vars funs l × Resolved vars funs r
  StmtResolved vars funs (while_stmt i c b) = Resolved vars funs c × StmtResolved vars funs b
  StmtResolved vars funs (if_stmt i c b e) =
      Resolved vars funs c × StmtResolved vars funs b × ElseResolved vars funs e
  StmtResolved vars funs (output_stmt i e) = Resolved vars funs e
  StmtResolved vars funs (error_stmt i e) = Resolved vars funs e
  StmtResolved vars funs (return_stmt i e) = Resolved vars funs e

  pub ElseResolved : Dict String ℕ → Dict String ℕ → ElseStmt → Type 0
  ElseResolved vars funs no_else = Unit
  ElseResolved vars funs (else_stmt b) = StmtResolved vars funs b

  pub StmtsResolved : Dict String ℕ → Dict String ℕ → Stmts → Type 0
  StmtsResolved vars funs no_stmts = Unit
  StmtsResolved vars funs (stmts b bs) = StmtResolved vars funs b × StmtsResolved vars funs bs

-- `P` holds of every name behind an `&`, and no statement is a declaration.
unfoldable mutual
  pub RefsIn : (String → Type 0) → Expr → Type 0
  RefsIn P (binary_expr i op l r) = RefsIn P l × RefsIn P r
  RefsIn P (fun_app_expr i f es) = AllRefsIn P es × RefsIn P f
  RefsIn P (alloc_expr i e) = RefsIn P e
  RefsIn P (ref_expr i x r) = P x
  RefsIn P (de_ref_expr i e) = RefsIn P e
  RefsIn P _ = Unit

  pub AllRefsIn : (String → Type 0) → Exprs → Type 0
  AllRefsIn P no_exprs = Unit
  AllRefsIn P (exprs e es) = RefsIn P e × AllRefsIn P es

unfoldable mutual
  unfolding RefsIn

  pub StmtRefsIn : (String → Type 0) → Stmt → Type 0
  StmtRefsIn P (decl_stmt d) = ⊥
  StmtRefsIn P (block_stmt i bs) = StmtsRefsIn P bs
  StmtRefsIn P (assign_stmt i l r) = RefsIn P l × RefsIn P r
  StmtRefsIn P (while_stmt i c b) = RefsIn P c × StmtRefsIn P b
  StmtRefsIn P (if_stmt i c b e) = RefsIn P c × StmtRefsIn P b × ElseRefsIn P e
  StmtRefsIn P (output_stmt i e) = RefsIn P e
  StmtRefsIn P (error_stmt i e) = RefsIn P e
  StmtRefsIn P (return_stmt i e) = RefsIn P e

  pub ElseRefsIn : (String → Type 0) → ElseStmt → Type 0
  ElseRefsIn P no_else = Unit
  ElseRefsIn P (else_stmt b) = StmtRefsIn P b

  pub StmtsRefsIn : (String → Type 0) → Stmts → Type 0
  StmtsRefsIn P no_stmts = Unit
  StmtsRefsIn P (stmts b bs) = StmtRefsIn P b × StmtsRefsIn P bs
