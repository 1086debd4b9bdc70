-- ===== src/Ast/Reached.antt =====
-- The references in a tree that `genId` (src/TIPast.cpp) has numbered. It does not go into records,
-- fields and accesses: what stands inside of them is as the builder made it.
use tipc.Prelude.{◌≡◌, none, some}
use tipc.Ast.Erase.{erase_expr, erase_fields}
use tipc.Typecheck.Sound.{HasRefs}
use tipc.Typecheck.StmtTyping.{StmtHasRefs, ElseHasRefs, StmtsHaveRefs}
use tipc.Tree.{
  Expr, Exprs, number_expr, variable_expr, binary_expr, fun_app_expr, input_expr, alloc_expr,
  ref_expr, de_ref_expr, null_expr, field_expr, record_expr, access_expr, no_exprs, exprs, field,
  Stmt, ElseStmt, Stmts, decl_stmt, block_stmt, assign_stmt, while_stmt, if_stmt, output_stmt,
  error_stmt, return_stmt, no_else, else_stmt, no_stmts, stmts,
}

unfoldable mutual
  pub RefsSet : Expr → Type 0
  RefsSet (binary_expr i op l r) = RefsSet l × RefsSet r
  RefsSet (fun_app_expr i f es) = AllRefsSet es × RefsSet f
  RefsSet (alloc_expr i e) = RefsSet e
  RefsSet (de_ref_expr i e) = RefsSet e
  RefsSet (ref_expr i x none) = ⊥
  RefsSet (ref_expr i x (some n)) = Unit
  RefsSet (field_expr (field i f e)) = erase_expr e ≡ e
  RefsSet (record_expr i fs) = erase_fields fs ≡ fs
  RefsSet (access_expr i e f) = erase_expr e ≡ e
  RefsSet _ = Unit

  pub AllRefsSet : Exprs → Type 0
  AllRefsSet no_exprs = Unit
  AllRefsSet (exprs e es) = RefsSet e × AllRefsSet es

unfoldable mutual
  unfolding RefsSet

  pub StmtRefsSet : Stmt → Type 0
  StmtRefsSet (decl_stmt d) = Unit
  StmtRefsSet (block_stmt i bs) = StmtsRefsSet bs
  StmtRefsSet (assign_stmt i l r) = RefsSet l × RefsSet r
  StmtRefsSet (while_stmt i c b) = RefsSet c × StmtRefsSet b
  StmtRefsSet (if_stmt i c b e) = RefsSet c × StmtRefsSet b × ElseRefsSet e
  StmtRefsSet (output_stmt i e) = RefsSet e
  StmtRefsSet (error_stmt i e) = RefsSet e
  StmtRefsSet (return_stmt i e) = RefsSet e

  pub ElseRefsSet : ElseStmt → Type 0
  ElseRefsSet no_else = Unit
  ElseRefsSet (else_stmt b) = StmtRefsSet b

  pub StmtsRefsSet : Stmts → Type 0
  StmtsRefsSet no_stmts = Unit
  StmtsRefsSet (stmts b bs) = StmtRefsSet b × StmtsRefsSet bs

-- The type analysis reads some of these references.
set-HasRefs : (e : Expr) → RefsSet e → HasRefs e
unfolding RefsSet
set-HasRefs (number_expr i v) h = tt
set-HasRefs (variable_expr i x) h = tt
set-HasRefs (binary_expr i op l r) (h, k) = (set-HasRefs l h, set-HasRefs r k)
set-HasRefs (fun_app_expr i f es) h = tt
set-HasRefs (input_expr i) h = tt
set-HasRefs (alloc_expr i e) h = set-HasRefs e h
set-HasRefs (ref_expr i x none) h = h
set-HasRefs (ref_expr i x (some n)) h = tt
set-HasRefs (de_ref_expr i e) h = set-HasRefs e h
set-HasRefs (null_expr i) h = tt
set-HasRefs (field_expr f) h = tt
set-HasRefs (record_expr i fs) h = tt
set-HasRefs (access_expr i e f) h = tt

mutual
  unfolding StmtRefsSet StmtHasRefs

  stmt_set : (b : Stmt) → StmtRefsSet b → StmtHasRefs b
  stmt_set (decl_stmt d) h = tt
  stmt_set (block_stmt i bs) h = stmts_set bs h
  stmt_set (assign_stmt i l r) (h, k) = (set-HasRefs l h, set-HasRefs r k)
  stmt_set (while_stmt i c b) (h, k) = (set-HasRefs c h, stmt_set b k)
  stmt_set (if_stmt i c b e) (h, k, l) = (set-HasRefs c h, stmt_set b k, else_set e l)
  stmt_set (output_stmt i e) h = set-HasRefs e h
  stmt_set (error_stmt i e) h = tt
  stmt_set (return_stmt i e) h = set-HasRefs e h

  else_set : (e : ElseStmt) → ElseRefsSet e → ElseHasRefs e
  else_set no_else h = tt
  else_set (else_stmt b) h = stmt_set b h

  stmts_set : (bs : Stmts) → StmtsRefsSet bs → StmtsHaveRefs bs
  stmts_set no_stmts h = tt
  stmts_set (stmts b bs) (h, k) = (stmt_set b h, stmts_set bs k)

pub set-StmtsHaveRefs : (bs : Stmts) → StmtsRefsSet bs → StmtsHaveRefs bs
set-StmtsHaveRefs bs h = stmts_set bs h
