-- ===== src/Ast/Erase.antt =====
-- A tree as the builder makes it: no node has an id yet.
use tipc.Prelude.{◌≡◌, refl, ap, ap₂, none, List, [], ◌∷◌}
use tipc.Tree.{
  Expr, Exprs, FieldExpr, FieldExprs, number_expr, variable_expr, binary_expr, fun_app_expr,
  input_expr, alloc_expr, ref_expr, de_ref_expr, null_expr, field_expr, record_expr, access_expr,
  no_exprs, exprs, field, no_fields, fields, DeclStmt, Stmt, ElseStmt, Stmts, decl_stmt, block_stmt,
  assign_stmt, while_stmt, if_stmt, output_stmt, error_stmt, return_stmt, no_else, else_stmt,
  no_stmts, stmts, TipFunction, Program,
}

unfoldable mutual
  pub erase_expr : Expr → Expr
  erase_expr (number_expr i v) = number_expr 0 v
  erase_expr (variable_expr i x) = variable_expr 0 x
  erase_expr (binary_expr i op l r) = binary_expr 0 op (erase_expr l) (erase_expr r)
  erase_expr (fun_app_expr i f es) = fun_app_expr 0 (erase_expr f) (erase_exprs es)
  erase_expr (input_expr i) = input_expr 0
  erase_expr (alloc_expr i e) = alloc_expr 0 (erase_expr e)
  erase_expr (ref_expr i x r) = ref_expr 0 x none
  erase_expr (de_ref_expr i e) = de_ref_expr 0 (erase_expr e)
  erase_expr (null_expr i) = null_expr 0
  erase_expr (field_expr f) = field_expr (erase_field f)
  erase_expr (record_expr i fs) = record_expr 0 (erase_fields fs)
  erase_expr (access_expr i e f) = access_expr 0 (erase_expr e) f

  pub erase_exprs : Exprs → Exprs
  erase_exprs no_exprs = no_exprs
  erase_exprs (exprs e es) = exprs (erase_expr e) (erase_exprs es)

  pub erase_field : FieldExpr → FieldExpr
  erase_field (field i f e) = field 0 f (erase_expr e)

  pub erase_fields : FieldExprs → FieldExprs
  erase_fields no_fields = no_fields
  erase_fields (fields f fs) = fields (erase_field f) (erase_fields fs)

abbrev pub erase_decl : DeclStmt → DeclStmt
erase_decl d = record d { id = 0; var_ids = [] }

unfoldable mutual
  pub erase_stmt : Stmt → Stmt
  erase_stmt (decl_stmt d) = decl_stmt (erase_decl d)
  erase_stmt (block_stmt i bs) = block_stmt 0 (erase_stmts bs)
  erase_stmt (assign_stmt i l r) = assign_stmt 0 (erase_expr l) (erase_expr r)
  erase_stmt (while_stmt i c b) = while_stmt 0 (erase_expr c) (erase_stmt b)
  erase_stmt (if_stmt i c b e) = if_stmt 0 (erase_expr c) (erase_stmt b) (erase_else e)
  erase_stmt (output_stmt i e) = output_stmt 0 (erase_expr e)
  erase_stmt (error_stmt i e) = error_stmt 0 (erase_expr e)
  erase_stmt (return_stmt i e) = return_stmt 0 (erase_expr e)

  pub erase_else : ElseStmt → ElseStmt
  erase_else no_else = no_else
  erase_else (else_stmt b) = else_stmt (erase_stmt b)

  pub erase_stmts : Stmts → Stmts
  erase_stmts no_stmts = no_stmts
  erase_stmts (stmts b bs) = stmts (erase_stmt b) (erase_stmts bs)

abbrev pub erase_decls : List DeclStmt → List DeclStmt
erase_decls [] = []
erase_decls (d ∷ ds) = erase_decl d ∷ erase_decls ds

abbrev pub erase_function : TipFunction → TipFunction
erase_function f = record f {
  id = 0;
  formal_ids = [];
  decls = erase_decls f.decls;
  body = erase_stmts f.body;
}

abbrev pub erase_functions : List TipFunction → List TipFunction
erase_functions [] = []
erase_functions (f ∷ fs) = erase_function f ∷ erase_functions fs

abbrev pub erase_program : Program → Program
erase_program p = record { id = 0; functions = erase_functions p.functions }

mutual
  unfolding erase_expr

  twice_expr : (e : Expr) → erase_expr (erase_expr e) ≡ erase_expr e
  twice_expr (number_expr i v) = refl
  twice_expr (variable_expr i x) = refl
  twice_expr (binary_expr i op l r) = rw (twice_expr l, twice_expr r)
  twice_expr (fun_app_expr i f es) = rw (twice_expr f, twice_exprs es)
  twice_expr (input_expr i) = refl
  twice_expr (alloc_expr i e) = rw (twice_expr e)
  twice_expr (ref_expr i x r) = refl
  twice_expr (de_ref_expr i e) = rw (twice_expr e)
  twice_expr (null_expr i) = refl
  twice_expr (field_expr f) = ap field_expr (twice_field f)
  twice_expr (record_expr i fs) = rw (twice_fields fs)
  twice_expr (access_expr i e f) = rw (twice_expr e)

  twice_exprs : (es : Exprs) → erase_exprs (erase_exprs es) ≡ erase_exprs es
  twice_exprs no_exprs = refl
  twice_exprs (exprs e es) = ap₂ exprs (twice_expr e) (twice_exprs es)

  twice_field : (f : FieldExpr) → erase_field (erase_field f) ≡ erase_field f
  twice_field (field i f e) = rw (twice_expr e)

  twice_fields : (fs : FieldExprs) → erase_fields (erase_fields fs) ≡ erase_fields fs
  twice_fields no_fields = refl
  twice_fields (fields f fs) = ap₂ fields (twice_field f) (twice_fields fs)

pub erase_expr_twice : (e : Expr) → erase_expr (erase_expr e) ≡ erase_expr e
erase_expr_twice = twice_expr

pub erase_fields_twice : (fs : FieldExprs) → erase_fields (erase_fields fs) ≡ erase_fields fs
erase_fields_twice = twice_fields
