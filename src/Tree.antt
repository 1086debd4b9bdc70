-- ===== src/Tree.antt =====
-- The abstract syntax tree (src/TIPtree.h). A tree owns its children through unique pointers, so
-- a tree is a value, and the passes that write into its nodes return it anew.
use tipc.Prelude.{ℕ, String, Option, List}
use tipc.Prelude.Int.{ℤ}

-- The subclasses of `Expr`. The first field of each is `AstNode::id`, 0 until `genId` sets it; the
-- last one of `ref_expr` is `refId`, which has no value until `genId`. `Exprs` and `FieldExprs`
-- are the vectors of pointers.
mutual
  pub data Expr : Type 0 where
    number_expr : ℕ → ℤ → Expr
    variable_expr : ℕ → String → Expr
    binary_expr : ℕ → String → Expr → Expr → Expr
    fun_app_expr : ℕ → Expr → Exprs → Expr
    input_expr : ℕ → Expr
    alloc_expr : ℕ → Expr → Expr
    ref_expr : ℕ → String → Option ℕ → Expr
    de_ref_expr : ℕ → Expr → Expr
    null_expr : ℕ → Expr
    field_expr : FieldExpr → Expr
    record_expr : ℕ → FieldExprs → Expr
    access_expr : ℕ → Expr → String → Expr

  pub data Exprs : Type 0 where
    no_exprs : Exprs
    exprs : Expr → Exprs → Exprs

  pub data FieldExpr : Type 0 where
    field : ℕ → String → Expr → FieldExpr

  pub data FieldExprs : Type 0 where
    no_fields : FieldExprs
    fields : FieldExpr → FieldExprs → FieldExprs

-- `DeclStmt`; `var_ids` is empty until `genId`.
pub record DeclStmt : Type 0 where
  pub id : ℕ
  pub vars : List String
  pub var_ids : List ℕ
  pub line : ℤ

-- The subclasses of `Stmt`. An absent `ELSE` is a null pointer.
mutual
  pub data Stmt : Type 0 where
    decl_stmt : DeclStmt → Stmt
    block_stmt : ℕ → Stmts → Stmt
    assign_stmt : ℕ → Expr → Expr → Stmt
    while_stmt : ℕ → Expr → Stmt → Stmt
    if_stmt : ℕ → Expr → Stmt → ElseStmt → Stmt
    output_stmt : ℕ → Expr → Stmt
    error_stmt : ℕ → Expr → Stmt
    return_stmt : ℕ → Expr → Stmt

  pub data ElseStmt : Type 0 where
    no_else : ElseStmt
    else_stmt : Stmt → ElseStmt

  pub data Stmts : Type 0 where
    no_stmts : Stmts
    stmts : Stmt → Stmts → Stmts

-- `Function`
pub record TipFunction : Type 0 where
  pub id : ℕ
  pub name : String
  pub formals : List String
  pub formal_ids : List ℕ
  pub decls : List DeclStmt
  pub body : Stmts
  pub line : ℤ

pub record Program : Type 0 where
  pub id : ℕ
  pub functions : List TipFunction

abbrev pub field_id : FieldExpr → ℕ
field_id (field i f e) = i

-- `AstNode::getId` on expressions.
abbrev pub get_id : Expr → ℕ
get_id (number_expr i v) = i
get_id (variable_expr i x) = i
get_id (binary_expr i op l r) = i
get_id (fun_app_expr i f es) = i
get_id (input_expr i) = i
get_id (alloc_expr i e) = i
get_id (ref_expr i x r) = i
get_id (de_ref_expr i e) = i
get_id (null_expr i) = i
get_id (field_expr f) = field_id f
get_id (record_expr i fs) = i
get_id (access_expr i e f) = i
