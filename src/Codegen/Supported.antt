-- ===== src/Codegen/Supported.antt =====
-- Which expressions the code generator (src/TIPtreeGen.cpp) has code for.
use tipc.Prelude.{ℕ, ◌≡◌, String, String_eq, Option, none, some, List}
use tipc.Prelude.Dict.{Dict, lookup}
use tipc.Llvm.{Value, BinaryOp}
use tipc.Tree.{
  Expr, Exprs, number_expr, variable_expr, binary_expr, fun_app_expr, input_expr, alloc_expr,
  ref_expr, de_ref_expr, null_expr, field_expr, record_expr, access_expr, no_exprs, exprs, Stmt,
  ElseStmt, Stmts, decl_stmt, block_stmt, assign_stmt, while_stmt, if_stmt, output_stmt, error_stmt,
  return_stmt, no_else, else_stmt, no_stmts, stmts,
}
use tipc.Codegen.{CodeState, operator_of}

abbrev pub Names : Type 0
Names = Dict String (Option Value)

abbrev pub Decls : Type 0
Decls = Dict String (ℕ × List String)

-- A reference needs a variable with an address.
abbrev pub IsVariable : Option (Option Value) → Type 0
IsVariable (some (some v)) = Unit
IsVariable _ = ⊥

-- A name needs a variable with an address, or else a function.
abbrev pub IsNamed : Option (Option Value) → Option (ℕ × List String) → Type 0
IsNamed (some nv) d = IsVariable (some nv)
IsNamed none (some d) = Unit
IsNamed none none = ⊥

abbrev pub IsOperator : Option BinaryOp → Type 0
IsOperator (some o) = Unit
IsOperator none = ⊥

-- Every name stands for something, and every operator and every construct has code.
unfoldable mutual
  pub Supported : Names → Decls → Expr → Type 0
  Supported vars funs (number_expr i v) = Unit
  Supported vars funs (variable_expr i x) = IsNamed (lookup x vars) (lookup x funs)
  Supported vars funs (binary_expr i op l r) =
      Supported vars funs l × Supported vars funs r × IsOperator (operator_of op)
  Supported vars funs (fun_app_expr i f es) = Supported vars funs f × AllSupported vars funs es
  Supported vars funs (input_expr i) = Unit
  Supported vars funs (alloc_expr i e) = Supported vars funs e
  Supported vars funs (ref_expr i x r) = IsVariable (lookup x vars)
  Supported vars funs (de_ref_expr i e) = Supported vars funs e
  Supported vars funs (null_expr i) = Unit
  Supported vars funs (field_expr f) = ⊥
  Supported vars funs (record_expr i fs) = ⊥
  Supported vars funs (access_expr i e f) = ⊥

  pub AllSupported : Names → Decls → Exprs → Type 0
  AllSupported vars funs no_exprs = Unit
  AllSupported vars funs (exprs e es) = Supported vars funs e × AllSupported vars funs es

-- The tables of the state.
abbrev pub At : Names → Decls → CodeState → Type 0
At vars funs s = (s.named_values ≡ vars) × (s.function_decls ≡ funs)

-- Statements.
abbrev pub TargetSupported : Names → Decls → Expr → Type 0
TargetSupported vars funs (variable_expr i x) = IsVariable (lookup x vars)
TargetSupported vars funs (de_ref_expr i e) = Supported vars funs e
TargetSupported vars funs _ = ⊥

unfoldable mutual
  unfolding Supported

  pub StmtSupported : Names → Decls → Stmt → Type 0
  StmtSupported vars funs (decl_stmt d) = Unit
  StmtSupported vars funs (block_stmt i bs) = StmtsSupported vars funs bs
  StmtSupported vars funs (assign_stmt i l r) = TargetSupported vars funs l × Supported vars funs r
  StmtSupported vars funs (while_stmt i c b) = Supported vars funs c × StmtSupported vars funs b
  StmtSupported vars funs (if_stmt i c b e) =
      Supported vars funs c × StmtSupported vars funs b × ElseSupported vars funs e
  StmtSupported vars funs (output_stmt i e) = Supported vars funs e
  StmtSupported vars funs (error_stmt i e) = Supported vars funs e
  StmtSupported vars funs (return_stmt i e) = Supported vars funs e

  pub ElseSupported : Names → Decls → ElseStmt → Type 0
  ElseSupported vars funs no_else = Unit
  ElseSupported vars funs (else_stmt b) = StmtSupported vars funs b

  pub StmtsSupported : Names → Decls → Stmts → Type 0
  StmtsSupported vars funs no_stmts = Unit
  StmtsSupported vars funs (stmts b bs) = StmtSupported vars funs b × StmtsSupported vars funs bs

-- The left sides that the grammar has, and the statements that the grammar has inside of a body: no
-- declaration and no return.
abbrev pub IsTarget : Expr → Type 0
IsTarget (variable_expr i x) = Unit
IsTarget (de_ref_expr i e) = Unit
IsTarget _ = ⊥

unfoldable mutual
  pub IsInner : Stmt → Type 0
  IsInner (decl_stmt d) = ⊥
  IsInner (block_stmt i bs) = AllInner bs
  IsInner (assign_stmt i l r) = IsTarget l
  IsInner (while_stmt i c b) = IsInner b
  IsInner (if_stmt i c b e) = IsInner b × IsInnerElse e
  IsInner (output_stmt i e) = Unit
  IsInner (error_stmt i e) = Unit
  IsInner (return_stmt i e) = ⊥

  pub IsInnerElse : ElseStmt → Type 0
  IsInnerElse no_else = Unit
  IsInnerElse (else_stmt b) = IsInner b

  pub AllInner : Stmts → Type 0
  AllInner no_stmts = Unit
  AllInner (stmts b bs) = IsInner b × AllInner bs
