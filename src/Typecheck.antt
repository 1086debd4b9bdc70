-- ===== src/Typecheck.antt =====
-- The type analysis (src/TIPtypecheck.cpp): each node adds its constraints to the solver.
pub mod Functions
pub mod Printed
pub mod TypedText
pub mod Driver
pub mod Limits
pub mod Typing
pub mod Calls
pub mod Sound
pub mod StmtTyping
pub mod StmtSound
pub mod Signature
pub mod FunctionSound
pub mod Examples
mod Tests
use tipc.Prelude.{
  ℕ, zero, suc, ◌+◌, ◌-◌, ℕ_eq, String, Text_eq, String_eq, Bool, true, false, ◌||◌, Option, none,
  some, List, [], ◌∷◌, ◌++◌, ◌==◌, Text, codes, length, if◌then◌else◌,
}
use tipc.Prelude.Result.{Error, Result, ok, err, type_error, exception, undefined, ◌>>=◌}
use tipc.Tree.{
  get_id, Expr, Exprs, FieldExpr, FieldExprs, number_expr, variable_expr, binary_expr, fun_app_expr,
  input_expr, alloc_expr, ref_expr, de_ref_expr, null_expr, field_expr, record_expr, access_expr,
  no_exprs, exprs, field, no_fields, fields, DeclStmt, Stmt, ElseStmt, Stmts, decl_stmt, block_stmt,
  assign_stmt, while_stmt, if_stmt, output_stmt, error_stmt, return_stmt, no_else, else_stmt,
  no_stmts, stmts, TipFunction, Program,
}
use tipc.TreePrint.{print_expr, print_stmt}
use tipc.Types.{TipType, TipTypes, int, ref, alpha, fun, no_types, types}
use tipc.Types
use tipc.Unify.{size}
use tipc.Solver.{UnionFindSolver, add_node, exist_node, set_type, get_type, unify_nodes}

-- An operation on the solver that may throw.
abbrev pub Check : Type 0
Check = UnionFindSolver → Result UnionFindSolver

abbrev pub as_ref : TipType → Option TipType
as_ref (ref t) = some t
as_ref _ = none

-- The operation that `op` stands for in `BinaryExpr::typecheck`.
unfoldable pub check_operands : String → ℕ → ℕ → Check
check_operands op l r s =
    if op == "=" then unify_nodes l r s else set_type l int s >>= set_type r int

-- `getType` of each actual parameter, in turn.
unfoldable pub actual_types : Exprs → UnionFindSolver → Result (TipTypes × UnionFindSolver)
actual_types no_exprs s = ok (no_types, s)
actual_types (exprs e es) s = do
  (t, s') ← get_type (get_id e) s
  (ts, s'') ← actual_types es s'
  ok (types t ts, s'')

abbrev pub actuals_size : Exprs → ℕ
actuals_size no_exprs = 0
actuals_size (exprs e es) = suc (actuals_size es)

-- `setType` of each actual parameter to the type of the formal one; an index beyond the end of
-- either vector is undefined.
unfoldable pub set_actuals : Exprs → TipTypes → Check
set_actuals no_exprs no_types s = ok s
set_actuals (exprs e es) (types t ts) s = set_type (get_id e) t s >>= set_actuals es ts
set_actuals no_exprs (types t ts) s = err undefined
set_actuals (exprs e es) no_types s = err undefined

-- `FunAppExpr::typecheck` where the callee's type is not known to be a function.
unfoldable pub check_new_function : ℕ → Exprs → Check
check_new_function f es s = do
  (param_types, s') ← actual_types es (add_node f s)
  set_type f (fun param_types alpha) s'

-- The rest of `FunAppExpr::typecheck`, for a callee of a function type.
unfoldable pub check_call : ℕ → Expr → Exprs → TipTypes → TipType → Check
check_call i f es ps r s = do
  let updated = do
    s₁ ← set_actuals es ps s
    s₂ ← set_type i r s₁
    (updated_param_types, s₃) ← actual_types es s₂
    (updated_ret_type, s₄) ← get_type i s₃
    set_type (get_id f) (fun updated_param_types updated_ret_type) s₄
  if size ps == actuals_size es
      then updated
      else err (
          type_error (
            codes "calling function "
            ++ (print_expr f ++ codes " with invalid number of parameters")))

abbrev pub check_application : ℕ → Expr → Exprs → TipType → Check
check_application i f es (fun ps r) = check_call i f es ps r
check_application i f es _ = check_new_function (get_id f) es

-- `RefExpr::typecheck` reads `refId`, which `genId` has set.
unfoldable pub check_ref : ℕ → Option ℕ → Check
check_ref i none s = err undefined
check_ref i (some r) s = do (t, s') ← get_type r s; set_type i (ref t) s'

abbrev pub check_pointed : ℕ → Expr → Option TipType → Check
check_pointed i e (some t) s = set_type i t s
check_pointed i e none s = err (type_error (print_expr e ++ codes " cannot be dereferenced"))

-- `typecheck` of the expressions.
unfoldable pub check_expr : Expr → Check
check_expr (number_expr i v) s = set_type i int s
check_expr (variable_expr i x) s =
    if exist_node i s
    then ok s
    else err (type_error (codes "Variable " ++ (codes x ++ codes " not declared")))
check_expr (binary_expr i op l r) s = do
  s₁ ← check_expr l s
  s₂ ← check_expr r s₁
  s₃ ← check_operands op (get_id l) (get_id r) s₂
  set_type i int s₃
check_expr (fun_app_expr i f es) s = do
  (t, s') ← get_type (get_id f) s
  check_application i f es t s'
check_expr (input_expr i) s = set_type i int s
check_expr (alloc_expr i e) s = do
  s₁ ← check_expr e s
  (t, s₂) ← get_type (get_id e) s₁
  set_type i (ref t) s₂
check_expr (ref_expr i x r) s = check_ref i r s
check_expr (de_ref_expr i e) s = do
  s₁ ← check_expr e s
  (t, s₂) ← get_type (get_id e) s₁
  check_pointed i e (as_ref t) s₂
check_expr (null_expr i) s = ok s
check_expr (field_expr f) s = ok s
check_expr (record_expr i fs) s = ok s
check_expr (access_expr i e f) s = ok s
