-- ===== src/Typecheck/Functions.antt =====
-- `typecheck` of statements, functions and programs (src/TIPtypecheck.cpp), and the printing of a
-- typed program.
use tipc.Prelude.{
  ℕ, zero, suc, ℕ_eq, Text_eq, Bool, false, Option, none, some, List, [], ◌∷◌, ◌++◌, ◌==◌, Text,
  codes, take, if◌then◌else◌,
}
use tipc.Prelude.Result.{Error, Result, ok, err, type_error, exception, undefined, ◌>>=◌}
use tipc.Tree.{
  get_id, Expr, DeclStmt, Stmt, ElseStmt, Stmts, decl_stmt, block_stmt, assign_stmt, while_stmt,
  if_stmt, output_stmt, error_stmt, return_stmt, no_else, else_stmt, no_stmts, stmts, TipFunction,
  Program,
}
use tipc.TreePrint.{print_stmt}
use tipc.Types.{TipType, TipTypes, int, fun, no_types, types}
use tipc.Solver.{UnionFindSolver, add_node, set_type, get_type, unify_nodes}
use tipc.Typecheck.{Check, check_expr}

-- `addNode` of each id in turn: the loops over formals and over declared variables.
unfoldable pub add_nodes : List ℕ → UnionFindSolver → UnionFindSolver
add_nodes [] s = s
add_nodes (n ∷ ns) s = add_nodes ns (add_node n s)

-- `AssignStmt::typecheck`; it also asks for the two types, to print them.
unfoldable pub check_assign : Expr → Expr → Check
check_assign l r s = do
  s₁ ← check_expr l s
  s₂ ← check_expr r s₁
  (left_type, s₃) ← get_type (get_id l) s₂
  (right_type, s₄) ← get_type (get_id r) s₃
  unify_nodes (get_id l) (get_id r) s₄

-- A condition: checked, then held to be an `int`.
unfoldable pub check_int : Expr → Check
check_int e s = check_expr e s >>= set_type (get_id e) int

unfoldable mutual
  pub check_stmt : Stmt → Check
  check_stmt (decl_stmt d) s = ok (add_nodes d.var_ids s)
  check_stmt (block_stmt i ss) s = check_stmts ss s
  check_stmt (assign_stmt i l r) s = check_assign l r s
  check_stmt (while_stmt i c b) s = do s₁ ← check_int c s; check_stmt b s₁
  check_stmt (if_stmt i c b e) s = do s₁ ← check_int c s; s₂ ← check_stmt b s₁; check_else e s₂
  check_stmt (output_stmt i e) s = check_int e s
  check_stmt (error_stmt i e) s = ok s
  check_stmt (return_stmt i e) s = check_expr e s

  pub check_else : ElseStmt → Check
  check_else no_else s = ok s
  check_else (else_stmt b) s = check_stmt b s

  pub check_stmts : Stmts → Check
  check_stmts no_stmts s = ok s
  check_stmts (stmts b bs) s = check_stmt b s >>= check_stmts bs

-- The handler `catch (const std::exception &e) { …; throw e; }`, which throws a copy of the base
-- class: the message of a TIPTypeError is gone.
abbrev pub rethrown : Error → Error
rethrown (type_error msg) = exception
rethrown e = e

abbrev pub rethrow {ℓ} : {A : Type ℓ} → Result A → Result A
rethrow (ok a) = ok a
rethrow (err e) = err (rethrown e)

unfoldable pub check_decls : List DeclStmt → Check
check_decls [] s = ok s
check_decls (d ∷ ds) s = rethrow (ok (add_nodes d.var_ids s)) >>= check_decls ds

-- The loop over the body, each statement in a handler.
unfoldable pub check_body : Stmts → Check
check_body no_stmts s = ok s
check_body (stmts b bs) s = rethrow (check_stmt b s) >>= check_body bs

-- `stmt->print()`, before any indentation is set.
abbrev pub print_plain : Stmt → Text
print_plain b = (print_stmt [] false b 0).0

-- `stmt->print().substr(0, 6) == "return"`
unfoldable pub prints_return : Stmt → Bool
prints_return b = take 6 (print_plain b) == codes "return"

-- `dynamic_cast<ReturnStmt *>(stmt)->getArgId()`: the cast of any other statement is null.
abbrev pub arg_id : Stmt → Result ℕ
arg_id (return_stmt i e) = ok (get_id e)
arg_id _ = err undefined

-- The loop that looks for the return statement.
unfoldable pub return_type : Stmts → UnionFindSolver → Result (Option TipType × UnionFindSolver)
return_type no_stmts s = ok (none, s)
return_type (stmts b bs) s =
    let later = return_type bs s in
    let found : Result (Option TipType × UnionFindSolver) = (do
      n ← arg_id b
      (t, s') ← get_type n s
      ok (some t, s')) in
    if prints_return b then found else later

unfoldable pub node_types : List ℕ → UnionFindSolver → Result (TipTypes × UnionFindSolver)
node_types [] s = ok (no_types, s)
node_types (n ∷ ns) s = do
  (t, s') ← get_type n s
  (ts, s'') ← node_types ns s'
  ok (types t ts, s'')

-- The parameter types of what the cast to `TIPfun` returns. Of a null pointer none can be read.
abbrev pub cast_params : TipType → TipTypes
cast_params (fun ps r) = ps
cast_params _ = no_types

unfoldable pub set_formals : List ℕ → TipTypes → Check
set_formals [] ps s = ok s
set_formals (n ∷ ns) (types p ps) s = set_type n p s >>= set_formals ns ps
set_formals (n ∷ ns) no_types s = err undefined

-- The end of `Function::typecheck`, once the type of the result is found.
unfoldable pub check_signature : TipFunction → Option TipType → Check
check_signature f none s =
    err (type_error (codes "No return statement found for function " ++ codes f.name))
check_signature f (some ret_type) s = do
  (param_types, s₁) ← node_types f.formal_ids s
  s₂ ← set_type f.id (fun param_types ret_type) (add_node f.id s₁)
  (fun_type, s₃) ← get_type f.id s₂
  set_formals f.formal_ids (cast_params fun_type) s₃

unfoldable pub check_function : TipFunction → Check
check_function f s = do
  s₁ ← check_decls f.decls (add_nodes f.formal_ids s)
  s₂ ← check_body f.body s₁
  (ret_type, s₃) ← return_type f.body s₂
  check_signature f ret_type s₃

unfoldable pub check_functions : List TipFunction → Check
check_functions [] s = ok s
check_functions (f ∷ fs) s = check_function f s >>= check_functions fs

-- The passes of `Program::printTyped` over all functions; the source makes three.
unfoldable pub check_passes : ℕ → List TipFunction → Check
check_passes zero fs s = ok s
check_passes (suc k) fs s = check_functions fs s >>= check_passes k fs

abbrev pub empty_solver : UnionFindSolver
empty_solver = record { node2root = []; node2type = [] }

unfoldable pub check_program : Program → Result UnionFindSolver
check_program p = check_passes 3 p.functions empty_solver
