-- ===== src/Build/Reference.antt =====
-- The tree of a parse, by recursion on the parse and without the globals of the visitor.
use tipc.Prelude.{none, List, [], ◌∷◌}
use tipc.Prelude.Int.{pos, negsuc}
use tipc.Prelude.Result.{Result, ok, ◌>>=◌}
use tipc.Build.{stoi, op_string, negated, names_of, last_line, push_back}
use tipc.ParseTree.{
  ExprContext, neg_number, operation, atom, AtomContext, paren_atom, fun_app_atom, num_atom,
  id_atom, input_atom, alloc_atom, ref_atom, de_ref_atom, null_atom, record_atom, access_atom,
  CalleeContext, id_callee, paren_callee, BaseContext, id_base, de_ref_base, paren_base,
  ExprContexts, no_actuals, actuals, FieldContexts, no_pairs, pairs, AssignableContext, id_target,
  de_ref_target, StatementContext, block, assignment, while_loop, branch, output, error,
  ElseContext, no_branch, else_branch, StatementContexts, no_statements, statements, Identifier,
  FunctionContext,
}
use tipc.Tree.{
  Expr, Exprs, FieldExprs, number_expr, variable_expr, binary_expr, fun_app_expr, input_expr,
  alloc_expr, ref_expr, de_ref_expr, null_expr, record_expr, access_expr, no_exprs, exprs, field,
  no_fields, fields, DeclStmt, Stmt, ElseStmt, Stmts, block_stmt, assign_stmt, while_stmt, if_stmt,
  output_stmt, error_stmt, return_stmt, no_else, else_stmt, no_stmts, stmts, TipFunction,
}

unfoldable mutual
  unfolding stoi op_string

  pub expr_of : ExprContext → Result Expr
  expr_of (neg_number t) = do n ← stoi t; ok (number_expr 0 (negated n))
  expr_of (operation op l r) = do
    lhs ← expr_of l
    rhs ← expr_of r
    ok (binary_expr 0 (op_string op) lhs rhs)
  expr_of (atom a) = atom_of a

  pub atom_of : AtomContext → Result Expr
  atom_of (paren_atom e) = expr_of e
  atom_of (fun_app_atom f es) = do f' ← callee_of f; es' ← actuals_of es; ok (fun_app_expr 0 f' es')
  atom_of (num_atom t) = do n ← stoi t; ok (number_expr 0 (pos n))
  atom_of (id_atom x) = ok (variable_expr 0 x)
  atom_of input_atom = ok (input_expr 0)
  atom_of (alloc_atom e) = do e' ← expr_of e; ok (alloc_expr 0 e')
  atom_of (ref_atom x) = ok (ref_expr 0 x none)
  atom_of (de_ref_atom a) = do e ← atom_of a; ok (de_ref_expr 0 e)
  atom_of null_atom = ok (null_expr 0)
  atom_of (record_atom fs) = do fs' ← fields_of fs; ok (record_expr 0 fs')
  atom_of (access_atom b f) = do e ← base_of b; ok (access_expr 0 e f)

  pub callee_of : CalleeContext → Result Expr
  callee_of (id_callee x) = ok (variable_expr 0 x)
  callee_of (paren_callee e) = expr_of e

  pub base_of : BaseContext → Result Expr
  base_of (id_base x) = ok (variable_expr 0 x)
  base_of (de_ref_base a) = do e ← atom_of a; ok (de_ref_expr 0 e)
  base_of (paren_base e) = expr_of e

  pub actuals_of : ExprContexts → Result Exprs
  actuals_of no_actuals = ok no_exprs
  actuals_of (actuals e es) = do e' ← expr_of e; es' ← actuals_of es; ok (exprs e' es')

  pub fields_of : FieldContexts → Result FieldExprs
  fields_of no_pairs = ok no_fields
  fields_of (pairs x e fs) = do e' ← expr_of e; fs' ← fields_of fs; ok (fields (field 0 x e') fs')

abbrev pub target_of : AssignableContext → Result Expr
target_of (id_target x) = ok (variable_expr 0 x)
target_of (de_ref_target a) = do e ← atom_of a; ok (de_ref_expr 0 e)

unfoldable mutual
  unfolding expr_of

  pub statement_of : StatementContext → Result Stmt
  statement_of (block bs) = do bs' ← statements_of bs; ok (block_stmt 0 bs')
  statement_of (assignment t e) = do l ← target_of t; r ← expr_of e; ok (assign_stmt 0 l r)
  statement_of (while_loop c b) = do c' ← expr_of c; b' ← statement_of b; ok (while_stmt 0 c' b')
  statement_of (branch c b e) = do
    c' ← expr_of c
    b' ← statement_of b
    e' ← else_of e
    ok (if_stmt 0 c' b' e')
  statement_of (output e) = do e' ← expr_of e; ok (output_stmt 0 e')
  statement_of (error e) = do e' ← expr_of e; ok (error_stmt 0 e')

  pub else_of : ElseContext → Result ElseStmt
  else_of no_branch = ok no_else
  else_of (else_branch b) = do b' ← statement_of b; ok (else_stmt b')

  pub statements_of : StatementContexts → Result Stmts
  statements_of no_statements = ok no_stmts
  statements_of (statements b bs) = do
    b' ← statement_of b
    bs' ← statements_of bs
    ok (stmts b' bs')

abbrev pub declaration_of : List Identifier → DeclStmt
declaration_of ids = record {
  id = 0;
  vars = names_of ids;
  var_ids = [];
  line = last_line (negsuc 0) ids;
}

abbrev pub declarations_of : List (List Identifier) → List DeclStmt
declarations_of [] = []
declarations_of (d ∷ ds) = declaration_of d ∷ declarations_of ds

unfoldable pub function_of : FunctionContext → Result TipFunction
unfolding statements_of expr_of
function_of f = do
  body ← statements_of f.body
  returned ← expr_of f.return_stmt
  ok (record {
    id = 0;
    name = f.name.0;
    formals = names_of f.params;
    formal_ids = [];
    decls = declarations_of f.declarations;
    body = push_back body (return_stmt 0 returned);
    line = f.name.1;
  })

unfoldable pub functions_of : List FunctionContext → Result (List TipFunction)
unfolding function_of
functions_of [] = ok []
functions_of (f ∷ fs) = do f' ← function_of f; fs' ← functions_of fs; ok (f' ∷ fs')
