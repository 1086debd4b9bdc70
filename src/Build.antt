-- ===== src/Build.antt =====
-- The visitor that builds the syntax tree (src/TIPtreeBuild.cpp).
pub mod Reference
pub mod Large
pub mod ExprLaws
pub mod Laws
pub mod Numerals
mod Tests
use tipc.Prelude.{
  ℕ, zero, suc, ◌+◌, ◌-◌, ◌*◌, leb, String, Option, none, some, Bool, List, [], ◌∷◌, ◌++◌, Text,
  if◌then◌else◌,
}
use tipc.Prelude.Int.{ℤ, pos, negsuc}
use tipc.Prelude.Result.{Error, Result, ok, err, exception, undefined, ◌>>=◌}
use tipc.ParseTree.{
  Token, mul, div, add, sub, gt, eq, ne, ExprContext, neg_number, operation, atom, AtomContext,
  paren_atom, fun_app_atom, num_atom, id_atom, input_atom, alloc_atom, ref_atom, de_ref_atom,
  null_atom, record_atom, access_atom, CalleeContext, id_callee, paren_callee, BaseContext, id_base,
  de_ref_base, paren_base, ExprContexts, no_actuals, actuals, FieldContexts, no_pairs, pairs,
  AssignableContext, id_target, de_ref_target, StatementContext, block, assignment, while_loop,
  branch, output, error, ElseContext, no_branch, else_branch, StatementContexts, no_statements,
  statements, Identifier, FunctionContext,
}
use tipc.Tree.{
  Expr, Exprs, FieldExpr, FieldExprs, number_expr, variable_expr, binary_expr, fun_app_expr,
  input_expr, alloc_expr, ref_expr, de_ref_expr, null_expr, field_expr, record_expr, access_expr,
  no_exprs, exprs, field, no_fields, fields, DeclStmt, Stmt, ElseStmt, Stmts, decl_stmt, block_stmt,
  assign_stmt, while_stmt, if_stmt, output_stmt, error_stmt, return_stmt, no_else, else_stmt,
  no_stmts, stmts, TipFunction, Program,
}

-- `opString`. The case of an unknown operator makes an exception and does not throw it.
unfoldable pub op_string : Token → String
op_string mul = "*"
op_string div = "/"
op_string add = "+"
op_string sub = "-"
op_string gt = ">"
op_string eq = "=="
op_string ne = ""

-- `std::stoi` on a text of digits, which throws if the value is beyond an `int`.
unfoldable pub digits_value : ℕ → Text → ℕ
digits_value acc [] = acc
digits_value acc (c ∷ cs) = digits_value (10 * acc + (c - 48)) cs

unfoldable pub stoi : Text → Result ℕ
unfolding digits_value
stoi t = let n = digits_value 0 t in if leb n 2147483647 then ok n else err exception

abbrev pub negated : ℕ → ℤ
negated zero = pos 0
negated (suc n) = negsuc n

-- The globals in which a visit leaves what it has built.
pub record Visited : Type 0 where
  pub visited_stmt : Option Stmt
  pub visited_decl_stmt : Option DeclStmt
  pub visited_expr : Option Expr
  pub visited_field_expr : Option FieldExpr
  pub visited_function : Option TipFunction

abbrev pub Visit : Type 0
Visit = Visited → Result Visited

-- `std::move` of a global leaves it null; a null child in the tree is `undefined`.
abbrev pub moved {ℓ} : {A : Type ℓ} → Option A → Visited → Result (A × Visited)
moved none s = err undefined
moved (some a) s = ok (a, s)

abbrev pub move_expr : Visited → Result (Expr × Visited)
move_expr s = moved s.visited_expr (record s { visited_expr = none })

abbrev pub move_field : Visited → Result (FieldExpr × Visited)
move_field s = moved s.visited_field_expr (record s { visited_field_expr = none })

abbrev pub move_stmt : Visited → Result (Stmt × Visited)
move_stmt s = moved s.visited_stmt (record s { visited_stmt = none })

abbrev pub move_decl : Visited → Result (DeclStmt × Visited)
move_decl s = moved s.visited_decl_stmt (record s { visited_decl_stmt = none })

abbrev pub move_function : Visited → Result (TipFunction × Visited)
move_function s = moved s.visited_function (record s { visited_function = none })

abbrev pub set_expr : Expr → Visit
set_expr e s = ok (record s { visited_expr = some e })

abbrev pub set_stmt : Stmt → Visit
set_stmt b s = ok (record s { visited_stmt = some b })

unfoldable mutual
  unfolding stoi op_string

  pub visit_expr : ExprContext → Visit
  visit_expr (neg_number t) s = do n ← stoi t; set_expr (number_expr 0 (negated n)) s
  visit_expr (operation op l r) s = do
    s₁ ← visit_expr l s
    (lhs, s₂) ← move_expr s₁
    s₃ ← visit_expr r s₂
    (rhs, s₄) ← move_expr s₃
    set_expr (binary_expr 0 (op_string op) lhs rhs) s₄
  visit_expr (atom a) s = visit_atom a s

  pub visit_atom : AtomContext → Visit
  visit_atom (paren_atom e) s = visit_expr e s
  visit_atom (fun_app_atom f es) s = do
    (f_expr, s₁) ← visit_callee f s
    (f_args, s₂) ← visit_actuals es s₁
    set_expr (fun_app_expr 0 f_expr f_args) s₂
  visit_atom (num_atom t) s = do n ← stoi t; set_expr (number_expr 0 (pos n)) s
  visit_atom (id_atom x) s = set_expr (variable_expr 0 x) s
  visit_atom input_atom s = set_expr (input_expr 0) s
  visit_atom (alloc_atom e) s = do
    s₁ ← visit_expr e s
    (e', s₂) ← move_expr s₁
    set_expr (alloc_expr 0 e') s₂
  visit_atom (ref_atom x) s = set_expr (ref_expr 0 x none) s
  visit_atom (de_ref_atom a) s = do
    s₁ ← visit_atom a s
    (e', s₂) ← move_expr s₁
    set_expr (de_ref_expr 0 e') s₂
  visit_atom null_atom s = set_expr (null_expr 0) s
  visit_atom (record_atom fs) s = do
    (r_fields, s₁) ← visit_fields fs s
    set_expr (record_expr 0 r_fields) s₁
  visit_atom (access_atom b f) s = do
    (r_expr, s₁) ← visit_base b s
    set_expr (access_expr 0 r_expr f) s₁

  -- The function of `visitFunAppExpr`.
  pub visit_callee : CalleeContext → Visited → Result (Expr × Visited)
  visit_callee (id_callee x) s = ok (variable_expr 0 x, s)
  visit_callee (paren_callee e) s = visit_expr e s >>= move_expr

  -- The base of `visitAccessExpr`.
  pub visit_base : BaseContext → Visited → Result (Expr × Visited)
  visit_base (id_base x) s = ok (variable_expr 0 x, s)
  visit_base (de_ref_base a) s = do
    s₁ ← visit_atom a s
    (e', s₂) ← move_expr s₁
    s₃ ← set_expr (de_ref_expr 0 e') s₂
    move_expr s₃
  visit_base (paren_base e) s = visit_expr e s >>= move_expr

  -- The loop over the actual parameters.
  pub visit_actuals : ExprContexts → Visited → Result (Exprs × Visited)
  visit_actuals no_actuals s = ok (no_exprs, s)
  visit_actuals (actuals e es) s = do
    s₁ ← visit_expr e s
    (e', s₂) ← move_expr s₁
    (es', s₃) ← visit_actuals es s₂
    ok (exprs e' es', s₃)

  -- The loop over the fields, with `visitFieldExpr`.
  pub visit_fields : FieldContexts → Visited → Result (FieldExprs × Visited)
  visit_fields no_pairs s = ok (no_fields, s)
  visit_fields (pairs x e fs) s = do
    s₁ ← visit_expr e s
    (e', s₂) ← move_expr s₁
    (f', s₃) ← move_field (record s₂ { visited_field_expr = some (field 0 x e') })
    (fs', s₄) ← visit_fields fs s₃
    ok (fields f' fs', s₄)

abbrev pub names_of : List Identifier → List String
names_of [] = []
names_of ((x, line) ∷ ids) = x ∷ names_of ids

-- The line of the last identifier, which the loop of `visitDeclaration` leaves in `dLine`.
abbrev pub last_line : ℤ → List Identifier → ℤ
last_line line [] = line
last_line line ((x, l) ∷ ids) = last_line l ids

unfoldable pub visit_declaration : List Identifier → Visit
visit_declaration ids s = ok (record s {
  visited_decl_stmt =
      some (record { id = 0; vars = names_of ids; var_ids = []; line = last_line (negsuc 0) ids });
})

unfoldable pub visit_assignable : AssignableContext → Visit
unfolding visit_atom
visit_assignable (id_target x) s = set_expr (variable_expr 0 x) s
visit_assignable (de_ref_target a) s = visit_atom (de_ref_atom a) s

unfoldable mutual
  unfolding visit_expr visit_assignable

  pub visit_statement : StatementContext → Visit
  visit_statement (block bs) s = do
    (b_stmts, s₁) ← visit_statements bs s
    set_stmt (block_stmt 0 b_stmts) s₁
  visit_statement (assignment t e) s = do
    s₁ ← visit_assignable t s
    (lhs, s₂) ← move_expr s₁
    s₃ ← visit_expr e s₂
    (rhs, s₄) ← move_expr s₃
    set_stmt (assign_stmt 0 lhs rhs) s₄
  visit_statement (while_loop c b) s = do
    s₁ ← visit_expr c s
    (cond_expr, s₂) ← move_expr s₁
    s₃ ← visit_statement b s₂
    (body, s₄) ← move_stmt s₃
    set_stmt (while_stmt 0 cond_expr body) s₄
  visit_statement (branch c b e) s = do
    s₁ ← visit_expr c s
    (cond_expr, s₂) ← move_expr s₁
    s₃ ← visit_statement b s₂
    (then_body, s₄) ← move_stmt s₃
    (else_body, s₅) ← visit_else e s₄
    set_stmt (if_stmt 0 cond_expr then_body else_body) s₅
  visit_statement (output e) s = do
    s₁ ← visit_expr e s
    (e', s₂) ← move_expr s₁
    set_stmt (output_stmt 0 e') s₂
  visit_statement (error e) s = do
    s₁ ← visit_expr e s
    (e', s₂) ← move_expr s₁
    set_stmt (error_stmt 0 e') s₂

  -- The optional second statement of `visitIfStmt`.
  pub visit_else : ElseContext → Visited → Result (ElseStmt × Visited)
  visit_else no_branch s = ok (no_else, s)
  visit_else (else_branch b) s = do
    s₁ ← visit_statement b s
    (b', s₂) ← move_stmt s₁
    ok (else_stmt b', s₂)

  -- The loops over statements.
  pub visit_statements : StatementContexts → Visited → Result (Stmts × Visited)
  visit_statements no_statements s = ok (no_stmts, s)
  visit_statements (statements b bs) s = do
    s₁ ← visit_statement b s
    (b', s₂) ← move_stmt s₁
    (bs', s₃) ← visit_statements bs s₂
    ok (stmts b' bs', s₃)

unfoldable pub visit_return : ExprContext → Visit
unfolding visit_expr
visit_return e s = do s₁ ← visit_expr e s; (e', s₂) ← move_expr s₁; set_stmt (return_stmt 0 e') s₂

-- The loop over the declarations of a function.
unfoldable pub visit_declarations :
    List (List Identifier) → Visited → Result (List DeclStmt × Visited)
unfolding visit_declaration
visit_declarations [] s = ok ([], s)
visit_declarations (d ∷ ds) s = do
  s₁ ← visit_declaration d s
  (d', s₂) ← move_decl s₁
  (ds', s₃) ← visit_declarations ds s₂
  ok (d' ∷ ds', s₃)

-- `fBody.push_back`
abbrev pub push_back : Stmts → Stmt → Stmts
push_back no_stmts b = stmts b no_stmts
push_back (stmts a bs) b = stmts a (push_back bs b)

unfoldable pub visit_function : FunctionContext → Visit
unfolding visit_declarations visit_statement visit_return
visit_function f s = do
  (f_decls, s₁) ← visit_declarations f.declarations s
  (f_body, s₂) ← visit_statements f.body s₁
  s₃ ← visit_return f.return_stmt s₂
  (last, s₄) ← move_stmt s₃
  ok (record s₄ {
    visited_function = some (record {
      id = 0;
      name = f.name.0;
      formals = names_of f.params;
      formal_ids = [];
      decls = f_decls;
      body = push_back f_body last;
      line = f.name.1;
    });
  })

unfoldable pub visit_functions :
    List FunctionContext → Visited → Result (List TipFunction × Visited)
unfolding visit_function
visit_functions [] s = ok ([], s)
visit_functions (f ∷ fs) s = do
  s₁ ← visit_function f s
  (f', s₂) ← move_function s₁
  (fs', s₃) ← visit_functions fs s₂
  ok (f' ∷ fs', s₃)

-- `TIPtreeBuild::build`
unfoldable pub build : List FunctionContext → Visited → Result Program
unfolding visit_functions
build fs s = do
  (p_functions, s₁) ← visit_functions fs s
  ok (record { id = 0; functions = p_functions })
