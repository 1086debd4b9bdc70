-- ===== src/Codegen/Erased.antt =====
-- The code of a tree (src/TIPtreeGen.cpp) and the ids of its nodes.
use mathlib.Core.Path.{fun_ext}
use tipc.Prelude.State.{◌>>=◌}
use tipc.Prelude.{ℕ, suc, Bool, ◌&&◌, ◌≡◌, refl, ap, Option, none, List, [], ◌∷◌}
use tipc.Llvm.{Value}
use tipc.Ast.Erase.{
  erase_expr, erase_exprs, erase_stmt, erase_else, erase_stmts, erase_decls, erase_function,
  erase_functions, erase_program,
}
use tipc.Prelude.{String_eq}
use tipc.Prelude.Dict.{insert}
use tipc.Codegen.{Code, gen_expr, gen_args, count_exprs}
use tipc.Codegen.Statements.{gen_decl, gen_target, gen_stmt, gen_else, gen_block}
use tipc.Codegen.Functions.{
  gen_decls, gen_body, gen_function, gen_functions, declare_functions, create_functions, make_table,
  gen_program, is_some,
}
use tipc.Tree.{
  Expr, Exprs, number_expr, variable_expr, binary_expr, fun_app_expr, input_expr, alloc_expr,
  ref_expr, de_ref_expr, null_expr, field_expr, record_expr, access_expr, no_exprs, exprs, DeclStmt,
  Stmt, ElseStmt, Stmts, decl_stmt, block_stmt, assign_stmt, while_stmt, if_stmt, output_stmt,
  error_stmt, return_stmt, no_else, else_stmt, no_stmts, stmts, TipFunction, Program,
}

count_same : (es : Exprs) → count_exprs (erase_exprs es) ≡ count_exprs es
unfolding erase_expr
count_same no_exprs = refl
count_same (exprs e es) = rw (count_same es)

mutual
  unfolding erase_expr gen_expr

  expr_same : (e : Expr) → gen_expr (erase_expr e) ≡ gen_expr e
  expr_same (number_expr i v) = refl
  expr_same (variable_expr i x) = refl
  expr_same (binary_expr i op l r) = rw (expr_same l, expr_same r)
  expr_same (fun_app_expr i f es) = rw (expr_same f, args_same es, count_same es)
  expr_same (input_expr i) = refl
  expr_same (alloc_expr i e) = rw (expr_same e)
  expr_same (ref_expr i x r) = refl
  expr_same (de_ref_expr i e) = rw (expr_same e)
  expr_same (null_expr i) = refl
  expr_same (field_expr f) = refl
  expr_same (record_expr i fs) = refl
  expr_same (access_expr i e f) = refl

  args_same : (es : Exprs) → gen_args (erase_exprs es) ≡ gen_args es
  args_same no_exprs = refl
  args_same (exprs e es) = rw (expr_same e, args_same es)

target_same : (e : Expr) → gen_target (erase_expr e) ≡ gen_target e
unfolding gen_target
target_same e = rw (expr_same e)

mutual
  unfolding erase_stmt gen_stmt gen_decl

  stmt_same : (b : Stmt) → gen_stmt (erase_stmt b) ≡ gen_stmt b
  stmt_same (decl_stmt d) = refl
  stmt_same (block_stmt i bs) = rw (block_same bs none)
  stmt_same (assign_stmt i l r) = rw (target_same l, expr_same r)
  stmt_same (while_stmt i c b) = rw (expr_same c, stmt_same b)
  stmt_same (if_stmt i c b e) = rw (expr_same c, stmt_same b, else_same e)
  stmt_same (output_stmt i e) = rw (expr_same e)
  stmt_same (error_stmt i e) = rw (expr_same e)
  stmt_same (return_stmt i e) = rw (expr_same e)

  else_same : (e : ElseStmt) → gen_else (erase_else e) ≡ gen_else e
  else_same no_else = refl
  else_same (else_stmt b) = stmt_same b

  block_same :
      (bs : Stmts) (last : Option Value) → gen_block (erase_stmts bs) last ≡ gen_block bs last
  block_same no_stmts last = refl
  block_same (stmts b bs) last = rw (stmt_same b, fun_ext (block_same bs))

decls_same :
    (ds : List DeclStmt) (success : Bool)
    → gen_decls (erase_decls ds) success ≡ gen_decls ds success
unfolding gen_decls gen_decl
decls_same [] success = refl
decls_same (d ∷ ds) success =
    ap (λ k. gen_decl d >>= λ v. k (success && is_some v)) (fun_ext (decls_same ds))

body_same : (bs : Stmts) (success : Bool) → gen_body (erase_stmts bs) success ≡ gen_body bs success
unfolding gen_body erase_stmt
body_same no_stmts success = refl
body_same (stmts b bs) success = rw (stmt_same b, fun_ext (body_same bs))

function_same : (f : TipFunction) → gen_function (erase_function f) ≡ gen_function f
unfolding gen_function
function_same f = rw (fun_ext (decls_same f.decls), fun_ext (body_same f.body))

functions_same : (fs : List TipFunction) → gen_functions (erase_functions fs) ≡ gen_functions fs
unfolding gen_functions
functions_same [] = refl
functions_same (f ∷ fs) = rw (function_same f, functions_same fs)

declared_same :
    (fs : List TipFunction) (idx : ℕ)
    → declare_functions (erase_functions fs) idx ≡ declare_functions fs idx
unfolding declare_functions
declared_same [] idx = refl
declared_same (f ∷ fs) idx =
    ap {B = Code ℕ}
      (λ (k : Code ℕ) s.
        k (record s { function_decls = insert f.name (idx, f.formals) s.function_decls }))
      (declared_same fs (suc idx))

created_same : (fs : List TipFunction) → create_functions (erase_functions fs) ≡ create_functions fs
unfolding create_functions
created_same [] = refl
created_same (f ∷ fs) = rw (created_same fs)

table_same : (fs : List TipFunction) → make_table (erase_functions fs) ≡ make_table fs
unfolding make_table
table_same fs = rw (declared_same fs 0, created_same fs)

-- `codegen` does the same for a program and for the program without ids.
pub gen_program-erase : (p : Program) → gen_program (erase_program p) ≡ gen_program p
unfolding gen_program
gen_program-erase p = rw (table_same p.functions, functions_same p.functions)
