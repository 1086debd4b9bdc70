-- ===== src/TreePrint/Erased.antt =====
-- The prints (src/TIPtreePrint.cpp) of a tree and of the tree that has its ids taken off.
use tipc.Prelude.{
  ℕ, ◌+◌, ◌≡◌, refl, ap, sym, ◌∙◌, Bool, true, false, List, [], ◌∷◌, ◌++◌, codes, Text,
}
use tipc.Ast.Erase.{
  erase_expr, erase_exprs, erase_field, erase_fields, erase_stmt, erase_else, erase_stmts,
  erase_decls, erase_functions, erase_function, erase_program,
}
use tipc.TreePrint.{
  Printed, print_expr, print_actuals, print_field, print_fields, print_decl, print_stmt, print_else,
  print_stmts, print_decls, print_function, print_functions, print_program,
}
use tipc.Tree.{
  Expr, Exprs, FieldExpr, FieldExprs, number_expr, variable_expr, binary_expr, fun_app_expr,
  input_expr, alloc_expr, ref_expr, de_ref_expr, null_expr, field_expr, record_expr, access_expr,
  no_exprs, exprs, field, no_fields, fields, DeclStmt, Stmt, ElseStmt, Stmts, decl_stmt, block_stmt,
  assign_stmt, while_stmt, if_stmt, output_stmt, error_stmt, return_stmt, no_else, else_stmt,
  no_stmts, stmts, TipFunction, Program,
}

mutual
  unfolding print_expr erase_expr

  plain_expr : (e : Expr) → print_expr (erase_expr e) ≡ print_expr e
  plain_expr (number_expr i v) = refl
  plain_expr (variable_expr i x) = refl
  plain_expr (binary_expr i op l r) = rw (plain_expr l, plain_expr r)
  plain_expr (fun_app_expr i f es) = rw (plain_expr f, plain_actuals true es)
  plain_expr (input_expr i) = refl
  plain_expr (alloc_expr i e) = rw (plain_expr e)
  plain_expr (ref_expr i x r) = refl
  plain_expr (de_ref_expr i e) = rw (plain_expr e)
  plain_expr (null_expr i) = refl
  plain_expr (field_expr f) = plain_field f
  plain_expr (record_expr i fs) = rw (plain_fields true fs)
  plain_expr (access_expr i e f) = rw (plain_expr e)

  plain_actuals :
      (skip : Bool) (es : Exprs) → print_actuals skip (erase_exprs es) ≡ print_actuals skip es
  plain_actuals skip no_exprs = refl
  plain_actuals skip (exprs e es) = rw (plain_expr e, plain_actuals false es)

  plain_field : (f : FieldExpr) → print_field (erase_field f) ≡ print_field f
  plain_field (field i f e) = rw (plain_expr e)

  plain_fields :
      (skip : Bool) (fs : FieldExprs) → print_fields skip (erase_fields fs) ≡ print_fields skip fs
  plain_fields skip no_fields = refl
  plain_fields skip (fields f fs) = rw (plain_field f, plain_fields false fs)

module _ (indent : Text) (print_lines : Bool) where
  mutual
    unfolding print_stmt erase_stmt print_decl

    plain_stmt :
        (b : Stmt) (k : ℕ)
        → print_stmt indent print_lines (erase_stmt b) k ≡ print_stmt indent print_lines b k
    plain_stmt (decl_stmt d) k = refl
    plain_stmt (block_stmt i bs) k = rw (plain_stmts bs (k + 1))
    plain_stmt (assign_stmt i l r) k = rw (plain_expr l, plain_expr r)
    plain_stmt (while_stmt i c b) k = rw (plain_expr c, plain_stmt b (k + 1))
    plain_stmt (if_stmt i c b e) k = rw (
      plain_expr c,
      plain_stmt b (k + 1),
      plain_else e (print_stmt indent print_lines b (k + 1)).1,
    )
    plain_stmt (output_stmt i e) k = rw (plain_expr e)
    plain_stmt (error_stmt i e) k = rw (plain_expr e)
    plain_stmt (return_stmt i e) k = rw (plain_expr e)

    plain_else :
        (e : ElseStmt) (k : ℕ)
        → print_else indent print_lines (erase_else e) k ≡ print_else indent print_lines e k
    plain_else no_else k = refl
    plain_else (else_stmt b) k = rw (plain_stmt b _)

    plain_stmts :
        (bs : Stmts) (k : ℕ)
        → print_stmts indent print_lines (erase_stmts bs) k ≡ print_stmts indent print_lines bs k
    plain_stmts no_stmts k = refl
    plain_stmts (stmts b bs) k =
        rw (plain_stmt b k, plain_stmts bs (print_stmt indent print_lines b k).1)

  pub print_stmt-erase :
      (b : Stmt) (k : ℕ)
      → print_stmt indent print_lines (erase_stmt b) k ≡ print_stmt indent print_lines b k
  print_stmt-erase = plain_stmt

  print_decls-erase :
      (ds : List DeclStmt) (k : ℕ)
      → print_decls indent print_lines (erase_decls ds) k ≡ print_decls indent print_lines ds k
  unfolding print_decls print_decl
  print_decls-erase [] k = refl
  print_decls-erase (d ∷ ds) k = rw (print_decls-erase ds k)

  print_function-erase :
      (f : TipFunction) (k : ℕ)
      → print_function indent print_lines (erase_function f) k
        ≡ print_function indent print_lines f k
  unfolding print_function
  print_function-erase f k =
      rw (plain_stmts f.body (k + 1 + 1), print_decls-erase f.decls (k + 1 + 1))

  print_functions-erase :
      (fs : List TipFunction) (k : ℕ)
      → print_functions indent print_lines (erase_functions fs) k
        ≡ print_functions indent print_lines fs k
  unfolding print_functions
  print_functions-erase [] k = refl
  print_functions-erase (f ∷ fs) k =
      let done = print_function indent print_lines f k in
      ap
        (λ (r : Printed).
          let rest = print_functions indent print_lines (erase_functions fs) r.1 in
          (r.0 ++ (codes "\n" ++ rest.0), rest.1))
        (print_function-erase f k)
      ∙ ap (λ (rest : Printed). (done.0 ++ (codes "\n" ++ rest.0), rest.1))
          (print_functions-erase fs done.1)

pub print_program-erase :
    (i : Text) (a : Bool) (p : Program) (k : ℕ)
    → print_program i a (erase_program p) k ≡ print_program i a p k
unfolding print_program
print_program-erase i a p k = print_functions-erase i a p.functions k

-- Two trees that differ in ids only print the same text.
pub print_program-same :
    (i : Text) (a : Bool) (p q : Program) (k : ℕ)
    → erase_program p ≡ erase_program q
    → print_program i a p k ≡ print_program i a q k
print_program-same i a p q k e =
    sym (print_program-erase i a p k)
    ∙ ap (λ t. print_program i a t k) e
    ∙ print_program-erase i a q k
