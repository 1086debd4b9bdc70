-- ===== src/TreePrint/Tests.antt =====
-- Runs of the pretty printer, and its laws at concrete trees.
use tipc.Prelude.{◌≡◌, ◌≢◌, refl, true, false, [], ◌∷◌, codes}
use tipc.Prelude.Int.{pos, negsuc}
use tipc.Tree.{
  number_expr, variable_expr, binary_expr, fun_app_expr, alloc_expr, de_ref_expr, access_expr,
  no_exprs, exprs, block_stmt, assign_stmt, while_stmt, return_stmt, no_stmts, stmts, Program,
}
use tipc.TreePrint.{print_expr, print_program}
use tipc.TreePrint.Level.{print_program-level}
use tipc.TreePrint.Ambiguous.{print_expr_ambiguous}

abbrev one_function : Program
one_function = record {
  id = 0;
  functions =
      record {
        id = 0;
        name = "main";
        formals = "a" ∷ "b" ∷ [];
        formal_ids = [];
        decls = record { id = 0; vars = "x" ∷ []; var_ids = []; line = pos 2 } ∷ [];
        body =
            stmts
              (while_stmt 0 (binary_expr 0 ">" (variable_expr 0 "a") (number_expr 0 (negsuc 11))) (
                block_stmt 0
                  (stmts (assign_stmt 0 (variable_expr 0 "x") (number_expr 0 (pos 305))) no_stmts)))
              (stmts (return_stmt 0 (variable_expr 0 "x")) no_stmts);
        line = pos 1;
      }
      ∷ [];
}

printed : print_program (codes "  ") true one_function 0 ≡ (
  codes
      "main(a, b) // @1\n  {\n    var x; // @2\n    while ((a > -12)) \n      {\n        x = 305;\n      }\n    return x;\n  }\n\n",
  0,
)
unfolding print_program
printed = refl

print_program-level_example :
    ((print_program (codes "  ") true one_function 3).1 ≡ 3)
    × (print_program [] false one_function (print_program (codes "  ") true one_function 3).1
        ≡ print_program [] false one_function 3)
print_program-level_example =
    print_program-level (codes "  ") [] true false one_function one_function 3

-- `(*p)(1)` prints as `*p(1)`.
print_expr_ambiguous_example :
    let p = variable_expr 0 "p" in
    let one = exprs (number_expr 0 (pos 1)) no_exprs in
    (print_expr (fun_app_expr 0 (de_ref_expr 0 p) one)
      ≡ print_expr (de_ref_expr 0 (fun_app_expr 0 p one)))
    × (fun_app_expr 0 (de_ref_expr 0 p) one ≢ de_ref_expr 0 (fun_app_expr 0 p one))
    × (print_expr (access_expr 0 (de_ref_expr 0 p) "f")
        ≡ print_expr (de_ref_expr 0 (access_expr 0 p "f")))
    × (access_expr 0 (de_ref_expr 0 p) "f" ≢ de_ref_expr 0 (access_expr 0 p "f"))
    × (print_expr (fun_app_expr 0 (alloc_expr 0 p) one)
        ≡ print_expr (alloc_expr 0 (fun_app_expr 0 p one)))
    × (fun_app_expr 0 (alloc_expr 0 p) one ≢ alloc_expr 0 (fun_app_expr 0 p one))
print_expr_ambiguous_example =
    print_expr_ambiguous 0 0 (variable_expr 0 "p") (exprs (number_expr 0 (pos 1)) no_exprs) "f"
