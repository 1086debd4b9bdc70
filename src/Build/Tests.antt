-- ===== src/Build/Tests.antt =====
-- Runs of the visitor.
use tipc.Prelude.{◌≡◌, refl, none, some, leb, if◌then◌else◌, [], ◌∷◌, codes}
use tipc.Prelude.Int.{pos, negsuc}
use tipc.Prelude.Result.{ok, err, exception, Post}
use tipc.Ast.Erase.{erase_program}
use tipc.Build.{Visited, visit_expr, build}
use tipc.Build.Reference.{functions_of}
use tipc.Build.ExprLaws.{IsOutOfRange}
use tipc.Build.Large.{HasLarge}
use tipc.Build.Laws.{build-lem}
use tipc.Build.Numerals.{numeral, magnitude, visit_expr-numeral}
use tipc.ParseTree.{
  gt, neg_number, operation, atom, fun_app_atom, num_atom, id_atom, input_atom, record_atom,
  paren_callee, no_actuals, actuals, no_pairs, pairs, de_ref_target, assignment, branch, output,
  no_branch, no_statements, statements, FunctionContext,
}
use tipc.Tree.{
  number_expr, variable_expr, binary_expr, fun_app_expr, input_expr, de_ref_expr, record_expr,
  no_exprs, exprs, field, no_fields, fields, assign_stmt, if_stmt, output_stmt, return_stmt,
  no_else, no_stmts, stmts,
}

abbrev nothing_visited : Visited
nothing_visited = record {
  visited_stmt = none;
  visited_decl_stmt = none;
  visited_expr = none;
  visited_field_expr = none;
  visited_function = none;
}

-- main(a) { var p; *p = {f: a}; if (a > -2) output (p)(3); return input; }
abbrev parse : FunctionContext
parse = record {
  name = ("main", pos 1);
  params = ("a", pos 1) ∷ [];
  declarations = (("p", pos 2) ∷ []) ∷ [];
  body =
      statements
        (assignment (de_ref_target (id_atom "p"))
          (atom (record_atom (pairs "f" (atom (id_atom "a")) no_pairs))))
        (statements
          (branch (operation gt (atom (id_atom "a")) (neg_number (codes "2")))
            (output (
              atom (
                fun_app_atom (paren_callee (atom (id_atom "p")))
                  (actuals (atom (num_atom (codes "3"))) no_actuals))))
            no_branch)
          no_statements);
  return_stmt = atom input_atom;
}

build_run :
    build (parse ∷ []) nothing_visited
    ≡ ok (record {
      id = 0;
      functions =
          record {
            id = 0;
            name = "main";
            formals = "a" ∷ [];
            formal_ids = [];
            decls = record { id = 0; vars = "p" ∷ []; var_ids = []; line = pos 2 } ∷ [];
            body =
                stmts
                  (assign_stmt 0
                    (de_ref_expr 0 (variable_expr 0 "p"))
                    (record_expr 0 (fields (field 0 "f" (variable_expr 0 "a")) no_fields)))
                  (stmts
                    (if_stmt 0
                      (binary_expr 0 ">" (variable_expr 0 "a") (number_expr 0 (negsuc 1)))
                      (output_stmt 0 (
                        fun_app_expr 0
                          (variable_expr 0 "p")
                          (exprs (number_expr 0 (pos 3)) no_exprs)))
                      no_else)
                    (stmts (return_stmt 0 (input_expr 0)) no_stmts));
            line = pos 1;
          }
          ∷ [];
    })
unfolding build
build_run = refl

-- 2147483648 is beyond an `int`.
too_large : visit_expr (neg_number (codes "2147483648")) nothing_visited ≡ err exception
unfolding visit_expr
too_large = refl

build-lem_example :
    Post
      (λ p. (functions_of (parse ∷ []) ≡ ok p.functions) × (erase_program p ≡ p))
      (IsOutOfRange (HasLarge (parse ∷ [])))
      (build (parse ∷ []) nothing_visited)
build-lem_example = build-lem (parse ∷ []) nothing_visited

visit_expr-numeral_example : visit_expr (numeral (negsuc 41)) nothing_visited ≡ (
    if leb (magnitude (negsuc 41)) 2147483647
    then ok (record nothing_visited { visited_expr = some (number_expr 0 (negsuc 41)) })
    else err exception)
visit_expr-numeral_example = visit_expr-numeral (negsuc 41) nothing_visited
