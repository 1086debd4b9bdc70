-- ===== src/Ast/Tests.antt =====
-- Runs of `genId`.
use tipc.Prelude.{◌≡◌, refl, inl, inr, none, some, [], ◌∷◌, String_eq, All}
use tipc.Prelude.Int.{pos}
use tipc.Prelude.Result.{Post, ok}
use tipc.Unify.Laws.{IsTypeError}
use tipc.Ast.{GenState, start, gen_expr, resolve, gen_program}
use tipc.Ast.Erase.{erase_program}
use tipc.Ast.Scope.{StmtsRefsIn}
use tipc.Ast.FunctionScope.{BodyResolved, gen_program-Resolved}
use tipc.Ast.Undeclared.{gen_expr-undeclared}
use tipc.Tree.{
  variable_expr, binary_expr, ref_expr, de_ref_expr, assign_stmt, return_stmt, no_stmts, stmts,
  TipFunction, Program,
}

-- main(n) { var x, p; p = &x; x = main; return *p + n; }
abbrev main : TipFunction
main = record {
  id = 0;
  name = "main";
  formals = "n" ∷ [];
  formal_ids = [];
  decls = record { id = 0; vars = "x" ∷ "p" ∷ []; var_ids = []; line = pos 1 } ∷ [];
  body = stmts (assign_stmt 0 (variable_expr 0 "p") (ref_expr 0 "x" none)) (
      stmts (assign_stmt 0 (variable_expr 0 "x") (variable_expr 0 "main")) (
        stmts
          (return_stmt 0
            (binary_expr 0 "+" (de_ref_expr 0 (variable_expr 0 "p")) (variable_expr 0 "n")))
          no_stmts));
  line = pos 1;
}

abbrev pointers : Program
pointers = record { id = 0; functions = main ∷ [] }

-- Its numbering, in which `x` is 5, `p` is 6 and `main` is 2.
numbered_pointers :
    gen_program pointers start
    ≡ ok (
      record {
        id = 1;
        functions =
            record {
              id = 2;
              name = "main";
              formals = "n" ∷ [];
              formal_ids = 3 ∷ [];
              decls =
                  record { id = 4; vars = "x" ∷ "p" ∷ []; var_ids = 5 ∷ 6 ∷ []; line = pos 1 } ∷ [];
              body = stmts (assign_stmt 7 (variable_expr 6 "p") (ref_expr 8 "x" (some 5))) (
                  stmts (assign_stmt 9 (variable_expr 5 "x") (variable_expr 2 "main")) (
                    stmts
                      (return_stmt 10 (
                        binary_expr 11 "+"
                          (de_ref_expr 12 (variable_expr 6 "p"))
                          (variable_expr 3 "n")))
                      no_stmts));
              line = pos 1;
            }
            ∷ [];
      },
      record {
        ast_counter = 13;
        fun2id = ("main", 2) ∷ [];
        var2id = ("n", 3) ∷ ("x", 5) ∷ ("p", 6) ∷ [];
      },
    )
unfolding gen_program
numbered_pointers = refl

gen_program-Resolved_example :
    Post
      (λ r. All (BodyResolved r.1.fun2id) r.0.functions)
      IsTypeError
      (gen_program (erase_program pointers) start)
unfolding StmtsRefsIn
gen_program-Resolved_example =
    gen_program-Resolved pointers start
      (((tt, inr (inl (inl refl))), ((tt, tt), ((tt, tt), tt))), tt)

gen_expr-undeclared_example :
    (s' : GenState) × (gen_expr (ref_expr 0 "x" none) start ≡ ok (ref_expr 1 "x" (some 0), s'))
    × (resolve "x" s' ≡ ok (0, s'))
gen_expr-undeclared_example = gen_expr-undeclared "x" start refl
