-- ===== src/Typecheck/Examples.antt =====
-- Small programs, before and after `genId`, for the tests of the analysis.
use tipc.Prelude.{ℕ, [], ◌∷◌}
use tipc.Prelude.Int.{pos}
use tipc.Tree.{
  Expr, number_expr, variable_expr, binary_expr, fun_app_expr, alloc_expr, de_ref_expr, no_exprs,
  exprs, assign_stmt, return_stmt, no_stmts, stmts, TipFunction, Program,
}
use tipc.Tree.{Stmt, while_stmt, output_stmt, input_expr}

abbrev pub num : ℕ → Expr
num n = number_expr 0 (pos n)

abbrev pub plus : Expr → Expr → Expr
plus l r = binary_expr 0 "+" l r

-- foo(a) { return a + 1; }  main() { var x, p; x = foo(3); p = alloc x; return *p; }
abbrev pub foo : TipFunction
foo = record {
  id = 0;
  name = "foo";
  formals = "a" ∷ [];
  formal_ids = [];
  decls = [];
  body = stmts (return_stmt 0 (plus (variable_expr 0 "a") (num 1))) no_stmts;
  line = pos 1;
}

abbrev pub main : TipFunction
main = record {
  id = 0;
  name = "main";
  formals = [];
  formal_ids = [];
  decls = record { id = 0; vars = "x" ∷ "p" ∷ []; var_ids = []; line = pos 2 } ∷ [];
  body =
      stmts
        (assign_stmt 0 (variable_expr 0 "x")
          (fun_app_expr 0 (variable_expr 0 "foo") (exprs (num 3) no_exprs)))
        (stmts (assign_stmt 0 (variable_expr 0 "p") (alloc_expr 0 (variable_expr 0 "x")))
          (stmts (return_stmt 0 (de_ref_expr 0 (variable_expr 0 "p"))) no_stmts));
  line = pos 2;
}

abbrev pub small : Program
small = record { id = 0; functions = foo ∷ main ∷ [] }

-- The program once `genId` has numbered it.
abbrev pub numbered_foo : TipFunction
numbered_foo = record {
  id = 2;
  name = "foo";
  formals = "a" ∷ [];
  formal_ids = 4 ∷ [];
  decls = [];
  body =
      stmts (return_stmt 5 (binary_expr 6 "+" (variable_expr 4 "a") (number_expr 7 (pos 1))))
        no_stmts;
  line = pos 1;
}

abbrev pub numbered_main : TipFunction
numbered_main = record {
  id = 3;
  name = "main";
  formals = [];
  formal_ids = [];
  decls = record { id = 8; vars = "x" ∷ "p" ∷ []; var_ids = 9 ∷ 10 ∷ []; line = pos 2 } ∷ [];
  body =
      stmts
        (assign_stmt 11 (variable_expr 9 "x")
          (fun_app_expr 12 (variable_expr 2 "foo") (exprs (number_expr 13 (pos 3)) no_exprs)))
        (stmts (assign_stmt 14 (variable_expr 10 "p") (alloc_expr 15 (variable_expr 9 "x")))
          (stmts (return_stmt 16 (de_ref_expr 17 (variable_expr 10 "p"))) no_stmts));
  line = pos 2;
}

abbrev pub numbered : Program
numbered = record { id = 1; functions = numbered_foo ∷ numbered_main ∷ [] }

abbrev pub loop : Stmt
loop = while_stmt 1 (number_expr 2 (pos 1)) (output_stmt 3 (input_expr 4))

abbrev pub sum : Expr
sum = binary_expr 1 "+" (number_expr 2 (pos 1)) (alloc_expr 3 (number_expr 4 (pos 5)))

-- main() { var x, p; p = alloc x; x = 1; return 0; }: in the second pass the pointer has the type
-- of a pointer to an unknown, which is not unified with the pointer to an int.
abbrev pub late : Program
late = record {
  id = 0;
  functions =
      record {
        id = 0;
        name = "main";
        formals = [];
        formal_ids = [];
        decls = record { id = 0; vars = "x" ∷ "p" ∷ []; var_ids = []; line = pos 1 } ∷ [];
        body = stmts (assign_stmt 0 (variable_expr 0 "p") (alloc_expr 0 (variable_expr 0 "x"))) (
            stmts (assign_stmt 0 (variable_expr 0 "x") (num 1))
              (stmts (return_stmt 0 (num 0)) no_stmts));
        line = pos 1;
      }
      ∷ [];
}
