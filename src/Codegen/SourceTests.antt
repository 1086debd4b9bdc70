-- ===== src/Codegen/SourceTests.antt =====
-- The parse of a program, compiled.
use tipc.Prelude.{codes, none, [], ◌∷◌}
use tipc.Prelude.Int.{pos}
use tipc.Build.{Visited}
use tipc.ParseTree.{
  gt, sub, operation, atom, num_atom, id_atom, input_atom, id_target, assignment, while_loop,
  output, no_statements, statements, FunctionContext,
}
use tipc.Codegen.Supported.{Supported}

abbrev nothing_visited : Visited
nothing_visited = record {
  visited_stmt = none;
  visited_decl_stmt = none;
  visited_expr = none;
  visited_field_expr = none;
  visited_function = none;
}

-- main(a) { var n; n = input; while (a > n) a = a - 1; output n; return a; }
abbrev parse : FunctionContext
parse = record {
  name = ("main", pos 1);
  params = ("a", pos 1) ∷ [];
  declarations = (("n", pos 2) ∷ []) ∷ [];
  body = statements (assignment (id_target "n") (atom input_atom)) (
      statements
        (while_loop (operation gt (atom (id_atom "a")) (atom (id_atom "n"))) (
          assignment (id_target "a")
            (operation sub (atom (id_atom "a")) (atom (num_atom (codes "1"))))))
        (statements (output (atom (id_atom "n"))) no_statements));
  return_stmt = atom (id_atom "a");
}
