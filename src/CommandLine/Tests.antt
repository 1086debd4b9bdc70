-- ===== src/CommandLine/Tests.antt =====
-- Runs of the compiler. A module is the list of its calls, and the passes change nothing.
use tipc.Prelude.{◌≡◌, true, false, none, List, [], ◌∷◌, ◌++◌, codes}
use tipc.Prelude.Int.{pos}
use tipc.Prelude.Result.{◌>>=◌}
use tipc.Llvm.{Call}
use tipc.ParseTree.{FunctionContext, atom, num_atom, no_statements}
use tipc.Build.{Visited, build}
use tipc.Ast.{start}
use tipc.Typecheck.Driver.{type_analysis}
use tipc.Codegen.Functions.{initial}
use tipc.CommandLine.{Options, after_text, run, run-typecheck}

abbrev nothing_visited : Visited
nothing_visited = record {
  visited_stmt = none;
  visited_decl_stmt = none;
  visited_expr = none;
  visited_field_expr = none;
  visited_function = none;
}

-- main() { return 7; }
abbrev parse : FunctionContext
parse = record {
  name = ("main", pos 1);
  params = [];
  declarations = [];
  body = no_statements;
  return_stmt = atom (num_atom (codes "7"));
}

abbrev module_of : List Call → List Call
module_of calls = calls

abbrev options : Options
options = record { pp = false; pp_wlines = false; no_opt = true; source_file = codes "seven.tip" }

run-typecheck_example :
    run module_of module_of true options (parse ∷ []) nothing_visited start initial ≡ (
      build (parse ∷ []) nothing_visited >>= λ p. type_analysis p start >>= λ text.
      after_text
        (text ++ 10 ∷ [])
        (run module_of module_of false options (parse ∷ []) nothing_visited start initial))
run-typecheck_example =
    run-typecheck module_of module_of options (parse ∷ []) nothing_visited start initial
