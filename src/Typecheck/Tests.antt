-- ===== src/Typecheck/Tests.antt =====
-- Runs of the analysis on small programs.
use tipc.Prelude.{◌≡◌, refl, [], ◌∷◌, codes}
use tipc.Prelude.Int.{pos}
use tipc.Prelude.Result.{ok}
use tipc.Tree.{number_expr, variable_expr, binary_expr, assign_stmt, return_stmt, no_stmts, stmts}
use tipc.TreePrint.{print_program, print_expr, print_stmt}
use tipc.Ast.{gen_program, start}
use tipc.Types
use tipc.Unify.{unify_types, unify_tests}
use tipc.Solver.{add_node, exist_node, find_loop, find_root, set_type, get_type, unify_nodes}
use tipc.Typecheck.{
  check_expr, check_operands, check_call, check_new_function, set_actuals, actual_types, check_ref,
}
use tipc.Typecheck.Functions.{
  check_program, check_function, check_functions, check_passes, add_nodes, check_assign, check_int,
  check_stmt, check_decls, check_body, prints_return, return_type, node_types, set_formals,
  check_signature,
}
use tipc.Typecheck.Functions.{empty_solver}
use tipc.Typecheck.Printed.{print_typed_program, print_typed_functions}
use tipc.Typecheck.TypedText.{Prints, typed_text, typed_text-lem}
use tipc.Typecheck.Driver.{type_analysis, Analysed, type_analysis-Analysed, gen_program-print}
use tipc.Typecheck.Limits.{check_expr-equality, return_type-assign, check_body-message}
use tipc.Typecheck.Typing.{IsInt}
use tipc.Solver.View.{type_of}
use tipc.Ast.Erase.{erase_program}
use tipc.Prelude.{true, ◌≢◌}
use tipc.Prelude.Result.{err, undefined, type_error, exception}
use tipc.Tree.{input_expr}
use tipc.Prelude.Result.{Post}
use tipc.Unify.Laws.{IsTypeError}
use tipc.Solver.View.{IsValid}
use tipc.Solver.Extends.{Extends}
use tipc.Typecheck.Typing.{ExprHolds}
use tipc.Typecheck.Sound.{check_expr-Holds}
use tipc.Typecheck.StmtTyping.{StmtHolds, StmtHasRefs, StmtsHaveRefs, FunctionHolds, IsReady}
use tipc.Typecheck.StmtSound.{check_stmt-Holds}
use tipc.Typecheck.FunctionSound.{IsThrown, PassesHold, check_function-Holds, check_program-Holds}
use tipc.Typecheck.Examples.{small, numbered_foo, numbered_main, numbered, loop, sum, late}

typed_run :
    type_analysis small start
    ≡ ok (
        codes
          "foo(a): (int) -> int\n{\nreturn (a + 1);\n}\nmain(): () -> int\n{\nvar x: int,p: &int;\nx = foo(3);\np = alloc x;\nreturn *p;\n}\n")
unfolding type_analysis print_typed_program gen_program check_program check_function check_functions
    check_passes add_nodes check_assign check_int check_stmt check_decls check_body prints_return
    return_type node_types set_formals check_signature check_expr check_operands check_call
    check_new_function set_actuals actual_types check_ref add_node exist_node find_loop find_root
    set_type get_type unify_nodes unify_types unify_tests print_expr print_stmt Types.print
typed_run = refl

numbered_run :
    gen_program small start
    ≡ ok (
      numbered,
      record {
        ast_counter = 18;
        fun2id = ("foo", 2) ∷ ("main", 3) ∷ [];
        var2id = ("x", 9) ∷ ("p", 10) ∷ [];
      },
    )
unfolding gen_program
numbered_run = refl

foo-IsReady : IsReady numbered_foo
unfolding StmtsHaveRefs prints_return print_stmt
foo-IsReady = record { refs = ((tt, tt), tt); returns_last = ((λ e. tt), tt) }

main-IsReady : IsReady numbered_main
unfolding StmtsHaveRefs prints_return print_stmt
main-IsReady = record {
  refs = ((tt, tt), ((tt, tt), (tt, tt)));
  returns_last = ((λ e. cc), ((λ e. cc), ((λ e. tt), tt)));
}

check_program-Holds_example :
    Post (λ s'. IsValid s' × PassesHold numbered.functions s') IsThrown (check_program numbered)
check_program-Holds_example = check_program-Holds numbered (foo-IsReady, (main-IsReady, tt))

empty-IsValid : IsValid empty_solver
empty-IsValid = record { rooted = λ n p l. cc; typed = λ n p l. cc; known = λ n t l. cc }

check_function-Holds_example :
    Post
      (λ s'. Extends empty_solver s' × FunctionHolds empty_solver s' numbered_foo)
      IsThrown
      (check_function numbered_foo empty_solver)
check_function-Holds_example =
    check_function-Holds numbered_foo empty_solver empty-IsValid foo-IsReady

check_stmt-Holds_example :
    Post
      (λ s'. Extends empty_solver s' × StmtHolds empty_solver s' loop)
      IsTypeError
      (check_stmt loop empty_solver)
unfolding StmtHasRefs
check_stmt-Holds_example = check_stmt-Holds loop empty_solver empty-IsValid (tt, tt)

check_expr-Holds_example :
    Post
      (λ s'. Extends empty_solver s' × ExprHolds empty_solver s' sum)
      IsTypeError
      (check_expr sum empty_solver)
check_expr-Holds_example = check_expr-Holds sum empty_solver empty-IsValid (tt, tt)

type_analysis-Analysed_example :
    Post (Analysed small) IsThrown (type_analysis (erase_program small) start)
unfolding prints_return print_stmt
type_analysis-Analysed_example =
    type_analysis-Analysed small start
      (((λ e. tt), tt), (((λ e. cc), ((λ e. cc), ((λ e. tt), tt))), tt))

gen_program-print_example :
    Post
      (λ r.
        print_program (codes "  ") true r.0 0
        ≡ print_program (codes "  ") true (erase_program small) 0)
      IsTypeError
      (gen_program (erase_program small) start)
gen_program-print_example = gen_program-print small start (codes "  ") true 0

typed_text-lem_example :
    Prints
      (type_of empty_solver)
      (typed_text (type_of empty_solver) numbered.functions)
      (print_typed_functions numbered.functions empty_solver)
typed_text-lem_example =
    typed_text-lem (type_of empty_solver) numbered.functions empty_solver (tt, ((refl, tt), tt))
      (record { valid = empty-IsValid; types = λ n. refl })

check_expr-equality_example :
    Post
      (λ s'. IsInt s' 1 × IsInt s' 2)
      IsTypeError
      (check_expr (binary_expr 3 "==" (input_expr 1) (number_expr 2 (pos 0))) empty_solver)
check_expr-equality_example =
    check_expr-equality 3 (input_expr 1) (number_expr 2 (pos 0)) empty_solver empty-IsValid tt tt

return_type-assign_example :
    return_type
      (stmts (assign_stmt 1 (variable_expr 2 "returned") (number_expr 3 (pos 0))) no_stmts)
      empty_solver
    ≡ err undefined
return_type-assign_example =
    return_type-assign 1 2 "returned" (number_expr 3 (pos 0)) no_stmts empty_solver refl

check_body-message_example :
    check_body (stmts (return_stmt 0 sum) no_stmts) empty_solver
    ≢ err (type_error (codes "Cannot unify types &int and int"))
check_body-message_example = check_body-message (stmts (return_stmt 0 sum) no_stmts) empty_solver _

late_run : type_analysis late start ≡ err exception
unfolding type_analysis print_typed_program gen_program check_program check_function check_functions
    check_passes add_nodes check_assign check_int check_stmt check_decls check_body prints_return
    return_type node_types set_formals check_signature check_expr check_operands check_call
    check_new_function set_actuals actual_types check_ref add_node exist_node find_loop find_root
    set_type get_type unify_nodes unify_types unify_tests print_expr print_stmt Types.print
late_run = refl
