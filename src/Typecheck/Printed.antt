-- ===== src/Typecheck/Printed.antt =====
-- The printing of a typed program: `printTyped` (src/TIPtypecheck.cpp).
use tipc.Prelude.{ℕ, String, List, [], ◌∷◌, ◌++◌, Text, codes}
use tipc.Prelude.Result.{Result, ok, err, undefined, ◌>>=◌}
use tipc.Tree.{Stmts, no_stmts, stmts, DeclStmt, TipFunction, Program}
use tipc.Types
use tipc.Solver.{UnionFindSolver, get_type}
use tipc.Typecheck.Functions.{print_plain, check_program}

-- A text, and the solver that `getType` has left.
abbrev pub Printing : Type 0
Printing = UnionFindSolver → Result (Text × UnionFindSolver)

abbrev pub comma_unless_last : List String → Text
comma_unless_last [] = []
comma_unless_last (x ∷ xs) = codes ","

-- The loop of `DeclStmt::printTyped`; an id beyond the end of `VAR_IDS` is undefined.
unfoldable pub print_typed_vars : List String → List ℕ → Printing
print_typed_vars [] ids s = ok ([], s)
print_typed_vars (x ∷ xs) [] s = err undefined
print_typed_vars (x ∷ xs) (n ∷ ns) s = do
  (t, s') ← get_type n s
  (more, s'') ← print_typed_vars xs ns s'
  ok (codes x ++ (codes ": " ++ (Types.print t ++ (comma_unless_last xs ++ more))), s'')

unfoldable pub print_typed_decl : DeclStmt → Printing
unfolding print_typed_vars
print_typed_decl d s = do
  (vars, s') ← print_typed_vars d.vars d.var_ids s
  ok (codes "var " ++ (vars ++ codes ";"), s')

unfoldable pub print_typed_decls : List DeclStmt → Printing
unfolding print_typed_decl
print_typed_decls [] s = ok ([], s)
print_typed_decls (d ∷ ds) s = do
  (text, s') ← print_typed_decl d s
  (more, s'') ← print_typed_decls ds s'
  ok (text ++ (codes "\n" ++ more), s'')

unfoldable pub print_formals : List String → Text
print_formals [] = []
print_formals (x ∷ xs) = codes x ++ (comma_unless_last xs ++ print_formals xs)

unfoldable pub print_body : Stmts → Text
print_body no_stmts = []
print_body (stmts b bs) = print_plain b ++ (codes "\n" ++ print_body bs)

unfoldable pub print_typed_function : TipFunction → Printing
unfolding print_typed_decls print_formals print_body
print_typed_function f s = do
  (t, s₁) ← get_type f.id s
  (decls, s₂) ← print_typed_decls f.decls s₁
  ok (
    codes f.name
        ++ (codes "("
            ++ (print_formals f.formals
                ++ (codes "): "
                    ++ (Types.print t
                        ++ (codes "\n{\n" ++ (decls ++ (print_body f.body ++ codes "}"))))))),
    s₂,
  )

unfoldable pub print_typed_functions : List TipFunction → Printing
unfolding print_typed_function
print_typed_functions [] s = ok ([], s)
print_typed_functions (f ∷ fs) s = do
  (text, s') ← print_typed_function f s
  (more, s'') ← print_typed_functions fs s'
  ok (text ++ (codes "\n" ++ more), s'')

-- `Program::printTyped`
unfoldable pub print_typed_program : Program → Result Text
unfolding print_typed_functions
print_typed_program p = do
  s ← check_program p
  (text, s') ← print_typed_functions p.functions s
  ok text
