-- ===== src/TreePrint/Level.antt =====
-- The global `indentLevel` of src/TIPtreePrint.cpp before and after a print.
use tipc.Prelude.{ℕ, ◌+◌, ◌-◌, ◌<◌, ◌≡◌, refl, ap, Bool, List, [], ◌∷◌, Text, arith}
use tipc.Tree.{
  Stmt, ElseStmt, Stmts, decl_stmt, block_stmt, assign_stmt, while_stmt, if_stmt, output_stmt,
  error_stmt, return_stmt, no_else, else_stmt, no_stmts, stmts, TipFunction, Program,
}
use tipc.TreePrint.{
  print_stmt, print_else, print_stmts, print_function, print_functions, print_program,
}

module _ (indent : Text) (print_lines : Bool) where
  mutual
    unfolding print_stmt

    level_stmt : (s : Stmt) (k : ℕ) → (print_stmt indent print_lines s k).1 ≡ k
    level_stmt (decl_stmt d) k = refl
    level_stmt (block_stmt i ss) k = omega (arith, level_stmts ss (k + 1))
    level_stmt (assign_stmt i l r) k = refl
    level_stmt (while_stmt i c s) k = omega (arith, level_stmt s (k + 1))
    level_stmt (if_stmt i c s e) k =
        let (text, level') = print_stmt indent print_lines s (k + 1) in
        omega
          (arith, level_stmt s (k + 1), level_else e level' (omega (arith, level_stmt s (k + 1))))
    level_stmt (output_stmt i e) k = refl
    level_stmt (error_stmt i e) k = refl
    level_stmt (return_stmt i e) k = refl

    level_else : (e : ElseStmt) (k : ℕ) → 0 < k → (print_else indent print_lines e k).1 ≡ k
    level_else no_else k pos = refl
    level_else (else_stmt s) k pos = omega (arith, level_stmt s (k - 1 + 1))

    level_stmts : (ss : Stmts) (k : ℕ) → (print_stmts indent print_lines ss k).1 ≡ k
    level_stmts no_stmts k = refl
    level_stmts (stmts s ss) k =
        omega (arith, level_stmt s k, level_stmts ss (print_stmt indent print_lines s k).1)

  -- Printing a statement leaves the indentation level as it was.
  pub print_stmt-level : (s : Stmt) (k : ℕ) → (print_stmt indent print_lines s k).1 ≡ k
  print_stmt-level s k = level_stmt s k

  print_function-level : (f : TipFunction) (k : ℕ) → (print_function indent print_lines f k).1 ≡ k
  unfolding print_function
  print_function-level f k = omega (arith, level_stmts f.body (k + 1 + 1))

  print_functions-level :
      (fs : List TipFunction) (k : ℕ) → (print_functions indent print_lines fs k).1 ≡ k
  unfolding print_functions
  print_functions-level [] k = refl
  print_functions-level (f ∷ fs) k = omega (
    arith,
    print_function-level f k,
    print_functions-level fs (print_function indent print_lines f k).1,
  )

-- Printing a program leaves the indentation level as it was, so a second print, with whatever
-- settings, starts where the first one did.
pub print_program-level :
    (i j : Text) (a b : Bool) (p q : Program) (k : ℕ)
    → (print_program i a p k).1 ≡ k
      × (print_program j b q (print_program i a p k).1 ≡ print_program j b q k)
unfolding print_program
print_program-level i j a b p q k =
    let same = print_functions-level i a p.functions k in (same, ap (print_program j b q) same)
