-- ===== src/Typecheck/Limits.antt =====
-- Single steps of the type analysis (src/TIPtypecheck.cpp) that its source reads otherwise.
use tipc.Tree.{get_id}
use tipc.Prelude.{
  ℕ, zero, suc, ◌≡◌, ◌≢◌, refl, ap, [], ◌∷◌, ◌++◌, String, Text, codes, take, length, arith,
}
use tipc.Prelude.Result.{
  Result, ok, err, type_error, undefined, exception, out_of_fuel, Post, ◌▷◌, ◌>>=◌,
}
use tipc.Unify.Laws.{IsTypeError}
use tipc.Solver.{UnionFindSolver}
use tipc.Solver.View.{IsValid}
use tipc.TreePrint.{print_expr, print_stmt}
use tipc.Typecheck.{check_expr}
use tipc.Typecheck.Functions.{return_type, prints_return, check_stmt, check_body, rethrow}
use tipc.Typecheck.Typing.{IsInt}
use tipc.Typecheck.Sound.{HasRefs, check_expr-Holds}
use tipc.Tree.{Expr, variable_expr, binary_expr, Stmts, assign_stmt, no_stmts, stmts}

-- On a valid solver the analysis of `l == r` with numbered references throws a TIPTypeError, or
-- makes both operands ints.
pub check_expr-equality :
    (i : ℕ) (l r : Expr) (s : UnionFindSolver)
    → IsValid s
    → HasRefs l
    → HasRefs r
    → Post
        (λ s'. IsInt s' (get_id l) × IsInt s' (get_id r))
        IsTypeError
        (check_expr (binary_expr i "==" l r) s)
check_expr-equality i l r s v hl hr =
    check_expr-Holds (binary_expr i "==" l r) s v (hl, hr) ▷ λ s' (_, (_, _, ints, _)). ints

take-append : (n : ℕ) (xs ys : Text) → length (take n xs) ≡ n → take n (xs ++ ys) ≡ take n xs
take-append zero xs ys e = refl
take-append (suc n) [] ys e = absurd (omega arith)
take-append (suc n) (x ∷ xs) ys e = ap (λ t. x ∷ t) (take-append n xs ys (omega arith))

-- The search for the return statement uses a null pointer when it meets an assignment to a
-- variable whose name begins with "return".
pub return_type-assign :
    (i j : ℕ) (x : String) (e : Expr) (bs : Stmts) (s : UnionFindSolver)
    → take 6 (codes x) ≡ codes "return"
    → return_type (stmts (assign_stmt i (variable_expr j x) e) bs) s ≡ err undefined
unfolding return_type prints_return print_stmt print_expr
return_type-assign i j x e bs s named =
    rw
      (
        take-append 6 (codes x) (codes " = " ++ (print_expr e ++ codes ";")) (ap length named),
        named,
      )
      refl

-- No exception that leaves the body of a function carries the message of a TIPTypeError.
pub check_body-message :
    (bs : Stmts) (s : UnionFindSolver) (msg : Text) → check_body bs s ≢ err (type_error msg)
unfolding check_body
check_body-message no_stmts s msg = cc
check_body-message (stmts b bs) s msg = after (check_stmt b s) (λ s'. check_body-message bs s' msg)
  where
    after :
        (r : Result UnionFindSolver)
        → ((s' : UnionFindSolver) → check_body bs s' ≢ err (type_error msg))
        → (rethrow r >>= check_body bs) ≢ err (type_error msg)
    after (ok s') later = later s'
    after (err (type_error _)) later = cc
    after (err exception) later = cc
    after (err undefined) later = cc
    after (err out_of_fuel) later = cc
