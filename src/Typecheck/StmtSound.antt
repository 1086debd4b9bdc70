-- ===== src/Typecheck/StmtSound.antt =====
-- The analysis of statements (src/TIPtypecheck.cpp) against their constraints.
use tipc.Prelude.{ℕ, ◌≡◌, List, [], ◌∷◌}
use tipc.Prelude.Result.{Post, returns, ◌⟫◌, ◌▷◌}
use tipc.Tree.{
  get_id, Expr, Stmt, ElseStmt, Stmts, decl_stmt, block_stmt, assign_stmt, while_stmt, if_stmt,
  output_stmt, error_stmt, return_stmt, no_else, else_stmt, no_stmts, stmts,
}
use tipc.Unify.Laws.{IsTypeError}
use tipc.Unify.Order.{Refines-int}
use tipc.Types.{int}
use tipc.Solver.{UnionFindSolver, add_node}
use tipc.Solver.View.{IsValid, root_of, type_of}
use tipc.Solver.AddNode.{add_node-Added}
use tipc.Solver.Extends.{
  Extends, Extends-refl, Extends-trans, add_node-Extends, set_type-Extends, unify_nodes-Extends,
  get_type-Extends,
}
use tipc.Typecheck.Functions.{
  add_nodes, check_assign, check_int, check_stmt, check_else, check_stmts,
}
use tipc.Typecheck.Typing.{IsInt, ExprHolds, AllKnown, IsInt-Extends, ExprHolds-Extends}
use tipc.Typecheck.Sound.{HasRefs, check_expr-Holds}
use tipc.Typecheck.StmtTyping.{
  StmtHolds, ElseHolds, StmtsHold, StmtHasRefs, ElseHasRefs, StmtsHaveRefs, StmtHolds-Extends,
  ElseHolds-Extends, StmtsHold-Extends,
}

pub add_nodes-Extends : (ns : List ℕ) (s : UnionFindSolver) → IsValid s → Extends s (add_nodes ns s)
unfolding add_nodes
add_nodes-Extends [] s v = Extends-refl s v
add_nodes-Extends (n ∷ ns) s v =
    let x = add_node-Extends s v n in Extends-trans x (add_nodes-Extends ns (add_node n s) x.valid)

pub add_nodes-AllKnown :
    (ns : List ℕ) (s : UnionFindSolver) → IsValid s → AllKnown (add_nodes ns s) ns
unfolding add_nodes
add_nodes-AllKnown [] s v = tt
add_nodes-AllKnown (n ∷ ns) s v =
    let a = add_node-Added s v n in
    (
      (add_nodes-Extends ns (add_node n s) a.valid).keeps n a.knows,
      add_nodes-AllKnown ns (add_node n s) a.valid,
    )

check_int-Holds :
    (e : Expr) (s : UnionFindSolver)
    → IsValid s
    → HasRefs e
    → Post (λ s'. Extends s s' × ExprHolds s s' e × IsInt s' (get_id e)) IsTypeError (check_int e s)
unfolding check_int
check_int-Holds e s v h = check_expr-Holds e s v h ⟫ λ s₁ (x, holds).
    set_type-Extends s₁ x.valid (get_id e) int ▷ λ s' (y, _, below). (
      Extends-trans x y,
      ExprHolds-Extends s s s₁ s' (Extends-refl s v) y e holds,
      Refines-int (type_of s' (get_id e)) below,
    )

check_assign-Holds :
    (l r : Expr) (s : UnionFindSolver)
    → IsValid s
    → HasRefs l
    → HasRefs r
    → Post
        (λ s'.
          Extends s s'
          × (ExprHolds s s' l × ExprHolds s s' r × (root_of s' (get_id l) ≡ root_of s' (get_id r))))
        IsTypeError
        (check_assign l r s)
unfolding check_assign
check_assign-Holds l r s v h k = check_expr-Holds l s v h ⟫ λ s₁ (x₁, holds_l).
    check_expr-Holds r s₁ x₁.valid k ⟫ λ s₂ (x₂, holds_r).
    get_type-Extends s₂ x₂.valid (get_id l) ⟫ λ p (_, x₃, _).
    get_type-Extends p.1 x₃.valid (get_id r) ⟫ λ q (_, x₄, _).
    unify_nodes-Extends q.1 x₄.valid (get_id l) (get_id r) ▷ λ s' (x₅, joined).
    let after_r = Extends-trans x₃ (Extends-trans x₄ x₅) in
    let after_l = Extends-trans x₂ after_r in
    (
      Extends-trans x₁ after_l,
      (
        ExprHolds-Extends s s s₁ s' (Extends-refl s v) after_l l holds_l,
        ExprHolds-Extends s s₁ s₂ s' x₁ after_r r holds_r,
        joined,
      ),
    )

mutual
  unfolding check_stmt StmtHolds StmtHasRefs

  stmt_sound :
      (b : Stmt) (s : UnionFindSolver)
      → IsValid s
      → StmtHasRefs b
      → Post (λ s'. Extends s s' × StmtHolds s s' b) IsTypeError (check_stmt b s)
  stmt_sound (decl_stmt d) s v h =
      returns (add_nodes-Extends d.var_ids s v, add_nodes-AllKnown d.var_ids s v)
  stmt_sound (block_stmt i bs) s v h = stmts_sound bs s v h
  stmt_sound (assign_stmt i l r) s v h = check_assign-Holds l r s v h.0 h.1
  stmt_sound (while_stmt i c b) s v h = check_int-Holds c s v h.0 ⟫ λ s₁ (x, holds, is_int).
      stmt_sound b s₁ x.valid h.1 ▷ λ s' (y, body). (
        Extends-trans x y,
        (
          ExprHolds-Extends s s s₁ s' (Extends-refl s v) y c holds,
          IsInt-Extends s₁ s' y (get_id c) is_int,
          StmtHolds-Extends s s₁ s' s' x (Extends-refl s' y.valid) b body,
        ),
      )
  stmt_sound (if_stmt i c b e) s v h = check_int-Holds c s v h.0 ⟫ λ s₁ (x, holds, is_int).
      stmt_sound b s₁ x.valid h.1 ⟫ λ s₂ (y, body). else_sound e s₂ y.valid h.2 ▷ λ s' (z, other).
      let after = Extends-trans y z in
      (
        Extends-trans x after,
        (
          ExprHolds-Extends s s s₁ s' (Extends-refl s v) after c holds,
          IsInt-Extends s₁ s' after (get_id c) is_int,
          StmtHolds-Extends s s₁ s₂ s' x z b body,
          ElseHolds-Extends s s₂ s' s' (Extends-trans x y) (Extends-refl s' z.valid) e other,
        ),
      )
  stmt_sound (output_stmt i e) s v h =
      check_int-Holds e s v h ▷ λ s' (x, holds, is_int). (x, (holds, is_int))
  stmt_sound (error_stmt i e) s v h = returns (Extends-refl s v, tt)
  stmt_sound (return_stmt i e) s v h = check_expr-Holds e s v h

  else_sound :
      (e : ElseStmt) (s : UnionFindSolver)
      → IsValid s
      → ElseHasRefs e
      → Post (λ s'. Extends s s' × ElseHolds s s' e) IsTypeError (check_else e s)
  else_sound no_else s v h = returns (Extends-refl s v, tt)
  else_sound (else_stmt b) s v h = stmt_sound b s v h

  stmts_sound :
      (bs : Stmts) (s : UnionFindSolver)
      → IsValid s
      → StmtsHaveRefs bs
      → Post (λ s'. Extends s s' × StmtsHold s s' bs) IsTypeError (check_stmts bs s)
  stmts_sound no_stmts s v h = returns (Extends-refl s v, tt)
  stmts_sound (stmts b bs) s v h = stmt_sound b s v h.0 ⟫ λ s₁ (x, first).
      stmts_sound bs s₁ x.valid h.1 ▷ λ s' (y, later). (
        Extends-trans x y,
        (
          StmtHolds-Extends s s s₁ s' (Extends-refl s v) y b first,
          StmtsHold-Extends s s₁ s' s' x (Extends-refl s' y.valid) bs later,
        ),
      )

-- On a valid solver the analysis of a statement ends, if `genId` has set the references in it that the
-- analysis reads. It throws nothing but a TIPTypeError, or returns a valid solver that extends the
-- given one and in which all constraints hold that the statement adds: those of its expressions, as
-- for an expression on its own; the sides of an assignment are in one class, conditions and outputs
-- are ints, and the variables of a declaration are known. An error statement adds none.
pub check_stmt-Holds :
    (b : Stmt) (s : UnionFindSolver)
    → IsValid s
    → StmtHasRefs b
    → Post (λ s'. Extends s s' × StmtHolds s s' b) IsTypeError (check_stmt b s)
check_stmt-Holds b s v h = stmt_sound b s v h
