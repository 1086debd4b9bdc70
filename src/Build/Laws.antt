-- ===== src/Build/Laws.antt =====
-- The visit methods for statements and functions, and `build`, against the reference.
use tipc.Prelude.{◌≡◌, refl, ap, ap₂, some, List, [], ◌∷◌}
use tipc.Prelude.Result.{Error, Result, ok, Post, returns, throws, ◌⟫◌}
use tipc.Ast.Erase.{
  erase_expr, erase_stmt, erase_else, erase_stmts, erase_decls, erase_function, erase_functions,
  erase_program,
}
use tipc.Build.{
  Visited, visit_assignable, visit_statement, visit_else, visit_statements, visit_declaration,
  visit_declarations, visit_return, visit_function, visit_functions, push_back, build,
}
use tipc.Build.Reference.{
  declaration_of, target_of, statement_of, else_of, statements_of, declarations_of, function_of,
  functions_of, expr_of,
}
use tipc.Build.ExprLaws.{
  IsOutOfRange, at_left, at_right, Left, Gives, visit_expr-lem, visit_atom-lem,
}
use tipc.Build.Large.{
  ExprHasLarge, TargetHasLarge, StatementHasLarge, ElseHasLarge, StatementsHaveLarge,
  FunctionHasLarge, HasLarge,
}
use tipc.ParseTree.{
  ExprContext, AssignableContext, id_target, de_ref_target, StatementContext, block, assignment,
  while_loop, branch, output, error, ElseContext, no_branch, else_branch, StatementContexts,
  no_statements, statements, Identifier, FunctionContext,
}
use tipc.Tree.{Expr, Stmt, Stmts, return_stmt, no_stmts, stmts, TipFunction}

abbrev LeftStmt : Result Stmt → Visited → Type 0
LeftStmt r s = (b : Stmt) × (r ≡ ok b) × (s.visited_stmt ≡ some b) × (erase_stmt b ≡ b)

visit_assignable-lem :
    (t : AssignableContext) (s : Visited)
    → Post (Left (target_of t)) (IsOutOfRange (TargetHasLarge t)) (visit_assignable t s)
unfolding visit_assignable erase_expr
visit_assignable-lem (id_target x) s = returns (_, refl, refl, refl)
visit_assignable-lem (de_ref_target a) s =
    visit_atom-lem a s ⟫ λ s₁ (e, ee, ve, fe). rw ve (returns (_, rw ee refl, refl, rw fe refl))

mutual
  unfolding visit_statement statement_of erase_stmt StatementHasLarge

  visits_statement :
      (c : StatementContext) (s : Visited)
      → Post (LeftStmt (statement_of c)) (IsOutOfRange (StatementHasLarge c)) (visit_statement c s)
  visits_statement (block cs) s =
      visits_statements cs s ⟫ λ q (e, f). returns (_, rw e refl, refl, rw f refl)
  visits_statement (assignment t c) s = at_left (visit_assignable-lem t s) ⟫ λ s₁ (l, el, vl, fl).
      rw vl (
        at_right (visit_expr-lem c _) ⟫ λ s₃ (r, er, vr, fr).
        rw vr (returns (_, rw (el, er) refl, refl, rw (fl, fr) refl)))
  visits_statement (while_loop c d) s = at_left (visit_expr-lem c s) ⟫ λ s₁ (e, ee, ve, fe). rw ve (
      at_right (visits_statement d _) ⟫ λ s₃ (b, eb, vb, fb).
      rw vb (returns (_, rw (ee, eb) refl, refl, rw (fe, fb) refl)))
  visits_statement (branch c d o) s = at_left (visit_expr-lem c s) ⟫ λ s₁ (e, ee, ve, fe). rw ve (
      at_right (at_left (visits_statement d _)) ⟫ λ s₃ (b, eb, vb, fb). rw vb (
        at_right (at_right (visits_else o _)) ⟫ λ q (eo, fo).
        returns (_, rw (ee, eb, eo) refl, refl, rw (fe, fb, fo) refl)))
  visits_statement (output c) s =
      visit_expr-lem c s ⟫ λ s₁ (e, ee, ve, fe). rw ve (returns (_, rw ee refl, refl, rw fe refl))
  visits_statement (error c) s =
      visit_expr-lem c s ⟫ λ s₁ (e, ee, ve, fe). rw ve (returns (_, rw ee refl, refl, rw fe refl))

  visits_else :
      (c : ElseContext) (s : Visited)
      → Post (Gives erase_else (else_of c)) (IsOutOfRange (ElseHasLarge c)) (visit_else c s)
  visits_else no_branch s = returns (refl, refl)
  visits_else (else_branch d) s =
      visits_statement d s ⟫ λ s₁ (b, eb, vb, fb). rw vb (returns (rw eb refl, rw fb refl))

  visits_statements :
      (cs : StatementContexts) (s : Visited)
      → Post
          (Gives erase_stmts (statements_of cs))
          (IsOutOfRange (StatementsHaveLarge cs))
          (visit_statements cs s)
  visits_statements no_statements s = returns (refl, refl)
  visits_statements (statements c cs) s = at_left (visits_statement c s) ⟫ λ s₁ (b, eb, vb, fb).
      rw vb (
        at_right (visits_statements cs _) ⟫ λ q (es, fs).
        returns (rw (eb, es) refl, rw (fb, fs) refl))

visit_return-lem :
    (c : ExprContext) (s : Visited)
    → Post
        (λ s'.
          (e : Expr) × (expr_of c ≡ ok e)
          × (s'.visited_stmt ≡ some (return_stmt 0 e))
          × (erase_expr e ≡ e))
        (IsOutOfRange (ExprHasLarge c))
        (visit_return c s)
unfolding visit_return
visit_return-lem c s = visit_expr-lem c s ⟫ λ s₁ (e, ee, ve, fe). rw ve (returns (e, ee, refl, fe))

visit_declarations-lem :
    (ds : List (List Identifier)) (s : Visited)
    → Post
        (λ q. (q.0 ≡ declarations_of ds) × (erase_decls q.0 ≡ q.0))
        (λ _. ⊥)
        (visit_declarations ds s)
unfolding visit_declarations visit_declaration
visit_declarations-lem [] s = returns (refl, refl)
visit_declarations-lem (d ∷ ds) s = visit_declarations-lem ds _ ⟫ λ q (e, f).
    returns (ap (λ r. declaration_of d ∷ r) e, ap (λ r. declaration_of d ∷ r) f)

erase-push_back :
    (bs : Stmts) (b : Stmt)
    → erase_stmts (push_back bs b) ≡ push_back (erase_stmts bs) (erase_stmt b)
unfolding erase_stmts
erase-push_back no_stmts b = refl
erase-push_back (stmts a bs) b = ap (stmts (erase_stmt a)) (erase-push_back bs b)

never_throws :
    {Val : Type 0} {Good : Val → Type 0} {Bad : Error → Type 0} {r : Result Val}
    → Post Good (λ _. ⊥) r
    → Post Good Bad r
never_throws (returns h) = returns h
never_throws (throws h) = absurd h

LeftFunction : Result TipFunction → Visited → Type 0
LeftFunction r s =
    (f : TipFunction) × (r ≡ ok f) × (s.visited_function ≡ some f) × (erase_function f ≡ f)

visit_function-lem :
    (c : FunctionContext) (s : Visited)
    → Post (LeftFunction (function_of c)) (IsOutOfRange (FunctionHasLarge c)) (visit_function c s)
unfolding visit_function function_of erase_stmt LeftFunction
visit_function-lem c s = never_throws (visit_declarations-lem c.declarations s) ⟫ λ q (ed, fd).
    at_left (visits_statements c.body q.1) ⟫ λ p (eb, fb).
    at_right (visit_return-lem c.return_stmt p.1) ⟫ λ s₃ (e, ee, ve, fe). rw ve (
      returns (
        _,
        rw (eb, ee, ed) refl,
        refl,
        rw (erase-push_back p.0 (return_stmt 0 e), fb, fe, fd) refl,
      ))

visit_functions-lem :
    (cs : List FunctionContext) (s : Visited)
    → Post
        (Gives erase_functions (functions_of cs))
        (IsOutOfRange (HasLarge cs))
        (visit_functions cs s)
unfolding visit_functions functions_of LeftFunction
visit_functions-lem [] s = returns (refl, refl)
visit_functions-lem (c ∷ cs) s = at_left (visit_function-lem c s) ⟫ λ s₁ (f, ef, vf, gf). rw vf (
    at_right (visit_functions-lem cs _) ⟫ λ q (es, gs).
    returns (rw (ef, es) refl, ap₂ (λ g r. g ∷ r) gf gs))

-- From whatever the globals hold, the visitor throws only the exception of std::stoi, and that only
-- if a number of the parse is beyond an `int`; it never uses a global that has been moved from, and builds the tree of the parse, in which no node has an
-- id.
pub build-lem :
    (cs : List FunctionContext) (s : Visited)
    → Post
        (λ p. (functions_of cs ≡ ok p.functions) × (erase_program p ≡ p))
        (IsOutOfRange (HasLarge cs))
        (build cs s)
unfolding build
build-lem cs s = visit_functions-lem cs s ⟫ λ q (e, f).
    returns (e, ap (λ fs. record { id = 0; functions = fs }) f)
