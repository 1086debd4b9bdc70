-- ===== src/Typecheck/StmtTyping.antt =====
-- The constraints of statements and functions as predicates on a solver.
use tipc.Prelude.{◌≡◌, List, [], ◌∷◌, All}
use tipc.Tree.{
  get_id, DeclStmt, Stmt, ElseStmt, Stmts, decl_stmt, block_stmt, assign_stmt, while_stmt, if_stmt,
  output_stmt, error_stmt, return_stmt, no_else, else_stmt, no_stmts, stmts, TipFunction,
}
use tipc.Prelude.{true, ℕ, Option, none, some}
use tipc.Types.{TipType, TipTypes, fun}
use tipc.Unify.Order.{Refines, RefinesAll, Refines-trans, RefinesAll-trans}
use tipc.Solver.{UnionFindSolver}
use tipc.Solver.View.{root_of, type_of}
use tipc.Solver.Extends.{Extends, Extends-refl, Extends-trans}
use tipc.Typecheck.Functions.{prints_return}
use tipc.Typecheck.Typing.{
  IsInt, ExprHolds, types_of, types_of-Extends, AllKnown, IsInt-Extends, ExprHolds-Extends,
  AllKnown-Extends,
}
use tipc.Typecheck.Sound.{HasRefs}

-- The constraints that a statement adds to a solver `s₀`, in a solver `s` that came of it. The
-- argument of an `error` statement is not looked into.
unfoldable mutual
  pub StmtHolds : UnionFindSolver → UnionFindSolver → Stmt → Type 0
  StmtHolds s₀ s (decl_stmt d) = AllKnown s d.var_ids
  StmtHolds s₀ s (block_stmt i bs) = StmtsHold s₀ s bs
  StmtHolds s₀ s (assign_stmt i l r) =
      ExprHolds s₀ s l × ExprHolds s₀ s r × (root_of s (get_id l) ≡ root_of s (get_id r))
  StmtHolds s₀ s (while_stmt i c b) = ExprHolds s₀ s c × IsInt s (get_id c) × StmtHolds s₀ s b
  StmtHolds s₀ s (if_stmt i c b e) =
      ExprHolds s₀ s c × IsInt s (get_id c) × StmtHolds s₀ s b × ElseHolds s₀ s e
  StmtHolds s₀ s (output_stmt i e) = ExprHolds s₀ s e × IsInt s (get_id e)
  StmtHolds s₀ s (error_stmt i e) = Unit
  StmtHolds s₀ s (return_stmt i e) = ExprHolds s₀ s e

  pub ElseHolds : UnionFindSolver → UnionFindSolver → ElseStmt → Type 0
  ElseHolds s₀ s no_else = Unit
  ElseHolds s₀ s (else_stmt b) = StmtHolds s₀ s b

  pub StmtsHold : UnionFindSolver → UnionFindSolver → Stmts → Type 0
  StmtsHold s₀ s no_stmts = Unit
  StmtsHold s₀ s (stmts b bs) = StmtHolds s₀ s b × StmtsHold s₀ s bs

-- `HasRefs` in every expression that the analysis reaches.
unfoldable mutual
  pub StmtHasRefs : Stmt → Type 0
  StmtHasRefs (decl_stmt d) = Unit
  StmtHasRefs (block_stmt i bs) = StmtsHaveRefs bs
  StmtHasRefs (assign_stmt i l r) = HasRefs l × HasRefs r
  StmtHasRefs (while_stmt i c b) = HasRefs c × StmtHasRefs b
  StmtHasRefs (if_stmt i c b e) = HasRefs c × StmtHasRefs b × ElseHasRefs e
  StmtHasRefs (output_stmt i e) = HasRefs e
  StmtHasRefs (error_stmt i e) = Unit
  StmtHasRefs (return_stmt i e) = HasRefs e

  pub ElseHasRefs : ElseStmt → Type 0
  ElseHasRefs no_else = Unit
  ElseHasRefs (else_stmt b) = StmtHasRefs b

  pub StmtsHaveRefs : Stmts → Type 0
  StmtsHaveRefs no_stmts = Unit
  StmtsHaveRefs (stmts b bs) = StmtHasRefs b × StmtsHaveRefs bs

-- No statement of a body but a return statement prints with "return" in front.
abbrev pub IsReturn : Stmt → Type 0
IsReturn (return_stmt i e) = Unit
IsReturn _ = ⊥

abbrev pub HonestReturns : Stmts → Type 0
HonestReturns no_stmts = Unit
HonestReturns (stmts b bs) = (prints_return b ≡ true → IsReturn b) × HonestReturns bs

abbrev pub DeclsHold : UnionFindSolver → List DeclStmt → Type 0
DeclsHold s [] = Unit
DeclsHold s (d ∷ ds) = AllKnown s d.var_ids × DeclsHold s ds

-- The result of the first return statement.
abbrev pub returned_id : Stmts → Option ℕ
returned_id no_stmts = none
returned_id (stmts (return_stmt i e) bs) = some (get_id e)
returned_id (stmts _ bs) = returned_id bs

abbrev pub ReturnHolds : UnionFindSolver → Option ℕ → TipType → Type 0
ReturnHolds s none t = ⊥
ReturnHolds s (some n) t = Refines (type_of s n) t

-- What the signature adds to a solver `m`, in a solver `s` that came of it: a function type refines
-- what was known of the function, its parameters what was known of the formals, and its result what
-- was known of the value returned; the function refines that type, and the formals its parameters.
abbrev pub SignatureHolds : UnionFindSolver → UnionFindSolver → TipFunction → Type 0
SignatureHolds m s f =
    (ps : TipTypes) × (t : TipType) × Refines (type_of m f.id) (fun ps t)
    × RefinesAll (types_of m f.formal_ids) ps
    × ReturnHolds m (returned_id f.body) t
    × Refines (fun ps t) (type_of s f.id)
    × RefinesAll ps (types_of s f.formal_ids)

-- The constraints that a function adds to a solver `s₀`, in a solver `s` that came of it by way of
-- `analysed`, the solver once the body has been analysed: formals and locals are known, the body's
-- constraints hold, and so does the signature.
pub record FunctionHolds (s₀ s : UnionFindSolver) (f : TipFunction) : Type 0 where
  pub formals : AllKnown s f.formal_ids
  pub locals : DeclsHold s f.decls
  pub analysed : UnionFindSolver
  pub after_body : Extends s₀ analysed
  pub before_end : Extends analysed s
  pub body : StmtsHold s₀ analysed f.body
  pub body_kept : StmtsHold s₀ s f.body
  pub signature : SignatureHolds analysed s f

-- What the analysis needs of a function.
pub record IsReady (f : TipFunction) : Type 0 where
  pub refs : StmtsHaveRefs f.body
  pub returns_last : HonestReturns f.body

module _ (s₀ s₁ s s' : UnionFindSolver) (y : Extends s₀ s₁) (x : Extends s s') where
  mutual
    unfolding StmtHolds

    stmt_extends : (b : Stmt) → StmtHolds s₁ s b → StmtHolds s₀ s' b
    stmt_extends (decl_stmt d) h = AllKnown-Extends s s' x d.var_ids h
    stmt_extends (block_stmt i bs) h = stmts_extend bs h
    stmt_extends (assign_stmt i l r) (a, b, c) = (
      ExprHolds-Extends s₀ s₁ s s' y x l a,
      ExprHolds-Extends s₀ s₁ s s' y x r b,
      x.joins (get_id l) (get_id r) c,
    )
    stmt_extends (while_stmt i c b) (h, k, l) =
        (ExprHolds-Extends s₀ s₁ s s' y x c h, IsInt-Extends s s' x (get_id c) k, stmt_extends b l)
    stmt_extends (if_stmt i c b e) (h, k, l, m) = (
      ExprHolds-Extends s₀ s₁ s s' y x c h,
      IsInt-Extends s s' x (get_id c) k,
      stmt_extends b l,
      else_extends e m,
    )
    stmt_extends (output_stmt i e) (h, k) =
        (ExprHolds-Extends s₀ s₁ s s' y x e h, IsInt-Extends s s' x (get_id e) k)
    stmt_extends (error_stmt i e) h = tt
    stmt_extends (return_stmt i e) h = ExprHolds-Extends s₀ s₁ s s' y x e h

    else_extends : (e : ElseStmt) → ElseHolds s₁ s e → ElseHolds s₀ s' e
    else_extends no_else h = tt
    else_extends (else_stmt b) h = stmt_extends b h

    stmts_extend : (bs : Stmts) → StmtsHold s₁ s bs → StmtsHold s₀ s' bs
    stmts_extend no_stmts h = tt
    stmts_extend (stmts b bs) (h, k) = (stmt_extends b h, stmts_extend bs k)

  pub StmtHolds-Extends : (b : Stmt) → StmtHolds s₁ s b → StmtHolds s₀ s' b
  StmtHolds-Extends b h = stmt_extends b h

  pub ElseHolds-Extends : (e : ElseStmt) → ElseHolds s₁ s e → ElseHolds s₀ s' e
  ElseHolds-Extends e h = else_extends e h

  pub StmtsHold-Extends : (bs : Stmts) → StmtsHold s₁ s bs → StmtsHold s₀ s' bs
  StmtsHold-Extends bs h = stmts_extend bs h

module _ (s s' : UnionFindSolver) (x : Extends s s') where
  pub DeclsHold-Extends : (ds : List DeclStmt) → DeclsHold s ds → DeclsHold s' ds
  DeclsHold-Extends [] h = tt
  DeclsHold-Extends (d ∷ ds) (h, k) = (AllKnown-Extends s s' x d.var_ids h, DeclsHold-Extends ds k)

module _ (s₀ s₁ s s' : UnionFindSolver) (y : Extends s₀ s₁) (x : Extends s s') where
  pub FunctionHolds-Extends : (f : TipFunction) → FunctionHolds s₁ s f → FunctionHolds s₀ s' f
  FunctionHolds-Extends f h =
      let (ps, t, known, formals, returned, reached, params) = h.signature in
      record {
        formals = AllKnown-Extends s s' x f.formal_ids h.formals;
        locals = DeclsHold-Extends s s' x f.decls h.locals;
        analysed = h.analysed;
        after_body = Extends-trans y h.after_body;
        before_end = Extends-trans h.before_end x;
        body =
            StmtsHold-Extends s₀ s₁ h.analysed h.analysed y
              (Extends-refl h.analysed h.after_body.valid) f.body h.body;
        body_kept = StmtsHold-Extends s₀ s₁ s s' y x f.body h.body_kept;
        signature = (
          ps,
          t,
          known,
          formals,
          returned,
          Refines-trans (fun ps t) (type_of s f.id) (type_of s' f.id) reached (x.refines f.id),
          RefinesAll-trans ps (types_of s f.formal_ids) (types_of s' f.formal_ids) params
              (types_of-Extends s s' x f.formal_ids),
        );
      }

  pub All-FunctionHolds-Extends :
      (fs : List TipFunction) → All (FunctionHolds s₁ s) fs → All (FunctionHolds s₀ s') fs
  All-FunctionHolds-Extends [] h = tt
  All-FunctionHolds-Extends (f ∷ fs) (h, k) =
      (FunctionHolds-Extends f h, All-FunctionHolds-Extends fs k)
