-- ===== src/Ast/Numbering.antt =====
-- What a run of `genId` leaves behind: the ids it has given out, and the globals.
use tipc.Prelude.{ℕ, suc, ◌≡◌, refl, ◌∙◌, List, [], ◌∷◌, ◌++◌, All, length}
use tipc.Tree.{field_id}
use tipc.Ast.{GenState}
use tipc.Tree.{
  Expr, Exprs, number_expr, variable_expr, binary_expr, fun_app_expr, input_expr, alloc_expr,
  ref_expr, de_ref_expr, null_expr, field_expr, record_expr, access_expr, no_exprs, exprs, DeclStmt,
  Stmt, ElseStmt, Stmts, decl_stmt, block_stmt, assign_stmt, while_stmt, if_stmt, output_stmt,
  error_stmt, return_stmt, no_else, else_stmt, no_stmts, stmts, TipFunction,
}

-- The numbers from `first` on, one after the other, up to the one before `next`.
abbrev pub Consecutive : ℕ → List ℕ → ℕ → Type 0
Consecutive first [] next = first ≡ next
Consecutive first (n ∷ ns) next = (n ≡ first) × Consecutive (suc first) ns next

Consecutive-append :
    (a b c : ℕ) (ms ns : List ℕ)
    → Consecutive a ms b
    → Consecutive b ns c
    → Consecutive a (ms ++ ns) c
Consecutive-append a b c [] ns h k = rw h k
Consecutive-append a b c (m ∷ ms) ns (e, h) k = (e, Consecutive-append (suc a) b c ms ns h k)

-- A run that has given out the numbers `ns` in this order, and has left the functions alone.
pub record Ran (s : GenState) (ns : List ℕ) (s' : GenState) : Type 0 where
  pub gives : Consecutive s.ast_counter ns s'.ast_counter
  pub same_functions : s'.fun2id ≡ s.fun2id

pub Ran-refl : {s : GenState} → Ran s [] s
Ran-refl = record { gives = refl; same_functions = refl }

module _ {s s₁ s' : GenState} where
  pub Ran-append : {ms ns : List ℕ} → Ran s ms s₁ → Ran s₁ ns s' → Ran s (ms ++ ns) s'
  Ran-append {ms} {ns} h k = record {
    gives = Consecutive-append s.ast_counter s₁.ast_counter s'.ast_counter ms ns h.gives k.gives;
    same_functions = k.same_functions ∙ h.same_functions;
  }

-- The ids of the nodes in the order in which `genId` visits them, without those of variables,
-- which are the ids of other nodes. What is under a record, a field or an access is not visited.
unfoldable mutual
  pub expr_ids : Expr → List ℕ
  expr_ids (number_expr i v) = i ∷ []
  expr_ids (variable_expr i x) = []
  expr_ids (binary_expr i op l r) = i ∷ (expr_ids l ++ expr_ids r)
  expr_ids (fun_app_expr i f es) = i ∷ (exprs_ids es ++ expr_ids f)
  expr_ids (input_expr i) = i ∷ []
  expr_ids (alloc_expr i e) = i ∷ expr_ids e
  expr_ids (ref_expr i x r) = i ∷ []
  expr_ids (de_ref_expr i e) = i ∷ expr_ids e
  expr_ids (null_expr i) = i ∷ []
  expr_ids (field_expr f) = field_id f ∷ []
  expr_ids (record_expr i fs) = i ∷ []
  expr_ids (access_expr i e f) = i ∷ []

  pub exprs_ids : Exprs → List ℕ
  exprs_ids no_exprs = []
  exprs_ids (exprs e es) = expr_ids e ++ exprs_ids es

abbrev pub decl_ids : DeclStmt → List ℕ
decl_ids d = d.id ∷ d.var_ids

unfoldable mutual
  unfolding expr_ids

  pub stmt_ids : Stmt → List ℕ
  stmt_ids (decl_stmt d) = decl_ids d
  stmt_ids (block_stmt i bs) = i ∷ stmts_ids bs
  stmt_ids (assign_stmt i l r) = i ∷ (expr_ids l ++ expr_ids r)
  stmt_ids (while_stmt i c b) = i ∷ (expr_ids c ++ stmt_ids b)
  stmt_ids (if_stmt i c b e) = i ∷ (expr_ids c ++ (stmt_ids b ++ else_ids e))
  stmt_ids (output_stmt i e) = i ∷ expr_ids e
  stmt_ids (error_stmt i e) = i ∷ expr_ids e
  stmt_ids (return_stmt i e) = i ∷ expr_ids e

  pub else_ids : ElseStmt → List ℕ
  else_ids no_else = []
  else_ids (else_stmt b) = stmt_ids b

  pub stmts_ids : Stmts → List ℕ
  stmts_ids no_stmts = []
  stmts_ids (stmts b bs) = stmt_ids b ++ stmts_ids bs

abbrev pub decls_ids : List DeclStmt → List ℕ
decls_ids [] = []
decls_ids (d ∷ ds) = decl_ids d ++ decls_ids ds

-- The ids that are given out for a function, but for its own, which the program has given out.
abbrev pub function_ids : TipFunction → List ℕ
function_ids f = f.formal_ids ++ (decls_ids f.decls ++ stmts_ids f.body)

abbrev pub functions_ids : List TipFunction → List ℕ
functions_ids [] = []
functions_ids (f ∷ fs) = function_ids f ++ functions_ids fs

-- As many ids as names in each declaration.
abbrev pub OneIdEach : List DeclStmt → Type 0
OneIdEach ds = All (λ d. length d.var_ids ≡ length d.vars) ds
