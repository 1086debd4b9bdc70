-- ===== src/Typecheck/FunctionSound.antt =====
-- The analysis of functions and programs (src/TIPtypecheck.cpp) against their constraints.
use tipc.Prelude.{◌≡◌, refl, ◌⊎◌, inl, inr, List, [], ◌∷◌, All}
use tipc.Prelude.Result.{Error, exception, Result, Post, returns, throws, ◌⟫◌, ◌▷◌}
use tipc.Tree.{DeclStmt, Stmts, no_stmts, stmts, TipFunction, Program}
use tipc.Unify.Laws.{IsTypeError}
use tipc.Solver.{UnionFindSolver}
use tipc.Solver.View.{IsValid}
use tipc.Solver.Extends.{Extends, Extends-refl, Extends-trans}
use tipc.Typecheck.Functions.{
  add_nodes, rethrow, check_decls, check_body, check_function, check_functions, check_passes,
  check_program, empty_solver,
}
use tipc.Typecheck.Typing.{AllKnown-Extends}
use tipc.Typecheck.Signature.{return_type-Found, check_signature-Holds}
use tipc.Typecheck.StmtTyping.{
  StmtsHold, DeclsHold, StmtsHaveRefs, FunctionHolds, IsReady, StmtHolds-Extends, StmtsHold-Extends,
  DeclsHold-Extends, FunctionHolds-Extends, All-FunctionHolds-Extends,
}
use tipc.Typecheck.StmtSound.{add_nodes-Extends, add_nodes-AllKnown, check_stmt-Holds}

-- What a function's analysis throws: a TIPTypeError, or what is left of one after the handler.
abbrev pub IsThrown : Error → Type 0
IsThrown e = IsTypeError e ⊎ (e ≡ exception)

pub Post-IsThrown :
    {A : Type 0} {P : A → Type 0} {r : Result A} → Post P IsTypeError r → Post P IsThrown r
Post-IsThrown (returns h) = returns h
Post-IsThrown (throws h) = throws (inl h)

rethrow-Post :
    {A : Type 0} {P : A → Type 0} {r : Result A}
    → Post P IsTypeError r
    → Post P IsThrown (rethrow r)
rethrow-Post (returns h) = returns h
rethrow-Post (throws (msg, e)) = rw e (throws (inr refl))

check_decls-Holds :
    (ds : List DeclStmt) (s : UnionFindSolver)
    → IsValid s
    → Post (λ s'. Extends s s' × DeclsHold s' ds) IsThrown (check_decls ds s)
unfolding check_decls
check_decls-Holds [] s v = returns (Extends-refl s v, tt)
check_decls-Holds (d ∷ ds) s v =
    let s₁ = add_nodes d.var_ids s in
    let x = add_nodes-Extends d.var_ids s v in
    check_decls-Holds ds s₁ x.valid ▷ λ s' (y, rest). (
      Extends-trans x y,
      (AllKnown-Extends s₁ s' y d.var_ids (add_nodes-AllKnown d.var_ids s v), rest),
    )

check_body-Holds :
    (bs : Stmts) (s : UnionFindSolver)
    → IsValid s
    → StmtsHaveRefs bs
    → Post (λ s'. Extends s s' × StmtsHold s s' bs) IsThrown (check_body bs s)
unfolding check_body StmtsHold StmtsHaveRefs
check_body-Holds no_stmts s v h = returns (Extends-refl s v, tt)
check_body-Holds (stmts b bs) s v h = rethrow-Post (check_stmt-Holds b s v h.0) ⟫ λ s₁ (x, first).
    check_body-Holds bs s₁ x.valid h.1 ▷ λ s' (y, later). (
      Extends-trans x y,
      (
        StmtHolds-Extends s s s₁ s' (Extends-refl s v) y b first,
        StmtsHold-Extends s s₁ s' s' x (Extends-refl s' y.valid) bs later,
      ),
    )

-- On a valid solver the analysis of a function whose references are numbered, and of whose
-- statements only return statements print with "return" in front, ends; it throws a TIPTypeError
-- or a bare exception, or returns a valid solver that extends the given one and in which formals and
-- locals are known, the body's constraints hold, and so does the signature: a function type refines
-- what was known of the function, its parameters what was known of the formals after the body, and
-- its result what was known of the value of the first return statement; the function refines that
-- type, and the formals its parameters.
pub check_function-Holds :
    (f : TipFunction) (s : UnionFindSolver)
    → IsValid s
    → IsReady f
    → Post (λ s'. Extends s s' × FunctionHolds s s' f) IsThrown (check_function f s)
unfolding check_function
check_function-Holds f s v ready =
    let s₀ = add_nodes f.formal_ids s in
    let x₀ = add_nodes-Extends f.formal_ids s v in
    check_decls-Holds f.decls s₀ x₀.valid ⟫ λ s₁ (x₁, locals).
    check_body-Holds f.body s₁ x₁.valid ready.refs ⟫ λ s₂ (x₂, body).
    Post-IsThrown (return_type-Found f.body s₂ x₂.valid ready.returns_last) ⟫ λ r (x₃, found).
    Post-IsThrown (check_signature-Holds f r.0 s₂ r.1 x₃ found) ▷ λ s' (x₄, signature).
    let before_body = Extends-trans x₀ x₁ in
    let after_body = Extends-trans x₃ x₄ in
    let after_decls = Extends-trans x₂ after_body in
    let after_formals = Extends-trans x₁ after_decls in
    let kept = StmtsHold-Extends s s₁ s₂ in
    (
      Extends-trans x₀ after_formals,
      record {
        formals =
            AllKnown-Extends s₀ s' after_formals f.formal_ids (add_nodes-AllKnown f.formal_ids s v);
        locals = DeclsHold-Extends s₁ s' after_decls f.decls locals;
        analysed = s₂;
        after_body = Extends-trans before_body x₂;
        before_end = after_body;
        body = kept s₂ before_body (Extends-refl s₂ x₂.valid) f.body body;
        body_kept = kept s' before_body after_body f.body body;
        signature = signature;
      },
    )

check_functions-Holds :
    (fs : List TipFunction) (s : UnionFindSolver)
    → IsValid s
    → All IsReady fs
    → Post (λ s'. Extends s s' × All (FunctionHolds s s') fs) IsThrown (check_functions fs s)
unfolding check_functions
check_functions-Holds [] s v h = returns (Extends-refl s v, tt)
check_functions-Holds (f ∷ fs) s v h = check_function-Holds f s v h.0 ⟫ λ s₁ (x, first).
    check_functions-Holds fs s₁ x.valid h.1 ▷ λ s' (y, later). (
      Extends-trans x y,
      (
        FunctionHolds-Extends s s s₁ s' (Extends-refl s v) y f first,
        All-FunctionHolds-Extends s s₁ s' s' x (Extends-refl s' y.valid) fs later,
      ),
    )

empty-IsValid : IsValid empty_solver
empty-IsValid = record { rooted = λ n p l. cc; typed = λ n p l. cc; known = λ n t l. cc }

-- The solvers that the three passes leave: in each of them the constraints hold that every function
-- adds to the one before.
pub record PassesHold (fs : List TipFunction) (s : UnionFindSolver) : Type 0 where
  pub first : UnionFindSolver
  pub second : UnionFindSolver
  pub second_pass : Extends first second
  pub third_pass : Extends second s
  pub holds_first : All (FunctionHolds empty_solver first) fs
  pub holds_second : All (FunctionHolds first second) fs
  pub holds : All (FunctionHolds second s) fs

-- For a program whose references are numbered and of whose body statements only return statements
-- print with "return" in front, the three passes end; they throw a TIPTypeError or a bare exception,
-- or return a valid solver. In the solver after each pass the constraints hold at once that every
-- function of the program adds to the solver before that pass: a call, for one, is held to the type
-- that its callee had before the pass.
pub check_program-Holds :
    (p : Program)
    → All IsReady p.functions
    → Post (λ s'. IsValid s' × PassesHold p.functions s') IsThrown (check_program p)
unfolding check_program check_passes
check_program-Holds p h =
    check_functions-Holds p.functions empty_solver empty-IsValid h ⟫ λ s₁ (x, holds₁).
    check_functions-Holds p.functions s₁ x.valid h ⟫ λ s₂ (y, holds₂).
    check_functions-Holds p.functions s₂ y.valid h ⟫ λ s' (z, holds₃). returns (
      z.valid,
      record {
        first = s₁;
        second = s₂;
        second_pass = y;
        third_pass = z;
        holds_first = holds₁;
        holds_second = holds₂;
        holds = holds₃;
      },
    )
