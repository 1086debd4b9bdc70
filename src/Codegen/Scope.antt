-- ===== src/Codegen/Scope.antt =====
-- Tables that have the same names (`NamedValues` of src/TIPtreeGen.cpp), whatever the addresses are,
-- and the condition that there is code.
use tipc.Prelude.{
  ℕ, ◌≡◌, inl, inr, ◌≢◌, String, String_eq, Bool-cases, ◌==◌, Option, none, some, List, [], ◌∷◌,
}
use tipc.Prelude.Dict.{lookup, insert, lookup-insert_eq, lookup-insert_ne}
use tipc.Llvm.{Value, null_ptr}
use tipc.Tree.{
  Expr, Exprs, number_expr, variable_expr, binary_expr, fun_app_expr, input_expr, alloc_expr,
  ref_expr, de_ref_expr, null_expr, field_expr, record_expr, access_expr, no_exprs, exprs, Stmt,
  ElseStmt, Stmts, decl_stmt, block_stmt, assign_stmt, while_stmt, if_stmt, output_stmt, error_stmt,
  return_stmt, no_else, else_stmt, no_stmts, stmts,
}
use tipc.Codegen.Supported.{
  Names, Decls, IsVariable, IsNamed, Supported, AllSupported, TargetSupported, StmtSupported,
  ElseSupported, StmtsSupported,
}

-- Both absent, both null pointers, or both addresses.
abbrev pub Alike : Option (Option Value) → Option (Option Value) → Type 0
Alike none none = Unit
Alike (some none) (some none) = Unit
Alike (some (some v)) (some (some w)) = Unit
Alike _ _ = ⊥

abbrev pub Agree : Names → Names → Type 0
Agree vars vars' = (x : String) → Alike (lookup x vars) (lookup x vars')

Alike-IsVariable : (a b : Option (Option Value)) → Alike a b → IsVariable a → IsVariable b
Alike-IsVariable (some (some v)) (some (some w)) h p = tt
Alike-IsVariable (some (some v)) (some none) h p = h
Alike-IsVariable (some (some v)) none h p = h
Alike-IsVariable (some none) b h p = absurd p
Alike-IsVariable none b h p = absurd p

Alike-IsNamed :
    (a b : Option (Option Value)) (d : Option (ℕ × List String))
    → Alike a b
    → IsNamed a d
    → IsNamed b d
Alike-IsNamed none none d h p = p
Alike-IsNamed none (some b) d h p = absurd h
Alike-IsNamed (some a) none d h p = absurd (absent a h)
  where
    absent : (a : Option Value) → Alike (some a) none → ⊥
    absent none h = h
    absent (some v) h = h
Alike-IsNamed (some a) (some b) d h p = Alike-IsVariable (some a) (some b) h p

pub Agree-insert :
    (vars vars' : Names) (x : String) (v w : Value)
    → Agree vars vars'
    → Agree (insert x (some v) vars) (insert x (some w) vars')
Agree-insert vars vars' x v w agree y = elim (Bool-cases (x == y)) [
  | inl t ↦
      let e : x ≡ y = (String_eq.same_iff x y).0 t in
      rw (lookup-insert_eq y x (some v) vars e, lookup-insert_eq y x (some w) vars' e) tt
  | inr f ↦
      let ne : x ≢ y = λ e. cc (f, (String_eq.same_iff x y).1 e) in
      rw (lookup-insert_ne y x (some v) vars ne, lookup-insert_ne y x (some w) vars' ne) (agree y)
]

module _ (vars vars' : Names) (funs : Decls) (agree : Agree vars vars') where
  mutual
    unfolding Supported

    Supported-Agree : (e : Expr) → Supported vars funs e → Supported vars' funs e
    Supported-Agree (number_expr i v) h = tt
    Supported-Agree (variable_expr i x) h =
        Alike-IsNamed (lookup x vars) (lookup x vars') (lookup x funs) (agree x) h
    Supported-Agree (binary_expr i op l r) (hl, hr, ho) =
        (Supported-Agree l hl, Supported-Agree r hr, ho)
    Supported-Agree (fun_app_expr i f es) (hf, hs) =
        (Supported-Agree f hf, AllSupported-Agree es hs)
    Supported-Agree (input_expr i) h = tt
    Supported-Agree (alloc_expr i e) h = Supported-Agree e h
    Supported-Agree (ref_expr i x r) h =
        Alike-IsVariable (lookup x vars) (lookup x vars') (agree x) h
    Supported-Agree (de_ref_expr i e) h = Supported-Agree e h
    Supported-Agree (null_expr i) h = tt
    Supported-Agree (field_expr f) h = absurd h
    Supported-Agree (record_expr i fs) h = absurd h
    Supported-Agree (access_expr i e f) h = absurd h

    AllSupported-Agree : (es : Exprs) → AllSupported vars funs es → AllSupported vars' funs es
    AllSupported-Agree no_exprs h = tt
    AllSupported-Agree (exprs e es) (h, hs) = (Supported-Agree e h, AllSupported-Agree es hs)

  target-Agree : (l : Expr) → TargetSupported vars funs l → TargetSupported vars' funs l
  target-Agree (variable_expr i x) h = Alike-IsVariable (lookup x vars) (lookup x vars') (agree x) h
  target-Agree (de_ref_expr i e) h = Supported-Agree e h
  target-Agree (number_expr i v) h = absurd h
  target-Agree (binary_expr i op l r) h = absurd h
  target-Agree (fun_app_expr i f es) h = absurd h
  target-Agree (input_expr i) h = absurd h
  target-Agree (alloc_expr i e) h = absurd h
  target-Agree (ref_expr i x r) h = absurd h
  target-Agree (null_expr i) h = absurd h
  target-Agree (field_expr f) h = absurd h
  target-Agree (record_expr i fs) h = absurd h
  target-Agree (access_expr i e f) h = absurd h

  mutual
    unfolding StmtSupported

    StmtSupported-Agree : (b : Stmt) → StmtSupported vars funs b → StmtSupported vars' funs b
    StmtSupported-Agree (decl_stmt d) h = tt
    StmtSupported-Agree (block_stmt i bs) h = StmtsSupported-Agree bs h
    StmtSupported-Agree (assign_stmt i l r) (hl, hr) = (target-Agree l hl, Supported-Agree r hr)
    StmtSupported-Agree (while_stmt i c b) (hc, hb) =
        (Supported-Agree c hc, StmtSupported-Agree b hb)
    StmtSupported-Agree (if_stmt i c b e) (hc, hb, he) =
        (Supported-Agree c hc, StmtSupported-Agree b hb, ElseSupported-Agree e he)
    StmtSupported-Agree (output_stmt i e) h = Supported-Agree e h
    StmtSupported-Agree (error_stmt i e) h = Supported-Agree e h
    StmtSupported-Agree (return_stmt i e) h = Supported-Agree e h

    ElseSupported-Agree : (e : ElseStmt) → ElseSupported vars funs e → ElseSupported vars' funs e
    ElseSupported-Agree no_else h = tt
    ElseSupported-Agree (else_stmt b) h = StmtSupported-Agree b h

    pub StmtsSupported-Agree :
        (bs : Stmts) → StmtsSupported vars funs bs → StmtsSupported vars' funs bs
    StmtsSupported-Agree no_stmts h = tt
    StmtsSupported-Agree (stmts b bs) (h, hs) =
        (StmtSupported-Agree b h, StmtsSupported-Agree bs hs)

-- The names of variables, in the order in which they are bound.
unfoldable pub scope_of : List String → Names → Names
scope_of [] vars = vars
scope_of (x ∷ xs) vars = scope_of xs (insert x (some null_ptr) vars)
