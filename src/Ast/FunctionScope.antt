-- ===== src/Ast/FunctionScope.antt =====
-- The scope of a function: its formals and locals, and after them the functions.
use tipc.Prelude.{
  ℕ, ◌≡◌, ◌⊎◌, inl, inr, refl, sym, ap, ◌∙◌, some, List, [], ◌∷◌, ◌++◌, append_assoc, append-nil,
  String, String_eq, All, subst, false,
}
use tipc.Prelude.Dict.{Dict, lookup, insert, lookup-insert_eq, lookup-insert_has}
use tipc.Prelude.Result.{Post, returns, ◌▷◌}
use tipc.Unify.Laws.{IsTypeError}
use tipc.Tree.{DeclStmt, TipFunction, Program}
use tipc.Ast.{
  GenState, gen_names, gen_decl, gen_decls, gen_function, gen_functions, function_id, gen_program,
}
use tipc.Ast.Erase.{erase_decl, erase_decls, erase_function, erase_functions, erase_program}
use tipc.Prelude.State.{◌⇒◌}
use tipc.Ast.FunctionNumbering.{HasNumber, number_functions-Numbered, require_main-lem}
use tipc.Ast.Scope.{StmtsResolved, StmtsRefsIn}
use tipc.Ast.Resolves.{gen_stmts-Resolved}

-- The numbers that a list of declared names leaves; of two equal names the last one counts.
abbrev pub bind_names : List String → List ℕ → Dict String ℕ → Dict String ℕ
bind_names (x ∷ xs) (n ∷ ns) m = bind_names xs ns (insert x n m)
bind_names _ _ m = m

abbrev pub bind_decls : List DeclStmt → Dict String ℕ → Dict String ℕ
bind_decls [] m = m
bind_decls (d ∷ ds) m = bind_decls ds (bind_names d.vars d.var_ids m)

-- The variables in the body of a numbered function.
abbrev pub scope : TipFunction → Dict String ℕ
scope f = bind_decls f.decls (bind_names f.formals f.formal_ids [])

abbrev pub Contains : String → List String → Type 0
Contains x [] = ⊥
Contains x (y ∷ ys) = (y ≡ x) ⊎ Contains x ys

abbrev pub DeclaredIn : String → List DeclStmt → Type 0
DeclaredIn x [] = ⊥
DeclaredIn x (d ∷ ds) = Contains x d.vars ⊎ DeclaredIn x ds

abbrev pub IsDeclared : TipFunction → String → Type 0
IsDeclared f x = Contains x f.formals ⊎ DeclaredIn x f.decls

record NamesBound (xs : List String) (ids : List ℕ) (s : GenState) (r : List ℕ × GenState)
    : Type 0 where
  new : List ℕ
  pushed : r.0 ≡ ids ++ new
  vars : r.1.var2id ≡ bind_names xs new s.var2id
  funs : r.1.fun2id ≡ s.fun2id
  has : (x : String) → Contains x xs ⊎ HasNumber s.var2id x → HasNumber r.1.var2id x

gen_names-Bound :
    (xs : List String) (ids : List ℕ) (s : GenState)
    → Post (NamesBound xs ids s) IsTypeError (gen_names xs ids s)
unfolding gen_names
gen_names-Bound [] ids s = returns (record {
  new = [];
  pushed = sym (append-nil ids);
  vars = refl;
  funs = refl;
  has = λ x h. elim h [ inl k ↦ absurd k | inr k ↦ k ];
})
gen_names-Bound (y ∷ ys) ids s = gen_names-Bound ys (ids ++ s.ast_counter ∷ []) _ ▷ λ r h. record {
  new = s.ast_counter ∷ h.new;
  pushed = h.pushed ∙ append_assoc ids (s.ast_counter ∷ []) h.new;
  vars = h.vars;
  funs = h.funs;
  has = λ x k. elim k [
    | inl (inl same) ↦
        h.has x (inr (s.ast_counter, lookup-insert_eq x y s.ast_counter s.var2id same))
    | inl (inr later) ↦ h.has x (inl later)
    | inr (n, old) ↦ h.has x (inr (lookup-insert_has x y s.ast_counter n s.var2id old))
  ];
}

record DeclsBound (ds : List DeclStmt) (s : GenState) (r : List DeclStmt × GenState) : Type 0 where
  vars : r.1.var2id ≡ bind_decls r.0 s.var2id
  funs : r.1.fun2id ≡ s.fun2id
  has : (x : String) → DeclaredIn x ds ⊎ HasNumber s.var2id x → HasNumber r.1.var2id x

record DeclBound (d : DeclStmt) (s : GenState) (r : DeclStmt × GenState) : Type 0 where
  vars : r.1.var2id ≡ bind_names r.0.vars r.0.var_ids s.var2id
  funs : r.1.fun2id ≡ s.fun2id
  has : (x : String) → Contains x d.vars ⊎ HasNumber s.var2id x → HasNumber r.1.var2id x

gen_decl-Bound :
    (d : DeclStmt) (s : GenState) → Post (DeclBound d s) IsTypeError (gen_decl (erase_decl d) s)
unfolding gen_decl
gen_decl-Bound d s = gen_names-Bound d.vars [] _ ⇒ λ ids s₁ h.
    returns (record { vars = rw h.pushed h.vars; funs = h.funs; has = h.has })

gen_decls-Bound :
    (ds : List DeclStmt) (s : GenState)
    → Post (DeclsBound ds s) IsTypeError (gen_decls (erase_decls ds) s)
unfolding gen_decls
gen_decls-Bound [] s =
    returns
      (record { vars = refl; funs = refl; has = λ x h. elim h [ inl k ↦ absurd k | inr k ↦ k ] })
gen_decls-Bound (d ∷ ds) s = gen_decl-Bound d s ⇒ λ d' s₁ h. gen_decls-Bound ds s₁ ⇒ λ ds' s₂ k.
    returns (record {
      vars = k.vars ∙ ap (bind_decls ds') h.vars;
      funs = k.funs ∙ h.funs;
      has = λ x l. elim l [
        | inl (inl first) ↦ k.has x (inr (h.has x (inl first)))
        | inl (inr later) ↦ k.has x (inl later)
        | inr old ↦ k.has x (inr (h.has x (inr old)))
      ];
    })

-- Every name behind an `&` in the body is a formal or a local, and the body declares nothing.
abbrev pub RefsDeclared : TipFunction → Type 0
RefsDeclared f = StmtsRefsIn (IsDeclared f) f.body

-- Every name in the body is resolved in the function's own scope, else as a function.
abbrev pub BodyResolved : Dict String ℕ → TipFunction → Type 0
BodyResolved funs f = StmtsResolved (scope f) funs f.body

gen_function-Resolved :
    (f : TipFunction) (s : GenState) (funs : Dict String ℕ)
    → s.fun2id ≡ funs
    → HasNumber funs f.name
    → RefsDeclared f
    → Post
        (λ r. BodyResolved funs r.0 × (r.1.fun2id ≡ funs))
        IsTypeError
        (gen_function (erase_function f) s)
unfolding gen_function function_id
gen_function-Resolved f s funs e (n, own) declared =
    let here : lookup f.name s.fun2id ≡ some n = rw e own in
    rw here (
      gen_names-Bound f.formals [] _ ⇒ λ ids s₁ h. gen_decls-Bound f.decls s₁ ⇒ λ ds' s₂ k.
      let vars = bind_decls ds' (bind_names f.formals ids []) in
      let bound : s₂.var2id ≡ vars = k.vars ∙ ap (bind_decls ds') (rw h.pushed h.vars) in
      let known : (x : String) → IsDeclared f x → HasNumber vars x = λ x d.
        subst (λ m. HasNumber m x) bound
          (elim d [
            | inl formal ↦ k.has x (inr (h.has x (inl formal)))
            | inr local ↦ k.has x (inl local)
          ]) in
      gen_stmts-Resolved vars funs (IsDeclared f) known f.body s₂ declared
        (bound, k.funs ∙ h.funs ∙ e)
      ⇒ λ bs' s₃ (resolved, (_, same)). returns (resolved, same))

gen_functions-Resolved :
    (fs : List TipFunction) (s : GenState) (funs : Dict String ℕ)
    → s.fun2id ≡ funs
    → All (λ f. HasNumber funs f.name) fs
    → All RefsDeclared fs
    → Post
        (λ r. All (BodyResolved funs) r.0 × (r.1.fun2id ≡ funs))
        IsTypeError
        (gen_functions (erase_functions fs) s)
unfolding gen_functions
gen_functions-Resolved [] s funs e own declared = returns (tt, e)
gen_functions-Resolved (f ∷ fs) s funs e (own, owns) (declared, all_declared) =
    gen_function-Resolved f s funs e own declared ⇒ λ f' s₁ (h, e₁).
    gen_functions-Resolved fs s₁ funs e₁ owns all_declared ⇒ λ fs' s₂ (hs, e₂).
    returns ((h, hs), e₂)

-- For a program without ids in which no body has a declaration, and every reference that does not
-- stand inside of a record, a field or an access is to a formal or a local, `genId` throws a TIPTypeError, or gives every variable and every reference
-- of every body that does not stand inside of a record, a field or an access the number of the formal
-- or local of that name, and every other such variable the number of the function of that name; what
-- stands inside of a record, a field or an access is left without ids.
pub gen_program-Resolved :
    (p : Program) (s : GenState)
    → All RefsDeclared p.functions
    → Post
        (λ r. All (BodyResolved r.1.fun2id) r.0.functions)
        IsTypeError
        (gen_program (erase_program p) s)
unfolding gen_program
gen_program-Resolved p s declared =
    number_functions-Numbered p.functions false _ ⇒ λ has_main s₁ names.
    require_main-lem has_main s₁ ⇒ λ _ s₂ (same, found).
    gen_functions-Resolved p.functions s₂ s₁.fun2id (ap (λ t. t.fun2id) same) names.all declared
    ⇒ λ fs s₃ (h, e). returns (subst (λ m. All (BodyResolved m) fs) (sym e) h)
