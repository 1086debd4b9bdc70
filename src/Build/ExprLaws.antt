-- ===== src/Build/ExprLaws.antt =====
-- The visit methods for expressions (src/TIPtreeBuild.cpp) against the reference.
use tipc.Prelude.{◌⊎◌, inl, inr, ◌≡◌, refl, some, leb, Text, arith}
use tipc.Prelude.Result.{Error, exception, Result, ok, Post, returns, throws, ◌⟫◌, Post-if}
use tipc.Ast.Erase.{erase_expr, erase_exprs, erase_fields}
use tipc.Build.{
  stoi, digits_value, Visited, visit_expr, visit_atom, visit_callee, visit_base, visit_actuals,
  visit_fields,
}
use tipc.Build.Reference.{expr_of, atom_of, callee_of, base_of, actuals_of, fields_of}
use tipc.Build.Large.{
  IsLarge, ExprHasLarge, AtomHasLarge, CalleeHasLarge, BaseHasLarge, ActualsHaveLarge,
  FieldsHaveLarge,
}
use tipc.ParseTree.{
  ExprContext, neg_number, operation, atom, AtomContext, paren_atom, fun_app_atom, num_atom,
  id_atom, input_atom, alloc_atom, ref_atom, de_ref_atom, null_atom, record_atom, access_atom,
  CalleeContext, id_callee, paren_callee, BaseContext, id_base, de_ref_base, paren_base,
  ExprContexts, no_actuals, actuals, FieldContexts, no_pairs, pairs,
}
use tipc.Tree.{Expr}

-- The exception of std::stoi, and what makes it throw.
abbrev pub IsOutOfRange : Type 0 → Error → Type 0
IsOutOfRange Large e = (e ≡ exception) × Large

module _ {Val : Type 0} {Good : Val → Type 0} {Large Other : Type 0} where
  pub at_left :
      {r : Result Val}
      → Post Good (IsOutOfRange Large) r
      → Post Good (IsOutOfRange (Large ⊎ Other)) r
  at_left (returns h) = returns h
  at_left (throws (e, large)) = throws (e, inl large)

  pub at_right :
      {r : Result Val}
      → Post Good (IsOutOfRange Other) r
      → Post Good (IsOutOfRange (Large ⊎ Other)) r
  at_right (returns h) = returns h
  at_right (throws (e, large)) = throws (e, inr large)

-- The visit has left a value, which has no ids and is the one of the reference.
abbrev pub Left : Result Expr → Visited → Type 0
Left r s = (e : Expr) × (r ≡ ok e) × (s.visited_expr ≡ some e) × (erase_expr e ≡ e)

abbrev pub Gives : {A : Type 0} → (A → A) → Result A → A × Visited → Type 0
Gives erase r q = (r ≡ ok q.0) × (erase q.0 ≡ q.0)

stoi-lem : (t : Text) → Post (λ n. stoi t ≡ ok n) (IsOutOfRange (IsLarge t)) (stoi t)
unfolding stoi
stoi-lem t =
    Post-if (leb (digits_value 0 t) 2147483647) (λ e. returns (rw e refl))
      (λ e. throws (refl, ground (arith, e)))

mutual
  unfolding visit_expr expr_of erase_expr ExprHasLarge

  visits_expr :
      (c : ExprContext) (s : Visited)
      → Post (Left (expr_of c)) (IsOutOfRange (ExprHasLarge c)) (visit_expr c s)
  visits_expr (neg_number t) s = stoi-lem t ⟫ λ n e. returns (_, rw e refl, refl, refl)
  visits_expr (operation op l r) s = at_left (visits_expr l s) ⟫ λ s₁ (lhs, el, vl, fl). rw vl (
      at_right (visits_expr r _) ⟫ λ s₃ (rhs, er, vr, fr).
      rw vr (returns (_, rw (el, er) refl, refl, rw (fl, fr) refl)))
  visits_expr (atom a) s = visits_atom a s

  visits_atom :
      (a : AtomContext) (s : Visited)
      → Post (Left (atom_of a)) (IsOutOfRange (AtomHasLarge a)) (visit_atom a s)
  visits_atom (paren_atom e) s = visits_expr e s
  visits_atom (fun_app_atom f es) s = at_left (visits_callee f s) ⟫ λ q (ef, ff).
      at_right (visits_actuals es q.1) ⟫ λ p (es', fs).
      returns (_, rw (ef, es') refl, refl, rw (ff, fs) refl)
  visits_atom (num_atom t) s = stoi-lem t ⟫ λ n e. returns (_, rw e refl, refl, refl)
  visits_atom (id_atom x) s = returns (_, refl, refl, refl)
  visits_atom input_atom s = returns (_, refl, refl, refl)
  visits_atom (alloc_atom c) s =
      visits_expr c s ⟫ λ s₁ (e, ee, ve, fe). rw ve (returns (_, rw ee refl, refl, rw fe refl))
  visits_atom (ref_atom x) s = returns (_, refl, refl, refl)
  visits_atom (de_ref_atom a) s =
      visits_atom a s ⟫ λ s₁ (e, ee, ve, fe). rw ve (returns (_, rw ee refl, refl, rw fe refl))
  visits_atom null_atom s = returns (_, refl, refl, refl)
  visits_atom (record_atom fs) s =
      visits_fields fs s ⟫ λ q (e, f). returns (_, rw e refl, refl, rw f refl)
  visits_atom (access_atom b f) s =
      visits_base b s ⟫ λ q (e, g). returns (_, rw e refl, refl, rw g refl)

  visits_callee :
      (c : CalleeContext) (s : Visited)
      → Post (Gives erase_expr (callee_of c)) (IsOutOfRange (CalleeHasLarge c)) (visit_callee c s)
  visits_callee (id_callee x) s = returns (refl, refl)
  visits_callee (paren_callee c) s =
      visits_expr c s ⟫ λ s₁ (e, ee, ve, fe). rw ve (returns (ee, fe))

  visits_base :
      (c : BaseContext) (s : Visited)
      → Post (Gives erase_expr (base_of c)) (IsOutOfRange (BaseHasLarge c)) (visit_base c s)
  visits_base (id_base x) s = returns (refl, refl)
  visits_base (de_ref_base a) s =
      visits_atom a s ⟫ λ s₁ (e, ee, ve, fe). rw ve (returns (rw ee refl, rw fe refl))
  visits_base (paren_base c) s = visits_expr c s ⟫ λ s₁ (e, ee, ve, fe). rw ve (returns (ee, fe))

  visits_actuals :
      (cs : ExprContexts) (s : Visited)
      → Post
          (Gives erase_exprs (actuals_of cs))
          (IsOutOfRange (ActualsHaveLarge cs))
          (visit_actuals cs s)
  visits_actuals no_actuals s = returns (refl, refl)
  visits_actuals (actuals c cs) s = at_left (visits_expr c s) ⟫ λ s₁ (e, ee, ve, fe).
      rw ve (
        at_right (visits_actuals cs _) ⟫ λ q (es, fs). returns (rw (ee, es) refl, rw (fe, fs) refl))

  visits_fields :
      (cs : FieldContexts) (s : Visited)
      → Post
          (Gives erase_fields (fields_of cs))
          (IsOutOfRange (FieldsHaveLarge cs))
          (visit_fields cs s)
  visits_fields no_pairs s = returns (refl, refl)
  visits_fields (pairs x c cs) s = at_left (visits_expr c s) ⟫ λ s₁ (e, ee, ve, fe).
      rw ve
        (at_right (visits_fields cs _) ⟫ λ q (es, fs). returns (rw (ee, es) refl, rw (fe, fs) refl))

pub visit_expr-lem :
    (c : ExprContext) (s : Visited)
    → Post (Left (expr_of c)) (IsOutOfRange (ExprHasLarge c)) (visit_expr c s)
visit_expr-lem = visits_expr

pub visit_atom-lem :
    (c : AtomContext) (s : Visited)
    → Post (Left (atom_of c)) (IsOutOfRange (AtomHasLarge c)) (visit_atom c s)
visit_atom-lem = visits_atom
