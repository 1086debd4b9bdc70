-- ===== src/Typecheck/Calls.antt =====
-- The analysis of calls (`FunAppExpr::typecheck` of src/TIPtypecheck.cpp) against their constraints.
use tipc.Prelude.{List, ◌∷◌, subst, ℕ, ℕ_eq, ◌≡◌, refl, String_eq, ◌==◌, arith, nat_eq_iff}
use tipc.Prelude.Result.{Post, returns, throws, ◌⟫◌, ◌▷◌, Post-if}
use tipc.Types.{TipType, TipTypes, int, ref, alpha, fun, no_types, types}
use tipc.Unify.{size}
use tipc.Unify.Order.{Refines, RefinesAll, Refines-trans, RefinesAll-trans, Refines-fun}
use tipc.Unify.Laws.{IsTypeError}
use tipc.Solver.{UnionFindSolver, add_node}
use tipc.Solver.View.{IsValid, type_of}
use tipc.Solver.Extends.{
  Extends, Extends-refl, Extends-trans, add_node-Extends, set_type-Extends, get_type-Extends,
}
use tipc.Typecheck.{
  check_application, check_call, check_new_function, actual_types, set_actuals, actuals_size,
}
use tipc.Typecheck.Typing.{types_of, types_of-Extends, actual_ids, CallHolds}
use tipc.Tree.{get_id, Expr, Exprs, no_exprs, exprs}

module _ (s s' : UnionFindSolver) (x : Extends s s') where
  -- A lower bound of what was known before, and an upper bound of what is known after.
  pub RefinesAll-before :
      (ns : List ℕ) (ts : TipTypes) → RefinesAll (types_of s' ns) ts → RefinesAll (types_of s ns) ts
  RefinesAll-before ns ts h =
      RefinesAll-trans (types_of s ns) (types_of s' ns) ts (types_of-Extends s s' x ns) h

  pub RefinesAll-after :
      (ns : List ℕ) (ts : TipTypes) → RefinesAll ts (types_of s ns) → RefinesAll ts (types_of s' ns)
  RefinesAll-after ns ts h =
      RefinesAll-trans ts (types_of s ns) (types_of s' ns) h (types_of-Extends s s' x ns)

-- The types that are read are those of the nodes.
abbrev pub Read : UnionFindSolver → List ℕ → TipTypes × UnionFindSolver → Type 0
Read s ns (ts, s') = Extends s s' × RefinesAll (types_of s ns) ts × RefinesAll ts (types_of s' ns)

pub more-Read :
    (s : UnionFindSolver) (n : ℕ) (ns : List ℕ) (q : TipType × UnionFindSolver)
    (r : TipTypes × UnionFindSolver)
    → type_of q.1 n ≡ q.0
    → Extends s q.1
    → Read q.1 ns r
    → Read s (n ∷ ns) (types q.0 r.0, r.1)
unfolding Refines
more-Read s n ns q r same x (y, below, above) = (
  Extends-trans x y,
  (subst (Refines (type_of s n)) same (x.refines n), RefinesAll-before s q.1 x ns r.0 below),
  (subst (λ t. Refines t (type_of r.1 n)) same (y.refines n), above),
)

actual_types-Read :
    (es : Exprs) (s : UnionFindSolver)
    → IsValid s
    → Post (Read s (actual_ids es)) IsTypeError (actual_types es s)
unfolding actual_types Refines
actual_types-Read no_exprs s v = returns (Extends-refl s v, tt, tt)
actual_types-Read (exprs e es) s v = get_type-Extends s v (get_id e) ⟫ λ q (same, x, k).
    actual_types-Read es q.1 x.valid ⟫ λ r h.
    returns (more-Read s (get_id e) (actual_ids es) q r same x h)

set_actuals-Extends :
    (es : Exprs) (ps : TipTypes) (s : UnionFindSolver)
    → IsValid s
    → size ps ≡ actuals_size es
    → Post
        (λ s'. Extends s s' × RefinesAll ps (types_of s' (actual_ids es)))
        IsTypeError
        (set_actuals es ps s)
unfolding set_actuals Refines
set_actuals-Extends no_exprs no_types s v same = returns (Extends-refl s v, tt)
set_actuals-Extends no_exprs (types p ps) s v same = absurd (omega arith)
set_actuals-Extends (exprs e es) no_types s v same = absurd (omega arith)
set_actuals-Extends (exprs e es) (types p ps) s v same =
    set_type-Extends s v (get_id e) p ⟫ λ s₁ (x, k, below).
    set_actuals-Extends es ps s₁ x.valid (omega arith) ▷ λ s' (y, rest). (
      Extends-trans x y,
      (
        Refines-trans p (type_of s₁ (get_id e)) (type_of s' (get_id e)) below
            (y.refines (get_id e)),
        rest,
      ),
    )

-- A node has a function type that refines certain parameters.
abbrev IsApplied : UnionFindSolver → UnionFindSolver → ℕ → List ℕ → Type 0
IsApplied s s' f ns =
    (qs : TipTypes) × (u : TipType) × (type_of s' f ≡ fun qs u) × RefinesAll (types_of s ns) qs

check_new_function-Holds :
    (f : ℕ) (es : Exprs) (s : UnionFindSolver)
    → IsValid s
    → Post
        (λ s'. Extends s s' × IsApplied s s' f (actual_ids es))
        IsTypeError
        (check_new_function f es s)
unfolding check_new_function
check_new_function-Holds f es s v =
    let a = add_node-Extends s v f in
    actual_types-Read es (add_node f s) a.valid ⟫ λ r (x, below, above).
    set_type-Extends r.1 x.valid f (fun r.0 alpha) ▷ λ s' (y, _, reached).
    let (qs, u, e, params, _) = Refines-fun r.0 alpha (type_of s' f) reached in
    let ns = actual_ids es in
    (
      Extends-trans a (Extends-trans x y),
      (
        qs,
        u,
        e,
        RefinesAll-before s (add_node f s) a ns qs
            (RefinesAll-trans (types_of (add_node f s) ns) r.0 qs below params),
      ),
    )

check_call-Holds :
    (i : ℕ) (f : Expr) (es : Exprs) (ps : TipTypes) (t : TipType) (s : UnionFindSolver)
    → IsValid s
    → Post
        (λ s'. Extends s s' × CallHolds s s' (fun ps t) (get_id f) i (actual_ids es))
        IsTypeError
        (check_call i f es ps t s)
unfolding check_call
check_call-Holds i f es ps t s v =
    let ns = actual_ids es in
    Post-if (size ps == actuals_size es)
      (λ same. set_actuals-Extends es ps s v ((nat_eq_iff _ _).0 same) ⟫ λ s₁ (x₁, actuals).
        set_type-Extends s₁ x₁.valid i t ⟫ λ s₂ (x₂, _, call).
        actual_types-Read es s₂ x₂.valid ⟫ λ r (x₃, below, above).
        get_type-Extends r.1 x₃.valid i ⟫ λ q (is_call, x₄, _).
        set_type-Extends q.1 x₄.valid (get_id f) (fun r.0 q.0) ▷ λ s' (x₅, _, reached).
        let (qs, u, e, params, result) = Refines-fun r.0 q.0 (type_of s' (get_id f)) reached in
        let before = Extends-trans x₁ x₂ in
        let after = Extends-trans x₃ (Extends-trans x₄ x₅) in
        let known = (Extends-trans before (Extends-trans x₃ x₄)).refines i in
        (
          Extends-trans before after,
          (
            qs,
            u,
            e,
            RefinesAll-before s s₂ before ns qs
                (RefinesAll-trans (types_of s₂ ns) r.0 qs below params),
            (
              RefinesAll-after s₁ s' (Extends-trans x₂ after) ns ps actuals,
              Refines-trans t (type_of s₂ i) (type_of s' i) call (after.refines i),
              Refines-trans (type_of s i) q.0 u (subst (Refines (type_of s i)) is_call known)
                  result,
            ),
          ),
        ))
      (λ differ. throws (_, refl))

pub check_application-Holds :
    (i : ℕ) (f : Expr) (es : Exprs) (t : TipType) (s : UnionFindSolver)
    → IsValid s
    → Post
        (λ s'. Extends s s' × CallHolds s s' t (get_id f) i (actual_ids es))
        IsTypeError
        (check_application i f es t s)
check_application-Holds i f es (fun ps r) s v = check_call-Holds i f es ps r s v
check_application-Holds i f es int s v =
    check_new_function-Holds (get_id f) es s v ▷ λ s' (x, (qs, u, e, h)). (x, (qs, u, e, h, tt))
check_application-Holds i f es (ref t) s v =
    check_new_function-Holds (get_id f) es s v ▷ λ s' (x, (qs, u, e, h)). (x, (qs, u, e, h, tt))
check_application-Holds i f es alpha s v =
    check_new_function-Holds (get_id f) es s v ▷ λ s' (x, (qs, u, e, h)). (x, (qs, u, e, h, tt))
