-- ===== src/Typecheck/Sound.antt =====
-- The analysis of expressions (src/TIPtypecheck.cpp) against their constraints.
use tipc.Prelude.{
  subst, sym, ℕ, ℕ_eq, ◌≡◌, refl, String, String_eq, Option, none, some, ◌==◌, Option-cases,
  Bool-cases, inl, inr,
}
use tipc.Prelude.Result.{Post, returns, throws, ◌⟫◌, ◌▷◌, ◌>>=◌}
use tipc.Types.{TipType, int, ref}
use tipc.Unify.Order.{Refines, Refines-int, Refines-ref}
use tipc.Unify.Laws.{IsTypeError}
use tipc.Solver.{UnionFindSolver, exist_node, set_type, get_type}
use tipc.Solver.View.{IsValid, Knows, type_of}
use tipc.Solver.Extends.{
  Extends, Extends-refl, Extends-trans, set_type-Extends, unify_nodes-Extends, get_type-Extends,
}
use tipc.Prelude.Dict.{lookup}
use tipc.Typecheck.{check_expr, check_operands, check_ref, check_pointed, as_ref}
use tipc.Typecheck.Calls.{check_application-Holds}
use tipc.Typecheck.Typing.{
  IsInt, PointsTo, PointsAt, PointsAt-Extends, OperandsHold, RefHolds, ExprHolds, actual_ids,
  CallHolds, call_between, IsInt-Extends, OperandsHold-Extends, ExprHolds-Extends,
}
use tipc.Tree.{
  get_id, Expr, number_expr, variable_expr, binary_expr, fun_app_expr, input_expr, alloc_expr,
  ref_expr, de_ref_expr, null_expr, field_expr, record_expr, access_expr,
}

-- `genId` has set `refId` in every `&x` that the analysis reaches.
abbrev pub HasRefs : Expr → Type 0
HasRefs (binary_expr i op l r) = HasRefs l × HasRefs r
HasRefs (alloc_expr i e) = HasRefs e
HasRefs (de_ref_expr i e) = HasRefs e
HasRefs (ref_expr i x none) = ⊥
HasRefs _ = Unit

module _ (s : UnionFindSolver) (v : IsValid s) where
  set_int : (n : ℕ) → Post (λ s'. Extends s s' × IsInt s' n) IsTypeError (set_type n int s)
  set_int n = set_type-Extends s v n int ▷ λ s' (x, k, below). (x, Refines-int (type_of s' n) below)

  check_operands-Holds :
      (op : String) (l r : ℕ)
      → Post
          (λ s'. Extends s s' × OperandsHold s' (op == "=") l r)
          IsTypeError
          (check_operands op l r s)
  unfolding check_operands
  check_operands-Holds op l r = elim (Bool-cases (op == "=")) [
    | inl e ↦ rw e (unify_nodes-Extends s v l r)
    | inr e ↦ rw e (
        set_int l ⟫ λ s₁ (x, left). set_type-Extends s₁ x.valid r int ▷ λ s' (y, _, below).
        (Extends-trans x y, (IsInt-Extends s₁ s' y l left, Refines-int (type_of s' r) below)))
  ]

-- `i` is set to point to the type of `n`.
point_to :
    (i n : ℕ) (s : UnionFindSolver)
    → IsValid s
    → Post
        (λ s'. Extends s s' × PointsAt s s' i n)
        IsTypeError
        (get_type n s >>= λ (t, s'). set_type i (ref t) s')
point_to i n s v = get_type-Extends s v n ⟫ λ r (same, a, k).
    set_type-Extends r.1 a.valid i (ref r.0) ▷ λ s' (b, _, below). (
      Extends-trans a b,
      (
        r.0,
        Refines-ref r.0 (type_of s' i) below,
        subst (Refines (type_of s n)) same (a.refines n),
        rw same at (b.refines n),
      ),
    )

check_ref-Holds :
    (i : ℕ) (x : String) (r : Option ℕ) (s : UnionFindSolver)
    → IsValid s
    → HasRefs (ref_expr i x r)
    → Post (λ s'. Extends s s' × RefHolds s s' i r) IsTypeError (check_ref i r s)
unfolding check_ref
check_ref-Holds i x none s v h = absurd h
check_ref-Holds i x (some n) s v h = point_to i n s v

check_pointed-Holds :
    (i : ℕ) (e : Expr) (t : TipType) (s : UnionFindSolver)
    → IsValid s
    → type_of s (get_id e) ≡ t
    → Post
        (λ s'. Extends s s' × PointsTo s' (get_id e) i)
        IsTypeError
        (check_pointed i e (as_ref t) s)
check_pointed-Holds i e (ref t) s v same = set_type-Extends s v i t ▷ λ s' (x, _, below).
    (x, (t, Refines-ref t (type_of s' (get_id e)) (rw same at (x.refines (get_id e))), below))
check_pointed-Holds i e _ s v same = throws (_, refl)

variable_known :
    (i : ℕ) (x : String) (s : UnionFindSolver)
    → IsValid s
    → Post (λ s'. Extends s s' × Knows s' i) IsTypeError (check_expr (variable_expr i x) s)
unfolding check_expr exist_node
variable_known i x s v = elim (Option-cases (lookup i s.node2root)) [
  | inl e ↦ rw e (throws (_, refl))
  | inr (p, e) ↦ rw e (returns (Extends-refl s v, (p, e)))
]

-- On a valid solver the analysis of an expression ends, if `genId` has set the references in it that
-- the analysis reads. It throws nothing but a TIPTypeError, or returns a valid solver that extends
-- the given one and in which all constraints hold that the expression adds. A variable is known;
-- numbers, inputs and operations are ints, and so are the operands, but for `=`, whose operands are
-- in one class; what is dereferenced points to a type that the result refines; an alloc and an `&`
-- point to a type that refines what was known of the operand and that the operand refines. The
-- callee of a call has a function type, whose parameters refine what was known of the actual ones;
-- where the callee had a function type, the actual parameters refine its parameters, the call refines
-- its result, and its new result refines what was known of the call. Actual parameters, callees,
-- records, fields and accesses are not looked into.
pub check_expr-Holds :
    (e : Expr) (s : UnionFindSolver)
    → IsValid s
    → HasRefs e
    → Post (λ s'. Extends s s' × ExprHolds s s' e) IsTypeError (check_expr e s)
unfolding check_expr
check_expr-Holds (number_expr i n) s v h = set_int s v i
check_expr-Holds (variable_expr i x) s v h = variable_known i x s v
check_expr-Holds (binary_expr i op l r) s v h = check_expr-Holds l s v h.0 ⟫ λ s₁ (x₁, holds_l).
    check_expr-Holds r s₁ x₁.valid h.1 ⟫ λ s₂ (x₂, holds_r).
    check_operands-Holds s₂ x₂.valid op (get_id l) (get_id r) ⟫ λ s₃ (x₃, operands).
    set_int s₃ x₃.valid i ▷ λ s₄ (x₄, result). (
      Extends-trans x₁ (Extends-trans x₂ (Extends-trans x₃ x₄)),
      (
        ExprHolds-Extends s s s₁ s₄ (Extends-refl s v) (Extends-trans x₂ (Extends-trans x₃ x₄)) l
            holds_l,
        ExprHolds-Extends s s₁ s₂ s₄ x₁ (Extends-trans x₃ x₄) r holds_r,
        OperandsHold-Extends s₃ s₄ x₄ (op == "=") (get_id l) (get_id r) operands,
        result,
      ),
    )
check_expr-Holds (fun_app_expr i f es) s v h = get_type-Extends s v (get_id f) ⟫ λ q (same, x, _).
    check_application-Holds i f es q.0 q.1 x.valid ▷ λ s' (y, call). (
      Extends-trans x y,
      call_between s q.1 s' s' x (Extends-refl s' y.valid) (get_id f) i (actual_ids es)
          (subst (λ t. CallHolds q.1 s' t (get_id f) i (actual_ids es)) (sym same) call),
    )
check_expr-Holds (input_expr i) s v h = set_int s v i
check_expr-Holds (alloc_expr i e) s v h = check_expr-Holds e s v h ⟫ λ s₁ (x₁, holds).
    point_to i (get_id e) s₁ x₁.valid ▷ λ s' (x₂, points). (
      Extends-trans x₁ x₂,
      (
        ExprHolds-Extends s s s₁ s' (Extends-refl s v) x₂ e holds,
        PointsAt-Extends s s₁ s' s' x₁ (Extends-refl s' x₂.valid) i (get_id e) points,
      ),
    )
check_expr-Holds (ref_expr i x r) s v h = check_ref-Holds i x r s v h
check_expr-Holds (de_ref_expr i e) s v h = check_expr-Holds e s v h ⟫ λ s₁ (x₁, holds).
    get_type-Extends s₁ x₁.valid (get_id e) ⟫ λ q (same, x₂, _).
    check_pointed-Holds i e q.0 q.1 x₂.valid same ▷ λ s' (x₃, points). (
      Extends-trans x₁ (Extends-trans x₂ x₃),
      (ExprHolds-Extends s s s₁ s' (Extends-refl s v) (Extends-trans x₂ x₃) e holds, points),
    )
check_expr-Holds (null_expr i) s v h = returns (Extends-refl s v, tt)
check_expr-Holds (field_expr f) s v h = returns (Extends-refl s v, tt)
check_expr-Holds (record_expr i fs) s v h = returns (Extends-refl s v, tt)
check_expr-Holds (access_expr i e f) s v h = returns (Extends-refl s v, tt)
