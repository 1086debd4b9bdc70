-- ===== src/Typecheck/Typing.antt =====
-- The constraints of the type analysis as a predicate on a solver, independent of how it got there.
use tipc.Prelude.{
  ℕ, ℕ_eq, ◌≡◌, String_eq, Bool, true, false, Option, none, some, List, [], ◌∷◌, ◌==◌,
}
use tipc.Prelude.{subst}
use tipc.Types.{TipType, TipTypes, int, ref, alpha, fun, no_types, types}
use tipc.Unify.Order.{
  Refines, RefinesAll, Refines-int, Refines-ref, Refines-fun, Refines-trans, RefinesAll-trans,
}
use tipc.Solver.{UnionFindSolver}
use tipc.Solver.View.{Knows, root_of, type_of}
use tipc.Solver.Extends.{Extends}
use tipc.Tree.{
  get_id, Expr, Exprs, no_exprs, exprs, number_expr, variable_expr, binary_expr, fun_app_expr,
  input_expr, alloc_expr, ref_expr, de_ref_expr, null_expr, field_expr, record_expr, access_expr,
}

module _ (s : UnionFindSolver) where
  abbrev pub IsInt : ℕ → Type 0
  IsInt n = type_of s n ≡ int

  -- A pointer to a type that the type of the node `n` refines.
  abbrev pub PointsTo : ℕ → ℕ → Type 0
  PointsTo p n = (t : TipType) × (type_of s p ≡ ref t) × Refines t (type_of s n)

  abbrev pub types_of : List ℕ → TipTypes
  types_of [] = no_types
  types_of (n ∷ ns) = types (type_of s n) (types_of ns)

  -- The operands of `op`: of one class for `=`, ints for all else.
  abbrev pub OperandsHold : Bool → ℕ → ℕ → Type 0
  OperandsHold true l r = root_of s l ≡ root_of s r
  OperandsHold false l r = IsInt l × IsInt r

  abbrev pub AllKnown : List ℕ → Type 0
  AllKnown [] = Unit
  AllKnown (n ∷ ns) = Knows s n × AllKnown ns

abbrev pub actual_ids : Exprs → List ℕ
actual_ids no_exprs = []
actual_ids (exprs e es) = get_id e ∷ actual_ids es

-- The constraints that the analysis adds to a solver `s₀`, in a solver `s` that came of it.
module _ (s₀ s : UnionFindSolver) where
  -- A pointer to a type that refines what was known of the node `n`, and that the node refines.
  abbrev pub PointsAt : ℕ → ℕ → Type 0
  PointsAt p n =
      (t : TipType) × (type_of s p ≡ ref t) × Refines (type_of s₀ n) t × Refines t (type_of s n)

  abbrev pub RefHolds : ℕ → Option ℕ → Type 0
  RefHolds i none = ⊥
  RefHolds i (some n) = PointsAt i n

  -- For a callee that had a function type, the actual parameters refine its parameters, the call
  -- refines its result, and its new result refines what was known of the call.
  abbrev pub CalleeHolds : TipType → ℕ → List ℕ → TipType → Type 0
  CalleeHolds (fun ps r) i ns u =
      RefinesAll ps (types_of s ns) × Refines r (type_of s i) × Refines (type_of s₀ i) u
  CalleeHolds _ i ns u = Unit

  -- The callee has a function type, and its parameters refine what was known of the actual ones.
  abbrev pub CallHolds : TipType → ℕ → ℕ → List ℕ → Type 0
  CallHolds t f i ns =
      (qs : TipTypes) × (u : TipType) × (type_of s f ≡ fun qs u)
      × RefinesAll (types_of s₀ ns) qs
      × CalleeHolds t i ns u

  -- The constraints of an expression. The analysis looks into no actual parameter of a call, and
  -- into no record.
  abbrev pub ExprHolds : Expr → Type 0
  ExprHolds (number_expr i v) = IsInt s i
  ExprHolds (variable_expr i x) = Knows s i
  ExprHolds (binary_expr i op l r) =
      ExprHolds l × ExprHolds r × OperandsHold s (op == "=") (get_id l) (get_id r) × IsInt s i
  ExprHolds (fun_app_expr i f es) = CallHolds (type_of s₀ (get_id f)) (get_id f) i (actual_ids es)
  ExprHolds (input_expr i) = IsInt s i
  ExprHolds (alloc_expr i e) = ExprHolds e × PointsAt i (get_id e)
  ExprHolds (ref_expr i x r) = RefHolds i r
  ExprHolds (de_ref_expr i e) = ExprHolds e × PointsTo s (get_id e) i
  ExprHolds (null_expr i) = Unit
  ExprHolds (field_expr f) = Unit
  ExprHolds (record_expr i fs) = Unit
  ExprHolds (access_expr i e f) = Unit

-- What holds in a solver holds in every solver that extends it.
module _ (s s' : UnionFindSolver) (x : Extends s s') where
  pub IsInt-Extends : (n : ℕ) → IsInt s n → IsInt s' n
  IsInt-Extends n e = Refines-int (type_of s' n) (rw e at (x.refines n))

  pub PointsTo-Extends : (p n : ℕ) → PointsTo s p n → PointsTo s' p n
  PointsTo-Extends p n (t, e, below) = (
    t,
    Refines-ref t (type_of s' p) (rw e at (x.refines p)),
    Refines-trans t (type_of s n) (type_of s' n) below (x.refines n),
  )

  pub types_of-Extends : (ns : List ℕ) → RefinesAll (types_of s ns) (types_of s' ns)
  unfolding Refines
  types_of-Extends [] = tt
  types_of-Extends (n ∷ ns) = (x.refines n, types_of-Extends ns)

  pub OperandsHold-Extends : (b : Bool) (l r : ℕ) → OperandsHold s b l r → OperandsHold s' b l r
  OperandsHold-Extends true l r h = x.joins l r h
  OperandsHold-Extends false l r (a, b) = (IsInt-Extends l a, IsInt-Extends r b)

  pub AllKnown-Extends : (ns : List ℕ) → AllKnown s ns → AllKnown s' ns
  AllKnown-Extends [] h = tt
  AllKnown-Extends (n ∷ ns) (a, b) = (x.keeps n a, AllKnown-Extends ns b)

-- What was added to a solver has been added to every solver before it, and holds in every solver
-- after it.
module _ (s₀ s₁ s s' : UnionFindSolver) (y : Extends s₀ s₁) (x : Extends s s') where
  callee_between :
      (t t' : TipType) (i : ℕ) (ns : List ℕ) (u u' : TipType)
      → Refines t t'
      → Refines u u'
      → CalleeHolds s₁ s t' i ns u
      → CalleeHolds s₀ s' t i ns u'
  callee_between int t' i ns u u' h k c = tt
  callee_between (ref t) t' i ns u u' h k c = tt
  callee_between alpha t' i ns u u' h k c = tt
  callee_between (fun ps r) t' i ns u u' h k c =
      let (ps', r', e, params, result) = Refines-fun ps r t' h in
      let (actuals, call, known) = subst (λ t. CalleeHolds s₁ s t i ns u) e c in
      (
        RefinesAll-trans ps (types_of s ns) (types_of s' ns)
            (RefinesAll-trans ps ps' (types_of s ns) params actuals) (types_of-Extends s s' x ns),
        Refines-trans r (type_of s i) (type_of s' i) (Refines-trans r r' (type_of s i) result call)
            (x.refines i),
        Refines-trans (type_of s₀ i) u u'
            (Refines-trans (type_of s₀ i) (type_of s₁ i) u (y.refines i) known) k,
      )

  pub call_between :
      (f i : ℕ) (ns : List ℕ)
      → CallHolds s₁ s (type_of s₁ f) f i ns
      → CallHolds s₀ s' (type_of s₀ f) f i ns
  call_between f i ns (qs, u, e, params, callee) =
      let (qs', u', e', more, result) = Refines-fun qs u (type_of s' f) (rw e at (x.refines f)) in
      (
        qs',
        u',
        e',
        RefinesAll-trans (types_of s₀ ns) qs qs'
            (RefinesAll-trans (types_of s₀ ns) (types_of s₁ ns) qs (types_of-Extends s₀ s₁ y ns)
              params)
            more,
        callee_between (type_of s₀ f) (type_of s₁ f) i ns u u' (y.refines f) result callee,
      )

  pub PointsAt-Extends : (p n : ℕ) → PointsAt s₁ s p n → PointsAt s₀ s' p n
  PointsAt-Extends p n (t, e, known, below) = (
    t,
    Refines-ref t (type_of s' p) (rw e at (x.refines p)),
    Refines-trans (type_of s₀ n) (type_of s₁ n) t (y.refines n) known,
    Refines-trans t (type_of s n) (type_of s' n) below (x.refines n),
  )

  RefHolds-Extends : (i : ℕ) (r : Option ℕ) → RefHolds s₁ s i r → RefHolds s₀ s' i r
  RefHolds-Extends i none h = h
  RefHolds-Extends i (some n) h = PointsAt-Extends i n h

  pub ExprHolds-Extends : (e : Expr) → ExprHolds s₁ s e → ExprHolds s₀ s' e
  ExprHolds-Extends (number_expr i v) h = IsInt-Extends s s' x i h
  ExprHolds-Extends (variable_expr i y) h = x.keeps i h
  ExprHolds-Extends (binary_expr i op l r) (a, b, c, d) = (
    ExprHolds-Extends l a,
    ExprHolds-Extends r b,
    OperandsHold-Extends s s' x (op == "=") (get_id l) (get_id r) c,
    IsInt-Extends s s' x i d,
  )
  ExprHolds-Extends (fun_app_expr i f es) h = call_between (get_id f) i (actual_ids es) h
  ExprHolds-Extends (input_expr i) h = IsInt-Extends s s' x i h
  ExprHolds-Extends (alloc_expr i e) (a, b) =
      (ExprHolds-Extends e a, PointsAt-Extends i (get_id e) b)
  ExprHolds-Extends (ref_expr i y r) h = RefHolds-Extends i r h
  ExprHolds-Extends (de_ref_expr i e) (a, b) =
      (ExprHolds-Extends e a, PointsTo-Extends s s' x (get_id e) i b)
  ExprHolds-Extends (null_expr i) h = tt
  ExprHolds-Extends (field_expr f) h = tt
  ExprHolds-Extends (record_expr i fs) h = tt
  ExprHolds-Extends (access_expr i e f) h = tt
