-- ===== src/Typecheck/Signature.antt =====
-- The result and the signature of a function (`Function::typecheck` of src/TIPtypecheck.cpp) against
-- their constraints.
use tipc.Prelude.{
  false, true, subst, ℕ, suc, ◌≡◌, refl, sym, ◌∙◌, ap, arith, Option, none, some, List, [], ◌∷◌,
  length,
}
use tipc.Prelude.Result.{ok, Post, returns, throws, ◌⟫◌, ◌▷◌, Post-if, ◌>>=◌}
use tipc.Tree.{
  Expr, get_id, Stmt, Stmts, decl_stmt, block_stmt, assign_stmt, while_stmt, if_stmt, output_stmt,
  error_stmt, return_stmt, no_stmts, stmts, TipFunction,
}
use tipc.Types.{TipType, TipTypes, fun, no_types, types}
use tipc.Unify.{size}
use tipc.Unify.Laws.{IsTypeError, Refines-size}
use tipc.Unify.Order.{Refines, RefinesAll, Refines-fun, Refines-trans, RefinesAll-trans}
use tipc.Solver.{UnionFindSolver, add_node, get_type}
use tipc.Solver.View.{IsValid, type_of}
use tipc.Solver.Extends.{
  Extends, Extends-refl, Extends-trans, add_node-Extends, set_type-Extends, get_type-Extends,
}
use tipc.Typecheck.Functions.{
  prints_return, return_type, node_types, set_formals, cast_params, check_signature, arg_id,
}
use tipc.Typecheck.Typing.{types_of}
use tipc.Typecheck.Calls.{Read, more-Read, RefinesAll-before}
use tipc.TreePrint.{print_stmt}
use mathlib.Core.Bool.{false≢true}
use tipc.Typecheck.StmtTyping.{HonestReturns, IsReturn, SignatureHolds, ReturnHolds, returned_id}

return-prints : (i : ℕ) (e : Expr) → prints_return (return_stmt i e) ≡ true
unfolding prints_return print_stmt
return-prints i e = refl

-- A type that has been found is that of the value returned.
abbrev pub Found : UnionFindSolver → Option ℕ → Option TipType → Type 0
Found s o none = Unit
Found s o (some t) = ReturnHolds s o t

-- A statement that does not print as a return statement is none.
Found-later :
    (b : Stmt) (bs : Stmts) (s : UnionFindSolver) (t : Option TipType)
    → prints_return b ≡ false
    → Found s (returned_id bs) t
    → Found s (returned_id (stmts b bs)) t
Found-later (return_stmt i e) bs s t other h = absurd (false≢true (sym other ∙ return-prints i e))
Found-later (decl_stmt d) bs s t other h = h
Found-later (block_stmt i cs) bs s t other h = h
Found-later (assign_stmt i l r) bs s t other h = h
Found-later (while_stmt i c b) bs s t other h = h
Found-later (if_stmt i c b e) bs s t other h = h
Found-later (output_stmt i e) bs s t other h = h
Found-later (error_stmt i e) bs s t other h = h

pub return_type-Found :
    (bs : Stmts) (s : UnionFindSolver)
    → IsValid s
    → HonestReturns bs
    → Post (λ r. Extends s r.1 × Found s (returned_id bs) r.0) IsTypeError (return_type bs s)
unfolding return_type
return_type-Found no_stmts s v h = returns (Extends-refl s v, tt)
return_type-Found (stmts b bs) s v (honest, rest) =
    Post-if (prints_return b) (λ e. found b (honest e))
      λ e. return_type-Found bs s v rest ▷ λ r (x, h). (x, Found-later b bs s r.0 e h)
  where
    found :
        (b : Stmt)
        → IsReturn b
        → Post
            (λ (r : Option TipType × UnionFindSolver).
              Extends s r.1 × Found s (returned_id (stmts b bs)) r.0)
            IsTypeError
            (arg_id b >>= λ n. get_type n s >>= λ (t, s'). ok (some t, s'))
    found (return_stmt i e) k = get_type-Extends s v (get_id e) ⟫ λ q (same, x, _).
        returns (x, subst (Refines (type_of s (get_id e))) same (x.refines (get_id e)))
    found (decl_stmt d) k = absurd k
    found (block_stmt i bs) k = absurd k
    found (assign_stmt i l r) k = absurd k
    found (while_stmt i c b) k = absurd k
    found (if_stmt i c b e) k = absurd k
    found (output_stmt i e) k = absurd k
    found (error_stmt i e) k = absurd k

node_types-Read :
    (ns : List ℕ) (s : UnionFindSolver) → IsValid s → Post (Read s ns) IsTypeError (node_types ns s)
unfolding node_types Refines
node_types-Read [] s v = returns (Extends-refl s v, tt, tt)
node_types-Read (n ∷ ns) s v = get_type-Extends s v n ⟫ λ q (same, x, _).
    node_types-Read ns q.1 x.valid ⟫ λ r h. returns (more-Read s n ns q r same x h)

set_formals-Extends :
    (ns : List ℕ) (ps : TipTypes) (s : UnionFindSolver)
    → IsValid s
    → size ps ≡ length ns
    → Post (λ s'. Extends s s' × RefinesAll ps (types_of s' ns)) IsTypeError (set_formals ns ps s)
unfolding set_formals Refines
set_formals-Extends [] no_types s v same = returns (Extends-refl s v, tt)
set_formals-Extends [] (types p ps) s v same = absurd (omega arith)
set_formals-Extends (n ∷ ns) no_types s v same = absurd (omega arith)
set_formals-Extends (n ∷ ns) (types p ps) s v same = set_type-Extends s v n p ⟫ λ s₁ (x, _, below).
    set_formals-Extends ns ps s₁ x.valid (omega arith) ▷ λ s' (y, rest).
    (Extends-trans x y, (Refines-trans p (type_of s₁ n) (type_of s' n) below (y.refines n), rest))

size-types_of : (s : UnionFindSolver) (ns : List ℕ) → size (types_of s ns) ≡ length ns
size-types_of s [] = refl
size-types_of s (n ∷ ns) = ap suc (size-types_of s ns)

ReturnHolds-refined :
    (m : UnionFindSolver) (o : Option ℕ) (t u : TipType)
    → Refines t u
    → ReturnHolds m o t
    → ReturnHolds m o u
ReturnHolds-refined m none t u h k = k
ReturnHolds-refined m (some n) t u h k = Refines-trans (type_of m n) t u k h

pub check_signature-Holds :
    (f : TipFunction) (t : Option TipType) (m s : UnionFindSolver)
    → Extends m s
    → Found m (returned_id f.body) t
    → Post (λ s'. Extends s s' × SignatureHolds m s' f) IsTypeError (check_signature f t s)
unfolding check_signature
check_signature-Holds f none m s x₀ found = throws (_, refl)
check_signature-Holds f (some t) m s x₀ found =
    let ns = f.formal_ids in
    node_types-Read ns s x₀.valid ⟫ λ p (x₁, below, _).
    let a = add_node-Extends p.1 x₁.valid f.id in
    set_type-Extends (add_node f.id p.1) a.valid f.id (fun p.0 t) ⟫ λ s₂ (x₂, _, new).
    get_type-Extends s₂ x₂.valid f.id ⟫ λ q (same, x₃, _).
    let reached : Refines (fun p.0 t) q.0 =
      subst (Refines (fun p.0 t)) same
        (Refines-trans (fun p.0 t) (type_of s₂ f.id) (type_of q.1 f.id) new (x₃.refines f.id)) in
    let (ps, u, e, params, result) = Refines-fun p.0 t q.0 reached in
    let cast : cast_params q.0 ≡ ps = ap cast_params e in
    let known = RefinesAll-trans (types_of s ns) p.0 ps below params in
    let arity = ap size cast ∙ sym (Refines-size (types_of s ns) ps known) ∙ size-types_of s ns in
    set_formals-Extends ns (cast_params q.0) q.1 x₃.valid arity ▷ λ s' (x₄, formals).
    let all = Extends-trans x₁ (Extends-trans a (Extends-trans x₂ x₃)) in
    (
      Extends-trans all x₄,
      (
        ps,
        u,
        subst (Refines (type_of m f.id)) (same ∙ e) ((Extends-trans x₀ all).refines f.id),
        RefinesAll-before m s x₀ ns ps known,
        ReturnHolds-refined m (returned_id f.body) t u result found,
        subst (λ t. Refines t (type_of s' f.id)) (same ∙ e) (x₄.refines f.id),
        subst (λ ts. RefinesAll ts (types_of s' ns)) cast formals,
      ),
    )
