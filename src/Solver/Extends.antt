-- ===== src/Solver/Extends.antt =====
-- The relation of a solver to what an operation makes of it: nodes stay, classes only join, and
-- types are only refined.
use tipc.Prelude.{
  ℕ, ℕ_eq, ◌≡◌, inl, inr, refl, sym, ◌∙◌, Bool, true, false, ◌||◌, ◌==◌, arith, Bool-cases,
  nat_eq_iff, if◌then◌else◌,
}
use tipc.Prelude.Result.{ok, Post, returns, ◌▷◌, good_of}
use tipc.Types.{TipType}
use tipc.Unify.{unify_types}
use tipc.Unify.Order.{Refines, Refines-refl, Refines-trans}
use tipc.Unify.Laws.{IsTypeError, unify_types-IsUpper}
use tipc.Solver.{UnionFindSolver, add_node, set_type, get_type, unify_nodes}
use tipc.Solver.View.{IsValid, Knows, root_of, type_of}
use tipc.Solver.AddNode.{add_node-Added}
use tipc.Solver.Laws.{
  Retyped, Joined, same_class, get_type-lem, set_type-Retyped, unify_nodes-Joined,
}

pub record Extends (s s' : UnionFindSolver) : Type 0 where
  pub valid : IsValid s'
  pub keeps : (m : ℕ) → Knows s m → Knows s' m
  pub joins : (m n : ℕ) → root_of s m ≡ root_of s n → root_of s' m ≡ root_of s' n
  pub refines : (m : ℕ) → Refines (type_of s m) (type_of s' m)

pub Extends-refl : (s : UnionFindSolver) → IsValid s → Extends s s
Extends-refl s v = record {
  valid = v;
  keeps = λ m k. k;
  joins = λ m n e. e;
  refines = λ m. Refines-refl (type_of s m);
}

pub Extends-trans : {s t u : UnionFindSolver} → Extends s t → Extends t u → Extends s u
Extends-trans {s} {t} {u} a b = record {
  valid = b.valid;
  keeps = λ m k. b.keeps m (a.keeps m k);
  joins = λ m n e. b.joins m n (a.joins m n e);
  refines =
      λ m. Refines-trans (type_of s m) (type_of t m) (type_of u m) (a.refines m) (b.refines m);
}

pub add_node-Extends : (s : UnionFindSolver) → IsValid s → (n : ℕ) → Extends s (add_node n s)
add_node-Extends s v n =
    let a = add_node-Added s v n in
    record {
      valid = a.valid;
      keeps = a.keeps;
      joins = λ m k e. a.agrees.roots m ∙ e ∙ sym (a.agrees.roots k);
      refines = λ m. rw (a.agrees.types m) (Refines-refl (type_of s m));
    }

upper_of : (s t u : TipType) → unify_types s t ≡ ok u → Refines s u × Refines t u
upper_of s t u e = good_of (rw e at (unify_types-IsUpper s t))

refines_if : (b : Bool) (t u : TipType) → (b ≡ true → Refines t u) → Refines t (if b then u else t)
refines_if true t u h = h refl
refines_if false t u h = Refines-refl t

-- After `setType n t` the type of `n` refines `t`.
abbrev pub SetTo : UnionFindSolver → ℕ → TipType → UnionFindSolver → Type 0
SetTo s n t s' = Extends s s' × Knows s' n × Refines t (type_of s' n)

Retyped-SetTo :
    (s : UnionFindSolver) (n : ℕ) (t u : TipType) (s' : UnionFindSolver)
    → unify_types (type_of s n) t ≡ ok u
    → Retyped s n u s'
    → SetTo s n t s'
Retyped-SetTo s n t u s' unified r =
    let (old, new) = upper_of (type_of s n) t u unified in
    let own : type_of s' n ≡ u = r.types n ∙ rw ((nat_eq_iff (root_of s n) (root_of s n)).1 refl) in
    (
      record {
        valid = r.valid;
        keeps = r.keeps;
        joins = λ m k e. r.roots m ∙ e ∙ sym (r.roots k);
        refines = λ m. rw (r.types m) (
            refines_if (root_of s m == root_of s n) (type_of s m) u
              λ same. rw (same_class s m n ((nat_eq_iff _ _).0 same)) old);
      },
      r.knows,
      rw own new,
    )

pub set_type-Extends :
    (s : UnionFindSolver)
    → IsValid s
    → (n : ℕ) (t : TipType) → Post (SetTo s n t) IsTypeError (set_type n t s)
set_type-Extends s v n t = set_type-Retyped s v n t ▷ λ s' (u, e, r). Retyped-SetTo s n t u s' e r

Joined-Extends :
    (s : UnionFindSolver) (x y : ℕ) (u : TipType) (s' : UnionFindSolver)
    → unify_types (type_of s x) (type_of s y) ≡ ok u
    → Joined s x y u s'
    → Extends s s'
Joined-Extends s x y u s' unified j =
    let (left, right) = upper_of (type_of s x) (type_of s y) u unified in
    record {
      valid = j.valid;
      keeps = j.keeps;
      joins = λ m n e. j.roots m ∙ (rw e) ∙ sym (j.roots n);
      refines = λ m. rw (j.types m) (
          refines_if (root_of s m == root_of s x || root_of s m == root_of s y) (type_of s m) u
            λ same. elim (Bool-cases (root_of s m == root_of s x)) [
              | inl at_x ↦ rw (same_class s m x ((nat_eq_iff _ _).0 at_x)) left
              | inr off ↦ rw (same_class s m y ((nat_eq_iff _ _).0 (rw off at same))) right
            ]);
    }

-- After `unifyNodes x y` the two nodes are in one class.
pub unify_nodes-Extends :
    (s : UnionFindSolver)
    → IsValid s
    → (x y : ℕ)
    → Post (λ s'. Extends s s' × (root_of s' x ≡ root_of s' y)) IsTypeError (unify_nodes x y s)
unify_nodes-Extends s v x y = unify_nodes-Joined s v x y ▷ λ s' (u, e, j).
    (Joined-Extends s x y u s' e j, j.roots x ∙ ground arith ∙ sym (j.roots y))

-- `getType` returns the type of the class.
pub get_type-Extends :
    (s : UnionFindSolver)
    → IsValid s
    → (n : ℕ)
    → Post (λ r. (type_of r.1 n ≡ r.0) × Extends s r.1 × Knows r.1 n) IsTypeError (get_type n s)
get_type-Extends s v n =
    let a = add_node-Added s v n in
    rw (get_type-lem s v n) (returns (a.agrees.types n, add_node-Extends s v n, a.knows))
