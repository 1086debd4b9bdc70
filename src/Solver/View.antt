-- ===== src/Solver/View.antt =====
-- The invariant of the solver, and the abstract view of its state: for each node the root of its
-- class and the type of the class. A node that was never seen is alone in its class, of type `alpha`.
use tipc.Prelude.{
  ℕ, zero, suc, ◌≤◌, ℕ_eq, ◌≡◌, inl, inr, refl, Option, none, some, arith, length, Option-cases,
}
use tipc.Prelude.Dict.{Dict, lookup}
use tipc.Types.{TipType, alpha}
use tipc.Solver.{UnionFindSolver}
use tipc.Solver.Roots.{RootIn, here, up, RootIn-lookup, links, links-le}

abbrev pub Knows : UnionFindSolver → ℕ → Type 0
Knows s n = (p : ℕ) × (lookup n s.node2root ≡ some p)

-- Every entry leads to a root, in no more steps than there are entries below a root, and the
-- nodes with a root are those with a type.
pub record IsValid (s : UnionFindSolver) : Type 0 where
  pub rooted :
      (n p : ℕ)
      → lookup n s.node2root ≡ some p
      → (r : ℕ) × RootIn s.node2root r (links s.node2root) n
  pub typed :
      (n p : ℕ) → lookup n s.node2root ≡ some p → (t : TipType) × (lookup n s.node2type ≡ some t)
  pub known : (n : ℕ) (t : TipType) → lookup n s.node2type ≡ some t → Knows s n

pub climb : ℕ → ℕ → Dict ℕ ℕ → ℕ
climb zero n m = n
climb (suc k) n m = elim (lookup n m) [ none ↦ n | some p ↦ climb k p m ]

unfoldable pub root_of : UnionFindSolver → ℕ → ℕ
unfolding climb
root_of s n = climb (length s.node2root) n s.node2root

abbrev pub type_or_alpha : Option TipType → TipType
type_or_alpha none = alpha
type_or_alpha (some t) = t

unfoldable pub type_of : UnionFindSolver → ℕ → TipType
type_of s n = type_or_alpha (lookup (root_of s n) s.node2type)

climb-RootIn :
    {m : Dict ℕ ℕ} {r k n : ℕ} (fuel : ℕ) → RootIn m r k n → k ≤ fuel → climb fuel n m ≡ r
unfolding climb
climb-RootIn zero (here e l) le = e
climb-RootIn zero (up l ne above) le = absurd (omega arith)
climb-RootIn (suc f) (here e l) le = rw (l, climb) (climb-RootIn f (here {k = 0} e l) (omega arith))
climb-RootIn (suc f) (up l ne above) le = rw (l, climb) (climb-RootIn f above (omega arith))

climb-none : (fuel n : ℕ) (m : Dict ℕ ℕ) → lookup n m ≡ none → climb fuel n m ≡ n
unfolding climb
climb-none zero n m e = refl
climb-none (suc f) n m e = rw (e, climb)

pub root_of-RootIn :
    (s : UnionFindSolver) (r n : ℕ) → RootIn s.node2root r (links s.node2root) n → root_of s n ≡ r
unfolding root_of
root_of-RootIn s r n above = climb-RootIn _ above (links-le s.node2root)

pub root_of-none : (s : UnionFindSolver) (n : ℕ) → lookup n s.node2root ≡ none → root_of s n ≡ n
unfolding root_of
root_of-none s n e = climb-none _ n s.node2root e

-- In a valid solver a node is new, and its own root, or lies below a root that has a type.
pub record Placed (s : UnionFindSolver) (n : ℕ) : Type 0 where
  pub path : RootIn s.node2root (root_of s n) (links s.node2root) n
  pub entry : lookup (root_of s n) s.node2type ≡ some (type_of s n)

module _ (s : UnionFindSolver) (v : IsValid s) where
  pub place : (n : ℕ) → Knows s n → Placed s n
  unfolding type_of
  place n (p, l) =
      let (r, above) = v.rooted n p l in
      let e : root_of s n ≡ r = root_of-RootIn s r n above in
      let (t, found) = v.typed r r (RootIn-lookup above) in
      record { path = rw e above; entry = rw e (rw found) }

  pub no_type : (n : ℕ) → lookup n s.node2root ≡ none → lookup n s.node2type ≡ none
  no_type n new = elim (Option-cases (lookup n s.node2type)) [
    | inl e ↦ e
    | inr (t, e) ↦ let (p, l) = v.known n t e in cc
  ]

  pub type_of-none : (n : ℕ) → lookup n s.node2root ≡ none → type_of s n ≡ alpha
  unfolding type_of
  type_of-none n new = rw (root_of-none s n new) (rw (no_type n new))
