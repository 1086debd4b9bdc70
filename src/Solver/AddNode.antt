-- ===== src/Solver/AddNode.antt =====
-- `addNode` and `findRoot` (src/UnionFindSolver.cpp) against the view of the solver.
use tipc.Prelude.{
  ℕ, ◌+◌, ℕ_eq, ◌≡◌, ◌≢◌, ◌⊎◌, inl, inr, refl, sym, ◌∙◌, ap, none, some, ◌==◌, arith, length,
  Option-cases, Bool-cases, nat_eq_iff,
}
use tipc.Prelude.Dict.{
  lookup, insert, lookup-insert_self, lookup-insert_ne, lookup-insert_eq, lookup-insert_inv,
  lookup-insert_has,
}
use tipc.Prelude.Result.{ok}
use tipc.Types.{TipType, alpha}
use tipc.Solver.{UnionFindSolver, add_node, find_root}
use tipc.Solver.Roots.{
  RootIn, here, RootIn-insert_root, find_loop-RootIn, links, links-le, links-insert_root,
}
use tipc.Solver.View.{
  IsValid, Knows, root_of, type_of, type_or_alpha, place, no_type, root_of-RootIn, root_of-none,
}

-- The two states have the same classes, of the same types.
pub record Agrees (s s' : UnionFindSolver) : Type 0 where
  pub roots : (m : ℕ) → root_of s' m ≡ root_of s m
  pub types : (m : ℕ) → type_of s' m ≡ type_of s m

pub Agrees-refl : (s : UnionFindSolver) → Agrees s s
Agrees-refl s = record { roots = λ m. refl; types = λ m. refl }

pub Agrees-trans : {s t u : UnionFindSolver} → Agrees s t → Agrees t u → Agrees s u
Agrees-trans a b = record { roots = λ m. b.roots m ∙ a.roots m; types = λ m. b.types m ∙ a.types m }

module _ (s : UnionFindSolver) (v : IsValid s) (n : ℕ) where
  pub add_node-known : Knows s n → add_node n s ≡ s
  unfolding add_node
  add_node-known (p, l) = let (t, found) = v.typed n p l in rw (l, found)

  add_node-new :
      lookup n s.node2root ≡ none
      → add_node n s
        ≡ record { node2root = insert n n s.node2root; node2type = insert n alpha s.node2type }
  unfolding add_node
  add_node-new new = rw (new, no_type s v n new)

abbrev with_new : ℕ → UnionFindSolver → UnionFindSolver
with_new n s = record { node2root = insert n n s.node2root; node2type = insert n alpha s.node2type }

module _ (s : UnionFindSolver) (v : IsValid s) (n : ℕ) (new : lookup n s.node2root ≡ none) where
  moved :
      {r m : ℕ}
      → RootIn s.node2root r (links s.node2root) m
      → RootIn (insert n n s.node2root) r (links (insert n n s.node2root)) m
  moved above = rw (links-insert_root n s.node2root new) (RootIn-insert_root n new above)

  own : RootIn (insert n n s.node2root) n (links (insert n n s.node2root)) n
  own = here refl (lookup-insert_self n n s.node2root)

  with_new-IsValid : IsValid (with_new n s)
  with_new-IsValid = record { rooted = rooted; typed = typed; known = known }
    where
      rooted :
          (m p : ℕ)
          → lookup m (insert n n s.node2root) ≡ some p
          → (r : ℕ) × RootIn (insert n n s.node2root) r (links (insert n n s.node2root)) m
      rooted m p l = elim (lookup-insert_inv m n n p s.node2root l) [
        | inl e ↦ (n, here (sym e) (rw (← e) (lookup-insert_self n n s.node2root)))
        | inr (ne, old) ↦ let (r, above) = v.rooted m p old in (r, moved above)
      ]

      typed :
          (m p : ℕ)
          → lookup m (insert n n s.node2root) ≡ some p
          → (t : TipType) × (lookup m (insert n alpha s.node2type) ≡ some t)
      typed m p l = elim (lookup-insert_inv m n n p s.node2root l) [
        | inl e ↦ (alpha, lookup-insert_eq m n alpha s.node2type e)
        | inr (ne, old) ↦
            let (t, found) = v.typed m p old in lookup-insert_has m n alpha t s.node2type found
      ]

      known :
          (m : ℕ) (t : TipType)
          → lookup m (insert n alpha s.node2type) ≡ some t
          → (p : ℕ) × (lookup m (insert n n s.node2root) ≡ some p)
      known m t l = elim (lookup-insert_inv m n alpha t s.node2type l) [
        | inl e ↦ (n, lookup-insert_eq m n n s.node2root e)
        | inr (ne, old) ↦
            let (p, found) = v.known m t old in lookup-insert_has m n n p s.node2root found
      ]

  with_new-root_own : root_of (with_new n s) n ≡ n
  with_new-root_own =
      root_of-RootIn (with_new n s) n n (here refl (lookup-insert_self n n s.node2root))

  with_new-roots :
      (m : ℕ) → (lookup m s.node2root ≡ none) ⊎ Knows s m → root_of (with_new n s) m ≡ root_of s m
  with_new-roots m (inr k) =
      root_of-RootIn (with_new n s) (root_of s m) m (moved (place s v m k).path)
  with_new-roots m (inl absent) = elim (Bool-cases (n == m)) [
    | inl t ↦ rw (← (nat_eq_iff n m).0 t) (with_new-root_own ∙ sym (root_of-none s n new))
    | inr f ↦
        let ne : n ≢ m = λ e. ground (arith, nat_eq_iff n m) in
        root_of-none (with_new n s) m (rw (lookup-insert_ne m n n s.node2root ne) absent)
        ∙ sym (root_of-none s m absent)
  ]

  with_new-entries :
      (m : ℕ)
      → type_or_alpha (lookup m (insert n alpha s.node2type)) ≡ type_or_alpha (lookup m s.node2type)
  with_new-entries m = elim (Bool-cases (n == m)) [
    | inl t ↦
        rw (← (nat_eq_iff n m).0 t) (rw (lookup-insert_self n alpha s.node2type, no_type s v n new))
    | inr f ↦ rw (lookup-insert_ne m n alpha s.node2type (λ e. ground (arith, nat_eq_iff n m)))
  ]

  with_new-Agrees : Agrees s (with_new n s)
  unfolding type_of
  with_new-Agrees = record {
    roots = λ m. with_new-roots m (Option-cases (lookup m s.node2root));
    types = λ m.
        rw (with_new-roots m (Option-cases (lookup m s.node2root)))
          (with_new-entries (root_of s m));
  }

-- `addNode` on a valid solver: the invariant and the view stay, and the node is known.
pub record Added (s : UnionFindSolver) (n : ℕ) (s' : UnionFindSolver) : Type 0 where
  pub valid : IsValid s'
  pub agrees : Agrees s s'
  pub knows : Knows s' n
  pub keeps : (m : ℕ) → Knows s m → Knows s' m

pub add_node-Added : (s : UnionFindSolver) → IsValid s → (n : ℕ) → Added s n (add_node n s)
add_node-Added s v n = elim (Option-cases (lookup n s.node2root)) [
  | inl new ↦ rw (add_node-new s v n new) (record {
    valid = with_new-IsValid s v n new;
    agrees = with_new-Agrees s v n new;
    knows = (n, lookup-insert_self n n s.node2root);
    keeps = λ m (p, l). lookup-insert_has m n n p s.node2root l;
  })
  | inr k ↦
      rw (add_node-known s v n k)
        (record { valid = v; agrees = Agrees-refl s; knows = k; keeps = λ m h. h })
]

-- `findRoot` on a valid solver stops within its fuel, at the root of the node's class, and does
-- nothing but add the node.
pub find_root-lem :
    (s : UnionFindSolver) → IsValid s → (n : ℕ) → find_root n s ≡ ok (root_of s n, add_node n s)
unfolding find_root
find_root-lem s v n =
    let s' = add_node n s in
    let a = add_node-Added s v n in
    let below = (place s' a.valid n a.knows).path in
    let loop =
      find_loop-RootIn (length s'.node2root + 1) below (omega (arith, links-le s'.node2root)) in
    rw loop (ap (λ r. ok (r, add_node n s)) (a.agrees.roots n))
