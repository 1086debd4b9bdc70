-- ===== src/Solver/Update.antt =====
-- The two writes of the solver: a new type at a root, and a link from one root to another.
use tipc.Prelude.{
  ℕ, ℕ_eq, ◌≡◌, ◌≢◌, ◌⊎◌, inl, inr, refl, sym, ◌∙◌, none, some, ◌||◌, ◌==◌, arith, Option-cases,
  Bool-cases, nat_eq_iff, if◌then◌else◌,
}
use tipc.Prelude.Dict.{
  Dict, lookup, insert, lookup-insert_ne, lookup-insert_eq, lookup-insert_inv, lookup-insert_has,
}
use tipc.Types.{TipType}
use tipc.Solver.{UnionFindSolver}
use tipc.Solver.Roots.{RootIn, RootIn-link, links, links-link}
use tipc.Solver.View.{
  IsValid, Knows, root_of, type_of, type_or_alpha, place, root_of-RootIn, root_of-none,
}

entry-insert :
    (k r : ℕ) (u : TipType) (d : Dict ℕ TipType)
    → type_or_alpha (lookup k (insert r u d)) ≡ (if k == r then u else type_or_alpha (lookup k d))
entry-insert k r u d = elim (Bool-cases (k == r)) [
  | inl t ↦ rw t (rw (lookup-insert_eq k r u d (sym ((nat_eq_iff k r).0 t))))
  | inr f ↦ rw f (rw (lookup-insert_ne k r u d (λ e. ground (arith, nat_eq_iff k r))))
]

abbrev pub retyped : ℕ → TipType → UnionFindSolver → UnionFindSolver
retyped r u s = record s { node2type = insert r u s.node2type }

module _ (s : UnionFindSolver) (v : IsValid s) (r : ℕ) (u : TipType) where
  pub retyped-IsValid : Knows s r → IsValid (retyped r u s)
  retyped-IsValid k = record { rooted = v.rooted; typed = typed; known = known }
    where
      typed :
          (m p : ℕ)
          → lookup m s.node2root ≡ some p
          → (t : TipType) × (lookup m (insert r u s.node2type) ≡ some t)
      typed m p l = let (t, found) = v.typed m p l in lookup-insert_has m r u t s.node2type found

      known : (m : ℕ) (t : TipType) → lookup m (insert r u s.node2type) ≡ some t → Knows s m
      known m t l = elim (lookup-insert_inv m r u t s.node2type l) [
        | inl e ↦ rw (← e) k
        | inr (ne, old) ↦ v.known m t old
      ]

  pub retyped-roots : (m : ℕ) → root_of (retyped r u s) m ≡ root_of s m
  unfolding root_of
  retyped-roots m = refl

  pub retyped-types :
      (m : ℕ) → type_of (retyped r u s) m ≡ (if root_of s m == r then u else type_of s m)
  unfolding type_of
  retyped-types m = rw (retyped-roots m) (entry-insert (root_of s m) r u s.node2type)

abbrev pub linked : ℕ → ℕ → TipType → UnionFindSolver → UnionFindSolver
linked x y u s = record { node2root = insert x y s.node2root; node2type = insert y u s.node2type }

module _ (s : UnionFindSolver) (v : IsValid s) (x y : ℕ) (u : TipType) (apart : x ≢ y)
    (root_x : lookup x s.node2root ≡ some x) (root_y : lookup y s.node2root ≡ some y) where
  was_known : (m p : ℕ) → lookup m (insert x y s.node2root) ≡ some p → Knows s m
  was_known m p l = elim (lookup-insert_inv m x y p s.node2root l) [
    | inl e ↦ rw (← e) (x, root_x)
    | inr (ne, old) ↦ (p, old)
  ]

  rerooted :
      {r m : ℕ}
      → RootIn s.node2root r (links s.node2root) m
      → RootIn (insert x y s.node2root) (if r == x then y else r) (links (insert x y s.node2root)) m
  rerooted above =
      rw (links-link x y s.node2root root_x apart) (RootIn-link x y apart root_x root_y above)

  pub linked-IsValid : IsValid (linked x y u s)
  linked-IsValid = record { rooted = rooted; typed = typed; known = known }
    where
      rooted :
          (m p : ℕ)
          → lookup m (insert x y s.node2root) ≡ some p
          → (r : ℕ) × RootIn (insert x y s.node2root) r (links (insert x y s.node2root)) m
      rooted m p l =
          let (q, old) = was_known m p l in
          let (r, above) = v.rooted m q old in (if r == x then y else r, rerooted above)

      typed :
          (m p : ℕ)
          → lookup m (insert x y s.node2root) ≡ some p
          → (t : TipType) × (lookup m (insert y u s.node2type) ≡ some t)
      typed m p l =
          let (q, old) = was_known m p l in
          let (t, found) = v.typed m q old in lookup-insert_has m y u t s.node2type found

      known :
          (m : ℕ) (t : TipType)
          → lookup m (insert y u s.node2type) ≡ some t
          → (p : ℕ) × (lookup m (insert x y s.node2root) ≡ some p)
      known m t l = elim (lookup-insert_inv m y u t s.node2type l) [
        | inl e ↦ lookup-insert_has m x y y s.node2root (rw (← e) root_y)
        | inr (ne, old) ↦
            let (p, found) = v.known m t old in lookup-insert_has m x y p s.node2root found
      ]

  linked-roots_at :
      (m : ℕ)
      → (lookup m s.node2root ≡ none) ⊎ Knows s m
      → root_of (linked x y u s) m ≡ (if root_of s m == x then y else root_of s m)
  linked-roots_at m (inr k) = root_of-RootIn (linked x y u s) _ m (rerooted (place s v m k).path)
  linked-roots_at m (inl absent) =
      let ne : x ≢ m = λ e. cc in
      root_of-none (linked x y u s) m (rw (lookup-insert_ne m x y s.node2root ne) absent)
      ∙ rw (root_of-none s m absent) (ground (arith, nat_eq_iff m x))

  pub linked-roots :
      (m : ℕ) → root_of (linked x y u s) m ≡ (if root_of s m == x then y else root_of s m)
  linked-roots m = linked-roots_at m (Option-cases (lookup m s.node2root))

  pub linked-types :
      (m : ℕ)
      → type_of (linked x y u s) m
        ≡ (if root_of s m == x || root_of s m == y then u else type_of s m)
  unfolding type_of
  linked-types m = rw (linked-roots m) (
      rw (entry-insert (if root_of s m == x then y else root_of s m) y u s.node2type)
        (ground arith))
