-- ===== src/Solver/Laws.antt =====
-- The methods `setType`, `getType` and `unifyNodes` against the abstract view of the solver.
use tipc.Prelude.{
  ℕ, ℕ_eq, ◌≡◌, ◌≢◌, refl, sym, ◌∙◌, ap, ◌||◌, ◌==◌, arith, nat_eq_iff, if◌then◌else◌,
}
use mathlib.Core.Bool.{false≢true}
use tipc.Prelude.Dict.{lookup-insert_has}
use tipc.Prelude.Result.{Result, ok, Post, returns, throws, ◌⟫◌, ◌>>=◌, Post-if}
use tipc.Types.{TipType}
use tipc.Unify.{unify_types}
use tipc.Unify.Laws.{IsTypeError, unify_types-IsUpper, unify_types_self}
use tipc.Solver.{UnionFindSolver, add_node, find_root, set_type, get_type, unify_nodes, type_entry}
use tipc.Solver.Roots.{RootIn-lookup}
use tipc.Solver.View.{IsValid, Knows, root_of, type_of, place}
use tipc.Solver.AddNode.{Agrees, Agrees-trans, add_node-Added, add_node-known, find_root-lem}
use tipc.Solver.Update.{
  retyped, retyped-IsValid, retyped-roots, retyped-types, linked, linked-IsValid, linked-roots,
  linked-types,
}

-- A found error, or the value with the equation that computed it.
keep_eq :
    {A : Type 0} {P : A → Type 0} (r : Result A)
    → Post P IsTypeError r
    → Post (λ a. r ≡ ok a) IsTypeError r
keep_eq r (returns h) = returns refl
keep_eq r (throws h) = throws h

unify_eq : (s t : TipType) → Post (λ u. unify_types s t ≡ ok u) IsTypeError (unify_types s t)
unify_eq s t = keep_eq (unify_types s t) (unify_types-IsUpper s t)

module _ (s : UnionFindSolver) (v : IsValid s) (n : ℕ) where
  find_root-known : Knows s n → find_root n s ≡ ok (root_of s n, s)
  find_root-known k = find_root-lem s v n ∙ ap (λ s'. ok (root_of s n, s')) (add_node-known s v n k)

  type_entry-known : Knows s n → type_entry (root_of s n) s ≡ ok (type_of s n)
  type_entry-known k = rw ((place s v n k).entry, type_entry)

-- What `setType` does: the class of `n`, and no other, has the type `u`; no class changes.
pub record Retyped (s : UnionFindSolver) (n : ℕ) (u : TipType) (s' : UnionFindSolver) : Type 0 where
  pub valid : IsValid s'
  pub roots : (m : ℕ) → root_of s' m ≡ root_of s m
  pub types : (m : ℕ) → type_of s' m ≡ (if root_of s m == root_of s n then u else type_of s m)
  pub keeps : (m : ℕ) → Knows s m → Knows s' m
  pub knows : Knows s' n

module _ (s : UnionFindSolver) (v : IsValid s) (n : ℕ) where
  -- On a valid solver `getType` returns the type of the node's class and only adds the node.
  pub get_type-lem : get_type n s ≡ ok (type_of s n, add_node n s)
  unfolding get_type
  get_type-lem =
      let a = add_node-Added s v n in
      rw (find_root-known (add_node n s) a.valid n a.knows) (
        rw (type_entry-known (add_node n s) a.valid n a.knows)
          (ap (λ t. ok (t, add_node n s)) (a.agrees.types n)))

  set_type-eq :
      (t : TipType)
      → set_type n t s
        ≡ (unify_types (type_of s n) t >>= λ u. ok (retyped (root_of s n) u (add_node n s)))
  unfolding set_type
  set_type-eq t =
      let a = add_node-Added s v n in
      rw (find_root-known (add_node n s) a.valid n a.knows) (
        rw (type_entry-known (add_node n s) a.valid n a.knows)
          (rw (a.agrees.types n, a.agrees.roots n)))

  retyped-Retyped : (u : TipType) → Retyped s n u (retyped (root_of s n) u (add_node n s))
  retyped-Retyped u =
      let a = add_node-Added s v n in
      let s₁ = add_node n s in
      let root_known : Knows s₁ (root_of s n) =
        rw (← a.agrees.roots n) (_, RootIn-lookup (place s₁ a.valid n a.knows).path) in
      record {
        valid = retyped-IsValid s₁ a.valid (root_of s n) u root_known;
        roots = λ m. retyped-roots s₁ a.valid (root_of s n) u m ∙ a.agrees.roots m;
        types = λ m.
            retyped-types s₁ a.valid (root_of s n) u m ∙ rw (a.agrees.roots m, a.agrees.types m);
        keeps = a.keeps;
        knows = a.knows;
      }

  -- `setType` on a valid solver unifies the type of the node's class with the given type and
  -- stores the result for that class alone, or throws a TIPTypeError.
  pub set_type-Retyped :
      (t : TipType)
      → Post
          (λ s'. (u : TipType) × (unify_types (type_of s n) t ≡ ok u) × Retyped s n u s')
          IsTypeError
          (set_type n t s)
  set_type-Retyped t =
      rw (set_type-eq t) (unify_eq (type_of s n) t ⟫ λ u e. returns (u, e, retyped-Retyped u))

-- What `unifyNodes` does: the class of `x` joins that of `y`, and the joint class has the type `u`.
pub record Joined (s : UnionFindSolver) (x y : ℕ) (u : TipType) (s' : UnionFindSolver)
    : Type 0 where
  pub valid : IsValid s'
  pub roots :
      (m : ℕ) → root_of s' m ≡ (if root_of s m == root_of s x then root_of s y else root_of s m)
  pub types :
      (m : ℕ)
      → type_of s' m
        ≡ (if root_of s m == root_of s x || root_of s m == root_of s y then u else type_of s m)
  pub keeps : (m : ℕ) → Knows s m → Knows s' m
  pub knows_x : Knows s' x
  pub knows_y : Knows s' y

-- Nodes of one class have one type.
pub same_class :
    (s : UnionFindSolver) (m n : ℕ) → root_of s m ≡ root_of s n → type_of s m ≡ type_of s n
unfolding type_of
same_class s m n e = rw e

-- `unifyNodes` once both nodes are known.
module _ (s : UnionFindSolver) (v : IsValid s) (x y : ℕ) (known_x : Knows s x)
    (known_y : Knows s y) where
  kept-Joined : root_of s x ≡ root_of s y → Joined s x y (type_of s x) s
  kept-Joined e = record {
    valid = v;
    roots = λ m. ground arith;
    types = λ m. ground (arith, same_class s m x, same_class s m y, same_class s x y);
    keeps = λ m k. k;
    knows_x = known_x;
    knows_y = known_y;
  }

  linked-Joined :
      (u : TipType)
      → root_of s x ≢ root_of s y
      → Joined s x y u (linked (root_of s x) (root_of s y) u s)
  linked-Joined u apart =
      let root_x = RootIn-lookup (place s v x known_x).path in
      let root_y = RootIn-lookup (place s v y known_y).path in
      record {
        valid = linked-IsValid s v _ _ u apart root_x root_y;
        roots = linked-roots s v _ _ u apart root_x root_y;
        types = linked-types s v _ _ u apart root_x root_y;
        keeps = λ m (p, l). lookup-insert_has m _ _ p s.node2root l;
        knows_x = lookup-insert_has x _ _ known_x.0 s.node2root known_x.1;
        knows_y = lookup-insert_has y _ _ known_y.0 s.node2root known_y.1;
      }

Joined-Agrees :
    {s s₁ s' : UnionFindSolver} {x y : ℕ} {u : TipType}
    → Agrees s s₁
    → ((m : ℕ) → Knows s m → Knows s₁ m)
    → Joined s₁ x y u s'
    → Joined s x y u s'
Joined-Agrees {x} {y} a keeps j = record {
  valid = j.valid;
  roots = λ m. j.roots m ∙ rw (a.roots m, a.roots x, a.roots y);
  types = λ m. j.types m ∙ rw (a.roots m, a.roots x, a.roots y, a.types m);
  keeps = λ m k. j.keeps m (keeps m k);
  knows_x = j.knows_x;
  knows_y = j.knows_y;
}

-- `unifyNodes` on a valid solver joins the two classes under the unified type, or throws a
-- TIPTypeError. Nodes of one class already stay as they are.
pub unify_nodes-Joined :
    (s : UnionFindSolver)
    → IsValid s
    → (x y : ℕ)
    → Post
        (λ s'. (u : TipType) × (unify_types (type_of s x) (type_of s y) ≡ ok u) × Joined s x y u s')
        IsTypeError
        (unify_nodes x y s)
unfolding unify_nodes
unify_nodes-Joined s v x y =
    let a = add_node-Added s v x in
    let b = add_node-Added (add_node x s) a.valid y in
    let s₁ = add_node y (add_node x s) in
    let agrees = Agrees-trans a.agrees b.agrees in
    let known_x = b.keeps x a.knows in
    let back = λ (u : TipType) (s' : UnionFindSolver) (j : Joined s₁ x y u s').
      Joined-Agrees agrees (λ m k. b.keeps m (a.keeps m k)) j in
    rw (← agrees.types x, ← agrees.types y)
      (rw (find_root-known s₁ b.valid x known_x) (
        rw (find_root-known s₁ b.valid y b.knows) (
          Post-if (root_of s₁ x == root_of s₁ y)
            (λ e.
              let same = (nat_eq_iff _ _).0 e in
              returns (
                type_of s₁ x,
                rw (← same_class s₁ x y same) (unify_types_self (type_of s₁ x)),
                back _ _ (kept-Joined s₁ b.valid x y known_x b.knows same),
              ))
            (λ e. rw (type_entry-known s₁ b.valid x known_x) (
              rw (type_entry-known s₁ b.valid y b.knows) (
                unify_eq (type_of s₁ x) (type_of s₁ y) ⟫ λ u unified. returns (
                  u,
                  unified,
                  back _ _ (
                      linked-Joined s₁ b.valid x y known_x b.knows u
                        (λ same. false≢true (sym e ∙ (nat_eq_iff _ _).1 same))),
                )))))))
