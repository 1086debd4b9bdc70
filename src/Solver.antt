-- ===== src/Solver.antt =====
-- The class `UnionFindSolver` (src/UnionFindSolver.h and src/UnionFindSolver.cpp): a forest of
-- nodes, with a type at each root. A method takes the solver and returns it anew.
pub mod Roots
pub mod View
pub mod AddNode
pub mod Update
pub mod Laws
pub mod Extends
mod Tests
use tipc.Prelude.{
  ℕ, zero, suc, ◌+◌, ℕ_eq, Bool, true, false, Option, none, some, ◌==◌, length, if◌then◌else◌,
}
use tipc.Prelude.Dict.{Dict, lookup, insert}
use tipc.Prelude.Result.{undefined, out_of_fuel, Result, ok, err, ◌>>=◌}
use tipc.Types.{TipType, alpha}
use tipc.Unify.{unify_types}

pub record UnionFindSolver : Type 0 where
  pub node2root : Dict ℕ ℕ
  pub node2type : Dict ℕ TipType

abbrev pub is_some {ℓ} : {A : Type ℓ} → Option A → Bool
is_some none = false
is_some (some a) = true

unfoldable pub exist_node : ℕ → UnionFindSolver → Bool
exist_node n s = is_some (lookup n s.node2root)

-- `if (m.find(k) == m.end()) { m[k] = v; }`
abbrev pub insert_new {ℓ} : {V : Type ℓ} → ℕ → V → Dict ℕ V → Dict ℕ V
insert_new k v m = if is_some (lookup k m) then m else insert k v m

unfoldable pub add_node : ℕ → UnionFindSolver → UnionFindSolver
add_node n s = record {
  node2root = insert_new n n s.node2root;
  node2type = insert_new n alpha s.node2type;
}

-- `node2root[n]`, which inserts 0 under a key that is not there.
abbrev pub root_entry : ℕ → Dict ℕ ℕ → ℕ × Dict ℕ ℕ
root_entry n m = elim (lookup n m) [ none ↦ (0, insert n 0 m) | some r ↦ (r, m) ]

-- The loop of `findRoot`, with fuel.
unfoldable pub find_loop : ℕ → ℕ → Dict ℕ ℕ → Result (ℕ × Dict ℕ ℕ)
find_loop zero n m = err out_of_fuel
find_loop (suc fuel) n m =
    let (r, m') = root_entry n m in
    let rest = find_loop fuel r m' in if r == n then ok (n, m') else rest

-- A path to a root passes each entry at most once, so the number of entries is enough fuel.
unfoldable pub find_root : ℕ → UnionFindSolver → Result (ℕ × UnionFindSolver)
find_root n s = do
  let s' = add_node n s
  (r, m) ← find_loop (length s'.node2root + 1) n s'.node2root
  ok (r, record s' { node2root = m })

-- `node2type[n]` where it is read as a type: without an entry it is a null pointer.
abbrev pub type_entry : ℕ → UnionFindSolver → Result TipType
type_entry n s = elim (lookup n s.node2type) [ none ↦ err undefined | some t ↦ ok t ]

unfoldable pub unify_nodes : ℕ → ℕ → UnionFindSolver → Result UnionFindSolver
unify_nodes x y s = do
  let s₁ = add_node y (add_node x s)
  (root_x, s₂) ← find_root x s₁
  (root_y, s₃) ← find_root y s₂
  let joined = do
    type_x ← type_entry root_x s₃
    type_y ← type_entry root_y s₃
    unified_type ← unify_types type_x type_y
    ok (record {
      node2root = insert root_x root_y s₃.node2root;
      node2type = insert root_y unified_type s₃.node2type;
    })
  if root_x == root_y then ok s₃ else joined

unfoldable pub set_type : ℕ → TipType → UnionFindSolver → Result UnionFindSolver
set_type n t s = do
  (root, s') ← find_root n (add_node n s)
  old ← type_entry root s'
  unified_type ← unify_types old t
  ok (record s' { node2type = insert root unified_type s'.node2type })

unfoldable pub get_type : ℕ → UnionFindSolver → Result (TipType × UnionFindSolver)
get_type n s = do (root, s') ← find_root n (add_node n s); t ← type_entry root s'; ok (t, s')
