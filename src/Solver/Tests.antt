-- ===== src/Solver/Tests.antt =====
-- Runs of the solver, and its laws at concrete states.
use tipc.Prelude.{ℕ_eq, ◌≡◌, []}
use tipc.Prelude.Result.{ok, Post}
use tipc.Types.{TipType, int}
use tipc.Unify.{unify_types}
use tipc.Unify.Laws.{IsTypeError}
use tipc.Solver.{UnionFindSolver, add_node, find_root, set_type, get_type, unify_nodes}
use tipc.Solver.View.{IsValid, root_of, type_of}
use tipc.Solver.AddNode.{find_root-lem, add_node-Added}
use tipc.Solver.Laws.{Retyped, Joined, set_type-Retyped, unify_nodes-Joined, get_type-lem}

abbrev nothing : UnionFindSolver
nothing = record { node2root = []; node2type = [] }

nothing-IsValid : IsValid nothing
nothing-IsValid = record { rooted = λ n p l. cc; typed = λ n p l. cc; known = λ n t l. cc }

-- Nodes 1 and 2.
abbrev two_nodes : UnionFindSolver
two_nodes = add_node 2 (add_node 1 nothing)

two_nodes-IsValid : IsValid two_nodes
two_nodes-IsValid =
    (add_node-Added (add_node 1 nothing) (add_node-Added nothing nothing-IsValid 1).valid 2).valid

find_root-lem_example : find_root 1 two_nodes ≡ ok (root_of two_nodes 1, add_node 1 two_nodes)
find_root-lem_example = find_root-lem two_nodes two_nodes-IsValid 1

get_type-lem_example : get_type 1 two_nodes ≡ ok (type_of two_nodes 1, add_node 1 two_nodes)
get_type-lem_example = get_type-lem two_nodes two_nodes-IsValid 1

set_type-Retyped_example :
    Post
      (λ s'.
        (u : TipType) × (unify_types (type_of two_nodes 1) int ≡ ok u) × Retyped two_nodes 1 u s')
      IsTypeError
      (set_type 1 int two_nodes)
set_type-Retyped_example = set_type-Retyped two_nodes two_nodes-IsValid 1 int

unify_nodes-Joined_example :
    Post
      (λ s'.
        (u : TipType) × (unify_types (type_of two_nodes 1) (type_of two_nodes 2) ≡ ok u)
        × Joined two_nodes 1 2 u s')
      IsTypeError
      (unify_nodes 1 2 two_nodes)
unify_nodes-Joined_example = unify_nodes-Joined two_nodes two_nodes-IsValid 1 2
