-- ===== src/Ast/Undeclared.antt =====
-- `RefExpr::genId` looks its name up with `operator[]`.
use tipc.Prelude.{suc, refl, ◌≡◌, none, some, String, String_eq}
use tipc.Prelude.Dict.{lookup, insert, lookup-insert_self}
use tipc.Prelude.Result.{ok}
use tipc.Tree.{ref_expr}
use tipc.Ast.{GenState, gen_expr, resolve}

-- A reference to a name without a variable is accepted with the number 0, and from then on a
-- variable of that name, which would have been refused or been a function, has the number 0.
pub gen_expr-undeclared :
    (x : String) (s : GenState)
    → lookup x s.var2id ≡ none
    → (s' : GenState) × (gen_expr (ref_expr 0 x none) s
        ≡ ok (ref_expr s.ast_counter x (some 0), s'))
      × (resolve x s' ≡ ok (0, s'))
unfolding gen_expr resolve
gen_expr-undeclared x s new = (
  record { ast_counter = suc s.ast_counter; fun2id = s.fun2id; var2id = insert x 0 s.var2id },
  rw new refl,
  rw (lookup-insert_self x 0 s.var2id) refl,
)
