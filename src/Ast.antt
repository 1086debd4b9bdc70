-- ===== src/Ast.antt =====
-- `genId` (src/TIPast.cpp), which writes a number into each node.
pub mod Erase
pub mod Numbering
pub mod Reached
pub mod ExprNumbering
pub mod StmtNumbering
pub mod FunctionNumbering
pub mod Scope
pub mod Resolves
pub mod FunctionScope
pub mod Undeclared
mod Tests
use tipc.Prelude.{
  ℕ, suc, ℕ_eq, String, String_eq, Bool, true, false, ◌||◌, Option, none, some, List, [], ◌∷◌, ◌++◌,
  ◌==◌, codes, if◌then◌else◌,
}
use tipc.Prelude.Dict.{Dict, lookup, insert}
use tipc.Prelude.Result.{ok, err, type_error}
use tipc.Prelude.State.{Run, pure, ◌>>=◌, ◌>>◌}
use tipc.Tree.{
  Expr, Exprs, FieldExpr, FieldExprs, number_expr, variable_expr, binary_expr, fun_app_expr,
  input_expr, alloc_expr, ref_expr, de_ref_expr, null_expr, field_expr, record_expr, access_expr,
  no_exprs, exprs, field, no_fields, fields, DeclStmt, Stmt, ElseStmt, Stmts, decl_stmt, block_stmt,
  assign_stmt, while_stmt, if_stmt, output_stmt, error_stmt, return_stmt, no_else, else_stmt,
  no_stmts, stmts, TipFunction, Program,
}

-- The three globals of the file.
pub record GenState : Type 0 where
  pub ast_counter : ℕ
  pub fun2id : Dict String ℕ
  pub var2id : Dict String ℕ

abbrev pub Gen : Type 0 → Type 0
Gen A = Run GenState A

-- `if (this->id) { return; }`
abbrev pub unless_set : {A : Type 0} → ℕ → A → Gen A → Gen A
unless_set i a m s = if i == 0 then m s else ok (a, s)

-- `ast_counter++`
abbrev pub next_id : Gen ℕ
next_id s = ok (s.ast_counter, record s { ast_counter = suc s.ast_counter })

-- `var2id[x] = n`
abbrev pub set_var : String → ℕ → Gen (Unit {0})
set_var x n s = ok (tt, record s { var2id = insert x n s.var2id })

abbrev pub set_fun : String → ℕ → Gen (Unit {0})
set_fun f n s = ok (tt, record s { fun2id = insert f n s.fun2id })

-- `var2id[x]`, which inserts 0 under a name that is not there.
abbrev pub entry_of : Option ℕ → String → Gen ℕ
entry_of none x s = ok (0, record s { var2id = insert x 0 s.var2id })
entry_of (some n) x s = ok (n, s)

abbrev pub var_entry : String → Gen ℕ
var_entry x s = entry_of (lookup x s.var2id) x s

-- The id of a variable: of the variable of that name, else of the function, else a TIPTypeError.
abbrev pub found_fun : Option ℕ → String → Gen ℕ
found_fun none x s = err (type_error (codes "Undefined variable reference: " ++ codes x))
found_fun (some n) x s = ok (n, s)

abbrev pub found_var : Option ℕ → String → Gen ℕ
found_var none x s = found_fun (lookup x s.fun2id) x s
found_var (some n) x s = ok (n, s)

unfoldable pub resolve : String → Gen ℕ
resolve x s = found_var (lookup x s.var2id) x s

unfoldable mutual
  unfolding resolve

  pub gen_expr : Expr → Gen Expr
  gen_expr (number_expr i v) = unless_set i (number_expr i v) do n ← next_id; pure (number_expr n v)
  gen_expr (variable_expr i x) =
      unless_set i (variable_expr i x) do n ← resolve x; pure (variable_expr n x)
  gen_expr (binary_expr i op l r) =
      unless_set i (binary_expr i op l r)
        do n ← next_id; l' ← gen_expr l; r' ← gen_expr r; pure (binary_expr n op l' r')
  gen_expr (fun_app_expr i f es) =
      unless_set i (fun_app_expr i f es)
        do n ← next_id; es' ← gen_exprs es; f' ← gen_expr f; pure (fun_app_expr n f' es')
  gen_expr (input_expr i) = unless_set i (input_expr i) do n ← next_id; pure (input_expr n)
  gen_expr (alloc_expr i e) =
      unless_set i (alloc_expr i e) do n ← next_id; e' ← gen_expr e; pure (alloc_expr n e')
  gen_expr (ref_expr i x r) =
      unless_set i (ref_expr i x r) do n ← next_id; r' ← var_entry x; pure (ref_expr n x (some r'))
  gen_expr (de_ref_expr i e) =
      unless_set i (de_ref_expr i e) do n ← next_id; e' ← gen_expr e; pure (de_ref_expr n e')
  gen_expr (null_expr i) = unless_set i (null_expr i) do n ← next_id; pure (null_expr n)
  gen_expr (field_expr (field i f e)) =
      unless_set i (field_expr (field i f e)) do n ← next_id; pure (field_expr (field n f e))
  gen_expr (record_expr i fs) =
      unless_set i (record_expr i fs) do n ← next_id; pure (record_expr n fs)
  gen_expr (access_expr i e f) =
      unless_set i (access_expr i e f) do n ← next_id; pure (access_expr n e f)

  -- The loop over the actual parameters.
  pub gen_exprs : Exprs → Gen Exprs
  gen_exprs no_exprs = pure no_exprs
  gen_exprs (exprs e es) = do e' ← gen_expr e; es' ← gen_exprs es; pure (exprs e' es')

-- The loops over names: each name gets a new number, which is also pushed to the id vector.
unfoldable pub gen_names : List String → List ℕ → Gen (List ℕ)
gen_names [] ids = pure ids
gen_names (x ∷ xs) ids = do n ← next_id; set_var x n; gen_names xs (ids ++ n ∷ [])

unfoldable pub gen_decl : DeclStmt → Gen DeclStmt
unfolding gen_names
gen_decl d =
    unless_set d.id d
      do n ← next_id; ids ← gen_names d.vars d.var_ids; pure (record d { id = n; var_ids = ids })

unfoldable mutual
  unfolding gen_expr gen_decl

  pub gen_stmt : Stmt → Gen Stmt
  gen_stmt (decl_stmt d) = do d' ← gen_decl d; pure (decl_stmt d')
  gen_stmt (block_stmt i ss) =
      unless_set i (block_stmt i ss) do n ← next_id; ss' ← gen_stmts ss; pure (block_stmt n ss')
  gen_stmt (assign_stmt i l r) =
      unless_set i (assign_stmt i l r)
        do n ← next_id; l' ← gen_expr l; r' ← gen_expr r; pure (assign_stmt n l' r')
  gen_stmt (while_stmt i c s) =
      unless_set i (while_stmt i c s)
        do n ← next_id; c' ← gen_expr c; s' ← gen_stmt s; pure (while_stmt n c' s')
  gen_stmt (if_stmt i c s e) =
      unless_set i (if_stmt i c s e)
        do n ← next_id; c' ← gen_expr c; s' ← gen_stmt s; e' ← gen_else e; pure (if_stmt n c' s' e')
  gen_stmt (output_stmt i e) =
      unless_set i (output_stmt i e) do n ← next_id; e' ← gen_expr e; pure (output_stmt n e')
  gen_stmt (error_stmt i e) =
      unless_set i (error_stmt i e) do n ← next_id; e' ← gen_expr e; pure (error_stmt n e')
  gen_stmt (return_stmt i e) =
      unless_set i (return_stmt i e) do n ← next_id; e' ← gen_expr e; pure (return_stmt n e')

  pub gen_else : ElseStmt → Gen ElseStmt
  gen_else no_else = pure no_else
  gen_else (else_stmt s) = do s' ← gen_stmt s; pure (else_stmt s')

  pub gen_stmts : Stmts → Gen Stmts
  gen_stmts no_stmts = pure no_stmts
  gen_stmts (stmts s ss) = do s' ← gen_stmt s; ss' ← gen_stmts ss; pure (stmts s' ss')

unfoldable pub gen_decls : List DeclStmt → Gen (List DeclStmt)
unfolding gen_decl
gen_decls [] = pure []
gen_decls (d ∷ ds) = do d' ← gen_decl d; ds' ← gen_decls ds; pure (d' ∷ ds')

-- The id of a function: the one that the program has put down for its name, else a new one.
abbrev pub found_name : Option ℕ → String → Gen ℕ
found_name none f = do n ← next_id; set_fun f n; pure n
found_name (some n) f = pure n

unfoldable pub function_id : String → Gen ℕ
function_id f s = found_name (lookup f s.fun2id) f s

abbrev pub clear_vars : Gen (Unit {0})
clear_vars s = ok (tt, record s { var2id = [] })

unfoldable pub gen_function : TipFunction → Gen TipFunction
unfolding function_id gen_names gen_decls gen_stmt
gen_function f = unless_set f.id f do
  n ← function_id f.name
  clear_vars
  ids ← gen_names f.formals f.formal_ids
  decls' ← gen_decls f.decls
  body' ← gen_stmts f.body
  pure (record f { id = n; formal_ids = ids; decls = decls'; body = body' })

unfoldable pub gen_functions : List TipFunction → Gen (List TipFunction)
unfolding gen_function
gen_functions [] = pure []
gen_functions (f ∷ fs) = do f' ← gen_function f; fs' ← gen_functions fs; pure (f' ∷ fs')

-- The first loop of `Program::genId`: a number for each function, and whether one is `main`.
unfoldable pub number_functions : List TipFunction → Bool → Gen Bool
number_functions [] has_main = pure has_main
number_functions (f ∷ fs) has_main = do
  n ← next_id
  set_fun f.name n
  number_functions fs (has_main || f.name == "main")

abbrev pub require_main : Bool → Gen (Unit {0})
require_main has_main s =
    if has_main then ok (tt, s) else err (type_error (codes "No main function defined"))

unfoldable pub gen_program : Program → Gen Program
unfolding number_functions gen_functions
gen_program p = unless_set p.id p do
  n ← next_id
  has_main ← number_functions p.functions false
  require_main has_main
  fs ← gen_functions p.functions
  pure (record { id = n; functions = fs })

-- The globals before the first call.
abbrev pub start : GenState
start = record { ast_counter = 1; fun2id = []; var2id = [] }
