-- ===== src/Codegen/Statements.antt =====
-- `codegen` of statements (src/TIPtreeGen.cpp).
use tipc.Prelude.{ℕ, suc, String, String_eq, Bool, true, false, Option, none, some, List, [], ◌∷◌}
use tipc.Prelude.Int.{pos}
use tipc.Prelude.Dict.{insert}
use tipc.Prelude.Result.{ok}
use tipc.Prelude.State.{pure, ◌>>=◌, ◌>>◌}
use tipc.Llvm.{
  i64, Value, const_int, numbered, create_alloca, create_store, create_call, create_br,
  create_cond_br, create_icmp_ne_zero, insert_block, set_insert_point, create_ret, create_ret_void,
}
use tipc.Codegen.{
  Code, get, put, emit, emit_last, new_block, not_null, unless_null, new_function, gen_expr,
}
use tipc.Tree.{
  Expr, DeclStmt, Stmt, ElseStmt, Stmts, decl_stmt, block_stmt, assign_stmt, while_stmt, if_stmt,
  output_stmt, error_stmt, return_stmt, no_else, else_stmt, no_stmts, stmts,
}

abbrev pub bind_name : String → Value → Code (Unit {0})
bind_name x v s = ok (tt, record s { named_values = insert x (some v) s.named_values })

-- `Builder.GetInsertBlock()->getParent()`
abbrev pub parent_function : Code Value
parent_function s = not_null s.insert_function s

abbrev pub set_l_value : Bool → Code (Unit {0})
set_l_value b s = ok (tt, record s { l_value_gen = b })

abbrev pub call_nop : Code (Option Value)
call_nop = do s ← get; f ← not_null s.nop; emit_last (create_call f [])

-- The loop of `DeclStmt::codegen`; `local` is `localAlloca`.
unfoldable pub gen_vars : Value → List String → Option Value → Code (Option Value)
gen_vars f [] local = pure local
gen_vars f (x ∷ xs) local = do
  v ← emit (create_alloca f x)
  store ← emit (create_store (const_int (pos 0)) v)
  bind_name x v
  gen_vars f xs (some v)

unfoldable pub gen_decl : DeclStmt → Code (Option Value)
unfolding gen_vars
gen_decl d = do f ← parent_function; gen_vars f d.vars none

abbrev pub output_function : Option Value → Code Value
output_function (some f) = pure f
output_function none = do
  f ← new_function "_tip_output" ("" ∷ []) i64
  s ← get
  put (record s { output_intrinsic = some f.value })
  pure f.value

abbrev pub error_function : Option Value → Code Value
error_function (some f) = pure f
error_function none = do
  f ← new_function "_tip_error" ("" ∷ []) i64
  s ← get
  put (record s { error_intrinsic = some f.value })
  pure f.value

-- `lastStmt`, or a nop for a null pointer.
abbrev pub last_or_nop : Option Value → Code (Option Value)
last_or_nop none = call_nop
last_or_nop (some v) = pure (some v)

-- `Builder.CreateRet`, which returns nothing for a null pointer.
abbrev pub return_code : Option Value → Code (Option Value)
return_code none = emit_last create_ret_void
return_code (some v) = emit_last (create_ret v)

-- A label of the three blocks of a statement.
abbrev pub fresh_label : Code ℕ
fresh_label s = ok (suc s.label_num, record s { label_num = suc s.label_num })

abbrev pub reset_l_value : Option Value → Code (Option Value)
reset_l_value l_value = do set_l_value false; pure l_value

-- The left side of an assignment, with the flag for l-values.
unfoldable pub gen_target : Expr → Code (Option Value)
unfolding gen_expr
gen_target l = do set_l_value true; l_value ← gen_expr l; reset_l_value l_value

unfoldable mutual
  unfolding gen_expr gen_decl gen_target

  pub gen_stmt : Stmt → Code (Option Value)
  gen_stmt (decl_stmt d) = gen_decl d
  gen_stmt (assign_stmt i l r) = do
    l_value ← gen_target l
    unless_null l_value
        λ lv. do r_value ← gen_expr r; unless_null r_value λ rv. emit_last (create_store rv lv)
  gen_stmt (block_stmt i bs) = do last ← gen_block bs none; last_or_nop last
  gen_stmt (while_stmt i c b) = do
    f ← parent_function
    n ← fresh_label
    header ← new_block (numbered "header" n) (some f)
    body ← new_block (numbered "body" n) none
    exit ← new_block (numbered "exit" n) none
    to_header ← emit (create_br header)
    at_header ← emit (set_insert_point header)
    cond ← gen_expr c
    unless_null cond λ cond_v. do
      test ← emit (create_icmp_ne_zero cond_v)
      loop ← emit (create_cond_br test body exit)
      added_body ← emit (insert_block body f)
      at_body ← emit (set_insert_point body)
      body_v ← gen_stmt b
      unless_null body_v λ _. do
        back ← emit (create_br header)
        added_exit ← emit (insert_block exit f)
        at_exit ← emit (set_insert_point exit)
        call_nop
  gen_stmt (if_stmt i c b e) = do
    cond ← gen_expr c
    unless_null cond λ cond_v. do
      test ← emit (create_icmp_ne_zero cond_v)
      f ← parent_function
      n ← fresh_label
      then_bb ← new_block (numbered "then" n) (some f)
      else_bb ← new_block (numbered "else" n) none
      merge ← new_block (numbered "ifmerge" n) none
      split ← emit (create_cond_br test then_bb else_bb)
      at_then ← emit (set_insert_point then_bb)
      then_v ← gen_stmt b
      unless_null then_v λ _. do
        from_then ← emit (create_br merge)
        added_else ← emit (insert_block else_bb f)
        at_else ← emit (set_insert_point else_bb)
        else_v ← gen_else e
        unless_null else_v λ _. do
          from_else ← emit (create_br merge)
          added_merge ← emit (insert_block merge f)
          at_merge ← emit (set_insert_point merge)
          call_nop
  gen_stmt (output_stmt i e) = do
    s ← get
    f ← output_function s.output_intrinsic
    arg ← gen_expr e
    unless_null arg λ v. emit_last (create_call f (v ∷ []))
  gen_stmt (error_stmt i e) = do
    s ← get
    f ← error_function s.error_intrinsic
    arg ← gen_expr e
    unless_null arg λ v. emit_last (create_call f (v ∷ []))
  gen_stmt (return_stmt i e) = do arg ← gen_expr e; return_code arg

  -- The else branch of `IfStmt::codegen`, a nop if there is none.
  pub gen_else : ElseStmt → Code (Option Value)
  gen_else no_else = call_nop
  gen_else (else_stmt b) = gen_stmt b

  -- The loop of `BlockStmt::codegen`; `last` is `lastStmt`.
  pub gen_block : Stmts → Option Value → Code (Option Value)
  gen_block no_stmts last = pure last
  gen_block (stmts b bs) last = do next ← gen_stmt b; gen_block bs next
