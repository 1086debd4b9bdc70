-- ===== src/Meaning/Evaluate.antt =====
-- What the expressions of TIP and its simple statements mean, over the operations of a machine: the
-- specification of their `codegen` (src/TIPtreeGen.cpp).
use tipc.Prelude.{ℕ, ◌≡◌, String, Option, none, some, List, [], ◌∷◌}
use tipc.Prelude.Int.{pos}
use tipc.Llvm.{Ty, BinaryOp}
use tipc.Tree.{
  Stmts, block_stmt, decl_stmt, while_stmt, if_stmt, return_stmt, no_stmts, stmts, Expr, Exprs,
  number_expr, variable_expr, binary_expr, fun_app_expr, input_expr, alloc_expr, ref_expr,
  de_ref_expr, null_expr, field_expr, record_expr, access_expr, no_exprs, exprs, Stmt, assign_stmt,
  output_stmt, error_stmt,
}
use tipc.Codegen.{operator_of}
use tipc.Meaning.{Machine, Steps, partial, done, stored, ◌>>=◌}

-- The address of each variable, by name, the index of each function, and the function at an index.
pub record Scope (M : Machine) : Type 0 where
  pub location : String → Option M.Word
  pub index : String → Option ℕ
  pub entry : M.Word → Option M.Word

module _ (M : Machine) (scope : Scope M) where
  -- A variable that is known, else a function, whose value is its index.
  abbrev pub index_value : Option ℕ → Option M.Word
  index_value none = none
  index_value (some i) = some (M.const (pos i))

  abbrev pub variable_value : Option M.Word → Option ℕ → Steps M.Memory M.Word
  variable_value (some a) i m = partial (M.load m a) m
  variable_value none i m = partial (index_value i) m

  abbrev pub address_value : Option M.Word → Option M.Word
  address_value none = none
  address_value (some a) = some (M.ptr_to_int a)

  abbrev pub operation : Option BinaryOp → M.Word → M.Word → Option M.Word
  operation none x y = none
  operation (some o) x y = M.operate o x y

  -- A word in a new cell of eight bytes, which the function `malloc` gives.
  abbrev pub new_cell : M.Word → M.Word → Steps M.Memory M.Word
  new_cell malloc w = do
    p ← M.call malloc (M.const (pos 8) ∷ [])
    written ← λ m. stored M (M.store m p w)
    done (M.ptr_to_int p)

  abbrev pub at_address : M.Word → Steps M.Memory M.Word
  at_address w m = partial (M.load m (M.int_to_ptr w)) m

  unfoldable mutual
    unfolding operator_of

    pub eval : Expr → Steps M.Memory M.Word
    eval (number_expr i n) = done (M.const n)
    eval (variable_expr i x) = variable_value (scope.location x) (scope.index x)
    eval (binary_expr i op l r) = do
      x ← eval l
      y ← eval r
      partial (operation (operator_of op) x y)
    eval (fun_app_expr i f es) = do
      w ← eval f
      g ← partial (scope.entry w)
      ws ← eval_args es
      M.call g ws
    eval (input_expr i) = M.call (M.symbol "_tip_input") []
    eval (alloc_expr i e) = do w ← eval e; new_cell (M.symbol "malloc") w
    eval (ref_expr i x r) = partial (address_value (scope.location x))
    eval (de_ref_expr i e) = do w ← eval e; at_address w
    eval (null_expr i) = done (M.ptr_to_int M.null)
    eval (field_expr f) = partial none
    eval (record_expr i fs) = partial none
    eval (access_expr i e f) = partial none

    pub eval_args : Exprs → Steps M.Memory (List M.Word)
    eval_args no_exprs = done []
    eval_args (exprs e es) = do w ← eval e; ws ← eval_args es; done (w ∷ ws)

  -- Assignments, outputs and errors, and blocks of them.
  abbrev pub target_address : Expr → Steps M.Memory M.Word
  target_address (variable_expr i x) = partial (scope.location x)
  target_address (de_ref_expr i e) = do w ← eval e; done (M.int_to_ptr w)
  target_address _ = partial none

  abbrev pub assign : M.Word → M.Word → Steps M.Memory (Unit {0})
  assign a w = do written ← λ m. stored M (M.store m a w); done tt

  abbrev pub call_runtime : String → M.Word → Steps M.Memory (Unit {0})
  call_runtime f w = do returned ← M.call (M.symbol f) (w ∷ []); done tt

  unfoldable mutual
    unfolding eval

    pub perform : Stmt → Steps M.Memory (Unit {0})
    perform (assign_stmt i l r) = do a ← target_address l; w ← eval r; assign a w
    perform (output_stmt i e) = do w ← eval e; call_runtime "_tip_output" w
    perform (error_stmt i e) = do w ← eval e; call_runtime "_tip_error" w
    perform (block_stmt i bs) = perform_all bs
    perform (decl_stmt d) = partial none
    perform (while_stmt i c b) = partial none
    perform (if_stmt i c b e) = partial none
    perform (return_stmt i e) = partial none

    pub perform_all : Stmts → Steps M.Memory (Unit {0})
    perform_all no_stmts = done tt
    perform_all (stmts b bs) = do performed ← perform b; perform_all bs

-- What LLVM promises of the machine: a cast of a pointer is the same pointer, the elements of the
-- dispatch table, which is constant, are the functions, and the intrinsic nop does nothing.
pub record IsLawful (M : Machine) (scope : Scope M) (table : M.Word) : Type 0 where
  pub cast_same : (t : Ty) (w : M.Word) → M.cast t w ≡ w
  pub entries :
      (m : M.Memory) (w : M.Word)
      → M.load m (M.offset table (M.const (pos 0) ∷ w ∷ [])) ≡ scope.entry w
  pub nothing : (m : M.Memory) → M.call (M.symbol "llvm.donothing") [] m ≡ some (M.null, m)
