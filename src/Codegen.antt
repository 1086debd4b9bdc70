-- ===== src/Codegen.antt =====
-- The code generator (src/TIPtreeGen.cpp): its globals, and `codegen` of expressions. A null
-- pointer that `codegen` returns is `none`, and one that it hands to LLVM is `undefined`.
pub mod Shape
pub mod Erased
pub mod Grown
pub mod Supported
pub mod PartLaws
pub mod ExprLaws
pub mod Statements
pub mod Emitted
pub mod Scope
pub mod Made
pub mod SimpleLaws
pub mod StmtLaws
pub mod Functions
pub mod Bindings
pub mod BodyLaws
pub mod FunctionLaws
pub mod Table
pub mod Creation
pub mod ProgramLaws
pub mod Source
pub mod SourceTests
pub mod InputTests
pub mod Typing
pub mod OperandTypes
pub mod CallTypes
pub mod ExprTypes
pub mod StmtTypes
pub mod TypeLaws
pub mod BindingTypes
pub mod FunctionTypes
pub mod Inputs
pub mod ProgramTypes
pub mod Limits
pub mod Tests
use tipc.Prelude.{
  ℕ, ◌+◌, String, String_eq, Bool, true, false, ◌==◌, Option, none, some, List, [], ◌∷◌, ◌++◌, Text,
  codes, if◌then◌else◌, length, suc,
}
use tipc.Prelude.Int.{ℤ, pos}
use tipc.Prelude.Dict.{Dict, lookup, insert}
use tipc.Prelude.Result.{Result, ok, err, undefined}
use tipc.Prelude.State.{Run, pure, ◌>>=◌, ◌>>◌}
use tipc.Llvm.{
  Ty, i8, i64, void, ptr, fn, Value, const_int, null_ptr, result, Block, Label, BinaryOp, add, sub,
  mul, sdiv, icmp_sgt, icmp_eq, Call, create_function, create_block, create_load, create_store,
  create_binary, create_gep, create_pointer_cast, create_int_to_ptr, create_ptr_to_int, create_call,
  call_type, create_alloca, create_ret,
}
use tipc.Tree.{
  Expr, Exprs, number_expr, variable_expr, binary_expr, fun_app_expr, input_expr, alloc_expr,
  ref_expr, de_ref_expr, null_expr, field_expr, record_expr, access_expr, no_exprs, exprs,
}

-- A function of the module, with the names of its arguments.
pub record LlvmFunction : Type 0 where
  pub value : Value
  pub arg_names : List String

-- The globals of the file. `calls` are the calls made of LLVM so far, the
-- last one first, `symbols` the functions of the
-- module by name, `insert_function` the function of the builder's insertion point, and `logged` the
-- messages on the error stream.
pub record CodeState : Type 0 where
  pub calls : List Call
  pub symbols : Dict String LlvmFunction
  pub insert_function : Option Value
  pub logged : List Text
  pub function_decls : Dict String (ℕ × List String)
  pub named_values : Dict String (Option Value)
  pub nop : Option Value
  pub input_intrinsic : Option Value
  pub output_intrinsic : Option Value
  pub error_intrinsic : Option Value
  pub malloc_fun : Option Value
  pub label_num : ℕ
  pub l_value_gen : Bool
  pub tip_ftable : Option Value
  pub num_tip_args : ℕ
  pub tip_num_inputs : Option Value
  pub tip_input_array : Option Value

abbrev pub Code : Type 0 → Type 0
Code A = Run CodeState A

abbrev pub get : Code CodeState
get s = ok (s, s)

abbrev pub put : CodeState → Code (Unit {0})
put s' s = ok (tt, s')

-- A call of LLVM, and the value that it returns.
abbrev pub emit : Call → Code Value
emit c s = ok (result (length s.calls) (call_type c), record s { calls = c ∷ s.calls })

-- The same as the result of `codegen`.
abbrev pub emit_last : Call → Code (Option Value)
emit_last c = do v ← emit c; pure (some v)

-- `BasicBlock::Create`
abbrev pub new_block : Label → Option Value → Code Block
new_block l f s =
    ok (
      record { handle = length s.calls; label = l },
      record s { calls = create_block l f ∷ s.calls },
    )

-- A pointer that LLVM is given and must not be null.
abbrev pub not_null : Option Value → Code Value
not_null none s = err undefined
not_null (some v) s = ok (v, s)

-- `if (v == nullptr) { return nullptr; }`
abbrev pub unless_null : {A : Type 0} → Option A → (A → Code (Option Value)) → Code (Option Value)
unless_null none next = pure none
unless_null (some v) next = next v

-- `LogError`
abbrev pub log_error : Text → Code (Option Value)
log_error msg s = ok (none, record s { logged = s.logged ++ msg ∷ [] })

-- `llvm::Function::Create` for a function whose type has no names. A function whose name is taken
-- gets another one.
abbrev pub declared :
    Option LlvmFunction
    → String
    → LlvmFunction
    → Dict String LlvmFunction
    → Dict String LlvmFunction
declared (some f) name new symbols = symbols
declared none name new symbols = insert name new symbols

abbrev pub new_function : String → List String → Ty → Code LlvmFunction
new_function name args t s =
    let c = create_function name (length args) t in
    let f : LlvmFunction = record {
      value = result (length s.calls) (call_type c);
      arg_names = args;
    } in
    ok (
      f,
      record s { calls = c ∷ s.calls; symbols = declared (lookup name s.symbols) name f s.symbols },
    )

-- The functions that are declared at their first use.
abbrev pub input_function : Option Value → Code Value
input_function (some f) = pure f
input_function none = do
  f ← new_function "_tip_input" [] i64
  s ← get
  put (record s { input_intrinsic = some f.value })
  pure f.value

abbrev pub malloc_function : Option Value → Code Value
malloc_function (some f) = pure f
malloc_function none = do
  f ← new_function "malloc" ("" ∷ []) (ptr i8)
  s ← get
  put (record s { malloc_fun = some f.value })
  pure f.value

unfoldable pub operator_of : String → Option BinaryOp
operator_of op =
    if op == "+"
    then some add
    else if op == "-"
    then some sub
    else if op == "*"
    then some mul
    else if op == "/"
    then some sdiv
    else if op == ">"
    then some icmp_sgt
    else if op == "=="
    then some icmp_eq
    else none

abbrev pub binary_code : Option BinaryOp → String → Value → Value → Code (Option Value)
binary_code none op l r = log_error (codes "Invalid binary operator: " ++ codes op)
binary_code (some o) op l r = emit_last (create_binary o l r)

abbrev pub unknown_variable : String → Code (Option Value)
unknown_variable x = log_error (codes "Unknown variable name: " ++ codes x)

-- A variable that `NamedValues` has, which may be with a null pointer.
abbrev pub named_code : Bool → Option Value → Code (Option Value)
named_code true nv = pure nv
named_code false nv = do p ← not_null nv; emit_last (create_load p)

-- The value of a function name is its index.
abbrev pub function_code : Option (ℕ × List String) → String → Code (Option Value)
function_code none x = unknown_variable x
function_code (some (i, formals)) x = pure (some (const_int (pos i)))

abbrev pub variable_code : Option (Option Value) → String → Code (Option Value)
variable_code (some nv) x s = named_code s.l_value_gen nv s
variable_code none x s = function_code (lookup x s.function_decls) x s

-- `NamedValues[NAME]`, which inserts a null pointer under a name that is not there.
abbrev pub named_entry : Option (Option Value) → String → Code (Option Value)
named_entry (some nv) x = pure nv
named_entry none x = λ s. ok (none, record s { named_values = insert x none s.named_values })

abbrev pub ref_code : Option Value → String → Code (Option Value)
ref_code none x = unknown_variable x
ref_code (some p) x = emit_last (create_ptr_to_int p)

-- The address for an l-value, else what is there; `gen_arg` generates the argument.
abbrev pub de_ref_code : Bool → Code (Option Value) → Code (Option Value)
de_ref_code true gen_arg = do
  s ← get
  put (record s { l_value_gen = false })
  arg ← gen_arg
  unless_null arg λ arg_val. emit_last (create_int_to_ptr arg_val)
de_ref_code false gen_arg = do
  arg ← gen_arg
  unless_null arg λ arg_val. do ref ← emit (create_int_to_ptr arg_val); emit_last (create_load ref)

-- Eight bytes that hold the argument.
abbrev pub alloc_code : Value → Value → Code (Option Value)
alloc_code arg_val malloc = do
  alloc_inst ← emit (create_call malloc (const_int (pos 8) ∷ []))
  cast_ptr ← emit (create_pointer_cast alloc_inst (ptr i64))
  initializing_store ← emit (create_store arg_val cast_ptr)
  emit_last (create_ptr_to_int cast_ptr)

-- `ACTUALS.size()`
abbrev pub count_exprs : Exprs → ℕ
count_exprs no_exprs = 0
count_exprs (exprs e es) = suc (count_exprs es)

-- An actual parameter without a value ends the loop.
abbrev pub push_rest : Value → Option (List Value) → Code (Option (List Value))
push_rest v none = pure none
push_rest v (some vs) = pure (some (v ∷ vs))

abbrev pub push_arg : Option Value → Code (Option (List Value)) → Code (Option (List Value))
push_arg none rest = pure none
push_arg (some v) rest = do vs ← rest; push_rest v vs

-- The function at an index of the dispatch table, as one of so many parameters.
abbrev pub indexed : Value → Value → ℕ → Code Value
indexed ftable fun_val n = do
  gep ← emit (create_gep ftable (const_int (pos 0) ∷ fun_val ∷ []))
  generic_fun_ptr ← emit (create_load gep)
  emit (create_pointer_cast generic_fun_ptr (ptr (fn n i64)))

unfoldable pub call_code : Value → Option (List Value) → Code (Option Value)
call_code f none = pure none
call_code f (some vs) = emit_last (create_call f vs)

unfoldable mutual
  unfolding operator_of call_code

  pub gen_expr : Expr → Code (Option Value)
  gen_expr (number_expr i v) = pure (some (const_int v))
  gen_expr (binary_expr i op l r) = do
    lhs ← gen_expr l
    rhs ← gen_expr r
    unless_null lhs λ lv. unless_null rhs λ rv. binary_code (operator_of op) op lv rv
  gen_expr (variable_expr i x) = λ s. variable_code (lookup x s.named_values) x s
  gen_expr (input_expr i) = do
    s ← get
    f ← input_function s.input_intrinsic
    emit_last (create_call f [])
  gen_expr (fun_app_expr i f es) = do
    fun_val ← gen_expr f
    unless_null fun_val λ fv. do
      s ← get
      ftable ← not_null s.tip_ftable
      cast_fun_ptr ← indexed ftable fv (count_exprs es)
      args ← gen_args es
      call_code cast_fun_ptr args
  gen_expr (alloc_expr i e) = do
    arg ← gen_expr e
    unless_null arg
        λ arg_val. do s ← get; malloc ← malloc_function s.malloc_fun; alloc_code arg_val malloc
  gen_expr (null_expr i) = emit_last (create_ptr_to_int null_ptr)
  gen_expr (ref_expr i x r) = do
    s ← get
    arg_val ← named_entry (lookup x s.named_values) x
    ref_code arg_val x
  gen_expr (de_ref_expr i e) = λ s. de_ref_code s.l_value_gen (gen_expr e) s
  gen_expr (record_expr i fs) = log_error (codes "Record expressions not implemented")
  gen_expr (field_expr f) = log_error (codes "Field expressions not implemented")
  gen_expr (access_expr i e f) = log_error (codes "Field access expressions not implemented")

  -- The loop over the actual parameters.
  pub gen_args : Exprs → Code (Option (List Value))
  gen_args no_exprs = pure (some [])
  gen_args (exprs e es) = do arg ← gen_expr e; push_arg arg (gen_args es)
