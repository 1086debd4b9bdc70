-- ===== src/Codegen/Functions.antt =====
-- `codegen` of functions and of the program (src/TIPtreeGen.cpp).
use tipc.Prelude.{
  ℕ, zero, suc, String, String_eq, Bool, true, false, ◌&&◌, ◌==◌, Option, none, some, List, [], ◌∷◌,
  if◌then◌else◌, length,
}
use tipc.Prelude.Int.{pos}
use tipc.Prelude.Dict.{lookup, insert, remove}
use tipc.Prelude.Result.{ok}
use tipc.Prelude.State.{pure, ◌>>=◌, ◌>>◌}
use tipc.Llvm.{
  Ty, i64, void, ptr, array, fn, Value, const_int, argument, cast_const, Block, entry,
  create_alloca, create_store, create_load, create_gep, create_call, create_global, erase_function,
  set_insert_point, create_ret,
}
use tipc.Codegen.{CodeState, Code, LlvmFunction, get, put, emit, new_block, not_null, new_function}
use tipc.Codegen.Statements.{bind_name, gen_stmt, gen_decl}
use tipc.Tree.{DeclStmt, Stmts, no_stmts, stmts, TipFunction, Program}

-- `FunctionDecls[Name]`, which inserts an index 0 and no formals under a name that is not there.
abbrev pub decl_entry : Option (ℕ × List String) → String → Code (ℕ × List String)
decl_entry (some d) name = pure d
decl_entry none name =
    λ s. ok ((0, []), record s { function_decls = insert name (0, []) s.function_decls })

-- The name of a function in the module.
abbrev pub module_name : String → String
module_name name = if name == "main" then "_tip_main" else name

abbrev pub set_num_args : ℕ → Code (Unit {0})
set_num_args n s = ok (tt, record s { num_tip_args = n })

abbrev pub found_or : Option LlvmFunction → Code LlvmFunction → Code LlvmFunction
found_or (some f) create = pure f
found_or none create = create

abbrev pub created_function : Bool → String → List String → Code LlvmFunction
created_function true name formals = do
  set_num_args (length formals)
  new_function "_tip_main" [] i64
created_function false name formals = new_function name formals i64

-- `getFunction`. The arguments have the names of the formals, which are taken to be distinct, since
-- LLVM changes the name of the second of two.
unfoldable pub get_function : String → Code LlvmFunction
get_function name = do
  s ← get
  (idx, formals) ← decl_entry (lookup name s.function_decls) name
  s' ← get
  found_or (lookup (module_name name) s'.symbols) (created_function (name == "main") name formals)

-- The formals of `main`, which are read from the input array.
unfoldable pub gen_inputs : Value → List String → ℕ → Code (Unit {0})
gen_inputs f [] idx = pure tt
gen_inputs f (x ∷ xs) idx = do
  arg_alloc ← emit (create_alloca f x)
  s ← get
  inputs ← not_null s.tip_input_array
  gep ← emit (create_gep inputs (const_int (pos 0) ∷ const_int (pos idx) ∷ []))
  in_val ← emit (create_load gep)
  store ← emit (create_store in_val arg_alloc)
  bind_name x arg_alloc
  gen_inputs f xs (suc idx)

-- The formals of any other function.
unfoldable pub gen_formals : Value → List String → ℕ → Code (Unit {0})
gen_formals f [] idx = pure tt
gen_formals f (x ∷ xs) idx = do
  arg_alloc ← emit (create_alloca f x)
  store ← emit (create_store (argument idx) arg_alloc)
  bind_name x arg_alloc
  gen_formals f xs (suc idx)

abbrev pub is_some : Option Value → Bool
is_some none = false
is_some (some v) = true

-- The loops over declarations and statements; the flag is `success`.
unfoldable pub gen_decls : List DeclStmt → Bool → Code Bool
unfolding gen_decl
gen_decls [] success = pure success
gen_decls (d ∷ ds) success = do v ← gen_decl d; gen_decls ds (success && is_some v)

unfoldable pub gen_body : Stmts → Bool → Code Bool
unfolding gen_stmt
gen_body no_stmts success = pure success
gen_body (stmts b bs) success = do v ← gen_stmt b; gen_body bs (success && is_some v)

-- `SetInsertPoint` of the first block of a function.
abbrev pub enter : Block → Value → Code (Unit {0})
enter b f = do at ← emit (set_insert_point b); s ← get; put (record s { insert_function = some f })

abbrev pub clear_names : Code (Unit {0})
clear_names s = ok (tt, record s { named_values = [] })

abbrev pub bind_arguments : Bool → LlvmFunction → List String → Code (Unit {0})
bind_arguments true f formals = gen_inputs f.value formals 0
bind_arguments false f formals = gen_formals f.value f.arg_names 0

abbrev pub finished : Bool → String → Value → Code (Option Value)
finished true name f = pure (some f)
finished false name f = do
  erased ← emit (erase_function f)
  s ← get
  put (record s { symbols = remove (module_name name) s.symbols })
  pure none

unfoldable pub gen_function : TipFunction → Code (Option Value)
unfolding get_function gen_inputs gen_formals gen_decls gen_body
gen_function f = do
  fun ← get_function f.name
  bb ← new_block entry (some fun.value)
  enter bb fun.value
  clear_names
  bind_arguments (f.name == "main") fun f.formals
  declared ← gen_decls f.decls true
  success ← gen_body f.body declared
  finished success f.name fun.value

-- The first pass: the index and the formals of each function.
unfoldable pub declare_functions : List TipFunction → ℕ → Code ℕ
declare_functions [] idx = pure idx
declare_functions (f ∷ fs) idx = λ s.
    declare_functions fs (suc idx)
      (record s { function_decls = insert f.name (idx, f.formals) s.function_decls })

unfoldable pub create_functions : List TipFunction → Code (List Value)
unfolding get_function
create_functions [] = pure []
create_functions (f ∷ fs) = do
  fun ← get_function f.name
  vs ← create_functions fs
  pure (fun.value ∷ vs)

-- The type of a function pointer in the dispatch table.
abbrev pub generic_pointer : Ty
generic_pointer = ptr (fn 0 i64)

abbrev pub cast_functions : List Value → List Value
cast_functions [] = []
cast_functions (v ∷ vs) = cast_const v generic_pointer ∷ cast_functions vs

unfoldable pub create_table : List Value → ℕ → Code (Unit {0})
create_table vs n = do
  table ← emit (create_global "_tip_ftable" (array n generic_pointer) (cast_functions vs))
  s ← get
  put (record s { tip_ftable = some table })

-- The `main` of a program that has none.
abbrev pub main_unless : Option (ℕ × List String) → Code (Unit {0})
main_unless (some d) = pure tt
main_unless none = do
  m ← new_function "_tip_main" [] i64
  bb ← new_block entry (some m.value)
  enter bb m.value
  undef ← new_function "_tip_main_undefined" [] void
  call ← emit (create_call undef.value [])
  ret ← emit (create_ret (const_int (pos 0)))
  pure tt

abbrev pub zeros : ℕ → List Value
zeros zero = []
zeros (suc n) = const_int (pos 0) ∷ zeros n

unfoldable pub create_inputs : Code (Unit {0})
create_inputs = do
  s ← get
  num ← emit (create_global "_tip_num_inputs" i64 (const_int (pos s.num_tip_args) ∷ []))
  inputs ← emit (create_global "_tip_input_array" (array s.num_tip_args i64) (zeros s.num_tip_args))
  s' ← get
  put (record s' { tip_num_inputs = some num; tip_input_array = some inputs })

-- The shallow pass over the functions, which makes the dispatch table.
unfoldable pub make_table : List TipFunction → Code (Unit {0})
unfolding declare_functions create_functions create_table
make_table fs = do
  n ← declare_functions fs 0
  functions ← create_functions fs
  create_table functions n

unfoldable pub gen_functions : List TipFunction → Code (Unit {0})
unfolding gen_function
gen_functions [] = pure tt
gen_functions (f ∷ fs) = do v ← gen_function f; gen_functions fs

-- The globals when the compiler starts.
abbrev pub initial : CodeState
initial = record {
  calls = [];
  symbols = [];
  insert_function = none;
  logged = [];
  function_decls = [];
  named_values = [];
  nop = none;
  input_intrinsic = none;
  output_intrinsic = none;
  error_intrinsic = none;
  malloc_fun = none;
  label_num = 0;
  l_value_gen = false;
  tip_ftable = none;
  num_tip_args = 0;
  tip_num_inputs = none;
  tip_input_array = none;
}

-- The state in which a module begins: no call has been made, and no function of it is known.
abbrev pub new_module : Code (Unit {0})
new_module = do
  s ← get
  put (record s { calls = []; symbols = [] })
  nop ← new_function "llvm.donothing" [] void
  s' ← get
  put (record s' { nop = some nop.value; label_num = 0 })

-- `Program::codegen`; the module is in the calls.
unfoldable pub gen_program : Program → Code (Unit {0})
unfolding make_table create_inputs gen_functions
gen_program p = do
  new_module
  make_table p.functions
  s ← get
  main_unless (lookup "main" s.function_decls)
  create_inputs
  gen_functions p.functions
