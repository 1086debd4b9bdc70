-- ===== src/Llvm.antt =====
-- The vocabulary of LLVM that src/TIPtreeGen.cpp uses. LLVM itself is not modelled: the code
-- generator is the sequence of calls that it makes of LLVM, and a value that LLVM returns is known
-- by the position of the call that returned it and by its documented type.
use tipc.Prelude.{ℕ, String, Option, List}
use tipc.Prelude.Int.{ℤ}

-- A function type has so many parameters, all of them `i64`, and a result.
pub data Ty : Type 0 where
  i1 i8 i64 void : Ty
  ptr : Ty → Ty
  array : ℕ → Ty → Ty
  fn : ℕ → Ty → Ty

-- Constants, the arguments of a function, and what a call has returned.
pub data Value : Type 0 where
  const_int : ℤ → Value
  null_ptr : Value
  argument : ℕ → Value
  cast_const : Value → Ty → Value
  result : ℕ → Ty → Value

-- The name of a basic block: a word and the decimal of a number.
pub data Label : Type 0 where
  entry : Label
  numbered : String → ℕ → Label

pub record Block : Type 0 where
  pub handle : ℕ
  pub label : Label

-- The operators with their instructions.
pub data BinaryOp : Type 0 where
  add sub mul sdiv icmp_sgt icmp_eq : BinaryOp

-- The calls that change the module. `create_function` has the number of parameters and the type of
-- the result, `create_global` the elements of its initializer, `create_block` the function that it is added to at
-- once.
pub data Call : Type 0 where
  create_function : String → ℕ → Ty → Call
  create_global : String → Ty → List Value → Call
  erase_function : Value → Call
  create_block : Label → Option Value → Call
  insert_block : Block → Value → Call
  set_insert_point : Block → Call
  create_alloca : Value → String → Call
  create_load : Value → Call
  create_store : Value → Value → Call
  create_binary : BinaryOp → Value → Value → Call
  create_icmp_ne_zero : Value → Call
  create_gep : Value → List Value → Call
  create_pointer_cast : Value → Ty → Call
  create_int_to_ptr : Value → Call
  create_ptr_to_int : Value → Call
  create_call : Value → List Value → Call
  create_br : Block → Call
  create_cond_br : Value → Block → Block → Call
  create_ret : Value → Call
  create_ret_void : Call

abbrev pub value_type : Value → Ty
value_type (const_int n) = i64
value_type null_ptr = ptr i64
value_type (argument n) = i64
value_type (cast_const v t) = t
value_type (result n t) = t

-- `getElementType` of a pointer type; of no other type is there one.
abbrev pub pointee : Ty → Ty
pointee (ptr t) = t
pointee _ = void

abbrev pub element : Ty → Ty
element (array n t) = t
element _ = void

abbrev pub result_type : Ty → Ty
result_type (fn n t) = t
result_type _ = void

abbrev pub binary_type : BinaryOp → Ty → Ty
binary_type icmp_sgt t = i1
binary_type icmp_eq t = i1
binary_type _ t = t

-- The documented type of what a call returns. `void` also stands for what is not a value.
abbrev pub call_type : Call → Ty
call_type (create_function f n t) = ptr (fn n t)
call_type (create_global x t vs) = ptr t
call_type (create_alloca f x) = ptr i64
call_type (create_load p) = pointee (value_type p)
call_type (create_binary op l r) = binary_type op (value_type l)
call_type (create_icmp_ne_zero v) = i1
call_type (create_gep p is) = ptr (element (pointee (value_type p)))
call_type (create_pointer_cast v t) = t
call_type (create_int_to_ptr v) = ptr i64
call_type (create_ptr_to_int v) = i64
call_type (create_call f vs) = result_type (pointee (value_type f))
call_type _ = void
