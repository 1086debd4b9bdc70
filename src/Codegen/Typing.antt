-- ===== src/Codegen/Typing.antt =====
-- The types that LLVM (as src/TIPtreeGen.cpp calls it) wants of the values that it is given, and
-- what the globals hold.
use tipc.Prelude.{
  ℕ, ◌≡◌, String, String_eq, Bool, false, Option, none, some, List, [], ◌∷◌, All, length, ◌<◌,
}
use tipc.Prelude.Int.{pos}
use tipc.Prelude.Dict.{Dict, lookup}
use tipc.Prelude.Result.{Result, Post, returns}
use tipc.Prelude.State.{then_run, after}
use tipc.Llvm.{
  Ty, i1, i8, i64, void, ptr, array, fn, Value, const_int, value_type, Call, create_load,
  create_store, create_binary, create_icmp_ne_zero, create_gep, create_pointer_cast,
  create_int_to_ptr, create_ptr_to_int, create_call, create_cond_br, create_ret, create_ret_void,
}
use tipc.Codegen.Supported.{Decls}
use tipc.Codegen.{CodeState, Code, LlvmFunction, unless_null}

abbrev pub IsPointer : Ty → Type 0
IsPointer (ptr t) = Unit
IsPointer _ = ⊥

abbrev pub IsArrayPointer : Ty → Type 0
IsArrayPointer (ptr (array n t)) = Unit
IsArrayPointer _ = ⊥

-- An integer of either width.
abbrev pub IsInteger : Ty → Type 0
IsInteger i1 = Unit
IsInteger i64 = Unit
IsInteger _ = ⊥

-- The parameters of a function with so many of them.
abbrev pub TakesArgs : Ty → List Value → Type 0
TakesArgs (ptr (fn n t)) vs = (length vs ≡ n) × All (λ v. value_type v ≡ i64) vs
TakesArgs _ vs = ⊥

-- An array of words is indexed by a constant that is less than its size.
abbrev pub IsWithin : Ty → List Value → Type 0
IsWithin (ptr (array n i64)) (first ∷ const_int (pos i) ∷ []) = i < n
IsWithin (ptr (array n i64)) is = ⊥
IsWithin _ is = Unit

-- The functions return `i64`; a call outside of a block has no operands to look at.
abbrev pub IsTyped : Call → Type 0
IsTyped (create_load p) = IsPointer (value_type p)
IsTyped (create_store v p) = value_type p ≡ ptr (value_type v)
IsTyped (create_binary op l r) = (value_type l ≡ i64) × (value_type r ≡ i64)
IsTyped (create_icmp_ne_zero v) = IsInteger (value_type v)
IsTyped (create_gep p is) =
    IsArrayPointer (value_type p) × All (λ v. value_type v ≡ i64) is × IsWithin (value_type p) is
IsTyped (create_pointer_cast v t) = IsPointer (value_type v) × IsPointer t
IsTyped (create_int_to_ptr v) = value_type v ≡ i64
IsTyped (create_ptr_to_int v) = IsPointer (value_type v)
IsTyped (create_call f vs) = TakesArgs (value_type f) vs
IsTyped (create_cond_br v b c) = value_type v ≡ i1
IsTyped (create_ret v) = value_type v ≡ i64
IsTyped create_ret_void = ⊥
IsTyped _ = Unit

abbrev pub HasType : Ty → Option Value → Type 0
HasType t none = Unit
HasType t (some v) = value_type v ≡ t

abbrev pub HasTable : Option Value → Type 0
HasTable none = Unit
HasTable (some v) = (n : ℕ) × (value_type v ≡ ptr (array n (ptr (fn 0 i64))))

abbrev pub IsAddress : Option (Option Value) → Type 0
IsAddress none = Unit
IsAddress (some o) = HasType (ptr i64) o

pub record WellTyped (funs : Decls) (s : CodeState) : Type 0 where
  pub calls : All IsTyped s.calls
  pub function_decls : s.function_decls ≡ funs
  pub named_values : (x : String) → IsAddress (lookup x s.named_values)
  pub nop : HasType (ptr (fn 0 void)) s.nop
  pub input_intrinsic : HasType (ptr (fn 0 i64)) s.input_intrinsic
  pub output_intrinsic : HasType (ptr (fn 1 i64)) s.output_intrinsic
  pub error_intrinsic : HasType (ptr (fn 1 i64)) s.error_intrinsic
  pub malloc_fun : HasType (ptr (fn 1 (ptr i8))) s.malloc_fun
  pub tip_ftable : HasTable s.tip_ftable
  pub l_value_gen : s.l_value_gen ≡ false

-- A run that leaves the globals well typed and whose value satisfies a predicate.
abbrev pub Types : {A : Type 0} → Decls → (A → Type 0) → Result (A × CodeState) → Type 0
Types funs Good r = Post (λ q. WellTyped funs q.1 × Good q.0) (λ _. Unit) r

module _ {funs : Decls} where
  pub typed_more :
      {c : Call} {s : CodeState}
      → IsTyped c
      → WellTyped funs s
      → WellTyped funs (record s { calls = c ∷ s.calls })
  typed_more h w = record {
    calls = (h, w.calls);
    named_values = w.named_values;
    function_decls = w.function_decls;
    nop = w.nop;
    input_intrinsic = w.input_intrinsic;
    output_intrinsic = w.output_intrinsic;
    error_intrinsic = w.error_intrinsic;
    malloc_fun = w.malloc_fun;
    tip_ftable = w.tip_ftable;
    l_value_gen = w.l_value_gen;
  }

  -- With a label, and with the flag for l-values.
  pub relabelled :
      {s : CodeState} {cs : List Call} {n : ℕ} {b : Bool}
      → All IsTyped cs
      → b ≡ false
      → WellTyped funs s
      → WellTyped funs (record s { calls = cs; label_num = n; l_value_gen = b })
  relabelled cs e w = record {
    calls = cs;
    named_values = w.named_values;
    function_decls = w.function_decls;
    nop = w.nop;
    input_intrinsic = w.input_intrinsic;
    output_intrinsic = w.output_intrinsic;
    error_intrinsic = w.error_intrinsic;
    malloc_fun = w.malloc_fun;
    tip_ftable = w.tip_ftable;
    l_value_gen = e;
  }

  pub typed_with :
      {s : CodeState} {cs : List Call} {fs : Dict String LlvmFunction} {i o e m : Option Value}
      → All IsTyped cs
      → HasType (ptr (fn 0 i64)) i
      → HasType (ptr (fn 1 i64)) o
      → HasType (ptr (fn 1 i64)) e
      → HasType (ptr (fn 1 (ptr i8))) m
      → WellTyped funs s
      → WellTyped funs (record s {
        calls = cs;
        symbols = fs;
        input_intrinsic = i;
        output_intrinsic = o;
        error_intrinsic = e;
        malloc_fun = m;
      })
  typed_with cs i o e m w = record {
    calls = cs;
    named_values = w.named_values;
    function_decls = w.function_decls;
    nop = w.nop;
    input_intrinsic = i;
    output_intrinsic = o;
    error_intrinsic = e;
    malloc_fun = m;
    tip_ftable = w.tip_ftable;
    l_value_gen = w.l_value_gen;
  }

  -- A part and what follows it with its value.
  pub valued :
      (P Q : Option Value → Type 0) {first : Result (Option Value × CodeState)}
      (next : Value → Code (Option Value))
      → Q none
      → Types funs P first
      → ((v : Value) (s₁ : CodeState) → WellTyped funs s₁ → P (some v) → Types funs Q (next v s₁))
      → Types funs Q (then_run first (λ o. unless_null o next))
  valued P Q next nothing first later = after (λ t _. tt) first λ o s₁ (w, h). go o s₁ w h
    where
      go :
          (o : Option Value) (s₁ : CodeState)
          → WellTyped funs s₁
          → P o
          → Types funs Q (unless_null o next s₁)
      go none s₁ w h = returns (w, nothing)
      go (some v) s₁ w h = later v s₁ w h
