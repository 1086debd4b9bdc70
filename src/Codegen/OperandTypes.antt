-- ===== src/Codegen/OperandTypes.antt =====
-- The types of the parts of an expression's code (src/TIPtreeGen.cpp).
use tipc.Prelude.{
  Text, ℕ, ◌≡◌, ◌≢◌, refl, String, String_eq, Bool, Bool-cases, inl, inr, true, false, ◌==◌, Option,
  none, some, List, [],
}
use tipc.Prelude.Dict.{Dict, lookup, insert, lookup-insert_eq, lookup-insert_ne}
use tipc.Prelude.Result.{returns, throws}
use tipc.Prelude.State.{then_run}
use tipc.Llvm.{
  Ty, i8, i64, ptr, fn, Value, value_type, BinaryOp, add, sub, mul, sdiv, icmp_sgt, icmp_eq,
  binary_type, create_call,
}
use tipc.Tree.{Expr, Exprs, binary_expr, fun_app_expr, alloc_expr, de_ref_expr, no_exprs, exprs}
use tipc.Codegen.Supported.{Decls}
use tipc.Codegen.{
  CodeState, operator_of, variable_code, function_code, ref_code, named_entry, binary_code,
  input_function, malloc_function, alloc_code, emit_last, named_code,
}
use tipc.Codegen.Typing.{IsInteger, HasType, IsAddress, WellTyped, typed_more, typed_with, Types}

abbrev pub IsArithmetic : Option BinaryOp → Type 0
IsArithmetic (some icmp_sgt) = ⊥
IsArithmetic (some icmp_eq) = ⊥
IsArithmetic _ = Unit

-- No comparison is an operand, an argument or what is stored.
unfoldable mutual
  pub IsIntegral : Expr → Type 0
  IsIntegral (binary_expr i op l r) = IsArithmetic (operator_of op) × IsIntegral l × IsIntegral r
  IsIntegral (fun_app_expr i f es) = IsIntegral f × AllIntegral es
  IsIntegral (alloc_expr i e) = IsIntegral e
  IsIntegral (de_ref_expr i e) = IsIntegral e
  IsIntegral _ = Unit

  pub AllIntegral : Exprs → Type 0
  AllIntegral no_exprs = Unit
  AllIntegral (exprs e es) = IsIntegral e × AllIntegral es

-- A condition may be a comparison.
abbrev pub IsCondition : Expr → Type 0
IsCondition (binary_expr i op l r) = IsIntegral l × IsIntegral r
IsCondition e = IsIntegral e

abbrev pub HasInteger : Option Value → Type 0
HasInteger none = Unit
HasInteger (some v) = IsInteger (value_type v)

arithmetic : (o : BinaryOp) (t : Ty) → IsArithmetic (some o) → t ≡ i64 → binary_type o t ≡ i64
arithmetic add t h e = e
arithmetic sub t h e = e
arithmetic mul t h e = e
arithmetic sdiv t h e = e
arithmetic icmp_sgt t h e = absurd h
arithmetic icmp_eq t h e = absurd h

binary-IsInteger : (o : BinaryOp) (t : Ty) → t ≡ i64 → IsInteger (binary_type o t)
binary-IsInteger add t e = rw e tt
binary-IsInteger sub t e = rw e tt
binary-IsInteger mul t e = rw e tt
binary-IsInteger sdiv t e = rw e tt
binary-IsInteger icmp_sgt t e = tt
binary-IsInteger icmp_eq t e = tt

abbrev pub HasWord : Option Value → Type 0
HasWord = HasType i64

pub IsAddress-insert :
    (vars : Dict String (Option Value)) (x y : String) (o : Option Value)
    → IsAddress (some o)
    → IsAddress (lookup y vars)
    → IsAddress (lookup y (insert x o vars))
IsAddress-insert vars x y o new h = elim (Bool-cases (x == y)) [
  | inl t ↦ rw (lookup-insert_eq y x o vars ((String_eq.same_iff x y).0 t)) new
  | inr f ↦
      let ne : x ≢ y = λ e. cc (f, (String_eq.same_iff x y).1 e) in
      rw (lookup-insert_ne y x o vars ne) h
]

pub integer : (o : Option Value) → HasWord o → HasInteger o
integer none h = tt
integer (some v) h = rw h tt

module _ {funs : Decls} where
  pub logged :
      {s : CodeState} {msgs : List Text} {vars : Dict String (Option Value)}
      → ((x : String) → IsAddress (lookup x vars))
      → WellTyped funs s
      → WellTyped funs (record s { logged = msgs; named_values = vars })
  logged named w = record {
    calls = w.calls;
    named_values = named;
    function_decls = w.function_decls;
    nop = w.nop;
    input_intrinsic = w.input_intrinsic;
    output_intrinsic = w.output_intrinsic;
    error_intrinsic = w.error_intrinsic;
    malloc_fun = w.malloc_fun;
    tip_ftable = w.tip_ftable;
    l_value_gen = w.l_value_gen;
  }

  named-Types :
      (b : Bool) (o : Option Value) (s : CodeState)
      → b ≡ false
      → HasType (ptr i64) o
      → WellTyped funs s
      → Types funs HasWord (named_code b o s)
  named-Types true o s e h w = absurd (cc (e))
  named-Types false none s e h w = throws tt
  named-Types false (some v) s e h w = returns (typed_more (rw h tt) w, rw h refl)

  pub variable-Types :
      (nv : Option (Option Value)) (x : String) (s : CodeState)
      → IsAddress nv
      → WellTyped funs s
      → Types funs HasWord (variable_code nv x s)
  variable-Types (some o) x s h w = named-Types s.l_value_gen o s w.l_value_gen h w
  variable-Types none x s h w = known (lookup x s.function_decls)
    where
      known : (d : Option (ℕ × List String)) → Types funs HasWord (function_code d x s)
      known none = returns (logged w.named_values w, tt)
      known (some d) = returns (w, refl)

  pub ref-Types :
      (nv : Option (Option Value)) (x : String) (s : CodeState)
      → lookup x s.named_values ≡ nv
      → IsAddress nv
      → WellTyped funs s
      → Types funs HasWord (then_run (named_entry nv x s) (λ v. ref_code v x))
  ref-Types (some none) x s e h w = returns (logged w.named_values w, tt)
  ref-Types (some (some v)) x s e h w = returns (typed_more (rw h tt) w, refl)
  ref-Types none x s e h w =
      returns (logged (λ y. IsAddress-insert s.named_values x y none tt (w.named_values y)) w, tt)

  pub input-Types :
      (o : Option Value) (s : CodeState)
      → HasType (ptr (fn 0 i64)) o
      → WellTyped funs s
      → Types funs HasWord (then_run (input_function o s) (λ f. emit_last (create_call f [])))
  input-Types (some f) s h w = returns (typed_more (rw h (refl, tt)) w, rw h refl)
  input-Types none s h w = returns (
    typed_more (refl, tt)
        (typed_with (tt, w.calls) refl w.output_intrinsic w.error_intrinsic w.malloc_fun w),
    refl,
  )

  pub alloc-Types :
      (o : Option Value) (v : Value) (s : CodeState)
      → value_type v ≡ i64
      → HasType (ptr (fn 1 (ptr i8))) o
      → WellTyped funs s
      → Types funs HasWord (then_run (malloc_function o s) (alloc_code v))
  alloc-Types (some f) v s e h w = returns (
    typed_more tt (
        typed_more (rw e refl)
          (typed_more (rw h (tt, tt)) (typed_more (rw h (refl, (refl, tt))) w))),
    refl,
  )
  alloc-Types none v s e h w = returns (
    typed_more tt (
        typed_more (rw e refl) (
          typed_more (tt, tt)
            (typed_more (refl, (refl, tt))
              (typed_with (tt, w.calls) w.input_intrinsic w.output_intrinsic w.error_intrinsic refl
                w)))),
    refl,
  )

  pub binary-Types :
      (o : Option BinaryOp) (op : String) (l r : Value) (s : CodeState)
      → IsArithmetic o
      → value_type l ≡ i64
      → value_type r ≡ i64
      → WellTyped funs s
      → Types funs HasWord (binary_code o op l r s)
  binary-Types none op l r s h el er w = returns (logged w.named_values w, tt)
  binary-Types (some o) op l r s h el er w =
      returns (typed_more (el, er) w, arithmetic o (value_type l) h el)

  pub compare-Types :
      (o : Option BinaryOp) (op : String) (l r : Value) (s : CodeState)
      → value_type l ≡ i64
      → value_type r ≡ i64
      → WellTyped funs s
      → Types funs HasInteger (binary_code o op l r s)
  compare-Types none op l r s el er w = returns (logged w.named_values w, tt)
  compare-Types (some o) op l r s el er w =
      returns (typed_more (el, er) w, binary-IsInteger o (value_type l) el)
