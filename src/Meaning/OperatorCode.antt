-- ===== src/Meaning/OperatorCode.antt =====
-- The code of operators, of input and of what is at an address (src/TIPtreeGen.cpp) against their
-- meaning.
use tipc.Prelude.{
  arith, ◌≡◌, refl, ap, ap₂, Bool, true, false, String, String_eq, Option, none, some, List, [],
  ◌∷◌, length,
}
use tipc.Prelude.Dict.{lookup}
use tipc.Prelude.Result.{Post, returns}
use tipc.Prelude.State.{then_run}
use tipc.Llvm.{
  i64, ptr, fn, Value, null_ptr, result, BinaryOp, create_function, create_load, create_binary,
  create_int_to_ptr, create_ptr_to_int, create_call, call_type,
}
use tipc.Codegen.{
  CodeState, Code, LlvmFunction, declared, push_rest, input_function, emit_last, de_ref_code,
  binary_code, indexed,
}
use tipc.Codegen.Supported.{IsOperator}
use tipc.Meaning.{Machine, value, values, Steps, partial, done, step}
use tipc.Meaning.{◌>>=◌ as and_so}
use tipc.Meaning.Evaluate.{Scope, operation, at_address}
use tipc.Meaning.Linked.{IsKnown-later, IsStable}
use tipc.Meaning.Sequence.{sequence, means, one_call, no_code}
use tipc.Meaning.Parts.{stands, declare_input}
use tipc.Meaning.Computed.{Computed, Computes, word, words, part, joined_with}

module _ (M : Machine) (scope : Scope M) (table : M.Word) where
  -- Operators, the address of a word M scope table, and calls.
  pub binary-Computes :
      (o : Option BinaryOp) (op : String) (lv rv : Value) (s : CodeState)
      → IsOperator o
      → Post
          (Computed M scope table
            (word M scope table)
            s
            (λ r. partial (operation M scope o (value M r lv) (value M r rv))))
          (λ _. ⊥)
          (binary_code o op lv rv s)
  unfolding step
  binary-Computes none op lv rv s h = absurd h
  binary-Computes (some o) op lv rv s h = returns (
    one_call M scope table (create_binary o lv rv) (call_type (create_binary o lv rv)) s,
    (refl, refl, refl, refl, refl, IsKnown-later _ _ _ _ _ _ (omega arith)),
  )

  pub de_ref-Computes :
      (b : Bool) (gen_arg : Code (Option Value)) (s : CodeState) (meaning : Steps M.Memory M.Word)
      → b ≡ false
      → Computes M scope table s meaning (gen_arg s)
      → Computes M scope table s (and_so meaning (at_address M scope)) (de_ref_code b gen_arg s)
  unfolding step
  de_ref-Computes true gen_arg s meaning flag h = absurd (cc (flag))
  de_ref-Computes false gen_arg s meaning flag h = part M scope table _ h λ v s₁ runs keeps.
      let cast = create_int_to_ptr v in
      let s₂ = record s₁ { calls = cast ∷ s₁.calls } in
      let load = create_load (result (length s₁.calls) (ptr i64)) in
      joined_with M scope table (λ r. at_address M scope) runs keeps (λ r r₁ m same linked. refl)
        (returns (
          sequence M scope table (λ r p m. partial (M.load m p) m)
              (one_call M scope table cast (ptr i64) s₁)
              (one_call M scope table load (call_type load) s₂) (λ r r₁ m same linked. refl),
          (refl, refl, refl, refl, refl, IsKnown-later _ _ _ _ _ _ (omega arith)),
        ))

  pub input-Computes :
      (o : Option Value) (s : CodeState)
      → s.input_intrinsic ≡ o
      → Computes M scope table s
          (M.call (M.symbol "_tip_input") [])
          (then_run (input_function o s) (λ f. emit_last (create_call f [])))
  unfolding step
  input-Computes (some f) s e = returns (
    means M scope table
        (λ r m (named, indexed, ftable, input, output, error, malloc, nop).
          ap (λ w. M.call w [] m)
            (stands M scope table (length s.calls) r s.input_intrinsic f (M.symbol "_tip_input") e
              input))
        (one_call M scope table (create_call f []) (call_type (create_call f [])) s),
    (refl, refl, refl, refl, refl, IsKnown-later _ _ _ _ _ _ (omega arith)),
  )
  input-Computes none s e =
      let f : LlvmFunction = record {
        value = result (length s.calls) (ptr (fn 0 i64));
        arg_names = [];
      } in
      let symbols = declared (lookup "_tip_input" s.symbols) "_tip_input" f s.symbols in
      let s₁ = record s {
        calls = create_function "_tip_input" 0 i64 ∷ s.calls;
        symbols = symbols;
        input_intrinsic = some f.value;
      } in
      returns (
        sequence M scope table (λ r w. M.call w [])
            (declare_input M scope table 0 i64 (ptr (fn 0 i64)) s symbols)
            (one_call M scope table (create_call f.value []) i64 s₁) (λ r r₁ m same linked. refl),
        (refl, refl, refl, refl, refl, IsKnown-later _ _ _ _ _ _ (omega arith)),
      )

  pub null-Computes :
      (s : CodeState)
      → Computes M scope table s
          (done (M.ptr_to_int M.null))
          (emit_last (create_ptr_to_int null_ptr) s)
  unfolding step
  null-Computes s = returns (
    one_call M scope table (create_ptr_to_int null_ptr) i64 s,
    (refl, refl, refl, refl, refl, IsKnown-later _ _ _ _ _ _ (omega arith)),
  )

  -- An argument in front of the others.
  pub pushed :
      (v : Value) (vs : List Value) (s : CodeState)
      → IsStable M (length s.calls) (word M scope table v)
      → IsStable M (length s.calls) (words M scope table vs)
      → Post
          (Computed M scope table (words M scope table) s (λ r. done (value M r v ∷ values M r vs)))
          (λ _. ⊥)
          (push_rest v (some vs) s)
  pushed v vs s one rest = returns (
    no_code M scope table s (λ r. value M r v ∷ values M r vs)
        (λ r r' same. ap₂ (λ w ws. w ∷ ws) (one r r' same) (rest r r' same)),
    (refl, refl, refl, refl, refl, IsKnown-later _ _ _ _ _ _ (omega arith)),
  )
