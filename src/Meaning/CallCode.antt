-- ===== src/Meaning/CallCode.antt =====
-- The code of calls and of new cells (src/TIPtreeGen.cpp) against their meaning.
use tipc.Prelude.{suc, ◌≡◌, refl, ap, String_eq, Option, none, some, List, [], ◌∷◌, length, arith}
use tipc.Prelude.Int.{pos}
use tipc.Prelude.Dict.{lookup}
use tipc.Prelude.Result.{Post, returns}
use tipc.Prelude.State.{then_run, ◌>>=◌}
use tipc.Llvm.{
  i8, i64, ptr, fn, Value, const_int, result, Call, create_function, create_load, create_gep,
  create_pointer_cast, create_call, call_type, void, pointee, result_type, element, value_type,
}
use tipc.Tree.{Exprs}
use tipc.Codegen.{
  CodeState, LlvmFunction, declared, gen_args, count_exprs, malloc_function, alloc_code, not_null,
  indexed, call_code,
}
use tipc.Meaning.{Machine, value, values, partial, step}
use tipc.Meaning.{◌>>=◌ as and_so}
use tipc.Meaning.Evaluate.{Scope, IsLawful, new_cell, eval_args}
use tipc.Meaning.Linked.{IsKnown-later, IsStable}
use tipc.Meaning.Sequence.{sequence, means, one_call}
use tipc.Meaning.Parts.{stands, indexed-Runs, declare_malloc, cell-Runs}
use tipc.Meaning.Computed.{Computed, word, words, part, joined_with}

module _ (M : Machine) (scope : Scope M) (table : M.Word) (laws : IsLawful M scope table) where
  pub alloc-Computes :
      (o : Option Value) (v : Value) (s : CodeState)
      → s.malloc_fun ≡ o
      → IsStable M (length s.calls) (word M scope table v)
      → Post
          (Computed M scope table
            (word M scope table)
            s
            (λ r. new_cell M scope (M.symbol "malloc") (value M r v)))
          (λ _. ⊥)
          (then_run (malloc_function o s) (alloc_code v))
  alloc-Computes (some f) v s e stable = returns (
    means M scope table
        (λ r m (named, indexed, ftable, input, output, error, malloc, nop).
          rw (stands M scope table (length s.calls) r s.malloc_fun f (M.symbol "malloc") e malloc)
            refl)
        (cell-Runs M scope table laws f v (result_type (pointee (value_type f))) (ptr i64) void i64
          (ptr i64) s stable),
    (refl, refl, refl, refl, refl, IsKnown-later _ _ _ _ _ _ (omega arith)),
  )
  alloc-Computes none v s e stable =
      let f : LlvmFunction = record {
        value = result (length s.calls) (ptr (fn 1 (ptr i8)));
        arg_names = "" ∷ [];
      } in
      let symbols = declared (lookup "malloc" s.symbols) "malloc" f s.symbols in
      let s₁ = record s {
        calls = create_function "malloc" 1 (ptr i8) ∷ s.calls;
        symbols = symbols;
        malloc_fun = some f.value;
      } in
      returns (
        sequence M scope table (λ r g. new_cell M scope g (value M r v))
            (declare_malloc M scope table 1 (ptr i8) (ptr (fn 1 (ptr i8))) s symbols)
            (cell-Runs M scope table laws f.value v (ptr i8) (ptr i64) void i64 (ptr i64) s₁
              (λ r r' same. stable r r' λ i l. same i (omega (arith, l))))
            (λ r r₁ m same linked. rw (stable r r₁ same) refl),
        (refl, refl, refl, refl, refl, IsKnown-later _ _ _ _ _ _ (omega arith)),
      )

  -- A call of the function at an index.
  called-Computes :
      (f : Value) (vs : List Value) (s : CodeState)
      → Post
          (Computed M scope table
            (word M scope table)
            s
            (λ r. M.call (value M r f) (values M r vs)))
          (λ _. ⊥)
          (call_code f (some vs) s)
  unfolding step call_code
  called-Computes f vs s = returns (
    one_call M scope table (create_call f vs) (call_type (create_call f vs)) s,
    (refl, refl, refl, refl, refl, IsKnown-later _ _ _ _ _ _ (omega arith)),
  )

  pub apply-Computes :
      (o : Option Value) (t fv : Value) (es : Exprs) (s : CodeState)
      → s.tip_ftable ≡ o
      → o ≡ some t
      → ((cs : List Call)
          → Post
              (Computed M scope table
                (words M scope table)
                (record s { calls = cs })
                (λ r. eval_args M scope es))
              (λ _. ⊥)
              (gen_args es (record s { calls = cs })))
      → Post
          (Computed M scope table (word M scope table) s λ r.
            and_so
              (partial (scope.entry (value M r fv)))
              λ g. and_so (eval_args M scope es) λ ws. M.call g ws)
          (λ _. ⊥)
          (then_run
            (not_null o s)
            (λ ftable. indexed ftable fv (count_exprs es) >>= λ f. gen_args es >>= call_code f))
  apply-Computes none t fv es s e known args = absurd (cc (known))
  apply-Computes (some ftable) t fv es s e known args =
      let elem = element (pointee (value_type ftable)) in
      let cast = ptr (fn (count_exprs es) i64) in
      let f = result (suc (suc (length s.calls))) cast in
      let cs =
        create_pointer_cast (result (suc (length s.calls)) elem) cast
        ∷ create_load (result (length s.calls) (ptr elem))
        ∷ create_gep ftable (const_int (pos 0) ∷ fv ∷ [])
        ∷ s.calls in
      joined_with M scope table (λ r g. and_so (eval_args M scope es) λ ws. M.call g ws)
        (indexed-Runs M scope table laws ftable fv (ptr elem) elem cast cast s e)
        (refl, refl, refl, refl, refl, IsKnown-later _ _ _ _ _ _ (omega arith))
        (λ r r₁ m same linked. refl)
        (part M scope table (call_code f) (args cs) λ vs s₂ runs keeps.
          joined_with M scope table (λ r ws. M.call (value M r f) ws) runs keeps
            (λ r r₁ m same linked.
              ap (λ w. M.call w (values M r₁ vs) m)
                (same (suc (suc (length s.calls))) (omega arith)))
            (called-Computes f vs s₂))
