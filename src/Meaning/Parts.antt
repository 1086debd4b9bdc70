-- ===== src/Meaning/Parts.antt =====
-- The parts of an expression's code (src/TIPtreeGen.cpp), when they run.
use tipc.Meaning.{set}
use tipc.Prelude.{
  suc, ℕ, ◌≡◌, refl, sym, ap, ◌∙◌, String, String_eq, Option, none, some, [], ◌∷◌, length, subst,
  arith,
}
use tipc.Prelude.Int.{pos}
use tipc.Prelude.Dict.{Dict}
use tipc.Llvm.{
  Ty, Value, const_int, result, Call, create_function, create_load, create_store, create_gep,
  create_pointer_cast, create_ptr_to_int, create_call,
}
use tipc.Codegen.{CodeState, LlvmFunction}
use tipc.Meaning.{Machine, Results, value, and_then, ◌>>=◌, partial, done, stored, step}
use tipc.Meaning.Evaluate.{Scope, IsLawful, new_cell}
use tipc.Meaning.Linked.{IsKnown, set_last, IsStable, StandsFor}
use tipc.Meaning.Sequence.{Runs, sequence, means, one_call, one_call_with}

-- What an expression leaves as it was.
abbrev pub Keeps : CodeState → CodeState → Type 0
Keeps s s' =
    (s'.named_values ≡ s.named_values)
    × (s'.function_decls ≡ s.function_decls)
    × (s'.l_value_gen ≡ s.l_value_gen)
    × (s'.tip_ftable ≡ s.tip_ftable)
    × (s'.nop ≡ s.nop)
    × (IsKnown s → IsKnown s')

pub Keeps-trans : (s t u : CodeState) → Keeps s t → Keeps t u → Keeps s u
Keeps-trans s t u (a, b, c, d, n, k) (e, f, g, h, n', l) =
    (e ∙ a, f ∙ b, g ∙ c, h ∙ d, n' ∙ n, λ j. l (k j))

abbrev pub after_call : Call → CodeState → CodeState
after_call c s = record s { calls = c ∷ s.calls }

-- The value of the next call.
abbrev pub next_value : CodeState → Ty → Value
next_value s t = result (length s.calls) t

module _ (M : Machine) (scope : Scope M) (table : M.Word) where
  pub stands :
      (n : ℕ) (r : Results M) (o : Option Value) (v : Value) (w : M.Word)
      → o ≡ some v
      → StandsFor M n r o w
      → value M r v ≡ w
  stands n r o v w e h = (subst (λ o. StandsFor M n r o w) e h).1

  -- The function at an index of the dispatch table.
  cast_entry :
      (laws : IsLawful M scope table) (t : Ty) (o : Option M.Word) (m : M.Memory)
      → and_then (partial o m) (λ (p, m'). some (M.cast t p, m')) ≡ partial o m
  cast_entry laws t none m = refl
  cast_entry laws t (some p) m = ap (λ w. some (w, m)) (laws.cast_same t p)

  pub indexed-Runs :
      (laws : IsLawful M scope table) (ftable fv : Value) (a b c t : Ty) (s : CodeState)
      → s.tip_ftable ≡ some ftable
      → let s₁ = after_call (create_gep ftable (const_int (pos 0) ∷ fv ∷ [])) s in
        let s₂ = after_call (create_load (next_value s a)) s₁ in
        Runs M scope table s
          (after_call (create_pointer_cast (next_value s₁ b) t) s₂)
          (λ r. value M r (next_value s₂ c))
          (λ r. partial (scope.entry (value M r fv)))
  unfolding step
  indexed-Runs laws ftable fv a b c t s found =
      let gep = create_gep ftable (const_int (pos 0) ∷ fv ∷ []) in
      let s₁ = after_call gep s in
      let load = create_load (next_value s a) in
      let s₂ = after_call load s₁ in
      means M scope table
        (λ r m (named, indexed, ftable_stands, input, output, error, malloc, nop).
          let at : value M r ftable ≡ table =
            stands (length s.calls) r s.tip_ftable ftable table found ftable_stands in
          rw (at, laws.entries m (value M r fv)) (cast_entry laws t (scope.entry (value M r fv)) m))
        (sequence M scope table
          (λ r p m. and_then (partial (M.load m p) m) (λ (g, m'). some (M.cast t g, m')))
          (one_call M scope table gep a s)
          (sequence M scope table (λ r g m. some (M.cast t g, m)) (one_call M scope table load b s₁)
            (one_call M scope table (create_pointer_cast (next_value s₁ b) t) c s₂)
            (λ r r₁ m same linked. refl))
          (λ r r₁ m same linked. refl))

  same_word :
      {w w' : M.Word} {m m' : M.Memory}
      → ◌≡◌ {A = Option (M.Word × M.Memory)} (some (w, m)) (some (w', m'))
      → w ≡ w'
  same_word {w} e = ap (λ o. elim o [ none ↦ w | some p ↦ p.0 ]) e

  declared_stands :
      (f : String) (k : ℕ) (t u : Ty) (s : CodeState) (r : Results M) (w : M.Word) (m m' : M.Memory)
      → step M r (create_function f k t) m ≡ some (w, m')
      → StandsFor M
          (suc (length s.calls))
          (set M r (length s.calls) w)
          (some (next_value s u))
          (M.symbol f)
  unfolding step
  declared_stands f k t u s r w m m' e =
      (omega arith, set_last M r (length s.calls) w ∙ sym (same_word e))

  -- A function of the runtime, declared at its first use.
  pub declare_input :
      (k : ℕ) (t u : Ty) (s : CodeState) (fs : Dict String LlvmFunction)
      → Runs M scope table s
          (record s {
            calls = create_function "_tip_input" k t ∷ s.calls;
            symbols = fs;
            input_intrinsic = some (next_value s u);
          })
          (λ r. value M r (next_value s u))
          (λ r. done (M.symbol "_tip_input"))
  unfolding step
  declare_input k t u s fs =
      one_call_with M scope table (create_function "_tip_input" k t) u s fs (some (next_value s u))
        s.output_intrinsic s.error_intrinsic s.malloc_fun
        λ r w m₁ m₂ e (named, indexed, ftable, input, output, error, malloc, nop). (
          named,
          indexed,
          ftable,
          declared_stands "_tip_input" k t u s r w m₁ m₂ e,
          output,
          error,
          malloc,
          nop,
        )

  pub declare_output :
      (k : ℕ) (t u : Ty) (s : CodeState) (fs : Dict String LlvmFunction)
      → Runs M scope table s
          (record s {
            calls = create_function "_tip_output" k t ∷ s.calls;
            symbols = fs;
            output_intrinsic = some (next_value s u);
          })
          (λ r. value M r (next_value s u))
          (λ r. done (M.symbol "_tip_output"))
  unfolding step
  declare_output k t u s fs =
      one_call_with M scope table (create_function "_tip_output" k t) u s fs s.input_intrinsic
        (some (next_value s u)) s.error_intrinsic s.malloc_fun
        λ r w m₁ m₂ e (named, indexed, ftable, input, output, error, malloc, nop). (
          named,
          indexed,
          ftable,
          input,
          declared_stands "_tip_output" k t u s r w m₁ m₂ e,
          error,
          malloc,
          nop,
        )

  pub declare_error :
      (k : ℕ) (t u : Ty) (s : CodeState) (fs : Dict String LlvmFunction)
      → Runs M scope table s
          (record s {
            calls = create_function "_tip_error" k t ∷ s.calls;
            symbols = fs;
            error_intrinsic = some (next_value s u);
          })
          (λ r. value M r (next_value s u))
          (λ r. done (M.symbol "_tip_error"))
  unfolding step
  declare_error k t u s fs =
      one_call_with M scope table (create_function "_tip_error" k t) u s fs s.input_intrinsic
        s.output_intrinsic (some (next_value s u)) s.malloc_fun
        λ r w m₁ m₂ e (named, indexed, ftable, input, output, error, malloc, nop). (
          named,
          indexed,
          ftable,
          input,
          output,
          declared_stands "_tip_error" k t u s r w m₁ m₂ e,
          malloc,
          nop,
        )

  pub declare_malloc :
      (k : ℕ) (t u : Ty) (s : CodeState) (fs : Dict String LlvmFunction)
      → Runs M scope table s
          (record s {
            calls = create_function "malloc" k t ∷ s.calls;
            symbols = fs;
            malloc_fun = some (next_value s u);
          })
          (λ r. value M r (next_value s u))
          (λ r. done (M.symbol "malloc"))
  unfolding step
  declare_malloc k t u s fs =
      one_call_with M scope table (create_function "malloc" k t) u s fs s.input_intrinsic
        s.output_intrinsic s.error_intrinsic (some (next_value s u))
        λ r w m₁ m₂ e (named, indexed, ftable, input, output, error, malloc, nop). (
          named,
          indexed,
          ftable,
          input,
          output,
          error,
          declared_stands "malloc" k t u s r w m₁ m₂ e,
          nop,
        )

  -- A new cell, once the function is there.
  pub cell-Runs :
      (laws : IsLawful M scope table) (f v : Value) (a b c d t : Ty) (s : CodeState)
      → IsStable M (length s.calls) (λ r. value M r v)
      → let s₁ = after_call (create_call f (const_int (pos 8) ∷ [])) s in
        let s₂ = after_call (create_pointer_cast (next_value s a) t) s₁ in
        let s₃ = after_call (create_store v (next_value s₁ b)) s₂ in
        Runs M scope table s
          (after_call (create_ptr_to_int (next_value s₁ b)) s₃)
          (λ r. value M r (next_value s₃ d))
          (λ r. new_cell M scope (value M r f) (value M r v))
  unfolding step
  cell-Runs laws f v a b c d t s stable =
      let call = create_call f (const_int (pos 8) ∷ []) in
      let s₁ = after_call call s in
      let cast = create_pointer_cast (next_value s a) t in
      let s₂ = after_call cast s₁ in
      let store = create_store v (next_value s₁ b) in
      let s₃ = after_call store s₂ in
      sequence M scope table
        (λ r p. (λ m. stored M (M.store m p (value M r v))) >>= λ _. done (M.ptr_to_int p))
        (one_call M scope table call a s)
        (sequence M scope table
          (λ r p. (λ m. stored M (M.store m p (value M r v))) >>= λ _. done (M.ptr_to_int p))
          (one_call M scope table cast b s₁)
          (sequence M scope table (λ r _. done (M.ptr_to_int (value M r (next_value s₁ b))))
            (one_call M scope table store c s₂)
            (one_call M scope table (create_ptr_to_int (next_value s₁ b)) d s₃)
            (λ r r₁ m same linked. rw (same (length s₁.calls) (omega arith)) refl))
          (λ r r₁ m same linked. rw (stable r r₁ λ i l. same i (omega (arith, l))) refl))
        (λ r r₁ m same linked.
          rw (laws.cast_same t (value M r₁ (next_value s a)), stable r r₁ same) refl)
