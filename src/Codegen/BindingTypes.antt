-- ===== src/Codegen/BindingTypes.antt =====
-- The types of the code for the formals and the variables of a function (src/TIPtreeGen.cpp).
use tipc.Prelude.{
  ℕ, suc, ◌+◌, ◌≤◌, length, arith, ◌≡◌, refl, String, String_eq, Bool, true, false, Option, none,
  some, List, [], ◌∷◌, All,
}
use tipc.Prelude.Dict.{insert}
use tipc.Prelude.Result.{Result, returns, throws}
use tipc.Prelude.State.{then_run, after}
use tipc.Llvm.{i64, ptr, array, Value, value_type, Call}
use tipc.Tree.{DeclStmt}
use tipc.Codegen.{CodeState, Code, LlvmFunction, not_null}
use tipc.Codegen.Statements.{gen_vars, gen_decl}
use tipc.Codegen.Functions.{gen_inputs, gen_formals, gen_decls, bind_arguments}
use tipc.Codegen.Supported.{Decls}
use tipc.Codegen.Typing.{IsTyped, WellTyped, Types}
use tipc.Codegen.OperandTypes.{IsAddress-insert}

-- A run whose value does not matter.
abbrev pub Keeps : {A : Type 0} → Decls → Result (A × CodeState) → Type 0
Keeps funs r = Types funs (λ _. Unit) r

module _ {funs : Decls} where
  bound_typed :
      (x : String) (v : Value) {s : CodeState} {cs : List Call}
      → value_type v ≡ ptr i64
      → All IsTyped cs
      → WellTyped funs s
      → WellTyped funs (record s { calls = cs; named_values = insert x (some v) s.named_values })
  bound_typed x v {s} e cs w = record {
    calls = cs;
    function_decls = w.function_decls;
    named_values = λ y. IsAddress-insert s.named_values x y (some v) e (w.named_values y);
    nop = w.nop;
    input_intrinsic = w.input_intrinsic;
    output_intrinsic = w.output_intrinsic;
    error_intrinsic = w.error_intrinsic;
    malloc_fun = w.malloc_fun;
    tip_ftable = w.tip_ftable;
    l_value_gen = w.l_value_gen;
  }

  vars-Types :
      (f : Value) (xs : List String) (local : Option Value) (s : CodeState)
      → WellTyped funs s
      → Keeps funs (gen_vars f xs local s)
  unfolding gen_vars
  vars-Types f [] local s w = returns (w, tt)
  vars-Types f (x ∷ xs) local s w =
      vars-Types f xs _ _ (bound_typed x _ refl (refl, (tt, w.calls)) w)

  formals-Types :
      (f : Value) (xs : List String) (n : ℕ) (s : CodeState)
      → WellTyped funs s
      → Keeps funs (gen_formals f xs n s)
  unfolding gen_formals
  formals-Types f [] n s w = returns (w, tt)
  formals-Types f (x ∷ xs) n s w =
      formals-Types f xs (suc n) _ (bound_typed x _ refl (refl, (tt, w.calls)) w)

  given-Types :
      {A : Type 0} (P : Value → Type 0) (o : Option Value) (s : CodeState) (next : Value → Code A)
      → ((v : Value) → o ≡ some v → P v)
      → ((v : Value) → P v → Keeps funs (next v s))
      → Keeps funs (then_run (not_null o s) next)
  given-Types P none s next h later = throws tt
  given-Types P (some v) s next h later = later v (h v refl)

  inputs-Types :
      (f : Value) (xs : List String) (n k : ℕ) (s : CodeState)
      → n + length xs ≤ k
      → ((v : Value) → s.tip_input_array ≡ some v → value_type v ≡ ptr (array k i64))
      → WellTyped funs s
      → Keeps funs (gen_inputs f xs n s)
  unfolding gen_inputs
  inputs-Types f [] n k s bound h w = returns (w, tt)
  inputs-Types f (x ∷ xs) n k s bound h w =
      given-Types (λ v. value_type v ≡ ptr (array k i64)) s.tip_input_array _ _ h
        λ v e. inputs-Types f xs (suc n) k _ (omega (arith, bound)) h (
          bound_typed x _ refl
            (rw e refl, (tt, (rw e (tt, (refl, (refl, tt)), omega (arith, bound)), (tt, w.calls))))
            w)

  pub arguments-Types :
      (is_main : Bool) (f : LlvmFunction) (xs : List String) (k : ℕ) (s : CodeState)
      → (is_main ≡ true → length xs ≤ k)
      → ((v : Value) → s.tip_input_array ≡ some v → value_type v ≡ ptr (array k i64))
      → WellTyped funs s
      → Keeps funs (bind_arguments is_main f xs s)
  arguments-Types true f xs k s bound h w =
      inputs-Types f.value xs 0 k s (omega (arith, bound refl)) h w
  arguments-Types false f xs k s bound h w = formals-Types f.value f.arg_names 0 s w

  decl-Types : (d : DeclStmt) (s : CodeState) → WellTyped funs s → Keeps funs (gen_decl d s)
  unfolding gen_decl
  decl-Types d s w =
      given-Types (λ _. Unit) s.insert_function s _ (λ _ _. tt) λ f _. vars-Types f d.vars none s w

  pub decls-Types :
      (ds : List DeclStmt) (b : Bool) (s : CodeState)
      → WellTyped funs s
      → Keeps funs (gen_decls ds b s)
  unfolding gen_decls
  decls-Types [] b s w = returns (w, tt)
  decls-Types (d ∷ ds) b s w =
      after (λ t _. tt) (decl-Types d s w) λ o s₁ (w₁, _). decls-Types ds _ s₁ w₁
