-- ===== src/Codegen/Inputs.antt =====
-- The number of the program's inputs (`NumTIPArgs` in src/TIPtreeGen.cpp), which is that of the
-- formals of `main`.
use tipc.Prelude.{
  ℕ, suc, ◌≡◌, ◌≢◌, refl, ◌∙◌, sym, ap, String, String_eq, Bool, Bool-cases, inl, inr, true, false,
  ◌==◌, none, some, Option, List, [], ◌∷◌, All, length,
}
use tipc.Prelude.Dict.{lookup}
use tipc.Prelude.Result.{Post, returns}
use tipc.Prelude.State.{◌⇒◌, ◌>>=◌, ◌>>◌}
use tipc.Tree.{TipFunction}
use tipc.Prelude.Int.{pos}
use tipc.Llvm.{i64, array, const_int, Call, create_global}
use tipc.Codegen.{CodeState, Code, LlvmFunction, get}
use tipc.Codegen.Functions.{
  create_functions, create_table, make_table, get_function, created_function, module_name,
  main_unless, create_inputs, zeros,
}
use tipc.Codegen.FunctionTypes.{both, IsSized}
use tipc.Codegen.Table.{
  IsAt, here, there, IsDistinct, declare_functions-first, lookup-decl_table_first,
}
use tipc.Codegen.Creation.{NewIn, get_function-new, All-IsAt}

abbrev pub IsMain : TipFunction → Type 0
IsMain f = (f.name == "main") ≡ true

abbrev IsOther : TipFunction → Type 0
IsOther f = (f.name == "main") ≡ false

abbrev Sizes : TipFunction → CodeState → LlvmFunction × CodeState → Type 0
Sizes f s q = IsSized q.1.num_tip_args f × (IsOther f → q.1.num_tip_args ≡ s.num_tip_args)

get_function-Sizes :
    (f : TipFunction) (i : ℕ) (s : CodeState)
    → lookup f.name s.function_decls ≡ some (i, f.formals)
    → NewIn (module_name f.name) s
    → Post (Sizes f s) (λ _. ⊥) (get_function f.name s)
unfolding get_function
get_function-Sizes f i s found new = rw (found, new) (go (f.name == "main"))
  where
    go :
        (is_main : Bool)
        → Post
            (λ q.
              (is_main ≡ true → length f.formals ≡ q.1.num_tip_args)
              × (is_main ≡ false → q.1.num_tip_args ≡ s.num_tip_args))
            (λ _. ⊥)
            (created_function is_main f.name f.formals s)
    go true = returns ((λ e. refl), (λ e. absurd (cc (e))))
    go false = returns ((λ e. absurd (cc (e))), (λ e. refl))

same_name : (f g : TipFunction) → IsMain f → IsMain g → module_name f.name ≡ module_name g.name
same_name f g e t = rw (e, t) refl

-- Only one function is `main`.
others :
    (f : TipFunction) (fs : List TipFunction)
    → IsMain f
    → All (λ g. module_name f.name ≢ module_name g.name) fs
    → All IsOther fs
others f [] e h = tt
others f (g ∷ fs) e (h, hs) = (
  elim (Bool-cases (g.name == "main")) [
    | inl t ↦ absurd (h (same_name f g e t))
    | inr other ↦ other
  ],
  others f fs e hs,
)

create_functions-Sizes :
    (fs : List TipFunction) (s : CodeState)
    → IsDistinct fs
    → ((f : TipFunction) (k : ℕ)
        → IsAt f k fs
        → (i : ℕ) × (lookup f.name s.function_decls ≡ some (i, f.formals)))
    → ((f : TipFunction) (k : ℕ) → IsAt f k fs → NewIn (module_name f.name) s)
    → Post
        (λ q.
          All (IsSized q.1.num_tip_args) fs × (All IsOther fs → q.1.num_tip_args ≡ s.num_tip_args))
        (λ _. ⊥)
        (create_functions fs s)
unfolding create_functions
create_functions-Sizes [] s distinct found new = returns (tt, (λ h. refl))
create_functions-Sizes (f ∷ fs) s (ne, distinct) found new =
    both (get_function-new f (found f 0 here).0 s (found f 0 here).1 (new f 0 here))
      (get_function-Sizes f (found f 0 here).0 s (found f 0 here).1 (new f 0 here))
    ⇒ λ fun s₁ (c, (size, kept)).
        create_functions-Sizes fs s₁ distinct
          (λ g k at. rw c.passage.function_decls (found g (suc k) (there at)))
          (λ g k at.
            c.others _ (All-IsAt (λ g. module_name f.name ≢ module_name g.name) at ne)
              (new g (suc k) (there at)))
        ⇒ λ vs s₂ (sizes, rest).
            returns (
              ((λ e. size e ∙ sym (rest (others f fs e ne))), sizes),
              (λ (h, hs). rest hs ∙ kept h),
            )

pub make_table-IsSized :
    (fs : List TipFunction) (s : CodeState)
    → IsDistinct fs
    → ((f : TipFunction) (k : ℕ) → IsAt f k fs → NewIn (module_name f.name) s)
    → Post (λ q. All (IsSized q.1.num_tip_args) fs) (λ _. ⊥) (make_table fs s)
unfolding make_table create_table
make_table-IsSized fs s distinct new = rw (declare_functions-first fs s) (
    create_functions-Sizes fs _ distinct
      (λ f k at. (k, lookup-decl_table_first s.function_decls at distinct)) new
    ⇒ λ vs s₁ (sizes, kept). returns sizes)

pub main_unless-IsSized :
    (fs : List TipFunction) (d : Option (ℕ × List String)) (s : CodeState)
    → All (IsSized s.num_tip_args) fs
    → Post (λ q. All (IsSized q.1.num_tip_args) fs) (λ _. ⊥) (main_unless d s)
main_unless-IsSized fs (some d) s h = returns h
main_unless-IsSized fs none s h = returns h

-- The passes before the code of the functions.
abbrev pub prologue : List TipFunction → Code (Unit {0})
prologue fs = do make_table fs; s ← get; main_unless (lookup "main" s.function_decls); create_inputs

-- The last calls make the globals of the inputs: their number, and an array of so many words.
abbrev pub HasInputGlobals : ℕ → CodeState → Type 0
HasInputGlobals n s =
    (before : List Call) × (s.calls
      ≡ create_global "_tip_input_array" (array n i64) (zeros n)
        ∷ create_global "_tip_num_inputs" i64 (const_int (pos n) ∷ [])
        ∷ before)

-- For functions that have different names in the module, and new ones, the passes before the code
-- of the functions end, and the globals that the runtime reads have the number of the formals of
-- `main`, and an array of so many words.
pub prologue-HasInputGlobals :
    (fs : List TipFunction) (s : CodeState) (f : TipFunction) (k : ℕ)
    → IsDistinct fs
    → ((f : TipFunction) (k : ℕ) → IsAt f k fs → NewIn (module_name f.name) s)
    → IsAt f k fs
    → IsMain f
    → Post (λ q. HasInputGlobals (length f.formals) q.1) (λ _. ⊥) (prologue fs s)
unfolding create_inputs
prologue-HasInputGlobals fs s f k distinct new at main =
    make_table-IsSized fs s distinct new ⇒ λ _ s₁ sized₁.
    main_unless-IsSized fs (lookup "main" s₁.function_decls) s₁ sized₁ ⇒ λ _ s₂ sized₂. returns (
      _,
      ap
          (λ n.
            create_global "_tip_input_array" (array n i64) (zeros n)
            ∷ create_global "_tip_num_inputs" i64 (const_int (pos n) ∷ [])
            ∷ s₂.calls)
          (sym (All-IsAt (IsSized s₂.num_tip_args) at sized₂ main)),
    )
