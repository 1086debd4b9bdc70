-- ===== src/Codegen/Creation.antt =====
-- `getFunction` for functions that are not there yet, and the shallow pass that makes the dispatch
-- table (src/TIPtreeGen.cpp).
use tipc.Prelude.{
  if◌then◌else◌, ℕ, suc, ◌≡◌, ◌≢◌, refl, ◌∙◌, ap, String, String_eq, Bool, true, false, ◌==◌, none,
  some, List, [], ◌∷◌, All, length,
}
use tipc.Prelude.Dict.{lookup, lookup-insert_self, lookup-insert_ne}
use tipc.Prelude.Result.{Result, Post, returns}
use tipc.Prelude.State.{◌⇒◌}
use tipc.Llvm.{result, i64, ptr, create_function, Value, Call, create_global, array, cast_const}
use tipc.Tree.{TipFunction}
use tipc.Codegen.{CodeState, LlvmFunction, declared}
use tipc.Codegen.Grown.{Kept-declared}
use tipc.Codegen.BodyLaws.{Passage, Passage-trans, passed}
use tipc.Codegen.Functions.{
  create_functions, create_table, make_table, get_function, created_function, module_name,
  cast_functions, generic_pointer,
}
use tipc.Codegen.Table.{
  IsAt, here, there, IsDistinct, decl_table, declare_functions-first, lookup-decl_table_first,
}

-- A function whose name is new in the module, and the state after its creation.
abbrev pub NewIn : String → CodeState → Type 0
NewIn x s = lookup x s.symbols ≡ none

pub record Created (n : String) (args : List String) (s : CodeState) (q : LlvmFunction × CodeState)
    : Type 0 where
  pub symbol : lookup n q.1.symbols ≡ some q.0
  pub arg_names : q.0.arg_names ≡ args
  pub calls : q.1.calls ≡ create_function n (length args) i64 ∷ s.calls
  pub passage : Passage false false s q.1
  pub others : (x : String) → n ≢ x → NewIn x s → NewIn x q.1

created :
    {n : String} {num : ℕ} (f : LlvmFunction) {s : CodeState}
    → NewIn n s
    → Created n f.arg_names s (
      f,
      record s {
        calls = create_function n (length f.arg_names) i64 ∷ s.calls;
        symbols = declared (lookup n s.symbols) n f s.symbols;
        num_tip_args = num;
      },
    )
created {n} f {s} new = record {
  calls = refl;
  symbol = rw new (lookup-insert_self n f s.symbols);
  arg_names = refl;
  passage = record {
    flow = λ h. rw h refl;
    fresh = λ h. h;
    nop = refl;
    l_value_gen = refl;
    tip_ftable = refl;
    tip_input_array = refl;
    function_decls = refl;
    symbols = Kept-declared (lookup n s.symbols) n f s.symbols refl;
  };
  others = λ x ne h. rw new (lookup-insert_ne x n f s.symbols ne ∙ h);
}

abbrev pub Makes : TipFunction → CodeState → Result (LlvmFunction × CodeState) → Type 0
Makes f s r =
    Post (λ q. Created (module_name f.name) (if f.name == "main" then [] else f.formals) s q)
      (λ _. ⊥) r

pub get_function-new :
    (f : TipFunction) (i : ℕ) (s : CodeState)
    → lookup f.name s.function_decls ≡ some (i, f.formals)
    → NewIn (module_name f.name) s
    → Makes f s (get_function f.name s)
unfolding get_function
get_function-new f i s found new = rw (found, new) (go (f.name == "main") new)
  where
    go :
        (is_main : Bool)
        → NewIn (if is_main then "_tip_main" else f.name) s
        → Post
            (λ q.
              Created
                (if is_main then "_tip_main" else f.name)
                (if is_main then [] else f.formals)
                s
                q)
            (λ _. ⊥)
            (created_function is_main f.name f.formals s)
    go true new = returns (created _ new)
    go false new = returns (created _ new)

-- The function that the module has for one of the source, and its value at an index.
abbrev pub Entry : List Value → CodeState → TipFunction → ℕ → Type 0
Entry vs s f k =
    (fun : LlvmFunction) × (lookup (module_name f.name) s.symbols ≡ some fun)
    × (fun.arg_names ≡ (if f.name == "main" then [] else f.formals))
    × IsAt fun.value k vs

-- The calls that create the functions, one for each, with the parameters of its formals.
abbrev pub created_calls : List TipFunction → List Call → List Call
created_calls [] cs = cs
created_calls (f ∷ fs) cs = created_calls fs (
    create_function (module_name f.name) (length (if f.name == "main" then [] else f.formals)) i64
    ∷ cs)

pub record Tabled (fs : List TipFunction) (s : CodeState) (q : List Value × CodeState)
    : Type 0 where
  pub passage : Passage false false s q.1
  pub calls : q.1.calls ≡ created_calls fs s.calls
  pub entry : (f : TipFunction) (k : ℕ) → IsAt f k fs → Entry q.0 q.1 f k

pub All-IsAt :
    {A : Type 0} (P : A → Type 0) {a : A} {k : ℕ} {rest : List A} → IsAt a k rest → All P rest → P a
All-IsAt P here (p, _) = p
All-IsAt P (there at) (_, ps) = All-IsAt P at ps

first-Entry :
    (f : TipFunction) {fun : LlvmFunction} {s s₁ s₂ : CodeState} {vs : List Value}
    → Created (module_name f.name) (if f.name == "main" then [] else f.formals) s (fun, s₁)
    → Passage false false s₁ s₂
    → Entry (fun.value ∷ vs) s₂ f 0
first-Entry f {fun} c p = (fun, p.symbols _ _ c.symbol, c.arg_names, here)

entries :
    (f : TipFunction) (s : CodeState) {fs : List TipFunction} {v : Value} {vs : List Value}
    → Entry (v ∷ vs) s f 0
    → ((g : TipFunction) (k : ℕ) → IsAt g k fs → Entry vs s g k)
    → (g : TipFunction) (k : ℕ) → IsAt g k (f ∷ fs)
    → Entry (v ∷ vs) s g k
entries f s first rest g k here = first
entries f s first rest g k (there {k = j} at) =
    let (fun, symbol, names, value) = rest g j at in (fun, symbol, names, there value)

pub create_functions-Tabled :
    (fs : List TipFunction) (s : CodeState)
    → IsDistinct fs
    → ((f : TipFunction) (k : ℕ)
        → IsAt f k fs
        → (i : ℕ) × (lookup f.name s.function_decls ≡ some (i, f.formals)))
    → ((f : TipFunction) (k : ℕ) → IsAt f k fs → NewIn (module_name f.name) s)
    → Post (Tabled fs s) (λ _. ⊥) (create_functions fs s)
unfolding create_functions
create_functions-Tabled [] s distinct found new =
    returns (record { passage = passed (λ h. h) refl; calls = refl; entry = nothing })
  where
    nothing : (f : TipFunction) (k : ℕ) → IsAt f k [] → Entry [] s f k
    nothing f k at = elim at [ ]
create_functions-Tabled (f ∷ fs) s (ne, distinct) found new =
    get_function-new f (found f 0 here).0 s (found f 0 here).1 (new f 0 here) ⇒ λ fun s₁ c.
    create_functions-Tabled fs s₁ distinct
      (λ g k at. rw c.passage.function_decls (found g (suc k) (there at)))
      (λ g k at.
        c.others _ (All-IsAt (λ g. module_name f.name ≢ module_name g.name) at ne)
          (new g (suc k) (there at)))
    ⇒ λ vs s₂ more. returns (record {
      passage = Passage-trans c.passage more.passage;
      calls = more.calls ∙ ap (created_calls fs) c.calls;
      entry = entries f s₂ (first-Entry f c more.passage) more.entry;
    })

cast-IsAt :
    {v : Value} {k : ℕ} {vs : List Value}
    → IsAt v k vs
    → IsAt (cast_const v generic_pointer) k (cast_functions vs)
cast-IsAt here = here
cast-IsAt (there at) = there (cast-IsAt at)

-- The last call makes the table that `tipFTable` points to, with an entry for each function, and
-- the entry of a function is at its index.
pub record HasTable (fs : List TipFunction) (s : CodeState) : Type 0 where
  pub before : List Call
  pub elements : List Value
  pub calls :
      s.calls ≡ create_global "_tip_ftable" (array (length fs) generic_pointer) elements ∷ before
  pub tip_ftable :
      s.tip_ftable ≡ some (result (length before) (ptr (array (length fs) generic_pointer)))
  pub entry :
      (f : TipFunction) (k : ℕ)
      → IsAt f k fs
      → (fun : LlvmFunction) × (lookup (module_name f.name) s.symbols ≡ some fun)
        × (fun.arg_names ≡ (if f.name == "main" then [] else f.formals))
        × (lookup f.name s.function_decls ≡ some (k, f.formals))
        × IsAt (cast_const fun.value generic_pointer) k elements

-- For functions that have different names in the module, and new ones, the shallow pass makes a
-- dispatch table with one entry for each function in which the entry at the index that
-- `FunctionDecls` has for a function is the one that the module has under its name. `FunctionDecls`
-- has its formals. The calls made are the creation of each function, in order and with a parameter
-- for each formal (none for `main`), and then that of the table; the flag for l-values, the intrinsic
-- nop and the input array are as they were, and the functions of the module are kept.
pub make_table-HasTable :
    (fs : List TipFunction) (s : CodeState)
    → IsDistinct fs
    → ((f : TipFunction) (k : ℕ) → IsAt f k fs → NewIn (module_name f.name) s)
    → Post
        (λ q.
          (h : HasTable fs q.1) × (h.before ≡ created_calls fs s.calls)
          × Passage false false
              (record s {
                function_decls = decl_table fs 0 s.function_decls;
                tip_ftable = q.1.tip_ftable;
              })
              q.1)
        (λ _. ⊥)
        (make_table fs s)
unfolding make_table create_table
make_table-HasTable fs s distinct new = rw (declare_functions-first fs s) (
    create_functions-Tabled fs _ distinct
      (λ f k at. (k, lookup-decl_table_first s.function_decls at distinct)) new
    ⇒ λ vs s₁ made. returns (
      record {
        before = s₁.calls;
        elements = cast_functions vs;
        calls = refl;
        tip_ftable = refl;
        entry = λ f k at.
            let (fun, symbol, names, value) = made.entry f k at in
            (
              fun,
              symbol,
              names,
              ap (lookup f.name) made.passage.function_decls
                  ∙ lookup-decl_table_first s.function_decls at distinct,
              cast-IsAt value,
            );
      },
      made.calls,
      record {
        flow = λ h. rw (made.passage.flow h) refl;
        fresh = made.passage.fresh;
        nop = made.passage.nop;
        l_value_gen = made.passage.l_value_gen;
        tip_ftable = refl;
        tip_input_array = made.passage.tip_input_array;
        function_decls = made.passage.function_decls;
        symbols = made.passage.symbols;
      },
    ))
