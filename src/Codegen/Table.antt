-- ===== src/Codegen/Table.antt =====
-- The dispatch table (`Program::codegen` in src/TIPtreeGen.cpp): the index of a function, and what
-- stands at that index.
use tipc.Prelude.{
  ℕ, suc, ◌+◌, ◌≡◌, ◌≢◌, refl, ◌∙◌, sym, ap, String, String_eq, some, List, [], ◌∷◌, All, length,
  arith,
}
use tipc.Prelude.Dict.{lookup, insert, lookup-insert_self, lookup-insert_ne}
use tipc.Prelude.Result.{ok}
use tipc.Tree.{TipFunction}
use tipc.Codegen.{CodeState}
use tipc.Codegen.Functions.{declare_functions, module_name}
use tipc.Codegen.Supported.{Decls}

-- What stands at an index.
pub data IsAt {A : Type 0} (a : A) : ℕ → List A → Type 0 where
  here : {rest : List A} → IsAt a 0 (a ∷ rest)
  there : {k : ℕ} {b : A} {rest : List A} → IsAt a k rest → IsAt a (suc k) (b ∷ rest)

-- Functions that have different names in the module.
abbrev pub IsDistinct : List TipFunction → Type 0
IsDistinct [] = Unit
IsDistinct (f ∷ fs) = All (λ g. module_name f.name ≢ module_name g.name) fs × IsDistinct fs

-- `FunctionDecls` after the first pass.
unfoldable pub decl_table : List TipFunction → ℕ → Decls → Decls
decl_table [] idx decls = decls
decl_table (f ∷ fs) idx decls = decl_table fs (suc idx) (insert f.name (idx, f.formals) decls)

pub declare_functions-run :
    (fs : List TipFunction) (idx : ℕ) (s : CodeState)
    → declare_functions fs idx s
      ≡ ok (idx + length fs, record s { function_decls = decl_table fs idx s.function_decls })
unfolding declare_functions decl_table
declare_functions-run [] idx s = ap (λ n. ok (n, s)) (omega arith)
declare_functions-run (f ∷ fs) idx s =
    declare_functions-run fs (suc idx)
      (record s { function_decls = insert f.name (idx, f.formals) s.function_decls })
    ∙ ap (λ n. ok (n, record s { function_decls = decl_table (f ∷ fs) idx s.function_decls }))
        (omega arith)

lookup-decl_table_ne :
    (x : String) (fs : List TipFunction) (idx : ℕ) (decls : Decls)
    → All (λ g. x ≢ g.name) fs
    → lookup x (decl_table fs idx decls) ≡ lookup x decls
unfolding decl_table
lookup-decl_table_ne x [] idx decls h = refl
lookup-decl_table_ne x (g ∷ fs) idx decls (h, hs) =
    lookup-decl_table_ne x fs (suc idx) (insert g.name (idx, g.formals) decls) hs
    ∙ lookup-insert_ne x g.name (idx, g.formals) decls (λ e. h (sym e))

other_names :
    (f : TipFunction) (fs : List TipFunction)
    → All (λ g. module_name f.name ≢ module_name g.name) fs
    → All (λ g. f.name ≢ g.name) fs
other_names f [] h = tt
other_names f (g ∷ fs) (h, hs) = ((λ e. h (ap module_name e)), other_names f fs hs)

pub lookup-decl_table :
    {f : TipFunction} {k : ℕ} {fs : List TipFunction} (idx : ℕ) (decls : Decls)
    → IsAt f k fs
    → IsDistinct fs
    → lookup f.name (decl_table fs idx decls) ≡ some (idx + k, f.formals)
unfolding decl_table
lookup-decl_table {f} idx decls (here {rest}) (distinct, _) =
    lookup-decl_table_ne f.name rest (suc idx) (insert f.name (idx, f.formals) decls)
      (other_names f rest distinct)
    ∙ lookup-insert_self f.name (idx, f.formals) decls
    ∙ ap (λ n. some (n, f.formals)) (omega arith)
lookup-decl_table {f} idx decls (there {k} {b} at) (_, distinct) =
    lookup-decl_table (suc idx) (insert b.name (idx, b.formals) decls) at distinct
    ∙ ap (λ n. some (n, f.formals)) (omega arith)

-- Both from the first index on.
pub declare_functions-first :
    (fs : List TipFunction) (s : CodeState)
    → declare_functions fs 0 s
      ≡ ok (length fs, record s { function_decls = decl_table fs 0 s.function_decls })
declare_functions-first fs s =
    declare_functions-run fs 0 s
    ∙ ap (λ n. ok (n, record s { function_decls = decl_table fs 0 s.function_decls })) (omega arith)

pub lookup-decl_table_first :
    {f : TipFunction} {k : ℕ} {fs : List TipFunction} (decls : Decls)
    → IsAt f k fs
    → IsDistinct fs
    → lookup f.name (decl_table fs 0 decls) ≡ some (k, f.formals)
lookup-decl_table_first {f} decls at distinct =
    lookup-decl_table 0 decls at distinct ∙ ap (λ n. some (n, f.formals)) (omega arith)
