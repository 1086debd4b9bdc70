-- ===== src/Codegen/FunctionLaws.antt =====
-- `codegen` of a function (src/TIPtreeGen.cpp): from a state between functions to another one.
use tipc.Prelude.{
  String, ℕ, ◌≡◌, refl, sym, subst, String_eq, true, false, ◌==◌, Option, some, List, [], ◌++◌, All,
}
use tipc.Prelude.Dict.{lookup}
use tipc.Prelude.Result.{ok, Post, returns}
use tipc.Prelude.State.{◌⇒◌}
use tipc.Llvm.{Value, Call}
use tipc.Tree.{TipFunction}
use tipc.Codegen.{CodeState, LlvmFunction}
use tipc.Codegen.Functions.{get_function, gen_body, gen_function, module_name}
use tipc.Codegen.Emitted.{Plain-Emitted}
use tipc.Codegen.Supported.{Names, Decls, StmtsSupported}
use tipc.Codegen.Scope.{scope_of, StmtsSupported-Agree}
use tipc.Codegen.Made.{IsInside, Emitted-IsInside}
use tipc.Codegen.Bindings.{Bound, Bound-trans, HasNames, all_vars, arguments-Binds, decls-Binds}
use tipc.Codegen.BodyLaws.{
  Passage, Passage-trans, Emitted-Passage, passed, IsBody, Ends, Ends-after, body-Ends,
}

-- Between functions, with the globals of the program.
pub record IsGlobal (s : CodeState) : Type 0 where
  pub l_value_gen : s.l_value_gen ≡ false
  pub tip_ftable : (t : Value) × (s.tip_ftable ≡ some t)
  pub nop : (n : Value) × (s.nop ≡ some n)
  pub tip_input_array : (a : Value) × (s.tip_input_array ≡ some a)

pub entered :
    {s : CodeState} {cs : List Call} {i : Option Value} {vars : Names}
    → IsGlobal s
    → IsGlobal (record s { calls = cs; insert_function = i; named_values = vars })
entered g = record {
  l_value_gen = g.l_value_gen;
  tip_ftable = g.tip_ftable;
  nop = g.nop;
  tip_input_array = g.tip_input_array;
}

-- A function of the source whose names all stand for something.
abbrev pub IsWritten : TipFunction → Type 0
IsWritten f = All (λ d. HasNames d.vars) f.decls × IsBody f.body

abbrev pub BodySupported : Decls → TipFunction → Type 0
BodySupported funs f = StmtsSupported (scope_of (f.formals ++ all_vars f.decls) []) funs f.body

-- The function that `getFunction` has for it in the module.
pub record IsDeclared (f : TipFunction) (fun : LlvmFunction) (s : CodeState) : Type 0 where
  pub decl : (i : ℕ) × (lookup f.name s.function_decls ≡ some (i, f.formals))
  pub symbol : lookup (module_name f.name) s.symbols ≡ some fun
  pub names : (f.name == "main") ≡ false → fun.arg_names ≡ f.formals

pub get_function-found :
    (f : TipFunction) (fun : LlvmFunction) (s : CodeState)
    → IsDeclared f fun s
    → get_function f.name s ≡ ok (fun, s)
unfolding get_function
get_function-found f fun s d = rw (d.decl.1, d.symbol) refl

-- After the bindings, the body has code and the insertion point is inside of the function.
pub Bound-StmtsSupported :
    (f : TipFunction) {s s₁ : CodeState}
    → s.named_values ≡ []
    → BodySupported s.function_decls f
    → Bound (f.formals ++ all_vars f.decls) s s₁
    → StmtsSupported s₁.named_values s₁.function_decls f.body
Bound-StmtsSupported f {s} {s₁} names h b =
    StmtsSupported-Agree _ s₁.named_values s₁.function_decls (b.agree [] (λ x. rw names tt)) f.body
      (subst (λ funs. BodySupported funs f) (sym b.function_decls) h)

pub Bound-IsInside :
    (g : Value) {xs : List String} {s s₁ : CodeState}
    → IsGlobal s
    → s.insert_function ≡ some g
    → Bound xs s s₁
    → IsInside s₁
Bound-IsInside g global inside b = Emitted-IsInside (Plain-Emitted b.plain) (
  (global.l_value_gen, global.tip_ftable.0, global.tip_ftable.1),
  (g, inside),
  global.nop.0,
  global.nop.1,
)

Bound-Ends :
    (f : TipFunction) (g : Value) {s s₁ : CodeState}
    → IsGlobal s
    → s.insert_function ≡ some g
    → s.named_values ≡ []
    → IsBody f.body
    → BodySupported s.function_decls f
    → Bound (f.formals ++ all_vars f.decls) s s₁
    → Ends s (gen_body f.body true s₁)
Bound-Ends f g {s} {s₁} global inside names body h b =
    Ends-after (Emitted-Passage (Plain-Emitted b.plain) b.function_decls) (
      body-Ends s₁.named_values s₁.function_decls s₁ body (Bound-StmtsSupported f names h b)
        (Bound-IsInside g global inside b) (refl, refl))

-- Between functions, with the program's tables, for a function that is declared, whose declarations
-- have names, whose body returns at its end and nowhere else, and in which every name stands for
-- something and every construct has code, `codegen` returns the function; its code begins and ends
-- between blocks, its labels are new, and the program's tables are as they were.
pub gen_function-Passage :
    (f : TipFunction) (fun : LlvmFunction) (s : CodeState)
    → IsGlobal s
    → IsDeclared f fun s
    → IsWritten f
    → BodySupported s.function_decls f
    → Post (λ q. (q.0 ≡ some fun.value) × Passage false false s q.1) (λ _. ⊥) (gen_function f s)
unfolding gen_function
gen_function-Passage f fun s global d written body = rw (get_function-found f fun s d) (
    arguments-Binds (f.name == "main") fun f.formals global.tip_input_array.0 _ d.names
      global.tip_input_array.1
    ⇒ λ _ s₁ (b, _).
        decls-Binds f.decls fun.value s₁ written.0 b.plain.insert_function
        ⇒ λ declared s₂ (c, success). rw success (
            Bound-Ends f fun.value (entered global) refl refl written.1 body (Bound-trans b c)
            ⇒ λ finished s₃ (p, well).
                rw well (returns (refl, Passage-trans (passed (λ h. rw h refl) refl) p))))
