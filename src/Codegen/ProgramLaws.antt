-- ===== src/Codegen/ProgramLaws.antt =====
-- `codegen` of the program (src/TIPtreeGen.cpp): all its functions, from the start of the compiler.
use tipc.Prelude.{
  ℕ, ◌≡◌, ◌≢◌, refl, ◌∙◌, ap, String, String_eq, Bool, true, false, ◌==◌, if◌then◌else◌, Option,
  none, some, List, [], ◌∷◌, All,
}
use tipc.Prelude.Dict.{lookup, eq-ne}
use tipc.Prelude.Result.{Post, returns}
use tipc.Tree.{TipFunction, Program}
use tipc.Codegen.{CodeState, LlvmFunction}
use tipc.Codegen.Functions.{module_name, main_unless}
use tipc.Codegen.Shape.{flows, labels}
use tipc.Codegen.Grown.{Kept-declared}
use tipc.Codegen.Emitted.{HasLabels}
use tipc.Codegen.BodyLaws.{Passage, passed}
use tipc.Codegen.FunctionLaws.{IsGlobal, IsDeclared, IsWritten, BodySupported}
use tipc.Codegen.Table.{IsAt, IsDistinct, decl_table}
use tipc.Codegen.Creation.{HasTable}

pub IsGlobal-Passage : {s s' : CodeState} → Passage false false s s' → IsGlobal s → IsGlobal s'
IsGlobal-Passage p g = record {
  l_value_gen = p.l_value_gen ∙ g.l_value_gen;
  tip_ftable = (g.tip_ftable.0, p.tip_ftable ∙ g.tip_ftable.1);
  nop = (g.nop.0, p.nop ∙ g.nop.1);
  tip_input_array = (g.tip_input_array.0, p.tip_input_array ∙ g.tip_input_array.1);
}

pub IsDeclared-Passage :
    {f : TipFunction} {fun : LlvmFunction} {s s' : CodeState}
    → Passage false false s s'
    → IsDeclared f fun s
    → IsDeclared f fun s'
IsDeclared-Passage {f} p d = record {
  decl = (d.decl.0, ap (lookup f.name) p.function_decls ∙ d.decl.1);
  symbol = p.symbols _ _ d.symbol;
  names = d.names;
}

pub main_unless-Passage :
    (d : Option (ℕ × List String)) (s : CodeState)
    → Post (λ q. Passage false false s q.1) (λ _. ⊥) (main_unless d s)
main_unless-Passage (some d) s = returns (passed (λ h. h) refl)
main_unless-Passage none s = returns (record {
  flow = λ h. rw h refl;
  fresh = λ h. h;
  nop = refl;
  l_value_gen = refl;
  tip_ftable = refl;
  tip_input_array = refl;
  function_decls = refl;
  symbols = λ x f h.
      Kept-declared _ "_tip_main_undefined" _ _ refl x f
        (Kept-declared _ "_tip_main" _ s.symbols refl x f h);
})

-- What the module is at the end: no block is open and none was left open, and no label is used twice.
abbrev pub IsComplete : CodeState → Type 0
IsComplete s = (flows s.calls ≡ some false) × HasLabels s.label_num (labels s.calls)

pub entry-IsDeclared :
    {fs : List TipFunction} {s : CodeState}
    → HasTable fs s
    → (f : TipFunction) (k : ℕ) → IsAt f k fs
    → (fun : LlvmFunction) × IsDeclared f fun s
entry-IsDeclared t f k at =
    let (fun, symbol, names, index, value) = t.entry f k at in
    (
      fun,
      record {
        decl = (k, index);
        symbol = symbol;
        names = λ e. named fun (f.name == "main") e names;
      },
    )
  where
    named :
        (fun : LlvmFunction) (is_main : Bool)
        → is_main ≡ false
        → fun.arg_names ≡ (if is_main then [] else f.formals)
        → fun.arg_names ≡ f.formals
    named fun false e names = names
    named fun true e names = absurd (cc (e))

-- The intrinsic that the module begins with.
abbrev pub nop_name : String
nop_name = "llvm.donothing"

-- Nothing else is there before the shallow pass.
pub new_name : (x : String) (f : LlvmFunction) → nop_name ≢ x → lookup x ((nop_name, f) ∷ []) ≡ none
new_name x f ne = rw (eq-ne nop_name x ne)

-- Programs of the source in which every name stands for something and every construct has code.
abbrev pub IsProgram : Program → Type 0
IsProgram p =
    IsDistinct p.functions
    × All (λ f. nop_name ≢ module_name f.name) p.functions
    × All (λ f. IsWritten f × BodySupported (decl_table p.functions 0 []) f) p.functions
