-- ===== src/Codegen/ProgramTypes.antt =====
-- The types of the code of the program (src/TIPtreeGen.cpp).
use tipc.Prelude.{String_eq}
use tipc.Prelude.Dict.{Dict}
use tipc.Prelude.Result.{Result, Post}
use tipc.Codegen.{CodeState}
use tipc.Codegen.Supported.{Decls}
use tipc.Codegen.Typing.{WellTyped}

abbrev Typed : {A : Type 0} → Decls → Result (A × CodeState) → Type 0
Typed funs r = Post (λ q. WellTyped funs q.1) (λ _. ⊥) r
