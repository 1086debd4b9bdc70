-- ===== src/Codegen/InputTests.antt =====
-- The inputs of a program.
use tipc.Prelude.{refl}
use tipc.Prelude.Result.{Post}
use tipc.Codegen.Functions.{initial}
use tipc.Codegen.Table.{there, here}
use tipc.Codegen.Emitted.{word-ne}
use tipc.Codegen.Inputs.{prologue, HasInputGlobals, prologue-HasInputGlobals}
use tipc.Codegen.Tests.{program, main_function}

prologue-HasInputGlobals_example :
    Post (λ q. HasInputGlobals 1 q.1) (λ _. ⊥) (prologue program.functions initial)
prologue-HasInputGlobals_example =
    prologue-HasInputGlobals program.functions initial main_function 1
      ((word-ne "inc" "_tip_main" refl, tt), (tt, tt)) (λ f k at. refl) (there here) refl
