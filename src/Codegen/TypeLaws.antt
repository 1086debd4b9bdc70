-- ===== src/Codegen/TypeLaws.antt =====
-- The types of the code of a statement that has code (src/TIPtreeGen.cpp).
use tipc.Prelude.{◌≡◌, Option, some}
use tipc.Prelude.Result.{Result, Post, returns, throws, good_of}
use tipc.Llvm.{Value}
use tipc.Tree.{Stmt}
use tipc.Codegen.{CodeState}
use tipc.Codegen.Statements.{gen_stmt}
use tipc.Codegen.Supported.{Names, Decls, At, StmtSupported, IsInner}
use tipc.Codegen.Made.{IsInside, Makes}
use tipc.Codegen.StmtLaws.{gen_stmt-Makes}
use tipc.Codegen.Typing.{WellTyped, Types}
use tipc.Codegen.StmtTypes.{IsTypable, stmt-Types}

-- A value where there is code, and the types of what is there.
both :
    {cond : Type 0} {vars : Names} {funs : Decls} (P : Option Value → Type 0) {s : CodeState}
    {r : Result (Option Value × CodeState)}
    → cond
    → Makes cond vars funs s r
    → Types funs P r
    → Post (λ q. WellTyped funs q.1 × ((v : Value) × (q.0 ≡ some v))) (λ _. ⊥) r
both P c (returns (x, h)) typed = returns ((good_of typed).0, (h c).0)
both P c (throws (e, fails)) typed = absurd (fails c)

-- Inside of a function and with globals that have their types, `codegen` of a statement in which
-- comparisons stand as conditions only, every name stands for something, every construct has code
-- and no function is assigned to returns a value, and LLVM is given operands of the types that it
-- wants in every call: integers of 64 bits for the operands of an operator, what is stored and what
-- is passed, a pointer to what is stored or loaded, as many arguments as the function has, and one
-- bit for a branch.
pub gen_stmt-WellTyped :
    (b : Stmt) (vars : Names) (funs : Decls) (s : CodeState)
    → IsInner b
    → IsInside s
    → At vars funs s
    → StmtSupported vars funs b
    → IsTypable funs b
    → WellTyped funs s
    → Post (λ q. WellTyped funs q.1 × ((v : Value) × (q.0 ≡ some v))) (λ _. ⊥) (gen_stmt b s)
gen_stmt-WellTyped b vars funs s inner inside at supported typable typed =
    both _ supported (gen_stmt-Makes b vars funs s inner inside at) (stmt-Types b s typable typed)
