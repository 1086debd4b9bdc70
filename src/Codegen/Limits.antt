-- ===== src/Codegen/Limits.antt =====
-- The statements of which `codegen` (src/TIPtreeGen.cpp) returns a value whatever happens inside.
use tipc.Prelude.{◌≡◌, refl, Option, none, some, []}
use tipc.Prelude.Result.{Result, undefined, Post, returns, throws}
use tipc.Prelude.State.{then_run, after}
use tipc.Llvm.{Value, create_call}
use tipc.Tree.{
  Stmt, decl_stmt, block_stmt, assign_stmt, while_stmt, if_stmt, output_stmt, error_stmt,
  return_stmt,
}
use tipc.Codegen.{CodeState, not_null, emit_last}
use tipc.Codegen.Supported.{AllInner}
use tipc.Codegen.Made.{IsInside, Emitted-IsInside}
use tipc.Codegen.ExprLaws.{gen_expr-Codes}
use tipc.Codegen.StmtLaws.{stmts-Builds}
use tipc.Codegen.Statements.{gen_stmt, last_or_nop, return_code}

abbrev pub IsSwallowing : Stmt → Type 0
IsSwallowing (block_stmt i bs) = AllInner bs
IsSwallowing (return_stmt i e) = Unit
IsSwallowing _ = ⊥

abbrev HasValue : Result (Option Value × CodeState) → Type 0
HasValue r = Post (λ q. (v : Value) × (q.0 ≡ some v)) (λ t. t ≡ undefined) r

return-HasValue : (o : Option Value) (s : CodeState) → HasValue (return_code o s)
return-HasValue none s = returns (_, refl)
return-HasValue (some v) s = returns (_, refl)

nop-HasValue :
    (o : Option Value) (n : Value) (s : CodeState)
    → o ≡ some n
    → HasValue (then_run (not_null o s) (λ f. emit_last (create_call f [])))
nop-HasValue none n s e = throws refl
nop-HasValue (some f) n s e = returns (_, refl)

last-HasValue : (o : Option Value) (s : CodeState) → IsInside s → HasValue (last_or_nop o s)
last-HasValue (some v) s inside = returns (v, refl)
last-HasValue none s (_, _, n, e) = nop-HasValue s.nop n s e

-- Inside of a function, a block of statements of the source and a return statement never give a
-- null pointer, whether or not there is code for what stands inside, so a function with such an
-- error is generated all the same; what they throw comes from a null pointer handed to LLVM.
pub gen_stmt-swallows :
    (b : Stmt) (s : CodeState)
    → IsSwallowing b
    → IsInside s
    → Post (λ q. (v : Value) × (q.0 ≡ some v)) (λ t. t ≡ undefined) (gen_stmt b s)
unfolding gen_stmt
gen_stmt-swallows (block_stmt i bs) s inner inside =
    after (λ t h. h.0)
      (stmts-Builds {cond = ⊥} {vars = []} {funs = []} bs none s inner (λ h. absurd h) inside
        (λ h. absurd h))
      (λ o s₁ (x, _). last-HasValue o s₁ (Emitted-IsInside x inside))
gen_stmt-swallows (return_stmt i e) s inner inside =
    after (λ t h. h.0) (gen_expr-Codes e s.named_values s.function_decls s inside.0 (refl, refl))
      (λ o s₁ h. return-HasValue o s₁)
gen_stmt-swallows (decl_stmt d) s inner inside = absurd inner
gen_stmt-swallows (assign_stmt i l r) s inner inside = absurd inner
gen_stmt-swallows (while_stmt i c b) s inner inside = absurd inner
gen_stmt-swallows (if_stmt i c b e) s inner inside = absurd inner
gen_stmt-swallows (output_stmt i e) s inner inside = absurd inner
gen_stmt-swallows (error_stmt i e) s inner inside = absurd inner
