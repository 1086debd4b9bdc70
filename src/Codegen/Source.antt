-- ===== src/Codegen/Source.antt =====
-- Programs of the grammar (src/TIPtreeBuild.cpp) as `codegen` (src/TIPtreeGen.cpp) gets them, and
-- the part of `main` (src/tipc.cpp) from the parse to the module.
use tipc.Prelude.{◌≢◌, List, [], ◌∷◌, All}
use tipc.Prelude.Result.{Result, ok, err, Post, returns, throws, ◌>>=◌, ◌⟫◌}
use tipc.Build.{Visited, build}
use tipc.Build.Reference.{expr_of, atom_of, target_of, statement_of, else_of, statements_of}
use tipc.ParseTree.{
  AssignableContext, id_target, de_ref_target, StatementContext, block, assignment, while_loop,
  branch, output, error, ElseContext, no_branch, else_branch, StatementContexts, no_statements,
  statements, Identifier, FunctionContext,
}
use tipc.Tree.{TipFunction}
use tipc.Codegen.{CodeState}
use tipc.Codegen.Functions.{gen_program, module_name}
use tipc.Codegen.Supported.{IsTarget, IsInner, IsInnerElse, AllInner}
use tipc.Codegen.FunctionLaws.{BodySupported}
use tipc.Codegen.Table.{IsDistinct, decl_table}
use tipc.Codegen.ProgramLaws.{nop_name}

abbrev Builds : {A : Type 0} → (A → Type 0) → Result A → Type 0
Builds Good r = Post Good (λ _. Unit) r

any : {A : Type 0} (r : Result A) → Builds (λ _. Unit) r
any (ok a) = returns tt
any (err t) = throws tt

target_of-IsTarget : (t : AssignableContext) → Builds IsTarget (target_of t)
target_of-IsTarget (id_target x) = returns tt
target_of-IsTarget (de_ref_target a) = any (atom_of a) ⟫ λ e _. returns tt

mutual
  unfolding statement_of IsInner

  statement_of-IsInner : (b : StatementContext) → Builds IsInner (statement_of b)
  statement_of-IsInner (block bs) = statements_of-AllInner bs ⟫ λ bs' h. returns h
  statement_of-IsInner (assignment t e) =
      target_of-IsTarget t ⟫ λ l h. any (expr_of e) ⟫ λ r _. returns h
  statement_of-IsInner (while_loop c b) =
      any (expr_of c) ⟫ λ c' _. statement_of-IsInner b ⟫ λ b' h. returns h
  statement_of-IsInner (branch c b e) = any (expr_of c) ⟫ λ c' _.
      statement_of-IsInner b ⟫ λ b' h. else_of-IsInnerElse e ⟫ λ e' k. returns (h, k)
  statement_of-IsInner (output e) = any (expr_of e) ⟫ λ e' _. returns tt
  statement_of-IsInner (error e) = any (expr_of e) ⟫ λ e' _. returns tt

  else_of-IsInnerElse : (e : ElseContext) → Builds IsInnerElse (else_of e)
  else_of-IsInnerElse no_branch = returns tt
  else_of-IsInnerElse (else_branch b) = statement_of-IsInner b ⟫ λ b' h. returns h

  statements_of-AllInner : (bs : StatementContexts) → Builds AllInner (statements_of bs)
  statements_of-AllInner no_statements = returns tt
  statements_of-AllInner (statements b bs) =
      statement_of-IsInner b ⟫ λ b' h. statements_of-AllInner bs ⟫ λ bs' hs. returns (h, hs)

-- The grammar has no declaration without an identifier.
abbrev pub HasIdentifier : List Identifier → Type 0
HasIdentifier [] = ⊥
HasIdentifier (x ∷ xs) = Unit

-- `tb.build(tree)` and then `ast->codegen(sourceFile)`.
unfoldable pub compile : List FunctionContext → Visited → CodeState → Result (Unit {0} × CodeState)
compile cs v s = build cs v >>= λ p. gen_program p s

-- What the code generator needs of the tree, where there is one.
abbrev pub HasCode : Result (List TipFunction) → Type 0
HasCode (ok fs) =
    IsDistinct fs
    × All (λ f. nop_name ≢ module_name f.name) fs
    × All (BodySupported (decl_table fs 0 [])) fs
HasCode (err t) = Unit
