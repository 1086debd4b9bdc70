-- ===== src/Codegen/StmtLaws.antt =====
-- `codegen` of statements (src/TIPtreeGen.cpp): the blocks that it makes, and where there is code.
use tipc.Prelude.{refl, String_eq, Option, none, some}
use tipc.Prelude.Result.{Result, Post, returns, throws}
use tipc.Prelude.State.{◌⇒◌}
use tipc.Llvm.{Value}
use tipc.Tree.{
  Stmt, ElseStmt, Stmts, decl_stmt, block_stmt, assign_stmt, while_stmt, if_stmt, output_stmt,
  error_stmt, return_stmt, no_else, else_stmt, no_stmts, stmts,
}
use tipc.Codegen.{CodeState}
use tipc.Codegen.Statements.{gen_stmt, gen_else, gen_block, last_or_nop}
use tipc.Codegen.Grown.{plainly, same, more}
use tipc.Codegen.Supported.{
  Names, Decls, At, StmtSupported, ElseSupported, StmtsSupported, IsInner, IsInnerElse, AllInner,
}
use tipc.Codegen.PartLaws.{Fails}
use tipc.Codegen.Emitted.{HasLabels-three, Emitted, Emitted-trans, Plain-Emitted}
use tipc.Codegen.Made.{
  IsInside, Emitted-IsInside, Makes, Makes-after, stage, present, began, shifted,
}
use tipc.Codegen.SimpleLaws.{nop-Makes, expr-Makes, assign-Makes, output-Makes, error-Makes}

-- The same for the loop over a block, whose value may be a null pointer.
abbrev pub Builds : Type 0 → Names → Decls → CodeState → Result (Option Value × CodeState) → Type 0
Builds cond vars funs s r = Post (λ q. Emitted s q.1 × (cond → At vars funs q.1)) (Fails cond) r

Builds-after :
    {cond : Type 0} {vars : Names} {funs : Decls} {s s₁ : CodeState}
    {r : Result (Option Value × CodeState)}
    → Emitted s s₁
    → Builds cond vars funs s₁ r
    → Builds cond vars funs s r
Builds-after x (returns (y, h)) = returns (Emitted-trans x y, h)
Builds-after x (throws h) = throws h

module _ {cond : Type 0} {vars : Names} {funs : Decls} where
  mutual
    unfolding gen_stmt StmtSupported IsInner

    stmt-Makes :
        (b : Stmt) (s : CodeState)
        → IsInner b
        → (cond → StmtSupported vars funs b)
        → IsInside s
        → (cond → At vars funs s)
        → Makes cond vars funs s (gen_stmt b s)
    stmt-Makes (decl_stmt d) s inner needs inside at = absurd inner
    stmt-Makes (return_stmt i e) s inner needs inside at = absurd inner
    stmt-Makes (assign_stmt i l r) s inner needs inside at =
        assign-Makes l r i s inner needs inside at
    stmt-Makes (output_stmt i e) s inner needs inside at = output-Makes e i s needs inside at
    stmt-Makes (error_stmt i e) s inner needs inside at = error-Makes e i s needs inside at
    stmt-Makes (block_stmt i bs) s inner needs inside at =
        stmts-Builds bs none s inner needs inside at ⇒ last
      where
        last :
            (o : Option Value) (s₁ : CodeState)
            → Emitted s s₁ × (cond → At vars funs s₁)
            → Makes cond vars funs s (last_or_nop o s₁)
        last none s₁ (x, at₁) = Makes-after x (nop-Makes s₁ (Emitted-IsInside x inside) at₁)
        last (some v) s₁ (x, at₁) = returns (x, λ c. ((v, refl), at₁ c))
    stmt-Makes (while_stmt i c b) s inner needs inside at =
        present s.insert_function _ _ inside.1.1 λ f.
          Makes-after
            (began (λ h. rw h refl)
              (λ h. HasLabels-three "header" "body" "exit" _ _ refl refl refl h))
            (stage _ (λ k. k) (expr-Makes c _ (λ k. (needs k).0) inside.0 at)
              λ v s₁ x at₁. Makes-after (shifted (λ h. rw h refl) refl) (
                stage _ (λ k. k)
                  (stmt-Makes b _ inner (λ k. (needs k).1) (Emitted-IsInside x inside) at₁)
                  λ w s₂ y at₂.
                    Makes-after (shifted (λ h. rw h refl) refl)
                      (nop-Makes _ (Emitted-IsInside y (Emitted-IsInside x inside)) at₂)))
    stmt-Makes (if_stmt i c b e) s inner needs inside at =
        stage _ (λ k. k) (expr-Makes c s (λ k. (needs k).0) inside.0 at)
          λ v s₁ x at₁. Makes-after (Plain-Emitted (plainly (more tt same))) (
            present s₁.insert_function _ _ (Emitted-IsInside x inside).1.1 λ f.
              Makes-after
                (began (λ h. rw h refl)
                  (λ h. HasLabels-three "then" "else" "ifmerge" _ _ refl refl refl h))
                (stage _ (λ k. k)
                  (stmt-Makes b _ inner.0 (λ k. (needs k).1) (Emitted-IsInside x inside) at₁)
                  λ w s₂ y at₂. Makes-after (shifted (λ h. rw h refl) refl) (
                    stage _ (λ k. k)
                      (else-Makes e _ inner.1 (λ k. (needs k).2)
                        (Emitted-IsInside y (Emitted-IsInside x inside)) at₂)
                      λ u s₃ z at₃. Makes-after (shifted (λ h. rw h refl) refl) (
                        nop-Makes _
                          (Emitted-IsInside z (Emitted-IsInside y (Emitted-IsInside x inside)))
                          at₃))))

    else-Makes :
        (e : ElseStmt) (s : CodeState)
        → IsInnerElse e
        → (cond → ElseSupported vars funs e)
        → IsInside s
        → (cond → At vars funs s)
        → Makes cond vars funs s (gen_else e s)
    else-Makes no_else s inner needs inside at = nop-Makes s inside at
    else-Makes (else_stmt b) s inner needs inside at = stmt-Makes b s inner needs inside at

    pub stmts-Builds :
        (bs : Stmts) (last : Option Value) (s : CodeState)
        → AllInner bs
        → (cond → StmtsSupported vars funs bs)
        → IsInside s
        → (cond → At vars funs s)
        → Builds cond vars funs s (gen_block bs last s)
    stmts-Builds no_stmts last s inner needs inside at = returns (Plain-Emitted (plainly same), at)
    stmts-Builds (stmts b bs) last s inner needs inside at =
        stmt-Makes b s inner.0 (λ k. (needs k).0) inside at ⇒ λ o s₁ (x, h).
        Builds-after x (
          stmts-Builds bs o s₁ inner.1 (λ k. (needs k).1) (Emitted-IsInside x inside)
            (λ k. (h k).1))

pub gen_stmt-Makes :
    (b : Stmt) (vars : Names) (funs : Decls) (s : CodeState)
    → IsInner b
    → IsInside s
    → At vars funs s
    → Makes (StmtSupported vars funs b) vars funs s (gen_stmt b s)
gen_stmt-Makes b vars funs s inner inside at = stmt-Makes b s inner (λ h. h) inside (λ _. at)
