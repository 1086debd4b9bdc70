-- ===== src/Codegen/BodyLaws.antt =====
-- `codegen` of the body of a function (src/TIPtreeGen.cpp): from its open block to no open one.
use tipc.Prelude.{ℕ, ◌≡◌, refl, ◌∙◌, sym, String_eq, Bool, true, false, Option, some, List}
use tipc.Prelude.Result.{Result, Post, returns, throws}
use tipc.Prelude.State.{◌⇒◌}
use tipc.Llvm.{Value, Call}
use tipc.Tree.{Stmt, Stmts, return_stmt, no_stmts, stmts, Expr}
use tipc.Codegen.{CodeState, gen_expr}
use tipc.Codegen.Statements.{gen_stmt}
use tipc.Codegen.Functions.{gen_body}
use tipc.Codegen.Shape.{flows, labels}
use tipc.Codegen.Grown.{Kept}
use tipc.Codegen.Emitted.{Emitted, HasLabels}
use tipc.Codegen.Supported.{Names, Decls, At, StmtSupported, StmtsSupported, IsInner}
use tipc.Codegen.Made.{IsInside, Emitted-IsInside, Makes}
use tipc.Codegen.SimpleLaws.{expr-Makes}
use tipc.Codegen.StmtLaws.{gen_stmt-Makes}

-- From where a block is open or not to where it is or not, with the tables as before.
pub record Passage (b c : Bool) (s s' : CodeState) : Type 0 where
  pub flow : flows s.calls ≡ some b → flows s'.calls ≡ some c
  pub fresh : HasLabels s.label_num (labels s.calls) → HasLabels s'.label_num (labels s'.calls)
  pub nop : s'.nop ≡ s.nop
  pub l_value_gen : s'.l_value_gen ≡ s.l_value_gen
  pub tip_ftable : s'.tip_ftable ≡ s.tip_ftable
  pub tip_input_array : s'.tip_input_array ≡ s.tip_input_array
  pub function_decls : s'.function_decls ≡ s.function_decls
  pub symbols : Kept s.symbols s'.symbols

pub Passage-trans :
    {a b c : Bool} {s t u : CodeState} → Passage a b s t → Passage b c t u → Passage a c s u
Passage-trans p q = record {
  flow = λ h. q.flow (p.flow h);
  fresh = λ h. q.fresh (p.fresh h);
  nop = q.nop ∙ p.nop;
  l_value_gen = q.l_value_gen ∙ p.l_value_gen;
  tip_ftable = q.tip_ftable ∙ p.tip_ftable;
  tip_input_array = q.tip_input_array ∙ p.tip_input_array;
  function_decls = q.function_decls ∙ p.function_decls;
  symbols = λ x f h. q.symbols x f (p.symbols x f h);
}

pub Emitted-Passage :
    {s s' : CodeState}
    → Emitted s s'
    → s'.function_decls ≡ s.function_decls
    → Passage true true s s'
Emitted-Passage x e = record {
  flow = x.flow;
  fresh = x.fresh;
  nop = x.nop;
  l_value_gen = x.l_value_gen;
  tip_ftable = x.tip_ftable;
  tip_input_array = x.tip_input_array;
  function_decls = e;
  symbols = x.symbols;
}

-- A call that opens or closes a block, and what the insertion point and the names are then.
pub passed :
    {b c : Bool} {s : CodeState} {cs : List Call} {i : Option Value} {vars : Names}
    → (flows s.calls ≡ some b → flows cs ≡ some c)
    → labels cs ≡ labels s.calls
    → Passage b c s (record s { calls = cs; insert_function = i; named_values = vars })
passed flow unlabelled = record {
  flow = flow;
  fresh = λ h. rw unlabelled h;
  nop = refl;
  l_value_gen = refl;
  tip_ftable = refl;
  tip_input_array = refl;
  function_decls = refl;
  symbols = λ x f h. h;
}

-- The bodies that the grammar has: the last statement returns, and no other one does.
pub data IsBody : Stmts → Type 0 where
  returning : {i : ℕ} {e : Expr} → IsBody (stmts (return_stmt i e) no_stmts)
  then_more : {b : Stmt} {bs : Stmts} → IsInner b → IsBody bs → IsBody (stmts b bs)

abbrev pub Ends : CodeState → Result (Bool × CodeState) → Type 0
Ends s r = Post (λ q. Passage true false s q.1 × (q.0 ≡ true)) (λ _. ⊥) r

pub Ends-after :
    {s t : CodeState} {r : Result (Bool × CodeState)} → Passage true true s t → Ends t r → Ends s r
Ends-after p (returns (q, h)) = returns (Passage-trans p q, h)
Ends-after p (throws h) = absurd h

-- What the condition says of a part once it holds.
pub supported :
    {cond : Type 0} {vars : Names} {funs : Decls} {s : CodeState}
    {r : Result (Option Value × CodeState)}
    → cond
    → Makes cond vars funs s r
    → Post (λ q. Emitted s q.1 × ((v : Value) × (q.0 ≡ some v)) × At vars funs q.1) (λ _. ⊥) r
supported c (returns (x, h)) = returns (x, (h c).0, (h c).1)
supported c (throws (e, fails)) = absurd (fails c)

return-Ends :
    {vars : Names} {funs : Decls} (e : Expr) (i : ℕ) (s : CodeState)
    → Post
        (λ q. Emitted s q.1 × ((v : Value) × (q.0 ≡ some v)) × At vars funs q.1)
        (λ _. ⊥)
        (gen_expr e s)
    → At vars funs s
    → Post
        (λ q. Passage true false s q.1 × ((v : Value) × (q.0 ≡ some v)))
        (λ _. ⊥)
        (gen_stmt (return_stmt i e) s)
unfolding gen_stmt
return-Ends e i s coded at = coded ⇒ λ o s₁ (x, v, at₁). rw v.1 (
    returns (
      Passage-trans (Emitted-Passage x (at₁.1 ∙ sym at.1)) (passed (λ h. rw h refl) refl),
      (_, refl),
    ))

pub body-Ends :
    {bs : Stmts} (vars : Names) (funs : Decls) (s : CodeState)
    → IsBody bs
    → StmtsSupported vars funs bs
    → IsInside s
    → At vars funs s
    → Ends s (gen_body bs true s)
unfolding gen_body gen_stmt StmtSupported
body-Ends vars funs s (returning {i} {e}) (h, _) inside at =
    return-Ends e i s (supported h (expr-Makes e s (λ k. k) inside.0 (λ _. at))) at ⇒ λ o s₁ (p, v).
    rw v.1 (returns (p, refl))
body-Ends vars funs s (then_more {b} {bs} inner more) (h, hs) inside at =
    supported h (gen_stmt-Makes b vars funs s inner inside at) ⇒ λ o s₁ (x, v, at₁). rw v.1 (
      Ends-after (Emitted-Passage x (at₁.1 ∙ sym at.1))
        (body-Ends vars funs s₁ more hs (Emitted-IsInside x inside) at₁))
