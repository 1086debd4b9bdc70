-- ===== src/Codegen/FunctionTypes.antt =====
-- The types of the code of a function (src/TIPtreeGen.cpp).
use tipc.Prelude.{
  subst, ℕ, length, arith, ◌≡◌, refl, String, String_eq, Bool, true, false, ◌==◌, Option, none,
  some, List, [], ◌++◌, All,
}
use tipc.Prelude.Result.{Error, Result, Post, returns, throws, good_of}
use tipc.Prelude.State.{◌⇒◌}
use tipc.Llvm.{i64, ptr, array, Value, value_type, Call}
use tipc.Tree.{
  decl_stmt, block_stmt, assign_stmt, while_stmt, if_stmt, output_stmt, error_stmt, Stmt, Stmts,
  return_stmt, no_stmts, stmts, TipFunction, Expr,
}
use tipc.Codegen.{CodeState, LlvmFunction, gen_expr}
use tipc.Codegen.Statements.{gen_stmt, return_code}
use tipc.Codegen.Functions.{gen_body, gen_function, finished}
use tipc.Codegen.Supported.{Names, Decls, At, IsInner, StmtSupported, StmtsSupported}
use tipc.Codegen.Made.{none-some, IsInside, Emitted-IsInside}
use tipc.Codegen.StmtLaws.{gen_stmt-Makes}
use tipc.Codegen.SimpleLaws.{expr-Makes}
use tipc.Codegen.ExprTypes.{expr-Types}
use tipc.Codegen.BodyLaws.{IsBody, returning, then_more, supported}
use tipc.Codegen.Typing.{IsTyped, WellTyped, typed_with, typed_more}
use tipc.Codegen.OperandTypes.{IsIntegral, HasWord}
use tipc.Codegen.Emitted.{Emitted}
use tipc.Codegen.StmtTypes.{IsTypable, stmt-Types}
use tipc.Codegen.FunctionLaws.{
  IsGlobal, IsDeclared, IsWritten, BodySupported, entered, get_function-found, Bound-StmtsSupported,
  Bound-IsInside,
}
use tipc.Codegen.Bindings.{Bound, Bound-trans, arguments-Binds, decls-Binds, all_vars}
use tipc.Codegen.BindingTypes.{arguments-Types, decls-Types}

-- Comparisons stand as conditions only, in the whole body.
abbrev pub ReturnTypable : Decls → Stmt → Type 0
ReturnTypable funs (return_stmt i e) = IsIntegral e
ReturnTypable funs b = IsTypable funs b

unfoldable pub BodyTypable : Decls → Stmts → Type 0
BodyTypable funs no_stmts = Unit
BodyTypable funs (stmts b bs) = ReturnTypable funs b × BodyTypable funs bs

inner-IsTypable : (funs : Decls) (b : Stmt) → IsInner b → ReturnTypable funs b → IsTypable funs b
unfolding IsInner
inner-IsTypable funs (return_stmt i e) inner h = absurd inner
inner-IsTypable funs (decl_stmt d) inner h = h
inner-IsTypable funs (block_stmt i bs) inner h = h
inner-IsTypable funs (assign_stmt i l r) inner h = h
inner-IsTypable funs (while_stmt i c b) inner h = h
inner-IsTypable funs (if_stmt i c b e) inner h = h
inner-IsTypable funs (output_stmt i e) inner h = h
inner-IsTypable funs (error_stmt i e) inner h = h

-- Both of what two rules say of a run.
pub both :
    {A : Type 0} {P Q : A × CodeState → Type 0} {Bad : Error → Type 0} {r : Result (A × CodeState)}
    → Post P (λ _. ⊥) r
    → Post Q Bad r
    → Post (λ q. P q × Q q) (λ _. ⊥) r
both (returns h) k = returns (h, good_of k)
both (throws h) k = absurd h

return-Types :
    (vars : Names) (funs : Decls) (e : Expr) (i : ℕ) (s : CodeState)
    → Post
        (λ q.
          (Emitted s q.1 × ((v : Value) × (q.0 ≡ some v)) × At vars funs q.1)
          × (WellTyped funs q.1 × HasWord q.0))
        (λ _. ⊥)
        (gen_expr e s)
    → Post (λ q. WellTyped funs q.1 × Unit) (λ _. ⊥) (gen_stmt (return_stmt i e) s)
unfolding gen_stmt
return-Types vars funs e i s coded = coded ⇒ λ o s₁ ((_, v, _), (w, h)). go o s₁ w h v
  where
    go :
        (o : Option Value) (s₁ : CodeState)
        → WellTyped funs s₁
        → HasWord o
        → (v : Value) × (o ≡ some v)
        → Post (λ q. WellTyped funs q.1 × Unit) (λ _. ⊥) (return_code o s₁)
    go none s₁ w h v = absurd (none-some v)
    go (some v) s₁ w h e = returns (typed_more h w, tt)

body-WellTyped :
    {bs : Stmts} (vars : Names) (funs : Decls) (s : CodeState)
    → IsBody bs
    → StmtsSupported vars funs bs
    → BodyTypable funs bs
    → IsInside s
    → At vars funs s
    → WellTyped funs s
    → Post (λ q. WellTyped funs q.1) (λ _. ⊥) (gen_body bs true s)
unfolding gen_body gen_stmt StmtSupported BodyTypable
body-WellTyped vars funs s (returning {i} {e}) (h, _) (k, _) inside at w =
    return-Types vars funs e i s
      (both (supported h (expr-Makes e s (λ k. k) inside.0 (λ _. at))) (expr-Types e s k w))
    ⇒ λ o s₁ (w₁, _). returns w₁
body-WellTyped vars funs s (then_more {b} {bs} inner more) (h, hs) (k, ks) inside at w =
    both (supported h (gen_stmt-Makes b vars funs s inner inside at))
      (stmt-Types b s (inner-IsTypable funs b inner k) w)
    ⇒ λ o s₁ ((x, v, at₁), (w₁, _)).
        rw v.1 (body-WellTyped vars funs s₁ more hs ks (Emitted-IsInside x inside) at₁ w₁)

finished-Types :
    (b : Bool) (name : String) (v : Value) (funs : Decls) (s : CodeState)
    → WellTyped funs s
    → Post (λ q. WellTyped funs q.1) (λ _. ⊥) (finished b name v s)
finished-Types true name v funs s w = returns w
finished-Types false name v funs s w =
    returns (
      typed_with (tt, w.calls) w.input_intrinsic w.output_intrinsic w.error_intrinsic w.malloc_fun
        w)

-- The input array of the program.
abbrev pub HasInputs : CodeState → ℕ → Type 0
HasInputs s k = (v : Value) → s.tip_input_array ≡ some v → value_type v ≡ ptr (array k i64)

-- `main` has as many formals as there are inputs.
abbrev pub IsSized : ℕ → TipFunction → Type 0
IsSized k f = (f.name == "main") ≡ true → length f.formals ≡ k

cleared :
    {funs : Decls} {s : CodeState} {cs : List Call} {i : Option Value}
    → All IsTyped cs
    → WellTyped funs s
    → WellTyped funs (record s { calls = cs; insert_function = i; named_values = [] })
cleared cs w = record {
  calls = cs;
  function_decls = w.function_decls;
  named_values = λ x. tt;
  nop = w.nop;
  input_intrinsic = w.input_intrinsic;
  output_intrinsic = w.output_intrinsic;
  error_intrinsic = w.error_intrinsic;
  malloc_fun = w.malloc_fun;
  tip_ftable = w.tip_ftable;
  l_value_gen = w.l_value_gen;
}

Bound-WellTyped :
    (f : TipFunction) (g : Value) {s s₁ : CodeState}
    → IsGlobal s
    → s.insert_function ≡ some g
    → s.named_values ≡ []
    → IsBody f.body
    → BodySupported s.function_decls f
    → BodyTypable s.function_decls f.body
    → Bound (f.formals ++ all_vars f.decls) s s₁
    → WellTyped s.function_decls s₁
    → Post (λ q. WellTyped s.function_decls q.1) (λ _. ⊥) (gen_body f.body true s₁)
Bound-WellTyped f g {s} {s₁} global inside names body h typable b w =
    body-WellTyped s₁.named_values s.function_decls s₁ body
      (subst (λ funs. StmtsSupported s₁.named_values funs f.body) b.function_decls
        (Bound-StmtsSupported f names h b))
      typable (Bound-IsInside g global inside b) (refl, b.function_decls) w

pub gen_function-WellTyped :
    (f : TipFunction) (fun : LlvmFunction) (s : CodeState) (k : ℕ)
    → IsGlobal s
    → IsDeclared f fun s
    → IsWritten f
    → BodySupported s.function_decls f
    → BodyTypable s.function_decls f.body
    → IsSized k f
    → HasInputs s k
    → WellTyped s.function_decls s
    → Post (λ q. WellTyped s.function_decls q.1) (λ _. ⊥) (gen_function f s)
unfolding gen_function
gen_function-WellTyped f fun s k global d written body typable sized inputs w =
    rw (get_function-found f fun s d) (
      both
        (arguments-Binds (f.name == "main") fun f.formals global.tip_input_array.0 _ d.names
          global.tip_input_array.1)
        (arguments-Types (f.name == "main") fun f.formals k _ (λ e. omega (arith, sized e)) inputs
          (cleared (tt, (tt, w.calls)) w))
      ⇒ λ _ s₁ ((b, _), (w₁, _)).
          both (decls-Binds f.decls fun.value s₁ written.0 b.plain.insert_function)
            (decls-Types f.decls true s₁ w₁)
          ⇒ λ declared s₂ ((c, success), (w₂, _)). rw success (
              Bound-WellTyped f fun.value (entered global) refl refl written.1 body typable
                (Bound-trans b c) w₂
              ⇒ λ done s₃ w₃. finished-Types done f.name fun.value s.function_decls s₃ w₃))
