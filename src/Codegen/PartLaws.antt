-- ===== src/Codegen/PartLaws.antt =====
-- The parts of the code of an expression (src/TIPtreeGen.cpp), each against its condition.
use tipc.Prelude.{
  inl, ℕ, ◌≡◌, refl, sym, ap, String, String_eq, Bool, true, false, Option, none, some, List,
}
use tipc.Prelude.Dict.{lookup}
use tipc.Prelude.Result.{Error, undefined, Result, ok, Post, returns, throws}
use tipc.Prelude.State.{then_run, after, ◌>>=◌}
use tipc.Llvm.{Value, BinaryOp, Call}
use tipc.Tree.{Exprs}
use tipc.Codegen.{
  CodeState, Code, gen_args, variable_code, function_code, ref_code, named_entry, binary_code,
  malloc_function, alloc_code, not_null, indexed, call_code, de_ref_code, count_exprs,
}
use tipc.Codegen.Grown.{Plain, Plain-trans, plainly, with_function, same, more, IsReady}
use tipc.Codegen.Supported.{Names, Decls, IsVariable, IsNamed, IsOperator, AllSupported, At}

-- Null exactly if the condition fails; else the tables are as before.
abbrev pub Judged : {A : Type 0} → Type 0 → Names → Decls → Option A → CodeState → Type 0
Judged cond vars funs none s' = cond → ⊥
Judged cond vars funs (some a) s' = cond × At vars funs s'

-- A null pointer is handed to LLVM only where the condition fails.
abbrev pub Fails : Type 0 → Error → Type 0
Fails cond t = (t ≡ undefined) × (cond → ⊥)

abbrev pub Codes :
    {A : Type 0} → Type 0 → Names → Decls → CodeState → Result (Option A × CodeState) → Type 0
Codes cond vars funs s r = Post (λ q. Plain s q.1 × Judged cond vars funs q.0 q.1) (Fails cond) r

pub Codes-after :
    {A : Type 0} {cond : Type 0} {vars : Names} {funs : Decls} {s s₁ : CodeState}
    {r : Result (Option A × CodeState)}
    → Plain s s₁
    → Codes cond vars funs s₁ r
    → Codes cond vars funs s r
Codes-after p (returns (q, h)) = returns (Plain-trans p q, h)
Codes-after p (throws h) = throws h

-- A part, and what follows it with its value and without.
pub part :
    {A B : Type 0} {cond part_cond : Type 0} {vars : Names} {funs : Decls} {s : CodeState}
    {first : Result (Option A × CodeState)} (next : Option A → Code (Option B))
    → (cond → part_cond)
    → Codes part_cond vars funs s first
    → ((a : A) (s₁ : CodeState)
        → Plain s s₁
        → part_cond
        → At vars funs s₁
        → Codes cond vars funs s₁ (next (some a) s₁))
    → ((s₁ : CodeState) → Plain s s₁ → (cond → ⊥) → Codes cond vars funs s₁ (next none s₁))
    → Codes cond vars funs s (then_run first next)
part {A} {cond} {part_cond} {vars} {funs} {s} next needs first with_value without =
    after (λ t (e, fails). (e, λ c. fails (needs c))) first
      λ o s₁ (p, h). Codes-after p (go o s₁ p h)
  where
    go :
        (o : Option A) (s₁ : CodeState)
        → Plain s s₁
        → Judged part_cond vars funs o s₁
        → Codes cond vars funs s₁ (next o s₁)
    go none s₁ p fails = without s₁ p (λ c. fails (needs c))
    go (some a) s₁ p (h, at) = with_value a s₁ p h at

pub null :
    {A : Type 0} {cond : Type 0} {vars : Names} {funs : Decls} (s₁ : CodeState)
    → (cond → ⊥)
    → Codes {A = A} cond vars funs s₁ (ok (none, s₁))
null s₁ fails = returns (plainly same, fails)

module _ (vars : Names) (funs : Decls) where
  pub function-Codes :
      (d : Option (ℕ × List String)) (x : String) (s : CodeState)
      → lookup x funs ≡ d
      → lookup x vars ≡ none
      → At vars funs s
      → Codes (IsNamed (lookup x vars) (lookup x funs)) vars funs s (function_code d x s)
  function-Codes none x s found new at = returns (plainly same, rw (new, found) (λ h. h))
  function-Codes (some d) x s found new at = returns (plainly same, (rw (new, found) tt, at))

  pub variable-Codes :
      (nv : Option (Option Value)) (x : String) (s : CodeState)
      → lookup x vars ≡ nv
      → IsReady s
      → At vars funs s
      → Codes (IsNamed (lookup x vars) (lookup x funs)) vars funs s (variable_code nv x s)
  variable-Codes (some (some v)) x s found (flag, _, _) at =
      rw flag (returns (plainly (more tt same), (rw found tt, at)))
  variable-Codes (some none) x s found (flag, _, _) at = rw flag (throws (refl, rw found (λ h. h)))
  variable-Codes none x s found ready at =
      function-Codes (lookup x s.function_decls) x s (ap (λ m. lookup x m) (sym at.1)) found at

  pub ref-Codes :
      (nv : Option (Option Value)) (x : String) (s : CodeState)
      → lookup x vars ≡ nv
      → At vars funs s
      → Codes
          (IsVariable (lookup x vars))
          vars
          funs
          s
          (then_run (named_entry nv x s) (λ v. ref_code v x))
  ref-Codes (some (some v)) x s found at = returns (plainly (more tt same), (rw found tt, at))
  ref-Codes (some none) x s found at = returns (plainly same, rw found (λ h. h))
  ref-Codes none x s found at = returns (plainly same, rw found (λ h. h))

  pub alloc-Codes :
      {cond : Type 0} (o : Option Value) (v : Value) (s : CodeState)
      → cond
      → At vars funs s
      → Codes cond vars funs s (then_run (malloc_function o s) (alloc_code v))
  alloc-Codes none v s h at = returns (
    Plain-trans (with_function "malloc" _ (more (inl refl) same))
        (plainly (more tt (more tt (more tt (more tt same))))),
    (h, at),
  )
  alloc-Codes (some f) v s h at =
      returns (plainly (more tt (more tt (more tt (more tt same)))), (h, at))

  pub with_args :
      {cond all : Type 0} (f : Value) (vs : List Value) (s : CodeState)
      → cond
      → all
      → At vars funs s
      → Codes (cond × all) vars funs s (call_code f (some vs) s)
  unfolding call_code
  with_args f vs s h hs at = returns (plainly (more tt same), ((h, hs), at))

  pub without_args :
      {cond : Type 0} (f : Value) (s : CodeState)
      → (cond → ⊥)
      → Codes cond vars funs s (call_code f none s)
  unfolding call_code
  without_args f s fails = null s fails

  pub called-Codes :
      {cond : Type 0} (o : Option Value) (t fv : Value) (es : Exprs) (s : CodeState)
      → o ≡ some t
      → cond
      → At vars funs s
      → ((cs : List Call)
          → Codes
              (AllSupported vars funs es)
              vars
              funs
              (record s { calls = cs })
              (gen_args es (record s { calls = cs })))
      → Codes (cond × AllSupported vars funs es) vars funs s (
          then_run
            (not_null o s)
            (λ ftable. indexed ftable fv (count_exprs es) >>= λ f. gen_args es >>= call_code f))
  called-Codes none t fv es s e h at args = cc
  called-Codes (some f) t fv es s e h at args =
      Codes-after (plainly (more tt (more tt (more tt same)))) (
        part (call_code _) (λ k. k.1) (args _) (λ vs s₂ q hs at₂. with_args _ vs s₂ h hs at₂)
          (λ s₂ q fails. without_args _ s₂ fails))

  pub de_ref-Codes :
      {cond : Type 0} (flag : Bool) (arg : Code (Option Value)) (s : CodeState)
      → flag ≡ false
      → Codes cond vars funs s (arg s)
      → Codes cond vars funs s (de_ref_code flag arg s)
  de_ref-Codes true arg s e h = absurd (cc)
  de_ref-Codes false arg s e h =
      part _ (λ k. k) h (λ v s₁ p k at₁. returns (plainly (more tt (more tt same)), (k, at₁)))
        (λ s₁ p fails. null s₁ fails)

  pub binary-Codes :
      (o : Option BinaryOp) (op : String) (l r : Value) (s : CodeState)
      → At vars funs s
      → Codes (IsOperator o) vars funs s (binary_code o op l r s)
  binary-Codes none op l r s at = returns (plainly same, λ h. h)
  binary-Codes (some o) op l r s at = returns (plainly (more tt same), (tt, at))

-- The same under a condition that is the given one once its other parts hold.
pub Codes-iff :
    {A : Type 0} {cond part_cond : Type 0} {vars : Names} {funs : Decls} {s : CodeState}
    {r : Result (Option A × CodeState)}
    → (part_cond → cond)
    → (cond → part_cond)
    → Codes part_cond vars funs s r
    → Codes cond vars funs s r
Codes-iff to from (throws (e, fails)) = throws (e, λ c. fails (from c))
Codes-iff {A} {cond} {part_cond} {vars} {funs} to from (returns {val} (p, h)) =
    returns (p, go val.0 val.1 h)
  where
    go :
        (o : Option A) (s' : CodeState)
        → Judged part_cond vars funs o s'
        → Judged cond vars funs o s'
    go none s' fails = λ c. fails (from c)
    go (some a) s' (c, at) = (to c, at)

-- A part whose value is not looked at, since another one has failed.
pub lost :
    {A B : Type 0} {cond part_cond : Type 0} {vars vars' : Names} {funs funs' : Decls}
    {s : CodeState} {first : Result (Option A × CodeState)} (next : Option A → Code (Option B))
    → (cond → ⊥)
    → Codes part_cond vars' funs' s first
    → ((o : Option A) (s₁ : CodeState) → next o s₁ ≡ ok (none, s₁))
    → Codes cond vars funs s (then_run first next)
lost {cond} {vars} {funs} next fails first nothing =
    after (λ t (e, _). (e, fails)) first
      λ o s₁ (p, _).
        Codes-after p (rw (nothing o s₁) (null {cond = cond} {vars = vars} {funs = funs} s₁ fails))
