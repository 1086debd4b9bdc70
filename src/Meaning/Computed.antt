-- ===== src/Meaning/Computed.antt =====
-- A part of the code of an expression (src/TIPtreeGen.cpp) that has a value, and what follows it.
use tipc.Prelude.{◌≡◌, ◌∙◌, String_eq, Option, none, some, List, length}
use tipc.Prelude.Result.{Result, Post, returns, throws}
use tipc.Prelude.State.{then_run}
use tipc.Llvm.{Value}
use tipc.Codegen.{CodeState, Code}
use tipc.Codegen.Grown.{IsReady}
use tipc.Codegen.Supported.{Names, Decls, At}
use tipc.Meaning.{Machine, Results, value, values, Steps}
use tipc.Meaning.{◌>>=◌ as and_so}
use tipc.Meaning.Evaluate.{Scope}
use tipc.Meaning.Linked.{SameBefore, IsLinked}
use tipc.Meaning.Sequence.{Runs, sequence}
use tipc.Meaning.Parts.{Keeps, Keeps-trans}

module _ (M : Machine) (scope : Scope M) (table : M.Word) where
  -- There is a result, and the code runs as it should.
  abbrev pub Computed :
      {V A : Type 0}
      → (V → Results M → A)
      → CodeState
      → (Results M → Steps M.Memory A)
      → Option V × CodeState
      → Type 0
  Computed read s meaning (none, s') = ⊥
  Computed read s meaning (some v, s') = Runs M scope table s s' (read v) meaning × Keeps s s'

  abbrev pub word : Value → Results M → M.Word
  word v r = value M r v

  abbrev pub words : List Value → Results M → List M.Word
  words vs r = values M r vs

  abbrev pub Computes :
      CodeState → Steps M.Memory M.Word → Result (Option Value × CodeState) → Type 0
  Computes s meaning = Post (Computed word s (λ r. meaning)) (λ _. ⊥)

  pub IsReady-kept : (s s' : CodeState) → Keeps s s' → IsReady s → IsReady s'
  IsReady-kept s s' (_, _, flag, ftable, _, _) (e, t, f) = (flag ∙ e, t, ftable ∙ f)

  pub At-kept :
      (vars : Names) (funs : Decls) (s s' : CodeState)
      → Keeps s s'
      → At vars funs s
      → At vars funs s'
  At-kept vars funs s s' (a, b, _, _, _, _) (c, d) = (a ∙ c, b ∙ d)

  -- A part, and what follows it.
  pub part :
      {V A W : Type 0} {read : V → Results M → A} {s : CodeState}
      {meaning : Results M → Steps M.Memory A} {first : Result (Option V × CodeState)}
      {Good : Option W × CodeState → Type 0} (next : Option V → Code (Option W))
      → Post (Computed read s meaning) (λ _. ⊥) first
      → ((v : V) (s₁ : CodeState)
          → Runs M scope table s s₁ (read v) meaning
          → Keeps s s₁
          → Post Good (λ _. ⊥) (next (some v) s₁))
      → Post Good (λ _. ⊥) (then_run first next)
  part next (throws h) later = throws h
  part {V} {A} {W} {read} {s} {meaning} {Good} next (returns {val} h) later = go val.0 val.1 h
    where
      go :
          (o : Option V) (s₁ : CodeState)
          → Computed read s meaning (o, s₁)
          → Post Good (λ _. ⊥) (next o s₁)
      go none s₁ h = absurd h
      go (some v) s₁ (runs, keeps) = later v s₁ runs keeps

  -- What has been generated before stands in front.
  pub joined_with :
      {V A B : Type 0} {read : Results M → A} {read' : V → Results M → B} {s s₁ : CodeState}
      {first : Results M → Steps M.Memory A} {second : Results M → Steps M.Memory B}
      {o : Result (Option V × CodeState)} (next : Results M → A → Steps M.Memory B)
      → Runs M scope table s s₁ read first
      → Keeps s s₁
      → ((r r₁ : Results M) (m : M.Memory)
          → SameBefore M (length s.calls) r r₁
          → IsLinked M scope table r₁ s₁
          → second r₁ m ≡ next r (read r₁) m)
      → Post (Computed read' s₁ second) (λ _. ⊥) o
      → Post (Computed read' s (λ r. and_so (first r) (next r))) (λ _. ⊥) o
  joined_with next runs keeps same (throws h) = throws h
  joined_with {V} {A} {B} {read} {read'} {s} {s₁} {first} {second} next runs keeps same
        (returns {val} h) =
      returns (go val.0 val.1 h)
    where
      go :
          (o : Option V) (s₂ : CodeState)
          → Computed read' s₁ second (o, s₂)
          → Computed read' s (λ r. and_so (first r) (next r)) (o, s₂)
      go none s₂ h = h
      go (some v) s₂ (then, keeps') =
          (sequence M scope table next runs then same, Keeps-trans s s₁ s₂ keeps keeps')
