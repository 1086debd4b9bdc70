-- ===== src/Meaning/Blocks.antt =====
-- The intrinsic nop, and the end of a block's code (`BlockStmt::codegen` of src/TIPtreeGen.cpp), when
-- they run.
use tipc.Prelude.{◌≡◌, refl, String_eq, Option, none, some, length, ◌∙◌, ap, [], arith}
use tipc.Prelude.Result.{Post, ◌▷◌, returns}
use tipc.Llvm.{Value, create_call, call_type}
use tipc.Codegen.{CodeState, not_null, emit_last}
use tipc.Codegen.Statements.{last_or_nop}
use tipc.Prelude.State.{then_run}
use tipc.Meaning.{done, step, and_then, value, Machine, Steps}
use tipc.Meaning.Sequence.{Runs, sequence, means, one_call}
use tipc.Meaning.Parts.{stands, Keeps, Keeps-trans}
use tipc.Meaning.Computed.{Computed}
use tipc.Meaning.Evaluate.{Scope, IsLawful}
use tipc.Meaning.Linked.{IsKnown-later}
use tipc.Meaning.Targets.{forget, no_word}

-- The intrinsic nop is there.
abbrev pub HasNop : CodeState → Type 0
HasNop s = (v : Value) × (s.nop ≡ some v)

module _ (M : Machine) (scope : Scope M) (table : M.Word) (laws : IsLawful M scope table) where
  abbrev emptied : Option (M.Word × M.Memory) → Option (Unit {0} × M.Memory)
  emptied o = and_then o (λ (w, m). some (tt, m))

  nop-Computes :
      (o : Option Value) (s : CodeState)
      → s.nop ≡ o
      → HasNop s
      → Post
          (Computed M scope table (no_word M scope table) s (λ r. done tt))
          (λ _. ⊥)
          (then_run (not_null o s) λ f. emit_last (create_call f []))
  unfolding step
  nop-Computes none s e (v, there) = absurd (cc (e, there))
  nop-Computes (some f) s e has = returns (
    means M scope table
        (λ r m (named, indexed, ftable, input, output, error, malloc, nop).
          let is_nop : value M r f ≡ M.symbol "llvm.donothing" =
            stands M scope table (length s.calls) r s.nop f (M.symbol "llvm.donothing") e nop in
          ap (λ w. emptied (M.call w [] m)) is_nop ∙ ap emptied (laws.nothing m))
        (forget M scope table
          (one_call M scope table (create_call f []) (call_type (create_call f [])) s)),
    (refl, refl, refl, refl, refl, IsKnown-later _ _ _ _ _ _ (omega arith)),
  )

  -- What ends the same and leaves nothing.
  ends_same : (o : Option (Unit {0} × M.Memory)) → and_then o (λ (a, m). some (tt, m)) ≡ o
  ends_same none = refl
  ends_same (some p) = refl

  -- A block without a last value has the intrinsic nop.
  pub last-Computes :
      (o : Option Value) (s s₁ : CodeState) (meaning : Steps M.Memory (Unit {0}))
      → HasNop s
      → Runs M scope table s s₁ (λ r. tt) (λ r. meaning)
      → Keeps s s₁
      → Post
          (Computed M scope table (no_word M scope table) s (λ r. meaning))
          (λ _. ⊥)
          (last_or_nop o s₁)
  last-Computes (some v) s s₁ meaning nop runs keeps = returns (runs, keeps)
  last-Computes none s s₁ meaning nop runs keeps =
      nop-Computes s₁.nop s₁ refl (nop.0, keeps.4 ∙ nop.1) ▷ λ q k. ended_by q.0 q.1 k
    where
      ended_by :
          (o : Option Value) (s₂ : CodeState)
          → Computed M scope table (no_word M scope table) s₁ (λ r. done tt) (o, s₂)
          → Computed M scope table (no_word M scope table) s (λ r. meaning) (o, s₂)
      ended_by none s₂ h = h
      ended_by (some v) s₂ (more, keeps') = (
        means M scope table (λ r m linked. ends_same (meaning m))
            (sequence M scope table (λ _ _. done tt) runs more (λ r r₁ m same linked. refl)),
        Keeps-trans s s₁ s₂ keeps keeps',
      )
