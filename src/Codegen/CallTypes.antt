-- ===== src/Codegen/CallTypes.antt =====
-- The types of the code of a function application and of what has operands (src/TIPtreeGen.cpp).
use tipc.Prelude.{
  ℕ, suc, ◌≡◌, refl, ap, String_eq, Bool, true, false, Option, none, some, List, All, length,
}
use tipc.Prelude.Result.{returns, throws}
use tipc.Prelude.State.{then_run, after, ◌>>=◌}
use tipc.Llvm.{i64, ptr, fn, Value, value_type}
use tipc.Codegen.Supported.{Decls}
use tipc.Codegen.{
  CodeState, Code, not_null, indexed, call_code, de_ref_code, push_rest, push_arg, unless_null,
}
use tipc.Codegen.Typing.{HasTable, WellTyped, typed_more, Types, valued}
use tipc.Codegen.OperandTypes.{HasWord}

-- The actual parameters.
abbrev pub HasArgs : ℕ → Option (List Value) → Type 0
HasArgs n none = Unit
HasArgs n (some vs) = (length vs ≡ n) × All (λ v. value_type v ≡ i64) vs

module _ {funs : Decls} where
  push-Types :
      (v : Value) (n : ℕ) (o : Option (List Value)) (s : CodeState)
      → value_type v ≡ i64
      → HasArgs n o
      → WellTyped funs s
      → Types funs (HasArgs (suc n)) (push_rest v o s)
  push-Types v n none s e h w = returns (w, tt)
  push-Types v n (some vs) s e (k, h) w = returns (w, (ap suc k, (e, h)))

  pub arg-Types :
      (o : Option Value) (n : ℕ) (rest : Code (Option (List Value))) (s : CodeState)
      → HasWord o
      → WellTyped funs s
      → ((s₁ : CodeState) → WellTyped funs s₁ → Types funs (HasArgs n) (rest s₁))
      → Types funs (HasArgs (suc n)) (push_arg o rest s)
  arg-Types none n rest s h w more_args = returns (w, tt)
  arg-Types (some v) n rest s h w more_args =
      after (λ t _. tt) (more_args s w) λ vs s₁ (w₁, hs). push-Types v n vs s₁ h hs w₁

  call-Types :
      (f : Value) (n : ℕ) (o : Option (List Value)) (s : CodeState)
      → value_type f ≡ ptr (fn n i64)
      → HasArgs n o
      → WellTyped funs s
      → Types funs HasWord (call_code f o s)
  unfolding call_code
  call-Types f n none s e h w = returns (w, tt)
  call-Types f n (some vs) s e h w = returns (typed_more (rw e h) w, rw e refl)

  pub called-Types :
      (o : Option Value) (fv : Value) (n : ℕ) (args : Code (Option (List Value))) (s : CodeState)
      → value_type fv ≡ i64
      → HasTable o
      → WellTyped funs s
      → ((s₁ : CodeState) → WellTyped funs s₁ → Types funs (HasArgs n) (args s₁))
      → Types funs HasWord
          (then_run (not_null o s) (λ ftable. indexed ftable fv n >>= λ f. args >>= call_code f))
  called-Types none fv n args s e h w more_args = throws tt
  called-Types (some t) fv n args s e (k, h) w more_args =
      after (λ t _. tt)
        (more_args _ (
          typed_more (rw h (tt, tt))
            (typed_more tt (typed_more (rw h (tt, (refl, (e, tt)), tt)) w))))
        (λ vs s₁ (w₁, hs). call-Types _ n vs s₁ refl hs w₁)

  pub de_ref-Types :
      (b : Bool) (arg : Code (Option Value)) (s : CodeState)
      → b ≡ false
      → Types funs HasWord (arg s)
      → Types funs HasWord (de_ref_code b arg s)
  de_ref-Types true arg s e h = absurd (cc (e))
  de_ref-Types false arg s e h =
      valued HasWord HasWord _ tt h (λ v s₁ w k. returns (typed_more tt (typed_more k w), refl))

  -- Both operands are generated before either is looked at.
  pub operands :
      (P : Option Value → Type 0) (l r : Code (Option Value))
      (next : Value → Value → Code (Option Value)) (s : CodeState)
      → P none
      → Types funs HasWord (l s)
      → ((s₁ : CodeState) → WellTyped funs s₁ → Types funs HasWord (r s₁))
      → ((lv rv : Value) (s₂ : CodeState)
          → value_type lv ≡ i64
          → value_type rv ≡ i64
          → WellTyped funs s₂
          → Types funs P (next lv rv s₂))
      → Types funs P
          (then_run (l s) (λ lo. r >>= λ ro. unless_null lo λ lv. unless_null ro λ rv. next lv rv))
  operands P l r next s nothing left right later =
      after (λ t _. tt) left
        λ lo s₁ (w, h). after (λ t _. tt) (right s₁ w) λ ro s₂ (w₂, k). go lo ro s₂ h k w₂
    where
      go :
          (lo ro : Option Value) (s₂ : CodeState)
          → HasWord lo
          → HasWord ro
          → WellTyped funs s₂
          → Types funs P (unless_null lo (λ lv. unless_null ro λ rv. next lv rv) s₂)
      go none ro s₂ h k w = returns (w, nothing)
      go (some lv) none s₂ h k w = returns (w, nothing)
      go (some lv) (some rv) s₂ h k w = later lv rv s₂ h k w
