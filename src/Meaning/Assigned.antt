-- ===== src/Meaning/Assigned.antt =====
-- The code of assignments and of calls of the runtime (src/TIPtreeGen.cpp) against their meaning.
use tipc.Prelude.{ℕ, refl, ap, true, false, String_eq, [], ◌∷◌, length}
use tipc.Prelude.Dict.{lookup}
use tipc.Prelude.Result.{Post}
use tipc.Prelude.State.{then_run}
use tipc.Llvm.{Value, create_call}
use tipc.Tree.{
  Expr, number_expr, variable_expr, binary_expr, fun_app_expr, input_expr, alloc_expr, ref_expr,
  de_ref_expr, null_expr, field_expr, record_expr, access_expr, assign_stmt,
}
use tipc.Codegen.{CodeState, gen_expr, emit_last, unless_null, variable_code}
use tipc.Codegen.Grown.{IsReady}
use tipc.Codegen.Supported.{Names, Decls, Supported, At, TargetSupported}
use tipc.Codegen.Statements.{gen_target, gen_stmt}
use tipc.Meaning.{Machine, value, partial, done}
use tipc.Meaning.{◌>>=◌ as and_so}
use tipc.Meaning.Evaluate.{Scope, IsLawful, eval, target_address, assign, perform}
use tipc.Meaning.Linked.{IsKnown, IsStable}
use tipc.Meaning.Computed.{Computed, word, IsReady-kept, At-kept, part, joined_with}
use tipc.Meaning.Exprs.{computes}
use tipc.Meaning.Targets.{
  no_word, store-Computes, call-Computes, address-Computes, reset-Computes,
  variable_target-Computes,
}

module _ (M : Machine) (scope : Scope M) (table : M.Word) (laws : IsLawful M scope table) where
  target-Computes :
      (l : Expr) (vars : Names) (funs : Decls) (s : CodeState)
      → IsReady s
      → At vars funs s
      → TargetSupported vars funs l
      → IsKnown s
      → Post
          (Computed M scope table (word M scope table) s (λ r. target_address M scope l))
          (λ _. ⊥)
          (gen_target l s)
  unfolding gen_target gen_expr
  target-Computes (variable_expr i x) vars funs s ready at h known =
      reset-Computes M scope table true s (partial (scope.location x))
        (variable_code (lookup x s.named_values) x (record s { l_value_gen = true })) ready.0
        (variable_target-Computes M scope table (lookup x s.named_values) x s refl (rw at.0 h)
          known)
  target-Computes (de_ref_expr i e) vars funs s ready at h known =
      reset-Computes M scope table false s (target_address M scope (de_ref_expr i e)) _ ready.0 (
        part M scope table _
          (computes M scope table laws e vars funs (record s { l_value_gen = false })
            (refl, ready.1, ready.2) at h)
          λ v s₁ runs keeps.
            joined_with M scope table (λ _ w. done (M.int_to_ptr w)) runs keeps
              (λ r r₁ m same linked. refl) (address-Computes M scope table v s₁))
  target-Computes (number_expr i v) vars funs s ready at h known = absurd h
  target-Computes (binary_expr i op l r) vars funs s ready at h known = absurd h
  target-Computes (fun_app_expr i f es) vars funs s ready at h known = absurd h
  target-Computes (input_expr i) vars funs s ready at h known = absurd h
  target-Computes (alloc_expr i e) vars funs s ready at h known = absurd h
  target-Computes (ref_expr i x r) vars funs s ready at h known = absurd h
  target-Computes (null_expr i) vars funs s ready at h known = absurd h
  target-Computes (field_expr f) vars funs s ready at h known = absurd h
  target-Computes (record_expr i fs) vars funs s ready at h known = absurd h
  target-Computes (access_expr i e f) vars funs s ready at h known = absurd h

  -- An output or an error, once the function is there.
  pub passed-Computes :
      (f : Value) (e : Expr) (vars : Names) (funs : Decls) (s : CodeState)
      → IsReady s
      → At vars funs s
      → Supported vars funs e
      → IsStable M (length s.calls) (word M scope table f)
      → Post
          (Computed M scope table
            (no_word M scope table)
            s
            λ r. and_so (eval M scope e) λ w. and_so (M.call (value M r f) (w ∷ [])) λ _. done tt)
          (λ _. ⊥)
          (then_run (gen_expr e s) λ arg. unless_null arg λ v. emit_last (create_call f (v ∷ [])))
  passed-Computes f e vars funs s ready at h stable =
      part M scope table _ (computes M scope table laws e vars funs s ready at h) λ v s₁ runs keeps.
        joined_with M scope table (λ r w. and_so (M.call (value M r f) (w ∷ [])) λ _. done tt) runs
          keeps
          (λ r r₁ m same linked.
            ap (λ g. and_so (M.call g (value M r₁ v ∷ [])) (λ _. done tt) m) (stable r r₁ same))
          (call-Computes M scope table f v s₁)

  pub assign-Computes :
      (l e : Expr) (i : ℕ) (vars : Names) (funs : Decls) (s : CodeState)
      → IsReady s
      → At vars funs s
      → TargetSupported vars funs l
      → Supported vars funs e
      → IsKnown s
      → Post
          (Computed M scope table
            (no_word M scope table)
            s
            (λ r. perform M scope (assign_stmt i l e)))
          (λ _. ⊥)
          (gen_stmt (assign_stmt i l e) s)
  unfolding gen_stmt perform
  assign-Computes l e i vars funs s ready at hl he known =
      part M scope table _ (target-Computes l vars funs s ready at hl known) λ lv s₁ runs keeps.
        joined_with M scope table (λ _ a. and_so (eval M scope e) (assign M scope a)) runs keeps
          (λ r r₁ m same linked. refl)
          (part M scope table _
            (computes M scope table laws e vars funs s₁
              (IsReady-kept M scope table s s₁ keeps ready)
              (At-kept M scope table vars funs s s₁ keeps at) he)
            λ rv s₂ runs₂ keeps₂.
              joined_with M scope table (λ r w. assign M scope (value M r lv) w) runs₂ keeps₂
                (λ r r₁ m same linked.
                  ap (λ a. assign M scope a (value M r₁ rv) m) (runs.stable r r₁ same))
                (store-Computes M scope table lv rv s₂))
