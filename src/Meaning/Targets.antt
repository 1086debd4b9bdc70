-- ===== src/Meaning/Targets.antt =====
-- The parts of `codegen` of simple statements (src/TIPtreeGen.cpp) against their meaning.
use tipc.Prelude.{
  subst, arith, ℕ, ◌≡◌, refl, sym, Bool, true, false, String, String_eq, Option, none, some, [],
  ◌∷◌, length,
}
use tipc.Prelude.Dict.{lookup}
use tipc.Prelude.Result.{Result, Post, returns, throws}
use tipc.Prelude.State.{then_run}
use tipc.Llvm.{Value, call_type, create_store, create_call, create_int_to_ptr}
use tipc.Codegen.{CodeState, emit_last, variable_code}
use tipc.Codegen.Supported.{IsVariable}
use tipc.Codegen.Statements.{reset_l_value}
use tipc.Meaning.{Machine, Results, value, Steps, partial, done, step}
use tipc.Meaning.{◌>>=◌ as and_so}
use tipc.Meaning.Evaluate.{Scope, assign}
use tipc.Meaning.Linked.{IsKnown, IsKnown-later, IsBefore-IsStable, NamesBefore, IsLocated}
use tipc.Meaning.Sequence.{Ends, ended, stuck, Runs, sequence, means, one_call, no_code}
use tipc.Meaning.Computed.{Computed, word}
use tipc.Meaning.NameCode.{located}

module _ (M : Machine) (scope : Scope M) (table : M.Word) where
  -- A statement leaves nothing to read.
  abbrev pub no_word : Value → Results M → Unit {0}
  no_word v r = tt

  -- The value of a call is not looked at.
  pub forget :
      {A : Type 0} {s s' : CodeState} {read : Results M → A}
      {meaning : Results M → Steps M.Memory A}
      → Runs M scope table s s' read meaning
      → Runs M scope table s s' (λ r. tt) (λ r. and_so (meaning r) (λ _. done tt))
  forget {s'} runs =
      sequence M scope table (λ _ _. done tt) runs
        (no_code M scope table s' (λ r. tt) (λ r r' same. refl)) (λ r r₁ m same linked. refl)

  pub store-Computes :
      (lv rv : Value) (s : CodeState)
      → Post
          (Computed M scope table no_word s (λ r. assign M scope (value M r lv) (value M r rv)))
          (λ _. ⊥)
          (emit_last (create_store rv lv) s)
  unfolding step
  store-Computes lv rv s = returns (
    forget (one_call M scope table (create_store rv lv) (call_type (create_store rv lv)) s),
    (refl, refl, refl, refl, refl, IsKnown-later _ _ _ _ _ _ (omega arith)),
  )

  pub call-Computes :
      (f v : Value) (s : CodeState)
      → Post
          (Computed M scope table no_word s
            λ r. and_so (M.call (value M r f) (value M r v ∷ [])) λ _. done tt)
          (λ _. ⊥)
          (emit_last (create_call f (v ∷ [])) s)
  unfolding step
  call-Computes f v s = returns (
    forget (one_call M scope table (create_call f (v ∷ [])) (call_type (create_call f (v ∷ []))) s),
    (refl, refl, refl, refl, refl, IsKnown-later _ _ _ _ _ _ (omega arith)),
  )

  pub address-Computes :
      (v : Value) (s : CodeState)
      → Post
          (Computed M scope table (word M scope table) s (λ r. done (M.int_to_ptr (value M r v))))
          (λ _. ⊥)
          (emit_last (create_int_to_ptr v) s)
  unfolding step
  address-Computes v s = returns (
    one_call M scope table (create_int_to_ptr v) (call_type (create_int_to_ptr v)) s,
    (refl, refl, refl, refl, refl, IsKnown-later _ _ _ _ _ _ (omega arith)),
  )

  -- The flag for l-values does not matter when the code runs.
  flagged :
      {A : Type 0} {s s' : CodeState} {read : Results M → A}
      {meaning : Results M → Steps M.Memory A} (b c : Bool)
      → Runs M scope table (record s { l_value_gen = b }) s' read meaning
      → Runs M scope table s (record s' { l_value_gen = c }) read meaning
  flagged {A} {s} {s'} {read} {meaning} b c runs = record {
    added = runs.added;
    stable = runs.stable;
    run = λ r m linked. unflagged (length s.calls) r (runs.run r m linked);
  }
    where
      unflagged :
          (n : ℕ) (r : Results M) {o : Option (A × M.Memory)} {o' : Option (Results M × M.Memory)}
          → Ends M scope table n s' r read o o'
          → Ends M scope table n (record s' { l_value_gen = c }) r read o o'
      unflagged n r stuck = stuck
      unflagged n r (ended e same linked) = ended e same linked

  -- The left side of an assignment.
  pub reset-Computes :
      (b : Bool) (s : CodeState) (meaning : Steps M.Memory M.Word)
      (r : Result (Option Value × CodeState))
      → s.l_value_gen ≡ false
      → Post
          (Computed M scope table
            (word M scope table)
            (record s { l_value_gen = b })
            (λ r. meaning))
          (λ _. ⊥)
          r
      → Post
          (Computed M scope table (word M scope table) s (λ r. meaning))
          (λ _. ⊥)
          (then_run r reset_l_value)
  reset-Computes b s meaning r flag (throws h) = throws h
  reset-Computes b s meaning r flag (returns {val} h) = returns (go val.0 val.1 h)
    where
      go :
          (o : Option Value) (s' : CodeState)
          → Computed M scope table
              (word M scope table)
              (record s { l_value_gen = b })
              (λ r. meaning)
              (o, s')
          → Computed M scope table
              (word M scope table)
              s
              (λ r. meaning)
              (o, record s' { l_value_gen = false })
      go none s' h = h
      go (some v) s' (runs, (c, d, e, f, n, k)) = (
        flagged b false runs,
        (
          c,
          d,
          sym flag,
          f,
          n,
          λ known.
              IsKnown-later s' s'.calls s'.symbols s'.input_intrinsic s'.malloc_fun false
                (omega arith)
                (k (
                  IsKnown-later s s.calls s.symbols s.input_intrinsic s.malloc_fun b (omega arith)
                    known)),
        ),
      )

  at_location :
      (n : ℕ) (r : Results M) (v : Value) (a : Option M.Word) (m : M.Memory)
      → IsLocated M n r (some (some v)) a
      → done (value M r v) m ≡ partial a m
  at_location n r v none m h = absurd h
  at_location n r v (some a) m (stable, e) = rw e refl

  pub variable_target-Computes :
      (nv : Option (Option Value)) (x : String) (s : CodeState)
      → lookup x s.named_values ≡ nv
      → IsVariable nv
      → IsKnown s
      → Post
          (Computed M scope table
            (word M scope table)
            (record s { l_value_gen = true })
            (λ r. partial (scope.location x)))
          (λ _. ⊥)
          (variable_code nv x (record s { l_value_gen = true }))
  variable_target-Computes none x s e h known = absurd h
  variable_target-Computes (some none) x s e h known = absurd h
  variable_target-Computes (some (some v)) x s e h known = returns (
    means M scope table
        (λ r m linked.
          at_location (length s.calls) r v (scope.location x) m
            (located M scope table x (some (some v)) r s e linked))
        (no_code M scope table (record s { l_value_gen = true }) (word M scope table v)
          (IsBefore-IsStable M (length s.calls) v
            (subst (NamesBefore (length s.calls)) e (known.named x)))),
    (refl, refl, refl, refl, refl, IsKnown-later _ _ _ _ _ _ (omega arith)),
  )
