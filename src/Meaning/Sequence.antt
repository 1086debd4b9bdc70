-- ===== src/Meaning/Sequence.antt =====
-- One part of the code of src/TIPtreeGen.cpp after another, when the code runs.
use tipc.Prelude.{
  ℕ, ◌≤◌, ◌≡◌, refl, ◌∙◌, String, Option, none, some, List, ◌∷◌, length, subst, arith,
}
use tipc.Prelude.Dict.{Dict}
use tipc.Llvm.{Ty, Value, result, Call}
use tipc.Codegen.{CodeState, LlvmFunction}
use tipc.Meaning.{
  Machine, Results, set, value, Added, nothing, one_more, and_then, Steps, ◌>>=◌, step, execute,
}
use tipc.Meaning.Evaluate.{Scope}
use tipc.Meaning.Linked.{
  Added-length, joined, SameBefore, IsStable, IsLinked, Globals-later, set_last, set-SameBefore,
}

and_then-some : {A : Type 0} (o : Option A) → o ≡ and_then o some
and_then-some none = refl
and_then-some (some a) = refl

and_then_assoc :
    {A B C : Type 0} (o : Option A) (f : A → Option B) (g : B → Option C)
    → and_then (and_then o f) g ≡ and_then o (λ a. and_then (f a) g)
and_then_assoc none f g = refl
and_then_assoc (some a) f g = refl

module _ (M : Machine) where
  execute-joined :
      {xs ys zs : List Call} (first : Added xs ys) (then : Added ys zs) (r : Results M)
      (m : M.Memory)
      → execute M (joined first then) r m
        ≡ and_then (execute M first r m) (λ (r', m'). execute M then r' m')
  unfolding execute joined
  execute-joined first nothing r m = and_then-some (execute M first r m)
  execute-joined first (one_more {cs} then) r m =
      rw (execute-joined first then r m)
        (and_then_assoc (execute M first r m) (λ (r', m'). execute M then r' m') _)

module _ (M : Machine) (scope : Scope M) (table : M.Word) where
  -- A run of code against its meaning: neither has a defined end, or both have the same one, and
  -- the globals stand for the same.
  pub data Ends {A : Type 0} (n : ℕ) (s' : CodeState) (r : Results M) (read : Results M → A)
      : Option (A × M.Memory) → Option (Results M × M.Memory) → Type 0 where
    stuck : Ends n s' r read none none
    ended :
        {a : A} {m : M.Memory} {r' : Results M}
        → read r' ≡ a
        → SameBefore M n r r'
        → IsLinked M scope table r' s'
        → Ends n s' r read (some (a, m)) (some (r', m))

  -- The code that has been added after a state has a meaning: its result can be read off the
  -- results of the calls.
  pub record Runs {A : Type 0} (s s' : CodeState) (read : Results M → A)
      (meaning : Results M → Steps M.Memory A) : Type 0 where
    pub added : Added s.calls s'.calls
    pub stable : IsStable M (length s'.calls) read
    pub run :
        (r : Results M) (m : M.Memory)
        → IsLinked M scope table r s
        → Ends (length s.calls) s' r read (meaning r m) (execute M added r m)

  Ends-earlier :
      {A : Type 0} {n k : ℕ} {s' : CodeState} {r r₁ : Results M} {read : Results M → A}
      {o : Option (A × M.Memory)} {o' : Option (Results M × M.Memory)}
      → n ≤ k
      → SameBefore M n r r₁
      → Ends k s' r₁ read o o'
      → Ends n s' r read o o'
  Ends-earlier bound same stuck = stuck
  Ends-earlier bound same (ended e h linked) =
      ended e (λ i l. h i (omega (arith, bound, l)) ∙ same i l) linked

  Ends-then :
      {A B : Type 0} {n : ℕ} {s₁ s₂ : CodeState} {r : Results M} {read : Results M → A}
      {read' : Results M → B} {o : Option (A × M.Memory)} {o' : Option (Results M × M.Memory)}
      (next : A → Steps M.Memory B) (next' : Results M → M.Memory → Option (Results M × M.Memory))
      → Ends n s₁ r read o o'
      → ((r₁ : Results M) (m₁ : M.Memory)
          → SameBefore M n r r₁
          → IsLinked M scope table r₁ s₁
          → Ends n s₂ r read' (next (read r₁) m₁) (next' r₁ m₁))
      → Ends n s₂ r read'
          (and_then o (λ (a, m'). next a m'))
          (and_then o' (λ (r', m'). next' r' m'))
  Ends-then next next' stuck later = stuck
  Ends-then {n} {s₂} {r} {read'} next next' (ended {m} {r'} e same linked) later =
      subst (λ a. Ends n s₂ r read' (next a m) (next' r' m)) e (later r' m same linked)

  -- Two parts, where the second one means the same as `next` of what the first one leaves.
  pub sequence :
      {A B : Type 0} {s s₁ s₂ : CodeState} {read : Results M → A} {read' : Results M → B}
      {first : Results M → Steps M.Memory A} {second : Results M → Steps M.Memory B}
      (next : Results M → A → Steps M.Memory B)
      → Runs s s₁ read first
      → Runs s₁ s₂ read' second
      → ((r r₁ : Results M) (m : M.Memory)
          → SameBefore M (length s.calls) r r₁
          → IsLinked M scope table r₁ s₁
          → second r₁ m ≡ next r (read r₁) m)
      → Runs s s₂ read' (λ r. first r >>= next r)
  sequence {s} {s₁} {s₂} {read'} next one two means = record {
    added = joined one.added two.added;
    stable = two.stable;
    run = λ r m linked. rw (execute-joined M one.added two.added r m) (
        Ends-then (next r) (λ r' m'. execute M two.added r' m') (one.run r m linked)
          λ r₁ m₁ same linked₁. Ends-earlier (Added-length one.added) same (
            subst (λ o. Ends (length s₁.calls) s₂ r₁ read' o (execute M two.added r₁ m₁))
              (means r r₁ m₁ same linked₁) (two.run r₁ m₁ linked₁)));
  }

  -- The same code under another description of its meaning.
  pub means :
      {A : Type 0} {s s' : CodeState} {read : Results M → A}
      {meaning meaning' : Results M → Steps M.Memory A}
      → ((r : Results M) (m : M.Memory) → IsLinked M scope table r s → meaning r m ≡ meaning' r m)
      → Runs s s' read meaning
      → Runs s s' read meaning'
  means {s} {s'} {read} same runs = record {
    added = runs.added;
    stable = runs.stable;
    run = λ r m linked.
        subst (λ o. Ends (length s.calls) s' r read o (execute M runs.added r m)) (same r m linked)
          (runs.run r m linked);
  }

  -- No code.
  pub no_code :
      {A : Type 0} (s : CodeState) (read : Results M → A)
      → IsStable M (length s.calls) read
      → Runs s s read (λ r m. some (read r, m))
  unfolding execute
  no_code s read stable = record {
    added = nothing;
    stable = stable;
    run = λ r m linked. ended refl (λ i l. refl) linked;
  }

  -- One call, which may set the globals for the functions of the runtime.
  pub one_call_with :
      (c : Call) (t : Ty) (s : CodeState) (fs : Dict String LlvmFunction) (i o e m : Option Value)
      → ((r : Results M) (w : M.Word) (m₁ m₂ : M.Memory)
          → step M r c m₁ ≡ some (w, m₂)
          → IsLinked M scope table (set M r (length s.calls) w) (record s { calls = c ∷ s.calls })
          → IsLinked M scope table (set M r (length s.calls) w) (record s {
            calls = c ∷ s.calls;
            symbols = fs;
            input_intrinsic = i;
            output_intrinsic = o;
            error_intrinsic = e;
            malloc_fun = m;
          }))
      → Runs s
          (record s {
            calls = c ∷ s.calls;
            symbols = fs;
            input_intrinsic = i;
            output_intrinsic = o;
            error_intrinsic = e;
            malloc_fun = m;
          })
          (λ r. value M r (result (length s.calls) t))
          (λ r. step M r c)
  unfolding execute
  one_call_with c t s fs i o e m links = record {
    added = one_more nothing;
    stable = λ r r' same. same (length s.calls) (omega arith);
    run = λ r m₁ linked. stepped r m₁ linked (step M r c m₁) refl;
  }
    where
      stepped :
          (r : Results M) (m₁ : M.Memory)
          → IsLinked M scope table r s
          → (res : Option (M.Word × M.Memory)) → step M r c m₁ ≡ res
          → Ends
              (length s.calls)
              (record s {
                calls = c ∷ s.calls;
                symbols = fs;
                input_intrinsic = i;
                output_intrinsic = o;
                error_intrinsic = e;
                malloc_fun = m;
              })
              r
              (λ r'. value M r' (result (length s.calls) t))
              res
              (and_then res λ (w, m''). some (set M r (length s.calls) w, m''))
      stepped r m₁ linked none eq = stuck
      stepped r m₁ linked (some (w, m₂)) eq =
          ended (set_last M r (length s.calls) w) (set-SameBefore M r (length s.calls) w) (
            links r w m₁ m₂ eq (
              Globals-later M (omega arith) (set-SameBefore M r (length s.calls) w) scope table s
                linked))

  pub one_call :
      (c : Call) (t : Ty) (s : CodeState)
      → Runs s
          (record s { calls = c ∷ s.calls })
          (λ r. value M r (result (length s.calls) t))
          (λ r. step M r c)
  one_call c t s =
      one_call_with c t s s.symbols s.input_intrinsic s.output_intrinsic s.error_intrinsic
        s.malloc_fun (λ r w m₁ m₂ e linked. linked)
