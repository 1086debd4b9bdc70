-- ===== src/Meaning/NameCode.antt =====
-- The code of names and addresses (src/TIPtreeGen.cpp) against their meaning.
use tipc.Prelude.{
  arith, ℕ, ◌≡◌, refl, sym, ap, ◌∙◌, Bool, true, false, String, String_eq, Option, none, some, List,
  length, subst,
}
use tipc.Prelude.Int.{pos}
use tipc.Prelude.Dict.{lookup}
use tipc.Prelude.Result.{returns}
use tipc.Prelude.State.{then_run}
use tipc.Llvm.{Value, create_load, create_ptr_to_int, call_type}
use tipc.Codegen.{CodeState, named_code, variable_code, function_code, named_entry, ref_code}
use tipc.Codegen.Supported.{IsVariable, IsNamed}
use tipc.Meaning.{Machine, Results, value, partial, done, step}
use tipc.Meaning.Evaluate.{Scope, variable_value, address_value}
use tipc.Meaning.Linked.{IsKnown-later, IsLinked, IsLocated, index_of}
use tipc.Meaning.Sequence.{means, one_call, no_code}
use tipc.Meaning.Computed.{Computes}

module _ (M : Machine) (scope : Scope M) (table : M.Word) where
  -- Variables and functions.
  loaded :
      (n : ℕ) (r : Results M) (v : Value) (a : Option M.Word) (i : Option ℕ) (m : M.Memory)
      → IsLocated M n r (some (some v)) a
      → partial (M.load m (value M r v)) m ≡ variable_value M scope a i m
  loaded n r v none i m h = absurd h
  loaded n r v (some a) i m (stable, e) = rw e refl

  addressed :
      (n : ℕ) (r : Results M) (v : Value) (a : Option M.Word) (m : M.Memory)
      → IsLocated M n r (some (some v)) a
      → done (M.ptr_to_int (value M r v)) m ≡ partial (address_value M scope a) m
  addressed n r v none m h = absurd h
  addressed n r v (some a) m (stable, e) = rw e refl

  indexed_as :
      (n : ℕ) (r : Results M) (a : Option M.Word) (i : ℕ) (j : Option ℕ) (m : M.Memory)
      → IsLocated M n r none a
      → some i ≡ j
      → done (M.const (pos i)) m ≡ variable_value M scope a j m
  indexed_as n r none i j m h e = rw (sym e) refl
  indexed_as n r (some a) i j m h e = absurd h

  pub located :
      (x : String) (o : Option (Option Value)) (r : Results M) (s : CodeState)
      → lookup x s.named_values ≡ o
      → IsLinked M scope table r s
      → IsLocated M (length s.calls) r o (scope.location x)
  located x o r s e linked =
      subst (λ o. IsLocated M (length s.calls) r o (scope.location x)) e (linked.0 x)

  function-Computes :
      (d : Option (ℕ × List String)) (x : String) (s : CodeState)
      → lookup x s.function_decls ≡ d
      → lookup x s.named_values ≡ none
      → IsNamed none d
      → Computes M scope table s
          (variable_value M scope (scope.location x) (scope.index x))
          (function_code d x s)
  function-Computes none x s e new h = absurd h
  function-Computes (some (i, formals)) x s e new h = returns (
    means M scope table
        (λ r m linked.
          indexed_as (length s.calls) r (scope.location x) i (scope.index x) m
            (located x none r s new linked) (ap (index_of M) (sym e) ∙ linked.1 x))
        (no_code M scope table s (λ r. M.const (pos i)) (λ r r' same. refl)),
    (refl, refl, refl, refl, refl, IsKnown-later _ _ _ _ _ _ (omega arith)),
  )

  named-Computes :
      (b : Bool) (v : Value) (x : String) (s : CodeState)
      → b ≡ false
      → lookup x s.named_values ≡ some (some v)
      → Computes M scope table s
          (variable_value M scope (scope.location x) (scope.index x))
          (named_code b (some v) s)
  unfolding step
  named-Computes true v x s flag e = absurd (cc (flag))
  named-Computes false v x s flag e = returns (
    means M scope table
        (λ r m linked.
          loaded (length s.calls) r v (scope.location x) (scope.index x) m
            (located x (some (some v)) r s e linked))
        (one_call M scope table (create_load v) (call_type (create_load v)) s),
    (refl, refl, refl, refl, refl, IsKnown-later _ _ _ _ _ _ (omega arith)),
  )

  pub variable-Computes :
      (nv : Option (Option Value)) (x : String) (s : CodeState)
      → lookup x s.named_values ≡ nv
      → s.l_value_gen ≡ false
      → IsNamed nv (lookup x s.function_decls)
      → Computes M scope table s
          (variable_value M scope (scope.location x) (scope.index x))
          (variable_code nv x s)
  variable-Computes none x s e flag h = function-Computes (lookup x s.function_decls) x s refl e h
  variable-Computes (some none) x s e flag h = absurd h
  variable-Computes (some (some v)) x s e flag h = named-Computes s.l_value_gen v x s flag e

  pub ref-Computes :
      (nv : Option (Option Value)) (x : String) (s : CodeState)
      → lookup x s.named_values ≡ nv
      → IsVariable nv
      → Computes M scope table s
          (partial (address_value M scope (scope.location x)))
          (then_run (named_entry nv x s) (λ v. ref_code v x))
  unfolding step
  ref-Computes none x s e h = absurd h
  ref-Computes (some none) x s e h = absurd h
  ref-Computes (some (some v)) x s e h = returns (
    means M scope table
        (λ r m linked.
          addressed (length s.calls) r v (scope.location x) m
            (located x (some (some v)) r s e linked))
        (one_call M scope table (create_ptr_to_int v) (call_type (create_ptr_to_int v)) s),
    (refl, refl, refl, refl, refl, IsKnown-later _ _ _ _ _ _ (omega arith)),
  )
