-- ===== src/Meaning/Linked.antt =====
-- The globals of src/TIPtreeGen.cpp when the code runs: what their values stand for.
use tipc.Prelude.{
  ap, Bool, ℕ, ◌≤◌, ◌<◌, ℕ_eq, ◌==◌, String, String_eq, ◌≡◌, refl, ◌∙◌, Bool-cases, inl, inr,
  Option, none, some, List, length, nat_eq_iff, arith,
}
use tipc.Prelude.Dict.{Dict, lookup}
use tipc.Llvm.{const_int, null_ptr, argument, cast_const, result, Value, Call}
use tipc.Codegen.{CodeState, LlvmFunction}
use tipc.Meaning.{Machine, Results, set, value, Added, nothing, one_more}
use tipc.Meaning.Evaluate.{Scope}

pub Added-length : {xs ys : List Call} → Added xs ys → length xs ≤ length ys
Added-length nothing = omega arith
Added-length (one_more added) = omega (arith, Added-length added)

unfoldable pub joined : {xs ys zs : List Call} → Added xs ys → Added ys zs → Added xs zs
joined first nothing = first
joined first (one_more added) = one_more (joined first added)

-- A value that does not come from a call, or from one before a position.
abbrev pub IsBefore : ℕ → Value → Type 0
IsBefore n (result k t) = k < n
IsBefore n (cast_const v t) = IsBefore n v
IsBefore n _ = Unit

abbrev pub HoldsBefore : ℕ → Option Value → Type 0
HoldsBefore n none = Unit
HoldsBefore n (some v) = IsBefore n v

abbrev pub NamesBefore : ℕ → Option (Option Value) → Type 0
NamesBefore n none = Unit
NamesBefore n (some o) = HoldsBefore n o

module _ {n k : ℕ} (bound : n ≤ k) where
  pub IsBefore-later : (v : Value) → IsBefore n v → IsBefore k v
  IsBefore-later (result j t) h = omega (arith, bound, h)
  IsBefore-later (cast_const v t) h = IsBefore-later v h
  IsBefore-later (const_int i) h = tt
  IsBefore-later null_ptr h = tt
  IsBefore-later (argument i) h = tt

  pub HoldsBefore-later : (o : Option Value) → HoldsBefore n o → HoldsBefore k o
  HoldsBefore-later none h = tt
  HoldsBefore-later (some v) h = IsBefore-later v h

  NamesBefore-later : (o : Option (Option Value)) → NamesBefore n o → NamesBefore k o
  NamesBefore-later none h = tt
  NamesBefore-later (some o) h = HoldsBefore-later o h

-- The values of the globals that are kept while other code is generated.
pub record IsKnown (s : CodeState) : Type 0 where
  pub named : (x : String) → NamesBefore (length s.calls) (lookup x s.named_values)
  pub output : HoldsBefore (length s.calls) s.output_intrinsic
  pub error : HoldsBefore (length s.calls) s.error_intrinsic

pub IsKnown-with :
    (s : CodeState) (cs : List Call) (fs : Dict String LlvmFunction) (i o e m : Option Value)
    (b : Bool)
    → length s.calls ≤ length cs
    → HoldsBefore (length cs) o
    → HoldsBefore (length cs) e
    → IsKnown s
    → IsKnown (record s {
      calls = cs;
      symbols = fs;
      input_intrinsic = i;
      output_intrinsic = o;
      error_intrinsic = e;
      malloc_fun = m;
      l_value_gen = b;
    })
IsKnown-with s cs fs i o e m b bound ho he known = record {
  named = λ x. NamesBefore-later bound (lookup x s.named_values) (known.named x);
  output = ho;
  error = he;
}

pub IsKnown-later :
    (s : CodeState) (cs : List Call) (fs : Dict String LlvmFunction) (i m : Option Value) (b : Bool)
    → length s.calls ≤ length cs
    → IsKnown s
    → IsKnown (record s {
      calls = cs;
      symbols = fs;
      input_intrinsic = i;
      malloc_fun = m;
      l_value_gen = b;
    })
IsKnown-later s cs fs i m b bound known =
    IsKnown-with s cs fs i s.output_intrinsic s.error_intrinsic m b bound
      (HoldsBefore-later bound s.output_intrinsic known.output)
      (HoldsBefore-later bound s.error_intrinsic known.error) known

module _ (M : Machine) where
  -- The calls before a position have returned the same.
  abbrev pub SameBefore : ℕ → Results M → Results M → Type 0
  SameBefore n r r' = (i : ℕ) → i < n → r' i ≡ r i

  -- What is read off the results depends on calls before a position only.
  abbrev pub IsStable : {A : Type 0} → ℕ → (Results M → A) → Type 0
  IsStable n read = (r r' : Results M) → SameBefore n r r' → read r' ≡ read r

  -- A value that is known and stands for a word; a null pointer stands for nothing.
  abbrev pub StandsFor : ℕ → Results M → Option Value → M.Word → Type 0
  StandsFor n r none w = Unit
  StandsFor n r (some v) w = IsBefore n v × (value M r v ≡ w)

  pub IsBefore-IsStable : (n : ℕ) (v : Value) → IsBefore n v → IsStable n (λ r. value M r v)
  IsBefore-IsStable n (result k t) h r r' same = same k h
  IsBefore-IsStable n (cast_const v t) h r r' same =
      ap (M.cast t) (IsBefore-IsStable n v h r r' same)
  IsBefore-IsStable n (const_int i) h r r' same = refl
  IsBefore-IsStable n null_ptr h r r' same = refl
  IsBefore-IsStable n (argument i) h r r' same = refl

  abbrev pub IsLocated : ℕ → Results M → Option (Option Value) → Option M.Word → Type 0
  IsLocated n r none none = Unit
  IsLocated n r (some (some v)) (some a) = StandsFor n r (some v) a
  IsLocated n r _ _ = ⊥

  abbrev pub index_of : Option (ℕ × List String) → Option ℕ
  index_of none = none
  index_of (some (i, formals)) = some i

  -- The names stand for what the scope says, and the functions of the runtime for those that the
  -- program is linked with.
  abbrev pub Globals : Scope M → M.Word → ℕ → Results M → CodeState → Type 0
  Globals scope table n r s =
      ((x : String) → IsLocated n r (lookup x s.named_values) (scope.location x))
      × ((x : String) → index_of (lookup x s.function_decls) ≡ scope.index x)
      × StandsFor n r s.tip_ftable table
      × StandsFor n r s.input_intrinsic (M.symbol "_tip_input")
      × StandsFor n r s.output_intrinsic (M.symbol "_tip_output")
      × StandsFor n r s.error_intrinsic (M.symbol "_tip_error")
      × StandsFor n r s.malloc_fun (M.symbol "malloc")
      × StandsFor n r s.nop (M.symbol "llvm.donothing")

  abbrev pub IsLinked : Scope M → M.Word → Results M → CodeState → Type 0
  IsLinked scope table r s = Globals scope table (length s.calls) r s

  -- Later results.
  module _ {n k : ℕ} {r r' : Results M} (bound : n ≤ k) (same : SameBefore n r r') where
    pub IsStable-later : {A : Type 0} (read : Results M → A) → IsStable n read → IsStable k read
    IsStable-later read stable r₁ r₂ h = stable r₁ r₂ λ i l. h i (omega (arith, bound, l))

    StandsFor-later : (o : Option Value) (w : M.Word) → StandsFor n r o w → StandsFor k r' o w
    StandsFor-later none w h = tt
    StandsFor-later (some v) w (before, e) =
        (IsBefore-later bound v before, IsBefore-IsStable n v before r r' same ∙ e)

    IsLocated-later :
        (o : Option (Option Value)) (a : Option M.Word) → IsLocated n r o a → IsLocated k r' o a
    IsLocated-later none none h = tt
    IsLocated-later none (some a) h = h
    IsLocated-later (some none) none h = h
    IsLocated-later (some none) (some a) h = h
    IsLocated-later (some (some v)) none h = h
    IsLocated-later (some (some v)) (some a) h = StandsFor-later (some v) a h

    pub Globals-later :
        (scope : Scope M) (table : M.Word) (s : CodeState)
        → Globals scope table n r s
        → Globals scope table k r' s
    Globals-later scope table s (named, indexed, ftable, input, output, error, malloc, nop) = (
      (λ x. IsLocated-later (lookup x s.named_values) (scope.location x) (named x)),
      indexed,
      StandsFor-later s.tip_ftable table ftable,
      StandsFor-later s.input_intrinsic (M.symbol "_tip_input") input,
      StandsFor-later s.output_intrinsic (M.symbol "_tip_output") output,
      StandsFor-later s.error_intrinsic (M.symbol "_tip_error") error,
      StandsFor-later s.malloc_fun (M.symbol "malloc") malloc,
      StandsFor-later s.nop (M.symbol "llvm.donothing") nop,
    )

  -- The result of the last call.
  pub set_last : (r : Results M) (n : ℕ) (w : M.Word) → set M r n w n ≡ w
  set_last r n w = rw ((nat_eq_iff n n).1 refl) refl

  pub set-SameBefore : (r : Results M) (n : ℕ) (w : M.Word) → SameBefore n r (set M r n w)
  set-SameBefore r n w i l = elim (Bool-cases (i == n)) [
    | inl e ↦ absurd (omega (arith, (nat_eq_iff i n).0 e, l))
    | inr f ↦ rw f refl
  ]
