-- ===== src/Codegen/Bindings.antt =====
-- The variables and the formals of a function (src/TIPtreeGen.cpp): what `NamedValues` has for them.
use tipc.Prelude.{
  subst, ◌∙◌, ℕ, suc, ◌≡◌, refl, String, String_eq, Bool, true, false, Option, none, some, List, [],
  ◌∷◌, ◌++◌, All,
}
use tipc.Prelude.Dict.{insert}
use tipc.Prelude.Result.{Result, Post, returns, throws, ◌▷◌}
use tipc.Prelude.State.{then_run, ◌⇒◌}
use tipc.Llvm.{Value, Call, null_ptr}
use tipc.Tree.{DeclStmt}
use tipc.Codegen.{CodeState, Code, LlvmFunction, not_null}
use tipc.Codegen.Statements.{gen_vars, gen_decl}
use tipc.Codegen.Functions.{gen_inputs, gen_formals, gen_decls, bind_arguments, is_some}
use tipc.Codegen.Grown.{Plain, Plain-trans, plainly, same, more, Grown}
use tipc.Codegen.Supported.{Names}
use tipc.Codegen.Scope.{Agree, Agree-insert, scope_of}

-- Addresses for the names, and instructions besides.
pub record Bound (xs : List String) (s s' : CodeState) : Type 0 where
  pub plain : Plain s s'
  pub function_decls : s'.function_decls ≡ s.function_decls
  pub agree : (vars : Names) → Agree vars s.named_values → Agree (scope_of xs vars) s'.named_values

abbrev pub Binds :
    {A : Type 0} → List String → (A → Type 0) → CodeState → Result (A × CodeState) → Type 0
Binds xs Good s r = Post (λ q. Bound xs s q.1 × Good q.0) (λ _. ⊥) r

pub Bound-refl : {s : CodeState} → Bound [] s s
unfolding scope_of
Bound-refl = record { plain = plainly same; function_decls = refl; agree = λ vars h. h }

-- One more name, with instructions around it.
Bound-step :
    (x : String) (v : Value) {xs : List String} {s s' : CodeState} {cs : List Call}
    → Grown s.calls cs
    → Bound xs (record s { calls = cs; named_values = insert x (some v) s.named_values }) s'
    → Bound (x ∷ xs) s s'
unfolding scope_of
Bound-step x v {s} g b = record {
  plain = Plain-trans (plainly g) b.plain;
  function_decls = b.function_decls;
  agree = λ vars h.
      b.agree (insert x (some null_ptr) vars) (Agree-insert vars s.named_values x null_ptr v h);
}

Binds-step :
    {A : Type 0} (Good : A → Type 0) (x : String) (v : Value) {xs : List String} {s : CodeState}
    {cs : List Call} {r : Result (A × CodeState)}
    → Grown s.calls cs
    → Binds xs Good (record s { calls = cs; named_values = insert x (some v) s.named_values }) r
    → Binds (x ∷ xs) Good s r
Binds-step Good x v g (returns (b, h)) = returns (Bound-step x v g b, h)
Binds-step Good x v g (throws h) = absurd h

-- A null pointer for what is there.
there :
    {A : Type 0} (Good : A → Type 0) {xs : List String} {s s₁ : CodeState} (o : Option Value)
    (a : Value) (next : Value → Code A)
    → o ≡ some a
    → ((b : Value) → Binds xs Good s (next b s₁))
    → Binds xs Good s (then_run (not_null o s₁) next)
there Good none a next e h = absurd (cc (e))
there Good (some b) a next e h = h b

abbrev IsThere : Option Value → Type 0
IsThere o = is_some o ≡ true

vars-Binds :
    (f : Value) (xs : List String) (local : Option Value) (s : CodeState)
    → is_some local ≡ true
    → Binds xs IsThere s (gen_vars f xs local s)
unfolding gen_vars
vars-Binds f [] local s h = returns (Bound-refl, h)
vars-Binds f (x ∷ xs) local s h =
    Binds-step _ x _ (more tt (more tt same)) (vars-Binds f xs (some _) _ refl)

formals-Binds :
    (f : Value) (xs : List String) (n : ℕ) (s : CodeState)
    → Binds xs (λ _. Unit) s (gen_formals f xs n s)
unfolding gen_formals
formals-Binds f [] n s = returns (Bound-refl, tt)
formals-Binds f (x ∷ xs) n s =
    Binds-step _ x _ (more tt (more tt same)) (formals-Binds f xs (suc n) _)

inputs-Binds :
    (f : Value) (xs : List String) (n : ℕ) (a : Value) (s : CodeState)
    → s.tip_input_array ≡ some a
    → Binds xs (λ _. Unit) s (gen_inputs f xs n s)
unfolding gen_inputs
inputs-Binds f [] n a s e = returns (Bound-refl, tt)
inputs-Binds f (x ∷ xs) n a s e = there _ s.tip_input_array a _ e λ b.
    (Binds-step _ x _ (more tt (more tt (more tt (more tt same))))
      (inputs-Binds f xs (suc n) a _ e))

scope_of_++ :
    (xs ys : List String) (vars : Names) → scope_of (xs ++ ys) vars ≡ scope_of ys (scope_of xs vars)
unfolding scope_of
scope_of_++ [] ys vars = refl
scope_of_++ (x ∷ xs) ys vars = scope_of_++ xs ys (insert x (some null_ptr) vars)

pub Bound-trans :
    {xs ys : List String} {s t u : CodeState} → Bound xs s t → Bound ys t u → Bound (xs ++ ys) s u
Bound-trans {xs} {ys} a b = record {
  plain = Plain-trans a.plain b.plain;
  function_decls = b.function_decls ∙ a.function_decls;
  agree = λ vars h. rw (scope_of_++ xs ys vars) (b.agree (scope_of xs vars) (a.agree vars h));
}

-- `FORMALS` of a function that is `main` or is not.
pub arguments-Binds :
    (is_main : Bool) (f : LlvmFunction) (xs : List String) (a : Value) (s : CodeState)
    → (is_main ≡ false → f.arg_names ≡ xs)
    → s.tip_input_array ≡ some a
    → Binds xs (λ _. Unit) s (bind_arguments is_main f xs s)
arguments-Binds true f xs a s names e = inputs-Binds f.value xs 0 a s e
arguments-Binds false f xs a s names e =
    subst (λ ys. Binds ys (λ _. Unit) s (gen_formals f.value f.arg_names 0 s)) (names refl)
      (formals-Binds f.value f.arg_names 0 s)

abbrev pub all_vars : List DeclStmt → List String
all_vars [] = []
all_vars (d ∷ ds) = d.vars ++ all_vars ds

-- The grammar has no declaration without a name.
abbrev pub HasNames : List String → Type 0
HasNames [] = ⊥
HasNames (x ∷ xs) = Unit

decl-Binds :
    (d : DeclStmt) (f : Value) (s : CodeState)
    → HasNames d.vars
    → s.insert_function ≡ some f
    → Binds d.vars IsThere s (gen_decl d s)
unfolding gen_decl gen_vars
decl-Binds d f s names e = there _ s.insert_function f _ e λ g. go d.vars g names
  where
    go : (xs : List String) (g : Value) → HasNames xs → Binds xs IsThere s (gen_vars g xs none s)
    go [] g names = absurd names
    go (x ∷ xs) g names =
        Binds-step _ x _ (more tt (more tt same)) (vars-Binds g xs (some _) _ refl)

pub decls-Binds :
    (ds : List DeclStmt) (f : Value) (s : CodeState)
    → All (λ d. HasNames d.vars) ds
    → s.insert_function ≡ some f
    → Binds (all_vars ds) (λ b. b ≡ true) s (gen_decls ds true s)
unfolding gen_decls
decls-Binds [] f s names e = returns (Bound-refl, refl)
decls-Binds (d ∷ ds) f s (names, more_names) e = decl-Binds d f s names e ⇒ λ o s₁ (b, h). rw h (
    decls-Binds ds f s₁ more_names (b.plain.insert_function ∙ e) ▷ λ q (c, k). (Bound-trans b c, k))
