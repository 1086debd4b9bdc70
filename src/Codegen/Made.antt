-- ===== src/Codegen/Made.antt =====
-- What a statement's code (src/TIPtreeGen.cpp) makes, and how parts of it are put together.
use tipc.Prelude.{suc, ◌≡◌, refl, sym, ◌∙◌, String_eq, true, false, Option, none, some, List}
use tipc.Prelude.Result.{Result, Post, returns, throws}
use tipc.Prelude.State.{then_run, after}
use tipc.Llvm.{Value, Call}
use tipc.Codegen.{CodeState, Code, unless_null, not_null}
use tipc.Codegen.Shape.{flows, labels}
use tipc.Codegen.Grown.{plainly, same, IsReady}
use tipc.Codegen.Supported.{Names, Decls, At}
use tipc.Codegen.PartLaws.{Fails, Codes, Judged}
use tipc.Codegen.Emitted.{IsOpen, HasLabels, Emitted, Emitted-trans, Plain-Emitted}

-- Inside of a function, with the dispatch table.
abbrev pub IsInside : CodeState → Type 0
IsInside s =
    IsReady s × ((f : Value) × (s.insert_function ≡ some f)) × (n : Value) × (s.nop ≡ some n)

pub Emitted-IsInside : {s s' : CodeState} → Emitted s s' → IsInside s → IsInside s'
Emitted-IsInside x ((flag, t, table), (f, inside), n, nop) = (
  (x.l_value_gen ∙ flag, t, x.tip_ftable ∙ table),
  (f, x.insert_function ∙ inside),
  n,
  x.nop ∙ nop,
)

-- A value and the same tables, where the condition holds.
abbrev pub Yields : Type 0 → Names → Decls → Option Value → CodeState → Type 0
Yields cond vars funs o s' = cond → ((v : Value) × (o ≡ some v)) × At vars funs s'

abbrev pub Makes : Type 0 → Names → Decls → CodeState → Result (Option Value × CodeState) → Type 0
Makes cond vars funs s r = Post (λ q. Emitted s q.1 × Yields cond vars funs q.0 q.1) (Fails cond) r

pub Makes-after :
    {cond : Type 0} {vars : Names} {funs : Decls} {s s₁ : CodeState}
    {r : Result (Option Value × CodeState)}
    → Emitted s s₁
    → Makes cond vars funs s₁ r
    → Makes cond vars funs s r
Makes-after x (returns (y, h)) = returns (Emitted-trans x y, h)
Makes-after x (throws h) = throws h

pub Judged-Yields :
    {cond : Type 0} {vars : Names} {funs : Decls} (o : Option Value) (s : CodeState)
    → Judged cond vars funs o s
    → Yields cond vars funs o s
Judged-Yields none s fails = λ c. absurd (fails c)
Judged-Yields (some v) s (h, at) = λ c. ((v, refl), at)

Codes-Makes :
    {cond : Type 0} {vars : Names} {funs : Decls} {s : CodeState}
    {r : Result (Option Value × CodeState)}
    → Codes cond vars funs s r
    → Makes cond vars funs s r
Codes-Makes (returns {val} (p, h)) = returns (Plain-Emitted p, Judged-Yields val.0 val.1 h)
Codes-Makes (throws h) = throws h

pub none-some : (v : Value) × (◌≡◌ {A = Option Value} none (some v)) → ⊥
none-some (v, e) = cc

-- A part, and what follows it with its value; without a value nothing follows.
pub stage :
    {cond part_cond : Type 0} {vars : Names} {funs : Decls} {s : CodeState}
    {first : Result (Option Value × CodeState)} (next : Value → Code (Option Value))
    → (cond → part_cond)
    → Makes part_cond vars funs s first
    → ((v : Value) (s₁ : CodeState)
        → Emitted s s₁
        → (cond → At vars funs s₁)
        → Makes cond vars funs s₁ (next v s₁))
    → Makes cond vars funs s (then_run first (λ o. unless_null o next))
stage {cond} {part_cond} {vars} {funs} {s} next needs first with_value =
    after (λ t (e, fails). (e, λ c. fails (needs c))) first
      λ o s₁ (x, h). Makes-after x (go o s₁ x h)
  where
    go :
        (o : Option Value) (s₁ : CodeState)
        → Emitted s s₁
        → Yields part_cond vars funs o s₁
        → Makes cond vars funs s₁ (unless_null o next s₁)
    go none s₁ x h = returns (Plain-Emitted (plainly same), λ c. absurd (none-some (h (needs c)).0))
    go (some v) s₁ x h = with_value v s₁ x (λ c. (h (needs c)).1)

-- A null pointer for what is there.
pub present :
    {cond : Type 0} {vars : Names} {funs : Decls} {s : CodeState} (o : Option Value) (v : Value)
    (next : Value → Code (Option Value))
    → o ≡ some v
    → ((f : Value) → Makes cond vars funs s (next f s))
    → Makes cond vars funs s (then_run (not_null o s) next)
present none v next e h = absurd (none-some (v, e))
present (some f) v next e h = h f

-- Calls that move the insertion point, with three new labels and without.
pub began :
    {s : CodeState} {cs : List Call}
    → (IsOpen s → flows cs ≡ some true)
    → (HasLabels s.label_num (labels s.calls) → HasLabels (suc s.label_num) (labels cs))
    → Emitted s (record s { calls = cs; label_num = suc s.label_num })
began flow fresh = record {
  flow = flow;
  fresh = fresh;
  insert_function = refl;
  nop = refl;
  l_value_gen = refl;
  tip_ftable = refl;
  tip_input_array = refl;
  symbols = λ x f h. h;
}

pub shifted :
    {s : CodeState} {cs : List Call}
    → (IsOpen s → flows cs ≡ some true)
    → labels cs ≡ labels s.calls
    → Emitted s (record s { calls = cs })
shifted flow unlabelled = record {
  flow = flow;
  fresh = λ h. rw unlabelled h;
  insert_function = refl;
  nop = refl;
  l_value_gen = refl;
  tip_ftable = refl;
  tip_input_array = refl;
  symbols = λ x f h. h;
}

pub reflag : {s : CodeState} → s.l_value_gen ≡ false → Emitted s (record s { l_value_gen = false })
reflag flag = record {
  flow = λ h. h;
  fresh = λ h. h;
  insert_function = refl;
  nop = refl;
  l_value_gen = sym flag;
  tip_ftable = refl;
  tip_input_array = refl;
  symbols = λ x f h. h;
}
