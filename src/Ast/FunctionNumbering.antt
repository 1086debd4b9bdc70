-- ===== src/Ast/FunctionNumbering.antt =====
-- `genId` on the functions of a program that has no ids yet, and on the program.
use mathlib.Core.Bool.{or-false, or_assoc}
use tipc.Prelude.{
  subst, ℕ, suc, ◌+◌, ◌≡◌, refl, sym, ap, ap₂, ◌∙◌, Bool, true, false, ◌||◌, some, List, [], ◌∷◌,
  String, String_eq, ◌==◌, length, All, arith,
}
use tipc.Prelude.Dict.{Dict, lookup, lookup-insert_self, lookup-insert_has}
use tipc.Prelude.Result.{Post, returns, throws, ◌▷◌}
use tipc.Unify.Laws.{IsTypeError}
use tipc.Ast.Reached.{StmtsRefsSet}
use tipc.Ast.{
  GenState, gen_function, gen_functions, number_functions, function_id, require_main, gen_program,
}
use tipc.Ast.Erase.{erase_function, erase_functions, erase_program}
use tipc.Ast.Numbering.{
  OneIdEach, Consecutive, Ran, Ran-refl, Ran-append, function_ids, functions_ids,
}
use tipc.Prelude.State.{◌⇒◌}
use tipc.Ast.StmtNumbering.{gen_names-Numbered, gen_decls-Numbered, gen_stmts-Numbered}
use tipc.Tree.{TipFunction, Program}

-- The program has put down a number for the name.
abbrev pub HasNumber : Dict String ℕ → String → Type 0
HasNumber m x = (n : ℕ) × (lookup x m ≡ some n)

-- The result has the shape of the function, its number, one id for each formal, and consecutive
-- ids in formals, locals and body, whose references are numbered.
pub record FunctionNumbered (f : TipFunction) (s : GenState) (r : TipFunction × GenState)
    : Type 0 where
  pub shape : erase_function r.0 ≡ erase_function f
  pub ran : Ran s (function_ids r.0) r.1
  pub own : lookup f.name s.fun2id ≡ some r.0.id
  pub formals : length r.0.formal_ids ≡ length f.formals
  pub refs : StmtsRefsSet r.0.body
  pub locals : OneIdEach r.0.decls

pub gen_function-Numbered :
    (f : TipFunction) (s : GenState)
    → HasNumber s.fun2id f.name
    → Post (FunctionNumbered f s) IsTypeError (gen_function (erase_function f) s)
unfolding gen_function function_id
gen_function-Numbered f s (n, own) = rw own (
    gen_names-Numbered f.formals [] _ ⇒ λ ids s₁ h. gen_decls-Numbered f.decls s₁ ⇒ λ ds' s₂ k.
    gen_stmts-Numbered f.body s₂ ⇒ λ bs' s₃ l. returns (record {
      shape = rw (k.shape, l.shape);
      ran = rw h.pushed (
          Ran-append (record { gives = h.ran.gives; same_functions = h.ran.same_functions })
            (Ran-append k.ran l.ran));
      own = own;
      formals = rw h.pushed h.one_each;
      refs = l.refs;
      locals = k.one_each;
    }))

abbrev pub OwnNumbers : Dict String ℕ → List TipFunction → Type 0
OwnNumbers m fs = All (λ f. lookup f.name m ≡ some f.id) fs

abbrev pub BodiesHaveRefs : List TipFunction → Type 0
BodiesHaveRefs fs = All (λ f. StmtsRefsSet f.body) fs

abbrev pub LocalsHaveIds : List TipFunction → Type 0
LocalsHaveIds fs = All (λ f. OneIdEach f.decls) fs

record FunctionsNumbered (fs : List TipFunction) (s : GenState) (r : List TipFunction × GenState)
    : Type 0 where
  shape : erase_functions r.0 ≡ erase_functions fs
  ran : Ran s (functions_ids r.0) r.1
  own : OwnNumbers s.fun2id r.0
  refs : BodiesHaveRefs r.0
  locals : LocalsHaveIds r.0

gen_functions-Numbered :
    (fs : List TipFunction) (s : GenState) (m : Dict String ℕ)
    → s.fun2id ≡ m
    → All (λ f. HasNumber m f.name) fs
    → Post (FunctionsNumbered fs s) IsTypeError (gen_functions (erase_functions fs) s)
unfolding gen_functions
gen_functions-Numbered [] s m e h =
    returns (record { shape = refl; ran = Ran-refl; own = tt; refs = tt; locals = tt })
gen_functions-Numbered (f ∷ fs) s m e (first, rest) =
    gen_function-Numbered f s (rw e first) ⇒ λ f' s₁ h.
    gen_functions-Numbered fs s₁ m (h.ran.same_functions ∙ e) rest ⇒ λ fs' s₂ k. returns (record {
      shape = ap₂ (λ a b. a ∷ b) h.shape k.shape;
      ran = Ran-append h.ran k.ran;
      own = (
        rw (ap (λ g. g.name) h.shape) h.own,
        subst (λ m. OwnNumbers m fs') h.ran.same_functions k.own,
      );
      refs = (h.refs, k.refs);
      locals = (h.locals, k.locals);
    })

-- Whether a function of the list is called `main`.
abbrev pub declares_main : List TipFunction → Bool
declares_main [] = false
declares_main (f ∷ fs) = f.name == "main" || declares_main fs

-- After the first loop every function has a number.
pub record NamesNumbered (fs : List TipFunction) (has_main : Bool) (s : GenState)
    (r : Bool × GenState) : Type 0 where
  pub count : r.1.ast_counter ≡ s.ast_counter + length fs
  pub keeps : (x : String) → HasNumber s.fun2id x → HasNumber r.1.fun2id x
  pub all : All (λ f. HasNumber r.1.fun2id f.name) fs
  pub main : r.0 ≡ (has_main || declares_main fs)

pub number_functions-Numbered :
    (fs : List TipFunction) (has_main : Bool) (s : GenState)
    → Post
        (NamesNumbered fs has_main s)
        IsTypeError
        (number_functions (erase_functions fs) has_main s)
unfolding number_functions
number_functions-Numbered [] has_main s =
    returns
      (record { count = omega arith; keeps = λ x h. h; all = tt; main = sym (or-false has_main) })
number_functions-Numbered (f ∷ fs) has_main s =
    number_functions-Numbered fs (has_main || f.name == "main") _ ▷ λ r h. record {
      count = omega (arith, h.count);
      keeps = λ x (n, old). h.keeps x (lookup-insert_has x f.name s.ast_counter n s.fun2id old);
      all =
          (h.keeps f.name (s.ast_counter, lookup-insert_self f.name s.ast_counter s.fun2id), h.all);
      main = h.main ∙ or_assoc has_main (f.name == "main") (declares_main fs);
    }

-- The numbered program: the shape of the given one, which has a `main`; the first numbers for the
-- program and its functions, each function with the number of its name; consecutive ids in the
-- functions after these; and numbered references, and an id for each local.
pub record ProgramNumbered (p : Program) (s : GenState) (r : Program × GenState) : Type 0 where
  pub shape : erase_program r.0 ≡ erase_program p
  pub main : declares_main p.functions ≡ true
  pub own : OwnNumbers r.1.fun2id r.0.functions
  pub gives :
      Consecutive
        (suc s.ast_counter + length p.functions)
        (functions_ids r.0.functions)
        r.1.ast_counter
  pub refs : BodiesHaveRefs r.0.functions
  pub locals : LocalsHaveIds r.0.functions

pub require_main-lem :
    (b : Bool) (s : GenState) → Post (λ r. (r.1 ≡ s) × (b ≡ true)) IsTypeError (require_main b s)
require_main-lem true s = returns (refl, refl)
require_main-lem false s = throws (_, refl)

pub gen_program-Numbered :
    (p : Program) (s : GenState)
    → Post (ProgramNumbered p s) IsTypeError (gen_program (erase_program p) s)
unfolding gen_program
gen_program-Numbered p s = number_functions-Numbered p.functions false _ ⇒ λ has_main s₁ names.
    require_main-lem has_main s₁ ⇒ λ _ s₂ (same, found).
    gen_functions-Numbered p.functions s₂ s₁.fun2id (ap (λ t. t.fun2id) same) names.all ⇒ λ fs s₃ h.
    returns (record {
      shape = rw h.shape;
      main = sym names.main ∙ found;
      own = subst (λ m. OwnNumbers m fs) (sym h.ran.same_functions) h.own;
      gives = rw (sym names.count, ap (λ t. t.ast_counter) (sym same)) h.ran.gives;
      refs = h.refs;
      locals = h.locals;
    })
