-- ===== src/CommandLine.antt =====
-- `main` of the compiler (src/tipc.cpp) after the parse: what it prints, and the bitcode file that
-- it writes. LLVM's modules and the passes that simplify them are parameters.
mod Tests
use tipc.Prelude.{
  ◌≡◌, refl, sym, ap, ◌∙◌, Bool, true, false, ◌||◌, Option, none, some, List, [], ◌∷◌, ◌++◌,
  append-nil, subst, Text, codes, if◌then◌else◌,
}
use tipc.Prelude.Result.{Error, Result, ok, err, Post, good_of, ◌>>=◌}
use tipc.Llvm.{Call}
use tipc.ParseTree.{FunctionContext}
use tipc.Build.{Visited, build}
use tipc.Build.Reference.{functions_of}
use tipc.Build.Laws.{build-lem}
use tipc.Build.Large.{HasLarge}
use tipc.Build.ExprLaws.{IsOutOfRange}
use tipc.Ast.{GenState, gen_program as number_program}
use tipc.Ast.Erase.{erase_program}
use tipc.Ast.FunctionNumbering.{ProgramNumbered, gen_program-Numbered}
use tipc.Unify.Laws.{IsTypeError}
use tipc.TreePrint.{print_program}
use tipc.TreePrint.Erased.{print_program-same}
use tipc.Typecheck.Printed.{print_typed_program}
use tipc.Typecheck.Driver.{type_analysis}
use tipc.Codegen.{Code, CodeState}
use tipc.Codegen.Functions.{gen_program}
use tipc.Codegen.Erased.{gen_program-erase}
use tipc.Tree.{Program}

-- The options `-p`, `-l` and `-d`, and the positional argument.
pub record Options : Type 0 where
  pub pp : Bool
  pub pp_wlines : Bool
  pub no_opt : Bool
  pub source_file : Text

-- What a run leaves: the text on standard output, and the name and the content of the file.
pub record Output (Bitcode : Type 0) : Type 0 where
  pub printed : Text
  pub written : Option (Text × Bitcode)

-- What is printed ends with `std::endl`.
abbrev pub line_of : Program → Text → Result (Program × Text)
line_of tree text = ok (tree, text ++ 10 ∷ [])

-- `if (typecheck)`: the numbers stay in the tree.
unfoldable pub analyse : Bool → Program → GenState → Result (Program × Text)
analyse false p g = ok (p, [])
analyse true p g = do
  (numbered, g') ← number_program p g
  text ← print_typed_program numbered
  line_of numbered text

module _ {Bitcode : Type 0} (module_of : List Call → Bitcode) (simplify : Bitcode → Bitcode) where
  -- The passes run on each function of the module unless `-d` is given.
  abbrev pub optimised : Bool → List Call → Bitcode
  optimised no_opt calls = if no_opt then module_of calls else simplify (module_of calls)

  -- The tree is printed, at the indentation level 0, which every print leaves as it was, or compiled.
  abbrev pub finish : Bool → Options → Program → Text → CodeState → Result (Output Bitcode)
  finish true o p printed s = ok (record {
    printed = printed ++ (print_program (codes "  ") o.pp_wlines p 0).0;
    written = none;
  })
  finish false o p printed s = do
    (generated, s') ← gen_program p s
    ok (record {
      printed = printed;
      written = some (o.source_file ++ codes ".bc", optimised o.no_opt s'.calls);
    })

  -- The first argument is the option `-t`.
  unfoldable pub run :
      Bool
      → Options
      → List FunctionContext
      → Visited
      → GenState
      → CodeState
      → Result (Output Bitcode)
  unfolding analyse
  run typecheck o cs v g s = do
    ast ← build cs v
    (tree, text) ← analyse typecheck ast g
    finish (o.pp || o.pp_wlines) o tree text s

-- The same outcome with a text in front of what is printed.
abbrev pub after_text :
    {Bitcode : Type 0} → Text → Result (Output Bitcode) → Result (Output Bitcode)
after_text text (err thrown) = err thrown
after_text text (ok out) = ok (record out { printed = text ++ out.printed })

module _ {Bitcode : Type 0} (module_of : List Call → Bitcode) (simplify : Bitcode → Bitcode) where
  abbrev ending : Bool → Options → Program → Text → CodeState → Result (Output Bitcode)
  ending = finish module_of simplify

  after_text_then :
      {A : Type 0} (r : Result A) (text : Text) (file : A → Text × Bitcode)
      → (r >>= λ a. ok (record { printed = text; written = some (file a) }))
        ≡ after_text text (r >>= λ a. ok (record { printed = []; written = some (file a) }))
  after_text_then (err thrown) text file = refl
  after_text_then (ok a) text file =
      ap (λ t. ok (record { printed = t; written = some (file a) })) (sym (append-nil text))

  -- What has been printed before stands in front.
  text_first :
      (b : Bool) (o : Options) (p : Program) (text : Text) (s : CodeState)
      → ending b o p text s ≡ after_text text (ending b o p [] s)
  text_first true o p text s = refl
  text_first false o p text s =
      after_text_then (gen_program p s) text
        λ q. (o.source_file ++ codes ".bc", optimised module_of simplify o.no_opt q.1.calls)

  -- Neither the print nor the code depends on ids.
  same_tree :
      (b : Bool) (o : Options) (p q : Program) (s : CodeState)
      → erase_program p ≡ erase_program q
      → ending b o p [] s ≡ ending b o q [] s
  same_tree true o p q s e =
      ap (λ t. ok (record { printed = t.0; written = none }))
        (print_program-same (codes "  ") o.pp_wlines p q 0 e)
  same_tree false o p q s e =
      ap
        (λ (gen : Code (Unit {0})). gen s >>= λ r. ok (record {
          printed = [];
          written =
              some (o.source_file ++ codes ".bc", optimised module_of simplify o.no_opt r.1.calls);
        }))
        (sym (gen_program-erase p) ∙ ap gen_program e ∙ gen_program-erase q)

  module _ (b : Bool) (o : Options) (p : Program) (s : CodeState) where
    typed_then :
        (numbered : Program) (r : Result Text)
        → erase_program numbered ≡ erase_program p
        → ((r >>= line_of numbered) >>= λ q. ending b o q.0 q.1 s)
          ≡ (r >>= λ text. after_text (text ++ 10 ∷ []) (ending b o p [] s))
    typed_then numbered (err thrown) e = refl
    typed_then numbered (ok text) e =
        text_first b o numbered (text ++ 10 ∷ []) s
        ∙ ap (after_text (text ++ 10 ∷ [])) (same_tree b o numbered p s e)

    numbered_then :
        (g : GenState) (r : Result (Program × GenState))
        → Post (ProgramNumbered p g) IsTypeError r
        → ((r >>= λ q. print_typed_program q.0 >>= line_of q.0) >>= λ q. ending b o q.0 q.1 s) ≡ (
            (r >>= λ q. print_typed_program q.0) >>= λ text.
            after_text (text ++ 10 ∷ []) (ending b o p [] s))
    numbered_then g (err thrown) h = refl
    numbered_then g (ok (numbered, g')) h =
        typed_then numbered (print_typed_program numbered) (good_of h).shape

  -- With `-t` the compiler does what it does without: it prints the same after the text of the type
  -- analysis and a line end, and writes the same file, or throws what it would have thrown, unless
  -- the builder or the analysis throws first, whatever the other options and the globals are.
  pub run-typecheck :
      (o : Options) (cs : List FunctionContext) (v : Visited) (g : GenState) (s : CodeState)
      → run module_of simplify true o cs v g s ≡ (
          build cs v >>= λ p. type_analysis p g >>= λ text.
          after_text (text ++ 10 ∷ []) (run module_of simplify false o cs v g s))
  unfolding run analyse type_analysis
  run-typecheck o cs v g s = built_then (build cs v) (build-lem cs v)
    where
      built_then :
          (r : Result Program)
          → Post
              (λ p. (functions_of cs ≡ ok p.functions) × (erase_program p ≡ p))
              (IsOutOfRange (HasLarge cs))
              r
          → (r >>= λ p. analyse true p g >>= λ q. ending (o.pp || o.pp_wlines) o q.0 q.1 s) ≡ (
              r >>= λ p. type_analysis p g >>= λ text.
              after_text (text ++ 10 ∷ []) (r >>= λ p. ending (o.pp || o.pp_wlines) o p [] s))
      built_then (err thrown) h = refl
      built_then (ok p) h = numbered_then (o.pp || o.pp_wlines) o p s g (number_program p g) (
          subst (λ q. Post (ProgramNumbered p g) IsTypeError (number_program q g)) (good_of h).1
            (gen_program-Numbered p g))
