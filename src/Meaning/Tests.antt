-- ===== src/Meaning/Tests.antt =====
-- The code of an expression and of a block, run on a small machine: its words are numbers, cells and functions, and
-- its memory is a list of cells.
use tipc.Prelude.{
  ℕ, zero, suc, ◌+◌, ◌≡◌, refl, String, String_eq, ◌==◌, Bool, true, false, Option, none, some,
  List, [], ◌∷◌, ◌++◌, length, if◌then◌else◌, arith,
}
use tipc.Prelude.Int.{ℤ, pos}
use tipc.Prelude.Dict.{lookup}
use tipc.Prelude.Result.{Post}
use tipc.Llvm.{
  i64, void, ptr, array, fn, create_function, Value, result, BinaryOp, add, create_global,
  create_alloca, argument,
}
use tipc.Tree.{
  Expr, number_expr, variable_expr, binary_expr, fun_app_expr, alloc_expr, de_ref_expr, no_exprs,
  exprs,
}
use tipc.Codegen.{CodeState, gen_expr, operator_of}
use tipc.Codegen.Functions.{initial}
use tipc.Codegen.Supported.{Names, Decls, Supported, StmtSupported}
use tipc.Meaning.{Machine, Results}
use tipc.Meaning.Evaluate.{Scope, IsLawful, eval, perform}
use tipc.Tree.{Stmt, assign_stmt, block_stmt, no_stmts, stmts}
use tipc.Meaning.Stmts.{IsStraight}
use tipc.Meaning.Linked.{IsLinked, IsLocated, index_of}
use tipc.Meaning.Stmts.{PerformsTo, gen_stmt-PerformsTo}
use tipc.Codegen.Statements.{gen_stmt}
use tipc.Meaning.Exprs.{RunsTo, gen_expr-RunsTo}

data Word : Type 0 where
  number : ℤ → Word
  cell : ℕ → Word
  slot : Word → Word
  function : ℕ → Word
  named : String → Word
  unknown : Word

abbrev sum : BinaryOp → Word → Word → Option Word
sum add (number (pos a)) (number (pos b)) = some (number (pos (a + b)))
sum o x y = none

abbrev get_elem? : List Word → ℕ → Option Word
get_elem? [] i = none
get_elem? (w ∷ ws) zero = some w
get_elem? (w ∷ ws) (suc i) = get_elem? ws i

abbrev after : Word → Option (List Word) → Option (List Word)
after w none = none
after w (some ws) = some (w ∷ ws)

abbrev set_elem? : List Word → ℕ → Word → Option (List Word)
set_elem? [] i x = none
set_elem? (w ∷ ws) zero x = some (x ∷ ws)
set_elem? (w ∷ ws) (suc i) x = after w (set_elem? ws i x)

abbrev entry_at : Word → Option Word
entry_at (number (pos i)) = some (function i)
entry_at _ = none

abbrev load : List Word → Word → Option Word
load m (cell n) = get_elem? m n
load m (slot w) = entry_at w
load m _ = none

abbrev store : List Word → Word → Word → Option (List Word)
store m (cell n) w = set_elem? m n w
store m _ w = none

abbrev offset : Word → List Word → Word
offset table (z ∷ w ∷ []) = slot w
offset table _ = unknown

-- Each function returns its argument; `malloc` gives a new cell.
abbrev call : Word → List Word → List Word → Option (Word × List Word)
call (function i) (w ∷ []) m = some (w, m)
call (named f) (w ∷ []) m = some (cell (length m), m ++ number (pos 0) ∷ [])
call (named f) [] m = if f == "llvm.donothing" then some (unknown, m) else none
call _ ws m = none

abbrev machine : Machine
machine = record {
  Word = Word;
  Memory = List Word;
  const = number;
  null = unknown;
  argument_at = λ i. unknown;
  symbol = named;
  operate = sum;
  nonzero = λ w. w;
  load = load;
  store = store;
  offset = offset;
  cast = λ t w. w;
  int_to_ptr = λ w. w;
  ptr_to_int = λ w. w;
  call = call;
}

abbrev vars : Names
vars = ("a", some (result 1 (ptr i64))) ∷ []

abbrev funs : Decls
funs = ("f", (0, "x" ∷ [])) ∷ []

abbrev located : Option (Option Value) → Option Word
located (some (some v)) = some (cell 0)
located _ = none

abbrev scope : Scope machine
scope = record {
  location = λ x. located (lookup x vars);
  index = λ x. index_of machine (lookup x funs);
  entry = entry_at;
}

-- In a function with the variable a.
abbrev here : CodeState
here = record initial {
  calls =
      create_function "llvm.donothing" 0 void
      ∷ create_alloca (argument 0) "a"
      ∷ create_global "_tip_ftable" (array 1 (ptr (fn 0 i64))) []
      ∷ [];
  named_values = vars;
  function_decls = funs;
  tip_ftable = some (result 0 (ptr (array 1 (ptr (fn 0 i64)))));
  nop = some (result 2 (ptr (fn 0 void)));
}

abbrev results : Results machine
results zero = named "_tip_ftable"
results (suc zero) = cell 0
results (suc (suc zero)) = named "llvm.donothing"
results _ = unknown

-- *(alloc f(a)) + 1
abbrev expr : Expr
expr =
    binary_expr 0 "+"
      (de_ref_expr 0 (
        alloc_expr 0 (fun_app_expr 0 (variable_expr 0 "f") (exprs (variable_expr 0 "a") no_exprs))))
      (number_expr 0 (pos 1))

value_of :
    eval machine scope expr (number (pos 7) ∷ [])
    ≡ some (number (pos 8), number (pos 7) ∷ number (pos 7) ∷ [])
unfolding eval operator_of
value_of = refl

laws : IsLawful machine scope (named "_tip_ftable")
laws = record { cast_same = λ t w. refl; entries = λ m w. refl; nothing = λ m. refl }

located_a :
    (b : Bool)
    → IsLocated machine 3 results
        (if b then some (some (result 1 (ptr i64))) else none)
        (located (if b then some (some (result 1 (ptr i64))) else none))
located_a true = ((omega arith), refl)
located_a false = tt

here-IsLinked : IsLinked machine scope (named "_tip_ftable") results here
here-IsLinked = (
  (λ x. located_a ("a" == x)),
  (λ x. refl),
  ((omega arith), refl),
  tt,
  tt,
  tt,
  tt,
  ((omega arith), refl),
)

gen_expr-RunsTo_example :
    Post
      (RunsTo machine scope
        (named "_tip_ftable")
        here
        results
        (number (pos 7) ∷ [])
        (eval machine scope expr (number (pos 7) ∷ [])))
      (λ _. ⊥)
      (gen_expr expr here)
unfolding Supported operator_of
gen_expr-RunsTo_example =
    gen_expr-RunsTo machine scope (named "_tip_ftable") laws expr vars funs here results
      (number (pos 7) ∷ []) (refl, _, refl) (refl, refl) ((tt, (tt, tt)), tt, tt) here-IsLinked

-- { a = *(alloc f(a)) + 1; { } a = a + a; }
abbrev block : Stmt
block = block_stmt 0 (
    stmts (assign_stmt 0 (variable_expr 0 "a") expr) (
      stmts (block_stmt 0 no_stmts) (
        stmts
          (assign_stmt 0 (variable_expr 0 "a")
            (binary_expr 0 "+" (variable_expr 0 "a") (variable_expr 0 "a")))
          no_stmts)))

performed :
    perform machine scope block (number (pos 7) ∷ [])
    ≡ some (tt, number (pos 16) ∷ number (pos 7) ∷ [])
unfolding eval perform operator_of
performed = refl

gen_stmt-PerformsTo_example :
    Post
      (PerformsTo machine scope
        (named "_tip_ftable")
        here
        results
        (number (pos 7) ∷ [])
        (perform machine scope block (number (pos 7) ∷ [])))
      (λ _. ⊥)
      (gen_stmt block here)
unfolding Supported StmtSupported IsStraight operator_of
gen_stmt-PerformsTo_example =
    gen_stmt-PerformsTo machine scope (named "_tip_ftable") laws block vars funs here results
      (number (pos 7) ∷ []) (refl, _, refl) (_, refl) (refl, refl)
      ((tt, ((tt, (tt, tt)), tt, tt)), (tt, ((tt, (tt, tt, tt)), tt))) (tt, (tt, (tt, tt)))
      here-IsLinked
