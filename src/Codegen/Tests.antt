-- ===== src/Codegen/Tests.antt =====
-- Runs of `codegen` (src/TIPtreeGen.cpp) on a small program and on code that it does not mean to
-- make, and its laws at concrete inputs.
use tipc.Prelude.{
  All, Bool-cases, inl, inr, ◌==◌, ℕ, ◌≡◌, refl, String, String_eq, false, Option, none, some, List,
  [], ◌∷◌, length,
}
use tipc.Prelude.Dict.{lookup}
use tipc.Prelude.Int.{pos}
use tipc.Prelude.Result.{Result, ok, err, undefined, Post}
use tipc.Llvm.{
  Call, i1, i64, ptr, fn, void, array, const_int, result, create_store, create_binary, create_load,
  create_ret_void, icmp_sgt, Value,
}
use tipc.Tree.{
  Expr, number_expr, variable_expr, binary_expr, fun_app_expr, ref_expr, no_exprs, exprs, Stmt,
  block_stmt, assign_stmt, while_stmt, if_stmt, output_stmt, return_stmt, no_else, no_stmts, stmts,
  TipFunction, Program,
}
use tipc.Codegen.{CodeState, LlvmFunction, operator_of, gen_expr, call_code}
use tipc.Codegen.Statements.{gen_stmt, gen_target}
use tipc.Codegen.Functions.{
  initial, gen_program, gen_function, get_function, make_table, declare_functions, create_functions,
  create_table, create_inputs, gen_functions, gen_inputs, gen_formals, gen_decls, gen_body,
}
use tipc.Codegen.Supported.{Supported, StmtSupported, IsInner}
use tipc.Codegen.Scope.{scope_of}
use tipc.Codegen.Emitted.{word-ne}
use tipc.Codegen.Made.{IsInside}
use tipc.Codegen.BodyLaws.{returning, then_more, Passage}
use tipc.Codegen.FunctionLaws.{gen_function-Passage}
use tipc.Codegen.Table.{decl_table}
use tipc.Codegen.Creation.{HasTable, created_calls, make_table-HasTable}
use tipc.Codegen.PartLaws.{Codes}
use tipc.Codegen.ExprLaws.{gen_expr-Codes}
use tipc.Codegen.Typing.{WellTyped, IsAddress}
use tipc.Codegen.OperandTypes.{IsIntegral}
use tipc.Codegen.StmtTypes.{IsTypable}
use tipc.Codegen.TypeLaws.{gen_stmt-WellTyped}
use tipc.Codegen.FunctionTypes.{BodyTypable}
use tipc.Codegen.Limits.{gen_stmt-swallows}
use tipc.Codegen.ProgramLaws.{IsProgram}

abbrev variable : String → Expr
variable x = variable_expr 0 x

abbrev number : ℕ → Expr
number n = number_expr 0 (pos n)

-- `inc(y) { return y + 1; }`
abbrev inc : TipFunction
inc = record {
  id = 0;
  name = "inc";
  formals = "y" ∷ [];
  formal_ids = [];
  decls = [];
  body = stmts (return_stmt 0 (binary_expr 0 "+" (variable "y") (number 1))) no_stmts;
  line = pos 1;
}

-- `while (n > x) { if (x == 3) output x; x = inc(x); }`
abbrev counting : Stmt
counting = while_stmt 0 (binary_expr 0 ">" (variable "n") (variable "x")) (
    block_stmt 0 (
      stmts
        (if_stmt 0 (binary_expr 0 "==" (variable "x") (number 3)) (output_stmt 0 (variable "x"))
          no_else)
        (stmts
          (assign_stmt 0 (variable "x")
            (fun_app_expr 0 (variable "inc") (exprs (variable "x") no_exprs)))
          no_stmts)))

-- `main(n) { var x; while ... return x; }`
abbrev pub main_function : TipFunction
main_function = record {
  id = 0;
  name = "main";
  formals = "n" ∷ [];
  formal_ids = [];
  decls = record { id = 0; vars = "x" ∷ []; var_ids = []; line = pos 3 } ∷ [];
  body = stmts counting (stmts (return_stmt 0 (variable "x")) no_stmts);
  line = pos 2;
}

abbrev pub program : Program
program = record { id = 0; functions = inc ∷ main_function ∷ [] }

-- The calls of the whole module, and the dispatch table.
abbrev count_calls : Result (Unit {0} × CodeState) → ℕ
count_calls (ok (_, s)) = length s.calls
count_calls (err thrown) = 0

abbrev table_of : Result (Unit {0} × CodeState) → Option Value
table_of (ok (_, s)) = s.tip_ftable
table_of (err thrown) = none

program_calls :
    (count_calls (gen_program program initial) ≡ 64)
    × (table_of (gen_program program initial) ≡ some (result 3 (ptr (array 2 (ptr (fn 0 i64))))))
unfolding gen_program make_table declare_functions create_functions create_table create_inputs
    gen_functions gen_function get_function gen_inputs gen_formals gen_decls gen_body gen_stmt
    gen_target gen_expr operator_of call_code
program_calls = (refl, refl)

-- The calls of a statement's code, and whether it has a value.
abbrev made_by : Result (Option Value × CodeState) → Option (List Call)
made_by (ok (_, s)) = some s.calls
made_by (err thrown) = none

abbrev address : Value
address = result 0 (ptr i64)

-- Inside of a function with the variables `x` and `n`, after the calls that made them.
abbrev inside : CodeState
inside = record initial {
  insert_function = some (result 3 (ptr (fn 0 i64)));
  nop = some (result 2 (ptr (fn 0 void)));
  tip_ftable = some (result 4 (ptr (array 1 (ptr (fn 0 i64)))));
  tip_input_array = some (result 5 (ptr (array 1 i64)));
  function_decls = ("inc", (0, "y" ∷ [])) ∷ [];
  named_values = ("x", some address) ∷ ("n", some address) ∷ [];
}

-- `x = n > 1` stores one bit where 64 are.
comparison_stored :
    made_by
      (gen_stmt (assign_stmt 0 (variable "x") (binary_expr 0 ">" (variable "n") (number 1))) inside)
    ≡ some (
        create_store (result 1 i1) address
        ∷ create_binary icmp_sgt (result 0 i64) (const_int (pos 1))
        ∷ create_load address
        ∷ [])
unfolding gen_stmt gen_target gen_expr operator_of
comparison_stored = refl

-- `inc = 1` stores to an integer constant.
function_stored :
    made_by (gen_stmt (assign_stmt 0 (variable "inc") (number 1)) inside)
    ≡ some (create_store (const_int (pos 1)) (const_int (pos 0)) ∷ [])
unfolding gen_stmt gen_target gen_expr
function_stored = refl

-- `return y` of a name that is unknown returns nothing from a function of an integer.
unknown_returned :
    made_by (gen_stmt (return_stmt 0 (variable "y")) inside) ≡ some (create_ret_void ∷ [])
unfolding gen_stmt gen_expr
unknown_returned = refl

-- `&y; y` of a name that is unknown uses a null pointer, `y` alone does not.
unknown_referenced :
    gen_stmt
      (assign_stmt 0 (variable "x") (binary_expr 0 "+" (ref_expr 0 "y" none) (variable "y")))
      inside
    ≡ err undefined
unfolding gen_stmt gen_target gen_expr
unknown_referenced = refl

-- `main` and `_tip_main` are one function of the module.
abbrev handle_of : Result (LlvmFunction × CodeState) → Option Value
handle_of (ok (f, s)) = some f.value
handle_of (err thrown) = none

abbrev taken : LlvmFunction
taken = record { value = address; arg_names = [] }

main_taken :
    handle_of (get_function "main" (record initial { symbols = ("_tip_main", taken) ∷ [] }))
    ≡ some address
unfolding get_function
main_taken = refl

-- The laws.
inside-IsInside : IsInside inside
inside-IsInside = ((refl, _, refl), (_, refl), _, refl)

gen_expr-Codes_example :
    Codes
      (Supported inside.named_values inside.function_decls
        (fun_app_expr 0 (variable "inc") (exprs (variable "x") no_exprs)))
      inside.named_values
      inside.function_decls
      inside
      (gen_expr (fun_app_expr 0 (variable "inc") (exprs (variable "x") no_exprs)) inside)
gen_expr-Codes_example =
    gen_expr-Codes (fun_app_expr 0 (variable "inc") (exprs (variable "x") no_exprs))
      inside.named_values inside.function_decls inside (refl, _, refl) (refl, refl)

inc_function : LlvmFunction
inc_function = record { value = result 0 (ptr (fn 1 i64)); arg_names = "y" ∷ [] }

abbrev between : CodeState
between = record inside { symbols = ("inc", inc_function) ∷ [] }

gen_function-Passage_example :
    Post
      (λ q. (q.0 ≡ some inc_function.value) × Passage false false between q.1)
      (λ _. ⊥)
      (gen_function inc between)
unfolding inc_function Supported StmtSupported scope_of operator_of
gen_function-Passage_example =
    gen_function-Passage inc inc_function between
      (record {
        l_value_gen = refl;
        tip_ftable = (_, refl);
        nop = (_, refl);
        tip_input_array = (_, refl);
      })
      (record { decl = (0, refl); symbol = refl; names = λ _. refl }) (tt, returning)
      ((tt, tt, tt), tt)

make_table-HasTable_example :
    Post
      (λ q.
        (h : HasTable program.functions q.1) × (h.before ≡ created_calls program.functions [])
        × Passage false false
            (record initial {
              function_decls = decl_table program.functions 0 [];
              tip_ftable = q.1.tip_ftable;
            })
            q.1)
      (λ _. ⊥)
      (make_table program.functions initial)
make_table-HasTable_example =
    make_table-HasTable program.functions initial ((word-ne "inc" "_tip_main" refl, tt), (tt, tt))
      (λ f k at. refl)

pub program-IsProgram : IsProgram program
unfolding IsInner Supported StmtSupported scope_of operator_of decl_table
program-IsProgram = (
  ((word-ne "inc" "_tip_main" refl, tt), (tt, tt)),
  (word-ne "llvm.donothing" "inc" refl, (word-ne "llvm.donothing" "_tip_main" refl, tt)),
  (
    ((tt, returning), ((tt, tt, tt), tt)),
    (
      (
        ((tt, tt), then_more ((tt, tt), (tt, tt)) returning),
        (((tt, tt, tt), (((tt, tt, tt), tt, tt), ((tt, (tt, (tt, tt))), tt))), (tt, tt)),
      ),
      tt,
    ),
  ),
)

gen_stmt-swallows_example :
    Post
      (λ q. (v : Value) × (q.0 ≡ some v))
      (λ t. t ≡ undefined)
      (gen_stmt
        (block_stmt 0 (stmts (assign_stmt 0 (variable "x") (variable "y")) no_stmts))
        inside)
unfolding IsInner
gen_stmt-swallows_example =
    gen_stmt-swallows (block_stmt 0 (stmts (assign_stmt 0 (variable "x") (variable "y")) no_stmts))
      inside (tt, tt) inside-IsInside

two_names : (x : String) → IsAddress (lookup x inside.named_values)
two_names x = elim (Bool-cases ("x" == x)) [
  | inl t ↦ rw t refl
  | inr f ↦ rw f (elim (Bool-cases ("n" == x)) [ inl t ↦ rw t refl | inr g ↦ rw g tt ])
]

gen_stmt-WellTyped_example :
    Post
      (λ q. WellTyped inside.function_decls q.1 × ((v : Value) × (q.0 ≡ some v)))
      (λ _. ⊥)
      (gen_stmt counting inside)
unfolding IsInner Supported StmtSupported IsIntegral IsTypable operator_of
gen_stmt-WellTyped_example =
    gen_stmt-WellTyped counting inside.named_values inside.function_decls inside
      ((tt, tt), (tt, tt)) inside-IsInside (refl, refl)
      ((tt, tt, tt), (((tt, tt, tt), tt, tt), ((tt, (tt, (tt, tt))), tt)))
      ((tt, tt), (((tt, tt), tt, tt), ((refl, (tt, (tt, tt))), tt)))
      (record {
        calls = tt;
        function_decls = refl;
        named_values = two_names;
        nop = refl;
        input_intrinsic = tt;
        output_intrinsic = tt;
        error_intrinsic = tt;
        malloc_fun = tt;
        tip_ftable = (1, refl);
        l_value_gen = refl;
      })

pub program-BodyTypable :
    All (λ f. BodyTypable (decl_table program.functions 0 []) f.body) program.functions
unfolding IsIntegral IsTypable BodyTypable operator_of decl_table
program-BodyTypable = (
  ((tt, tt, tt), tt),
  ((((tt, tt), (((tt, tt), tt, tt), ((refl, (tt, (tt, tt))), tt))), (tt, tt)), tt),
)
