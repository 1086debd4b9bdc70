-- ===== src/Typecheck/Driver.antt =====
-- The option `-t` of src/tipc.cpp: the tree of the builder is numbered, analysed and printed.
use tipc.Prelude.{
  Bool, ◌≡◌, refl, sym, ap, ◌∙◌, List, [], ◌∷◌, Text, Text_eq, codes, take, ◌==◌, All, subst, false,
  ℕ,
}
use tipc.Prelude.Result.{Result, Post, returns, ◌>>=◌, ◌⟫◌, ◌▷◌}
use tipc.Unify.Laws.{IsTypeError}
use tipc.Solver.{UnionFindSolver}
use tipc.Solver.View.{IsValid, type_of}
use tipc.TreePrint.{print_program}
use tipc.TreePrint.Erased.{print_stmt-erase, print_program-same, print_program-erase}
use tipc.Ast.{GenState, gen_program}
use tipc.Ast.Erase.{erase_stmt, erase_stmts, erase_functions, erase_program}
use tipc.Ast.Reached.{set-StmtsHaveRefs}
use tipc.Ast.FunctionNumbering.{BodiesHaveRefs, gen_program-Numbered}
use tipc.Typecheck.Functions.{prints_return}
use tipc.Typecheck.Printed.{print_typed_program}
use tipc.Typecheck.StmtTyping.{IsReturn, HonestReturns, IsReady}
use tipc.Typecheck.FunctionSound.{IsThrown, Post-IsThrown, PassesHold, check_program-Holds}
use tipc.Typecheck.TypedText.{typed_text, typed_text-lem}
use tipc.Tree.{
  Stmt, Stmts, decl_stmt, block_stmt, assign_stmt, while_stmt, if_stmt, output_stmt, error_stmt,
  return_stmt, no_stmts, stmts, TipFunction, Program,
}

unfoldable pub type_analysis : Program → GenState → Result Text
type_analysis p s = gen_program p s >>= λ r. print_typed_program r.0

-- Whether a statement prints with "return" in front does not depend on ids, nor does its kind.
prints_return-erase : (b : Stmt) → prints_return (erase_stmt b) ≡ prints_return b
unfolding prints_return
prints_return-erase b = ap (λ r. take 6 r.0 == codes "return") (print_stmt-erase [] false b 0)

plain-IsReturn : (b : Stmt) → IsReturn (erase_stmt b) → IsReturn b
unfolding erase_stmt
plain-IsReturn (return_stmt i e) h = tt
plain-IsReturn (decl_stmt d) h = h
plain-IsReturn (block_stmt i bs) h = h
plain-IsReturn (assign_stmt i l r) h = h
plain-IsReturn (while_stmt i c b) h = h
plain-IsReturn (if_stmt i c b e) h = h
plain-IsReturn (output_stmt i e) h = h
plain-IsReturn (error_stmt i e) h = h

IsReturn-erased : (b : Stmt) → IsReturn b → IsReturn (erase_stmt b)
unfolding erase_stmt
IsReturn-erased (return_stmt i e) h = tt
IsReturn-erased (decl_stmt d) h = h
IsReturn-erased (block_stmt i bs) h = h
IsReturn-erased (assign_stmt i l r) h = h
IsReturn-erased (while_stmt i c b) h = h
IsReturn-erased (if_stmt i c b e) h = h
IsReturn-erased (output_stmt i e) h = h
IsReturn-erased (error_stmt i e) h = h

HonestReturns-erase : (bs : Stmts) → HonestReturns bs → HonestReturns (erase_stmts bs)
unfolding erase_stmts
HonestReturns-erase no_stmts h = tt
HonestReturns-erase (stmts b bs) (h, k) =
    (λ e. IsReturn-erased b (h (sym (prints_return-erase b) ∙ e)), HonestReturns-erase bs k)

plain-HonestReturns : (bs : Stmts) → HonestReturns (erase_stmts bs) → HonestReturns bs
unfolding erase_stmts
plain-HonestReturns no_stmts h = tt
plain-HonestReturns (stmts b bs) (h, k) =
    (λ e. plain-IsReturn b (h (prints_return-erase b ∙ e)), plain-HonestReturns bs k)

abbrev pub AllHonest : List TipFunction → Type 0
AllHonest fs = All (λ f. HonestReturns f.body) fs

AllHonest-erase : (fs : List TipFunction) → AllHonest fs → AllHonest (erase_functions fs)
AllHonest-erase [] h = tt
AllHonest-erase (f ∷ fs) (h, k) = (HonestReturns-erase f.body h, AllHonest-erase fs k)

plain-AllHonest : (fs : List TipFunction) → AllHonest (erase_functions fs) → AllHonest fs
plain-AllHonest [] h = tt
plain-AllHonest (f ∷ fs) (h, k) = (plain-HonestReturns f.body h, plain-AllHonest fs k)

numbered_IsReady : (fs : List TipFunction) → BodiesHaveRefs fs → AllHonest fs → All IsReady fs
numbered_IsReady [] h k = tt
numbered_IsReady (f ∷ fs) (h, hs) (k, ks) =
    (record { refs = set-StmtsHaveRefs f.body h; returns_last = k }, numbered_IsReady fs hs ks)

-- The text that the analysis prints: that of a numbering of the program, with the types of a valid
-- solver that the three passes leave.
pub record Analysed (p : Program) (text : Text) : Type 0 where
  pub numbered : Program
  pub solver : UnionFindSolver
  pub shape : erase_program numbered ≡ erase_program p
  pub valid : IsValid solver
  pub holds : PassesHold numbered.functions solver
  pub printed : text ≡ typed_text (type_of solver) numbered.functions

-- For a program without ids of whose body statements only return statements print with "return" in
-- front, numbering, analysis and printing end: they throw a TIPTypeError or a bare exception, or
-- print the text of a numbering of the program with the types of a valid solver. It is the last of
-- three, one after each pass, and in each the constraints hold that every function adds to the one
-- before.
pub type_analysis-Analysed :
    (p : Program) (s : GenState)
    → AllHonest p.functions
    → Post (Analysed p) IsThrown (type_analysis (erase_program p) s)
unfolding type_analysis print_typed_program
type_analysis-Analysed p s honest = Post-IsThrown (gen_program-Numbered p s) ⟫ λ r n.
    let fs = r.0.functions in
    let same : erase_functions fs ≡ erase_functions p.functions = ap (λ q. q.functions) n.shape in
    let ready =
      numbered_IsReady fs n.refs
        (plain-AllHonest fs (subst AllHonest (sym same) (AllHonest-erase p.functions honest))) in
    check_program-Holds r.0 ready ⟫ λ s' (valid, holds).
    Post-IsThrown
      (typed_text-lem (type_of s') fs s' n.locals (record { valid = valid; types = λ m. refl }))
    ⟫ λ q (e, _). returns (record {
      numbered = r.0;
      solver = s';
      shape = n.shape;
      valid = valid;
      holds = holds;
      printed = e;
    })

-- `genId` of a program without ids throws a TIPTypeError, or returns a program that the pretty
-- printer prints as before, whatever its settings.
pub gen_program-print :
    (p : Program) (s : GenState) (indent : Text) (print_lines : Bool) (level : ℕ)
    → Post
        (λ r.
          print_program indent print_lines r.0 level
          ≡ print_program indent print_lines (erase_program p) level)
        IsTypeError
        (gen_program (erase_program p) s)
gen_program-print p s indent print_lines level = gen_program-Numbered p s ▷ λ r n.
    print_program-same indent print_lines r.0 p level n.shape
    ∙ sym (print_program-erase indent print_lines p level)
