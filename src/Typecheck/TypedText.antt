-- ===== src/Typecheck/TypedText.antt =====
-- What `printTyped` writes, as a function of the types of the nodes.
use tipc.Prelude.{ℕ, ◌≡◌, refl, ◌∙◌, String, List, [], ◌∷◌, ◌++◌, Text, codes, length, arith}
use tipc.Prelude.Result.{Result, Post, returns, ◌⟫◌}
use tipc.Tree.{DeclStmt, TipFunction}
use tipc.Types
use tipc.Types.{TipType}
use tipc.Unify.Laws.{IsTypeError}
use tipc.Solver.{UnionFindSolver, get_type}
use tipc.Solver.View.{IsValid, type_of}
use tipc.Solver.AddNode.{add_node-Added}
use tipc.Solver.Laws.{get_type-lem}
use tipc.Ast.Numbering.{OneIdEach}
use tipc.Ast.FunctionNumbering.{LocalsHaveIds}
use tipc.Typecheck.Printed.{
  comma_unless_last, print_typed_vars, print_typed_decl, print_typed_decls, print_formals,
  print_body, print_typed_function, print_typed_functions,
}

module _ (type_at : ℕ → TipType) where
  vars_text : List String → List ℕ → Text
  vars_text (x ∷ xs) (n ∷ ns) =
      codes x
      ++ (codes ": " ++ (Types.print (type_at n) ++ (comma_unless_last xs ++ vars_text xs ns)))
  vars_text _ _ = []

  decl_text : DeclStmt → Text
  decl_text d = codes "var " ++ (vars_text d.vars d.var_ids ++ codes ";")

  decls_text : List DeclStmt → Text
  decls_text [] = []
  decls_text (d ∷ ds) = decl_text d ++ (codes "\n" ++ decls_text ds)

  function_text : TipFunction → Text
  function_text f =
      codes f.name
      ++ (codes "("
          ++ (print_formals f.formals
              ++ (codes "): "
                  ++ (Types.print (type_at f.id)
                      ++ (codes "\n{\n"
                          ++ (decls_text f.decls ++ (print_body f.body ++ codes "}")))))))

  -- Every function with its type, and every local with its type.
  pub typed_text : List TipFunction → Text
  typed_text [] = []
  typed_text (f ∷ fs) = function_text f ++ (codes "\n" ++ typed_text fs)

  -- A valid solver with these types.
  pub record Shows (s : UnionFindSolver) : Type 0 where
    pub valid : IsValid s
    pub types : (n : ℕ) → type_of s n ≡ type_at n

  abbrev pub Prints : Text → Result (Text × UnionFindSolver) → Type 0
  Prints text r = Post (λ q. (q.0 ≡ text) × Shows q.1) IsTypeError r

  get_type-Shows :
      (n : ℕ) (s : UnionFindSolver)
      → Shows s
      → Post (λ q. (q.0 ≡ type_at n) × Shows q.1) IsTypeError (get_type n s)
  get_type-Shows n s h =
      let a = add_node-Added s h.valid n in
      rw (get_type-lem s h.valid n)
        (returns (h.types n, record { valid = a.valid; types = λ m. a.agrees.types m ∙ h.types m }))

  vars_text-lem :
      (xs : List String) (ns : List ℕ) (s : UnionFindSolver)
      → length ns ≡ length xs
      → Shows s
      → Prints (vars_text xs ns) (print_typed_vars xs ns s)
  unfolding print_typed_vars vars_text
  vars_text-lem [] [] s same h = returns (refl, h)
  vars_text-lem [] (n ∷ ns) s same h = returns (refl, h)
  vars_text-lem (x ∷ xs) [] s same h = absurd (omega arith)
  vars_text-lem (x ∷ xs) (n ∷ ns) s same h = get_type-Shows n s h ⟫ λ q (e, k).
      vars_text-lem xs ns q.1 (omega arith) k ⟫ λ r (e', l). returns (rw (e, e'), l)

  decl_text-lem :
      (d : DeclStmt) (s : UnionFindSolver)
      → length d.var_ids ≡ length d.vars
      → Shows s
      → Prints (decl_text d) (print_typed_decl d s)
  unfolding print_typed_decl decl_text
  decl_text-lem d s one h = vars_text-lem d.vars d.var_ids s one h ⟫ λ q (e, k). returns (rw e, k)

  decls_text-lem :
      (ds : List DeclStmt) (s : UnionFindSolver)
      → OneIdEach ds
      → Shows s
      → Prints (decls_text ds) (print_typed_decls ds s)
  unfolding print_typed_decls decls_text
  decls_text-lem [] s _ h = returns (refl, h)
  decls_text-lem (d ∷ ds) s (one, rest) h = decl_text-lem d s one h ⟫ λ q (e, k).
      decls_text-lem ds q.1 rest k ⟫ λ r (e', l). returns (rw (e, e'), l)

  function_text-lem :
      (f : TipFunction) (s : UnionFindSolver)
      → OneIdEach f.decls
      → Shows s
      → Prints (function_text f) (print_typed_function f s)
  unfolding print_typed_function function_text
  function_text-lem f s one h = get_type-Shows f.id s h ⟫ λ q (e, k).
      decls_text-lem f.decls q.1 one k ⟫ λ r (e', l). returns (rw (e, e'), l)

  -- On a valid solver that gives the nodes the types `type_at`, and with an id for each local,
  -- `printTyped` prints every function and every local with its type, or throws a TIPTypeError.
  pub typed_text-lem :
      (fs : List TipFunction) (s : UnionFindSolver)
      → LocalsHaveIds fs
      → Shows s
      → Prints (typed_text fs) (print_typed_functions fs s)
  unfolding print_typed_functions typed_text
  typed_text-lem [] s _ h = returns (refl, h)
  typed_text-lem (f ∷ fs) s (one, rest) h = function_text-lem f s one h ⟫ λ q (e, k).
      typed_text-lem fs q.1 rest k ⟫ λ r (e', l). returns (rw (e, e'), l)
