-- ===== src/TreePrint.antt =====
-- The pretty printer (src/TIPtreePrint.cpp). The globals `indent` and `printLines` are set once,
-- by `Program::print`, and are parameters here; `indentLevel` is passed from call to call.
pub mod Level
pub mod Erased
pub mod Ambiguous
mod Tests
use tipc.Prelude.{
  ℕ, zero, suc, ◌+◌, ◌-◌, String, Bool, true, false, List, [], ◌∷◌, ◌++◌, Text, codes,
  if◌then◌else◌,
}
use tipc.Prelude.Int.{ℤ, to_string}
use tipc.Tree.{
  Expr, Exprs, FieldExpr, FieldExprs, number_expr, variable_expr, binary_expr, fun_app_expr,
  input_expr, alloc_expr, ref_expr, de_ref_expr, null_expr, field_expr, record_expr, access_expr,
  no_exprs, exprs, field, no_fields, fields, DeclStmt, Stmt, ElseStmt, Stmts, decl_stmt, block_stmt,
  assign_stmt, while_stmt, if_stmt, output_stmt, error_stmt, return_stmt, no_else, else_stmt,
  no_stmts, stmts, TipFunction, Program,
}

-- A separator in front of all but the first element, for which the loops keep the flag `skip`.
abbrev pub separator : Bool → Text
separator skip = if skip then [] else codes ", "

unfoldable mutual
  unfolding to_string

  pub print_expr : Expr → Text
  print_expr (number_expr i v) = to_string v
  print_expr (variable_expr i x) = codes x
  print_expr (binary_expr i op l r) =
      codes "("
      ++ (print_expr l ++ (codes " " ++ (codes op ++ (codes " " ++ (print_expr r ++ codes ")")))))
  print_expr (fun_app_expr i f es) =
      print_expr f ++ (codes "(" ++ (print_actuals true es ++ codes ")"))
  print_expr (input_expr i) = codes "input"
  print_expr (alloc_expr i e) = codes "alloc " ++ print_expr e
  print_expr (ref_expr i x r) = codes "&" ++ codes x
  print_expr (de_ref_expr i e) = codes "*" ++ print_expr e
  print_expr (null_expr i) = codes "null"
  print_expr (field_expr f) = print_field f
  print_expr (record_expr i fs) = codes "{" ++ (print_fields true fs ++ codes "}")
  print_expr (access_expr i e f) = print_expr e ++ (codes "." ++ codes f)

  pub print_actuals : Bool → Exprs → Text
  print_actuals skip no_exprs = []
  print_actuals skip (exprs e es) = separator skip ++ (print_expr e ++ print_actuals false es)

  pub print_field : FieldExpr → Text
  print_field (field i f e) = codes f ++ (codes ":" ++ print_expr e)

  pub print_fields : Bool → FieldExprs → Text
  print_fields skip no_fields = []
  print_fields skip (fields f fs) = separator skip ++ (print_field f ++ print_fields false fs)

unfoldable pub print_names : Bool → List String → Text
print_names skip [] = []
print_names skip (x ∷ xs) = separator skip ++ (codes x ++ print_names false xs)

-- What a call prints, and `indentLevel` after it.
abbrev pub Printed : Type 0
Printed = Text × ℕ

module _ (indent : Text) (print_lines : Bool) where
  unfoldable pub indentation : ℕ → Text
  indentation zero = []
  indentation (suc level) = indent ++ indentation level

  unfoldable pub line_comment : ℤ → Text
  unfolding to_string
  line_comment line = if print_lines then codes " // @" ++ to_string line else []

  unfoldable pub print_decl : DeclStmt → Text
  unfolding print_names line_comment
  print_decl d = codes "var " ++ (print_names true d.vars ++ (codes ";" ++ line_comment d.line))

  unfoldable mutual
    unfolding print_expr indentation print_decl

    pub print_stmt : Stmt → ℕ → Printed
    print_stmt (decl_stmt d) level = (print_decl d, level)
    print_stmt (block_stmt i ss) level =
        let (body, level') = print_stmts ss (level + 1) in
        let level'' = level' - 1 in
        (codes "{\n" ++ (body ++ (indentation level'' ++ codes "}")), level'')
    print_stmt (assign_stmt i l r) level =
        (print_expr l ++ (codes " = " ++ (print_expr r ++ codes ";")), level)
    print_stmt (while_stmt i c s) level =
        let (body, level') = print_stmt s (level + 1) in
        (
          codes "while (" ++ (print_expr c ++ (codes ") \n" ++ (indentation (level + 1) ++ body))),
          level' - 1,
        )
    print_stmt (if_stmt i c s e) level =
        let (then_text, level') = print_stmt s (level + 1) in
        let (else_text, level'') = print_else e level' in
        (
          codes "if ("
              ++ (print_expr c
                  ++ (codes ") \n" ++ (indentation (level + 1) ++ (then_text ++ else_text)))),
          level'' - 1,
        )
    print_stmt (output_stmt i e) level = (codes "output " ++ (print_expr e ++ codes ";"), level)
    print_stmt (error_stmt i e) level = (codes "error " ++ (print_expr e ++ codes ";"), level)
    print_stmt (return_stmt i e) level = (codes "return " ++ (print_expr e ++ codes ";"), level)

    -- The part of `IfStmt::print` that runs if there is an `ELSE`.
    pub print_else : ElseStmt → ℕ → Printed
    print_else no_else level = ([], level)
    print_else (else_stmt s) level =
        let outer = level - 1 in
        let (text, level') = print_stmt s (outer + 1) in
        (
          codes "\n"
              ++ (indentation outer ++ (codes "else\n" ++ (indentation (outer + 1) ++ text))),
          level',
        )

    -- The loops over statements: each is indented and ends its line.
    pub print_stmts : Stmts → ℕ → Printed
    print_stmts no_stmts level = ([], level)
    print_stmts (stmts s ss) level =
        let (text, level') = print_stmt s level in
        let (more, level'') = print_stmts ss level' in
        (indentation level ++ (text ++ (codes "\n" ++ more)), level'')

  unfoldable pub print_decls : List DeclStmt → ℕ → Text
  unfolding indentation print_decl
  print_decls [] level = []
  print_decls (d ∷ ds) level =
      indentation level ++ (print_decl d ++ (codes "\n" ++ print_decls ds level))

  unfoldable pub print_function : TipFunction → ℕ → Printed
  unfolding print_names line_comment indentation print_decls print_stmt
  print_function f level =
      let outer = level + 1 in
      let inner = outer + 1 in
      let (body, inner') = print_stmts f.body inner in
      let outer' = inner' - 1 in
      (
        codes f.name
            ++ (codes "("
                ++ (print_names true f.formals
                    ++ (codes ")"
                        ++ (line_comment f.line
                            ++ (codes "\n"
                                ++ (indentation outer
                                    ++ (codes "{\n"
                                        ++ (print_decls f.decls inner
                                            ++ (body
                                                ++ (indentation outer' ++ codes "}\n")))))))))),
        outer' - 1,
      )

  unfoldable pub print_functions : List TipFunction → ℕ → Printed
  unfolding print_function
  print_functions [] level = ([], level)
  print_functions (f ∷ fs) level =
      let (text, level') = print_function f level in
      let (more, level'') = print_functions fs level' in (text ++ (codes "\n" ++ more), level'')

-- `Program::print`, from the level that the global has.
unfoldable pub print_program : Text → Bool → Program → ℕ → Printed
unfolding print_functions
print_program i pl p level = print_functions i pl p.functions level
