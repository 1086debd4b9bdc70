-- ===== src/ParseTree.antt =====
-- The contexts of the parser that ANTLR generates from tipg4/TIP.g4, one constructor for each
-- alternative of a rule.
use tipc.Prelude.{String, List, Text}
use tipc.Prelude.Int.{ℤ}

-- The type of an operator's token.
pub data Token : Type 0 where
  mul div add sub gt eq ne : Token

-- A number is the text of its digits. The four rules for binary operators are one constructor.
mutual
  pub data ExprContext : Type 0 where
    neg_number : Text → ExprContext
    operation : Token → ExprContext → ExprContext → ExprContext
    atom : AtomContext → ExprContext

  pub data AtomContext : Type 0 where
    paren_atom : ExprContext → AtomContext
    fun_app_atom : CalleeContext → ExprContexts → AtomContext
    num_atom : Text → AtomContext
    id_atom : String → AtomContext
    input_atom : AtomContext
    alloc_atom : ExprContext → AtomContext
    ref_atom : String → AtomContext
    de_ref_atom : AtomContext → AtomContext
    null_atom : AtomContext
    record_atom : FieldContexts → AtomContext
    access_atom : BaseContext → String → AtomContext

  pub data CalleeContext : Type 0 where
    id_callee : String → CalleeContext
    paren_callee : ExprContext → CalleeContext

  pub data BaseContext : Type 0 where
    id_base : String → BaseContext
    de_ref_base : AtomContext → BaseContext
    paren_base : ExprContext → BaseContext

  pub data ExprContexts : Type 0 where
    no_actuals : ExprContexts
    actuals : ExprContext → ExprContexts → ExprContexts

  pub data FieldContexts : Type 0 where
    no_pairs : FieldContexts
    pairs : String → ExprContext → FieldContexts → FieldContexts

pub data AssignableContext : Type 0 where
  id_target : String → AssignableContext
  de_ref_target : AtomContext → AssignableContext

mutual
  pub data StatementContext : Type 0 where
    block : StatementContexts → StatementContext
    assignment : AssignableContext → ExprContext → StatementContext
    while_loop : ExprContext → StatementContext → StatementContext
    branch : ExprContext → StatementContext → ElseContext → StatementContext
    output : ExprContext → StatementContext
    error : ExprContext → StatementContext

  pub data ElseContext : Type 0 where
    no_branch : ElseContext
    else_branch : StatementContext → ElseContext

  pub data StatementContexts : Type 0 where
    no_statements : StatementContexts
    statements : StatementContext → StatementContexts → StatementContexts

-- An identifier, and the line on which it stands.
abbrev pub Identifier : Type 0
Identifier = String × ℤ

pub record FunctionContext : Type 0 where
  pub name : Identifier
  pub params : List Identifier
  pub declarations : List (List Identifier)
  pub body : StatementContexts
  pub return_stmt : ExprContext
