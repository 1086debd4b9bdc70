-- ===== src/Build/Large.antt =====
-- Where in a parse a number is beyond an `int`, so that std::stoi throws (src/TIPtreeBuild.cpp).
use tipc.Prelude.{◌<◌, ◌⊎◌, List, [], ◌∷◌, Text}
use tipc.Build.{digits_value}
use tipc.ParseTree.{
  ExprContext, neg_number, operation, atom, AtomContext, paren_atom, fun_app_atom, num_atom,
  id_atom, input_atom, alloc_atom, ref_atom, de_ref_atom, null_atom, record_atom, access_atom,
  CalleeContext, id_callee, paren_callee, BaseContext, id_base, de_ref_base, paren_base,
  ExprContexts, no_actuals, actuals, FieldContexts, no_pairs, pairs, AssignableContext, id_target,
  de_ref_target, StatementContext, block, assignment, while_loop, branch, output, error,
  ElseContext, no_branch, else_branch, StatementContexts, no_statements, statements,
  FunctionContext,
}

abbrev pub IsLarge : Text → Type 0
IsLarge t = 2147483647 < digits_value 0 t

unfoldable mutual
  pub ExprHasLarge : ExprContext → Type 0
  ExprHasLarge (neg_number t) = IsLarge t
  ExprHasLarge (operation op l r) = ExprHasLarge l ⊎ ExprHasLarge r
  ExprHasLarge (atom a) = AtomHasLarge a

  pub AtomHasLarge : AtomContext → Type 0
  AtomHasLarge (paren_atom e) = ExprHasLarge e
  AtomHasLarge (fun_app_atom f es) = CalleeHasLarge f ⊎ ActualsHaveLarge es
  AtomHasLarge (num_atom t) = IsLarge t
  AtomHasLarge (id_atom x) = ⊥
  AtomHasLarge input_atom = ⊥
  AtomHasLarge (alloc_atom e) = ExprHasLarge e
  AtomHasLarge (ref_atom x) = ⊥
  AtomHasLarge (de_ref_atom a) = AtomHasLarge a
  AtomHasLarge null_atom = ⊥
  AtomHasLarge (record_atom fs) = FieldsHaveLarge fs
  AtomHasLarge (access_atom b f) = BaseHasLarge b

  pub CalleeHasLarge : CalleeContext → Type 0
  CalleeHasLarge (id_callee x) = ⊥
  CalleeHasLarge (paren_callee e) = ExprHasLarge e

  pub BaseHasLarge : BaseContext → Type 0
  BaseHasLarge (id_base x) = ⊥
  BaseHasLarge (de_ref_base a) = AtomHasLarge a
  BaseHasLarge (paren_base e) = ExprHasLarge e

  pub ActualsHaveLarge : ExprContexts → Type 0
  ActualsHaveLarge no_actuals = ⊥
  ActualsHaveLarge (actuals e es) = ExprHasLarge e ⊎ ActualsHaveLarge es

  pub FieldsHaveLarge : FieldContexts → Type 0
  FieldsHaveLarge no_pairs = ⊥
  FieldsHaveLarge (pairs x e fs) = ExprHasLarge e ⊎ FieldsHaveLarge fs

abbrev pub TargetHasLarge : AssignableContext → Type 0
TargetHasLarge (id_target x) = ⊥
TargetHasLarge (de_ref_target a) = AtomHasLarge a

unfoldable mutual
  pub StatementHasLarge : StatementContext → Type 0
  StatementHasLarge (block bs) = StatementsHaveLarge bs
  StatementHasLarge (assignment t e) = TargetHasLarge t ⊎ ExprHasLarge e
  StatementHasLarge (while_loop c b) = ExprHasLarge c ⊎ StatementHasLarge b
  StatementHasLarge (branch c b e) = ExprHasLarge c ⊎ (StatementHasLarge b ⊎ ElseHasLarge e)
  StatementHasLarge (output e) = ExprHasLarge e
  StatementHasLarge (error e) = ExprHasLarge e

  pub ElseHasLarge : ElseContext → Type 0
  ElseHasLarge no_branch = ⊥
  ElseHasLarge (else_branch b) = StatementHasLarge b

  pub StatementsHaveLarge : StatementContexts → Type 0
  StatementsHaveLarge no_statements = ⊥
  StatementsHaveLarge (statements b bs) = StatementHasLarge b ⊎ StatementsHaveLarge bs

abbrev pub FunctionHasLarge : FunctionContext → Type 0
FunctionHasLarge f = StatementsHaveLarge f.body ⊎ ExprHasLarge f.return_stmt

-- A number of some function is beyond an `int`.
abbrev pub HasLarge : List FunctionContext → Type 0
HasLarge [] = ⊥
HasLarge (f ∷ fs) = FunctionHasLarge f ⊎ HasLarge fs
