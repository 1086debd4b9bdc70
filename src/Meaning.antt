-- ===== src/Meaning.antt =====
-- What the calls of src/TIPtreeGen.cpp mean when the code runs. The words, the memory and the
-- instructions of LLVM are a parameter; here is only how the calls follow each other, and which
-- value stands for what. A function has the name with which it is created: LLVM renames the second
-- one of a name, which is left out here.
pub mod Evaluate
pub mod Linked
pub mod Sequence
pub mod Parts
pub mod Computed
pub mod NameCode
pub mod OperatorCode
pub mod CallCode
pub mod Exprs
pub mod Targets
pub mod Assigned
pub mod Printed
pub mod Blocks
pub mod Stmts
mod Tests
use tipc.Prelude.{ℕ, ℕ_eq, ◌==◌, String, Option, none, some, List, [], ◌∷◌, length, if◌then◌else◌}
use tipc.Prelude.Int.{ℤ}
use tipc.Llvm.{
  Ty, Value, const_int, null_ptr, argument, cast_const, result, BinaryOp, Call, create_function,
  create_load, create_store, create_binary, create_icmp_ne_zero, create_gep, create_pointer_cast,
  create_int_to_ptr, create_ptr_to_int, create_call,
}

-- An instruction that has no defined result is `none`. `symbol` is the address of the function of
-- that name, `call` what a call of an address does, input and output included.
pub record Machine : Type 1 where
  pub Word : Type 0
  pub Memory : Type 0
  pub const : ℤ → Word
  pub null : Word
  pub argument_at : ℕ → Word
  pub symbol : String → Word
  pub operate : BinaryOp → Word → Word → Option Word
  pub nonzero : Word → Word
  pub load : Memory → Word → Option Word
  pub store : Memory → Word → Word → Option Memory
  pub offset : Word → List Word → Word
  pub cast : Ty → Word → Word
  pub int_to_ptr : Word → Word
  pub ptr_to_int : Word → Word
  pub call : Word → List Word → Memory → Option (Word × Memory)

-- What follows a step that may have no defined end.
abbrev pub and_then : {A B : Type 0} → Option A → (A → Option B) → Option B
and_then none next = none
and_then (some a) next = next a

-- Code on a memory that may have no defined end.
abbrev pub Steps : Type 0 → Type 0 → Type 0
Steps Memory A = Memory → Option (A × Memory)

module _ {Memory : Type 0} where
  infixl 5 ◌>>=◌
  abbrev pub ◌>>=◌ : {A B : Type 0} → Steps Memory A → (A → Steps Memory B) → Steps Memory B
  (first >>= next) m = and_then (first m) λ (a, m'). next a m'

  abbrev pub partial : {A : Type 0} → Option A → Steps Memory A
  partial none m = none
  partial (some a) m = some (a, m)

  abbrev pub done : {A : Type 0} → A → Steps Memory A
  done a m = some (a, m)

-- The calls that have been made since an earlier state of the module.
pub data Added (earlier : List Call) : List Call → Type 0 where
  nothing : Added earlier earlier
  one_more : {c : Call} {cs : List Call} → Added earlier cs → Added earlier (c ∷ cs)

module _ (M : Machine) where
  -- The word that each call has returned, by its position.
  abbrev pub Results : Type 0
  Results = ℕ → M.Word

  abbrev pub set : Results → ℕ → M.Word → Results
  set results n w i = if i == n then w else results i

  abbrev pub value : Results → Value → M.Word
  value results (const_int n) = M.const n
  value results null_ptr = M.null
  value results (argument i) = M.argument_at i
  value results (cast_const v t) = M.cast t (value results v)
  value results (result n t) = results n

  abbrev pub values : Results → List Value → List M.Word
  values results [] = []
  values results (v ∷ vs) = value results v ∷ values results vs

  abbrev pub stored : Option M.Memory → Option (M.Word × M.Memory)
  stored none = none
  stored (some m) = some (M.null, m)

  -- A call on its own. A store returns nothing, for which `null` stands, and the calls that are not
  -- instructions within a block have no step.
  unfoldable pub step : Results → Call → Steps M.Memory M.Word
  step results (create_function f n t) m = some (M.symbol f, m)
  step results (create_load p) m = partial (M.load m (value results p)) m
  step results (create_store v p) m = stored (M.store m (value results p) (value results v))
  step results (create_binary o l r) m = partial (M.operate o (value results l) (value results r)) m
  step results (create_icmp_ne_zero v) m = some (M.nonzero (value results v), m)
  step results (create_gep p is) m = some (M.offset (value results p) (values results is), m)
  step results (create_pointer_cast v t) m = some (M.cast t (value results v), m)
  step results (create_int_to_ptr v) m = some (M.int_to_ptr (value results v), m)
  step results (create_ptr_to_int v) m = some (M.ptr_to_int (value results v), m)
  step results (create_call f vs) m = M.call (value results f) (values results vs) m
  step results _ m = none

  -- The calls that have been added, the earliest one first.
  unfoldable pub execute :
      {before after : List Call}
      → Added before after
      → Results
      → M.Memory
      → Option (Results × M.Memory)
  unfolding step
  execute nothing results m = some (results, m)
  execute (one_more {c} {cs} added) results m = and_then (execute added results m) λ (results', m').
      and_then (step results' c m') λ (w, m''). some (set results' (length cs) w, m'')
