-- ===== src/Codegen/Shape.antt =====
-- What a call of LLVM does to the block of the insertion point, and which calls may follow each
-- other: an instruction stands in an open block, a branch or a return closes the block, and the
-- insertion point moves on only from a closed one.
use tipc.Prelude.{◌⊎◌, ℕ, ◌≡◌, refl, String, Bool, true, false, Option, none, some, List, [], ◌∷◌}
use tipc.Llvm.{
  Call, Label, numbered, create_function, create_global, erase_function, create_block, insert_block,
  set_insert_point, create_alloca, create_load, create_store, create_binary, create_icmp_ne_zero,
  create_gep, create_pointer_cast, create_int_to_ptr, create_ptr_to_int, create_call, create_br,
  create_cond_br, create_ret, create_ret_void,
}

pub data Shape : Type 0 where
  instruction outside ends begins : Shape
  makes : Label → Shape

-- An alloca is placed in the first block, whichever is open.
abbrev pub shape : Call → Shape
shape (create_function f n t) = outside
shape (create_global x t vs) = outside
shape (erase_function f) = outside
shape (create_block l f) = makes l
shape (insert_block b f) = outside
shape (set_insert_point b) = begins
shape (create_alloca f x) = outside
shape (create_load p) = instruction
shape (create_store v p) = instruction
shape (create_binary op l r) = instruction
shape (create_icmp_ne_zero v) = instruction
shape (create_gep p is) = instruction
shape (create_pointer_cast v t) = instruction
shape (create_int_to_ptr v) = instruction
shape (create_ptr_to_int v) = instruction
shape (create_call f vs) = instruction
shape (create_br b) = ends
shape (create_cond_br v b c) = ends
shape (create_ret v) = ends
shape create_ret_void = ends

-- Whether the block is open after a call, by whether it was before; `none` is a misplaced call.
abbrev pub flow : Shape → Bool → Option Bool
flow instruction true = some true
flow instruction false = none
flow outside b = some b
flow (makes l) b = some b
flow ends true = some false
flow ends false = none
flow begins true = none
flow begins false = some true

abbrev pub flow_after : Shape → Option Bool → Option Bool
flow_after sh none = none
flow_after sh (some b) = flow sh b

-- The same for all calls so far, the last one first.
abbrev pub flows : List Call → Option Bool
flows [] = some false
flows (c ∷ cs) = flow_after (shape c) (flows cs)

-- The labels that have a number, of the blocks made so far.
abbrev pub label_of : Shape → List (String × ℕ) → List (String × ℕ)
label_of (makes (numbered w n)) ls = (w, n) ∷ ls
label_of _ ls = ls

abbrev pub labels : List Call → List (String × ℕ)
labels [] = []
labels (c ∷ cs) = label_of (shape c) (labels cs)

abbrev pub Keeps : Shape → Type 0
Keeps instruction = Unit
Keeps outside = Unit
Keeps _ = ⊥

-- The functions that the compiler declares at their first use.
abbrev pub IsRuntime : String → Type 0
IsRuntime f = (f ≡ "malloc") ⊎ ((f ≡ "_tip_input") ⊎ ((f ≡ "_tip_output") ⊎ (f ≡ "_tip_error")))

-- An instruction that does not end a block, or the declaration of a function of the runtime.
abbrev pub IsPlain : Call → Type 0
IsPlain (create_function f n t) = IsRuntime f
IsPlain (create_alloca f x) = Unit
IsPlain (create_load p) = Unit
IsPlain (create_store v p) = Unit
IsPlain (create_binary op l r) = Unit
IsPlain (create_icmp_ne_zero v) = Unit
IsPlain (create_gep p is) = Unit
IsPlain (create_pointer_cast v t) = Unit
IsPlain (create_int_to_ptr v) = Unit
IsPlain (create_ptr_to_int v) = Unit
IsPlain (create_call f vs) = Unit
IsPlain _ = ⊥

pub IsPlain-Keeps : (c : Call) → IsPlain c → Keeps (shape c)
IsPlain-Keeps (create_function f n t) h = tt
IsPlain-Keeps (create_alloca f x) h = tt
IsPlain-Keeps (create_load p) h = tt
IsPlain-Keeps (create_store v p) h = tt
IsPlain-Keeps (create_binary op l r) h = tt
IsPlain-Keeps (create_icmp_ne_zero v) h = tt
IsPlain-Keeps (create_gep p is) h = tt
IsPlain-Keeps (create_pointer_cast v t) h = tt
IsPlain-Keeps (create_int_to_ptr v) h = tt
IsPlain-Keeps (create_ptr_to_int v) h = tt
IsPlain-Keeps (create_call f vs) h = tt
IsPlain-Keeps (create_global x t vs) h = absurd h
IsPlain-Keeps (erase_function f) h = absurd h
IsPlain-Keeps (create_block l f) h = absurd h
IsPlain-Keeps (insert_block b f) h = absurd h
IsPlain-Keeps (set_insert_point b) h = absurd h
IsPlain-Keeps (create_br b) h = absurd h
IsPlain-Keeps (create_cond_br v b c) h = absurd h
IsPlain-Keeps (create_ret v) h = absurd h
IsPlain-Keeps create_ret_void h = absurd h

pub flow-Keeps : (sh : Shape) → Keeps sh → flow_after sh (some true) ≡ some true
flow-Keeps instruction h = refl
flow-Keeps outside h = refl
flow-Keeps ends h = absurd h
flow-Keeps begins h = absurd h
flow-Keeps (makes l) h = absurd h

pub label_of-Keeps : (sh : Shape) (ls : List (String × ℕ)) → Keeps sh → label_of sh ls ≡ ls
label_of-Keeps instruction ls h = refl
label_of-Keeps outside ls h = refl
label_of-Keeps ends ls h = absurd h
label_of-Keeps begins ls h = absurd h
label_of-Keeps (makes l) ls h = absurd h
