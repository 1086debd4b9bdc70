-- ===== src/Codegen/Grown.antt =====
-- How the code of an expression changes the globals of src/TIPtreeGen.cpp: by instructions in the
-- block of the insertion point, and by functions that are declared.
use tipc.Prelude.Dict.{Dict, lookup, insert, lookup-insert_ne}
use tipc.Prelude.{
  String, String_eq, Bool-cases, ◌==◌, inl, inr, ◌≢◌, Text, ◌≡◌, refl, ◌∙◌, false, none, Option,
  some, List, ◌∷◌,
}
use tipc.Llvm.{Value, Call}
use tipc.Codegen.Shape.{IsPlain}
use tipc.Codegen.{CodeState, LlvmFunction, declared}

pub data Grown (xs : List Call) : List Call → Type 0 where
  same : Grown xs xs
  more : {c : Call} {ys : List Call} → IsPlain c → Grown xs ys → Grown xs (c ∷ ys)

Grown-trans : {xs ys zs : List Call} → Grown xs ys → Grown ys zs → Grown xs zs
Grown-trans g same = g
Grown-trans g (more p h) = more p (Grown-trans g h)

-- The functions of the module are still there.
abbrev pub Kept : Dict String LlvmFunction → Dict String LlvmFunction → Type 0
Kept fs fs' = (x : String) (f : LlvmFunction) → lookup x fs ≡ some f → lookup x fs' ≡ some f

Kept-insert :
    (n : String) (f : LlvmFunction) (fs : Dict String LlvmFunction)
    → lookup n fs ≡ none
    → Kept fs (insert n f fs)
Kept-insert n f fs new x g found = elim (Bool-cases (n == x)) [
  | inl t ↦ let e : n ≡ x = (String_eq.same_iff n x).0 t in cc
  | inr u ↦
      let ne : n ≢ x = λ e. cc (u, (String_eq.same_iff n x).1 e) in
      lookup-insert_ne x n f fs ne ∙ found
]

pub Kept-declared :
    (old : Option LlvmFunction) (n : String) (f : LlvmFunction) (fs : Dict String LlvmFunction)
    → lookup n fs ≡ old
    → Kept fs (declared old n f fs)
Kept-declared none n f fs e = Kept-insert n f fs e
Kept-declared (some g) n f fs e = λ x h found. found

-- What an expression leaves alone.
pub record Plain (s s' : CodeState) : Type 0 where
  pub grown : Grown s.calls s'.calls
  pub label_num : s'.label_num ≡ s.label_num
  pub insert_function : s'.insert_function ≡ s.insert_function
  pub nop : s'.nop ≡ s.nop
  pub l_value_gen : s'.l_value_gen ≡ s.l_value_gen
  pub tip_ftable : s'.tip_ftable ≡ s.tip_ftable
  pub tip_input_array : s'.tip_input_array ≡ s.tip_input_array
  pub symbols : Kept s.symbols s'.symbols

pub Plain-trans : {s t u : CodeState} → Plain s t → Plain t u → Plain s u
Plain-trans a b = record {
  grown = Grown-trans a.grown b.grown;
  label_num = b.label_num ∙ a.label_num;
  insert_function = b.insert_function ∙ a.insert_function;
  nop = b.nop ∙ a.nop;
  l_value_gen = b.l_value_gen ∙ a.l_value_gen;
  tip_ftable = b.tip_ftable ∙ a.tip_ftable;
  tip_input_array = b.tip_input_array ∙ a.tip_input_array;
  symbols = λ x f h. b.symbols x f (a.symbols x f h);
}

-- A change of the other globals, whatever it is.
pub plainly :
    {s : CodeState} {cs : List Call} {vars : Dict String (Option Value)} {msgs : List Text}
    → Grown s.calls cs
    → Plain s (record s { calls = cs; named_values = vars; logged = msgs })
plainly g = record {
  grown = g;
  label_num = refl;
  insert_function = refl;
  nop = refl;
  l_value_gen = refl;
  tip_ftable = refl;
  tip_input_array = refl;
  symbols = λ x f h. h;
}

-- The same with a function that is declared.
pub with_function :
    (n : String) (f : LlvmFunction) {s : CodeState} {cs : List Call} {i o e m : Option Value}
    → Grown s.calls cs
    → Plain s (record s {
      calls = cs;
      symbols = declared (lookup n s.symbols) n f s.symbols;
      input_intrinsic = i;
      output_intrinsic = o;
      error_intrinsic = e;
      malloc_fun = m;
    })
with_function n f {s} g = record {
  grown = g;
  label_num = refl;
  insert_function = refl;
  nop = refl;
  l_value_gen = refl;
  tip_ftable = refl;
  tip_input_array = refl;
  symbols = Kept-declared (lookup n s.symbols) n f s.symbols refl;
}

-- The dispatch table is there, and values are generated, not addresses.
abbrev pub IsReady : CodeState → Type 0
IsReady s = (s.l_value_gen ≡ false) × (t : Value) × (s.tip_ftable ≡ some t)

pub Plain-IsReady : {s s' : CodeState} → Plain s s' → IsReady s → IsReady s'
Plain-IsReady p (flag, t, table) = (p.l_value_gen ∙ flag, t, p.tip_ftable ∙ table)
