-- ===== src/Codegen/Emitted.antt =====
-- How the code of a statement changes the globals of src/TIPtreeGen.cpp: it begins and ends in an
-- open block, and it uses labels that are new.
use tipc.Prelude.{
  ℕ, suc, ◌≤◌, ◌≡◌, ◌≢◌, refl, sym, ap, ◌∙◌, String, String_eq, true, false, ◌==◌, some, List, [],
  ◌∷◌, All, arith,
}
use tipc.Llvm.{Call}
use tipc.Codegen.{CodeState}
use tipc.Codegen.Shape.{IsPlain-Keeps, flows, labels, shape, flow_after, flow-Keeps, label_of-Keeps}
use tipc.Codegen.Grown.{Grown, Kept, same, more, Plain}

abbrev pub IsOpen : CodeState → Type 0
IsOpen s = flows s.calls ≡ some true

abbrev pub Distinct : List (String × ℕ) → Type 0
Distinct [] = Unit
Distinct (l ∷ ls) = All (λ m. l ≢ m) ls × Distinct ls

-- The labels so far are distinct, and their numbers are used up.
abbrev pub HasLabels : ℕ → List (String × ℕ) → Type 0
HasLabels n ls = All (λ l. l.1 ≤ n) ls × Distinct ls

pub record Emitted (s s' : CodeState) : Type 0 where
  pub flow : IsOpen s → IsOpen s'
  pub fresh : HasLabels s.label_num (labels s.calls) → HasLabels s'.label_num (labels s'.calls)
  pub insert_function : s'.insert_function ≡ s.insert_function
  pub nop : s'.nop ≡ s.nop
  pub l_value_gen : s'.l_value_gen ≡ s.l_value_gen
  pub tip_ftable : s'.tip_ftable ≡ s.tip_ftable
  pub tip_input_array : s'.tip_input_array ≡ s.tip_input_array
  pub symbols : Kept s.symbols s'.symbols

pub Emitted-trans : {s t u : CodeState} → Emitted s t → Emitted t u → Emitted s u
Emitted-trans a b = record {
  flow = λ h. b.flow (a.flow h);
  fresh = λ h. b.fresh (a.fresh h);
  insert_function = b.insert_function ∙ a.insert_function;
  nop = b.nop ∙ a.nop;
  l_value_gen = b.l_value_gen ∙ a.l_value_gen;
  tip_ftable = b.tip_ftable ∙ a.tip_ftable;
  tip_input_array = b.tip_input_array ∙ a.tip_input_array;
  symbols = λ x f h. b.symbols x f (a.symbols x f h);
}

Grown-flows : {xs ys : List Call} → Grown xs ys → flows xs ≡ some true → flows ys ≡ some true
Grown-flows same h = h
Grown-flows (more {c} p g) h =
    ap (flow_after (shape c)) (Grown-flows g h) ∙ flow-Keeps (shape c) (IsPlain-Keeps c p)

Grown-labels : {xs ys : List Call} → Grown xs ys → labels ys ≡ labels xs
Grown-labels same = refl
Grown-labels (more {c} {ys} p g) =
    label_of-Keeps (shape c) (labels ys) (IsPlain-Keeps c p) ∙ Grown-labels g

pub Plain-Emitted : {s s' : CodeState} → Plain s s' → Emitted s s'
Plain-Emitted p = record {
  flow = Grown-flows p.grown;
  fresh = λ h. rw (Grown-labels p.grown, p.label_num) h;
  insert_function = p.insert_function;
  nop = p.nop;
  l_value_gen = p.l_value_gen;
  tip_ftable = p.tip_ftable;
  tip_input_array = p.tip_input_array;
  symbols = p.symbols;
}

pub word-ne : (v w : String) → (v == w) ≡ false → v ≢ w
word-ne v w f e = cc (f, (String_eq.same_iff v w).1 e)

-- Three labels with the next number.
used_up : (n : ℕ) (ls : List (String × ℕ)) → All (λ l. l.1 ≤ n) ls → All (λ l. l.1 ≤ suc n) ls
used_up n [] h = tt
used_up n (l ∷ ls) (h, hs) = (omega arith, used_up n ls hs)

unused :
    (w : String) (n : ℕ) (ls : List (String × ℕ))
    → All (λ l. l.1 ≤ n) ls
    → All (λ l. (w, suc n) ≢ l) ls
unused w n [] h = tt
unused w n (l ∷ ls) (h, hs) =
    ((λ e. let number : suc n ≡ l.1 = ap (λ p. p.1) e in absurd (omega arith)), unused w n ls hs)

pub HasLabels-three :
    (a b c : String) (n : ℕ) (ls : List (String × ℕ))
    → (a == b) ≡ false
    → (a == c) ≡ false
    → (b == c) ≡ false
    → HasLabels n ls
    → HasLabels (suc n) ((c, suc n) ∷ (b, suc n) ∷ (a, suc n) ∷ ls)
HasLabels-three a b c n ls ab ac bc (old, distinct) = (
  (omega arith, (omega arith, (omega arith, used_up n ls old))),
  (
    (
      (λ e. word-ne b c bc (sym (ap (λ p. p.0) e))),
      ((λ e. word-ne a c ac (sym (ap (λ p. p.0) e))), unused c n ls old),
    ),
    (
      ((λ e. word-ne a b ab (sym (ap (λ p. p.0) e))), unused b n ls old),
      (unused a n ls old, distinct),
    ),
  ),
)
