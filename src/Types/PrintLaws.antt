-- ===== src/Types/PrintLaws.antt =====
-- How a printed type (src/TIPtypes.cpp) begins and ends, and which types print alike.
use tipc.Prelude.{
  ◌≡◌, ◌≢◌, ◌↔◌, refl, sym, ap, ap₂, ◌∙◌, ℕ, true, [], ◌∷◌, ◌++◌, append_assoc, arith, Text, codes,
  text_eq, text_eq_iff,
}
use tipc.Types.{
  TipType, TipTypes, int, ref, alpha, fun, no_types, types, comma_before, print, print_types,
}

-- The first character of a printed type, which tells its constructor.
head : TipType → ℕ
head int = 105
head (ref t) = 38
head alpha = 945
head (fun ps r) = 40

rest : TipType → Text
unfolding print
rest int = codes "nt"
rest (ref t) = print t
rest alpha = []
rest (fun ps r) = print_types ps ++ (codes ") -> " ++ print r)

print-head : (t : TipType) → print t ≡ head t ∷ rest t
unfolding print head rest
print-head int = refl
print-head _ = refl

head-ne_close : (t : TipType) → head t ≢ 41
unfolding head
head-ne_close int = ground arith
head-ne_close _ = ground arith

-- A parameter list that is followed by its closing parenthesis, without the leading comma.
strip_comma :
    (ts us : TipTypes) (a b : Text)
    → comma_before ts ++ (print_types ts ++ 41 ∷ a) ≡ comma_before us ++ (print_types us ++ 41 ∷ b)
    → print_types ts ++ 41 ∷ a ≡ print_types us ++ 41 ∷ b
unfolding print
strip_comma no_types no_types a b h = h
strip_comma no_types (types u us) a b h = ground arith
strip_comma (types t ts) no_types a b h = ground arith
strip_comma (types t ts) (types u us) a b h = cc

not_closed : (t : TipType) (x a b : Text) → 41 ∷ a ≡ (print t ++ x) ++ b → ⊥
not_closed t x a b h = ground (arith, head-ne_close t, rw print-head at h)

mutual
  unfolding print head rest

  print_prefix : (s t : TipType) (a b : Text) → print s ++ a ≡ print t ++ b → (s ≡ t) × (a ≡ b)
  print_prefix int int a b h = (refl, cc)
  print_prefix int (ref t) a b h = ground arith
  print_prefix int alpha a b h = ground arith
  print_prefix int (fun qs u) a b h = ground arith
  print_prefix (ref s) int a b h = ground arith
  print_prefix (ref s) (ref t) a b h = let (e, f) = print_prefix s t a b (cc) in (ap ref e, f)
  print_prefix (ref s) alpha a b h = ground arith
  print_prefix (ref s) (fun qs u) a b h = ground arith
  print_prefix alpha int a b h = ground arith
  print_prefix alpha (ref t) a b h = ground arith
  print_prefix alpha alpha a b h = (refl, cc)
  print_prefix alpha (fun qs u) a b h = ground arith
  print_prefix (fun ps r) int a b h = ground arith
  print_prefix (fun ps r) (ref t) a b h = ground arith
  print_prefix (fun ps r) alpha a b h = ground arith
  print_prefix (fun ps r) (fun qs u) a b h =
      let arrow : TipType → Text = λ t. 32 ∷ 45 ∷ 62 ∷ 32 ∷ print t in
      let opened : (print_types ps ++ 41 ∷ arrow r) ++ a ≡ (print_types qs ++ 41 ∷ arrow u) ++ b =
        cc in
      let split : print_types ps ++ 41 ∷ (arrow r ++ a) ≡ print_types qs ++ 41 ∷ (arrow u ++ b) =
        sym (append_assoc (print_types ps) (41 ∷ arrow r) a)
        ∙ opened
        ∙ append_assoc (print_types qs) (41 ∷ arrow u) b in
      let (e, after) = print_types_prefix ps qs _ _ split in
      let (f, g) = print_prefix r u a b (cc) in (ap₂ fun e f, g)

  print_types_prefix :
      (ps qs : TipTypes) (a b : Text)
      → print_types ps ++ 41 ∷ a ≡ print_types qs ++ 41 ∷ b
      → (ps ≡ qs) × (a ≡ b)
  print_types_prefix no_types no_types a b h = (refl, cc)
  print_types_prefix no_types (types t qs) a b h = absurd (not_closed t _ _ _ h)
  print_types_prefix (types s ps) no_types a b h = absurd (not_closed s _ _ _ (sym h))
  print_types_prefix (types s ps) (types t qs) a b h =
      let split : print s ++ (comma_before ps ++ (print_types ps ++ 41 ∷ a))
          ≡ print t ++ (comma_before qs ++ (print_types qs ++ 41 ∷ b)) =
        simp append_assoc at h in
      let (e, after) = print_prefix s t _ _ split in
      let (f, g) = print_types_prefix ps qs a b (strip_comma ps qs a b after) in (ap₂ types e f, g)

-- Two types that print alike are the same type, so comparing prints compares types.
pub print_injective : (s t : TipType) → print s ≡ print t → s ≡ t
print_injective s t h = (print_prefix s t [] [] (ap (λ x. x ++ []) h)).0

pub text_eq-print_iff : (s t : TipType) → (text_eq (print s) (print t) ≡ true) ↔ (s ≡ t)
text_eq-print_iff s t =
    (λ h. print_injective s t ((text_eq_iff _ _).0 h), λ e. (text_eq_iff _ _).1 (ap print e))
