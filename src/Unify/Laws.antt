-- ===== src/Unify/Laws.antt =====
-- `unifyTypes` (src/UnionFindSolver.cpp) and the upper bounds of two types.
use tipc.Prelude.{
  ◌≡◌, ◌⊎◌, refl, sym, ap, ◌∙◌, ◌↔◌, suc, inl, inr, true, Text, arith, ◌==◌, Text_eq, ℕ_eq, ◌||◌,
  Bool-cases, nat_eq_iff,
}
use tipc.Prelude.Result.{
  Error, type_error, Result, ok, err, Post, returns, throws, ◌⟫◌, good_of, Post-if,
}
use mathlib.Core.Bool.{not}
use tipc.Types.{TipType, TipTypes, int, ref, alpha, fun, no_types, types, composite, print}
use tipc.Types.PrintLaws.{text_eq-print_iff}
use tipc.Unify.{unify_tests, unify_types, unify_params, size, cannot_unify}
use tipc.Unify.Order.{
  Refines, RefinesAll, Refines-refl, Refines-antisym, Refines-int, Refines-ref, Refines-fun,
}

-- A thrown TIPTypeError, with some message.
abbrev pub IsTypeError : Error → Type 0
IsTypeError e = (msg : Text) × (e ≡ type_error msg)

same_print : (t : TipType) → (print t == print t) ≡ true
same_print t = (text_eq-print_iff t t).1 refl

-- One case for each exit of the tests.
unify_tests-Post :
    (s t : TipType) (P : TipType → Type 0) (r : Result TipType)
    → (s ≡ t → P s)
    → (s ≡ alpha → P t)
    → (t ≡ alpha → P s)
    → Post P IsTypeError r
    → Post P IsTypeError (unify_tests s t r)
unfolding unify_tests print
unify_tests-Post s t P r same left right other =
    Post-if (print s == print t) (λ e. returns (same ((text_eq-print_iff s t).0 e)))
      λ _.
        Post-if (print s == print alpha) (λ e. returns (left ((text_eq-print_iff s alpha).0 e)))
          λ _.
            Post-if (print t == print alpha)
              (λ e. returns (right ((text_eq-print_iff t alpha).0 e)))
              λ _.
                Post-if (not (composite s) || not (composite t)) (λ _. throws (_, refl)) λ _. other

-- The result lies above both types, and nothing but a TIPTypeError is thrown.
abbrev IsUpper : TipType → TipType → TipType → Type 0
IsUpper s t z = Refines s z × Refines t z

abbrev IsUpperAll : TipTypes → TipTypes → TipTypes → Type 0
IsUpperAll ps qs zs = RefinesAll ps zs × RefinesAll qs zs

tests-IsUpper :
    (s t : TipType) (r : Result TipType)
    → Post (IsUpper s t) IsTypeError r
    → Post (IsUpper s t) IsTypeError (unify_tests s t r)
unfolding Refines
tests-IsUpper s t r h =
    unify_tests-Post s t (IsUpper s t) r (λ e. (Refines-refl s, rw (← e) (Refines-refl s)))
      (λ e. (rw e tt, Refines-refl t)) (λ e. (Refines-refl s, rw e tt)) h

refused :
    (s t : TipType) {Val : Type 0} {P : Val → Type 0}
    → Post {Val = Val} P IsTypeError (err (cannot_unify s t))
refused s t = throws (_, refl)

mutual
  unfolding unify_types Refines

  upper : (s t : TipType) → Post (IsUpper s t) IsTypeError (unify_types s t)
  upper (fun ps r) (fun qs u) = tests-IsUpper (fun ps r) (fun qs u) _ (
      Post-if (size ps == size qs)
        (λ same. upper_all ps qs ((nat_eq_iff _ _).0 same) ⟫ λ ms above.
          upper r u ⟫ λ m result. returns ((above.0, result.0), (above.1, result.1)))
        (λ _. refused (fun ps r) (fun qs u)))
  upper s t = tests-IsUpper s t _ (refused s t)

  upper_all :
      (ps qs : TipTypes)
      → size ps ≡ size qs
      → Post (IsUpperAll ps qs) IsTypeError (unify_params ps qs)
  upper_all no_types no_types same = returns (tt, tt)
  upper_all no_types (types t qs) same = absurd (omega arith)
  upper_all (types s ps) no_types same = absurd (omega arith)
  upper_all (types s ps) (types t qs) same =
      upper s t ⟫ λ m a. upper_all ps qs (omega arith) ⟫ λ ms b. returns ((a.0, b.0), (a.1, b.1))

-- The result of `unifyTypes` refines both types; when it throws, it throws a TIPTypeError.
pub unify_types-IsUpper :
    (s t : TipType) → Post (λ z. Refines s z × Refines t z) IsTypeError (unify_types s t)
unify_types-IsUpper s t = upper s t

-- The exits of the tests, as equations.
unify_self : (t : TipType) (r : Result TipType) → unify_tests t t r ≡ ok t
unfolding unify_tests
unify_self t r = rw (same_print t)

unify-alpha_left : (t : TipType) (r : Result TipType) → unify_tests alpha t r ≡ ok t
unfolding unify_tests print
unify-alpha_left t r = elim (Bool-cases (print alpha == print t)) [
  | inl e ↦ rw e (ap ok ((text_eq-print_iff alpha t).0 e))
  | inr n ↦ rw n
]

unify-alpha_right : (t : TipType) (r : Result TipType) → unify_tests t alpha r ≡ ok t
unfolding unify_tests print
unify-alpha_right t r = elim (Bool-cases (print t == print alpha)) [ inl e ↦ rw e | inr n ↦ rw n ]

-- Every upper bound of two types lies above the result, which then exists.
abbrev IsLeast : TipType → Result TipType → Type 0
IsLeast w r = (z : TipType) × (r ≡ ok z) × Refines z w

pub Refines-size : (ps qs : TipTypes) → RefinesAll ps qs → size ps ≡ size qs
unfolding Refines
Refines-size no_types no_types h = refl
Refines-size no_types (types t qs) h = absurd h
Refines-size (types s ps) no_types h = absurd h
Refines-size (types s ps) (types t qs) h = ap suc (Refines-size ps qs h.1)

-- Two functions unify to the same type, or to the function of what their parts unify to.
unify-fun :
    (ps qs ms : TipTypes) (r u m : TipType)
    → size ps ≡ size qs
    → unify_params ps qs ≡ ok ms
    → unify_types r u ≡ ok m
    → (unify_types (fun ps r) (fun qs u) ≡ ok (fun ps r))
      ⊎ (unify_types (fun ps r) (fun qs u) ≡ ok (fun ms m))
unfolding unify_types unify_tests print
unify-fun ps qs ms r u m same all result =
    elim (Bool-cases (print (fun ps r) == print (fun qs u))) [
      | inl e ↦ inl (rw e)
      | inr n ↦ inr (rw n (rw ((nat_eq_iff _ _).1 same) (rw all (rw result))))
    ]

pub unify_types_self : (t : TipType) → unify_types t t ≡ ok t
unfolding unify_types
unify_types_self (fun ps r) = unify_self (fun ps r) _
unify_types_self int = unify_self int _
unify_types_self (ref t) = unify_self (ref t) _
unify_types_self alpha = unify_self alpha _

pub unify_types-alpha_left : (t : TipType) → unify_types alpha t ≡ ok t
unfolding unify_types
unify_types-alpha_left t = unify-alpha_left t _

pub unify_types-alpha_right : (t : TipType) → unify_types t alpha ≡ ok t
unfolding unify_types
unify_types-alpha_right (fun ps r) = unify-alpha_right (fun ps r) _
unify_types-alpha_right int = unify-alpha_right int _
unify_types-alpha_right (ref t) = unify-alpha_right (ref t) _
unify_types-alpha_right alpha = unify-alpha_right alpha _

mutual
  unfolding unify_params Refines

  least : (s t w : TipType) → Refines s w → Refines t w → IsLeast w (unify_types s t)
  least alpha t w h k = (t, unify_types-alpha_left t, k)
  least int alpha w h k = (int, unify_types-alpha_right int, h)
  least (ref s) alpha w h k = (ref s, unify_types-alpha_right (ref s), h)
  least (fun ps r) alpha w h k = (fun ps r, unify_types-alpha_right (fun ps r), h)
  least int int w h k = (int, unify_types_self int, h)
  least int (ref t) w h k = absurd (cc (Refines-int w h, Refines-ref t w k))
  least int (fun qs u) w h k = absurd (cc (Refines-int w h, (Refines-fun qs u w k).2))
  least (ref s) int w h k = absurd (cc (Refines-int w k, Refines-ref s w h))
  least (ref s) (ref t) w h k =
      let e : ref t ≡ ref s = cc (Refines-ref s w h, Refines-ref t w k) in
      (ref s, rw e (unify_types_self (ref s)), h)
  least (ref s) (fun qs u) w h k = absurd (cc (Refines-ref s w h, (Refines-fun qs u w k).2))
  least (fun ps r) int w h k = absurd (cc (Refines-int w k, (Refines-fun ps r w h).2))
  least (fun ps r) (ref t) w h k = absurd (cc (Refines-ref t w k, (Refines-fun ps r w h).2))
  least (fun ps r) (fun qs u) int h k = absurd h
  least (fun ps r) (fun qs u) (ref w) h k = absurd h
  least (fun ps r) (fun qs u) alpha h k = absurd h
  least (fun ps r) (fun qs u) (fun ws w) h k =
      let (ms, es, ls) = least_all ps qs ws h.0 k.0 in
      let (m, e, l) = least r u w h.1 k.1 in
      let same : size ps ≡ size qs = Refines-size ps ws h.0 ∙ sym (Refines-size qs ws k.0) in
      elim (unify-fun ps qs ms r u m same es e) [
        | inl kept ↦ (fun ps r, kept, h)
        | inr merged ↦ (fun ms m, merged, (ls, l))
      ]

  least_all :
      (ps qs ws : TipTypes)
      → RefinesAll ps ws
      → RefinesAll qs ws
      → (zs : TipTypes) × (unify_params ps qs ≡ ok zs) × RefinesAll zs ws
  least_all no_types no_types ws h k = (no_types, refl, h)
  least_all no_types (types t qs) no_types h k = absurd k
  least_all no_types (types t qs) (types w ws) h k = absurd h
  least_all (types s ps) no_types no_types h k = absurd h
  least_all (types s ps) no_types (types w ws) h k = absurd k
  least_all (types s ps) (types t qs) no_types h k = absurd h
  least_all (types s ps) (types t qs) (types w ws) h k =
      let (z, e, l) = least s t w h.0 k.0 in
      let (zs, es, ls) = least_all ps qs ws h.1 k.1 in (types z zs, rw e (rw es), (l, ls))

pub unify_types-IsLeast :
    (s t w : TipType)
    → Refines s w
    → Refines t w
    → (z : TipType) × (unify_types s t ≡ ok z) × Refines z w
unify_types-IsLeast s t w = least s t w

-- `unifyTypes s t` returns `z` exactly when `z` is the least type that refines both: it refines
-- both, and every type that refines both refines `z`.
pub unify_types_iff :
    (s t z : TipType)
    → (unify_types s t ≡ ok z)
      ↔ (Refines s z × Refines t z × ((w : TipType) → Refines s w → Refines t w → Refines z w))
unify_types_iff s t z = (forth, back)
  where
    forth :
        unify_types s t ≡ ok z
        → Refines s z × Refines t z × ((w : TipType) → Refines s w → Refines t w → Refines z w)
    forth e =
        let (l, r) = good_of (rw e at (unify_types-IsUpper s t)) in
        (
          l,
          r,
          λ w h k.
              let (z', e', b) = unify_types-IsLeast s t w h k in
              let same : z' ≡ z = cc in rw same at b,
        )

    back :
        Refines s z × Refines t z × ((w : TipType) → Refines s w → Refines t w → Refines z w)
        → unify_types s t ≡ ok z
    back (l, r, lub) =
        let (z', e, b) = unify_types-IsLeast s t z l r in
        let (l', r') = good_of (rw e at (unify_types-IsUpper s t)) in
        rw e (ap ok (Refines-antisym z' z b (lub z' l' r')))
