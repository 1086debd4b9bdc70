-- ===== src/Build/Numerals.antt =====
-- The numbers that the visitor reads (src/TIPtreeBuild.cpp) and those that `std::to_string` writes.
use tipc.Prelude.{
  ℕ, zero, suc, ◌+◌, ◌-◌, ◌*◌, ◌/◌, ◌%◌, ◌≤◌, ◌<◌, ◌≡◌, refl, ap, ◌∙◌, Bool, Bool-cases, inl, inr,
  true, false, leb, [], ◌∷◌, ◌++◌, Text, some, if◌then◌else◌, arith,
}
use tipc.Prelude.Int.{ℤ, pos, negsuc, digits, to_string}
use tipc.Prelude.Result.{ok, err, exception, ◌>>=◌}
use tipc.ParseTree.{ExprContext, neg_number, atom, num_atom}
use tipc.Tree.{number_expr}
use tipc.Build.{Visited, digits_value, stoi, set_expr, negated, visit_expr}

digits_value-append :
    (acc : ℕ) (xs : Text) (c : ℕ)
    → digits_value acc (xs ++ c ∷ []) ≡ 10 * digits_value acc xs + (c - 48)
unfolding digits_value
digits_value-append acc [] c = refl
digits_value-append acc (x ∷ xs) c = digits_value-append (10 * acc + (x - 48)) xs c

leb-≤ : (a b : ℕ) → leb a b ≡ true → a ≤ b
leb-≤ a b h = ground arith

leb-< : (a b : ℕ) → leb a b ≡ false → b < a
leb-< a b h = ground arith

tenth : (n fuel : ℕ) → 10 ≤ n → n < suc fuel → n / 10 < fuel
tenth n fuel h k = omega arith

rejoined : (n : ℕ) → 10 * (n / 10) + ((48 + n % 10) - 48) ≡ n
rejoined n = omega arith

-- The digits of a number, with enough fuel, have its value.
digits_value-digits : (fuel n : ℕ) → n < fuel → digits_value 0 (digits fuel n) ≡ n
unfolding digits digits_value
digits_value-digits zero n h = absurd (omega (arith, h))
digits_value-digits (suc fuel) n h = elim (Bool-cases (leb 10 n)) [
  | inl t ↦ rw t (
      digits_value-append 0 (digits fuel (n / 10)) (48 + n % 10)
      ∙ ap (λ v. 10 * v + ((48 + n % 10) - 48))
          (digits_value-digits fuel (n / 10) (tenth n fuel (leb-≤ 10 n t) h))
      ∙ rejoined n)
  | inr f ↦ rw f (omega arith)
]

-- The token of a number: the minus sign is one of its own.
abbrev pub numeral : ℤ → ExprContext
numeral (pos n) = atom (num_atom (to_string (pos n)))
numeral (negsuc n) = neg_number (to_string (pos (suc n)))

abbrev pub magnitude : ℤ → ℕ
magnitude (pos n) = n
magnitude (negsuc n) = suc n

stoi-to_string :
    (n : ℕ) → stoi (to_string (pos n)) ≡ (if leb n 2147483647 then ok n else err exception)
unfolding stoi to_string
stoi-to_string n = rw (digits_value-digits (n + 1) n (omega arith)) refl

number_built :
    (b : Bool) (n : ℕ) (sign : ℕ → ℤ) (s : Visited)
    → ((if b then ok n else err exception) >>= λ k. set_expr (number_expr 0 (sign k)) s) ≡ (
        if b then ok (record s { visited_expr = some (number_expr 0 (sign n)) }) else err exception)
number_built true n sign s = refl
number_built false n sign s = refl

-- From the text that `std::to_string` writes for a number, the visitor builds the number, if it is
-- at most 2147483647 in magnitude; otherwise it throws, also for the least `int`.
pub visit_expr-numeral :
    (v : ℤ) (s : Visited)
    → visit_expr (numeral v) s ≡ (
        if leb (magnitude v) 2147483647
        then ok (record s { visited_expr = some (number_expr 0 v) })
        else err exception)
unfolding visit_expr
visit_expr-numeral (pos n) s = rw (stoi-to_string n) (number_built (leb n 2147483647) n pos s)
visit_expr-numeral (negsuc n) s =
    rw (stoi-to_string (suc n)) (number_built (leb (suc n) 2147483647) (suc n) negated s)
