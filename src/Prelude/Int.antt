-- ===== src/Prelude/Int.antt =====
-- The source's `int`, and `std::to_string` of one.
use Prim.Native.Nat.{ℕ, zero, suc, ◌+◌, ◌/◌, ◌%◌}
use mathlib.Core.List.{[], ◌∷◌, ◌++◌}
use tipc.Prelude.Tests.{Text, leb, if◌then◌else◌}

-- `negsuc n` is -(n + 1).
pub data ℤ : Type 0 where
  pos : ℕ → ℤ
  negsuc : ℕ → ℤ

-- The decimal digits of `n`, with fuel for each division by ten: `n + 1` is enough.
unfoldable pub digits : ℕ → ℕ → Text
digits zero n = []
digits (suc fuel) n =
    let higher = digits fuel (n / 10) in
    if leb 10 n then higher ++ (48 + n % 10) ∷ [] else (48 + n) ∷ []

unfoldable pub to_string : ℤ → Text
unfolding digits
to_string (pos n) = digits (n + 1) n
to_string (negsuc n) = 45 ∷ digits (n + 2) (n + 1)
