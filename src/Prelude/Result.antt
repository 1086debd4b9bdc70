-- ===== src/Prelude/Result.antt =====
-- The outcome of an operation that may throw. `type_error` is a thrown TIPTypeError with its
-- message, `exception` a std::exception without one; `undefined` stands for the use of a null
-- pointer or of a field that was never written, and `out_of_fuel` for a loop that goes on
-- beyond the rounds of the model.
use mathlib.Core.Path.{◌≡◌, refl}
use mathlib.Core.Bool.{Bool, true, false}
use tipc.Prelude.Tests.{Text, if◌then◌else◌}

pub data Error : Type 0 where
  type_error : Text → Error
  exception undefined out_of_fuel : Error

pub data Result {ℓ} (A : Type ℓ) : Type ℓ where
  ok : A → Result A
  err : Error → Result A

-- The steps after a throw are skipped.
infixl 5 ◌>>=◌
abbrev pub ◌>>=◌ {ℓ κ} :
    {Val : Type ℓ} {Out : Type κ} → Result Val → (Val → Result Out) → Result Out
err thrown >>= next = err thrown
ok val >>= next = next val

-- How a call ends: with a value of which `Good` holds, or with an error of which `Bad` holds.
pub data Post {ℓ} {Val : Type ℓ} (Good : Val → Type ℓ) (Bad : Error → Type ℓ)
    : Result Val → Type ℓ where
  throws : {thrown : Error} → Bad thrown → Post Good Bad (err thrown)
  returns : {val : Val} → Good val → Post Good Bad (ok val)

module _ {ℓ} {Val : Type ℓ} {Good : Val → Type ℓ} {Bad : Error → Type ℓ} where
  infixl 1 ◌⟫◌ ◌▷◌
  -- The rule for a step and what follows it.
  pub ◌⟫◌ :
      {Out : Type ℓ} {Better : Out → Type ℓ} {first : Result Val} {next : Val → Result Out}
      → Post Good Bad first
      → ((val : Val) → Good val → Post Better Bad (next val))
      → Post Better Bad (first >>= next)
  throws bad ⟫ later = throws bad
  returns {val} good ⟫ later = later val good

  -- The rule for the last step.
  pub ◌▷◌ :
      {Better : Val → Type ℓ} {last : Result Val}
      → Post Good Bad last
      → ((val : Val) → Good val → Better val)
      → Post Better Bad last
  throws bad ▷ improve = throws bad
  returns {val} good ▷ improve = returns (improve val good)

  pub good_of : {val : Val} → Post Good Bad (ok val) → Good val
  good_of (returns good) = good

  pub Post-if :
      (test : Bool) {x y : Result Val}
      → (test ≡ true → Post Good Bad x)
      → (test ≡ false → Post Good Bad y)
      → Post Good Bad (if test then x else y)
  Post-if true hx hy = hx refl
  Post-if false hx hy = hy refl
