-- ===== src/Runtime/Tests.antt =====
-- Runs of the runtime: the input stream is a list of numbers, and the compiled program adds nothing
-- of its own.
use tipc.Prelude.{
  ◌≡◌, refl, Option, none, some, List, [], ◌∷◌, ◌++◌, Text, codes, length, ℕ_eq, ◌==◌,
  if◌then◌else◌,
}
use tipc.Prelude.Int.{ℤ, pos, to_string}
use tipc.Build.{digits_value}
use tipc.Runtime.{
  Process, Outcome, returned, exited, undefined, Routine, return, ◌>>=◌, ◌>>◌, tip_input,
  tip_output, main,
}
use tipc.Runtime.Arguments.{reported, refused, main-lem}

abbrev scanf : List ℤ → Option (ℤ × List ℤ)
scanf [] = none
scanf (x ∷ rest) = some (x, rest)

abbrev strtoll : Text → ℤ
strtoll t = pos (digits_value 0 t)

-- main(a) { output a; output input; return 3; }
abbrev first_of : List ℤ → ℤ
first_of [] = pos 0
first_of (x ∷ rest) = x

abbrev compiled : Routine (List ℤ) ℤ
compiled = do
  λ p. tip_output (first_of p.input_array) p
  x ← tip_input scanf
  tip_output x
  return (pos 3)

abbrev started : Process (List ℤ)
started = record { printed = []; stdin = pos 5 ∷ []; num_inputs = 1; input_array = pos 0 ∷ [] }

abbrev printed_by : {A : Type 0} → Outcome (List ℤ) A → Text
printed_by (returned a p) = p.printed
printed_by (exited status p) = p.printed
printed_by undefined = []

report :
    printed_by (main strtoll compiled (codes "prog" ∷ codes "7" ∷ []) started)
    ≡ codes "Program output: 7"
      ++ 10 ∷ codes "Enter input: Program output: 5"
      ++ 10 ∷ codes "Program output: 3"
      ++ 10 ∷ []
unfolding main tip_output tip_input to_string digits_value
report = refl

too_few :
    printed_by (main strtoll compiled (codes "prog" ∷ []) started)
    ≡ codes "expected 1 integer arguments" ++ 10 ∷ []
unfolding main to_string
too_few = refl

main-lem_example : main strtoll compiled (codes "prog" ∷ codes "7" ∷ []) started ≡ (
    if length (codes "7" ∷ []) == 1
    then reported (compiled (record started { input_array = pos 7 ∷ [] }))
    else refused started)
unfolding digits_value
main-lem_example = main-lem strtoll (codes "prog") compiled (codes "7" ∷ []) started refl
