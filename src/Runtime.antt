-- ===== src/Runtime.antt =====
-- The runtime that a compiled program is linked with (intrinsics/tip_intrinsics.c). The input
-- stream, `scanf`, `strtoll` and the compiled program are parameters. An `int64_t` is an integer
-- here: the functions pass such values on and do not calculate with them.
pub mod Arguments
mod Tests
use tipc.Prelude.{
  ℕ, zero, suc, ◌+◌, ℕ_eq, ◌==◌, String, Bool, true, false, Option, none, some, List, [], ◌∷◌, ◌++◌,
  Text, codes, length, if◌then◌else◌,
}
use tipc.Prelude.Int.{ℤ, pos, negsuc, to_string}

-- What the functions read and write: standard output and input, and the two globals that each
-- compiled program defines.
pub record Process (Stdin : Type 0) : Type 0 where
  pub printed : Text
  pub stdin : Stdin
  pub num_inputs : ℕ
  pub input_array : List ℤ

-- A call returns, ends the process by `exit` with a status, or does what C leaves undefined.
pub data Outcome (Stdin A : Type 0) : Type 0 where
  returned : A → Process Stdin → Outcome Stdin A
  exited : ℤ → Process Stdin → Outcome Stdin A
  undefined : Outcome Stdin A

abbrev pub Routine : Type 0 → Type 0 → Type 0
Routine Stdin A = Process Stdin → Outcome Stdin A

module _ {Stdin A B : Type 0} where
  abbrev pub then_call : Outcome Stdin A → (A → Routine Stdin B) → Outcome Stdin B
  then_call (returned a p) next = next a p
  then_call (exited status p) next = exited status p
  then_call undefined next = undefined

-- `argv[i]`, and `_tip_input_array[i] = y`; beyond the end of either, nothing is defined.
module _ {A : Type 0} where
  abbrev pub get_elem? : List A → ℕ → Option A
  get_elem? [] i = none
  get_elem? (x ∷ xs) zero = some x
  get_elem? (x ∷ xs) (suc i) = get_elem? xs i

  abbrev pub after_elem : A → Option (List A) → Option (List A)
  after_elem x none = none
  after_elem x (some ys) = some (x ∷ ys)

  abbrev pub set_elem? : List A → ℕ → A → Option (List A)
  set_elem? [] i y = none
  set_elem? (x ∷ xs) zero y = some (y ∷ xs)
  set_elem? (x ∷ xs) (suc i) y = after_elem x (set_elem? xs i y)

module _ {Stdin : Type 0} where
  infixl 5 ◌>>=◌ ◌>>◌
  abbrev pub ◌>>=◌ : {A B : Type 0} → Routine Stdin A → (A → Routine Stdin B) → Routine Stdin B
  ◌>>=◌ m next p = then_call (m p) next

  abbrev pub ◌>>◌ : {A B : Type 0} → Routine Stdin A → Routine Stdin B → Routine Stdin B
  m >> k = m >>= λ _. k

  abbrev pub return : {A : Type 0} → A → Routine Stdin A
  return a p = returned a p

  abbrev pub printf : Text → Routine Stdin (Unit {0})
  printf t p = returned tt (record p { printed = p.printed ++ t })

  abbrev pub exit : {A : Type 0} → ℤ → Routine Stdin A
  exit status p = exited status p

  -- A line with a number in decimal.
  abbrev pub print_line : String → ℤ → Routine Stdin (Unit {0})
  print_line words x = printf (codes words ++ to_string x ++ 10 ∷ [])

  -- The number that `scanf` has read; if it reads none, the variable has no value.
  abbrev pub scanned : Option (ℤ × Stdin) → Routine Stdin ℤ
  scanned none p = undefined
  scanned (some (x, rest)) p = returned x (record p { stdin = rest })

  unfoldable pub tip_input : (Stdin → Option (ℤ × Stdin)) → Routine Stdin ℤ
  tip_input scanf = do printf (codes "Enter input: "); λ p. scanned (scanf p.stdin) p

  unfoldable pub tip_output : ℤ → Routine Stdin (Unit {0})
  unfolding to_string
  tip_output x = print_line "Program output: " x

  unfoldable pub tip_error : ℤ → Routine Stdin (Unit {0})
  unfolding to_string
  tip_error x = do print_line "[error] Error: Execution error, code: " x; exit (negsuc 0)

  unfoldable pub tip_main_undefined : Routine Stdin (Unit {0})
  tip_main_undefined = do printf (codes "Error: missing main function" ++ 10 ∷ []); exit (negsuc 0)

  abbrev pub given : Option Text → Routine Stdin Text
  given none p = undefined
  given (some arg) p = returned arg p

  abbrev pub stored : Option (List ℤ) → Routine Stdin (Unit {0})
  stored none p = undefined
  stored (some xs) p = returned tt (record p { input_array = xs })

  -- The loop over the arguments, from the index `i` on and for so many more.
  unfoldable pub read_arguments : (Text → ℤ) → List Text → ℕ → ℕ → Routine Stdin (Unit {0})
  read_arguments strtoll argv zero i = return tt
  read_arguments strtoll argv (suc more) i = do
    arg ← given (get_elem? argv (suc i))
    λ p. stored (set_elem? p.input_array i (strtoll arg)) p
    read_arguments strtoll argv more (suc i)

  -- What `main` does after the loop.
  abbrev pub run_and_report : Routine Stdin ℤ → Routine Stdin ℤ
  run_and_report tip_main = do x ← tip_main; print_line "Program output: " x; return (pos 0)

  abbrev pub wrong_count : ℕ → Routine Stdin ℤ
  wrong_count n = do
    printf (codes "expected " ++ to_string (pos n) ++ codes " integer arguments" ++ 10 ∷ [])
    exit (negsuc 0)

  -- `argc` is the length of `argv`.
  unfoldable pub main : (Text → ℤ) → Routine Stdin ℤ → List Text → Routine Stdin ℤ
  unfolding read_arguments
  main strtoll tip_main argv p =
      if length argv == p.num_inputs + 1
      then (read_arguments strtoll argv p.num_inputs 0 >> run_and_report tip_main) p
      else wrong_count p.num_inputs p
