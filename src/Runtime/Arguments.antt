-- ===== src/Runtime/Arguments.antt =====
-- The arguments of a compiled program (`main` of intrinsics/tip_intrinsics.c).
use tipc.Prelude.{
  codes, ℕ, suc, ◌+◌, ◌≡◌, refl, sym, ap, ◌∙◌, subst, ℕ_eq, ◌==◌, Bool, true, false, some, List, [],
  ◌∷◌, ◌++◌, Text, length, length-append, if◌then◌else◌, nat_eq_iff, arith,
}
use tipc.Prelude.Int.{ℤ, pos, negsuc, to_string}
use tipc.Runtime.{
  Process, Outcome, returned, exited, undefined, print_line, return, Routine, get_elem?, set_elem?,
  after_elem, then_call, ◌>>◌, read_arguments, run_and_report, wrong_count, main,
}

-- The arguments as numbers.
abbrev pub parsed : (Text → ℤ) → List Text → List ℤ
parsed strtoll [] = []
parsed strtoll (arg ∷ args) = strtoll arg ∷ parsed strtoll args

module _ {A : Type 0} where
  get_elem?-append : (xs ys : List A) (y : A) → get_elem? (xs ++ y ∷ ys) (length xs) ≡ some y
  get_elem?-append [] ys y = refl
  get_elem?-append (x ∷ xs) ys y = get_elem?-append xs ys y

  set_elem?-append :
      (xs ys : List A) (y z : A) → set_elem? (xs ++ y ∷ ys) (length xs) z ≡ some (xs ++ z ∷ ys)
  set_elem?-append [] ys y z = refl
  set_elem?-append (x ∷ xs) ys y z = ap (after_elem x) (set_elem?-append xs ys y z)

-- How the process ends when the compiled program ends: its result is printed, and the status is 0.
abbrev pub reported : {Stdin : Type 0} → Outcome Stdin ℤ → Outcome Stdin ℤ
reported (returned x q) =
    returned (pos 0)
      (record q { printed = q.printed ++ (codes "Program output: " ++ to_string x ++ 10 ∷ []) })
reported (exited status q) = exited status q
reported undefined = undefined

-- How it ends when the number of arguments is wrong.
abbrev pub refused : {Stdin : Type 0} → Process Stdin → Outcome Stdin ℤ
refused p = exited (negsuc 0) (record p {
  printed =
      p.printed
      ++ (codes "expected "
          ++ to_string (pos p.num_inputs)
          ++ codes " integer arguments"
          ++ 10 ∷ []);
})

then-reported :
    {Stdin : Type 0} (o : Outcome Stdin ℤ)
    → then_call o (λ x. print_line "Program output: " x >> return (pos 0)) ≡ reported o
then-reported (returned x q) = refl
then-reported (exited status q) = refl
then-reported undefined = refl

-- Which of the arguments is the next one.
module _ {A : Type 0} where
  snoc_assoc : (xs ys : List A) (x : A) → xs ++ x ∷ ys ≡ (xs ++ x ∷ []) ++ ys
  snoc_assoc [] ys x = refl
  snoc_assoc (y ∷ xs) ys x = ap (λ zs. y ∷ zs) (snoc_assoc xs ys x)

  length-snoc : (xs : List A) (x : A) → length (xs ++ x ∷ []) ≡ suc (length xs)
  length-snoc xs x = omega (arith, length-append xs (x ∷ []))

same_test : (n m : ℕ) → (suc n == m + 1) ≡ (n == m)
same_test n m = ground arith

module _ {Stdin : Type 0} (strtoll : Text → ℤ) (name : Text) where
  -- The rest of the loop, after some arguments have been read.
  read_rest :
      (argv before args : List Text) (read olds : List ℤ) (i : ℕ) (p : Process Stdin)
      → argv ≡ name ∷ before ++ args
      → length before ≡ i
      → length read ≡ i
      → length olds ≡ length args
      → p.input_array ≡ read ++ olds
      → read_arguments strtoll argv (length args) i p
        ≡ returned tt (record p { input_array = read ++ parsed strtoll args })
  unfolding read_arguments
  read_rest argv before [] read [] i p ea eb er count e =
      ap (λ xs. returned tt (record p { input_array = xs })) e
  read_rest argv before [] read (old ∷ olds) i p ea eb er count e = absurd (omega (arith, count))
  read_rest argv before (arg ∷ args) read [] i p ea eb er count e = absurd (omega (arith, count))
  read_rest argv before (arg ∷ args) read (old ∷ olds) i p ea eb er count e =
      let given_arg : get_elem? argv (suc i) ≡ some arg =
        rw (ea, sym eb) (get_elem?-append before args arg) in
      let stored_arg : set_elem? p.input_array i (strtoll arg) ≡ some (read ++ strtoll arg ∷ olds) =
        rw (e, sym er) (set_elem?-append read olds old (strtoll arg)) in
      let next =
        read_rest argv (before ++ arg ∷ []) args (read ++ strtoll arg ∷ []) olds (suc i)
          (record p { input_array = read ++ strtoll arg ∷ olds })
          (ea ∙ ap (λ xs. name ∷ xs) (snoc_assoc before args arg))
          (length-snoc before arg ∙ ap suc eb) (length-snoc read (strtoll arg) ∙ ap suc er)
          (omega (arith, count)) (snoc_assoc read olds (strtoll arg)) in
      rw (given_arg, stored_arg, snoc_assoc read (parsed strtoll args) (strtoll arg)) next

  -- The whole loop.
  read_all :
      (args : List Text) (p : Process Stdin)
      → length p.input_array ≡ p.num_inputs
      → length args ≡ p.num_inputs
      → read_arguments strtoll (name ∷ args) p.num_inputs 0 p
        ≡ returned tt (record p { input_array = parsed strtoll args })
  read_all args p whole count =
      subst
        (λ n.
          read_arguments strtoll (name ∷ args) n 0 p
          ≡ returned tt (record p { input_array = parsed strtoll args }))
        count
        (read_rest (name ∷ args) [] args [] p.input_array 0 p refl refl refl (whole ∙ sym count)
          refl)

  -- For the right number of arguments, `main` does what the compiled program does when it is run with
  -- the array of inputs holding what `strtoll` makes of each argument, in order, and if that returns,
  -- prints a line with its result and returns 0; for any other number the process prints how many
  -- arguments it expects and ends with the status -1. The array must have as many elements as there
  -- are inputs.
  pub main-lem :
      (tip_main : Routine Stdin ℤ) (args : List Text) (p : Process Stdin)
      → length p.input_array ≡ p.num_inputs
      → main strtoll tip_main (name ∷ args) p ≡ (
          if length args == p.num_inputs
          then reported (tip_main (record p { input_array = parsed strtoll args }))
          else refused p)
  unfolding main
  main-lem tip_main args p whole = rw (same_test (length args) p.num_inputs) (
      branches (length args == p.num_inputs)
        λ e. read_all args p whole ((nat_eq_iff (length args) p.num_inputs).0 e))
    where
      branches :
          (b : Bool)
          → (b ≡ true
              → read_arguments strtoll (name ∷ args) p.num_inputs 0 p
                ≡ returned tt (record p { input_array = parsed strtoll args }))
          → (if b
              then (read_arguments strtoll (name ∷ args) p.num_inputs 0 >> run_and_report tip_main)
                  p
              else wrong_count p.num_inputs p)
            ≡ (if b
                then reported (tip_main (record p { input_array = parsed strtoll args }))
                else refused p)
      branches true h =
          ap (λ (o : Outcome Stdin (Unit {0})). then_call o λ _. run_and_report tip_main) (h refl)
          ∙ then-reported (tip_main (record p { input_array = parsed strtoll args }))
      branches false h = refl
