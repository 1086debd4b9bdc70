-- ===== src/Prelude/State.antt =====
-- Code with a state that may throw, and the rule for what a run of it ends with.
use tipc.Prelude.Result.{Error, Result, ok, err, Post, throws, returns}

abbrev pub Run : Type 0 → Type 0 → Type 0
Run S A = S → Result (A × S)

-- What follows a call is skipped when the call throws.
module _ {S A B : Type 0} where
  abbrev pub then_run : Result (A × S) → (A → Run S B) → Result (B × S)
  then_run (ok (a, s)) next = next a s
  then_run (err thrown) next = err thrown

module _ {S : Type 0} where
  infixl 5 ◌>>=◌ ◌>>◌
  abbrev pub ◌>>=◌ : {A B : Type 0} → Run S A → (A → Run S B) → Run S B
  ◌>>=◌ m next s = then_run (m s) next

  abbrev pub ◌>>◌ : {A B : Type 0} → Run S A → Run S B → Run S B
  m >> k = m >>= λ _. k

  abbrev pub pure : {A : Type 0} → A → Run S A
  pure a s = ok (a, s)

-- The rule for a call and what follows it.
module _ {S A B : Type 0} {Good : A × S → Type 0} {Bad : Error → Type 0} where
  infixl 1 ◌⇒◌
  pub ◌⇒◌ :
      {Better : B × S → Type 0} {first : Result (A × S)} {next : A → Run S B}
      → Post Good Bad first
      → ((a : A) (s : S) → Good (a, s) → Post Better Bad (next a s))
      → Post Better Bad (then_run first next)
  throws bad ⇒ later = throws bad
  returns {val} good ⇒ later = later val.0 val.1 good

  -- The same where the first part's errors have a meaning of their own.
  pub after :
      {Better : B × S → Type 0} {Worse : Error → Type 0} {first : Result (A × S)}
      {next : A → Run S B}
      → ((thrown : Error) → Bad thrown → Worse thrown)
      → Post Good Bad first
      → ((a : A) (s : S) → Good (a, s) → Post Better Worse (next a s))
      → Post Better Worse (then_run first next)
  after worse (throws bad) later = throws (worse _ bad)
  after worse (returns {val} good) later = later val.0 val.1 good
