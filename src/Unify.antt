-- ===== src/Unify.antt =====
-- `UnionFindSolver::unifyTypes` (src/UnionFindSolver.cpp): the type of two classes that are joined.
pub mod Order
pub mod Laws
pub mod Algebra
mod Tests
use tipc.Prelude.{ℕ, suc, ℕ_eq, Text_eq, Bool, true, false, ◌++◌, ◌==◌, ◌||◌, codes, if◌then◌else◌}
use tipc.Prelude.Result.{Error, type_error, undefined, Result, ok, err, ◌>>=◌}
use mathlib.Core.Bool.{not}
use tipc.Types.{
  TipType, TipTypes, int, ref, alpha, fun, no_types, types, composite, alpha_text, print,
}

-- `param_types.size()`
abbrev pub size : TipTypes → ℕ
size no_types = 0
size (types t ts) = suc (size ts)

-- The exception of both failing tests.
abbrev pub cannot_unify : TipType → TipType → Error
cannot_unify s t =
    type_error (codes "Cannot unify types " ++ (print s ++ (codes " and " ++ print t)))

-- The tests in front of the case of two functions, which is `functions`.
unfoldable pub unify_tests : TipType → TipType → Result TipType → Result TipType
unify_tests s t functions =
    if print s == print t
    then ok s
    else if print s == alpha_text
    then ok t
    else if print t == alpha_text
    then ok s
    else if not (composite s) || not (composite t)
    then err (cannot_unify s t)
    else functions

-- Only a `TIPfun` is composite, so the casts after the tests succeed. `unify_params` is the loop
-- over the parameters, and `undefined` an access beyond the end of the second vector.
unfoldable mutual
  pub unify_types : TipType → TipType → Result TipType
  unify_types (fun ps r) (fun qs u) = unify_tests (fun ps r) (fun qs u) (
      if size ps == size qs
      then (do
        merged_param_types ← unify_params ps qs
        merged_ret ← unify_types r u
        ok (fun merged_param_types merged_ret))
      else err (cannot_unify (fun ps r) (fun qs u)))
  unify_types s t = unify_tests s t (err (cannot_unify s t))

  pub unify_params : TipTypes → TipTypes → Result TipTypes
  unify_params no_types qs = ok no_types
  unify_params (types s ps) no_types = err undefined
  unify_params (types s ps) (types t qs) = do
    m ← unify_types s t
    ms ← unify_params ps qs
    ok (types m ms)
