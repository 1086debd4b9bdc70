-- ===== src/Unify/Tests.antt =====
-- Runs of `unifyTypes`, and its laws at concrete types.
use tipc.Prelude.{◌≡◌, ◌↔◌, refl}
use tipc.Prelude.Result.{ok, err, Post}
use tipc.Types.{TipType, int, ref, alpha, fun, no_types, types, print}
use tipc.Unify.{unify_types, unify_tests, cannot_unify}
use tipc.Unify.Order.{Refines}
use tipc.Unify.Laws.{IsTypeError, unify_types-IsUpper, unify_types_iff}
use tipc.Unify.Algebra.{unify_types_assoc}

abbrev from_int : TipType
from_int = fun (types int no_types) alpha

abbrev to_int : TipType
to_int = fun (types alpha no_types) int

abbrev int_to_int : TipType
int_to_int = fun (types int no_types) int

unify_functions : unify_types from_int to_int ≡ ok int_to_int
unfolding unify_types unify_tests print
unify_functions = refl

-- Pointers to types that have a common refinement are refused all the same.
unify_pointers : unify_types (ref alpha) (ref int) ≡ err (cannot_unify (ref alpha) (ref int))
unfolding unify_types unify_tests print
unify_pointers = refl

unify_types-IsUpper_example :
    Post (λ z. Refines from_int z × Refines to_int z) IsTypeError (unify_types from_int to_int)
unify_types-IsUpper_example = unify_types-IsUpper from_int to_int

unify_types_iff_example : (unify_types from_int to_int ≡ ok int_to_int) ↔ (
    Refines from_int int_to_int
    × Refines to_int int_to_int
    × ((w : TipType) → Refines from_int w → Refines to_int w → Refines int_to_int w))
unify_types_iff_example = unify_types_iff from_int to_int int_to_int

unify_types_assoc_example :
    (y : TipType) × (unify_types to_int alpha ≡ ok y) × (unify_types from_int y ≡ ok int_to_int)
unfolding unify_types unify_tests print
unify_types_assoc_example = unify_types_assoc from_int to_int alpha int_to_int int_to_int refl refl
