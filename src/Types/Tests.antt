-- ===== src/Types/Tests.antt =====
-- Runs of the type printer, and its laws at concrete types.
use tipc.Prelude.{◌≡◌, refl, codes}
use tipc.Types.{TipType, int, ref, alpha, fun, no_types, types, print}
use tipc.Types.PrintLaws.{print_injective}

abbrev map_type : TipType
map_type = fun (types (ref int) (types alpha no_types)) int

print_map : print map_type ≡ codes "(&int,α) -> int"
unfolding print
print_map = refl

print_injective_example : map_type ≡ map_type
print_injective_example = print_injective map_type map_type refl
