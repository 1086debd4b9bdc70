-- ===== src/Unify/Algebra.antt =====
-- The order and the grouping of unifications (src/UnionFindSolver.cpp).
use tipc.Prelude.{◌≡◌, Text_eq, ℕ_eq}
use tipc.Prelude.Result.{Error, ok, err}
use tipc.Types.{TipType}
use tipc.Unify.{unify_types}
use tipc.Unify.Order.{Refines, Refines-trans}
use tipc.Unify.Laws.{unify_types_iff, unify_types-IsLeast}

-- When `unifyTypes` throws, no type refines both.
pub unify_types-none :
    (s t w : TipType) (e : Error) → unify_types s t ≡ err e → Refines s w → Refines t w → ⊥
unify_types-none s t w e thrown h k = let (z, found, b) = unify_types-IsLeast s t w h k in cc

-- Unification does not depend on the order of its arguments.
pub unify_types_comm : (s t z : TipType) → unify_types s t ≡ ok z → unify_types t s ≡ ok z
unify_types_comm s t z e =
    let (l, r, lub) = (unify_types_iff s t z).0 e in
    (unify_types_iff t s z).1 (r, l, λ w h k. lub w k h)

-- Unifying three types in either grouping gives the same type.
pub unify_types_assoc :
    (s t u x z : TipType)
    → unify_types s t ≡ ok x
    → unify_types x u ≡ ok z
    → (y : TipType) × (unify_types t u ≡ ok y) × (unify_types s y ≡ ok z)
unify_types_assoc s t u x z first second =
    let (sx, tx, lub_x) = (unify_types_iff s t x).0 first in
    let (xz, uz, lub_z) = (unify_types_iff x u z).0 second in
    let tz = Refines-trans t x z tx xz in
    let sz = Refines-trans s x z sx xz in
    let (y, later, yz) = unify_types-IsLeast t u z tz uz in
    let (ty, uy, lub_y) = (unify_types_iff t u y).0 later in
    (
      y,
      later,
      (unify_types_iff s y z).1 (
        sz,
        yz,
        λ w h k. lub_z w (lub_x w h (Refines-trans t y w ty k)) (Refines-trans u y w uy k),
      ),
    )
