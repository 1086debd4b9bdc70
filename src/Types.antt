-- ===== src/Types.antt =====
-- The types that the analysis infers, and how they print: src/TIPtypes.h and src/TIPtypes.cpp.
-- A type is never changed once it is built, so a pointer to one is the value itself.
pub mod PrintLaws
mod Tests
use tipc.Prelude.{Bool, true, false, ◌++◌, [], Text, codes}

-- The subclasses of `TIPtype`; `TipTypes` is the vector of a function's parameter types.
mutual
  pub data TipType : Type 0 where
    int : TipType
    ref : TipType → TipType
    alpha : TipType
    fun : TipTypes → TipType → TipType

  pub data TipTypes : Type 0 where
    no_types : TipTypes
    types : TipType → TipTypes → TipTypes

-- The field `composite`, which only the constructor of `TIPfun` sets.
abbrev pub composite : TipType → Bool
composite (fun ps r) = true
composite _ = false

-- `TIPalpha::ALPHA`
abbrev pub alpha_text : Text
alpha_text = codes "α"

-- The comma that the loop of `TIPfun::print` adds if another parameter follows.
abbrev pub comma_before : TipTypes → Text
comma_before no_types = []
comma_before (types t ts) = codes ","

-- `TIPtype::print`
unfoldable mutual
  pub print : TipType → Text
  print int = codes "int"
  print (ref t) = codes "&" ++ print t
  print alpha = alpha_text
  print (fun ps r) = codes "(" ++ (print_types ps ++ (codes ") -> " ++ print r))

  pub print_types : TipTypes → Text
  print_types no_types = []
  print_types (types t ts) = print t ++ (comma_before ts ++ print_types ts)
