-- ===== src/Unify/Order.antt =====
-- The order of the inferred types: `alpha` is unknown, and may be refined to any type, also in
-- the parameters and the result of a function. A pointer type is refined by itself alone.
use tipc.Prelude.{◌≡◌, refl, sym, ap, ap₂}
use tipc.Types.{TipType, TipTypes, int, ref, alpha, fun, no_types, types}

unfoldable mutual
  pub Refines : TipType → TipType → Type 0
  Refines alpha t = Unit
  Refines int int = Unit
  Refines (ref s) (ref t) = s ≡ t
  Refines (fun ps r) (fun qs u) = RefinesAll ps qs × Refines r u
  Refines _ _ = ⊥

  pub RefinesAll : TipTypes → TipTypes → Type 0
  RefinesAll no_types no_types = Unit
  RefinesAll (types s ps) (types t qs) = Refines s t × RefinesAll ps qs
  RefinesAll _ _ = ⊥

mutual
  unfolding Refines

  refl_of : (t : TipType) → Refines t t
  refl_of int = tt
  refl_of (ref t) = refl
  refl_of alpha = tt
  refl_of (fun ps r) = (refl_all ps, refl_of r)

  refl_all : (ts : TipTypes) → RefinesAll ts ts
  refl_all no_types = tt
  refl_all (types t ts) = (refl_of t, refl_all ts)

pub Refines-refl : (t : TipType) → Refines t t
Refines-refl t = refl_of t

mutual
  unfolding Refines

  trans_of : (s t u : TipType) → Refines s t → Refines t u → Refines s u
  trans_of alpha t u h k = tt
  trans_of int int u h k = k
  trans_of int (ref t) u h k = absurd h
  trans_of int alpha u h k = absurd h
  trans_of int (fun qs t) u h k = absurd h
  trans_of (ref s) int u h k = absurd h
  trans_of (ref s) (ref t) u h k = rw h k
  trans_of (ref s) alpha u h k = absurd h
  trans_of (ref s) (fun qs t) u h k = absurd h
  trans_of (fun ps r) int u h k = absurd h
  trans_of (fun ps r) (ref t) u h k = absurd h
  trans_of (fun ps r) alpha u h k = absurd h
  trans_of (fun ps r) (fun qs t) int h k = absurd k
  trans_of (fun ps r) (fun qs t) (ref u) h k = absurd k
  trans_of (fun ps r) (fun qs t) alpha h k = absurd k
  trans_of (fun ps r) (fun qs t) (fun us u) h k =
      (trans_all ps qs us h.0 k.0, trans_of r t u h.1 k.1)

  trans_all : (ss ts us : TipTypes) → RefinesAll ss ts → RefinesAll ts us → RefinesAll ss us
  trans_all no_types no_types us h k = k
  trans_all no_types (types t ts) us h k = absurd h
  trans_all (types s ss) no_types us h k = absurd h
  trans_all (types s ss) (types t ts) no_types h k = absurd k
  trans_all (types s ss) (types t ts) (types u us) h k =
      (trans_of s t u h.0 k.0, trans_all ss ts us h.1 k.1)

mutual
  unfolding Refines

  antisym_of : (s t : TipType) → Refines s t → Refines t s → s ≡ t
  antisym_of alpha int h k = absurd k
  antisym_of alpha (ref t) h k = absurd k
  antisym_of alpha alpha h k = refl
  antisym_of alpha (fun qs t) h k = absurd k
  antisym_of int int h k = refl
  antisym_of int (ref t) h k = absurd h
  antisym_of int alpha h k = absurd h
  antisym_of int (fun qs t) h k = absurd h
  antisym_of (ref s) int h k = absurd h
  antisym_of (ref s) (ref t) h k = ap ref h
  antisym_of (ref s) alpha h k = absurd h
  antisym_of (ref s) (fun qs t) h k = absurd h
  antisym_of (fun ps r) int h k = absurd h
  antisym_of (fun ps r) (ref t) h k = absurd h
  antisym_of (fun ps r) alpha h k = absurd h
  antisym_of (fun ps r) (fun qs u) h k =
      ap₂ fun (antisym_all ps qs h.0 k.0) (antisym_of r u h.1 k.1)

  antisym_all : (ss ts : TipTypes) → RefinesAll ss ts → RefinesAll ts ss → ss ≡ ts
  antisym_all no_types no_types h k = refl
  antisym_all no_types (types t ts) h k = absurd h
  antisym_all (types s ss) no_types h k = absurd h
  antisym_all (types s ss) (types t ts) h k =
      ap₂ types (antisym_of s t h.0 k.0) (antisym_all ss ts h.1 k.1)

pub Refines-trans : (s t u : TipType) → Refines s t → Refines t u → Refines s u
Refines-trans s t u = trans_of s t u

pub RefinesAll-trans :
    (ps qs rs : TipTypes) → RefinesAll ps qs → RefinesAll qs rs → RefinesAll ps rs
RefinesAll-trans ps qs rs = trans_all ps qs rs

pub Refines-antisym : (s t : TipType) → Refines s t → Refines t s → s ≡ t
Refines-antisym s t = antisym_of s t

-- What is known of a type once it is not `alpha`.
pub Refines-int : (t : TipType) → Refines int t → t ≡ int
unfolding Refines
Refines-int int h = refl
Refines-int (ref t) h = absurd h
Refines-int alpha h = absurd h
Refines-int (fun qs t) h = absurd h

pub Refines-ref : (s t : TipType) → Refines (ref s) t → t ≡ ref s
unfolding Refines
Refines-ref s int h = absurd h
Refines-ref s (ref t) h = ap ref (sym h)
Refines-ref s alpha h = absurd h
Refines-ref s (fun qs t) h = absurd h

pub Refines-fun :
    (ps : TipTypes) (r t : TipType)
    → Refines (fun ps r) t
    → (qs : TipTypes) × (u : TipType) × (t ≡ fun qs u) × RefinesAll ps qs × Refines r u
unfolding Refines
Refines-fun ps r int h = absurd h
Refines-fun ps r (ref t) h = absurd h
Refines-fun ps r alpha h = absurd h
Refines-fun ps r (fun qs u) h = (qs, u, refl, h.0, h.1)
