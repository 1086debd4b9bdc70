-- ===== src/Solver/Roots.antt =====
-- Paths in the forest `node2root`, and how they change when a root is added or two are linked.
use tipc.Prelude.{
  ℕ, zero, suc, ◌≤◌, ℕ_eq, ◌≡◌, ◌≢◌, inl, inr, refl, sym, ◌∙◌, true, none, subst, some, [], ◌∷◌,
  ◌==◌, arith, length, Bool-cases, if◌then◌else◌,
}
use tipc.Prelude.Dict.{Dict, lookup, insert, lookup-insert_self, lookup-insert_ne}
use tipc.Prelude.Result.{ok}
use tipc.Solver.{find_loop}

-- `r` is the root above `n`, at most `k` steps up.
pub data RootIn (m : Dict ℕ ℕ) (r : ℕ) : ℕ → ℕ → Type 0 where
  here : {k n : ℕ} → n ≡ r → lookup n m ≡ some n → RootIn m r k n
  up : {k n p : ℕ} → lookup n m ≡ some p → p ≢ n → RootIn m r k p → RootIn m r (suc k) n

pub RootIn-lookup : {m : Dict ℕ ℕ} {r k n : ℕ} → RootIn m r k n → lookup r m ≡ some r
RootIn-lookup (here e l) = rw (← e) l
RootIn-lookup (up l ne above) = RootIn-lookup above

pub RootIn-known : {m : Dict ℕ ℕ} {r k n : ℕ} → RootIn m r k n → (p : ℕ) × (lookup n m ≡ some p)
RootIn-known (here e l) = (_, l)
RootIn-known (up l ne above) = (_, l)

pub RootIn-suc : {m : Dict ℕ ℕ} {r k n : ℕ} → RootIn m r k n → RootIn m r (suc k) n
RootIn-suc (here e l) = here e l
RootIn-suc (up l ne above) = up l ne (RootIn-suc above)

-- With one round more than the length of the path, the loop ends at the root and writes nothing.
pub find_loop-RootIn :
    {m : Dict ℕ ℕ} {r k n : ℕ} (fuel : ℕ)
    → RootIn m r k n
    → suc k ≤ fuel
    → find_loop fuel n m ≡ ok (r, m)
unfolding find_loop
find_loop-RootIn zero h le = absurd (omega arith)
find_loop-RootIn (suc f) (here e l) le = ground arith
find_loop-RootIn (suc f) (up l ne above) le = ground (arith, find_loop-RootIn f above (omega arith))

-- A new root changes no path.
pub RootIn-insert_root :
    {m : Dict ℕ ℕ} {r k n : ℕ} (x : ℕ)
    → lookup x m ≡ none
    → RootIn m r k n
    → RootIn (insert x x m) r k n
RootIn-insert_root {m} x fresh (here {n} e l) =
    here e (rw (lookup-insert_ne n x x m (λ same. cc)) l)
RootIn-insert_root {m} x fresh (up {n} l ne above) =
    up (rw (lookup-insert_ne n x x m (λ same. cc)) l) ne (RootIn-insert_root x fresh above)

at_x : {n r x : ℕ} → n ≡ r → (r == x) ≡ true → x ≡ n
at_x e t = ground arith

-- Linking the root `x` below the root `y` moves every node under `x` to `y`, one step further.
module _ {m : Dict ℕ ℕ} (x y : ℕ) (apart : x ≢ y) (root_x : lookup x m ≡ some x)
    (root_y : lookup y m ≡ some y) where
  pub RootIn-link :
      {r k n : ℕ} → RootIn m r k n → RootIn (insert x y m) (if r == x then y else r) (suc k) n
  RootIn-link {r} (here {n} e l) = elim (Bool-cases (r == x)) [
    | inl t ↦ rw t (
        up {p = y}
          (subst (λ i. lookup i (insert x y m) ≡ some y) (at_x e t) (lookup-insert_self x y m))
          (λ back. apart (sym (back ∙ sym (at_x e t))))
          (here refl (rw (lookup-insert_ne y x y m apart) root_y)))
    | inr f ↦ rw f (here e (rw (lookup-insert_ne n x y m (λ same. ground arith)) l))
  ]
  RootIn-link (up {n} {p} l ne above) =
      up {p = p} (rw (lookup-insert_ne n x y m (λ same. ground arith)) l) ne (RootIn-link above)

-- The entries that are no roots.
pub links : Dict ℕ ℕ → ℕ
links [] = 0
links ((n, p) ∷ m) = if n == p then links m else suc (links m)

pub links-le : (m : Dict ℕ ℕ) → links m ≤ length m
unfolding links
links-le [] = omega arith
links-le ((n, p) ∷ m) = ground (arith, links-le m)

pub links-insert_root : (x : ℕ) (m : Dict ℕ ℕ) → lookup x m ≡ none → links (insert x x m) ≡ links m
unfolding links
links-insert_root x [] fresh = ground arith
links-insert_root x ((n, p) ∷ m) fresh = ground (arith, links-insert_root x m)

pub links-link :
    (x y : ℕ) (m : Dict ℕ ℕ) → lookup x m ≡ some x → x ≢ y → links (insert x y m) ≡ suc (links m)
unfolding links
links-link x y [] root apart = cc
links-link x y ((n, p) ∷ m) root apart = ground (arith, links-link x y m)
