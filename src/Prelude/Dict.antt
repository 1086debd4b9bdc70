-- ===== src/Prelude/Dict.antt =====
-- `std::map` as an association list. The program never iterates over a map, so the order of the
-- entries is not observed.
use mathlib.Core.Path.{◌≡◌, refl, sym, ◌∙◌}
use mathlib.Core.Logic.{◌≢◌, ◌⊎◌, inl, inr}
use mathlib.Core.Bool.{true, false, false≢true}
use mathlib.Core.Option.{Option, none, some}
use mathlib.Core.List.{List, [], ◌∷◌}
use tipc.Prelude.Tests.{Eq, ◌==◌, if◌then◌else◌, Bool-cases}

abbrev pub Dict {ℓ κ} : Type ℓ → Type κ → Type (ℓ ⊔ κ)
Dict K V = List (K × V)

module _ {ℓ} {K : Type ℓ} ⦃e : Eq K⦄ where
  pub eq_self : (k : K) → (k == k) ≡ true
  eq_self k = (e.same_iff k k).1 refl

  pub eq-ne : (j k : K) → j ≢ k → (j == k) ≡ false
  eq-ne j k h = elim (Bool-cases (j == k)) [ inl t ↦ absurd (h ((e.same_iff j k).0 t)) | inr f ↦ f ]

module _ {ℓ κ} {K : Type ℓ} {V : Type κ} ⦃e : Eq K⦄ where
  -- `m.find(k)`
  abbrev pub lookup : K → Dict K V → Option V
  lookup k [] = none
  lookup k ((j, v) ∷ m) = if j == k then some v else lookup k m

  -- `m[k] = v`
  abbrev pub insert : K → V → Dict K V → Dict K V
  insert k v [] = (k, v) ∷ []
  insert k v ((j, w) ∷ m) = if j == k then (k, v) ∷ m else (j, w) ∷ insert k v m

  -- `m.erase(k)`
  abbrev pub remove : K → Dict K V → Dict K V
  remove k [] = []
  remove k ((j, v) ∷ m) = if j == k then m else (j, v) ∷ remove k m

  pub lookup-insert_self : (k : K) (v : V) (m : Dict K V) → lookup k (insert k v m) ≡ some v
  lookup-insert_self k v [] = rw (eq_self k)
  lookup-insert_self k v ((j, w) ∷ m) = elim (Bool-cases (j == k)) [
    | inl t ↦ rw t (rw (eq_self k))
    | inr f ↦ rw f (rw f (lookup-insert_self k v m))
  ]

  pub lookup-insert_ne :
      (j k : K) (v : V) (m : Dict K V) → k ≢ j → lookup j (insert k v m) ≡ lookup j m
  lookup-insert_ne j k v [] h = rw (eq-ne k j h)
  lookup-insert_ne j k v ((i, w) ∷ m) h = elim (Bool-cases (i == k)) [
    | inl t ↦ let same : i ≡ k = (e.same_iff i k).0 t in rw (t, same, eq-ne k j h)
    | inr f ↦ rw (f, lookup-insert_ne j k v m h)
  ]

  pub lookup-insert_eq : (j k : K) (v : V) (m : Dict K V) → k ≡ j → lookup j (insert k v m) ≡ some v
  lookup-insert_eq j k v m e = rw e (lookup-insert_self j v m)

  -- What is found after an insertion is the new entry or an old one.
  pub lookup-insert_inv :
      (j k : K) (v w : V) (m : Dict K V)
      → lookup j (insert k v m) ≡ some w
      → (k ≡ j) ⊎ ((k ≢ j) × (lookup j m ≡ some w))
  lookup-insert_inv j k v w m l = elim (Bool-cases (k == j)) [
    | inl t ↦ inl ((e.same_iff k j).0 t)
    | inr f ↦
        let ne : k ≢ j = λ same. false≢true (sym f ∙ (e.same_iff k j).1 same) in
        inr (ne, rw (lookup-insert_ne j k v m ne) at l)
  ]

  pub lookup-insert_has :
      (j k : K) (v w : V) (m : Dict K V)
      → lookup j m ≡ some w
      → (x : V) × (lookup j (insert k v m) ≡ some x)
  lookup-insert_has j k v w m l = elim (Bool-cases (k == j)) [
    | inl t ↦ (v, lookup-insert_eq j k v m ((e.same_iff k j).0 t))
    | inr f ↦
        let ne : k ≢ j = λ same. false≢true (sym f ∙ (e.same_iff k j).1 same) in
        (w, rw (lookup-insert_ne j k v m ne) l)
  ]
