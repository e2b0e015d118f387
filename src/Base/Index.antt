-- ===== src/Base/Index.antt =====
-- `{key(x): x for x in xs}`: a dictionary made of a list.
use Prim.Native.Nat.{ℕ, zero, suc}
use mathlib.Core.Path.{◌≡◌, refl}
use mathlib.Core.Bool.{Bool, true, false, not, ◌&&◌}
use mathlib.Core.Option.{some}
use mathlib.Core.List.{List, [], ◌∷◌, map}
use mathlib.Core.Logic.{◌⊎◌, inl, inr}
use native.Mathlib.Omega.{arith}
use dometic_ddmp.Base.Tests.{Bool-cases}
use dometic_ddmp.Base.Lists.{get_elem?}
use dometic_ddmp.Base.Equality.{Eq, member}
use dometic_ddmp.Base.Dict.{Dict, get, put, get-put}

module _ {ℓ κ} {K : Type ℓ} {V : Type κ} ⦃e : Eq K⦄ where
  unfoldable pub index_from : (V → K) → Dict K V → List V → Dict K V
  index_from key d [] = d
  index_from key d (x ∷ xs) = index_from key (put (key x) x d) xs

  unfoldable pub index : (V → K) → List V → Dict K V
  unfolding index_from
  index key xs = index_from key [] xs

  get-index_from_absent :
      (key : V → K) (k : K) (d : Dict K V) (xs : List V)
      → member k (map key xs) ≡ false
      → get k (index_from key d xs) ≡ get k d
  unfolding index_from
  get-index_from_absent key k d [] h = refl
  get-index_from_absent key k d (x ∷ xs) h = ground (
    arith,
    get-index_from_absent key k (put (key x) x d) xs,
    get-put (key x) k x d,
    e.beq_iff k (key x),
    e.beq_iff (key x) k,
  )

module _ {ℓ} {K : Type ℓ} ⦃e : Eq K⦄ where
  -- No key stands twice in the list.
  abbrev pub distinct : List K → Bool
  distinct [] = true
  distinct (k ∷ ks) = not (member k ks) && distinct ks

module _ {ℓ κ} {K : Type ℓ} {V : Type κ} ⦃e : Eq K⦄ where
  get-index_from :
      (key : V → K) (d : Dict K V) (xs : List V) (i : ℕ) (x : V)
      → distinct (map key xs) ≡ true
      → get_elem? xs i ≡ some x
      → get (key x) (index_from key d xs) ≡ some x
  unfolding index_from
  get-index_from key d [] i x h at_i = ground arith
  get-index_from key d (y ∷ xs) zero x h at_i = ground (
    arith,
    get-index_from_absent key (key y) (put (key y) y d) xs,
    get-put (key y) (key y) y d,
    e.beq_iff (key y) (key y),
  )
  get-index_from key d (y ∷ xs) (suc i) x h at_i =
      get-index_from key (put (key y) y d) xs i x (ground arith) at_i

  -- With distinct keys each element is found under its key.
  pub get-index :
      (key : V → K) (xs : List V) (i : ℕ) (x : V)
      → distinct (map key xs) ≡ true
      → get_elem? xs i ≡ some x
      → get (key x) (index key xs) ≡ some x
  unfolding index
  get-index key xs i x h at_i = get-index_from key [] xs i x h at_i

  -- What is found was in the list, under its key.
  get-index_from_sound :
      (key : V → K) (k : K) (d : Dict K V) (xs : List V) (x : V)
      → get k (index_from key d xs) ≡ some x
      → (get k d ≡ some x) ⊎ ((key x ≡ k) × ((i : ℕ) × (get_elem? xs i ≡ some x)))
  unfolding index_from
  get-index_from_sound key k d [] x h = inl h
  get-index_from_sound key k d (y ∷ xs) x h =
      elim (get-index_from_sound key k (put (key y) y d) xs x h) [
        | inr (same, (i, at_i)) ↦ inr (same, (suc i, at_i))
        | inl q ↦ elim (Bool-cases (e.beq (key y) k)) [
          | inl same ↦ inr (
            ground (arith, get-put (key y) k y d, e.beq_iff (key y) k),
            (0, ground (arith, get-put (key y) k y d)),
          )
          | inr other ↦ inl (ground (arith, get-put (key y) k y d))
        ]
      ]

  pub get-index_sound :
      (key : V → K) (k : K) (xs : List V) (x : V)
      → get k (index key xs) ≡ some x
      → (key x ≡ k) × ((i : ℕ) × (get_elem? xs i ≡ some x))
  unfolding index get
  get-index_sound key k xs x h = elim (get-index_from_sound key k [] xs x h) [
    | inl e ↦ absurd (ground arith)
    | inr p ↦ p
  ]
