-- ===== src/Result.antt =====
-- src/ddmp/errors.py, and the built-in exceptions that the modelled code raises or catches. The
-- message texts of exceptions are left out.
use native.Mathlib.Omega.{arith}
use mathlib.Core.Logic.{◌⊎◌, inl, inr}
use dometic_ddmp.Base.{◌≡◌, refl, Bool, true, false, List, [], ◌∷◌, map, All}

pub data Error : Type 0 where
  decode_error not_writable state_unknown connection_closed write_rejected write_timeout : Error
  value_error key_error type_error index_error overflow_error struct_error binascii_error : Error
  os_error : Error

-- A call either returns a value or raises.
pub data Result {ℓ} (V : Type ℓ) : Type ℓ where
  ok : V → Result V
  err : Error → Result V

module _ {ℓ κ} {V : Type ℓ} {W : Type κ} where
  infixl 5 ◌>>=◌
  -- What follows runs on the returned value, or does not run.
  abbrev pub ◌>>=◌ : Result V → (V → Result W) → Result W
  ok value >>= next = next value
  err raised >>= next = err raised

module _ {κ} {W : Type κ} where
  infixl 5 ◌>>◌
  abbrev pub ◌>>◌ : Result (Unit {0}) → Result W → Result W
  checked >> next = checked >>= (λ done. next)

-- `if not test: raise e`
abbrev pub guard : Bool → Error → Result (Unit {0})
guard true raised = ok tt
guard false raised = err raised

module _ {ℓ κ} {A : Type ℓ} {B : Type κ} where
  -- A list comprehension whose body may raise.
  abbrev pub traverse : (A → Result B) → List A → Result (List B)
  traverse f [] = ok []
  traverse f (x ∷ xs) = do y ← f x; ys ← traverse f xs; ok (y ∷ ys)

module _ {ℓ κ μ} {A : Type ℓ} {B : Type κ} {C : Type μ} where
  pub traverse-map :
      (f : B → Result C) (g : A → B) (xs : List A)
      → traverse f (map g xs) ≡ traverse (λ x. f (g x)) xs
  traverse-map f g [] = refl
  traverse-map f g (x ∷ xs) = rw (traverse-map f g xs)

module _ {ℓ κ} {A : Type ℓ} {B : Type κ} where
  -- Two functions that agree on the elements.
  pub traverse_ext :
      (f g : A → Result B) (xs : List A) → All (λ x. f x ≡ g x) xs → traverse f xs ≡ traverse g xs
  traverse_ext f g [] h = refl
  traverse_ext f g (x ∷ xs) h = rw (h.0, traverse_ext f g xs h.1)

  pub traverse-total :
      (f : A → Result B) (xs : List A)
      → All (λ x. (y : B) × (f x ≡ ok y)) xs
      → (ys : List B) × (traverse f xs ≡ ok ys)
  traverse-total f [] h = ([], refl)
  traverse-total f (x ∷ xs) h = let (ys, e) = traverse-total f xs h.1 in (h.0.0 ∷ ys, rw (h.0.1, e))

module _ {ℓ} {A : Type ℓ} where
  pub Result-cases : (r : Result A) → ((a : A) × (r ≡ ok a)) ⊎ ((e : Error) × (r ≡ err e))
  Result-cases (ok a) = inl (a, refl)
  Result-cases (err e) = inr (e, refl)

module _ {ℓ κ} {V : Type ℓ} {W : Type κ} where
  -- Where a chain of calls returned, each of them did.
  pub >>=-eq-ok :
      (called : Result V) (next : V → Result W) {w : W}
      → (called >>= next) ≡ ok w
      → (v : V) × (called ≡ ok v) × (next v ≡ ok w)
  >>=-eq-ok (err raised) next returned = absurd (ground arith)
  >>=-eq-ok (ok v) next returned = (v, refl, returned)
