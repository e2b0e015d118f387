-- ===== src/Base/Equality.antt =====
-- Python's `==` on the types that serve as dictionary keys.
use Prim.Native.Nat.{ℕ}
use Prim.Native.String.{String}
use mathlib.Core.Path.{◌≡◌}
use mathlib.Core.Logic.{◌↔◌}
use mathlib.Core.Bool.{Bool, true, false, ◌&&◌, ◌||◌}
use mathlib.Core.List.{List, [], ◌∷◌}
use native.Mathlib.Omega.{arith}
use text.Mathlib.Text.{◌==◌ as string_beq}
use text.Mathlib.TextEquality.{eq_iff}
use dometic_ddmp.Base.Tests.{◌==◌ as nat_beq, ==_iff}

-- A type with a test of equality, which says what it should.
pub record Eq {ℓ} (K : Type ℓ) : Type ℓ where
  -- `j == k`
  pub beq : K → K → Bool
  pub beq_iff : (j k : K) → (beq j k ≡ true) ↔ (j ≡ k)

-- `str` keys, for names
instance abbrev pub string_eq : Eq String
string_eq = record { beq_iff = eq_iff; beq = string_beq }

-- `int` keys, for codes
instance abbrev pub nat_eq : Eq ℕ
nat_eq = record { beq_iff = ==_iff; beq = nat_beq }

-- Two byte strings, or two texts, are equal.
abbrev pub same : List ℕ → List ℕ → Bool
same [] [] = true
same [] (y ∷ ys) = false
same (x ∷ xs) [] = false
same (x ∷ xs) (y ∷ ys) = nat_beq x y && same xs ys

pub same_iff : (xs ys : List ℕ) → (same xs ys ≡ true) ↔ (xs ≡ ys)
same_iff [] [] = ground arith
same_iff [] (y ∷ ys) = ground arith
same_iff (x ∷ xs) [] = ground arith
same_iff (x ∷ xs) (y ∷ ys) = ground (arith, same_iff xs ys)

instance abbrev pub text_eq : Eq (List ℕ)
text_eq = record { beq = same; beq_iff = same_iff }

module _ {ℓ} {A : Type ℓ} ⦃e : Eq A⦄ where
  -- `a in xs`
  abbrev pub member : A → List A → Bool
  member a [] = false
  member a (x ∷ xs) = e.beq x a || member a xs
