-- ===== src/Value/Milli.antt =====
-- What the properties assume of floating point, and integers counted in thousandths as an instance.
use dometic_ddmp.Base.{
  ℕ, true, not, arith, ◌≡◌, refl, [], ℤ, pos, negsuc, leb_ℤ, beq_ℤ, pos_part, neg_part, ◌+◌, ◌-◌,
  ◌*◌, ◌/◌, ltb, leb, if◌then◌else◌,
}
use dometic_ddmp.Result.{ok, err, value_error}
use dometic_ddmp.Value.{Floats}
use dometic_ddmp.Words.{IsInt32}

-- A float has more than enough digits for an int32 and for its thousandth.
pub record FloatLaws (F : Type 0) ⦃fl : Floats F⦄ : Type 0 where
  -- Dividing by 1000 and rounding the thousandfold gives the integer back.
  pub to_milli-of_milli : (n : ℤ) → IsInt32 n → fl.to_milli (fl.of_milli n) ≡ ok n
  -- Rounding to a thousandth moves a float by less than the tolerance of temperatures.
  pub within-of_milli :
      (x : F) (n : ℤ)
      → fl.to_milli x ≡ ok n
      → IsInt32 n
      → fl.within (fl.of_milli n) x fl.milli_tolerance ≡ true
  -- An int32 is a float, which differs by nothing from itself.
  pub of_int-total : (n : ℤ) → IsInt32 n → (x : F) × (fl.of_int n ≡ ok x)
  pub within_self :
      (n : ℤ) (x : F) → IsInt32 n → fl.of_int n ≡ ok x → fl.within x x fl.zero_tolerance ≡ true

abbrev scale : ℤ → ℤ
scale (pos n) = pos (n * 1000)
scale (negsuc n) = negsuc (n * 1000 + 999)

-- Towards zero.
abbrev truncate : ℤ → ℤ
truncate (pos n) = pos (n / 1000)
truncate (negsuc n) = if ltb n 999 then pos 0 else negsuc ((n + 1) / 1000 - 1)

abbrev distance : ℤ → ℤ → ℕ
distance x y =
    let u = pos_part x + neg_part y in let v = pos_part y + neg_part x in (u - v) + (v - u)

-- A float as a whole number of thousandths; no text is a number, and `str` shows nothing.
instance abbrev pub thousandths : Floats ℤ
thousandths = record {
  of_milli = λ n. n;
  to_milli = λ n. ok n;
  of_int = λ n. ok (scale n);
  of_text = λ _. err value_error;
  of_bytes = λ _. err value_error;
  to_int = λ n. ok (truncate n);
  int_text = λ _. err value_error;
  int_bytes = λ _. err value_error;
  is_zero = λ n. beq_ℤ n (pos 0);
  le = leb_ℤ;
  le_int_float = λ n x. leb_ℤ (scale n) x;
  le_float_int = λ x n. leb_ℤ x (scale n);
  lt_int_float = λ n x. not (leb_ℤ x (scale n));
  within = λ x y tol. leb (distance x y) (pos_part tol);
  zero_tolerance = pos 0;
  milli_tolerance = pos 51;
  str_of = λ _. [];
}

pub thousandths_within : (x n : ℤ) → ok x ≡ ok n → leb (distance n x) 51 ≡ true
thousandths_within x n e = ground arith

pub thousandths_self : (x : ℤ) → leb (distance x x) 0 ≡ true
thousandths_self x = ground arith

abbrev pub thousandths_laws : FloatLaws ℤ
thousandths_laws = record {
  to_milli-of_milli = λ n h. refl;
  within-of_milli = λ x n e h. thousandths_within x n e;
  of_int-total = λ n h. (scale n, refl);
  within_self = λ n x h e. thousandths_self x;
}
