-- ===== src/Value.antt =====
-- The Python values that topics carry, and what the code does with them whatever their type:
-- truth, `int`, `float`, iteration, `len`. Floating point is a parameter.
pub mod Milli
use dometic_ddmp.Base.{ℕ, ℤ, pos, Bool, true, false, not, List, [], ◌∷◌, map, length, beq_ℤ}
use dometic_ddmp.Bytes.{Bytes}
use dometic_ddmp.Result.{Result, ok, err, type_error, value_error, ◌>>=◌}
use dometic_ddmp.Text.{Text}
use dometic_ddmp.Enums.{EnumClass}

-- A member of an enumeration is an `int` too.
pub data Atom (F : Type 0) : Type 0 where
  int : ℤ → Atom F
  bool : Bool → Atom F
  float : F → Atom F
  str : Text → Atom F
  bytes : Bytes → Atom F
  member : EnumClass → ℤ → Atom F

-- What a list holds: single values, and the pairs of ranges.
pub data Item (F : Type 0) : Type 0 where
  atom : Atom F → Item F
  pair : Atom F → Atom F → Item F

pub data Value (F : Type 0) : Type 0 where
  one : Atom F → Value F
  many : List (Item F) → Value F

-- What Python's floats and numeric texts do in this program.
pub record Floats (F : Type 0) : Type 0 where
  -- `n / 1000`
  pub of_milli : ℤ → F
  -- `round(x * 1000)`, which raises for infinities and NaN
  pub to_milli : F → Result ℤ
  -- `float(n)`, which raises beyond the largest float
  pub of_int : ℤ → Result F
  -- `float(text)`, `float(raw)`
  pub of_text : Text → Result F
  pub of_bytes : Bytes → Result F
  -- `int(x)`, `int(text)`, `int(raw)`
  pub to_int : F → Result ℤ
  pub int_text : Text → Result ℤ
  pub int_bytes : Bytes → Result ℤ
  -- `x == 0`
  pub is_zero : F → Bool
  -- `x <= y`, between two floats, and between an integer and a float
  pub le : F → F → Bool
  pub le_int_float : ℤ → F → Bool
  pub le_float_int : F → ℤ → Bool
  -- `n < x`
  pub lt_int_float : ℤ → F → Bool
  -- `abs(x - y) <= tol`
  pub within : F → F → F → Bool
  -- the literals 0.0 and 0.051
  pub zero_tolerance : F
  pub milli_tolerance : F
  -- `str(value)` of a value that is not a text
  pub str_of : Value F → Text

module _ {F : Type 0} ⦃fl : Floats F⦄ where
  -- `bool(value)`
  unfoldable pub truthy_atom : Atom F → Bool
  truthy_atom (int n) = not (beq_ℤ n (pos 0))
  truthy_atom (bool b) = b
  truthy_atom (float x) = not (fl.is_zero x)
  truthy_atom (str []) = false
  truthy_atom (str (c ∷ s)) = true
  truthy_atom (bytes []) = false
  truthy_atom (bytes (b ∷ bs)) = true
  truthy_atom (member cls n) = not (beq_ℤ n (pos 0))

  unfoldable pub truthy_item : Item F → Bool
  unfolding truthy_atom
  truthy_item (atom a) = truthy_atom a
  truthy_item (pair a b) = true

  unfoldable pub truthy : Value F → Bool
  unfolding truthy_atom
  truthy (one a) = truthy_atom a
  truthy (many []) = false
  truthy (many (x ∷ xs)) = true

  -- `int(value)`
  unfoldable pub int_atom : Atom F → Result ℤ
  int_atom (int n) = ok n
  int_atom (bool true) = ok (pos 1)
  int_atom (bool false) = ok (pos 0)
  int_atom (float x) = fl.to_int x
  int_atom (str t) = fl.int_text t
  int_atom (bytes raw) = fl.int_bytes raw
  int_atom (member cls n) = ok n

  -- `float(value)`
  unfoldable pub float_atom : Atom F → Result F
  float_atom (int n) = fl.of_int n
  float_atom (bool true) = fl.of_int (pos 1)
  float_atom (bool false) = fl.of_int (pos 0)
  float_atom (float x) = ok x
  float_atom (str t) = fl.of_text t
  float_atom (bytes raw) = fl.of_bytes raw
  float_atom (member cls n) = fl.of_int n

module _ {F : Type 0} where
  -- The single value where a list or a tuple is refused.
  unfoldable pub as_atom : Value F → Result (Atom F)
  as_atom (one a) = ok a
  as_atom (many xs) = err type_error

  unfoldable pub item_atom : Item F → Result (Atom F)
  item_atom (atom a) = ok a
  item_atom (pair a b) = err type_error

  -- `list(value)`: texts give their characters and bytes their numbers.
  unfoldable pub items : Value F → Result (List (Item F))
  items (many xs) = ok xs
  items (one (str t)) = ok (map (λ c. atom (str (c ∷ []))) t)
  items (one (bytes raw)) = ok (map (λ b. atom (int (pos b))) raw)
  items (one a) = err type_error

  -- `len(value)`
  unfoldable pub len : Value F → Result ℕ
  len (many xs) = ok (length xs)
  len (one (str t)) = ok (length t)
  len (one (bytes raw)) = ok (length raw)
  len (one a) = err type_error

  -- `lo, hi = value`
  unfoldable pub unpack : Item F → Result (Atom F × Atom F)
  unpack (pair a b) = ok (a, b)
  unpack (atom (str (c ∷ d ∷ []))) = ok (str (c ∷ []), str (d ∷ []))
  unpack (atom (str t)) = err value_error
  unpack (atom (bytes (b ∷ c ∷ []))) = ok (int (pos b), int (pos c))
  unpack (atom (bytes raw)) = err value_error
  unpack (atom a) = err type_error
