-- ===== src/Expectation.antt =====
-- The events and `WriteExpectation` of src/ddmp/session.py, with `_close`.
pub mod Verdicts
pub mod Close
use dometic_ddmp.Base.{
  ℕ, ℤ, pos, Bool, true, false, not, ◌&&◌, Option, none, some, List, [], ◌∷◌, length, same, ◌==◌,
  if◌then◌else◌,
}
use dometic_ddmp.Bytes.{Bytes}
use dometic_ddmp.Result.{Result, ok, err, ◌>>=◌}
use dometic_ddmp.Text.{Text, codes}
use dometic_ddmp.Address
use dometic_ddmp.Address.{Address, address_beq}
use dometic_ddmp.Frame.{Frame}
use dometic_ddmp.Topic.{Topic}
use dometic_ddmp.Value.{
  Atom, int, bool, float, str, bytes, member, Item, atom, pair, Value, one, many, Floats,
  truthy_atom, truthy_item, truthy, float_atom,
}

pub record Publish (F : Type 0) : Type 0 where
  pub address : Address
  pub topic : Option Topic
  pub value : Value F
  pub raw : Bytes

pub data Event (F : Type 0) : Type 0 where
  publish : Publish F → Event F
  nak : Address → Bytes → Event F
  unhandled : Frame → Event F

-- `Publish.name`
unfoldable pub name : {F : Type 0} → Publish F → Text
name p = elim p.topic [ some t ↦ codes t.name | none ↦ Address.show p.address ]

pub record WriteExpectation (F : Type 0) : Type 0 where
  pub topic : Topic
  pub expected : Value F
  pub tolerance : F
  pub observed : Option (Value F)

-- `bool(a) == bool(b)`
abbrev agree : Bool → Bool → Bool
agree true b = b
agree false b = not b

module _ {F : Type 0} ⦃fl : Floats F⦄ where
  -- `abs(float(a) - float(b)) <= tol`
  unfoldable pub close_numbers : Atom F → Atom F → F → Result Bool
  close_numbers a b tol = do x ← float_atom a; y ← float_atom b; ok (fl.within x y tol)

  -- `_close` of two single values: flags, numbers, and `==` for the rest.
  unfoldable pub close_atom : Atom F → Atom F → F → Result Bool
  close_atom (bool x) b tol = ok (agree x (truthy_atom b))
  close_atom a (bool y) tol = ok (agree (truthy_atom a) y)
  close_atom (str s) (str t) tol = ok (same s t)
  close_atom (bytes s) (bytes t) tol = ok (same s t)
  close_atom (str s) b tol = ok false
  close_atom (bytes s) b tol = ok false
  close_atom a (str t) tol = ok false
  close_atom a (bytes t) tol = ok false
  close_atom a b tol = close_numbers a b tol

  unfoldable pub close_item : Item F → Item F → F → Result Bool
  close_item (pair a b) (pair c d) tol = do
    first ← close_atom a c tol
    if first then close_atom b d tol else ok false
  close_item (atom a) (atom b) tol = close_atom a b tol
  close_item (atom (bool x)) (pair c d) tol = ok x
  close_item (pair a b) (atom (bool y)) tol = ok y
  close_item x y tol = ok false

  -- `all(...)` over `zip(a, b)`, which stops at the first `False`.
  unfoldable pub close_all : List (Item F) → List (Item F) → F → Result Bool
  close_all (x ∷ xs) (y ∷ ys) tol =
      let rest = close_all xs ys tol in
      (do first ← close_item x y tol; if first then rest else ok false)
  close_all xs ys tol = ok true

  unfoldable pub close : Value F → Value F → F → Result Bool
  close (many xs) (many ys) tol = if length xs == length ys then close_all xs ys tol else ok false
  close (one a) (one b) tol = close_atom a b tol
  close (one (bool x)) (many ys) tol = ok (agree x (truthy (many ys)))
  close (many xs) (one (bool y)) tol = ok (agree (truthy (many xs)) y)
  close v w tol = ok false

  -- `matches`: the expectation with what it observed, and the verdict; `none` is `None`.
  unfoldable pub matches : WriteExpectation F → Event F → WriteExpectation F × Result (Option Bool)
  matches e (nak a raw) = (e, ok (if address_beq a e.topic.address then some false else none))
  matches e (publish p) =
      if address_beq p.address e.topic.address
      then (
        record e { observed = some p.value },
        (do
          same_value ← close p.value e.expected e.tolerance
          ok (if same_value then some true else none)),
      )
      else (e, ok none)
  matches e (unhandled f) = (e, ok none)
