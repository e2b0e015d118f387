-- ===== src/Address.antt =====
-- `Address` of src/ddmp/protocol.py: four numbers in wire order, their bytes and their text.
pub mod Laws
use dometic_ddmp.Base.{
  ℕ, ◌≡◌, Bool, true, ◌&&◌, List, [], ◌∷◌, length, ◌==◌, Eq, ◌↔◌, if◌then◌else◌, arith,
}
use dometic_ddmp.Bytes.{Bytes, IsBytes, pack_bytes, strip}
use dometic_ddmp.Result.{Result, ok, err, decode_error, value_error, ◌>>=◌}
use dometic_ddmp.Text.{Text, is_space, remove}
use dometic_ddmp.Text.Hex.{join_hex, from_hex}

pub record Address : Type 0 where
  pub param : ℕ
  pub inst : ℕ
  pub subclass : ℕ
  pub cls : ℕ

abbrev pub address : ℕ → ℕ → ℕ → ℕ → Address
address p i s c = record { param = p; inst = i; subclass = s; cls = c }

abbrev pub fields : Address → List ℕ
fields a = a.param ∷ a.inst ∷ a.subclass ∷ a.cls ∷ []

-- Tuples are compared field by field.
abbrev pub address_beq : Address → Address → Bool
address_beq a b =
    a.param == b.param && a.inst == b.inst && a.subclass == b.subclass && a.cls == b.cls

pub address_beq_iff : (a b : Address) → (address_beq a b ≡ true) ↔ (a ≡ b)
address_beq_iff a b = ground arith

instance abbrev pub address_eq : Eq Address
address_eq = record { beq = address_beq; beq_iff = address_beq_iff }

unfoldable pub to_bytes : Address → Result Bytes
to_bytes a = pack_bytes (fields a)

unfoldable pub from_bytes : Bytes → Result Address
from_bytes (p ∷ i ∷ s ∷ c ∷ rest) = ok (address p i s c)
from_bytes _ = err decode_error

unfoldable pub parse : Text → Result Address
parse text =
    let cleaned = strip is_space (remove 32 (remove b':' text)) in
    if length cleaned == 8 then from_hex cleaned >>= from_bytes else err value_error

-- `Address.__str__`
unfoldable pub show : Address → Text
show a = join_hex b'A' 32 (fields a)

-- The four numbers are bytes.
abbrev pub IsByteAddress : Address → Type 0
IsByteAddress a = IsBytes (fields a)
