-- ===== src/Frame.antt =====
-- `Frame` of src/ddmp/protocol.py: a decoded DDM2 frame, its bytes, its line and its text.
pub mod Laws
use dometic_ddmp.Base.{ℕ, ◌<◌, none, some, [], ◌∷◌, ◌++◌}
use dometic_ddmp.Bytes.{Bytes, IsBytes, pack_bytes}
use dometic_ddmp.Result.{Result, ok, err, decode_error, ◌>>=◌}
use dometic_ddmp.Base64
use dometic_ddmp.Text.{Text, codes}
use dometic_ddmp.Text.Hex.{join_hex, hex2}
use dometic_ddmp.Action
use dometic_ddmp.Address
use dometic_ddmp.Address.{Address, IsByteAddress}

abbrev pub default_port : ℕ
default_port = 13143

abbrev pub line_terminator : ℕ
line_terminator = 13

-- The action is an `int`: a member of `Action` is equal to its number.
pub record Frame : Type 0 where
  pub action : ℕ
  pub address : Address
  pub payload : Bytes

unfoldable pub encode : Frame → Result Bytes
encode f = do
  first ← pack_bytes (f.action ∷ [])
  middle ← Address.to_bytes f.address
  ok (first ++ middle ++ f.payload)

unfoldable pub encode_line : Frame → Result Bytes
encode_line f = do raw ← encode f; ok (Base64.encode raw ++ line_terminator ∷ [])

-- That `action` becomes a member of `Action` where it can does not change its number.
unfoldable pub decode : Bytes → Result Frame
decode (a ∷ p ∷ i ∷ s ∷ c ∷ rest) = do
  address ← Address.from_bytes (p ∷ i ∷ s ∷ c ∷ [])
  ok (record { action = a; address = address; payload = rest })
decode _ = err decode_error

unfoldable pub action_name : Frame → Text
action_name f = elim (Action.of_code f.action) [
  | some a ↦ Action.name a
  | none ↦ codes "0x" ++ hex2 b'A' f.action
]

-- `Frame.__str__`
unfoldable pub show : Frame → Text
show f =
    action_name f
    ++ 32
      ∷ (Address.show f.address
          ++ elim f.payload [ [] ↦ [] | b ∷ bs ↦ 32 ∷ join_hex b'A' 32 (b ∷ bs) ])

-- The numbers of the frame are bytes.
pub record IsByteFrame (f : Frame) : Type 0 where
  pub action : f.action < 256
  pub address : IsByteAddress f.address
  pub payload : IsBytes f.payload
