-- ===== src/Base64.antt =====
-- The standard library's base64 as src/ddmp/protocol.py calls it: `b64encode`, and `b64decode` with
-- `validate=True`, which is `binascii.a2b_base64` in strict mode (CPython 3.12).
mod Digits
pub mod RoundTrip
pub mod Range
use dometic_ddmp.Base.{
  ℕ, ◌+◌, ◌*◌, ◌/◌, ◌%◌, Bool, true, false, ◌&&◌, Option, none, some, List, [], ◌∷◌, ◌++◌, leb,
  ◌==◌, if◌then◌else◌,
}
use dometic_ddmp.Bytes.{Bytes}
use dometic_ddmp.Result.{Result, ok, err, binascii_error, ◌>>=◌}
use Digits.{digit, sextet, pad}
pub use Digits.{IsPlain}

unfoldable pub encode : Bytes → Bytes
unfolding digit
encode [] = []
encode (a ∷ []) = digit (a / 4) ∷ digit (a % 4 * 16) ∷ pad ∷ pad ∷ []
encode (a ∷ b ∷ []) = digit (a / 4) ∷ digit (a % 4 * 16 + b / 16) ∷ digit (b % 16 * 4) ∷ pad ∷ []
encode (a ∷ b ∷ c ∷ rest) =
    digit (a / 4)
    ∷ digit (a % 4 * 16 + b / 16)
    ∷ digit (b % 16 * 4 + c / 64)
    ∷ digit (c % 64)
    ∷ encode rest

-- The variables of the decoding loop: the place in the group of four, the bits kept back, the pad
-- characters in a row, and whether any was seen.
pub record State : Type 0 where
  pub quad_pos : ℕ
  pub leftchar : ℕ
  pub pads : ℕ
  pub padding_started : Bool

abbrev start : State
start = record { quad_pos = 0; leftchar = 0; pads = 0; padding_started = false }

-- What one character does: an error, the end of the data, or the next state and a byte written.
pub data Step : Type 0 where
  fail finish : Step
  more : State → Bytes → Step

pad_step : State → Step
pad_step s =
    if leb 2 s.quad_pos
    then (if leb 4 (s.quad_pos + (s.pads + 1))
        then finish
        else more (record s { pads = s.pads + 1; padding_started = true }) [])
    else more (record s { padding_started = true }) []

data_step : State → ℕ → Step
data_step s v =
    if s.quad_pos == 0
    then more (record s { quad_pos = 1; leftchar = v; pads = 0 }) []
    else if s.quad_pos == 1
    then more (record s { quad_pos = 2; leftchar = v % 16; pads = 0 })
        ((s.leftchar * 4 + v / 16) ∷ [])
    else if s.quad_pos == 2
    then more (record s { quad_pos = 3; leftchar = v % 4; pads = 0 })
        ((s.leftchar * 16 + v / 4) ∷ [])
    else more (record s { quad_pos = 0; leftchar = 0; pads = 0 }) ((s.leftchar * 64 + v) ∷ [])

step : State → ℕ → Step
unfolding pad_step data_step
step s c = if c == pad then pad_step s else elim (sextet c) [
  | none ↦ fail
  | some v ↦ if s.padding_started then fail else data_step s v
]

-- Nothing may follow the pad character that completes a group.
run : State → Bytes → Result Bytes
run s [] = if s.quad_pos == 0 then ok [] else err binascii_error
run s (c ∷ cs) = elim (step s c) [
  | fail ↦ err binascii_error
  | finish ↦ elim cs [ [] ↦ ok [] | _ ∷ _ ↦ err binascii_error ]
  | more s' out ↦ (do rest ← run s' cs; ok (out ++ rest))
]

unfoldable pub decode : Bytes → Result Bytes
unfolding run step digit sextet
decode [] = ok []
decode (c ∷ cs) = if c == pad then err binascii_error else run start (c ∷ cs)
