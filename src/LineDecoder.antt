-- ===== src/LineDecoder.antt =====
-- `LineDecoder` of src/ddmp/protocol.py: the inbound byte stream becomes frames.
pub mod Scan
pub mod Delivery
pub mod Range
use dometic_ddmp.Base.{
  ℕ, zero, suc, ◌+◌, true, false, Option, none, some, List, [], ◌∷◌, ◌++◌, length, ◌==◌,
}
use dometic_ddmp.Bytes.{Bytes, is_space, strip}
use dometic_ddmp.Result.{ok, err}
use dometic_ddmp.Base64
use dometic_ddmp.Frame
use dometic_ddmp.Frame.{Frame, line_terminator}

pub record LineDecoder : Type 0 where
  pub buf : Bytes
  pub dropped : ℕ

abbrev pub init : LineDecoder
init = record { buf = []; dropped = 0 }

-- What is before and behind the first line terminator: `find`, the slice and the `del`.
unfoldable pub cut : Bytes → Option (Bytes × Bytes)
cut [] = none
cut (c ∷ s) = elim (c == line_terminator) [
  | true ↦ some ([], s)
  | false ↦ elim (cut s) [ none ↦ none | some (line, rest) ↦ some (c ∷ line, rest) ]
]

-- What becomes of one line: nothing, a frame, or one more dropped line.
pub data Reading : Type 0 where
  blank garbage : Reading
  frame : Frame → Reading

unfoldable pub read_stripped : Bytes → Reading
read_stripped [] = blank
read_stripped line = elim (Base64.decode line) [
  | err _ ↦ garbage
  | ok raw ↦ elim (Frame.decode raw) [ ok f ↦ frame f | err _ ↦ garbage ]
]

unfoldable pub read_line : Bytes → Reading
unfolding read_stripped
read_line text = read_stripped (strip is_space text)

unfoldable pub frames_of : Reading → List Frame
frames_of (frame f) = f ∷ []
frames_of blank = []
frames_of garbage = []

unfoldable pub drops_of : Reading → ℕ
drops_of garbage = 1
drops_of blank = 0
drops_of (frame f) = 0

-- The `while True` loop, with the frames so far; each round takes a terminator off the buffer.
pub loop : ℕ → LineDecoder → List Frame → List Frame × LineDecoder
loop zero d frames = (frames, d)
loop (suc fuel) d frames = elim (cut d.buf) [
  | none ↦ (frames, d)
  | some (line, rest) ↦
      loop fuel (record { buf = rest; dropped = d.dropped + drops_of (read_line line) })
        (frames ++ frames_of (read_line line))
]

unfoldable pub feed : LineDecoder → Bytes → List Frame × LineDecoder
unfolding loop
feed d chunk = let d' = record d { buf = d.buf ++ chunk } in loop (suc (length d'.buf)) d' []

-- `pending`
abbrev pub pending : LineDecoder → Bytes
pending d = d.buf

-- Several chunks, one after the other, as a client reads them from its socket.
unfoldable pub feed_all : LineDecoder → List Bytes → List Frame × LineDecoder
feed_all d [] = ([], d)
feed_all d (chunk ∷ chunks) =
    let (first, d') = feed d chunk in let (later, d'') = feed_all d' chunks in (first ++ later, d'')
