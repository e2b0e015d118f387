-- ===== src/LineDecoder/Range.antt =====
-- The frames that the `LineDecoder` of src/ddmp/protocol.py reads are frames of bytes.
use dometic_ddmp.Base.{
  ℕ, zero, suc, ◌+◌, inl, inr, Option-cases, List, [], ◌∷◌, ◌++◌, length, All, All-append,
}
use dometic_ddmp.Bytes.{Bytes, is_space, strip}
use dometic_ddmp.Result.{Result-cases}
use dometic_ddmp.Base64
use dometic_ddmp.Base64.Range
use dometic_ddmp.Frame
use dometic_ddmp.Frame.{Frame, IsByteFrame}
use dometic_ddmp.Frame.Laws.{decode-IsByteFrame}
use dometic_ddmp.LineDecoder.{
  LineDecoder, cut, read_stripped, read_line, frames_of, drops_of, loop, feed,
}

abbrev AreByteFrames : List Frame → Type 0
AreByteFrames = All IsByteFrame

read_stripped-AreByteFrames : (line : Bytes) → AreByteFrames (frames_of (read_stripped line))
unfolding read_stripped frames_of
read_stripped-AreByteFrames [] = tt
read_stripped-AreByteFrames (c ∷ line) = elim (Result-cases (Base64.decode (c ∷ line))) [
  | inr (x, e) ↦ rw (read_stripped, e) tt
  | inl (raw, e) ↦ elim (Result-cases (Frame.decode raw)) [
    | inr (x, bad) ↦ rw (read_stripped, e) (rw bad tt)
    | inl (f, good) ↦
        rw (read_stripped, e)
          (rw good (decode-IsByteFrame raw f (Range.decode-IsBytes (c ∷ line) raw e) good, tt))
  ]
]

loop-AreByteFrames :
    (fuel : ℕ) (d : LineDecoder) (frames : List Frame)
    → AreByteFrames frames
    → AreByteFrames (loop fuel d frames).0
unfolding loop read_line
loop-AreByteFrames zero d frames h = h
loop-AreByteFrames (suc fuel) d frames h = elim (Option-cases (cut d.buf)) [
  | inl e ↦ rw (loop, e) h
  | inr ((line, rest), e) ↦
      rw (loop, e)
        (loop-AreByteFrames fuel
          (record { buf = rest; dropped = d.dropped + drops_of (read_line line) })
          (frames ++ frames_of (read_line line))
          (All-append IsByteFrame frames (frames_of (read_line line)) h
            (read_stripped-AreByteFrames (strip is_space line))))
]

-- Whatever bytes a decoder holds and is fed, the frames that it reads are frames of bytes.
pub feed-AreByteFrames : (d : LineDecoder) (chunk : Bytes) → AreByteFrames (feed d chunk).0
unfolding feed
feed-AreByteFrames d chunk =
    loop-AreByteFrames (suc (length (d.buf ++ chunk))) (record d { buf = d.buf ++ chunk }) [] tt
