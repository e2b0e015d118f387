-- ===== src/LineDecoder/Delivery.antt =====
-- What `encode_line` writes is what the decoder reads, over any split of the stream.
use dometic_ddmp.Base.{
  ℕ, ◌+◌, ◌≡◌, refl, false, List, [], ◌∷◌, ◌++◌, append_assoc, All, arith, append-nil,
}
use native.Mathlib.Nat.{add-zero}
use dometic_ddmp.Bytes.{Bytes, concat, is_space, strip-of_solid, IsSolid}
use dometic_ddmp.Result.{Result, ok, ◌>>=◌}
use dometic_ddmp.Base64
use dometic_ddmp.Base64.RoundTrip
use dometic_ddmp.Base64.{IsPlain}
use dometic_ddmp.Frame
use dometic_ddmp.Frame.{Frame, IsByteFrame, line_terminator}
use dometic_ddmp.Frame.Laws.{raw_bytes, encode_lem, decode-raw_bytes, raw_bytes-IsBytes}
use dometic_ddmp.LineDecoder.{frame, read_line, read_stripped, frames_of, drops_of, feed_all, init}
use dometic_ddmp.LineDecoder.Scan.{IsInner, scan, push, feed_all-eq-scan}

-- The lines of several frames, one behind the other.
unfoldable pub encode_lines : List Frame → Result Bytes
encode_lines [] = ok []
encode_lines (f ∷ fs) = do line ← Frame.encode_line f; rest ← encode_lines fs; ok (line ++ rest)

IsPlain-IsSolid : (s : Bytes) → All IsPlain s → All (IsSolid is_space) s
IsPlain-IsSolid [] h = tt
IsPlain-IsSolid (c ∷ s) h = (h.0.0, IsPlain-IsSolid s h.1)

plain-IsInner : (c : ℕ) → is_space c ≡ false → IsInner c
unfolding is_space
plain-IsInner c h = ground arith

IsPlain-IsInner : (s : Bytes) → All IsPlain s → All IsInner s
IsPlain-IsInner [] h = tt
IsPlain-IsInner (c ∷ s) h = (plain-IsInner c h.0.0, IsPlain-IsInner s h.1)

read_stripped-of_frame :
    (line raw : Bytes) (f : Frame)
    → Base64.decode line ≡ ok raw
    → Frame.decode raw ≡ ok f
    → read_stripped line ≡ frame f
unfolding read_stripped
read_stripped-of_frame [] raw f p q = unfold Base64.decode Frame.decode in ground arith
read_stripped-of_frame (c ∷ line) raw f p q = rw (p, read_stripped) (rw q)

scan_inner :
    (text s b : Bytes) (k : ℕ)
    → All IsInner text
    → scan (record { buf = b; dropped = k }) (text ++ s)
      ≡ scan (record { buf = b ++ text; dropped = k }) s
unfolding scan push
scan_inner [] s b k h = rw append-nil
scan_inner (c ∷ text) s b k h =
    ground (arith, scan_inner text s (b ++ c ∷ []) k h.1, append_assoc b (c ∷ []) text)

scan_terminator :
    (b s : Bytes) (k : ℕ)
    → scan (record { buf = b; dropped = k }) (line_terminator ∷ s) ≡ (
      frames_of (read_line b)
          ++ (scan (record { buf = []; dropped = k + drops_of (read_line b) }) s).0,
      (scan (record { buf = []; dropped = k + drops_of (read_line b) }) s).1,
    )
unfolding scan push
scan_terminator b s k = refl

read_line-of_frame : (f : Frame) → IsByteFrame f → read_line (Base64.encode (raw_bytes f)) ≡ frame f
unfolding read_line
read_line-of_frame f h =
    let plain = RoundTrip.encode-IsPlain (raw_bytes f) (raw_bytes-IsBytes f h) in
    rw (strip-of_solid is_space _ (IsPlain-IsSolid _ plain)) (
      read_stripped-of_frame _ (raw_bytes f) f
        (RoundTrip.decode-encode_base64 (raw_bytes f) (raw_bytes-IsBytes f h)) (decode-raw_bytes f))

pub encode_line_lem :
    (f : Frame)
    → IsByteFrame f
    → Frame.encode_line f ≡ ok (Base64.encode (raw_bytes f) ++ line_terminator ∷ [])
unfolding Frame.encode_line
encode_line_lem f h = rw (encode_lem f h)

-- The line of a frame, before more bytes.
pub scan-line :
    (f : Frame) (s : Bytes) (k : ℕ)
    → IsByteFrame f
    → scan
        (record { buf = []; dropped = k })
        ((Base64.encode (raw_bytes f) ++ line_terminator ∷ []) ++ s)
      ≡ (
        f ∷ (scan (record { buf = []; dropped = k }) s).0,
        (scan (record { buf = []; dropped = k }) s).1,
      )
unfolding frames_of drops_of
scan-line f s k h =
    let plain = RoundTrip.encode-IsPlain (raw_bytes f) (raw_bytes-IsBytes f h) in
    rw (
      append_assoc (Base64.encode (raw_bytes f)) (line_terminator ∷ []) s,
      scan_inner (Base64.encode (raw_bytes f)) (line_terminator ∷ s) [] k (IsPlain-IsInner _ plain),
      scan_terminator (Base64.encode (raw_bytes f)) s k,
      read_line-of_frame f h,
      add-zero,
    )

scan-lines :
    (fs : List Frame) (k : ℕ)
    → All IsByteFrame fs
    → (stream : Bytes) × (encode_lines fs ≡ ok stream)
      × (scan (record { buf = []; dropped = k }) stream ≡ (fs, record { buf = []; dropped = k }))
unfolding encode_lines
scan-lines [] k h = ([], refl, unfold scan in refl)
scan-lines (f ∷ fs) k h =
    let (stream, encoded, scanned) = scan-lines fs k h.1 in
    (
      (Base64.encode (raw_bytes f) ++ line_terminator ∷ []) ++ stream,
      rw (encode_line_lem f h.0, encoded),
      rw (scan-line f stream k h.0, scanned),
    )

-- The lines of frames of bytes can be encoded.
pub encode_lines-total :
    (fs : List Frame) → All IsByteFrame fs → (stream : Bytes) × (encode_lines fs ≡ ok stream)
encode_lines-total fs h = let lines = scan-lines fs 0 h in (lines.0, lines.1)

-- If chunks of bytes together spell the lines of some frames of bytes, an empty decoder that is fed
-- these chunks reads exactly those frames, in order, drops nothing and holds nothing back.
pub feed_all-encode_lines :
    (fs : List Frame) (chunks : List Bytes)
    → All IsByteFrame fs
    → encode_lines fs ≡ ok (concat chunks)
    → feed_all init chunks ≡ (fs, init)
feed_all-encode_lines fs chunks h e =
    let (stream, encoded, scanned) = scan-lines fs 0 h in
    let same_stream : concat chunks ≡ stream = ground (arith, e, encoded) in
    rw (feed_all-eq-scan init chunks tt, same_stream) scanned
