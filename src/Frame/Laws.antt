-- ===== src/Frame/Laws.antt =====
-- The bytes of a frame are read back as the frame.
use dometic_ddmp.Base.{◌≡◌, ◌<◌, ◌↔◌, refl, sym, ap, ◌∙◌, [], ◌∷◌, ◌++◌, All-append, arith}
use dometic_ddmp.Bytes.{Bytes, IsBytes, pack_bytes-of_IsBytes}
use dometic_ddmp.Result.{ok, ◌>>=◌}
use dometic_ddmp.Address
use dometic_ddmp.Address.{address, fields, from_bytes}
use dometic_ddmp.Frame.{Frame, IsByteFrame, encode, decode}

-- The bytes of a frame.
abbrev pub raw_bytes : Frame → Bytes
raw_bytes f = f.action ∷ (fields f.address ++ f.payload)

pub encode_lem : (f : Frame) → IsByteFrame f → encode f ≡ ok (raw_bytes f)
unfolding encode Address.to_bytes
encode_lem f h = ground (arith, h.action, pack_bytes-of_IsBytes (fields f.address) h.address)

pub raw_bytes-IsBytes : (f : Frame) → IsByteFrame f → IsBytes (raw_bytes f)
raw_bytes-IsBytes f h =
    (h.action, All-append (λ b. b < 256) (fields f.address) f.payload h.address h.payload)

pub decode-raw_bytes : (f : Frame) → decode (raw_bytes f) ≡ ok f
unfolding decode Address.from_bytes
decode-raw_bytes f = refl

-- Every frame of bytes is encoded, and decoding the encoding gives it back.
pub decode-encode_frame : (f : Frame) → IsByteFrame f → (encode f >>= decode) ≡ ok f
decode-encode_frame f h = rw (encode_lem f h) (decode-raw_bytes f)

-- Bytes that decode to a frame are what the frame is encoded to.
pub encode-decode_frame :
    (raw : Bytes) (f : Frame) → IsBytes raw → decode raw ≡ ok f → encode f ≡ ok raw
unfolding encode decode Address.to_bytes Address.from_bytes
encode-decode_frame (a ∷ p ∷ i ∷ s ∷ c ∷ rest) f h e = ground arith
encode-decode_frame raw f h e = cc

-- What bytes decode to is a frame of bytes.
pub decode-IsByteFrame : (raw : Bytes) (f : Frame) → IsBytes raw → decode raw ≡ ok f → IsByteFrame f
unfolding decode from_bytes
decode-IsByteFrame (a ∷ p ∷ i ∷ s ∷ c ∷ rest) f h e =
    let same : f ≡ record { action = a; address = address p i s c; payload = rest } =
      ground arith in
    rw same (record {
      action = h.0;
      address = (h.1.0, (h.1.1.0, (h.1.1.1.0, (h.1.1.1.1.0, tt))));
      payload = h.1.1.1.1.1;
    })
decode-IsByteFrame [] f h e = absurd (ground arith)
decode-IsByteFrame (a ∷ []) f h e = absurd (ground arith)
decode-IsByteFrame (a ∷ b ∷ []) f h e = absurd (ground arith)
decode-IsByteFrame (a ∷ b ∷ c ∷ []) f h e = absurd (ground arith)
decode-IsByteFrame (a ∷ b ∷ c ∷ d ∷ []) f h e = absurd (ground arith)

-- Bytes decode to a frame exactly if it is a frame of bytes, and is encoded to them.
pub decode_iff_encode :
    (raw : Bytes) (f : Frame)
    → IsBytes raw
    → (decode raw ≡ ok f) ↔ (IsByteFrame f × (encode f ≡ ok raw))
decode_iff_encode raw f h = (
  λ decoded. (decode-IsByteFrame raw f h decoded, encode-decode_frame raw f h decoded),
  λ (plain, encoded). sym (ap (λ r. r >>= decode) encoded) ∙ decode-encode_frame f plain,
)
