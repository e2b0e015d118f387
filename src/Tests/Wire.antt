-- ===== src/Tests/Wire.antt =====
-- Frames, lines, texts and topics.
use dometic_ddmp.Base.{◌≡◌, refl, List, [], ◌∷◌, All, arith}
use dometic_ddmp.Bytes.{Bytes, concat, is_space}
use dometic_ddmp.Result.{ok, err, binascii_error}
use dometic_ddmp.Base64
use dometic_ddmp.Text.{codes, remove, is_space as is_space_text}
use dometic_ddmp.Text.Hex.{join_hex, hex2, from_hex, hex_value}
use dometic_ddmp.Text.Utf8
use dometic_ddmp.Text.Utf8.RoundTrip as Utf8RoundTrip
use dometic_ddmp.Address
use dometic_ddmp.Address.{Address, address, address_eq}
use dometic_ddmp.Frame
use dometic_ddmp.Frame.{Frame, IsByteFrame}
use dometic_ddmp.LineDecoder.{feed, feed_all, init, cut, read_line, frames_of, drops_of}
use dometic_ddmp.LineDecoder.Scan.{scan, feed-eq-scan}
use dometic_ddmp.LineDecoder.Delivery.{encode_lines, feed_all-encode_lines}

-- The set-point frame of the README: 2.0 degrees.
abbrev set_point : Frame
set_point = record {
  action = 0x11;
  address = address 0x05 0 0 0x1a;
  payload = 0xd0 ∷ 0x07 ∷ 0 ∷ 0 ∷ [];
}

abbrev subscription : Frame
subscription = record { action = 0x12; address = address 0x04 0 0 0x1a; payload = [] }

abbrev both : List Frame
both = set_point ∷ subscription ∷ []

-- base64 of 11 05 00 00 1A D0 07 00 00
line_of_set_point : Frame.encode_line set_point ≡ ok (codes "EQUAABrQBwAA\r")
unfolding Frame.encode_line Frame.encode Address.to_bytes Base64.encode
line_of_set_point = refl

strict_base64 :
    (Base64.decode (codes "EQU*") ≡ err binascii_error)
    × (Base64.decode (codes "EQU=") ≡ ok (0x11 ∷ 0x05 ∷ []))
    × (Base64.decode (codes "EQU=A") ≡ err binascii_error)
    × (Base64.decode (codes "EQUAA") ≡ err binascii_error)
unfolding Base64.decode
strict_base64 = (refl, refl, refl, refl)

-- A line, a blank line, a line that is no base64, one that is no frame, and a half line.
garbled :
    feed init (codes "EgQAABo=\r \n\r*\rEQUA\rEQ")
    ≡ (subscription ∷ [], record { buf = codes "EQ"; dropped = 2 })
unfolding feed cut read_line frames_of drops_of is_space Base64.decode Frame.decode
    Address.from_bytes
garbled = refl

both-IsByteFrame : All IsByteFrame both
both-IsByteFrame = omega arith

abbrev chunked : List Bytes
chunked = codes "EQUAABrQ" ∷ codes "BwAA\rEgQA" ∷ codes "ABo=\r" ∷ []

chunked_lines : encode_lines both ≡ ok (concat chunked)
unfolding encode_lines Frame.encode_line Frame.encode Address.to_bytes Base64.encode
chunked_lines = refl

feed_all-encode_lines_example : feed_all init chunked ≡ (both, init)
feed_all-encode_lines_example = feed_all-encode_lines both chunked both-IsByteFrame chunked_lines

feed-eq-scan_example : feed init (codes "EgQAABo=\r*\r") ≡ scan init (codes "EgQAABo=\r*\r")
feed-eq-scan_example = feed-eq-scan init (codes "EgQAABo=\r*\r") tt

-- A degree sign and a snowflake.
degrees : Utf8.encode (0xb0 ∷ 0x2744 ∷ []) ≡ ok (0xc2 ∷ 0xb0 ∷ 0xe2 ∷ 0x9d ∷ 0x84 ∷ [])
unfolding Utf8.encode Utf8.encode_char
degrees = refl

broken :
    Utf8.decode (0x41 ∷ 0xe2 ∷ 0x9d ∷ 0x41 ∷ 0xff ∷ 0xc2 ∷ [])
    ≡ 0x41 ∷ 0xfffd ∷ 0x41 ∷ 0xfffd ∷ 0xfffd ∷ []
unfolding Utf8.decode
broken = refl

decode-encode_utf8_example :
    Utf8.decode (0xc2 ∷ 0xb0 ∷ 0xe2 ∷ 0x9d ∷ 0x84 ∷ []) ≡ 0xb0 ∷ 0x2744 ∷ []
decode-encode_utf8_example =
    Utf8RoundTrip.decode-encode_utf8 (0xb0 ∷ 0x2744 ∷ []) (0xc2 ∷ 0xb0 ∷ 0xe2 ∷ 0x9d ∷ 0x84 ∷ [])
      degrees

shown : Address.show (address 0x04 0 0 0x1a) ≡ codes "04 00 00 1A"
unfolding Address.show join_hex hex2
shown = refl

parsed : Address.parse (codes "04:00:00:1a") ≡ ok (address 0x04 0 0 0x1a)
unfolding Address.parse remove is_space_text from_hex hex_value is_space Address.from_bytes
parsed = refl
