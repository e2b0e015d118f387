-- ===== src/Tests/Writes.antt =====
-- Types of what a cooler sends, and a write to one of two compartments within its range.
use dometic_ddmp.Base.{
  ℤ, pos, negsuc, string_eq, ◌≡◌, refl, none, some, List, [], ◌∷◌, set, All, arith,
}
use dometic_ddmp.Base.Dict
use dometic_ddmp.Base.Index
use dometic_ddmp.Bytes.{Bytes}
use dometic_ddmp.Result.{ok}
use dometic_ddmp.Text.{codes}
use dometic_ddmp.Address.{address, address_eq}
use dometic_ddmp.Frame.{Frame}
use dometic_ddmp.Words.{pack_i32, i32s, word}
use dometic_ddmp.Value.{
  Item, float, atom, pair, one, many, as_atom, float_atom, items, item_atom, len, truthy, unpack,
}
use dometic_ddmp.Value.Milli.{thousandths, thousandths_laws}
use dometic_ddmp.Codec.{
  milli, decode, encode, kind, pack_milli, pairs, first_word, unpack_from, need,
}
use dometic_ddmp.Codec.Numbers.{RoundTrips}
use dometic_ddmp.Codec.Normal.{decode-RoundTrips}
use dometic_ddmp.Topic.{
  topics, topic_by_name, topic_by_address, by_name, topic, assert_writable, writable,
  writable_names,
}
use dometic_ddmp.Session.{
  Session, init, on_frame, on_frames, on_publish, decoded, value, set_frame, set_compartment,
  coerce, check_range, list_or_nil, current_value, compartment_index, tolerance_of, not_above,
}
use dometic_ddmp.Session.Inbound.{feed_all}
use dometic_ddmp.Session.Typed.{IsTyped, IsTypedEvent, on_frames-IsTyped, feed_all-IsTyped}
use dometic_ddmp.Session.Others.{KeepsOthers, set_frame-KeepsOthers}
use dometic_ddmp.Session.Limits.{IsFrom, IsUpTo, set_frame_in_range}
use dometic_ddmp.Tests.Cooler.{
  session, published, csettemp, warmer, write_of_warmer, no_topic, csettemp_allowed,
}

abbrev minus_eighteen : Bytes
minus_eighteen = 0xb0 ∷ 0xb9 ∷ 0xff ∷ 0xff ∷ []

minus_eighteen_decodes : decode milli minus_eighteen ≡ ok (one (float (negsuc 17999)))
unfolding decode first_word need unpack_from word
minus_eighteen_decodes = refl

decode-RoundTrips_example : RoundTrips {F = ℤ} milli (one (float (negsuc 17999)))
decode-RoundTrips_example =
    decode-RoundTrips thousandths_laws milli minus_eighteen (one (float (negsuc 17999)))
      (omega arith) minus_eighteen_decodes

-- Half a line, and the rest with a line that is no base64.
abbrev pieces : List Bytes
pieces = codes "EAUAABrQBw" ∷ codes "AA\r*\r" ∷ []

feed_all-IsTyped_example :
    All IsTypedEvent (feed_all (init ℤ) pieces).0 × IsTyped (feed_all (init ℤ) pieces).1
feed_all-IsTyped_example = feed_all-IsTyped ℤ pieces

init-IsTyped : IsTyped (init ℤ)
unfolding init value Dict.get
init-IsTyped i t v at_i known = absurd (ground arith)

session-IsTyped : IsTyped session
session-IsTyped = (on_frames-IsTyped (init ℤ) (published ∷ []) (omega arith) init-IsTyped).1

set_frame-KeepsOthers_example : KeepsOthers session csettemp (one (float (pos 3500))) none warmer.0
set_frame-KeepsOthers_example =
    set_frame-KeepsOthers thousandths_laws session (by_name "csettemp") csettemp
      (one (float (pos 3500))) none warmer session-IsTyped no_topic csettemp_allowed refl
      write_of_warmer

-- From -1 to 4 degrees for the first compartment, and from -24 to -18 for the second.
abbrev range_published : Frame
range_published = record {
  action = 0x10;
  address = address 0x08 0 0 0x1a;
  payload =
      0x18 ∷ 0xfc ∷ 0xff ∷ 0xff ∷ 0xa0 ∷ 0x0f ∷ 0 ∷ 0 ∷ 0x40 ∷ 0xa2 ∷ 0xff ∷ 0xff ∷ 0xb0 ∷ 0xb9
      ∷ 0xff ∷ 0xff ∷ [];
}

abbrev ranged : Session ℤ
ranged = (on_frames (init ℤ) (published ∷ range_published ∷ [])).1

abbrev limits : List (Item ℤ)
limits =
    pair (float (negsuc 999)) (float (pos 4000))
    ∷ pair (float (negsuc 23999)) (float (negsuc 17999))
    ∷ []

abbrev set_points : List (Item ℤ)
set_points = atom (float (pos 2000)) ∷ atom (float (negsuc 17999)) ∷ []

limits_known : value ranged "ctemprng" ≡ some (many limits)
unfolding value on_frames on_frame on_publish init decoded decode pairs i32s word topic_by_address
    topics Index.index Dict.get Dict.put
limits_known = refl

set_points_known : value ranged "csettemp" ≡ some (many set_points)
unfolding value on_frames on_frame on_publish init decoded decode pairs i32s word topic_by_address
    topics Index.index Dict.get Dict.put
set_points_known = refl

write_in_range : set_frame ranged (by_name "csettemp") (one (float (pos 3500))) none ≡ ok warmer
unfolding set_frame assert_writable topic topic_by_name topics writable writable_names
    set_compartment current_value coerce check_range list_or_nil compartment_index tolerance_of
    on_frames on_frame on_publish init decoded decode encode pack_i32 i32s word kind pairs unpack
    topic_by_address Index.index pack_milli Dict.get Dict.put as_atom float_atom items item_atom len
    truthy not_above
write_in_range = refl

set_frame_in_range_example :
    (y : ℤ) × (warmer.1.expected ≡ many (set set_points 0 (atom (float y))))
    × IsFrom (float (negsuc 999)) y
    × IsUpTo (float (pos 4000)) y
set_frame_in_range_example =
    set_frame_in_range ranged (one (float (pos 3500))) none warmer limits set_points 0
      (float (negsuc 999)) (float (pos 4000)) limits_known set_points_known refl refl write_in_range
