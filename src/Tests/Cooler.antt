-- ===== src/Tests/Cooler.antt =====
-- Topics, codecs, a session and its writes, with floats counted in thousandths.
use dometic_ddmp.Base.{
  ℕ, ℤ, pos, negsuc, string_eq, ◌≡◌, ◌≢◌, refl, true, false, none, some, List, [], ◌∷◌, member,
  get_elem?, if◌then◌else◌, arith,
}
use dometic_ddmp.Base.Dict
use dometic_ddmp.Base.Index
use dometic_ddmp.Bytes.{Bytes, concat}
use dometic_ddmp.Result.{ok, err, decode_error, not_writable}
use dometic_ddmp.Text.{codes}
use dometic_ddmp.Text.Hex.{join_hex, hex2}
use dometic_ddmp.Address
use dometic_ddmp.Address.{address, address_eq}
use dometic_ddmp.Frame.{Frame}
use dometic_ddmp.Words.{pack_i32, i32s, word}
use dometic_ddmp.Value.{float, atom, one, many, as_atom, float_atom, items, item_atom, len, truthy}
use dometic_ddmp.Value.Milli.{thousandths, thousandths_laws}
use dometic_ddmp.Codec.{milli_array, decode, encode, kind, pack_milli, float_of}
use dometic_ddmp.Codec.RoundTrip.{encode-RoundTrips, scaleds}
use dometic_ddmp.Codec.Numbers.{RoundTrips}
use dometic_ddmp.Topic.{
  Topic, topics, topic_by_name, topic_by_address, by_topic, by_name, by_address, topic,
  assert_writable, writable, writable_names, never_write,
}
use dometic_ddmp.Topic.Lookup.{topic_resolves}
use dometic_ddmp.Topic.Short.{topic_of_broken}
use dometic_ddmp.Address.Laws.{broken}
use dometic_ddmp.Text.Hex.{hex_digit}
use dometic_ddmp.Topic.Guard.{assert_writable_row}
use dometic_ddmp.Expectation.{WriteExpectation, matches}
use dometic_ddmp.Session.{
  Session, init, feed, on_frame, on_frames, on_publish, decoded, value, set_frame, set_compartment,
  coerce, check_range, list_or_nil, current_value, compartment_index, tolerance_of,
}
use dometic_ddmp.Session.Inbound.{feed_all, session_feed_all-eq-feed}
use dometic_ddmp.LineDecoder.Scan.{IsPending}
use dometic_ddmp.Session.Memory.{newer, newer_value, last_payload, on_frames_remembers_last}
use dometic_ddmp.Session.Consistent.{
  IsConsistent, init-IsConsistent, on_frames-IsConsistent, feed-IsConsistent,
}
use dometic_ddmp.Session.Confirm.{set_frame-safe, set_frame-echo_confirms}

abbrev pub csettemp : Topic
csettemp = record {
  name = "csettemp";
  address = address 0x05 0 0 0x1a;
  codec = milli_array;
  description = "Set-point temperature";
  writable = true;
  per_compartment = true;
  unit = "°C";
}

-- Two compartments, at 2 and at -18 degrees.
abbrev pub published : Frame
published = record {
  action = 0x10;
  address = address 0x05 0 0 0x1a;
  payload = 0xd0 ∷ 0x07 ∷ 0 ∷ 0 ∷ 0xb0 ∷ 0xb9 ∷ 0xff ∷ 0xff ∷ [];
}

abbrev pub session : Session ℤ
session = (on_frames (init ℤ) (published ∷ [])).1

pub session-IsConsistent : IsConsistent session
session-IsConsistent = on_frames-IsConsistent (init ℤ) (published ∷ []) (init-IsConsistent ℤ)

-- 3.5 degrees for the first compartment.
abbrev pub warmer : Frame × WriteExpectation ℤ
warmer = (
  record {
    action = 0x11;
    address = address 0x05 0 0 0x1a;
    payload = 0xac ∷ 0x0d ∷ 0 ∷ 0 ∷ 0xb0 ∷ 0xb9 ∷ 0xff ∷ 0xff ∷ [];
  },
  record {
    topic = csettemp;
    expected = many (atom (float (pos 3500)) ∷ atom (float (negsuc 17999)) ∷ []);
    tolerance = pos 51;
    observed = none;
  },
)

pub write_of_warmer :
    set_frame session (by_name "csettemp") (one (float (pos 3500))) none ≡ ok warmer
unfolding set_frame assert_writable topic topic_by_name topics writable writable_names
    set_compartment current_value coerce check_range list_or_nil compartment_index tolerance_of
    on_frames on_frame on_publish init decoded decode encode pack_i32 i32s word kind
    topic_by_address Index.index pack_milli Dict.get Dict.put as_atom float_atom items item_atom len
    truthy
write_of_warmer = refl

pub no_topic : (u : Topic) → by_name "csettemp" ≢ by_topic u
no_topic u e = ground arith

row_of_csettemp : get_elem? topics 9 ≡ some csettemp
unfolding topics
row_of_csettemp = refl

pub csettemp_allowed : assert_writable (by_name "csettemp") ≡ ok csettemp
unfolding assert_writable topic topic_by_name topics writable writable_names Index.index Dict.get
    Dict.put
csettemp_allowed = refl

pub session-IsPending : IsPending session.decoder
unfolding on_frames on_frame on_publish init
session-IsPending = tt

unnamed : Dict.get "05 00 00 1A" topic_by_name ≡ none
unfolding topic_by_name topics Index.index Dict.get Dict.put
unnamed = refl

shown_as_text : codes "05 00 00 1A" ≡ Address.show csettemp.address
unfolding Address.show join_hex hex2
shown_as_text = refl

spelled : codes "04\t00\t00" ≡ broken 4 9 0 9 0
unfolding hex_digit
spelled = refl

set_frame-echo_confirms_example :
    (matches warmer.1 (on_frame (init ℤ) (record warmer.0 { action = 0x10 })).0).1 ≡ ok (some true)
set_frame-echo_confirms_example =
    set_frame-echo_confirms thousandths_laws session (init ℤ) (by_name "csettemp")
      (one (float (pos 3500))) none warmer session-IsConsistent no_topic write_of_warmer

set_frame-safe_example :
    (warmer.0.action ≡ 0x11)
    × (member warmer.0.address never_write ≡ false)
    × ((i : ℕ) × (t : Topic) × (get_elem? topics i ≡ some t)
        × (t.writable ≡ true)
        × (warmer.0.address ≡ t.address))
set_frame-safe_example =
    set_frame-safe session (by_name "csettemp") (one (float (pos 3500))) none warmer no_topic
      write_of_warmer

-- Half a line, and the rest with one more line.
abbrev stream : List Bytes
stream = codes "EAUAABrQ" ∷ codes "BwAA\rEAUA" ∷ []

session_feed_all-eq-feed_example : feed_all session stream ≡ feed session (concat stream)
session_feed_all-eq-feed_example = session_feed_all-eq-feed session stream (session-IsPending)

on_frames_remembers_last_example :
    (value session "csettemp"
      ≡ newer_value csettemp
          (last_payload csettemp.address (published ∷ []))
          (value (init ℤ) "csettemp"))
    × (Dict.get csettemp.address session.raw
        ≡ newer
            (last_payload csettemp.address (published ∷ []))
            (Dict.get csettemp.address (init ℤ).raw))
on_frames_remembers_last_example =
    on_frames_remembers_last (init ℤ) (published ∷ []) 9 csettemp row_of_csettemp

feed-IsConsistent_example : IsConsistent (feed session (codes "EAUAABrQBwAA\r")).1
feed-IsConsistent_example = feed-IsConsistent session (codes "EAUAABrQBwAA\r") session-IsConsistent

encode-RoundTrips_example :
    RoundTrips milli_array
      (many (atom (float_of {F = ℤ} (pos 2000)) ∷ atom (float_of (negsuc 17999)) ∷ []))
encode-RoundTrips_example =
    encode-RoundTrips ℤ thousandths_laws milli_array
      (many (atom (float_of (pos 2000)) ∷ atom (float_of (negsuc 17999)) ∷ []))
      (scaleds (pos 2000 ∷ negsuc 17999 ∷ []) (omega arith))

assert_writable_row_example :
    assert_writable (by_name csettemp.name)
    ≡ (if csettemp.writable then ok csettemp else err not_writable)
assert_writable_row_example = assert_writable_row 9 csettemp row_of_csettemp

topic_resolves_example :
    (topic (by_name csettemp.name) ≡ ok csettemp)
    × (topic (by_address csettemp.address) ≡ ok csettemp)
    × (topic (by_name "05 00 00 1A") ≡ ok csettemp)
topic_resolves_example =
    topic_resolves 9 csettemp "05 00 00 1A" row_of_csettemp unnamed shown_as_text

-- Six digits and two tabs are eight characters, and three bytes.
topic_of_broken_example : topic (by_name "04\t00\t00") ≡ err decode_error
topic_of_broken_example =
    topic_of_broken "04\t00\t00" 4 9 0 9 0 (omega arith) (omega arith) (omega arith) (omega arith)
      (omega arith) spelled
