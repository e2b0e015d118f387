-- ===== src/Tests/Values.antt =====
-- Texts, hardware addresses, verdicts and the state of a cooler.
use dometic_ddmp.Base.{
  ℤ, pos, String, string_eq, ◌≡◌, ◌↔◌, refl, true, false, none, some, [], ◌∷◌, ◌⊎◌, ltb, length,
  if◌then◌else◌, arith,
}
use dometic_ddmp.Base.Dict
use dometic_ddmp.Base.Dict.{Dict}
use dometic_ddmp.Bytes.{Bytes, strip}
use dometic_ddmp.Result.{ok, err, type_error, value_error}
use dometic_ddmp.Text.{codes, is_space}
use dometic_ddmp.Text.Utf8
use dometic_ddmp.Address.{address, address_eq}
use dometic_ddmp.Frame
use dometic_ddmp.Frame.{Frame, IsByteFrame}
use dometic_ddmp.Frame.Laws.{decode_iff_encode}
use dometic_ddmp.Value.{int, bool, str, atom, Value, one, many, truthy}
use dometic_ddmp.Value.Milli.{thousandths}
use dometic_ddmp.Codec.{string, boolean, encode, text_of}
use dometic_ddmp.Topic.{Topic}
use dometic_ddmp.Topic.Table.{mccc}
use dometic_ddmp.Expectation.{WriteExpectation, nak, matches}
use dometic_ddmp.Expectation.Verdicts.{IsNakFor, IsEchoOf, last_seen, matches_outcome}
use dometic_ddmp.CoolerState.{
  joined_error_text, error_text, error_texts, decimal, CoolerState, compartment, count_of,
  with_count, arrays_of, or_nil, error_codes_of, from_values,
}
use dometic_ddmp.CoolerState.Compartments.{
  Lists, HasLists, compartment_at, setters, reach, from_values_compartments,
}
use dometic_ddmp.Mdns.{read_name, read_labels}
use dometic_ddmp.Mdns.Total.{Ends, read_name-Ends}
use dometic_ddmp.Session.{init, state}
use dometic_ddmp.Session.Consistent.{init-IsConsistent}
use dometic_ddmp.Session.State.{is_short, session_state_outcome}

model_encoded : encode {F = ℤ} string (one (str (codes "CFX5"))) ≡ ok (codes "CFX5")
unfolding encode text_of Utf8.encode Utf8.encode_char
model_encoded = refl

model_stripped : strip is_space (codes "CFX5") ≡ codes "CFX5"
unfolding is_space
model_stripped = refl

abbrev hardware : Bytes
hardware = 0x24 ∷ 0x0a ∷ 0xc4 ∷ 0 ∷ 1 ∷ 2 ∷ []

abbrev coolerpow : Topic
coolerpow = record {
  name = "coolerpow";
  address = address 0x0b 0 0 0x1a;
  codec = boolean;
  description = "Cooler master power";
  writable = true;
  per_compartment = false;
  unit = "";
}

abbrev waiting : WriteExpectation ℤ
waiting = record {
  topic = coolerpow;
  expected = one (bool true);
  tolerance = pos 0;
  observed = none;
}

matches_outcome_example :
    (((matches waiting (nak (address 0x0b 0 0 0x1a) [])).1 ≡ ok (some false))
      ↔ IsNakFor {F = ℤ} waiting.topic.address (nak (address 0x0b 0 0 0x1a) []))
    × (((matches waiting (nak (address 0x0b 0 0 0x1a) [])).1 ≡ ok (some true))
        ↔ IsEchoOf waiting (nak (address 0x0b 0 0 0x1a) []))
    × ((matches waiting (nak (address 0x0b 0 0 0x1a) [])).0
        ≡ record waiting { observed = last_seen waiting (nak (address 0x0b 0 0 0x1a) []) })
matches_outcome_example = matches_outcome waiting (nak (address 0x0b 0 0 0x1a) [])

abbrev raw_frame : Bytes
raw_frame = 0x12 ∷ 4 ∷ 0 ∷ 0 ∷ 0x1a ∷ []

abbrev decoded_frame : Frame
decoded_frame = record { action = 0x12; address = address 4 0 0 0x1a; payload = [] }

decode_iff_encode_example :
    (Frame.decode raw_frame ≡ ok decoded_frame)
    ↔ (IsByteFrame decoded_frame × (Frame.encode decoded_frame ≡ ok raw_frame))
decode_iff_encode_example = decode_iff_encode raw_frame decoded_frame (omega arith)

-- A name that points to itself, and one label.
circle :
    (read_name (0xc0 ∷ 0 ∷ []) 0 ≡ some (err value_error))
    × (read_name (2 ∷ 97 ∷ 98 ∷ 0 ∷ []) 0 ≡ some (ok ((97 ∷ 98 ∷ []) ∷ [], 4)))
unfolding read_name read_labels Utf8.decode
circle = (refl, refl)

read_name-Ends_example : Ends (read_name (0xc0 ∷ 0 ∷ []) 0)
read_name-Ends_example = read_name-Ends (0xc0 ∷ 0 ∷ []) 0

unknown_error :
    (error_text 23 ≡ codes "Door has been opened too long")
    × (error_text 407 ≡ codes "Unknown error 407")
unfolding error_text error_texts decimal Dict.get
unknown_error = (refl, refl)

-- Two compartments are counted, and only the first has a door.
abbrev values : Dict String (Value ℤ)
values = ("nocpt", one (int (pos 2))) ∷ ("cdoor", many (atom (bool true) ∷ [])) ∷ []

abbrev lists : Lists ℤ
lists = record {
  powered = [];
  temperatures = [];
  setpoints = [];
  doors = atom (bool true) ∷ [];
  ranges = [];
  recommended = [];
  offsets = [];
}

values-HasLists : HasLists values lists
unfolding arrays_of or_nil truthy Dict.get
values-HasLists = refl

no_errors : error_codes_of (Dict.get "errst" values) ≡ ok []
unfolding error_codes_of Dict.get
no_errors = refl

two_compartments : count_of (reach (setters lists)) (Dict.get "nocpt" values) ≡ ok 2
unfolding count_of with_count Dict.get truthy
two_compartments = refl

from_values_compartments_example :
    (st : CoolerState ℤ) × (from_values values ≡ ok st)
    × (st.error_codes ≡ [])
    × (length st.compartments ≡ 2)
    × (compartment st 1 ≡ (if ltb 1 2 then some (compartment_at lists 1) else none))
from_values_compartments_example =
    from_values_compartments values lists [] 2 1 values-HasLists no_errors two_compartments

session_state_outcome_example :
    ((is_short (Dict.get (mccc 2) (init ℤ).raw) ≡ true) × (state (init ℤ) ≡ err type_error))
    ⊎ ((is_short (Dict.get (mccc 2) (init ℤ).raw) ≡ false)
        × ((st : CoolerState ℤ) × (l : Lists ℤ) × (state (init ℤ) ≡ ok st)
            × HasLists (init ℤ).values l
            × (compartment st 0
                ≡ (if ltb 0 (length st.compartments) then some (compartment_at l 0) else none))))
session_state_outcome_example = session_state_outcome (init ℤ) 0 (init-IsConsistent ℤ)

two_errors : joined_error_text (16 ∷ 3 ∷ []) ≡ codes "DC input undervoltage; Unknown error 3"
unfolding joined_error_text error_text error_texts decimal Dict.get
two_errors = refl
