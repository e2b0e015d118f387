-- ===== src/Session.antt =====
-- `Session` of src/ddmp/session.py: bytes in, events out, frames to send.
pub mod Inbound
pub mod Memory
pub mod Consistent
pub mod Outbound
pub mod Echo
pub mod EchoSingle
pub mod Confirm
pub mod State
pub mod Typed
pub mod Ranged
pub mod Arrays
pub mod Others
pub mod Limits
use dometic_ddmp.Base.{
  ℕ, suc, ℤ, pos, negsuc, leb_ℤ, ◌⊎◌, inl, inr, String, Bool, true, false, not, ◌&&◌, ◌||◌, Option,
  none, some, List, [], ◌∷◌, map, length, set, get_elem?, member, same, text_eq, string_eq, ltb,
  leb, ◌==◌, beq_ℤ, if◌then◌else◌,
}
use dometic_ddmp.Base.Dict
use dometic_ddmp.Base.Dict.{Dict}
use dometic_ddmp.Bytes.{Bytes, strip}
use dometic_ddmp.Result.{
  Result, ok, err, value_error, type_error, state_unknown, ◌>>=◌, ◌>>◌, guard,
}
use dometic_ddmp.Text.{Text, codes, is_space, lower}
use dometic_ddmp.Action
use dometic_ddmp.Address.{Address, address_eq}
use dometic_ddmp.Frame.{Frame}
use dometic_ddmp.LineDecoder
use dometic_ddmp.LineDecoder.{LineDecoder}
use dometic_ddmp.Value.{
  Atom, int, bool, float, str, bytes, member as member_of, Item, atom, pair, Value, one, many,
  Floats, truthy, float_atom, as_atom, items, len, unpack,
}
use dometic_ddmp.Codec
use dometic_ddmp.Codec.{Codec}
use dometic_ddmp.Topic.{Topic, TopicRef, topic_by_address, subscribe_topics, assert_writable}
use dometic_ddmp.CoolerState.{CoolerState, from_values}
use dometic_ddmp.Expectation.{Publish, Event, publish, nak, unhandled, WriteExpectation}

pub record Session (F : Type 0) : Type 0 where
  pub topics : List Topic
  pub values : Dict String (Value F)
  pub raw : Dict Address Bytes
  pub decoder : LineDecoder

-- `Session()`
unfoldable pub init : (F : Type 0) → Session F
init F = record { topics = subscribe_topics; values = []; raw = []; decoder = LineDecoder.init }

-- Does the first text begin with the second?
abbrev starts_with : Text → Text → Bool
starts_with s [] = true
starts_with [] (c ∷ p) = false
starts_with (d ∷ s) (c ∷ p) = c == d && starts_with s p

-- `0 if compartment is None else compartment`, within the `count` compartments.
unfoldable pub compartment_index : Option ℤ → ℕ → Result ℕ
compartment_index none count = if ltb 0 count then ok 0 else err value_error
compartment_index (some (pos i)) count = if ltb i count then ok i else err value_error
compartment_index (some (negsuc i)) count = err value_error

-- `compartment in (None, 0)`
unfoldable pub is_first : Option ℤ → Bool
is_first none = true
is_first (some n) = beq_ℤ n (pos 0)

unfoldable pub is_true_word : Text → Bool
is_true_word t =
    member (lower (strip is_space t)) (codes "1" ∷ codes "true" ∷ codes "on" ∷ codes "yes" ∷ [])

module _ {F : Type 0} where
  -- `value`
  unfoldable pub value : Session F → String → Option (Value F)
  value s name = Dict.get name s.values

  -- `subscribe_frames`
  unfoldable pub subscribe_frames : Session F → List Frame
  subscribe_frames s =
      map (λ t. record { action = Action.code Action.subscribe; address = t.address; payload = [] })
        s.topics

  -- `dropped`
  abbrev pub dropped : Session F → ℕ
  dropped s = s.decoder.dropped

module _ {F : Type 0} ⦃fl : Floats F⦄ where
  -- The value of a payload, or the payload itself where it cannot be decoded: the code catches
  -- `DecodeError`, and `decode` raises no other exception (Codec/Refusal).
  unfoldable pub decoded : Topic → Bytes → Value F
  decoded t payload = elim (Codec.decode t.codec payload) [ ok v ↦ v | err _ ↦ one (bytes payload) ]

  abbrev pub remember : Option Topic → Value F → Dict String (Value F) → Dict String (Value F)
  remember none v values = values
  remember (some t) v values = Dict.put t.name v values

  abbrev pub value_of : Option Topic → Bytes → Value F
  value_of none payload = one (bytes payload)
  value_of (some t) payload = decoded t payload

  -- `_publish`
  unfoldable pub on_publish : Session F → Frame → Publish F × Session F
  on_publish s f =
      let tp = Dict.get f.address topic_by_address in
      let v = value_of tp f.payload in
      (
        record { address = f.address; topic = tp; value = v; raw = f.payload },
        record s { values = remember tp v s.values; raw = Dict.put f.address f.payload s.raw },
      )

  -- One round of the loop of `feed`.
  unfoldable pub on_frame : Session F → Frame → Event F × Session F
  on_frame s f =
      if f.action == Action.code Action.publish
      then (let (p, s') = on_publish s f in (publish p, s'))
      else if f.action == Action.code Action.nak
      then (nak f.address f.payload, s)
      else (unhandled f, s)

  unfoldable pub on_frames : Session F → List Frame → List (Event F) × Session F
  on_frames s [] = ([], s)
  on_frames s (f ∷ fs) =
      let (event, s') = on_frame s f in let (events, s'') = on_frames s' fs in (event ∷ events, s'')

  unfoldable pub feed : Session F → Bytes → List (Event F) × Session F
  feed s chunk =
      let (frames, d) = LineDecoder.feed s.decoder chunk in
      on_frames (record s { decoder = d }) frames

  -- `_coerce`
  unfoldable pub coerce_flag : Value F → Value F
  coerce_flag (one (str t)) = one (bool (is_true_word t))
  coerce_flag v = one (bool (truthy v))

  unfoldable pub coerce : Topic → Value F → Result (Value F)
  coerce t v =
      let kind = Codec.kind t.codec in
      if member kind (codes "bool" ∷ codes "bool[]" ∷ [])
      then ok (coerce_flag v)
      else if member kind (codes "milli" ∷ codes "milli[]" ∷ [])
      then (do a ← as_atom v; x ← float_atom a; ok (one (float x)))
      else if same kind (codes "enum")
      then (do payload ← Codec.encode t.codec v; Codec.decode t.codec payload)
      else ok v

  -- A number, for an order with another; a flag and a member count as integers.
  abbrev number : Atom F → Option (ℤ ⊎ F)
  number (int n) = some (inl n)
  number (bool true) = some (inl (pos 1))
  number (bool false) = some (inl (pos 0))
  number (float x) = some (inr x)
  number (member_of cls n) = some (inl n)
  number a = none

  -- `a <= b`; texts and bytes have no order with the set-point, which is a number.
  unfoldable pub not_above : Atom F → Atom F → Result Bool
  not_above a b = elim (number a) [
    | none ↦ err type_error
    | some (inl m) ↦ elim (number b) [
      | none ↦ err type_error
      | some (inl n) ↦ ok (leb_ℤ m n)
      | some (inr y) ↦ ok (fl.le_int_float m y)
    ]
    | some (inr x) ↦ elim (number b) [
      | none ↦ err type_error
      | some (inl n) ↦ ok (fl.le_float_int x n)
      | some (inr y) ↦ ok (fl.le x y)
    ]
  ]

  -- `self.values.get(name) or []`
  unfoldable pub list_or_nil : Option (Value F) → Result (List (Item F))
  list_or_nil none = ok []
  list_or_nil (some v) = if truthy v then items v else ok []

  abbrev within_range : Option (Item F) → Atom F → Result (Unit {0})
  within_range none setpoint = ok tt
  within_range (some range) setpoint = do
    (lo, hi) ← unpack range
    above ← not_above lo setpoint
    inside ← if above then not_above setpoint hi else ok false
    guard inside value_error

  -- `_check_range`
  unfoldable pub check_range : Session F → ℕ → Atom F → Result (Unit {0})
  unfolding not_above list_or_nil
  check_range s idx setpoint = do
    ranges ← list_or_nil (Dict.get "ctemprng" s.values)
    within_range (get_elem? ranges idx) setpoint

  -- The published value of a per-compartment topic; an empty one counts as none.
  unfoldable pub current_value : Option (Value F) → Result (Value F)
  current_value none = err state_unknown
  current_value (some v) = if truthy v then ok v else err state_unknown

  unfoldable pub tolerance_of : Topic → F
  tolerance_of t =
      if starts_with (Codec.kind t.codec) (codes "milli")
      then fl.milli_tolerance
      else fl.zero_tolerance

  abbrev pub reply : Topic → Bytes → Value F → Frame × WriteExpectation F
  reply t payload expected = (
    record { action = Action.code Action.set; address = t.address; payload = payload },
    record { topic = t; expected = expected; tolerance = tolerance_of t; observed = none },
  )

  -- The branch of `set_frame` for a topic with a value for each compartment. A list inside a list
  -- has no place in the model: `_coerce` gives none for the topics of the table.
  unfoldable pub set_compartment :
      Session F → Topic → Value F → Option ℤ → Result (Frame × WriteExpectation F)
  set_compartment s t v compartment = do
    current ← current_value (Dict.get t.name s.values)
    count ← len current
    idx ← compartment_index compartment count
    xs ← items current
    coerced ← coerce t v
    x ← as_atom coerced
    (if string_eq.beq t.name "csettemp" then check_range s idx x else ok tt)
    payload ← Codec.encode t.codec (many (set xs idx (atom x)))
    ok (reply t payload (many (set xs idx (atom x))))

  -- The branch for a topic with one value.
  unfoldable pub set_single : Topic → Value F → Option ℤ → Result (Frame × WriteExpectation F)
  set_single t v compartment = do
    guard (is_first compartment) value_error
    coerced ← coerce t v
    payload ← Codec.encode t.codec coerced
    expected ← Codec.decode t.codec payload
    ok (reply t payload expected)

  -- `set_frame`
  unfoldable pub set_frame :
      Session F → TopicRef → Value F → Option ℤ → Result (Frame × WriteExpectation F)
  set_frame s ref v compartment = do
    t ← assert_writable ref
    if t.per_compartment then set_compartment s t v compartment else set_single t v compartment

  -- `state`
  unfoldable pub state : Session F → Result (CoolerState F)
  state s = from_values s.values
