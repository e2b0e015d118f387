-- ===== src/Cli/Readable.antt =====
-- What the lines of `_print_event` in src/ddmp/__main__.py say of an event, and that they can be read.
use dometic_ddmp.Base.{
  ℕ, ℤ, ◌+◌, ◌-◌, ◌<◌, ◌≤◌, ◌≡◌, refl, sym, ◌∙◌, ◌⊎◌, Bool, true, false, inl, inr, Option, none,
  some, [], ◌∷◌, ◌++◌, length, append_assoc, append-nil, Option-cases, arith,
}
use dometic_ddmp.Bytes.{Bytes, IsBytes}
use dometic_ddmp.Result.{ok}
use dometic_ddmp.Text.{Text, codes}
use dometic_ddmp.Text.Hex.{hex2, hex2-byte, from_hex, from_hex-hex2, join_hex}
use dometic_ddmp.Text.Compact.{from_hex-spaced, from_hex_space}
use dometic_ddmp.Action
use dometic_ddmp.Action.{Action}
use dometic_ddmp.Address
use dometic_ddmp.Address.{Address}
use dometic_ddmp.Address.Laws.{parse-show}
use dometic_ddmp.Frame
use dometic_ddmp.Frame.{Frame, IsByteFrame}
use dometic_ddmp.Enums.{EnumClass, member_name}
use dometic_ddmp.Value.{int, bool, float, str, bytes, member, Value, one, many}
use dometic_ddmp.Topic.{Topic}
use dometic_ddmp.Expectation.{Event, Publish, publish, nak, unhandled, name}
use dometic_ddmp.Session.Ranged.{IsByteEvent, IsByteValue}
use dometic_ddmp.Cli.Print.{
  Format, text, value, spaces, pad, hex, decimal_int, fmt_value, event_line,
}

-- A text that names a topic: the topic's name, or, for an address without one, the address.
abbrev pub Names : Text → Option Topic → Address → Type 0
Names t none a = Address.parse t ≡ ok a
Names t (some topic) a = t ≡ codes topic.name

-- A text for the code of an action: the name of the action with the code, or `0x` and the code in
-- hexadecimal.
abbrev pub NamesAction : Text → ℕ → Type 0
NamesAction t n =
    ((a : Action) × (Action.code a ≡ n) × (t ≡ Action.name a))
    ⊎ ((digits : Text) × (t ≡ codes "0x" ++ digits) × (from_hex digits ≡ ok (n ∷ [])))

-- An address and a payload, as texts that `Address.parse` and `bytes.fromhex` read back.
abbrev pub Reads : Text → Text → Address → Bytes → Type 0
Reads shown digits a raw = (Address.parse shown ≡ ok a) × (from_hex digits ≡ ok raw)

module _ {F : Type 0} (format : Format F) (stamp : Text) where
  -- A number of an enumeration, with its name.
  abbrev pub ShowsMember : EnumClass → ℤ → Option Text → Text → Type 0
  ShowsMember cls n (some known) t = t ≡ known ++ codes " (" ++ decimal_int n ++ codes ")"
  ShowsMember cls n none t = t ≡ format.repr (one (member cls n))

  -- A value, as it is written on a line: bytes as a text that `bytes.fromhex` reads back, a member of an
  -- enumeration by its name and number, and any other value by its `repr`.
  abbrev pub Shows : Value F → Text → Type 0
  Shows (one (bytes raw)) t = from_hex t ≡ ok raw
  Shows (one (member cls n)) t = ShowsMember cls n (member_name cls n) t
  Shows v t = t ≡ format.repr v

  -- Behind the value, with `--raw`: the address and the payload in brackets.
  abbrev pub IsTail : Bool → Publish F → Text → Type 0
  IsTail false p tail = tail ≡ []
  IsTail true p tail =
      (shown digits : Text) × (tail ≡ codes "    [" ++ shown ++ codes " " ++ digits ++ codes "]")
      × Reads shown digits p.address p.raw

  -- A publish on a line: the time, the topic's name, filled up to fourteen characters, the value, and
  -- the tail.
  abbrev pub IsPublishLine : Bool → Publish F → Text → Type 0
  IsPublishLine raw p line =
      (label shown tail : Text) × (blanks : ℕ) × Names label p.topic p.address
      × (14 ≤ length label + blanks)
      × Shows p.value shown
      × (line ≡ (stamp ++ codes "  " ++ (label ++ spaces blanks) ++ codes " = " ++ shown) ++ tail)
      × IsTail raw p tail

  -- A publish as JSON: the time, the topic's name, the address, the value and the payload.
  abbrev pub IsPublishObject : Publish F → Text → Type 0
  IsPublishObject p line =
      (label shown digits : Text) × Names label p.topic p.address
      × Reads shown digits p.address p.raw
      × (line
          ≡ format.dumps (
              (codes "t", text stamp)
              ∷ (codes "topic", text label)
              ∷ (codes "address", text shown)
              ∷ (codes "value", value p.value)
              ∷ (codes "raw", text digits)
              ∷ []))

  -- What a line says of an event, with `--raw` and with `--json`.
  abbrev pub Tells : Bool → Bool → Event F → Text → Type 0
  Tells raw true (publish p) line = IsPublishObject p line
  Tells raw false (publish p) line = IsPublishLine raw p line
  Tells raw as_json (nak a payload) line =
      (shown digits : Text) × (line ≡ stamp ++ codes "  NAK " ++ shown ++ codes " " ++ digits)
      × Reads shown digits a payload
  Tells raw as_json (unhandled f) line =
      (kind shown digits : Text) × (line
        ≡ stamp ++ codes "  ?? " ++ kind ++ codes " " ++ shown ++ digits)
      × NamesAction kind f.action
      × Reads shown digits f.address f.payload

from_hex-hex : (raw : Bytes) → IsBytes raw → from_hex (hex raw) ≡ ok raw
unfolding hex
from_hex-hex [] h = unfold from_hex in refl
from_hex-hex (b ∷ raw) h =
    rw (hex2-byte b'a' b h.0, from_hex-hex2 b'a' b (hex raw) (inr refl) h.0, from_hex-hex raw h.1)

name-Names :
    {F : Type 0}
    → (p : Publish F) → Address.IsByteAddress p.address
    → Names (name p) p.topic p.address
unfolding name
name-Names p h = elim (Option-cases p.topic) [
  | inl e ↦ rw (name, e) (parse-show p.address h)
  | inr (t, e) ↦ rw (name, e) refl
]

code-of_code : (n : ℕ) (a : Action) → Action.of_code n ≡ some a → Action.code a ≡ n
unfolding Action.of_code
code-of_code n a h = ground arith

action_name-NamesAction : (f : Frame) → f.action < 256 → NamesAction (Frame.action_name f) f.action
unfolding Frame.action_name
action_name-NamesAction f h = elim (Option-cases (Action.of_code f.action)) [
  | inl e ↦
      rw (Frame.action_name, e)
        (inr (
          hex2 b'A' f.action,
          refl,
          rw (hex2-byte b'A' f.action h, from_hex-hex2 b'A' f.action [] (inl refl) h)
              (unfold from_hex in refl),
        ))
  | inr (a, e) ↦ rw (Frame.action_name, e) (inl (a, code-of_code f.action a e, refl))
]

-- The payload at the end of `Frame.__str__`.
abbrev payload_text : Bytes → Text
payload_text raw = elim raw [ [] ↦ [] | b ∷ bs ↦ 32 ∷ join_hex b'A' 32 (b ∷ bs) ]

payload_text_reads : (raw : Bytes) → IsBytes raw → from_hex (payload_text raw) ≡ ok raw
payload_text_reads [] h = unfold from_hex in refl
payload_text_reads (b ∷ raw) h =
    from_hex_space b'A' b raw h.0 ∙ from_hex-spaced b'A' (b ∷ raw) (inl refl) h

reads_lem :
    (a : Address) (raw : Bytes) (digits : Text)
    → Address.IsByteAddress a
    → from_hex digits ≡ ok raw
    → Reads (Address.show a) digits a raw
reads_lem a raw digits h e = (parse-show a h, e)

module _ {F : Type 0} (format : Format F) (stamp : Text) where
  member-ShowsMember :
      (cls : EnumClass) (n : ℤ) (o : Option Text)
      → ShowsMember format stamp cls n o (elim o [
        | some known ↦ known ++ codes " (" ++ decimal_int n ++ codes ")"
        | none ↦ format.repr (one (member cls n))
      ])
  member-ShowsMember cls n none = refl
  member-ShowsMember cls n (some known) = refl

  fmt_value-Shows : (v : Value F) → IsByteValue v → Shows format stamp v (fmt_value format v)
  unfolding fmt_value
  fmt_value-Shows (one (bytes raw)) h = from_hex-spaced b'a' raw (inr refl) h
  fmt_value-Shows (one (member cls n)) h = member-ShowsMember cls n (member_name cls n)
  fmt_value-Shows (one (int n)) h = refl
  fmt_value-Shows (one (bool b)) h = refl
  fmt_value-Shows (one (float x)) h = refl
  fmt_value-Shows (one (str t)) h = refl
  fmt_value-Shows (many xs) h = refl

  event_line-IsPublishLine :
      (raw : Bool) (p : Publish F)
      → IsByteEvent (publish p)
      → IsPublishLine format stamp raw p (event_line format stamp raw false (publish p))
  unfolding event_line pad
  event_line-IsPublishLine false p h = (
    name p,
    fmt_value format p.value,
    [],
    14 - length (name p),
    name-Names p h.0,
    omega arith,
    fmt_value-Shows p.value h.2,
    sym (append-nil _),
    refl,
  )
  event_line-IsPublishLine true p h = (
    name p,
    fmt_value format p.value,
    _,
    14 - length (name p),
    name-Names p h.0,
    omega arith,
    fmt_value-Shows p.value h.2,
    simp append_assoc,
    (
      Address.show p.address,
      join_hex b'a' 32 p.raw,
      refl,
      reads_lem p.address p.raw _ h.0 (from_hex-spaced b'a' p.raw (inr refl) h.1),
    ),
  )

  -- The line of an event of bytes says what the event is.
  pub event_line-Tells :
      (raw as_json : Bool) (e : Event F)
      → IsByteEvent e
      → Tells format stamp raw as_json e (event_line format stamp raw as_json e)
  unfolding event_line Frame.show
  event_line-Tells raw true (publish p) h = (
    name p,
    Address.show p.address,
    hex p.raw,
    name-Names p h.0,
    reads_lem p.address p.raw _ h.0 (from_hex-hex p.raw h.1),
    refl,
  )
  event_line-Tells raw false (publish p) h = event_line-IsPublishLine raw p h
  event_line-Tells raw as_json (nak a payload) h = (
    Address.show a,
    join_hex b'a' 32 payload,
    refl,
    reads_lem a payload _ h.0 (from_hex-spaced b'a' payload (inr refl) h.1),
  )
  event_line-Tells raw as_json (unhandled f) h = (
    Frame.action_name f,
    Address.show f.address,
    payload_text f.payload,
    simp append_assoc,
    action_name-NamesAction f h.action,
    reads_lem f.address f.payload _ h.address (payload_text_reads f.payload h.payload),
  )
