-- ===== src/Cli/Print.antt =====
-- What the commands of src/ddmp/__main__.py print. `repr`, `str` of an exception, `json.dumps` and the
-- clock are parameters.
pub mod Finds
use dometic_ddmp.Base.{
  ℕ, zero, suc, ◌-◌, ℤ, pos, negsuc, Bool, true, false, Option, none, some, List, [], ◌∷◌, ◌++◌,
  map, length, if◌then◌else◌,
}
use dometic_ddmp.Bytes.{Bytes}
use dometic_ddmp.Result.{Result, Error, ok, err}
use dometic_ddmp.Text.{Text, codes}
use dometic_ddmp.Text.Hex.{hex2, join_hex}
use dometic_ddmp.Address
use dometic_ddmp.Frame
use dometic_ddmp.Frame.{Frame}
use dometic_ddmp.Enums.{member_name}
use dometic_ddmp.Value.{bytes, member, Value, one, Floats}
use dometic_ddmp.Topic.{Topic, writable}
use dometic_ddmp.Expectation.{Event, publish, nak, unhandled, Publish, WriteExpectation, name}
use dometic_ddmp.CoolerState.{decimal}
use dometic_ddmp.SyncClient.{Call, event, close}
use dometic_ddmp.Base.Dict.{Dict}
use dometic_ddmp.Mdns.Collector.{MdnsService, sorted_texts}
use dometic_ddmp.Discovery.{DdmdReply, Discovered}
use dometic_ddmp.Cli.{poll}

-- A line on the standard output, or on the standard error.
pub data Line : Type 0 where
  out complain : Text → Line

-- `str(n)`
abbrev pub decimal_int : ℤ → Text
decimal_int (pos n) = decimal (suc n) n
decimal_int (negsuc n) = b'-' ∷ decimal (suc (suc n)) (suc n)

-- `f"{s:14s}"`, and the other widths.
abbrev pub spaces : ℕ → Text
spaces zero = []
spaces (suc n) = 32 ∷ spaces n

unfoldable pub pad : ℕ → Text → Text
pad width s = s ++ spaces (width - length s)

-- `raw.hex()`
unfoldable pub hex : Bytes → Text
hex [] = []
hex (b ∷ raw) = hex2 b'a' b ++ hex raw

-- `sep.join(texts)`
unfoldable pub join : Text → List Text → Text
join sep [] = []
join sep (t ∷ []) = t
join sep (t ∷ u ∷ ts) = t ++ sep ++ join sep (u ∷ ts)

-- What stands behind a key of the object that `_print_event` dumps.
pub data Field (F : Type 0) : Type 0 where
  text : Text → Field F
  value : Value F → Field F

-- The parameters: `repr` of a value and of bytes, `str` of an exception, and `json.dumps` of an object.
pub record Format (F : Type 0) : Type 0 where
  pub repr : Value F → Text
  pub repr_bytes : Bytes → Text
  pub str_error : Error → Text
  pub dumps : List (Text × Field F) → Text

module _ {F : Type 0} (format : Format F) where
  -- `_fmt_value`, of a value and of what may be `None`.
  unfoldable pub fmt_value : Value F → Text
  fmt_value (one (member cls n)) = elim (member_name cls n) [
    | some t ↦ t ++ codes " (" ++ decimal_int n ++ codes ")"
    | none ↦ format.repr (one (member cls n))
  ]
  fmt_value (one (bytes raw)) = join_hex b'a' 32 raw
  fmt_value v = format.repr v

  unfoldable pub fmt_observed : Option (Value F) → Text
  fmt_observed none = codes "None"
  fmt_observed (some v) = fmt_value v

  -- `line += ...`, with `--raw`.
  abbrev pub with_raw : Bool → Publish F → Text → Text
  with_raw raw p line =
      if raw
      then line
        ++ codes "    ["
        ++ Address.show p.address
        ++ codes " "
        ++ join_hex b'a' 32 p.raw
        ++ codes "]"
      else line

  -- `_print_event`, at a time.
  unfoldable pub event_line : Text → Bool → Bool → Event F → Text
  event_line stamp raw true (publish p) = format.dumps (
      (codes "t", text stamp)
      ∷ (codes "topic", text (name p))
      ∷ (codes "address", text (Address.show p.address))
      ∷ (codes "value", value p.value)
      ∷ (codes "raw", text (hex p.raw))
      ∷ [])
  event_line stamp raw false (publish p) =
      with_raw raw p (stamp ++ codes "  " ++ pad 14 (name p) ++ codes " = " ++ fmt_value p.value)
  event_line stamp raw as_json (nak a payload) =
      stamp ++ codes "  NAK " ++ Address.show a ++ codes " " ++ join_hex b'a' 32 payload
  event_line stamp raw as_json (unhandled f) = stamp ++ codes "  ?? " ++ Frame.show f

  -- `on_close` of `_connect`.
  unfoldable pub close_lines : Option Error → List Line
  close_lines none = []
  close_lines (some x) = complain (codes "connection closed: " ++ format.str_error x) ∷ []

  -- What one callback of `watch` prints.
  unfoldable pub call_lines : Text → Bool → Bool → Call F → List Line
  call_lines stamp raw as_json (event e) = out (event_line stamp raw as_json e) ∷ []
  call_lines stamp raw as_json (close reason) = close_lines reason

  -- The callbacks one after the other, each at its time.
  unfoldable pub print_calls : (ℕ → Text) → ℕ → Bool → Bool → List (Call F) → List Line
  print_calls clock i raw as_json [] = []
  print_calls clock i raw as_json (call ∷ calls) =
      call_lines (clock i) raw as_json call ++ print_calls clock (suc i) raw as_json calls

  -- What `_write` prints of the frame, and at its end for the exit codes 0, 3 and 4.
  unfoldable pub frame_line : Frame → Bytes → Line
  frame_line f line =
      complain (codes "frame: " ++ Frame.show f ++ codes "    line: " ++ format.repr_bytes line)

  unfoldable pub dry_run_line : Line
  dry_run_line = complain (codes "dry run: pass --yes to send")

  unfoldable pub verdict_line : Text → Text → WriteExpectation F → ℕ → Line
  verdict_line topic_name echo_timeout e zero =
      out (codes "confirmed: " ++ topic_name ++ codes " = " ++ fmt_observed e.observed)
  verdict_line topic_name echo_timeout e (suc (suc (suc zero))) =
      complain (codes "REFUSED: the cooler answered NAK")
  verdict_line topic_name echo_timeout e code = complain (
      codes "NOT CONFIRMED within "
      ++ echo_timeout
      ++ codes "s; cooler reports "
      ++ fmt_observed e.observed)

  -- What `main` prints of an exception that a command ends in.
  unfoldable pub error_lines : Result ℕ → List Line
  error_lines (ok code) = []
  error_lines (err x) = complain (codes "error: " ++ format.str_error x) ∷ []

-- What `cmd_watch` prints before it waits.
unfoldable pub connected_line : Text → ℕ → Line
connected_line host port = complain (
    codes "connected to "
    ++ host
    ++ codes ":"
    ++ decimal (suc port) port
    ++ codes "; Ctrl-C to stop")

-- What `_write` prints behind the SET that it has sent.
module _ {F : Type 0} ⦃fl : Floats F⦄ (format : Format F) where
  unfoldable pub poll_output : Text → Text → WriteExpectation F → List (List (Event F)) → List Line
  poll_output topic_name echo_timeout e rounds =
      let (e', answer) = poll e rounds in
      elim answer [
        | ok code ↦ verdict_line format topic_name echo_timeout e' code ∷ []
        | err x ↦ []
      ]

-- What `cmd_set` prints of a topic that may not be written.
unfoldable pub not_writable_line : Topic → Line
not_writable_line t = complain (
    codes t.name
    ++ codes " is not writable (allowed: "
    ++ join (codes ", ") (sorted_texts (map codes writable))
    ++ codes ")")
