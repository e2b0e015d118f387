-- ===== src/CoolerState.antt =====
-- `CoolerState` of src/ddmp/models.py: the latest published values, and a part for each compartment.
pub mod Fill
pub mod Compartments
use dometic_ddmp.Base.{
  ℕ, zero, suc, ◌+◌, ◌/◌, ◌%◌, ltb, ℤ, pos, negsuc, String, string_eq, nat_eq, Bool, true, false,
  Option, none, some, List, [], ◌∷◌, ◌++◌, map, length, get_elem?, set, if◌then◌else◌,
}
use dometic_ddmp.Base.Dict
use dometic_ddmp.Base.Dict.{Dict}
use dometic_ddmp.Result.{Result, ok, err, type_error, ◌>>=◌}
use dometic_ddmp.Text.{Text, codes}
use dometic_ddmp.Value.{
  Atom, int, bool, float, str, bytes, member, Item, atom, Value, one, many, Floats, truthy, items,
  len,
}

-- `ERROR_TEXT`
unfoldable pub error_texts : Dict ℕ String
error_texts =
    (16, "DC input undervoltage")
    ∷ (17, "DC input overvoltage")
    ∷ (23, "Door has been opened too long")
    ∷ (26, "Faulty solenoid valve")
    ∷ (27, "Temperature out of range")
    ∷ (512, "Compressor fan over current")
    ∷ (513, "Compressor didn't start")
    ∷ (514, "Compressor speed low")
    ∷ (515, "Compressor over temperature")
    ∷ (516, "Compressor fan speed low")
    ∷ (517, "NTC sensor open circuit (compartment 1)")
    ∷ (518, "NTC sensor short circuit (compartment 1)")
    ∷ (519, "NTC sensor open circuit (compartment 2)")
    ∷ (520, "NTC sensor short circuit (compartment 2)")
    ∷ (521, "NTC sensor open circuit (compartment 3)")
    ∷ (522, "NTC sensor short circuit (compartment 3)")
    ∷ (523, "Temperature out of range")
    ∷ (524, "Controller over temperature")
    ∷ []

-- The decimal digits of a number; a number has fewer digits than the fuel `suc n`.
unfoldable pub decimal : ℕ → ℕ → Text
decimal zero n = []
decimal (suc fuel) n =
    let front = decimal fuel (n / 10) in
    if ltb n 10 then (48 + n) ∷ [] else front ++ (48 + n % 10) ∷ []

-- `error_text`
unfoldable pub error_text : ℕ → Text
error_text code = elim (Dict.get code error_texts) [
  | some text ↦ codes text
  | none ↦ codes "Unknown error " ++ decimal (suc code) code
]

-- `CoolerState.error_text`, of codes that are natural numbers, as the codec of
-- the error topic gives them.
unfoldable pub joined_error_text : List ℕ → Text
joined_error_text [] = []
joined_error_text (code ∷ []) = error_text code
joined_error_text (code ∷ next ∷ rest) =
    error_text code ++ codes "; " ++ joined_error_text (next ∷ rest)

pub record Compartment (F : Type 0) : Type 0 where
  pub index : ℕ
  pub powered : Option (Item F)
  pub temperature_c : Option (Item F)
  pub setpoint_c : Option (Item F)
  pub door_open : Option (Item F)
  pub range_c : Option (Item F)
  pub recommended_range_c : Option (Item F)
  pub offset_c : Option (Item F)

pub record CoolerState (F : Type 0) : Type 0 where
  pub product_name : Option (Value F)
  pub product_type : Option (Value F)
  pub compartment_count : Option (Value F)
  pub serial : Option (Value F)
  pub article : Option (Value F)
  pub cms_sku : Option (Value F)
  pub firmware : Option (Value F)
  pub firmware_id : Option (Value F)
  pub controller_firmware : Option (Value F)
  pub mac : Option (Value F)
  pub compartments : List (Compartment F)
  pub active_compartment : Option (Value F)
  pub cooler_on : Option (Value F)
  pub compressor_on : Option (Value F)
  pub voltage_v : Option (Value F)
  pub current_a : Option (Value F)
  pub power_source : Option (Value F)
  pub battery_protection : Option (Value F)
  pub ice_maker_on : Option (Value F)
  pub error_codes : List (Item F)

-- `max(m, n)`
abbrev pub larger : ℕ → ℕ → ℕ
larger m n = if ltb m n then n else m

abbrev pub larger_int : ℕ → ℤ → ℕ
larger_int m (pos n) = larger m n
larger_int m (negsuc n) = m

-- The dictionary `arrays`, with a setter for each attribute.
abbrev pub Arrays : Type 0 → Type 0
Arrays F = List ((Item F → Compartment F → Compartment F) × Value F)

module _ {F : Type 0} where
  -- `Compartment(i)`
  abbrev pub blank : ℕ → Compartment F
  blank i = record {
    index = i;
    powered = none;
    temperature_c = none;
    setpoint_c = none;
    door_open = none;
    range_c = none;
    recommended_range_c = none;
    offset_c = none;
  }

  -- `[Compartment(i) for i in range(i, i + count)]`
  unfoldable pub blanks : ℕ → ℕ → List (Compartment F)
  blanks i zero = []
  blanks i (suc count) = blank i ∷ blanks (suc i) count

  -- `compartment`, for an index that is no negative number.
  unfoldable pub compartment : CoolerState F → ℕ → Option (Compartment F)
  compartment s index =
      if ltb index (length s.compartments) then get_elem? s.compartments index else none

  -- `setattr(s.compartments[i], attr, v)`
  abbrev pub modify :
      List (Compartment F) → ℕ → (Compartment F → Compartment F) → List (Compartment F)
  modify [] i f = []
  modify (c ∷ cs) zero f = f c ∷ cs
  modify (c ∷ cs) (suc i) f = c ∷ modify cs i f

  -- The inner loop, from the index `i`.
  unfoldable pub fill :
      (Item F → Compartment F → Compartment F)
      → ℕ
      → ℕ
      → List (Item F)
      → List (Compartment F)
      → List (Compartment F)
  fill setattr count i [] cs = cs
  fill setattr count i (v ∷ vs) cs =
      fill setattr count (suc i) vs (if ltb i count then modify cs i (setattr v) else cs)

  -- The outer loop.
  unfoldable pub fill_all : ℕ → Arrays F → List (Compartment F) → Result (List (Compartment F))
  fill_all count [] cs = ok cs
  fill_all count ((setattr, v) ∷ rest) cs = do
    vs ← items v
    fill_all count rest (fill setattr count 0 vs cs)

  -- `max([len(v) for v in arrays.values()])`
  unfoldable pub longest : Arrays F → Result ℕ
  longest [] = ok 0
  longest ((setattr, v) ∷ rest) = do n ← len v; m ← longest rest; ok (larger n m)

module _ {F : Type 0} ⦃fl : Floats F⦄ where
  -- `values.get(name) or []`
  unfoldable pub or_nil : Option (Value F) → Value F
  or_nil none = many []
  or_nil (some v) = if truthy v then v else many []

  -- `tuple(errs) if errs else ()`
  unfoldable pub error_codes_of : Option (Value F) → Result (List (Item F))
  error_codes_of none = ok []
  error_codes_of (some v) = if truthy v then items v else ok []

  -- `max(...)` of the lengths so far and a compartment count that is not zero. Texts, bytes and lists
  -- have no order with numbers, and `range` takes no float.
  unfoldable pub with_count : ℕ → Value F → Result ℕ
  with_count m (one (int n)) = ok (larger_int m n)
  with_count m (one (bool true)) = ok (larger m 1)
  with_count m (one (bool false)) = ok m
  with_count m (one (member cls n)) = ok (larger_int m n)
  with_count m (one (float x)) = if fl.lt_int_float (pos m) x then err type_error else ok m
  with_count m (one (str t)) = err type_error
  with_count m (one (bytes raw)) = err type_error
  with_count m (many xs) = err type_error

  unfoldable pub count_of : ℕ → Option (Value F) → Result ℕ
  unfolding with_count
  count_of m none = ok m
  count_of m (some v) = if truthy v then with_count m v else ok m

  unfoldable pub arrays_of : Dict String (Value F) → Arrays F
  arrays_of values =
      (λ v c. record c { powered = some v }, or_nil (Dict.get "cpow" values))
      ∷ (λ v c. record c { temperature_c = some v }, or_nil (Dict.get "ctemp" values))
      ∷ (λ v c. record c { setpoint_c = some v }, or_nil (Dict.get "csettemp" values))
      ∷ (λ v c. record c { door_open = some v }, or_nil (Dict.get "cdoor" values))
      ∷ (λ v c. record c { range_c = some v }, or_nil (Dict.get "ctemprng" values))
      ∷ (λ v c. record c { recommended_range_c = some v }, or_nil (Dict.get "crecdrng" values))
      ∷ (λ v c. record c { offset_c = some v }, or_nil (Dict.get "ctempofs" values))
      ∷ []

  abbrev pub state_of : Dict String (Value F) → List (Item F) → List (Compartment F) → CoolerState F
  state_of values errors compartments = record {
    product_name = Dict.get "product_name" values;
    product_type = Dict.get "ptype" values;
    compartment_count = Dict.get "nocpt" values;
    serial = Dict.get "sn" values;
    article = Dict.get "sku" values;
    cms_sku = Dict.get "cms_sku" values;
    firmware = Dict.get "gw_fwver" values;
    firmware_id = Dict.get "cfg_fwid" values;
    controller_firmware = Dict.get "fwver" values;
    mac = Dict.get "gw_mac" values;
    compartments = compartments;
    active_compartment = Dict.get "acpt" values;
    cooler_on = Dict.get "coolerpow" values;
    compressor_on = Dict.get "comppow" values;
    voltage_v = Dict.get "v" values;
    current_a = Dict.get "i" values;
    power_source = Dict.get "powsrc" values;
    battery_protection = Dict.get "batprotlvl" values;
    ice_maker_on = Dict.get "icepow" values;
    error_codes = errors;
  }

  -- `from_values`
  unfoldable pub from_values : Dict String (Value F) → Result (CoolerState F)
  unfolding longest fill_all
  from_values values = do
    errors ← error_codes_of (Dict.get "errst" values)
    most ← longest (arrays_of values)
    count ← count_of most (Dict.get "nocpt" values)
    compartments ← fill_all count (arrays_of values) (blanks 0 count)
    ok (state_of values errors compartments)
