-- ===== src/Topic/Table.antt =====
-- The constant tables of src/ddmp/protocol.py.
use dometic_ddmp.Base.{ℕ, String, Bool, true, false, List, [], ◌∷◌}
use dometic_ddmp.Address.{Address, address}
use dometic_ddmp.Enums.{battery_protection, power_source, product_type}
use dometic_ddmp.Codec.{
  Codec, int32, boolean, boolean_array, milli, milli_array, milli_pair_array, string, mac6,
  u16_array, enum,
}

pub record Topic : Type 0 where
  pub name : String
  pub address : Address
  pub codec : Codec
  pub description : String
  pub writable : Bool
  pub per_compartment : Bool
  pub unit : String

-- `_mccc`, class 0x1A, and `_prod`, class 0x1C
abbrev pub mccc : ℕ → Address
mccc param = address param 0 0 0x1a

abbrev pub prod : ℕ → Address
prod param = address param 0 0 0x1c

-- A topic that is read only and holds one value; one with a value for each compartment; and those
-- that may be written.
abbrev plain : String → Address → Codec → String → String → Topic
plain name address codec description unit = record {
  name = name;
  address = address;
  codec = codec;
  description = description;
  writable = false;
  per_compartment = false;
  unit = unit;
}

abbrev per_compartment : Topic → Topic
per_compartment t = record t { per_compartment = true }

abbrev writable : Topic → Topic
writable t = record t { writable = true }

-- `TOPICS`
unfoldable pub topics : List Topic
topics =
    plain "gw_fwver" (address 0x02 0 0 0) string "Gateway firmware version" ""
    ∷ plain "gw_mac" (address 0x11 0 0 0) mac6 "Wi-Fi MAC address" ""
    ∷ plain "cfg_fwid" (address 0x07 0 1 0) string "Firmware family id (MC1 = CFX5)" ""
    ∷ plain "product_name" (prod 0x01) string "Exact product name (e.g. CFX525)" ""
    ∷ plain "cms_sku" (prod 0x03) string "CMS SKU" ""
    ∷ plain "ptype" (mccc 0x01) (enum product_type) "Product type" ""
    ∷ plain "nocpt" (mccc 0x02) int32 "Number of compartments" ""
    ∷ writable (per_compartment (plain "cpow" (mccc 0x03) boolean_array "Compartment power" ""))
    ∷ per_compartment (plain "ctemp" (mccc 0x04) milli_array "Measured temperature" "°C")
    ∷ writable
        (per_compartment (plain "csettemp" (mccc 0x05) milli_array "Set-point temperature" "°C"))
    ∷ plain "acpt" (mccc 0x06) int32 "Active compartment on the display" ""
    ∷ per_compartment (plain "cdoor" (mccc 0x07) boolean_array "Door open" "")
    ∷ per_compartment (plain "ctemprng" (mccc 0x08) milli_pair_array "Allowed set-point range" "°C")
    ∷ per_compartment (plain "crecdrng" (mccc 0x09) milli_pair_array "Recommended range" "°C")
    ∷ per_compartment (plain "ctempofs" (mccc 0x0a) milli_array "Temperature offset" "°C")
    ∷ writable (plain "coolerpow" (mccc 0x0b) boolean "Cooler master power" "")
    ∷ plain "v" (mccc 0x0c) milli "Supply voltage" "V"
    ∷ writable
        (plain "batprotlvl" (mccc 0x0d) (enum battery_protection) "Battery protection level" "")
    ∷ plain "comppow" (mccc 0x0e) boolean "Compressor running" ""
    ∷ plain "i" (mccc 0x0f) milli "Current draw" "A"
    ∷ plain "powsrc" (mccc 0x10) (enum power_source) "Power source" ""
    ∷ writable (plain "icepow" (mccc 0x11) boolean "Ice maker power" "")
    ∷ plain "errst" (mccc 0x12) u16_array "Active error codes" ""
    ∷ plain "sn" (mccc 0x13) string "Serial number" ""
    ∷ plain "sku" (mccc 0x14) string "Article number" ""
    ∷ plain "fwver" (mccc 0x15) string "Controller firmware version" ""
    ∷ []

-- The names in `SUBSCRIBE_TOPICS`.
unfoldable pub subscribe_names : List String
subscribe_names =
    "gw_fwver" ∷ "gw_mac" ∷ "cfg_fwid" ∷ "sku" ∷ "sn" ∷ "product_name" ∷ "cms_sku" ∷ "ptype"
    ∷ "nocpt" ∷ "cpow" ∷ "ctemp" ∷ "csettemp" ∷ "acpt" ∷ "cdoor" ∷ "ctemprng" ∷ "coolerpow"
    ∷ "icepow" ∷ "v" ∷ "batprotlvl" ∷ "comppow" ∷ "i" ∷ "powsrc" ∷ "errst" ∷ []

-- The addresses of `NEVER_WRITE`.
unfoldable pub never_write : List Address
never_write =
    address 0x14 0 0 0
    ∷ address 0x03 0 0 0
    ∷ address 0x06 0 0 0
    ∷ address 0x01 0 1 2
    ∷ address 0x01 0 2 2
    ∷ address 0x01 0 3 2
    ∷ mccc 0x01
    ∷ mccc 0x02
    ∷ mccc 0x08
    ∷ mccc 0x09
    ∷ mccc 0x0a
    ∷ mccc 0x13
    ∷ mccc 0x14
    ∷ mccc 0x15
    ∷ []
