-- ===== src/Enums.antt =====
-- The three enumerations of src/ddmp/models.py.
use dometic_ddmp.Base.{ℤ, pos, Option, none, some, beq_ℤ, same, if◌then◌else◌}
use dometic_ddmp.Text.{Text, codes}

pub data EnumClass : Type 0 where
  battery_protection power_source product_type : EnumClass

-- The name of the member with this value; `none` is the `ValueError` of `cls(n)`.
unfoldable pub member_name : EnumClass → ℤ → Option Text
member_name battery_protection n =
    if beq_ℤ n (pos 0)
    then some (codes "LOW")
    else if beq_ℤ n (pos 1)
    then some (codes "MEDIUM")
    else if beq_ℤ n (pos 2)
    then some (codes "HIGH")
    else none
member_name power_source n =
    if beq_ℤ n (pos 0)
    then some (codes "AC")
    else if beq_ℤ n (pos 1)
    then some (codes "DC")
    else none
member_name product_type n =
    if beq_ℤ n (pos 0)
    then some (codes "UNCONFIGURED")
    else if beq_ℤ n (pos 1)
    then some (codes "SINGLE_ZONE")
    else if beq_ℤ n (pos 2)
    then some (codes "SINGLE_ZONE_ICEMAKER")
    else if beq_ℤ n (pos 3)
    then some (codes "DUAL_ZONE")
    else none

-- The value of the member with this name; `none` is the `KeyError` of `cls[name]`.
unfoldable pub member_value : EnumClass → Text → Option ℤ
member_value battery_protection t =
    if same t (codes "LOW")
    then some (pos 0)
    else if same t (codes "MEDIUM")
    then some (pos 1)
    else if same t (codes "HIGH")
    then some (pos 2)
    else none
member_value power_source t =
    if same t (codes "AC") then some (pos 0) else if same t (codes "DC") then some (pos 1) else none
member_value product_type t =
    if same t (codes "UNCONFIGURED")
    then some (pos 0)
    else if same t (codes "SINGLE_ZONE")
    then some (pos 1)
    else if same t (codes "SINGLE_ZONE_ICEMAKER")
    then some (pos 2)
    else if same t (codes "DUAL_ZONE")
    then some (pos 3)
    else none
