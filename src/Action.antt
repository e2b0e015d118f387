-- ===== src/Action.antt =====
-- `Action` of src/ddmp/protocol.py, the first byte of every frame.
use dometic_ddmp.Base.{ℕ, Option, none, some, ◌==◌, if◌then◌else◌}
use dometic_ddmp.Text.{Text, codes}

pub data Action : Type 0 where
  hello ack nak nop publish set subscribe fragment : Action

-- The value of an `IntEnum` member.
abbrev pub code : Action → ℕ
code hello = 0x03
code ack = 0x04
code nak = 0x05
code nop = 0x06
code publish = 0x10
code set = 0x11
code subscribe = 0x12
code fragment = 0x14

-- `Action(n)`; `none` is its `ValueError`.
unfoldable pub of_code : ℕ → Option Action
of_code n =
    if n == 0x03
    then some hello
    else if n == 0x04
    then some ack
    else if n == 0x05
    then some nak
    else if n == 0x06
    then some nop
    else if n == 0x10
    then some publish
    else if n == 0x11
    then some set
    else if n == 0x12
    then some subscribe
    else if n == 0x14
    then some fragment
    else none

unfoldable pub name : Action → Text
name hello = codes "HELLO"
name ack = codes "ACK"
name nak = codes "NAK"
name nop = codes "NOP"
name publish = codes "PUBLISH"
name set = codes "SET"
name subscribe = codes "SUBSCRIBE"
name fragment = codes "FRAGMENT"
