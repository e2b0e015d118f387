-- ===== src/Address/Laws.antt =====
-- The text and the bytes of an address are read back as the address.
use dometic_ddmp.Base.{ℕ, ◌/◌, ◌%◌, ◌<◌, ◌≤◌, ◌≡◌, true, refl, [], ◌∷◌, ◌++◌, All, inl, arith}
use dometic_ddmp.Bytes
use dometic_ddmp.Bytes.{pack_bytes-of_IsBytes, strip, strip-of_solid, strip-of_ends, IsSolid}
use dometic_ddmp.Result.{ok, err, decode_error, ◌>>=◌}
use dometic_ddmp.Text.{Text, is_space, remove}
use dometic_ddmp.Text.Compact.{remove-keep, remove_self, remove-nil}
use dometic_ddmp.Text.Hex.{
  join_hex, from_hex, hex_digit, hex2, hex2-byte, hex_digit_plain, from_hex-hex2,
}
use dometic_ddmp.Address.{Address, fields, IsByteAddress, to_bytes, from_bytes, parse, show}

-- Packing an address into bytes and reading them gives the address back.
pub from_bytes-to_bytes : (a : Address) → IsByteAddress a → (to_bytes a >>= from_bytes) ≡ ok a
unfolding to_bytes from_bytes
from_bytes-to_bytes a h = rw (pack_bytes-of_IsBytes (fields a) h)

abbrev digit : ℕ → ℕ
digit n = hex_digit b'A' n

hex_digit-IsSolid : (n : ℕ) → n < 16 → IsSolid is_space (digit n)
unfolding is_space hex_digit
hex_digit-IsSolid n h = ground arith

-- The two digits of a byte, before more text.
abbrev pair : ℕ → Text → Text
pair b s = digit (b / 16) ∷ digit (b % 16) ∷ s

hex2-pair : (b : ℕ) (s : Text) → b < 256 → hex2 b'A' b ++ s ≡ pair b s
hex2-pair b s h = rw (hex2-byte b'A' b h)

show_lem :
    (a : Address)
    → IsByteAddress a
    → show a ≡ pair a.param (32 ∷ pair a.inst (32 ∷ pair a.subclass (32 ∷ pair a.cls [])))
unfolding show join_hex
show_lem a h = rw (
  hex2-byte b'A' a.param h.0,
  hex2-byte b'A' a.inst h.1.0,
  hex2-byte b'A' a.subclass h.1.1.0,
  hex2-byte b'A' a.cls h.1.1.1.0,
)

module _ (b : ℕ) (h : b < 256) (s : Text) where
  remove_colon-pair : remove b':' (pair b s) ≡ pair b (remove b':' s)
  remove_colon-pair = rw (
    remove-keep b':' _ _ (hex_digit_plain b'A' (b / 16) (inl refl) (omega arith)).1,
    remove-keep b':' _ _ (hex_digit_plain b'A' (b % 16) (inl refl) (omega arith)).1,
  )

  remove_space-pair : remove 32 (pair b s) ≡ pair b (remove 32 s)
  remove_space-pair = rw (
    remove-keep 32 _ _ (hex_digit_plain b'A' (b / 16) (inl refl) (omega arith)).2,
    remove-keep 32 _ _ (hex_digit_plain b'A' (b % 16) (inl refl) (omega arith)).2,
  )

  pair-IsSolid : All (IsSolid is_space) s → All (IsSolid is_space) (pair b s)
  pair-IsSolid k =
      (hex_digit-IsSolid (b / 16) (omega arith), (hex_digit-IsSolid (b % 16) (omega arith), k))

remove_colon-space : (s : Text) → remove b':' (32 ∷ s) ≡ 32 ∷ remove b':' s
remove_colon-space s = remove-keep b':' 32 s refl

-- The digits of the four numbers, with nothing between.
abbrev compact : Address → Text
compact a = pair a.param (pair a.inst (pair a.subclass (pair a.cls [])))

compact-IsSolid : (a : Address) → IsByteAddress a → All (IsSolid is_space) (compact a)
compact-IsSolid a h =
    let last = pair-IsSolid a.cls h.1.1.1.0 [] tt in
    let third = pair-IsSolid a.subclass h.1.1.0 (pair a.cls []) last in
    let second = pair-IsSolid a.inst h.1.0 (pair a.subclass (pair a.cls [])) third in
    pair-IsSolid a.param h.0 (pair a.inst (pair a.subclass (pair a.cls []))) second

cleaned-show :
    (a : Address) → IsByteAddress a → strip is_space (remove 32 (remove b':' (show a))) ≡ compact a
cleaned-show a h =
    rw
      (
        show_lem a h,
        remove_colon-pair a.param h.0 _,
        remove_colon-space,
        remove_colon-pair a.inst h.1.0 _,
        remove_colon-space,
        remove_colon-pair a.subclass h.1.1.0 _,
        remove_colon-space,
        remove_colon-pair a.cls h.1.1.1.0 _,
        remove-nil,
        remove_space-pair a.param h.0 _,
        remove_self,
        remove_space-pair a.inst h.1.0 _,
        remove_self,
        remove_space-pair a.subclass h.1.1.0 _,
        remove_self,
        remove_space-pair a.cls h.1.1.1.0 _,
        remove-nil,
      )
      (strip-of_solid is_space (compact a) (compact-IsSolid a h))

from_hex-pair :
    (b : ℕ) (s : Text) → b < 256 → from_hex (pair b s) ≡ (from_hex s >>= λ rest. ok (b ∷ rest))
from_hex-pair b s h = from_hex-hex2 b'A' b s (inl refl) h

from_hex-compact : (a : Address) → IsByteAddress a → from_hex (compact a) ≡ ok (fields a)
from_hex-compact a h =
    rw
      (
        from_hex-pair a.param _ h.0,
        from_hex-pair a.inst _ h.1.0,
        from_hex-pair a.subclass _ h.1.1.0,
        from_hex-pair a.cls _ h.1.1.1.0,
      )
      (unfold from_hex in refl)

-- The text of an address of four bytes parses to the address.
pub parse-show : (a : Address) → IsByteAddress a → parse (show a) ≡ ok a
unfolding parse from_bytes
parse-show a h = rw (cleaned-show a h) (rw (from_hex-compact a h))

-- A tabulator, a line break or the like: white space that is no space.
abbrev pub IsBreak : ℕ → Type 0
IsBreak w = (9 ≤ w) × (w ≤ 13)

-- The digits of three bytes, with one character between each two.
abbrev pub broken : (b w c w' d : ℕ) → Text
broken b w c w' d = pair b (w ∷ pair c (w' ∷ pair d []))

break-keep : (sep w : ℕ) (s : Text) → 13 < sep → IsBreak w → remove sep (w ∷ s) ≡ w ∷ remove sep s
break-keep sep w s h k = remove-keep sep w s (ground arith)

from_hex-break : (w c : ℕ) (s : Text) → IsBreak w → from_hex (w ∷ c ∷ s) ≡ from_hex (c ∷ s)
unfolding from_hex Bytes.is_space
from_hex-break w c s h =
    let blank : Bytes.is_space w ≡ true = ground arith in rw (from_hex, blank) refl

module _ (b w c w' d : ℕ) (hb : b < 256) (hc : c < 256) (hd : d < 256) (hw : IsBreak w)
    (hw' : IsBreak w') where
  remove-broken : remove 32 (remove b':' (broken b w c w' d)) ≡ broken b w c w' d
  remove-broken = rw (
    remove_colon-pair b hb _,
    break-keep b':' w _ (omega arith) hw,
    remove_colon-pair c hc _,
    break-keep b':' w' _ (omega arith) hw',
    remove_colon-pair d hd _,
    remove-nil,
    remove_space-pair b hb _,
    break-keep 32 w _ (omega arith) hw,
    remove_space-pair c hc _,
    break-keep 32 w' _ (omega arith) hw',
    remove_space-pair d hd _,
    remove-nil,
  )

  from_hex-broken : from_hex (broken b w c w' d) ≡ ok (b ∷ c ∷ d ∷ [])
  from_hex-broken =
      rw
        (
          from_hex-pair b _ hb,
          from_hex-break w _ _ hw,
          from_hex-pair c _ hc,
          from_hex-break w' _ _ hw',
          from_hex-pair d _ hd,
        )
        (unfold from_hex in refl)

  strip-broken : strip is_space (broken b w c w' d) ≡ broken b w c w' d
  strip-broken =
      strip-of_ends is_space (digit (b / 16))
        (digit (b % 16) ∷ w ∷ digit (c / 16) ∷ digit (c % 16) ∷ w' ∷ digit (d / 16) ∷ [])
        (digit (d % 16)) (hex_digit-IsSolid (b / 16) (omega arith))
        (hex_digit-IsSolid (d % 16) (omega arith))

  -- Eight characters that spell three bytes, with such white space between them, pass the test of
  -- the length and are too few bytes.
  pub parse-broken : parse (broken b w c w' d) ≡ err decode_error
  unfolding parse from_bytes
  parse-broken = rw (remove-broken, strip-broken) (rw from_hex-broken refl)
