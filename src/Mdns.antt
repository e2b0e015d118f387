-- ===== src/Mdns.antt =====
-- The names of DNS messages in src/ddmp/discovery.py: `_read_name`.
pub mod Total
pub mod Message
pub mod Collector
pub mod Bounds
pub mod RoundTrip
pub mod Answers
pub mod Responses
pub mod Adverts
pub mod Advertised
pub mod Ordered
pub mod Resolved
pub mod Browse
use dometic_ddmp.Base.{
  ℕ, zero, suc, ◌+◌, ◌*◌, ◌%◌, Option, none, some, List, [], ◌∷◌, length, get_elem?, take, drop,
  leb, ◌==◌, if◌then◌else◌,
}
use dometic_ddmp.Bytes.{Bytes}
use dometic_ddmp.Result.{Result, ok, err, value_error, struct_error}
use dometic_ddmp.Text.{Text}
use dometic_ddmp.Text.Utf8

-- The labels of a name and the offset behind it; the call itself is `none` if its fuel ran out.
abbrev pub Labels : Type 0
Labels = Option (Result (List Text × ℕ))

-- A label before the rest of a name.
abbrev pub before : Text → Labels → Labels
before label none = none
before label (some (err e)) = some (err e)
before label (some (ok (labels, end))) = some (ok (label ∷ labels, end))

-- The name that a pointer refers to; what is behind the pointer starts after its two bytes.
abbrev pub after_pointer : ℕ → Labels → Labels
after_pointer offset none = none
after_pointer offset (some (err e)) = some (err e)
after_pointer offset (some (ok (labels, end))) = some (ok (labels, offset + 2))

-- `data[i:i + n]`
abbrev pub slice : Bytes → ℕ → ℕ → Bytes
slice msg i n = take n (drop i msg)

-- What the byte at an offset asks for: the end, a jump, or a label before what `next` reads.
abbrev pub choose : ℕ → ℕ → Labels → Labels → Labels
choose offset len jump next =
    if len == 0 then some (ok ([], offset + 1)) else if leb 192 len then jump else next

-- A pointer has two bytes, of which six bits and eight give the offset; the last jump is an error.
abbrev pub jump_to : Option ℕ → (ℕ → Labels) → Labels
jump_to none read = some (err struct_error)
jump_to (some low) read = read low

-- The loop, with the jumps that are left and the fuel for labels until the next jump.
unfoldable pub read_labels : ℕ → ℕ → Bytes → ℕ → Labels
read_labels hops zero msg offset = none
read_labels zero (suc fuel) msg offset = elim (get_elem? msg offset) [
  | none ↦ some (err value_error)
  | some len ↦
      choose offset len (jump_to (get_elem? msg (offset + 1)) (λ low. some (err value_error))) (
        before (Utf8.decode (slice msg (offset + 1) len))
          (read_labels zero fuel msg (offset + 1 + len)))
]
read_labels (suc hops) (suc fuel) msg offset = elim (get_elem? msg offset) [
  | none ↦ some (err value_error)
  | some len ↦
      choose offset len
        (jump_to (get_elem? msg (offset + 1)) (λ low.
          after_pointer offset (read_labels hops (suc (length msg)) msg (len % 64 * 256 + low))))
        (before (Utf8.decode (slice msg (offset + 1) len))
          (read_labels (suc hops) fuel msg (offset + 1 + len)))
]

-- `_read_name`, before the labels are joined with dots.
unfoldable pub read_name : Bytes → ℕ → Labels
read_name msg offset = read_labels 64 (suc (length msg)) msg offset
