-- ===== src/Mdns/Total.antt =====
-- Names are read in a bounded number of steps, whatever the bytes say.
use dometic_ddmp.Base.{
  ℕ, zero, suc, ◌+◌, ◌*◌, ◌%◌, ◌<◌, ◌≡◌, refl, inl, inr, Option, none, some, [], ◌∷◌, length,
  get_elem?, leb, ◌==◌, Option-cases, Bool-cases, arith, List,
}
use dometic_ddmp.Bytes.{Bytes}
use dometic_ddmp.Result.{Result, ok, err}
use dometic_ddmp.Text.{Text}
use dometic_ddmp.Mdns.{Labels, before, after_pointer, choose, jump_to, read_labels, read_name}

-- The loop came to an end.
abbrev pub Ends : Labels → Type 0
Ends r = (outcome : Result (List Text × ℕ)) × (r ≡ some outcome)

before-Ends : (label : Text) (r : Labels) → Ends r → Ends (before label r)
before-Ends label none h = absurd (ground (arith, h.1))
before-Ends label (some (ok (labels, end))) h = (_, refl)
before-Ends label (some (err e)) h = (_, refl)

after_pointer-Ends : (offset : ℕ) (r : Labels) → Ends r → Ends (after_pointer offset r)
after_pointer-Ends offset none h = absurd (ground (arith, h.1))
after_pointer-Ends offset (some (ok (labels, end))) h = (_, refl)
after_pointer-Ends offset (some (err e)) h = (_, refl)

within : (msg : Bytes) (i b : ℕ) → get_elem? msg i ≡ some b → i < length msg
within [] i b h = absurd (ground arith)
within (x ∷ msg) zero b h = omega arith
within (x ∷ msg) (suc i) b h = let ih = within msg i b h in omega arith

choose-Ends :
    (offset len : ℕ) (jump next : Labels)
    → Ends jump
    → Ends next
    → Ends (choose offset len jump next)
choose-Ends offset len jump next h k = elim (Bool-cases (len == 0)) [
  | inl e ↦ rw e (_, refl)
  | inr e ↦ elim (Bool-cases (leb 192 len)) [ inl f ↦ rw (e, f) h | inr f ↦ rw (e, f) k ]
]

jump_to-Ends :
    (low : Option ℕ) (read : ℕ → Labels) → ((n : ℕ) → Ends (read n)) → Ends (jump_to low read)
jump_to-Ends none read h = (_, refl)
jump_to-Ends (some low) read h = h low

read_labels-Ends :
    (hops fuel : ℕ) (msg : Bytes) (offset : ℕ)
    → length msg < fuel + offset
    → 0 < fuel
    → Ends (read_labels hops fuel msg offset)
unfolding read_labels
read_labels-Ends hops zero msg offset h positive = absurd (omega arith)
read_labels-Ends zero (suc fuel) msg offset h positive =
    elim (Option-cases (get_elem? msg offset)) [
      | inl e ↦ rw (read_labels, e) (_, refl)
      | inr (len, e) ↦
          let inside = within msg offset len e in
          rw (read_labels, e)
            (choose-Ends offset len _ _
              (jump_to-Ends (get_elem? msg (offset + 1)) _ (λ low. (_, refl)))
              (before-Ends _ _
                (read_labels-Ends zero fuel msg (offset + 1 + len) (omega arith) (omega arith))))
    ]
read_labels-Ends (suc hops) (suc fuel) msg offset h positive =
    elim (Option-cases (get_elem? msg offset)) [
      | inl e ↦ rw (read_labels, e) (_, refl)
      | inr (len, e) ↦
          let inside = within msg offset len e in
          rw (read_labels, e)
            (choose-Ends offset len _ _
              (jump_to-Ends (get_elem? msg (offset + 1)) _ (λ low. after_pointer-Ends offset _ (
                read_labels-Ends hops (suc (length msg)) msg (len % 64 * 256 + low) (omega arith)
                  (omega arith))))
              (before-Ends _ _ (
                read_labels-Ends (suc hops) fuel msg (offset + 1 + len) (omega arith)
                  (omega arith))))
    ]

-- Whatever the bytes and the offset, reading a name ends, with a name or an exception: pointers that
-- refer to each other in a circle do not keep it going.
pub read_name-Ends : (msg : Bytes) (offset : ℕ) → Ends (read_name msg offset)
unfolding read_name
read_name-Ends msg offset =
    read_labels-Ends 64 (suc (length msg)) msg offset (omega arith) (omega arith)
