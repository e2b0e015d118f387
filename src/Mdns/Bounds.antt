-- ===== src/Mdns/Bounds.antt =====
-- A DNS message gives no more records than it has room for, whatever its header promises.
use dometic_ddmp.Text.Utf8
use dometic_ddmp.Base.{
  refl, [], ◌∷◌, ap, take, drop, length-drop, ℕ, zero, suc, ◌+◌, ◌-◌, ◌*◌, ◌<◌, ◌≤◌, ◌≡◌, inl, inr,
  Option, none, some, length, get_elem?, leb, ltb, ◌==◌, Option-cases, Bool-cases, arith,
}
use dometic_ddmp.Bytes.{Bytes}
use dometic_ddmp.Result.{ok, err, Result-cases, guard, >>=-eq-ok}
use dometic_ddmp.Text.{Text}
use dometic_ddmp.Mdns.{Labels, before, after_pointer, choose, jump_to, read_labels, read_name}
use dometic_ddmp.Mdns.Message.{
  Record, named, name_at, be16, read_record, read_records, sections, parse_response, txt_items,
}

-- A name that is read ends behind where it starts.
abbrev IsBeyond : ℕ → Labels → Type 0
IsBeyond offset none = Unit
IsBeyond offset (some (err x)) = Unit
IsBeyond offset (some (ok (labels, end))) = offset < end

before-IsBeyond :
    (offset behind : ℕ) (label : Text) (r : Labels)
    → offset ≤ behind
    → IsBeyond behind r
    → IsBeyond offset (before label r)
before-IsBeyond offset behind label none order h = tt
before-IsBeyond offset behind label (some (err x)) order h = tt
before-IsBeyond offset behind label (some (ok (labels, end))) order h = omega arith

after_pointer-IsBeyond : (offset : ℕ) (r : Labels) → IsBeyond offset (after_pointer offset r)
after_pointer-IsBeyond offset none = tt
after_pointer-IsBeyond offset (some (err x)) = tt
after_pointer-IsBeyond offset (some (ok (labels, end))) = omega arith

choose-IsBeyond :
    (offset len : ℕ) (jump next : Labels)
    → IsBeyond offset jump
    → IsBeyond offset next
    → IsBeyond offset (choose offset len jump next)
choose-IsBeyond offset len jump next h k = elim (Bool-cases (len == 0)) [
  | inl e ↦ rw e (omega arith)
  | inr e ↦ elim (Bool-cases (leb 192 len)) [ inl f ↦ rw (e, f) h | inr f ↦ rw (e, f) k ]
]

jump_to-IsBeyond :
    (offset : ℕ) (low : Option ℕ) (read : ℕ → Labels)
    → ((n : ℕ) → IsBeyond offset (read n))
    → IsBeyond offset (jump_to low read)
jump_to-IsBeyond offset none read h = tt
jump_to-IsBeyond offset (some low) read h = h low

read_labels-IsBeyond :
    (hops fuel : ℕ) (msg : Bytes) (offset : ℕ) → IsBeyond offset (read_labels hops fuel msg offset)
unfolding read_labels
read_labels-IsBeyond hops zero msg offset = tt
read_labels-IsBeyond zero (suc fuel) msg offset = elim (Option-cases (get_elem? msg offset)) [
  | inl e ↦ rw (read_labels, e) tt
  | inr (len, e) ↦
      rw (read_labels, e)
        (choose-IsBeyond offset len _ _
          (jump_to-IsBeyond offset (get_elem? msg (offset + 1)) _ (λ low. tt))
          (before-IsBeyond offset (offset + 1 + len) _ _ (omega arith)
            (read_labels-IsBeyond zero fuel msg (offset + 1 + len))))
]
read_labels-IsBeyond (suc hops) (suc fuel) msg offset = elim (Option-cases (get_elem? msg offset)) [
  | inl e ↦ rw (read_labels, e) tt
  | inr (len, e) ↦
      rw (read_labels, e)
        (choose-IsBeyond offset len _ _
          (jump_to-IsBeyond offset (get_elem? msg (offset + 1)) _
            (λ low. after_pointer-IsBeyond offset _))
          (before-IsBeyond offset (offset + 1 + len) _ _ (omega arith)
            (read_labels-IsBeyond (suc hops) fuel msg (offset + 1 + len))))
]

named_beyond :
    (offset : ℕ) (r : Labels) (t : Text) (end : ℕ)
    → IsBeyond offset r
    → named r ≡ ok (t, end)
    → offset < end
unfolding named
named_beyond offset none t end h e = absurd (ground arith)
named_beyond offset (some (err x)) t end h e = absurd (ground arith)
named_beyond offset (some (ok (labels, end'))) t end h e =
    let same_end : end' ≡ end = ground arith in omega arith

-- A record takes eleven bytes of the message at least.
read_record_room :
    (msg : Bytes) (offset : ℕ) (r : Record) (next : ℕ)
    → read_record msg offset ≡ ok (r, next)
    → (offset + 11 ≤ length msg) × (offset + 11 ≤ next)
unfolding read_record name_at read_name
read_record_room msg offset r next h =
    let ((name, end), named_ok, h1) = >>=-eq-ok (name_at msg offset) _ h in
    let (checked, room, h2) = >>=-eq-ok (guard (leb (end + 10) (length msg)) _) _ h1 in
    let (rtype, _, h3) = >>=-eq-ok (be16 msg end) _ h2 in
    let (rdlen, _, h4) = >>=-eq-ok (be16 msg (end + 8)) _ h3 in
    let beyond =
      named_beyond offset _ name end (read_labels-IsBeyond 64 (suc (length msg)) msg offset)
        named_ok in
    let enough : end + 10 ≤ length msg = ground arith in
    let behind : end + 10 + rdlen ≡ next = ground arith in (omega arith, omega arith)

read_records_room :
    (n : ℕ) (msg : Bytes) (offset : ℕ)
    → 11 * length (read_records n msg offset) ≤ length msg - offset
unfolding read_records
read_records_room zero msg offset = omega arith
read_records_room (suc n) msg offset = elim (Result-cases (read_record msg offset)) [
  | inr (x, e) ↦ rw (read_records, e) (omega arith)
  | inl ((r, next), e) ↦
      let (room, behind) = read_record_room msg offset r next e in
      let rest = read_records_room n msg next in rw (read_records, e) (omega arith)
]

-- Whatever the header of an answer promises, each of the records takes at least eleven of its bytes.
pub parse_response_room : (msg : Bytes) → 11 * length (parse_response msg) ≤ length msg
unfolding parse_response
parse_response_room msg = elim (Bool-cases (ltb (length msg) 12)) [
  | inl short ↦ rw (parse_response, short) (omega arith)
  | inr long ↦ elim (Result-cases (sections msg)) [
    | inr (x, e) ↦ rw (parse_response, long) (rw e (omega arith))
    | inl ((offset, n), e) ↦
        let room = read_records_room n msg offset in rw (parse_response, long) (rw e (omega arith))
  ]
]

-- The strings of a TXT record do not depend on the fuel, where it is the length of the record or more.
pub txt_items_enough :
    (n m : ℕ) (rdata : Bytes)
    → length rdata ≤ n
    → length rdata ≤ m
    → txt_items n rdata ≡ txt_items m rdata
unfolding txt_items
txt_items_enough zero zero rdata h k = refl
txt_items_enough zero (suc m) [] h k = refl
txt_items_enough zero (suc m) (len ∷ rdata) h k = absurd (omega arith)
txt_items_enough (suc n) zero [] h k = refl
txt_items_enough (suc n) zero (len ∷ rdata) h k = absurd (omega arith)
txt_items_enough (suc n) (suc m) [] h k = refl
txt_items_enough (suc n) (suc m) (len ∷ rdata) h k =
    let less = length-drop len rdata in
    ap (◌∷◌ (Utf8.decode (take len rdata)))
      (txt_items_enough n m (drop len rdata) (omega arith) (omega arith))
