-- ===== src/Mdns/RoundTrip.antt =====
-- A name that `_encode_name` of src/ddmp/discovery.py writes is read back by `_read_name`.
use native.Mathlib.Numerals.{unary_clauses}
use dometic_ddmp.Base.{
  ℕ, zero, suc, ◌+◌, ◌<◌, ◌≤◌, ◌≡◌, ◌≢◌, refl, sym, ap, ◌∙◌, inl, inr, some, List, [], ◌∷◌, ◌++◌,
  length, length-append, get_elem?, drop, take-append, append_assoc, All, ltb, ◌==◌, ==_iff,
  Bool-cases, arith,
}
use dometic_ddmp.Bytes.{Bytes, strip}
use dometic_ddmp.Result.{ok, value_error, guard, >>=-eq-ok}
use dometic_ddmp.Text.{Text, split, onto_first, join_dots}
use dometic_ddmp.Text.Utf8
use dometic_ddmp.Text.Utf8.RoundTrip.{decode-encode_utf8}
use dometic_ddmp.Mdns.{Labels, before, choose, read_labels, read_name}
use dometic_ddmp.Mdns.Message.{encode_labels, encode_name, named, name_at}

-- What a label must be for its length byte: not empty, and 63 bytes at most.
abbrev pub Fits : Text → Type 0
Fits label = (raw : Bytes) × (Utf8.encode label ≡ ok raw) × (0 < length raw) × (length raw < 64)

pub get_elem?-append : (pre s : Bytes) (x : ℕ) → get_elem? (pre ++ x ∷ s) (length pre) ≡ some x
get_elem?-append [] s x = refl
get_elem?-append (y ∷ pre) s x = get_elem?-append pre s x

drop_behind : (pre s : Bytes) (x : ℕ) → drop (suc (length pre)) (pre ++ x ∷ s) ≡ s
drop_behind [] s x = refl
drop_behind (y ∷ pre) s x = drop_behind pre s x

choose_end :
    (offset : ℕ) (jump next : Labels) → choose offset 0 jump next ≡ some (ok ([], offset + 1))
choose_end offset jump next = refl

choose_label :
    (offset len : ℕ) (jump next : Labels) → 0 < len → len < 64 → choose offset len jump next ≡ next
choose_label offset len jump next positive small = ground (arith, ==_iff len 0)

-- One round of the loop, for a label and for the end of the name.
read_label :
    (hops fuel : ℕ) (pre raw s : Bytes)
    → 0 < length raw
    → length raw < 64
    → read_labels (suc hops) (suc fuel) (pre ++ length raw ∷ (raw ++ s)) (length pre)
      ≡ before (Utf8.decode raw) (
          read_labels
            (suc hops)
            fuel
            (pre ++ length raw ∷ (raw ++ s))
            (length pre + 1 + length raw))
unfolding read_labels
read_label hops fuel pre raw s positive small =
    let behind : drop (length pre + 1) (pre ++ length raw ∷ (raw ++ s)) ≡ raw ++ s =
      simp unary_clauses (drop_behind pre (raw ++ s) (length raw)) in
    rw (read_labels, get_elem?-append pre (raw ++ s) (length raw))
      (rw (choose_label (length pre) (length raw) _ _ positive small, behind, take-append raw s)
        refl)

read_end :
    (hops fuel : ℕ) (pre s : Bytes)
    → read_labels (suc hops) (suc fuel) (pre ++ 0 ∷ s) (length pre) ≡ some (ok ([], length pre + 1))
unfolding read_labels
read_end hops fuel pre s = rw (read_labels, get_elem?-append pre s 0) refl

encode_labels_steps :
    (label : Text) (labels : List Text) (bytes : Bytes)
    → encode_labels (label ∷ labels) ≡ ok bytes
    → (raw : Bytes) × (tail : Bytes) × (Utf8.encode label ≡ ok raw)
      × (encode_labels labels ≡ ok tail)
      × (bytes ≡ length raw ∷ (raw ++ tail))
unfolding encode_labels
encode_labels_steps label labels bytes h =
    let (raw, encoded, h1) = >>=-eq-ok (Utf8.encode label) _ h in
    let (checked, _, h2) = >>=-eq-ok (guard (ltb (length raw) 256) value_error) _ h1 in
    let (tail, later, h3) = >>=-eq-ok (encode_labels labels) _ h2 in
    (raw, tail, encoded, later, ground arith)

read_labels-encode_labels :
    (hops fuel : ℕ) (labels : List Text) (bytes pre rest : Bytes)
    → All Fits labels
    → encode_labels labels ≡ ok bytes
    → length bytes ≤ fuel
    → read_labels (suc hops) fuel (pre ++ (bytes ++ rest)) (length pre)
      ≡ some (ok (labels, length pre + length bytes))
read_labels-encode_labels hops zero [] bytes pre rest fits h enough =
    let same_bytes : bytes ≡ 0 ∷ [] = unfold encode_labels in ground arith in
    absurd (omega (arith, rw same_bytes at enough))
read_labels-encode_labels hops (suc fuel) [] bytes pre rest fits h enough =
    let same_bytes : bytes ≡ 0 ∷ [] = unfold encode_labels in ground arith in
    rw same_bytes (read_end hops fuel pre rest)
read_labels-encode_labels hops zero (label ∷ labels) bytes pre rest fits h enough =
    let (raw, tail, encoded, later, shape) = encode_labels_steps label labels bytes h in
    absurd (omega (arith, rw shape at enough))
read_labels-encode_labels hops (suc fuel) (label ∷ labels) bytes pre rest fits h enough =
    let (raw, tail, encoded, later, shape) = encode_labels_steps label labels bytes h in
    let (raw', encoded', positive, small) = fits.0 in
    let same_raw : raw' ≡ raw = ground arith in
    let positive' : 0 < length raw = rw⁻¹ same_raw positive in
    let small' : length raw < 64 = rw⁻¹ same_raw small in
    let sizes = length-append raw tail in
    let room : length tail ≤ fuel = omega (arith, rw shape at enough) in
    let pre' = pre ++ length raw ∷ raw in
    let regroup : pre ++ length raw ∷ (raw ++ (tail ++ rest)) ≡ pre' ++ (tail ++ rest) =
      sym (append_assoc pre (length raw ∷ raw) (tail ++ rest)) in
    let place : length pre + 1 + length raw ≡ length pre' =
      omega (arith, length-append pre (length raw ∷ raw)) in
    let ih = read_labels-encode_labels hops fuel labels tail pre' rest fits.1 later room in
    let layout : bytes ++ rest ≡ length raw ∷ (raw ++ (tail ++ rest)) =
      ap (λ bs. bs ++ rest) shape ∙ ap (◌∷◌ (length raw)) (append_assoc raw tail rest) in
    let end : length pre' + length tail ≡ length pre + length bytes =
      omega (arith, place, sizes, ap length shape) in
    ap (λ bs. read_labels (suc hops) (suc fuel) (pre ++ bs) (length pre)) layout
    ∙ read_label hops fuel pre raw (tail ++ rest) positive' small'
    ∙ rw (decode-encode_utf8 label raw encoded, place, regroup, ih, end) refl

-- What `split` took apart, `join` puts together.
join_dots-onto_first :
    (x : ℕ) (ss : List Text) → ss ≢ [] → join_dots (onto_first x ss) ≡ x ∷ join_dots ss
unfolding join_dots
join_dots-onto_first x [] h = absurd (h refl)
join_dots-onto_first x (s ∷ []) h = refl
join_dots-onto_first x (s ∷ t ∷ ss) h = refl

onto_first_some : (x : ℕ) (ss : List Text) → onto_first x ss ≢ []
onto_first_some x [] h = absurd (ground arith)
onto_first_some x (s ∷ ss) h = absurd (ground arith)

split_some : (c : ℕ) (s : Text) → split c s ≢ []
unfolding split
split_some c [] h = absurd (ground arith)
split_some c (x ∷ s) h = elim (Bool-cases (x == c)) [
  | inl e ↦ absurd (ground arith)
  | inr e ↦ onto_first_some x (split c s) (rw (split, e) at h)
]

join_dots-nil : (ss : List Text) → ss ≢ [] → join_dots ([] ∷ ss) ≡ b'.' ∷ join_dots ss
unfolding join_dots
join_dots-nil [] h = absurd (h refl)
join_dots-nil (s ∷ ss) h = refl

join_dots-split : (s : Text) → join_dots (split b'.' s) ≡ s
unfolding split
join_dots-split [] = unfold join_dots in refl
join_dots-split (x ∷ s) = elim (Bool-cases (x == b'.')) [
  | inl e ↦
      rw (split, e)
        (join_dots-nil (split b'.' s) (split_some b'.' s)
          ∙ ap (◌∷◌ b'.') (join_dots-split s)
          ∙ ap (λ x. x ∷ s) (sym ((==_iff x b'.').0 e)))
  | inr e ↦
      rw (split, e)
        (join_dots-onto_first x (split b'.' s) (split_some b'.' s) ∙ ap (◌∷◌ x) (join_dots-split s))
]

-- Wherever a name stands in a message, if its labels between the dots, with the dots at its ends taken
-- off, are encoded in 1 to 63 bytes each, then what `_encode_name` gives for it is read back as the
-- name without those dots, up to the end of the encoded name.
pub name_at-encode_name :
    (name : Text) (bytes pre rest : Bytes)
    → All Fits (split b'.' (strip (λ c. c == b'.') name))
    → encode_name name ≡ ok bytes
    → name_at (pre ++ (bytes ++ rest)) (length pre)
      ≡ ok (strip (λ c. c == b'.') name, length pre + length bytes)
unfolding encode_name name_at read_name named
name_at-encode_name name bytes pre rest fits h =
    let plain = strip (λ c. c == b'.') name in
    let enough : length bytes ≤ suc (length (pre ++ (bytes ++ rest))) =
      omega (arith, length-append pre (bytes ++ rest), length-append bytes rest) in
    let read =
      read_labels-encode_labels 63 (suc (length (pre ++ (bytes ++ rest)))) (split b'.' plain) bytes
        pre rest fits h enough in
    ap named read ∙ ap (λ t. ok (t, length pre + length bytes)) (join_dots-split plain)
