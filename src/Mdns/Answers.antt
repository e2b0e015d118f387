-- ===== src/Mdns/Answers.antt =====
-- Resource records laid out as DNS does it, and what the loop of `parse_response` of
-- src/ddmp/discovery.py reads in them.
use dometic_ddmp.Base.{
  ℕ, suc, ◌+◌, ◌/◌, ◌%◌, ◌≡◌, refl, sym, ap, ◌∙◌, true, some, List, [], ◌∷◌, ◌++◌, length,
  length-append, get_elem?, take-append, drop-append, append_assoc, All, leb, ◌==◌, arith,
}
use dometic_ddmp.Bytes.{Bytes, strip}
use dometic_ddmp.Result.{ok}
use dometic_ddmp.Text.{Text, split}
use dometic_ddmp.Mdns.{slice}
use dometic_ddmp.Mdns.Message.{Record, encode_name, name_at, be16, read_record, read_records}
use dometic_ddmp.Mdns.RoundTrip.{Fits, get_elem?-append, name_at-encode_name}

-- A resource record of a response, with the bytes of its name, and those of its class and its TTL.
pub record Answer : Type 0 where
  pub name : Text
  pub encoded : Bytes
  pub rtype : ℕ
  pub class_ttl : Bytes
  pub rdata : Bytes

abbrev pub plain_name : Text → Text
plain_name name = strip (λ c. c == b'.') name

-- Its numbers fit their fields, and its name can be encoded.
pub record IsAnswer (a : Answer) : Type 0 where
  pub fits : All Fits (split b'.' (plain_name a.name))
  pub named : encode_name a.name ≡ ok a.encoded
  pub six : length a.class_ttl ≡ 6

abbrev pub high_low : ℕ → Bytes
high_low n = n / 256 ∷ n % 256 ∷ []

abbrev pub bytes_of : Answer → Bytes
bytes_of a =
    a.encoded ++ (high_low a.rtype ++ (a.class_ttl ++ (high_low (length a.rdata) ++ a.rdata)))

abbrev pub bytes_of_all : List Answer → Bytes
bytes_of_all [] = []
bytes_of_all (a ∷ answers) = bytes_of a ++ bytes_of_all answers

-- The records of a response, the first of which starts at an offset.
abbrev pub records_at : ℕ → List Answer → List Record
records_at offset [] = []
records_at offset (a ∷ answers) =
    record {
      name = plain_name a.name;
      rtype = a.rtype;
      rdata = a.rdata;
      rd_off = offset + length a.encoded + 10;
    }
    ∷ records_at (offset + length (bytes_of a)) answers

length_of : (a : Answer) → IsAnswer a → length (bytes_of a) ≡ length a.encoded + 10 + length a.rdata
length_of a h =
    let rest = high_low (length a.rdata) ++ a.rdata in
    omega (
      arith,
      h.six,
      length-append a.encoded (high_low a.rtype ++ (a.class_ttl ++ rest)),
      length-append a.class_ttl rest,
    )

-- A number of two bytes, wherever it stands.
pub be16-high_low :
    (pre s msg : Bytes) (n i : ℕ)
    → msg ≡ pre ++ (high_low n ++ s)
    → i ≡ length pre
    → be16 msg i ≡ ok n
unfolding be16
be16-high_low pre s msg n i layout place =
    let regroup : pre ++ (high_low n ++ s) ≡ (pre ++ n / 256 ∷ []) ++ n % 256 ∷ s =
      sym (append_assoc pre (n / 256 ∷ []) (n % 256 ∷ s)) in
    let first : get_elem? msg i ≡ some (n / 256) =
      rw (layout, place) (get_elem?-append pre (n % 256 ∷ s) (n / 256)) in
    let behind : i + 1 ≡ length (pre ++ n / 256 ∷ []) =
      omega (arith, length-append pre (n / 256 ∷ [])) in
    let second : get_elem? msg (i + 1) ≡ some (n % 256) =
      rw (layout ∙ regroup, behind) (get_elem?-append (pre ++ n / 256 ∷ []) s (n % 256)) in
    rw (be16, first) (rw second (ap ok (omega arith)))

-- Bytes behind others are what a slice of their length there is.
slice_behind :
    (pre raw s msg : Bytes) (i : ℕ)
    → msg ≡ pre ++ (raw ++ s)
    → i ≡ length pre
    → (slice msg i (length raw) ≡ raw) × (leb i (length msg) ≡ true)
slice_behind pre raw s msg i layout place = (
  rw (layout, place) (rw (drop-append pre (raw ++ s)) (take-append raw s)),
  ground (arith, ap length layout, place, length-append pre (raw ++ s)),
)

-- What stands behind the name of a record.
bytes_of-append :
    (a : Answer) (s : Bytes)
    → bytes_of a ++ s
      ≡ a.encoded
        ++ (high_low a.rtype ++ (a.class_ttl ++ (high_low (length a.rdata) ++ (a.rdata ++ s))))
bytes_of-append a s =
    append_assoc a.encoded
      (high_low a.rtype ++ (a.class_ttl ++ (high_low (length a.rdata) ++ a.rdata))) s
    ∙ ap (λ bs. a.encoded ++ (high_low a.rtype ++ bs))
        (append_assoc a.class_ttl (high_low (length a.rdata) ++ a.rdata) s)

-- One resource record is read wherever it stands.
read_record-bytes_of :
    (pre s : Bytes) (a : Answer)
    → IsAnswer a
    → read_record (pre ++ (bytes_of a ++ s)) (length pre)
      ≡ ok (
        record {
          name = plain_name a.name;
          rtype = a.rtype;
          rdata = a.rdata;
          rd_off = length pre + length a.encoded + 10;
        },
        length pre + length (bytes_of a),
      )
unfolding read_record
read_record-bytes_of pre s a h =
    let msg = pre ++ (bytes_of a ++ s) in
    let n = length pre + length a.encoded in
    let text = a.rdata ++ s in
    let sized = high_low (length a.rdata) ++ text in
    let kind = high_low a.rtype ++ (a.class_ttl ++ sized) in
    let layout : bytes_of a ++ s ≡ a.encoded ++ kind = bytes_of-append a s in
    let named = name_at-encode_name a.name a.encoded pre kind h.fits h.named in
    let at_kind : msg ≡ (pre ++ a.encoded) ++ kind =
      ap (◌++◌ pre) layout ∙ sym (append_assoc pre a.encoded kind) in
    let pre_size = (pre ++ a.encoded) ++ (high_low a.rtype ++ a.class_ttl) in
    let at_size : msg ≡ pre_size ++ sized =
      at_kind ∙ sym (append_assoc (pre ++ a.encoded) (high_low a.rtype ++ a.class_ttl) sized) in
    let at_data : msg ≡ (pre_size ++ high_low (length a.rdata)) ++ text =
      at_size ∙ sym (append_assoc pre_size (high_low (length a.rdata)) text) in
    let lengths : n + 8 ≡ length pre_size = omega (
      arith,
      h.six,
      length-append pre a.encoded,
      length-append (pre ++ a.encoded) (high_low a.rtype ++ a.class_ttl),
    ) in
    let lengths' : n + 10 ≡ length (pre_size ++ high_low (length a.rdata)) =
      omega (arith, lengths, length-append pre_size (high_low (length a.rdata))) in
    let rtype =
      be16-high_low (pre ++ a.encoded) (a.class_ttl ++ sized) msg a.rtype n at_kind
        (sym (length-append pre a.encoded)) in
    let size = be16-high_low pre_size text msg (length a.rdata) (n + 8) at_size lengths in
    let (sliced, within) =
      slice_behind (pre_size ++ high_low (length a.rdata)) a.rdata s msg (n + 10) at_data
        lengths' in
    let name_read : name_at msg (length pre) ≡ ok (plain_name a.name, n) =
      ap (λ bs. name_at (pre ++ bs) (length pre)) layout ∙ named in
    let end : n + 10 + length a.rdata ≡ length pre + length (bytes_of a) =
      omega (arith, length_of a h) in
    rw name_read (rw (within, rtype, size, sliced, end) refl)

pub read_records-bytes_of :
    (answers : List Answer) (pre s : Bytes)
    → All IsAnswer answers
    → read_records (length answers) (pre ++ (bytes_of_all answers ++ s)) (length pre)
      ≡ records_at (length pre) answers
unfolding read_records
read_records-bytes_of [] pre s h = refl
read_records-bytes_of (a ∷ answers) pre s h =
    let raw = bytes_of a in
    let regroup : raw ++ bytes_of_all answers ++ s ≡ raw ++ (bytes_of_all answers ++ s) =
      append_assoc raw (bytes_of_all answers) s in
    let first = read_record-bytes_of pre (bytes_of_all answers ++ s) a h.0 in
    let moved : pre ++ (raw ++ (bytes_of_all answers ++ s))
        ≡ (pre ++ raw) ++ (bytes_of_all answers ++ s) =
      sym (append_assoc pre raw (bytes_of_all answers ++ s)) in
    let ih = read_records-bytes_of answers (pre ++ raw) s h.1 in
    let later : read_records (length answers) (pre ++ (raw ++ (bytes_of_all answers ++ s)))
          (length pre + length raw)
        ≡ records_at (length pre + length raw) answers =
      rw (moved, sym (length-append pre raw)) ih in
    ap (λ bs. read_records (suc (length answers)) (pre ++ bs) (length pre)) regroup
    ∙ rw (read_records, first) (rw later refl)
