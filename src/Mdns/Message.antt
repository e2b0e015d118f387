-- ===== src/Mdns/Message.antt =====
-- The DNS messages of src/ddmp/discovery.py: names and queries to bytes, answers to records.
use dometic_ddmp.Base.{
  ℕ, zero, suc, ◌+◌, ◌*◌, ◌/◌, ◌%◌, Bool, none, some, List, [], ◌∷◌, ◌++◌, length, get_elem?, take,
  drop, text_eq, ltb, leb, ◌==◌, if◌then◌else◌,
}
use dometic_ddmp.Base.Dict
use dometic_ddmp.Base.Dict.{Dict}
use dometic_ddmp.Bytes.{Bytes, strip}
use dometic_ddmp.Result.{Result, ok, err, value_error, struct_error, ◌>>=◌, ◌>>◌, guard}
use dometic_ddmp.Text.{Text, is_space, split, join_dots, before_first, after_first}
use dometic_ddmp.Text.Utf8
use dometic_ddmp.Mdns.{Labels, read_name, slice}

-- The loop of `_encode_name`.
unfoldable pub encode_labels : List Text → Result Bytes
encode_labels [] = ok (0 ∷ [])
encode_labels (label ∷ labels) = do
  raw ← Utf8.encode label
  guard (ltb (length raw) 256) value_error
  rest ← encode_labels labels
  ok (length raw ∷ raw ++ rest)

-- `_encode_name`
unfoldable pub encode_name : Text → Result Bytes
encode_name name = encode_labels (split b'.' (strip (λ c. c == b'.') name))

-- `struct.pack(">H", n)`
unfoldable pub pack16 : ℕ → Result Bytes
pack16 n = if ltb n 65536 then ok (n / 256 ∷ n % 256 ∷ []) else err struct_error

-- The loop of `build_query`.
unfoldable pub encode_questions : ℕ → List (Text × ℕ) → Result Bytes
encode_questions qclass [] = ok []
encode_questions qclass ((name, qtype) ∷ questions) = do
  encoded ← encode_name name
  kind ← pack16 qtype
  cls ← pack16 qclass
  rest ← encode_questions qclass questions
  ok (encoded ++ kind ++ cls ++ rest)

-- `list(questions) if questions else [(service, 12)]`
abbrev questions_or : Text → List (Text × ℕ) → List (Text × ℕ)
questions_or service [] = (service, 12) ∷ []
questions_or service (q ∷ questions) = q ∷ questions

-- `build_query`; no questions stand for `None` too.
unfoldable pub build_query : Text → Bool → List (Text × ℕ) → Result Bytes
build_query service unicast_response questions = do
  let qs = questions_or service questions
  count ← pack16 (length qs)
  body ← encode_questions (if unicast_response then 0x8001 else 1) qs
  ok ((0 ∷ 0 ∷ 0 ∷ 0 ∷ []) ++ count ++ (0 ∷ 0 ∷ 0 ∷ 0 ∷ 0 ∷ 0 ∷ []) ++ body)

-- `_read_name`, its labels joined with dots. Its fuel never runs out.
unfoldable pub named : Labels → Result (Text × ℕ)
named none = err value_error
named (some (err x)) = err x
named (some (ok (labels, end))) = ok (join_dots labels, end)

unfoldable pub name_at : Bytes → ℕ → Result (Text × ℕ)
name_at msg offset = named (read_name msg offset)

-- `struct.unpack_from(">H", msg, i)[0]`
unfoldable pub be16 : Bytes → ℕ → Result ℕ
be16 msg i = elim (get_elem? msg i) [
  | none ↦ err struct_error
  | some hi ↦ elim (get_elem? msg (i + 1)) [
    | none ↦ err struct_error
    | some lo ↦ ok (hi * 256 + lo)
  ]
]

pub record Record : Type 0 where
  pub name : Text
  pub rtype : ℕ
  pub rdata : Bytes
  pub rd_off : ℕ

-- The loop over the questions: the offset behind them.
unfoldable pub skip_questions : ℕ → Bytes → ℕ → Result ℕ
skip_questions zero msg offset = ok offset
skip_questions (suc n) msg offset = do
  (name, end) ← name_at msg offset
  skip_questions n msg (end + 4)

-- One round of the loop over the records: the record, and the offset behind it.
unfoldable pub read_record : Bytes → ℕ → Result (Record × ℕ)
read_record msg offset = do
  (name, end) ← name_at msg offset
  guard (leb (end + 10) (length msg)) struct_error
  rtype ← be16 msg end
  rdlen ← be16 msg (end + 8)
  ok (
    record { name = name; rtype = rtype; rdata = slice msg (end + 10) rdlen; rd_off = end + 10 },
    end + 10 + rdlen,
  )

-- The records up to the first one that cannot be read.
unfoldable pub read_records : ℕ → Bytes → ℕ → List Record
read_records zero msg offset = []
read_records (suc n) msg offset = elim (read_record msg offset) [
  | err x ↦ []
  | ok (r, next) ↦ r ∷ read_records n msg next
]

-- Where the records start, and how many the header promises.
unfoldable pub sections : Bytes → Result (ℕ × ℕ)
sections msg = do
  qd ← be16 msg 4
  an ← be16 msg 6
  ns ← be16 msg 8
  ar ← be16 msg 10
  offset ← skip_questions qd msg 12
  ok (offset, an + ns + ar)

-- `parse_response`
unfoldable pub parse_response : Bytes → List Record
parse_response msg =
    if ltb (length msg) 12
    then []
    else elim (sections msg) [ err x ↦ [] | ok (offset, n) ↦ read_records n msg offset ]

-- The strings of a TXT record; each takes at least its length byte.
unfoldable pub txt_items : ℕ → Bytes → List Text
txt_items zero rdata = []
txt_items (suc fuel) [] = []
txt_items (suc fuel) (len ∷ rdata) = Utf8.decode (take len rdata) ∷ txt_items fuel (drop len rdata)

-- The entries of the strings.
unfoldable pub put_items : Dict Text Text → List Text → Dict Text Text
put_items txt [] = txt
put_items txt ([] ∷ items) = put_items txt items
put_items txt ((c ∷ item) ∷ items) =
    put_items
      (Dict.put (before_first b'=' (c ∷ item)) (strip is_space (after_first b'=' (c ∷ item))) txt)
      items

-- `_parse_txt`
unfoldable pub parse_txt : Bytes → Dict Text Text
parse_txt rdata = put_items [] (txt_items (length rdata) rdata)
