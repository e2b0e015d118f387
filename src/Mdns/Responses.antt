-- ===== src/Mdns/Responses.antt =====
-- A whole response, and what `parse_response` of src/ddmp/discovery.py reads in it.
use dometic_ddmp.Base.{
  ℕ, ◌+◌, ◌≡◌, refl, sym, ap, ◌∙◌, false, List, [], ◌∷◌, ◌++◌, length, length-append, append_assoc,
  All, ltb, arith,
}
use dometic_ddmp.Bytes.{Bytes}
use dometic_ddmp.Result.{ok, >>=-eq-ok}
use dometic_ddmp.Text.{Text, split}
use dometic_ddmp.Mdns.Message.{
  encode_name, encode_questions, pack16, name_at, skip_questions, read_records, sections,
  parse_response,
}
use dometic_ddmp.Mdns.RoundTrip.{Fits, name_at-encode_name}
use dometic_ddmp.Mdns.Answers.{
  Answer, IsAnswer, plain_name, high_low, bytes_of_all, records_at, be16-high_low,
  read_records-bytes_of,
}

-- The names of questions fit as those of records do.
abbrev pub FitQuestions : List (Text × ℕ) → Type 0
FitQuestions = All (λ q. All Fits (split b'.' (plain_name q.0)))

two_bytes : (n : ℕ) (raw : Bytes) → pack16 n ≡ ok raw → length raw ≡ 2
unfolding pack16
two_bytes n raw h = ground arith

-- A question is its name and four bytes.
encode_questions_steps :
    (name : Text) (qtype qclass : ℕ) (questions : List (Text × ℕ)) (raw : Bytes)
    → encode_questions qclass ((name, qtype) ∷ questions) ≡ ok raw
    → (encoded four tail : Bytes) × (encode_name name ≡ ok encoded)
      × (encode_questions qclass questions ≡ ok tail)
      × (length four ≡ 4)
      × (raw ≡ encoded ++ (four ++ tail))
unfolding encode_questions
encode_questions_steps name qtype qclass questions raw h =
    let (encoded, h_name, h1) = >>=-eq-ok (encode_name name) _ h in
    let (kind, h_kind, h2) = >>=-eq-ok (pack16 qtype) _ h1 in
    let (cls, h_class, h3) = >>=-eq-ok (pack16 qclass) _ h2 in
    let (tail, h_tail, h4) = >>=-eq-ok (encode_questions qclass questions) _ h3 in
    let shape : raw ≡ encoded ++ kind ++ cls ++ tail = ground arith in
    (
      encoded,
      kind ++ cls,
      tail,
      h_name,
      h_tail,
      omega (
        arith,
        two_bytes qtype kind h_kind,
        two_bytes qclass cls h_class,
        length-append kind cls,
      ),
      shape
          ∙ append_assoc (encoded ++ kind) cls tail
          ∙ append_assoc encoded kind (cls ++ tail)
          ∙ ap (◌++◌ encoded) (sym (append_assoc kind cls tail)),
    )

skip_questions-encode_questions :
    (questions : List (Text × ℕ)) (qclass : ℕ) (raw pre s : Bytes)
    → FitQuestions questions
    → encode_questions qclass questions ≡ ok raw
    → skip_questions (length questions) (pre ++ (raw ++ s)) (length pre)
      ≡ ok (length pre + length raw)
unfolding skip_questions
skip_questions-encode_questions [] qclass raw pre s fits h =
    let none_left : raw ≡ [] = unfold encode_questions in ground arith in
    rw none_left (ap ok (omega arith))
skip_questions-encode_questions ((name, qtype) ∷ questions) qclass raw pre s fits h =
    let (encoded, four, tail, h_name, h_tail, size, shape) =
      encode_questions_steps name qtype qclass questions raw h in
    let layout : raw ++ s ≡ encoded ++ (four ++ (tail ++ s)) =
      ap (λ bs. bs ++ s) shape
      ∙ append_assoc encoded (four ++ tail) s
      ∙ ap (◌++◌ encoded) (append_assoc four tail s) in
    let named = name_at-encode_name name encoded pre (four ++ (tail ++ s)) fits.0 h_name in
    let pre' = pre ++ (encoded ++ four) in
    let moved : pre ++ (raw ++ s) ≡ pre' ++ (tail ++ s) =
      ap (◌++◌ pre) (layout ∙ sym (append_assoc encoded four (tail ++ s)))
      ∙ sym (append_assoc pre (encoded ++ four) (tail ++ s)) in
    let lengths = length-append pre (encoded ++ four) in
    let lengths' = length-append encoded four in
    let place : length pre + length encoded + 4 ≡ length pre' =
      omega (arith, size, lengths, lengths') in
    let total : length raw ≡ length encoded + (4 + length tail) =
      ap length shape
      ∙ omega (arith, size, length-append encoded (four ++ tail), length-append four tail) in
    let end : length pre' + length tail ≡ length pre + length raw = omega (arith, place, total) in
    let ih = skip_questions-encode_questions questions qclass tail pre' s fits.1 h_tail in
    let name_read : name_at (pre ++ (raw ++ s)) (length pre)
        ≡ ok (plain_name name, length pre + length encoded) =
      ap (λ bs. name_at (pre ++ bs) (length pre)) layout ∙ named in
    let later : skip_questions (length questions) (pre ++ (raw ++ s))
          (length pre + length encoded + 4)
        ≡ ok (length pre + length raw) =
      rw (moved, place) (ih ∙ ap ok end) in
    rw name_read later

-- A whole response: four bytes of identifier and flags, the counts, the questions, and the records of
-- all three sections.
abbrev pub response : ℕ → ℕ → ℕ → ℕ → ℕ → ℕ → ℕ → ℕ → Bytes → List Answer → Bytes → Bytes
response i i' f f' qd an ns ar questions answers s =
    (i ∷ i' ∷ f ∷ f' ∷ [])
    ++ (high_low qd
        ++ (high_low an
            ++ (high_low ns ++ (high_low ar ++ (questions ++ (bytes_of_all answers ++ s))))))

-- A response whose counts are those of its questions and of its records, each name with labels that
-- fit, is read as these records, in order, each with its name, type, data and the place of its data,
-- whatever stands behind them.
pub parse_response-records_at :
    (i i' f f' an ns ar qclass : ℕ) (questions : List (Text × ℕ)) (raw : Bytes)
    (answers : List Answer) (s : Bytes)
    → FitQuestions questions
    → encode_questions qclass questions ≡ ok raw
    → All IsAnswer answers
    → an + ns + ar ≡ length answers
    → parse_response (response i i' f f' (length questions) an ns ar raw answers s)
      ≡ records_at (12 + length raw) answers
unfolding parse_response sections
parse_response-records_at i i' f f' an ns ar qclass questions raw answers s fits encoded h counts =
    let msg = response i i' f f' (length questions) an ns ar raw answers s in
    let body = raw ++ (bytes_of_all answers ++ s) in
    let a = high_low an in
    let n = high_low ns in
    let r = high_low ar in
    let pre = i ∷ i' ∷ f ∷ f' ∷ [] in
    let q = high_low (length questions) in
    let qd_read = be16-high_low pre (a ++ (n ++ (r ++ body))) msg (length questions) 4 refl refl in
    let an_read = be16-high_low (pre ++ q) (n ++ (r ++ body)) msg an 6 refl refl in
    let ns_read = be16-high_low ((pre ++ q) ++ a) (r ++ body) msg ns 8 refl refl in
    let ar_read = be16-high_low (((pre ++ q) ++ a) ++ n) body msg ar 10 refl refl in
    let header = (((pre ++ q) ++ a) ++ n) ++ r in
    let skipped : skip_questions (length questions) msg 12 ≡ ok (12 + length raw) =
      skip_questions-encode_questions questions qclass raw header (bytes_of_all answers ++ s) fits
        encoded in
    let moved : msg ≡ (header ++ raw) ++ (bytes_of_all answers ++ s) =
      sym (append_assoc header raw (bytes_of_all answers ++ s)) in
    let place : 12 + length raw ≡ length (header ++ raw) =
      omega (arith, length-append header raw) in
    let records : read_records (length answers) msg (12 + length raw)
        ≡ records_at (12 + length raw) answers =
      rw (moved, place) (read_records-bytes_of answers (header ++ raw) s h) in
    let long : ltb (length msg) 12 ≡ false = ground arith in
    rw long (rw (qd_read, an_read, ns_read, ar_read, skipped, counts) records)
