-- ===== src/Text/Utf8/Scalars.antt =====
-- What decoding UTF-8 can give: characters that can be encoded.
use dometic_ddmp.Base.{
  ℕ, ◌+◌, ◌*◌, ◌/◌, ◌%◌, ◌-◌, ◌<◌, ◌≤◌, ◌≡◌, ◌⊎◌, inl, inr, refl, false, ◌&&◌, List, [], ◌∷◌, ◌++◌,
  All, All-append, leb, ltb, ◌==◌, Bool-cases, arith,
}
use dometic_ddmp.Bytes.{Bytes}
use dometic_ddmp.Result.{ok}
use dometic_ddmp.Text.Utf8.{
  State, ground as between, inside, begin, step, run, decode, encode_char, encode,
}

-- A character that is not zero, not a surrogate and not above 0x10ffff.
abbrev pub IsScalar : ℕ → Type 0
IsScalar c = ((c == 0) ≡ false) × ((c < 0xd800) ⊎ ((0xe000 ≤ c) × (c < 0x110000)))

-- The states between the bytes of a sequence, by the bytes that are left.
data IsOpen : State → Type 0 where
  start : IsOpen between
  last :
      (acc : ℕ)
      → (((2 ≤ acc) × (acc < 864)) ⊎ ((896 ≤ acc) × (acc < 17408)))
      → IsOpen (inside 1 0x80 0xbf acc)
  short : IsOpen (inside 2 0xa0 0xbf 0)
  before_surrogates : IsOpen (inside 2 0x80 0x9f 13)
  middle :
      (acc : ℕ)
      → (((1 ≤ acc) × (acc < 13)) ⊎ ((14 ≤ acc) × (acc < 272)))
      → IsOpen (inside 2 0x80 0xbf acc)
  low : IsOpen (inside 3 0x90 0xbf 0)
  wide : (acc : ℕ) → (1 ≤ acc) → (acc < 4) → IsOpen (inside 3 0x80 0xbf acc)
  high : IsOpen (inside 3 0x80 0x8f 4)

abbrev IsFine : List ℕ × State → Type 0
IsFine r = All IsScalar r.0 × IsOpen r.1

replaced : IsScalar 0xfffd
replaced = (refl, inr (omega arith))

begin-IsFine : (b : ℕ) → (b == 0) ≡ false → IsFine (begin b)
unfolding begin
begin-IsFine b h = elim (Bool-cases (ltb b 0x80)) [
  | inl e ↦ rw e (((h, inl (ground arith)), tt), start)
  | inr e ↦ elim (Bool-cases (leb 0xc2 b && leb b 0xdf)) [
    | inl e1 ↦ rw (e, e1) (tt, last (b - 0xc0) (inl (ground arith)))
    | inr e1 ↦ elim (Bool-cases (b == 0xe0)) [
      | inl e2 ↦ rw (e, e1, e2) (tt, short)
      | inr e2 ↦ elim (Bool-cases (b == 0xed)) [
        | inl e3 ↦ rw (e, e1, e2, e3) (tt, before_surrogates)
        | inr e3 ↦ elim (Bool-cases (leb 0xe1 b && leb b 0xef)) [
          | inl e4 ↦ rw (e, e1, e2, e3, e4) (tt, middle (b - 0xe0) (ground arith))
          | inr e4 ↦ elim (Bool-cases (b == 0xf0)) [
            | inl e5 ↦ rw (e, e1, e2, e3, e4, e5) (tt, low)
            | inr e5 ↦ elim (Bool-cases (leb 0xf1 b && leb b 0xf3)) [
              | inl e6 ↦
                  rw (e, e1, e2, e3, e4, e5, e6) (tt, wide (b - 0xf0) (ground arith) (ground arith))
              | inr e6 ↦ elim (Bool-cases (b == 0xf4)) [
                | inl e7 ↦ rw (e, e1, e2, e3, e4, e5, e6, e7) (tt, high)
                | inr e7 ↦ rw (e, e1, e2, e3, e4, e5, e6, e7) ((replaced, tt), start)
              ]
            ]
          ]
        ]
      ]
    ]
  ]
]

broken :
    (left lo hi acc b : ℕ)
    → (b == 0) ≡ false
    → (leb lo b && leb b hi) ≡ false
    → IsFine (step (inside left lo hi acc) b)
unfolding step
broken left lo hi acc b h e =
    let (chars, next) = begin-IsFine b h in rw (step, e) ((replaced, chars), next)

-- A byte in the range that a sequence with more bytes behind it wants.
goes_on :
    (left lo hi acc b : ℕ)
    → (b == 0) ≡ false
    → (left == 1) ≡ false
    → ((lo ≤ b) → (b ≤ hi) → IsOpen (inside (left - 1) 0x80 0xbf (acc * 0x40 + (b - 0x80))))
    → IsFine (step (inside left lo hi acc) b)
unfolding step
goes_on left lo hi acc b h more next = elim (Bool-cases (leb lo b && leb b hi)) [
  | inr e ↦ broken left lo hi acc b h e
  | inl e ↦ rw (step, e, more) (tt, next (ground arith) (ground arith))
]

step-IsFine : (s : State) (b : ℕ) → IsOpen s → (b == 0) ≡ false → IsFine (step s b)
unfolding step
step-IsFine s b start h = begin-IsFine b h
step-IsFine s b (last acc small) h = elim (Bool-cases (leb 0x80 b && leb b 0xbf)) [
  | inr e ↦ broken 1 0x80 0xbf acc b h e
  | inl e ↦ rw (step, e) (((ground arith, ground arith), tt), start)
]
step-IsFine s b short h =
    goes_on 2 0xa0 0xbf 0 b h refl (λ low_b high_b. last (0 * 0x40 + (b - 0x80)) (ground arith))
step-IsFine s b before_surrogates h =
    goes_on 2 0x80 0x9f 13 b h refl (λ low_b high_b. last (13 * 0x40 + (b - 0x80)) (ground arith))
step-IsFine s b (middle acc small) h =
    goes_on 2 0x80 0xbf acc b h refl (λ low_b high_b. last (acc * 0x40 + (b - 0x80)) (ground arith))
step-IsFine s b low h =
    goes_on 3 0x90 0xbf 0 b h refl (λ low_b high_b. middle (0 * 0x40 + (b - 0x80)) (ground arith))
step-IsFine s b (wide acc least most) h =
    goes_on 3 0x80 0xbf acc b h refl
      (λ low_b high_b. middle (acc * 0x40 + (b - 0x80)) (ground arith))
step-IsFine s b high h =
    goes_on 3 0x80 0x8f 4 b h refl (λ low_b high_b. middle (4 * 0x40 + (b - 0x80)) (ground arith))

run-AreScalars :
    (s : State) (bs : Bytes) → IsOpen s → All (λ b. (b == 0) ≡ false) bs → All IsScalar (run s bs)
unfolding run
run-AreScalars between [] opened h = tt
run-AreScalars (inside left lo hi acc) [] opened h = (replaced, tt)
run-AreScalars between (b ∷ bs) opened h =
    let (chars, next) = step-IsFine between b opened h.0 in
    All-append IsScalar (step between b).0 (run (step between b).1 bs) chars
      (run-AreScalars (step between b).1 bs next h.1)
run-AreScalars (inside left lo hi acc) (b ∷ bs) opened h =
    let s = inside left lo hi acc in
    let (chars, next) = step-IsFine s b opened h.0 in
    All-append IsScalar (step s b).0 (run (step s b).1 bs) chars
      (run-AreScalars (step s b).1 bs next h.1)

-- Bytes without a zero byte decode to characters that can be encoded.
pub decode-AreScalars : (bs : Bytes) → All (λ b. (b == 0) ≡ false) bs → All IsScalar (decode bs)
unfolding decode
decode-AreScalars bs h = run-AreScalars between bs start h

encode_char-total : (c : ℕ) → IsScalar c → (bs : Bytes) × (encode_char c ≡ ok bs)
unfolding encode_char
encode_char-total c (nonzero, inl h) = elim (Bool-cases (ltb c 0x80)) [
  | inl e ↦ (c ∷ [], ground arith)
  | inr e ↦ elim (Bool-cases (ltb c 0x800)) [
    | inl e1 ↦ ((0xc0 + c / 0x40) ∷ (0x80 + c % 0x40) ∷ [], ground arith)
    | inr e1 ↦
        ((0xe0 + c / 0x1000) ∷ (0x80 + c / 0x40 % 0x40) ∷ (0x80 + c % 0x40) ∷ [], ground arith)
  ]
]
encode_char-total c (nonzero, inr h) = elim (Bool-cases (ltb c 0x10000)) [
  | inl e ↦ ((0xe0 + c / 0x1000) ∷ (0x80 + c / 0x40 % 0x40) ∷ (0x80 + c % 0x40) ∷ [], ground arith)
  | inr e ↦ (
    (0xf0 + c / 0x40000)
        ∷ (0x80 + c / 0x1000 % 0x40)
        ∷ (0x80 + c / 0x40 % 0x40)
        ∷ (0x80 + c % 0x40)
        ∷ [],
    ground arith,
  )
]

pub encode-total : (s : List ℕ) → All IsScalar s → (bs : Bytes) × (encode s ≡ ok bs)
unfolding encode
encode-total [] h = ([], refl)
encode-total (c ∷ s) h =
    let (first, e) = encode_char-total c h.0 in
    let (rest, e') = encode-total s h.1 in (first ++ rest, rw (e, e'))
