-- ===== src/Base64/Range.antt =====
-- The numbers that base64 decodes to are bytes, whatever the characters.
use dometic_ddmp.Base.{
  ℕ, ◌+◌, ◌<◌, ◌≡◌, refl, inl, inr, Bool-cases, false, Option-cases, some, [], ◌∷◌, ◌++◌,
  All-append, leb, ◌==◌, if◌then◌else◌, arith,
}
use dometic_ddmp.Bytes.{Bytes, IsBytes}
use dometic_ddmp.Result.{ok, >>=-eq-ok}
use dometic_ddmp.Base64.{
  State, Step, fail, finish, more, start, pad_step, data_step, step, run, decode,
}
use dometic_ddmp.Base64.Digits.{sextet, pad}

-- The bits that are kept back at a place of the group are this few.
abbrev room : ℕ → ℕ
room q = if leb q 1 then 64 else if q == 2 then 16 else 4

abbrev IsSmall : Step → Type 0
IsSmall fail = Unit
IsSmall finish = Unit
IsSmall (more s out) = (s.leftchar < room s.quad_pos) × IsBytes out

sextet_small : (c v : ℕ) → sextet c ≡ some v → v < 64
unfolding sextet
sextet_small c v h = ground arith

pad_step-IsSmall : (s : State) → s.leftchar < room s.quad_pos → IsSmall (pad_step s)
unfolding pad_step
pad_step-IsSmall s h = elim (Bool-cases (leb 2 s.quad_pos)) [
  | inl e ↦ elim (Bool-cases (leb 4 (s.quad_pos + (s.pads + 1)))) [
    | inl e1 ↦ rw (e, e1) tt
    | inr e1 ↦ rw (e, e1) (h, tt)
  ]
  | inr e ↦ rw e (h, tt)
]

data_step-IsSmall :
    (s : State) (v : ℕ) → s.leftchar < room s.quad_pos → v < 64 → IsSmall (data_step s v)
unfolding data_step
data_step-IsSmall s v h small = elim (Bool-cases (s.quad_pos == 0)) [
  | inl e ↦ rw e (ground arith, tt)
  | inr e ↦ elim (Bool-cases (s.quad_pos == 1)) [
    | inl e1 ↦ rw (e, e1) (ground arith, (ground arith, tt))
    | inr e1 ↦ elim (Bool-cases (s.quad_pos == 2)) [
      | inl e2 ↦ rw (e, e1, e2) (ground arith, (ground arith, tt))
      | inr e2 ↦ rw (e, e1, e2) (ground arith, (ground arith, tt))
    ]
  ]
]

step_data :
    (s : State) (c v : ℕ)
    → (c == pad) ≡ false
    → sextet c ≡ some v
    → s.padding_started ≡ false
    → step s c ≡ data_step s v
unfolding step
step_data s c v e some_c e1 = ground arith

step-IsSmall : (s : State) (c : ℕ) → s.leftchar < room s.quad_pos → IsSmall (step s c)
unfolding step
step-IsSmall s c h = elim (Bool-cases (c == pad)) [
  | inl e ↦ rw e (pad_step-IsSmall s h)
  | inr e ↦ elim (Option-cases (sextet c)) [
    | inl none_c ↦ rw (e, none_c) tt
    | inr (v, some_c) ↦ elim (Bool-cases s.padding_started) [
      | inl e1 ↦ rw (e, some_c, e1) tt
      | inr e1 ↦
          rw (step_data s c v e some_c e1) (data_step-IsSmall s v h (sextet_small c v some_c))
    ]
  ]
]

-- What the loop makes of the result of one character.
run_after :
    (r : Step) (s : State) (c : ℕ) (cs raw : Bytes)
    → step s c ≡ r
    → IsSmall r
    → ((t : State) (rest : Bytes)
        → t.leftchar < room t.quad_pos
        → run t cs ≡ ok rest
        → IsBytes rest)
    → run s (c ∷ cs) ≡ ok raw
    → IsBytes raw
unfolding run
run_after fail s c cs raw e small ih h = absurd (ground (arith, e))
run_after finish s c [] raw e small ih h = let same : raw ≡ [] = ground (arith, e) in rw same tt
run_after finish s c (d ∷ cs) raw e small ih h = absurd (ground (arith, e))
run_after (more t out) s c cs raw e small ih h =
    let (rest, later, same) = >>=-eq-ok (run t cs) (λ rest. ok (out ++ rest)) (rw (run, e) at h) in
    let split : raw ≡ out ++ rest = ground arith in
    rw split (All-append _ out rest small.1 (ih t rest small.0 later))

run-IsBytes :
    (cs : Bytes) (s : State) (raw : Bytes)
    → s.leftchar < room s.quad_pos
    → run s cs ≡ ok raw
    → IsBytes raw
unfolding run
run-IsBytes [] s raw h e = let same : raw ≡ [] = ground arith in rw same tt
run-IsBytes (c ∷ cs) s raw h e =
    run_after (step s c) s c cs raw refl (step-IsSmall s c h)
      (λ t rest small later. run-IsBytes cs t rest small later) e

pub decode-IsBytes : (cs raw : Bytes) → decode cs ≡ ok raw → IsBytes raw
unfolding decode
decode-IsBytes [] raw e = let same : raw ≡ [] = ground arith in rw same tt
decode-IsBytes (c ∷ cs) raw e =
    let ran : run start (c ∷ cs) ≡ ok raw = ground arith in
    run-IsBytes (c ∷ cs) start raw (omega arith) ran
