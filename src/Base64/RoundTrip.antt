-- ===== src/Base64/RoundTrip.antt =====
-- Decoding undoes encoding, and the encoded text is free of white space.
use dometic_ddmp.Base.{ℕ, ◌+◌, ◌*◌, ◌/◌, ◌%◌, ◌<◌, ◌≡◌, refl, ap, false, [], ◌∷◌, ◌++◌, All, arith}
use mathlib.Core.Path.{ap₂}
use dometic_ddmp.Bytes.{Bytes, IsBytes}
use dometic_ddmp.Result.{ok, ◌>>=◌}
use dometic_ddmp.Base64.{encode, decode, run, step, data_step, pad_step, start, State, more}
use dometic_ddmp.Base64.Digits.{
  digit, pad, IsPlain, sextet-digit, digit-ne-pad, digit-IsPlain, pad-IsPlain,
}

step-digit :
    (s : State) (n : ℕ) → n < 64 → s.padding_started ≡ false → step s (digit n) ≡ data_step s n
unfolding step
step-digit s n h p = ground (arith, sextet-digit n, digit-ne-pad n)

abbrev at : ℕ → ℕ → State
at q left = record { quad_pos = q; leftchar = left; pads = 0; padding_started = false }

run-more :
    (s s' : State) (c : ℕ) (out cs : Bytes)
    → step s c ≡ more s' out
    → run s (c ∷ cs) ≡ (run s' cs >>= λ rest. ok (out ++ rest))
unfolding run
run-more s s' c out cs h = rw (h, run)

-- One digit, at each place of the group.
run_first : (x : ℕ) (cs : Bytes) → x < 64 → run start (digit x ∷ cs) ≡ (run (at 1 x) cs >>= ok)
run_first x cs h = run-more start (at 1 x) _ [] cs (unfold data_step in step-digit start x h refl)

run_second :
    (x y : ℕ) (cs : Bytes)
    → y < 64
    → run (at 1 x) (digit y ∷ cs)
      ≡ (run (at 2 (y % 16)) cs >>= λ rest. ok ((x * 4 + y / 16) ∷ rest))
run_second x y cs h =
    run-more (at 1 x) (at 2 (y % 16)) _ ((x * 4 + y / 16) ∷ []) cs
      (unfold data_step in step-digit (at 1 x) y h refl)

run_third :
    (y z : ℕ) (cs : Bytes)
    → z < 64
    → run (at 2 y) (digit z ∷ cs) ≡ (run (at 3 (z % 4)) cs >>= λ rest. ok ((y * 16 + z / 4) ∷ rest))
run_third y z cs h =
    run-more (at 2 y) (at 3 (z % 4)) _ ((y * 16 + z / 4) ∷ []) cs
      (unfold data_step in step-digit (at 2 y) z h refl)

run_fourth :
    (z w : ℕ) (cs : Bytes)
    → w < 64
    → run (at 3 z) (digit w ∷ cs) ≡ (run start cs >>= λ rest. ok ((z * 64 + w) ∷ rest))
run_fourth z w cs h =
    run-more (at 3 z) start _ ((z * 64 + w) ∷ []) cs
      (unfold data_step in step-digit (at 3 z) w h refl)

run_pads_two : (y : ℕ) → run (at 2 y) (pad ∷ pad ∷ []) ≡ ok []
unfolding run step pad_step
run_pads_two y = refl

run-pad : (z : ℕ) → run (at 3 z) (pad ∷ []) ≡ ok []
unfolding run step pad_step
run-pad z = refl

run-encode : (bs : Bytes) → IsBytes bs → run start (encode bs) ≡ ok bs
unfolding encode
run-encode [] h = unfold run in refl
run-encode (a ∷ []) h =
    rw
      (
        run_first (a / 4) _ (omega arith),
        run_second (a / 4) (a % 4 * 16) _ (omega arith),
        run_pads_two,
      )
      (ap (λ x. ok (x ∷ [])) (omega arith))
run-encode (a ∷ b ∷ []) h =
    rw
      (
        run_first (a / 4) _ (omega arith),
        run_second (a / 4) (a % 4 * 16 + b / 16) _ (omega arith),
        run_third ((a % 4 * 16 + b / 16) % 16) (b % 16 * 4) _ (omega arith),
        run-pad,
      )
      (ap₂ (λ x y. ok (x ∷ y ∷ [])) (omega arith) (omega arith))
run-encode (a ∷ b ∷ c ∷ rest) h =
    rw
      (
        run_first (a / 4) _ (omega arith),
        run_second (a / 4) (a % 4 * 16 + b / 16) _ (omega arith),
        run_third ((a % 4 * 16 + b / 16) % 16) (b % 16 * 4 + c / 64) _ (omega arith),
        run_fourth ((b % 16 * 4 + c / 64) % 4) (c % 64) _ (omega arith),
        run-encode rest h.1.1.1,
      )
      (ground arith)

decode-eq-run : (n : ℕ) (cs : Bytes) → n < 64 → decode (digit n ∷ cs) ≡ run start (digit n ∷ cs)
unfolding decode
decode-eq-run n cs h = rw (digit-ne-pad n h)

-- Decoding the encoding of any bytes gives the bytes back.
pub decode-encode_base64 : (bs : Bytes) → IsBytes bs → decode (encode bs) ≡ ok bs
unfolding encode
decode-encode_base64 [] h = unfold decode in refl
decode-encode_base64 (a ∷ []) h = rw (decode-eq-run (a / 4) _ (omega arith)) (run-encode (a ∷ []) h)
decode-encode_base64 (a ∷ b ∷ []) h =
    rw (decode-eq-run (a / 4) _ (omega arith)) (run-encode (a ∷ b ∷ []) h)
decode-encode_base64 (a ∷ b ∷ c ∷ rest) h =
    rw (decode-eq-run (a / 4) _ (omega arith)) (run-encode (a ∷ b ∷ c ∷ rest) h)

-- No character of an encoded text is white space.
pub encode-IsPlain : (bs : Bytes) → IsBytes bs → All IsPlain (encode bs)
unfolding encode
encode-IsPlain [] h = tt
encode-IsPlain (a ∷ []) h = (
  digit-IsPlain (a / 4) (omega arith),
  (digit-IsPlain (a % 4 * 16) (omega arith), (pad-IsPlain, (pad-IsPlain, tt))),
)
encode-IsPlain (a ∷ b ∷ []) h = (
  digit-IsPlain (a / 4) (omega arith),
  (
    digit-IsPlain (a % 4 * 16 + b / 16) (omega arith),
    (digit-IsPlain (b % 16 * 4) (omega arith), (pad-IsPlain, tt)),
  ),
)
encode-IsPlain (a ∷ b ∷ c ∷ rest) h = (
  digit-IsPlain (a / 4) (omega arith),
  (
    digit-IsPlain (a % 4 * 16 + b / 16) (omega arith),
    (
      digit-IsPlain (b % 16 * 4 + c / 64) (omega arith),
      (digit-IsPlain (c % 64) (omega arith), encode-IsPlain rest h.1.1.1),
    ),
  ),
)
