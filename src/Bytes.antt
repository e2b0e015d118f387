-- ===== src/Bytes.antt =====
-- Python's `bytes`: lists of numbers, with the operations that the program uses.
use dometic_ddmp.Base.{
  ℕ, ◌<◌, ◌≡◌, refl, Bool, true, false, ◌&&◌, ◌||◌, inl, inr, Bool-cases, arith, List, [], ◌∷◌,
  ◌++◌, All, ltb, ◌==◌, if◌then◌else◌,
}
use dometic_ddmp.Result.{Result, ok, err, value_error, ◌>>=◌}

abbrev pub Bytes : Type 0
Bytes = List ℕ

abbrev pub IsBytes : Bytes → Type 0
IsBytes = All (λ b. b < 256)

-- `bytes(xs)`, which refuses a number that is no byte.
abbrev pub pack_bytes : List ℕ → Result Bytes
pack_bytes [] = ok []
pack_bytes (x ∷ xs) =
    if ltb x 256 then (do rest ← pack_bytes xs; ok (x ∷ rest)) else err value_error

pub pack_bytes-of_IsBytes : (xs : List ℕ) → IsBytes xs → pack_bytes xs ≡ ok xs
pack_bytes-of_IsBytes [] h = refl
pack_bytes-of_IsBytes (x ∷ xs) h = ground (arith, pack_bytes-of_IsBytes xs)

-- ASCII white space, as `bytes.strip` sees it.
unfoldable pub is_space : ℕ → Bool
is_space c = c == 32 || c == 9 || c == 10 || c == 11 || c == 12 || c == 13

abbrev pub strip_left : (ℕ → Bool) → List ℕ → List ℕ
strip_left space [] = []
strip_left space (c ∷ s) = if space c then strip_left space s else c ∷ s

abbrev pub all_space : (ℕ → Bool) → List ℕ → Bool
all_space space [] = true
all_space space (c ∷ s) = space c && all_space space s

abbrev pub strip_right : (ℕ → Bool) → List ℕ → List ℕ
strip_right space [] = []
strip_right space (c ∷ s) = if all_space space (c ∷ s) then [] else c ∷ strip_right space s

-- `strip()` of bytes and of text, which differ in what is white space.
abbrev pub strip : (ℕ → Bool) → List ℕ → List ℕ
strip space s = strip_right space (strip_left space s)

module _ (space : ℕ → Bool) where
  abbrev pub IsSolid : ℕ → Type 0
  IsSolid c = space c ≡ false

  -- A text without white space is not changed.
  pub strip_right-of_solid : (s : List ℕ) → All IsSolid s → strip_right space s ≡ s
  strip_right-of_solid [] h = refl
  strip_right-of_solid (c ∷ s) h = ground (arith, strip_right-of_solid s)

  pub strip-of_solid : (s : List ℕ) → All IsSolid s → strip space s ≡ s
  strip-of_solid [] h = refl
  strip-of_solid (c ∷ s) h = ground (arith, strip_right-of_solid (c ∷ s))

  all_space-of_end : (s : List ℕ) (c : ℕ) → IsSolid c → all_space space (s ++ c ∷ []) ≡ false
  all_space-of_end [] c h = ground arith
  all_space-of_end (d ∷ s) c h = ground (arith, all_space-of_end s c h)

  strip_right-of_end :
      (s : List ℕ) (c : ℕ) → IsSolid c → strip_right space (s ++ c ∷ []) ≡ s ++ c ∷ []
  strip_right-of_end [] c h = ground arith
  strip_right-of_end (d ∷ s) c h = ground (arith, all_space-of_end s c h, strip_right-of_end s c h)

  -- A text whose ends are no white space is not changed.
  pub strip-of_ends :
      (b : ℕ) (s : List ℕ) (c : ℕ)
      → IsSolid b
      → IsSolid c
      → strip space (b ∷ s ++ c ∷ []) ≡ b ∷ s ++ c ∷ []
  strip-of_ends b s c h k = rw h (strip_right-of_end (b ∷ s) c k)

  all_space-strip_right : (s : List ℕ) → all_space space (strip_right space s) ≡ all_space space s
  all_space-strip_right [] = refl
  all_space-strip_right (c ∷ s) = ground (arith, all_space-strip_right s)

  strip_right_again : (s : List ℕ) → strip_right space (strip_right space s) ≡ strip_right space s
  strip_right_again [] = refl
  strip_right_again (c ∷ s) = ground (arith, strip_right_again s, all_space-strip_right s)

  strip_left-strip_right :
      (c : ℕ) (s : List ℕ)
      → space c ≡ false
      → strip_left space (strip_right space (c ∷ s)) ≡ strip_right space (c ∷ s)
  strip_left-strip_right c s h = ground arith

  strip_left_again :
      (s : List ℕ)
      → strip_left space (strip_right space (strip_left space s))
        ≡ strip_right space (strip_left space s)
  strip_left_again [] = refl
  strip_left_again (c ∷ s) = elim (Bool-cases (space c)) [
    | inl e ↦ rw e (strip_left_again s)
    | inr e ↦ rw e (strip_left-strip_right c s e)
  ]

  -- What is stripped has nothing more to strip.
  pub strip_again : (s : List ℕ) → strip space (strip space s) ≡ strip space s
  strip_again s = rw (strip_left_again s) (strip_right_again (strip_left space s))

  strip_left-All {κ} : (P : ℕ → Type κ) (s : List ℕ) → All P s → All P (strip_left space s)
  strip_left-All P [] h = tt
  strip_left-All P (c ∷ s) h = elim (Bool-cases (space c)) [
    | inl e ↦ rw e (strip_left-All P s h.1)
    | inr e ↦ rw e h
  ]

  strip_right-All {κ} : (P : ℕ → Type κ) (s : List ℕ) → All P s → All P (strip_right space s)
  strip_right-All P [] h = tt
  strip_right-All P (c ∷ s) h = elim (Bool-cases (all_space space (c ∷ s))) [
    | inl e ↦ rw e tt
    | inr e ↦ rw e (h.0, strip_right-All P s h.1)
  ]

  pub strip-All {κ} : (P : ℕ → Type κ) (s : List ℕ) → All P s → All P (strip space s)
  strip-All P s h = strip_right-All P (strip_left space s) (strip_left-All P s h)

-- `b"".join(chunks)`
abbrev pub concat : List Bytes → Bytes
concat [] = []
concat (chunk ∷ chunks) = chunk ++ concat chunks
