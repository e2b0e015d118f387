-- ===== src/Session/Consistent.antt =====
-- The two dictionaries of `Session` agree: each value is its raw payload, decoded.
use dometic_ddmp.Base.{
  ℕ, zero, suc, string_eq, ◌≡◌, refl, sym, ap, ◌∙◌, Option, none, some, List, [], ◌∷◌, get_elem?,
  All, arith,
}
use dometic_ddmp.Base.Dict
use dometic_ddmp.Bytes.{Bytes}
use dometic_ddmp.Address.{address_eq}
use dometic_ddmp.Frame.{Frame}
use dometic_ddmp.LineDecoder
use dometic_ddmp.Value.{Floats}
use dometic_ddmp.Topic.{Topic, topics}
use dometic_ddmp.Session.{Session, init, value, feed, on_frames}
use dometic_ddmp.Session.Memory.{newer, newer_value, last_payload, on_frames_remembers_last}

module _ {ℓ κ} {A : Type ℓ} (P : A → Type κ) where
  All-get_elem : (xs : List A) (i : ℕ) (x : A) → All P xs → get_elem? xs i ≡ some x → P x
  All-get_elem [] i x h at_i = absurd (ground arith)
  All-get_elem (y ∷ xs) zero x h at_i = let e : y ≡ x = ground arith in rw e at h.0
  All-get_elem (y ∷ xs) (suc i) x h at_i = All-get_elem xs i x h.1 at_i

  All-of_rows : (xs : List A) → ((i : ℕ) (x : A) → get_elem? xs i ≡ some x → P x) → All P xs
  All-of_rows [] h = tt
  All-of_rows (x ∷ xs) h = (h 0 x refl, All-of_rows xs (λ i y at_i. h (suc i) y at_i))

module _ {F : Type 0} ⦃fl : Floats F⦄ where
  abbrev IsConsistentAt : Session F → Topic → Type 0
  IsConsistentAt s t = value s t.name ≡ newer_value t (Dict.get t.address s.raw) none

  -- Every topic of the table has the value that its raw payload decodes to, or neither.
  abbrev pub IsConsistent : Session F → Type 0
  IsConsistent s = All (IsConsistentAt s) topics

  pub row-IsConsistent :
      (s : Session F) (i : ℕ) (t : Topic)
      → IsConsistent s
      → get_elem? topics i ≡ some t
      → value s t.name ≡ newer_value t (Dict.get t.address s.raw) none
  row-IsConsistent s i t h at_i = All-get_elem (IsConsistentAt s) topics i t h at_i

  newer_value-newer :
      (t : Topic) (latest older : Option Bytes)
      → newer_value t latest (newer_value t older none)
        ≡ newer_value {F = F} t (newer latest older) none
  newer_value-newer t none older = refl
  newer_value-newer t (some payload) older = refl

  pub on_frames-IsConsistent :
      (s : Session F) (fs : List Frame) → IsConsistent s → IsConsistent (on_frames s fs).1
  on_frames-IsConsistent s fs h =
      All-of_rows (IsConsistentAt (on_frames s fs).1) topics (λ i t at_i.
        let (values, raw) = on_frames_remembers_last s fs i t at_i in
        values
        ∙ (ap (newer_value t (last_payload t.address fs)) (row-IsConsistent s i t h at_i)
            ∙ (newer_value-newer t (last_payload t.address fs) (Dict.get t.address s.raw)
                ∙ ap (λ r. newer_value t r none) (sym raw))))

  -- If each topic of the table has the value that its raw payload decodes to, it has so after bytes
  -- are fed.
  pub feed-IsConsistent :
      (s : Session F) (chunk : Bytes) → IsConsistent s → IsConsistent (feed s chunk).1
  unfolding feed value
  feed-IsConsistent s chunk h =
      let (frames, d) = LineDecoder.feed s.decoder chunk in
      on_frames-IsConsistent (record s { decoder = d }) frames h

module _ (F : Type 0) ⦃fl : Floats F⦄ where
  -- A new session is consistent.
  pub init-IsConsistent : IsConsistent (init F)
  unfolding init value Dict.get
  init-IsConsistent =
      All-of_rows
        (λ t. value (init F) t.name ≡ newer_value t (Dict.get t.address (init F).raw) none) topics
        (λ i t at_i. refl)
