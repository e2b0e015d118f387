-- ===== src/Codec/Pairs.antt =====
-- Ranges: arrays of pairs of scaled integers.
use dometic_ddmp.Base.{ℤ, ◌≡◌, refl, ap, ◌∙◌, List, [], ◌∷◌, ◌++◌, map, All}
use dometic_ddmp.Bytes.{Bytes, concat}
use dometic_ddmp.Result.{ok, traverse}
use dometic_ddmp.Words.{IsInt32, i32s}
use dometic_ddmp.Words.Laws.{i32s-pack_i32, word-pack_i32}
use dometic_ddmp.Value.{float_atom, Item, pair, many, Floats, items, unpack}
use dometic_ddmp.Value.Milli.{FloatLaws}
use dometic_ddmp.Codec.{milli_pair_array, decode, encode, float_of, pairs, pack_pair}
use dometic_ddmp.Codec.Numbers.{RoundTrips}

abbrev pub IsRange : ℤ × ℤ → Type 0
IsRange r = IsInt32 r.0 × IsInt32 r.1

abbrev flat : List (ℤ × ℤ) → List ℤ
flat [] = []
flat (r ∷ rs) = r.0 ∷ r.1 ∷ flat rs

module _ {F : Type 0} ⦃fl : Floats F⦄ where
  abbrev pub range_item : ℤ × ℤ → Item F
  range_item r = pair (float_of r.0) (float_of r.1)

  pairs-flat : (rs : List (ℤ × ℤ)) → pairs (flat rs) ≡ map range_item rs
  unfolding pairs
  pairs-flat [] = refl
  pairs-flat (r ∷ rs) = ap (◌∷◌ (range_item r)) (pairs-flat rs)

module _ (F : Type 0) ⦃fl : Floats F⦄ (laws : FloatLaws F) where
  -- The bytes of a pair hold its two words.
  pack_pair-range_item :
      (r : ℤ × ℤ)
      → IsRange r
      → (raw : Bytes) × (pack_pair {F = F} (range_item r) ≡ ok raw)
        × ((rest : Bytes) → i32s (raw ++ rest) ≡ r.0 ∷ r.1 ∷ i32s rest)
  unfolding pack_pair unpack float_atom
  pack_pair-range_item r h =
      let (a, b, c, d, first, _, _) = word-pack_i32 r.0 h.0 in
      let (a', b', c', d', second, _, _) = word-pack_i32 r.1 h.1 in
      let lo = a ∷ b ∷ c ∷ d ∷ [] in
      let hi = a' ∷ b' ∷ c' ∷ d' ∷ [] in
      (
        lo ++ (hi ++ []),
        rw (laws.to_milli-of_milli r.0 h.0, laws.to_milli-of_milli r.1 h.1, first, second),
        λ rest.
            i32s-pack_i32 r.0 lo (hi ++ rest) first
            ∙ ap (◌∷◌ r.0) (i32s-pack_i32 r.1 hi rest second),
      )

  traverse-ranges :
      (rs : List (ℤ × ℤ))
      → All IsRange rs
      → (chunks : List Bytes) × (traverse (pack_pair {F = F}) (map range_item rs) ≡ ok chunks)
        × (i32s (concat chunks) ≡ flat rs)
  traverse-ranges [] h = ([], refl, unfold i32s in refl)
  traverse-ranges (r ∷ rs) h =
      let (raw, packed, words) = pack_pair-range_item r h.0 in
      let (chunks, e, rest) = traverse-ranges rs h.1 in
      (raw ∷ chunks, rw (packed, e), rw (words (concat chunks), rest))

  pub ranges-RoundTrips :
      (rs : List (ℤ × ℤ))
      → All IsRange rs
      → RoundTrips milli_pair_array (many (map (range_item {F = F}) rs))
  unfolding encode decode items
  ranges-RoundTrips rs h =
      let (chunks, e, words) = traverse-ranges rs h in
      (concat chunks, rw e, rw words (ap (λ xs. ok (many xs)) (pairs-flat rs)))
