-- ===== src/Discovery/Unique.antt =====
-- `discover` of src/ddmp/discovery.py has one entry for each key.
use mathlib.Core.List.{Memᴰ}
use mathlib.Core.List.Memᴰ
use mathlib.Core.Option.{some-injective}
use dometic_ddmp.Base.{
  ◌≡◌, refl, sym, ap, ◌∙◌, Bool, inl, inr, none, some, List, [], ◌∷◌, map, text_eq, All,
  Option-cases, Bool-cases, arith,
}
use dometic_ddmp.Base.Dict
use dometic_ddmp.Base.Dict.{Dict}
use dometic_ddmp.Result.{ok, >>=-eq-ok}
use dometic_ddmp.Text.{Text}
use dometic_ddmp.Discovery.{
  Discovered, Network, merge, finds, key, remember, remember_all, merged, discover,
}
use dometic_ddmp.Discovery.Keyed.{IsKeyed, remember_all-IsKeyed}
use dometic_ddmp.Discovery.Sorting.{IsSorted, sorted-IsSorted, sorted_mem}

-- No key is there twice.
abbrev HasOnce : Dict Text Discovered → Type 0
HasOnce [] = Unit
HasOnce ((k, v) ∷ d) = (Dict.get k d ≡ none) × HasOnce d

put-HasOnce :
    (k : Text) (v : Discovered) (d : Dict Text Discovered) → HasOnce d → HasOnce (Dict.put k v d)
unfolding Dict.put
put-HasOnce k v [] h = unfold Dict.get in (refl, tt)
put-HasOnce k v ((j, w) ∷ d) h = elim (Bool-cases (text_eq.beq j k)) [
  | inl e ↦ rw (Dict.put, e) h
  | inr e ↦
      rw (Dict.put, e)
        (
          Dict.get-put k j v d ∙ ground (arith, text_eq.beq_iff j k, text_eq.beq_iff k j, h.0),
          put-HasOnce k v d h.1,
        )
]

module _ (lower : Text → Text) where
  remember-HasOnce :
      (found : Dict Text Discovered) (d : Discovered)
      → HasOnce found
      → HasOnce (remember lower found d)
  unfolding remember
  remember-HasOnce found d h = elim (Option-cases (Dict.get (key lower d) found)) [
    | inl new ↦ rw (remember, new) (put-HasOnce (key lower d) d found h)
    | inr (prev, old) ↦ rw (remember, old) (put-HasOnce (key lower d) (merge prev d) found h)
  ]

  remember_all-HasOnce :
      (found : Dict Text Discovered) (ds : List Discovered)
      → HasOnce found
      → HasOnce (remember_all lower found ds)
  unfolding remember_all
  remember_all-HasOnce found [] h = h
  remember_all-HasOnce found (d ∷ ds) h =
      remember_all-HasOnce (remember lower found d) ds (remember-HasOnce found d h)

  -- The entry of a key is what a search for the key finds.
  get-key :
      (found : Dict Text Discovered) (e : Discovered)
      → HasOnce found
      → All (IsKeyed lower) found
      → Memᴰ e (map (λ entry. entry.1) found)
      → Dict.get (key lower e) found ≡ some e
  unfolding Dict.get
  get-key [] e once keyed m = absurd (Memᴰ.not-nil m)
  get-key ((k, v) ∷ found) e once keyed m = elim (Memᴰ.cases_cons m) [
    | inl same ↦ rw same (ground (arith, text_eq.beq_iff k (key lower v), keyed.0))
    | inr rest ↦
        let ih = get-key found e once.1 keyed.1 rest in
        elim (Bool-cases (text_eq.beq k (key lower e))) [
          | inl hit ↦
              let same_key = (text_eq.beq_iff k (key lower e)).0 hit in
              absurd (ground (arith, sym once.0 ∙ ap (λ k. Dict.get k found) same_key ∙ ih))
          | inr miss ↦ rw (Dict.get, miss) ih
        ]
  ]

  merged_unique :
      (ds : List Discovered)
      → IsSorted (merged lower ds)
        × ((d e : Discovered)
            → Memᴰ d (merged lower ds)
            → Memᴰ e (merged lower ds)
            → key lower d ≡ key lower e
            → d ≡ e)
  unfolding merged
  merged_unique ds =
      let found = remember_all lower [] ds in
      let entries = map (λ entry. entry.1) found in
      let known : (e : Discovered) → Memᴰ e entries → Dict.get (key lower e) found ≡ some e = λ e m.
        get-key found e (remember_all-HasOnce [] ds tt) (remember_all-IsKeyed lower [] ds tt) m in
      (
        sorted-IsSorted entries,
        λ d e md me same. some-injective d e (
            sym (known d ((sorted_mem d entries).1 md))
            ∙ ap (λ k. Dict.get k found) same
            ∙ known e ((sorted_mem e entries).1 me)),
      )

  -- Where `discover` returns, its entries are in order, and two of them with the same key are the same
  -- entry.
  pub discover_unique :
      (net : Network) (mdns broadcast : Bool) (hosts : List Text) (entries : List Discovered)
      → discover lower net mdns broadcast hosts ≡ ok entries
      → IsSorted entries
        × ((d e : Discovered) → Memᴰ d entries → Memᴰ e entries → key lower d ≡ key lower e → d ≡ e)
  unfolding discover
  discover_unique net mdns broadcast hosts entries h =
      let (ds, found, returned) = >>=-eq-ok (finds net mdns broadcast hosts) _ h in
      let same_entries : merged lower ds ≡ entries = ground arith in
      rw⁻¹ same_entries (merged_unique ds)
