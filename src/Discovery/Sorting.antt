-- ===== src/Discovery/Sorting.antt =====
-- `sorted` in src/ddmp/discovery.py orders the entries, and keeps all of them.
use mathlib.Core.List.{Memᴰ}
use mathlib.Core.List.Memᴰ
use dometic_ddmp.Base.{
  ◌≡◌, true, false, inl, inr, ◌⊎◌, List, [], ◌∷◌, same, same_iff, ◌↔◌, Bool-cases, arith,
}
use dometic_ddmp.Text.Order.{text_leb_total}
use dometic_ddmp.Discovery.{Discovered, text_of, entry_leb, insert, sorted}

-- Each entry stands no later than the next one.
abbrev pub IsSorted : List Discovered → Type 0
IsSorted [] = Unit
IsSorted (d ∷ []) = Unit
IsSorted (d ∷ e ∷ es) = (entry_leb d e ≡ true) × IsSorted (e ∷ es)

entry_leb_total : (d e : Discovered) → entry_leb d e ≡ false → entry_leb e d ≡ true
unfolding entry_leb
entry_leb_total d e h = ground (
  arith,
  same_iff d.name e.name,
  same_iff e.name d.name,
  text_leb_total d.name e.name,
  text_leb_total (text_of d.ip) (text_of e.ip),
)

insert-IsSorted_below :
    (e d : Discovered) (es : List Discovered)
    → entry_leb e d ≡ true
    → IsSorted (e ∷ es)
    → IsSorted (e ∷ insert d es)
unfolding insert
insert-IsSorted_below e d [] below h = (below, tt)
insert-IsSorted_below e d (f ∷ fs) below h = elim (Bool-cases (entry_leb d f)) [
  | inl first ↦ rw (insert, first) (below, (first, h.1))
  | inr later ↦
      rw (insert, later) (h.0, insert-IsSorted_below f d fs (entry_leb_total d f later) h.1)
]

insert-IsSorted : (d : Discovered) (es : List Discovered) → IsSorted es → IsSorted (insert d es)
unfolding insert
insert-IsSorted d [] h = tt
insert-IsSorted d (e ∷ es) h = elim (Bool-cases (entry_leb d e)) [
  | inl first ↦ rw (insert, first) (first, h)
  | inr later ↦ rw (insert, later) (insert-IsSorted_below e d es (entry_leb_total d e later) h)
]

insert_mem : (d x : Discovered) (es : List Discovered) → (x ≡ d) ⊎ Memᴰ x es → Memᴰ x (insert d es)
unfolding insert
insert_mem d x [] (inl e) = Memᴰ.head e
insert_mem d x [] (inr m) = absurd (Memᴰ.not-nil m)
insert_mem d x (e ∷ es) h = elim (Bool-cases (entry_leb d e)) [
  | inl first ↦ rw (insert, first) (elim h [ inl same ↦ Memᴰ.head same | inr m ↦ Memᴰ.tail m ])
  | inr later ↦
      rw (insert, later)
        (elim h [
          | inl same ↦ Memᴰ.tail (insert_mem d x es (inl same))
          | inr m ↦ elim (Memᴰ.cases_cons m) [
            | inl same ↦ Memᴰ.head same
            | inr rest ↦ Memᴰ.tail (insert_mem d x es (inr rest))
          ]
        ])
]

mem_insert : (d x : Discovered) (es : List Discovered) → Memᴰ x (insert d es) → (x ≡ d) ⊎ Memᴰ x es
unfolding insert
mem_insert d x [] m = Memᴰ.cases_cons m
mem_insert d x (e ∷ es) m = elim (Bool-cases (entry_leb d e)) [
  | inl first ↦ Memᴰ.cases_cons (rw (insert, first) at m)
  | inr later ↦ elim (Memᴰ.cases_cons (rw (insert, later) at m)) [
    | inl same ↦ inr (Memᴰ.head same)
    | inr rest ↦ elim (mem_insert d x es rest) [
      | inl same ↦ inl same
      | inr found ↦ inr (Memᴰ.tail found)
    ]
  ]
]

pub sorted-IsSorted : (ds : List Discovered) → IsSorted (sorted ds)
unfolding sorted
sorted-IsSorted [] = tt
sorted-IsSorted (d ∷ ds) = insert-IsSorted d (sorted ds) (sorted-IsSorted ds)

pub sorted_mem : (x : Discovered) (ds : List Discovered) → Memᴰ x ds ↔ Memᴰ x (sorted ds)
unfolding sorted
sorted_mem x [] = (λ m. m, λ m. m)
sorted_mem x (d ∷ ds) =
    let ih = sorted_mem x ds in
    (
      λ m.
          insert_mem d x (sorted ds)
            (elim (Memᴰ.cases_cons m) [ inl same ↦ inl same | inr rest ↦ inr (ih.0 rest) ]),
      λ m. elim (mem_insert d x (sorted ds) m) [
        | inl same ↦ Memᴰ.head same
        | inr rest ↦ Memᴰ.tail (ih.1 rest)
      ],
    )
