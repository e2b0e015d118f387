-- ===== src/AsyncClient/Invariant.antt =====
-- What a result of a write means: a value close to the expected one was published for its topic.
use dometic_ddmp.Base.{
  ℕ, ◌≡◌, refl, ap, ◌∙◌, true, false, ◌&&◌, inl, inr, none, some, List, [], ◌∷◌, map, length, set,
  member, nat_eq, ltb, ◌==◌, Bool-cases, Option-cases, All, arith,
}
use dometic_ddmp.Base.Index.{distinct}
use dometic_ddmp.Result.{ok, Result-cases}
use dometic_ddmp.Address.{address_beq}
use dometic_ddmp.Value.{Floats}
use dometic_ddmp.Expectation.{Event, publish, nak, unhandled, WriteExpectation, close, matches}
use dometic_ddmp.AsyncClient.{
  Future, waiting, cancelled, result, failed, Pending, done, future_at, judge, resolve_one, resolve,
}
use dometic_ddmp.AsyncClient.Futures.{future_at-set}

module _ {F : Type 0} where
  abbrev pub futs : List (Pending F) → List ℕ
  futs ps = map (λ p. p.fut) ps

module _ {F : Type 0} ⦃fl : Floats F⦄ where
  -- A result is a value that was close to the expected one.
  abbrev pub IsSound : WriteExpectation F → Future F → Type 0
  IsSound e (result (some v)) = close v e.expected e.tolerance ≡ ok true
  IsSound e (result none) = ⊥
  IsSound e waiting = Unit
  IsSound e cancelled = Unit
  IsSound e (failed x) = Unit

  abbrev pub AreSound : List (Pending F) → List (Future F) → Type 0
  AreSound ps fs = All (λ p. IsSound p.expectation (future_at fs p.fut)) ps

  pub judge-IsSound :
      (e : WriteExpectation F) (event : Event F)
      → IsSound (matches e event).0 (judge (matches e event).0 (matches e event).1)
  unfolding matches
  judge-IsSound e (unhandled f) = tt
  judge-IsSound e (nak a raw) = elim (Bool-cases (address_beq a e.topic.address)) [
    | inl h ↦ rw h tt
    | inr h ↦ rw h tt
  ]
  judge-IsSound e (publish p) = elim (Bool-cases (address_beq p.address e.topic.address)) [
    | inr h ↦ rw h tt
    | inl h ↦ elim (Result-cases (close p.value e.expected e.tolerance)) [
      | inr (x, bad) ↦ rw (h, bad) tt
      | inl (b, same) ↦ elim (Bool-cases b) [
        | inl yes_b ↦ let good = same ∙ ap ok yes_b in rw (h, good) good
        | inr no_b ↦ let bad = same ∙ ap ok no_b in rw (h, bad) tt
      ]
    ]
  ]

  is_waiting : (f : Future F) → done f ≡ false → f ≡ waiting
  is_waiting waiting h = refl
  is_waiting cancelled h = ground arith
  is_waiting (result v) h = ground arith
  is_waiting (failed x) h = ground arith

  IsSound-set :
      (e : WriteExpectation F) (fs : List (Future F)) (i : ℕ) (f : Future F)
      → future_at fs i ≡ waiting
      → IsSound e f
      → IsSound e (future_at (set fs i f) i)
  IsSound-set e fs i f w h = elim (Bool-cases ((i == i) && ltb i (length fs))) [
    | inl t ↦ rw (future_at-set fs i i f, t) h
    | inr t ↦ rw (future_at-set fs i i f, t, w) tt
  ]

  resolve_one-IsSound :
      (event : Event F) (p : Pending F) (fs : List (Future F))
      → IsSound p.expectation (future_at fs p.fut)
      → IsSound (resolve_one event p fs).0.expectation (future_at (resolve_one event p fs).1 p.fut)
  unfolding resolve_one
  resolve_one-IsSound event p fs h = elim (Bool-cases (done (future_at fs p.fut))) [
    | inl e ↦ rw (resolve_one, e) h
    | inr e ↦
        rw (resolve_one, e)
          (IsSound-set (matches p.expectation event).0 fs p.fut _
            (is_waiting (future_at fs p.fut) e) (judge-IsSound p.expectation event))
  ]

  resolve_one-fut :
      (event : Event F) (p : Pending F) (fs : List (Future F))
      → (resolve_one event p fs).0.fut ≡ p.fut
  unfolding resolve_one
  resolve_one-fut event p fs = ground arith

  pub resolve_one_elsewhere :
      (event : Event F) (p : Pending F) (fs : List (Future F)) (j : ℕ)
      → (p.fut == j) ≡ false
      → future_at (resolve_one event p fs).1 j ≡ future_at fs j
  unfolding resolve_one
  resolve_one_elsewhere event p fs j h =
      let e = matches p.expectation event in
      ground (arith, future_at-set fs p.fut j (judge e.0 e.1))

  -- Futures that belong to no pending write are left alone.
  pub resolve_elsewhere :
      (event : Event F) (ps : List (Pending F)) (fs : List (Future F)) (j : ℕ)
      → member j (futs ps) ≡ false
      → future_at (resolve event ps fs).1 j ≡ future_at fs j
  unfolding resolve
  resolve_elsewhere event [] fs j h = refl
  resolve_elsewhere event (p ∷ ps) fs j h =
      let one = resolve_one event p fs in
      let apart : (p.fut == j) ≡ false = ground arith in
      let rest : member j (futs ps) ≡ false = ground arith in
      let first = resolve_one_elsewhere event p fs j apart in
      elim (Option-cases one.2) [
        | inl e ↦ rw (resolve, e) (resolve_elsewhere event ps one.1 j rest ∙ first)
        | inr (x, e) ↦ rw (resolve, e) first
      ]

  pub resolve-futs :
      (event : Event F) (ps : List (Pending F)) (fs : List (Future F))
      → futs (resolve event ps fs).0 ≡ futs ps
  unfolding resolve
  resolve-futs event [] fs = refl
  resolve-futs event (p ∷ ps) fs =
      let one = resolve_one event p fs in
      let first = resolve_one-fut event p fs in
      elim (Option-cases one.2) [
        | inl e ↦ rw (resolve, e) (rw (first, resolve-futs event ps one.1))
        | inr (x, e) ↦ rw (resolve, e) (rw first)
      ]

  AreSound-elsewhere :
      (ps : List (Pending F)) (fs gs : List (Future F)) (i : ℕ)
      → ((j : ℕ) → (i == j) ≡ false → future_at gs j ≡ future_at fs j)
      → member i (futs ps) ≡ false
      → AreSound ps fs
      → AreSound ps gs
  AreSound-elsewhere [] fs gs i same h sound = tt
  AreSound-elsewhere (p ∷ ps) fs gs i same h sound =
      let apart : (i == p.fut) ≡ false = ground arith in
      let rest : member i (futs ps) ≡ false = ground arith in
      (rw (same p.fut apart) sound.0, AreSound-elsewhere ps fs gs i same rest sound.1)

  pub resolve-AreSound :
      (event : Event F) (ps : List (Pending F)) (fs : List (Future F))
      → distinct (futs ps) ≡ true
      → AreSound ps fs
      → AreSound (resolve event ps fs).0 (resolve event ps fs).1
  unfolding resolve
  resolve-AreSound event [] fs d h = tt
  resolve-AreSound event (p ∷ ps) fs d h =
      let one = resolve_one event p fs in
      let alone : member p.fut (futs ps) ≡ false = ground arith in
      let others : distinct (futs ps) ≡ true = ground arith in
      let first = resolve_one-IsSound event p fs h.0 in
      let rest =
        AreSound-elsewhere ps fs one.1 p.fut (resolve_one_elsewhere event p fs) alone h.1 in
      elim (Option-cases one.2) [
        | inl e ↦
            let kept = resolve_elsewhere event ps one.1 p.fut alone in
            rw (resolve, e)
              (
                rw (resolve_one-fut event p fs, kept) first,
                resolve-AreSound event ps one.1 others rest,
              )
        | inr (x, e) ↦ rw (resolve, e) (rw (resolve_one-fut event p fs) first, rest)
      ]
