-- ===== src/AsyncClient/Orderly.antt =====
-- The invariant of the client: every pending write has a future of its own, results are sound, and
-- nothing is left waiting once the reader has ended.
use dometic_ddmp.Base.{
  ℕ, ◌≡◌, refl, ◌∙◌, true, ◌&&◌, ◌<◌, inl, inr, some, List, [], ◌∷◌, ◌++◌, length, length-set, set,
  nat_eq, ltb, ◌==◌, if◌then◌else◌, Bool-cases, Option-cases, All, arith,
}
use dometic_ddmp.Base.Index.{distinct}
use dometic_ddmp.Result.{connection_closed}
use dometic_ddmp.Value.{Floats}
use dometic_ddmp.Expectation.{Event, WriteExpectation, matches}
use dometic_ddmp.AsyncClient.{
  AsyncClient, Future, waiting, cancelled, result, failed, Pending, done, future_at, judge,
  resolve_one, resolve, fail_all, deliver,
}
use dometic_ddmp.AsyncClient.Futures.{future_at-set}
use dometic_ddmp.AsyncClient.Invariant.{futs, IsSound, AreSound, resolve-futs, resolve-AreSound}

module _ {F : Type 0} ⦃fl : Floats F⦄ where
  -- Numbers in range, all different, and results that are sound.
  pub record IsBook (ps : List (Pending F)) (fs : List (Future F)) : Type 0 where
    pub numbered : All (λ i. i < length fs) (futs ps)
    pub apart : distinct (futs ps) ≡ true
    pub sound : AreSound ps fs

  pub resolve_one-length :
      (event : Event F) (p : Pending F) (fs : List (Future F))
      → length (resolve_one event p fs).1 ≡ length fs
  unfolding resolve_one
  resolve_one-length event p fs =
      let e = matches p.expectation event in ground (arith, length-set fs p.fut (judge e.0 e.1))

  resolve-length :
      (event : Event F) (ps : List (Pending F)) (fs : List (Future F))
      → length (resolve event ps fs).1 ≡ length fs
  unfolding resolve
  resolve-length event [] fs = refl
  resolve-length event (p ∷ ps) fs =
      let one = resolve_one event p fs in
      let first = resolve_one-length event p fs in
      elim (Option-cases one.2) [
        | inl e ↦ rw (resolve, e) (resolve-length event ps one.1 ∙ first)
        | inr (x, e) ↦ rw (resolve, e) first
      ]

  pub resolve-IsBook :
      (event : Event F) (ps : List (Pending F)) (fs : List (Future F))
      → IsBook ps fs
      → IsBook (resolve event ps fs).0 (resolve event ps fs).1
  resolve-IsBook event ps fs h = record {
    numbered = rw (resolve-length event ps fs, resolve-futs event ps fs) h.numbered;
    apart = rw (resolve-futs event ps fs) h.apart;
    sound = resolve-AreSound event ps fs h.apart h.sound;
  }

  pub deliver-IsBook :
      (events : List (Event F)) (c : AsyncClient F)
      → IsBook c.pending c.futures
      → IsBook (deliver events c).0.pending (deliver events c).0.futures
  unfolding deliver
  deliver-IsBook [] c h = h
  deliver-IsBook (event ∷ rest) c h =
      let r = resolve event c.pending c.futures in
      let first = resolve-IsBook event c.pending c.futures h in
      elim (Option-cases r.2) [
        | inl e ↦
            rw (deliver, e)
              (deliver-IsBook rest
                (record c { pending = r.0; futures = r.1; events = c.events ++ some event ∷ [] })
                first)
        | inr (x, e) ↦ rw (deliver, e) first
      ]

  -- An exception or a cancelled wait is no result.
  abbrev IsNoResult : Future F → Type 0
  IsNoResult (result v) = ⊥
  IsNoResult waiting = Unit
  IsNoResult cancelled = Unit
  IsNoResult (failed x) = Unit

  IsSound-of_no_result : (e : WriteExpectation F) (f : Future F) → IsNoResult f → IsSound e f
  IsSound-of_no_result e waiting h = tt
  IsSound-of_no_result e cancelled h = tt
  IsSound-of_no_result e (failed x) h = tt
  IsSound-of_no_result e (result v) h = absurd h

  IsSound-write :
      (e : WriteExpectation F) (fs : List (Future F)) (i j : ℕ) (f : Future F)
      → IsNoResult f
      → IsSound e (future_at fs j)
      → IsSound e (future_at (set fs i f) j)
  IsSound-write e fs i j f no_result h = elim (Bool-cases ((i == j) && ltb i (length fs))) [
    | inl t ↦ rw (future_at-set fs i j f, t) (IsSound-of_no_result e f no_result)
    | inr t ↦ rw (future_at-set fs i j f, t) h
  ]

  pub IsSound-guarded :
      (e : WriteExpectation F) (fs : List (Future F)) (i j : ℕ) (f : Future F)
      → IsNoResult f
      → IsSound e (future_at fs j)
      → IsSound e (future_at (if done (future_at fs i) then fs else set fs i f) j)
  IsSound-guarded e fs i j f no_result h = elim (Bool-cases (done (future_at fs i))) [
    | inl t ↦ rw t h
    | inr t ↦ rw t (IsSound-write e fs i j f no_result h)
  ]

  fail_all-IsSound :
      (e : WriteExpectation F) (qs : List (Pending F)) (fs : List (Future F)) (j : ℕ)
      → IsSound e (future_at fs j)
      → IsSound e (future_at (fail_all qs fs) j)
  unfolding fail_all
  fail_all-IsSound e [] fs j h = h
  fail_all-IsSound e (q ∷ qs) fs j h =
      fail_all-IsSound e qs
        (if done (future_at fs q.fut) then fs else set fs q.fut (failed connection_closed)) j
        (IsSound-guarded e fs q.fut j (failed connection_closed) tt h)

  pub fail_all-AreSound :
      (ps qs : List (Pending F)) (fs : List (Future F))
      → AreSound ps fs
      → AreSound ps (fail_all qs fs)
  fail_all-AreSound [] qs fs h = tt
  fail_all-AreSound (p ∷ ps) qs fs h =
      (fail_all-IsSound p.expectation qs fs p.fut h.0, fail_all-AreSound ps qs fs h.1)
