-- ===== src/AsyncClient/Removal.antt =====
-- Entries that join and leave `_pending`.
use dometic_ddmp.Base.{
  ℕ, ◌≡◌, refl, ap, ◌∙◌, true, false, ◌<◌, inl, inr, List, [], ◌∷◌, ◌++◌, length, length-set,
  length-append, set, member, nat_eq, ◌==◌, if◌then◌else◌, Bool-cases, All, All-imp, All-append,
  arith,
}
use dometic_ddmp.Base.Index.{distinct}
use dometic_ddmp.Result.{connection_closed}
use dometic_ddmp.Value.{Floats}
use dometic_ddmp.Expectation.{WriteExpectation}
use dometic_ddmp.AsyncClient.{Future, waiting, failed, Pending, done, future_at, fail_all, remove}
use dometic_ddmp.AsyncClient.Futures.{future_at-set, future_at-append, fail_all-Keeps}
use dometic_ddmp.AsyncClient.Invariant.{futs, AreSound}
use dometic_ddmp.AsyncClient.Orderly.{IsBook}

member_apart :
    (j n : ℕ) (is : List ℕ)
    → member j is ≡ false
    → (j == n) ≡ false
    → member j (is ++ n ∷ []) ≡ false
member_apart j n [] h e = ground arith
member_apart j n (i ∷ is) h e = ground (arith, member_apart j n is)

distinct_append :
    (n : ℕ) (is : List ℕ)
    → distinct is ≡ true
    → member n is ≡ false
    → distinct (is ++ n ∷ []) ≡ true
distinct_append n [] h e = refl
distinct_append n (i ∷ is) h e = ground (arith, distinct_append n is, member_apart i n is)

module _ {F : Type 0} where
  pub remove-All {κ} :
      (P : Pending F → Type κ) (i : ℕ) (ps : List (Pending F)) → All P ps → All P (remove i ps)
  unfolding remove
  remove-All P i [] h = tt
  remove-All P i (p ∷ ps) h = elim (Bool-cases (p.fut == i)) [
    | inl e ↦ rw (remove, e) h.1
    | inr e ↦ rw (remove, e) (h.0, remove-All P i ps h.1)
  ]

  futs-All : (n : ℕ) (ps : List (Pending F)) → All (λ i. i < n) (futs ps) → All (λ p. p.fut < n) ps
  futs-All n [] h = tt
  futs-All n (p ∷ ps) h = (h.0, futs-All n ps h.1)

  All-futs : (n : ℕ) (ps : List (Pending F)) → All (λ p. p.fut < n) ps → All (λ i. i < n) (futs ps)
  All-futs n [] h = tt
  All-futs n (p ∷ ps) h = (h.0, All-futs n ps h.1)

  member-remove :
      (i j : ℕ) (ps : List (Pending F))
      → member j (futs ps) ≡ false
      → member j (futs (remove i ps)) ≡ false
  unfolding remove
  member-remove i j [] h = refl
  member-remove i j (p ∷ ps) h = ground (arith, member-remove i j ps)

  distinct-remove :
      (i : ℕ) (ps : List (Pending F))
      → distinct (futs ps) ≡ true
      → distinct (futs (remove i ps)) ≡ true
  unfolding remove
  distinct-remove i [] h = refl
  distinct-remove i (p ∷ ps) h = ground (arith, distinct-remove i ps, member-remove i p.fut ps)

  -- A number out of range is no pending write's.
  pub member_fresh :
      (n : ℕ) (ps : List (Pending F)) → All (λ i. i < n) (futs ps) → member n (futs ps) ≡ false
  member_fresh n [] h = refl
  member_fresh n (p ∷ ps) h = ground (arith, member_fresh n ps h.1)

  pub remove_fresh :
      (ps : List (Pending F)) (p : Pending F)
      → member p.fut (futs ps) ≡ false
      → remove p.fut (ps ++ p ∷ []) ≡ ps
  unfolding remove
  remove_fresh [] p h = ground arith
  remove_fresh (q ∷ ps) p h = ground (arith, remove_fresh ps p)

  futs-append : (ps qs : List (Pending F)) → futs (ps ++ qs) ≡ futs ps ++ futs qs
  futs-append [] qs = refl
  futs-append (p ∷ ps) qs = ap (◌∷◌ p.fut) (futs-append ps qs)

  pub length-fail_all :
      (ps : List (Pending F)) (fs : List (Future F)) → length (fail_all ps fs) ≡ length fs
  unfolding fail_all
  length-fail_all [] fs = refl
  length-fail_all (p ∷ ps) fs =
      length-fail_all ps
        (if done (future_at fs p.fut) then fs else set fs p.fut (failed connection_closed))
      ∙ ground (arith, length-set fs p.fut (failed connection_closed))

  done_next :
      (fs : List (Future F)) (i : ℕ)
      → i < length fs
      → done
          (future_at (if done (future_at fs i) then fs else set fs i (failed connection_closed)) i)
        ≡ true
  done_next fs i h = elim (Bool-cases (done (future_at fs i))) [
    | inl e ↦ rw e e
    | inr e ↦ rw e (ground (arith, future_at-set fs i i (failed connection_closed)))
  ]

  -- When the connection is lost, every pending write is told.
  pub fail_all_settles :
      (ps : List (Pending F)) (fs : List (Future F))
      → All (λ i. i < length fs) (futs ps)
      → All (λ p. done (future_at (fail_all ps fs) p.fut) ≡ true) ps
  unfolding fail_all
  fail_all_settles [] fs h = tt
  fail_all_settles (p ∷ ps) fs h =
      let next =
        if done (future_at fs p.fut) then fs else set fs p.fut (failed connection_closed) in
      let same_length : length next ≡ length fs =
        ground (arith, length-set fs p.fut (failed connection_closed)) in
      let first = done_next fs p.fut h.0 in
      (
        ap done (fail_all-Keeps ps next p.fut first) ∙ first,
        fail_all_settles ps next (rw same_length h.1),
      )

module _ {F : Type 0} ⦃fl : Floats F⦄ where
  pub remove-IsBook :
      (i : ℕ) (ps : List (Pending F)) (fs : List (Future F))
      → IsBook ps fs
      → IsBook (remove i ps) fs
  remove-IsBook i ps fs h = record {
    numbered =
        All-futs (length fs) (remove i ps) (remove-All _ i ps (futs-All (length fs) ps h.numbered));
    apart = distinct-remove i ps h.apart;
    sound = remove-All _ i ps h.sound;
  }

  AreSound-append :
      (ps : List (Pending F)) (fs : List (Future F))
      → AreSound ps fs
      → AreSound ps (fs ++ waiting ∷ [])
  AreSound-append [] fs h = tt
  AreSound-append (p ∷ ps) fs h = (rw (future_at-append fs p.fut) h.0, AreSound-append ps fs h.1)

  future_at-length : (fs : List (Future F)) → future_at fs (length fs) ≡ waiting
  future_at-length [] = refl
  future_at-length (f ∷ fs) = future_at-length fs

  pub append-IsBook :
      (ps : List (Pending F)) (fs : List (Future F)) (e : WriteExpectation F)
      → IsBook ps fs
      → IsBook (ps ++ record { expectation = e; fut = length fs } ∷ []) (fs ++ waiting ∷ [])
  append-IsBook ps fs e h = record {
    numbered = rw (futs-append ps (record { expectation = e; fut = length fs } ∷ [])) (
        All-append _ (futs ps) (length fs ∷ [])
          (All-imp (λ i. i < length fs) _
            (λ i small. omega (arith, length-append fs (waiting ∷ []), small)) (futs ps) h.numbered)
          (omega (arith, length-append fs (waiting ∷ [])), tt));
    apart =
        rw (futs-append ps (record { expectation = e; fut = length fs } ∷ []))
          (distinct_append (length fs) (futs ps) h.apart (member_fresh (length fs) ps h.numbered));
    sound =
        All-append _ ps (record { expectation = e; fut = length fs } ∷ [])
          (AreSound-append ps fs h.sound)
          (rw (future_at-append fs (length fs), future_at-length fs) tt, tt);
  }

  pub remove-append_fresh :
      (ps : List (Pending F)) (fs : List (Future F)) (e : WriteExpectation F)
      → IsBook ps fs
      → remove (length fs) (ps ++ record { expectation = e; fut = length fs } ∷ []) ≡ ps
  remove-append_fresh ps fs e h =
      remove_fresh ps (record { expectation = e; fut = length fs })
        (member_fresh (length fs) ps h.numbered)
