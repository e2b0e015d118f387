-- ===== src/AsyncClient/Futures.antt =====
-- The store of futures: what is written to one is not seen at another.
use dometic_ddmp.Base.{
  ℕ, zero, suc, ◌≡◌, refl, ap, ◌∙◌, true, false, ◌&&◌, inl, inr, List, [], ◌∷◌, ◌++◌, length, set,
  ltb, ◌==◌, if◌then◌else◌, Bool-cases, arith,
}
use dometic_ddmp.Result.{connection_closed}
use dometic_ddmp.AsyncClient.{Future, waiting, Pending, done, future_at, failed, fail_all}

module _ {F : Type 0} where
  pub future_at-set :
      (fs : List (Future F)) (i j : ℕ) (f : Future F)
      → future_at (set fs i f) j ≡ (if (i == j) && ltb i (length fs) then f else future_at fs j)
  future_at-set [] i j f = ground arith
  future_at-set (g ∷ fs) zero zero f = ground arith
  future_at-set (g ∷ fs) zero (suc j) f = ground arith
  future_at-set (g ∷ fs) (suc i) zero f = ground arith
  future_at-set (g ∷ fs) (suc i) (suc j) f = ground (arith, future_at-set fs i j f)

  pub future_at-append :
      (fs : List (Future F)) (i : ℕ) → future_at (fs ++ waiting ∷ []) i ≡ future_at fs i
  future_at-append [] zero = refl
  future_at-append [] (suc i) = refl
  future_at-append (f ∷ fs) zero = refl
  future_at-append (f ∷ fs) (suc i) = future_at-append fs i

  -- What is done in the first store is the same in the second.
  abbrev pub Keeps : List (Future F) → List (Future F) → Type 0
  Keeps fs gs = (i : ℕ) → done (future_at fs i) ≡ true → future_at gs i ≡ future_at fs i

  pub Keeps-trans : (fs gs hs : List (Future F)) → Keeps fs gs → Keeps gs hs → Keeps fs hs
  Keeps-trans fs gs hs k l i h = let e = k i h in l i (ap done e ∙ h) ∙ e

  -- A future that waits may be written.
  pub Keeps-set :
      (fs : List (Future F)) (i : ℕ) (f : Future F)
      → done (future_at fs i) ≡ false
      → Keeps fs (set fs i f)
  Keeps-set fs i f h j settled = ground (arith, future_at-set fs i j f)

  pub Keeps-guarded :
      (fs : List (Future F)) (i : ℕ) (f : Future F)
      → Keeps fs (if done (future_at fs i) then fs else set fs i f)
  Keeps-guarded fs i f = elim (Bool-cases (done (future_at fs i))) [
    | inl e ↦ rw e (λ j h. refl)
    | inr e ↦ rw e (Keeps-set fs i f e)
  ]

  pub fail_all-Keeps : (ps : List (Pending F)) (fs : List (Future F)) → Keeps fs (fail_all ps fs)
  unfolding fail_all
  fail_all-Keeps [] fs = λ i h. refl
  fail_all-Keeps (p ∷ ps) fs =
      let next =
        if done (future_at fs p.fut) then fs else set fs p.fut (failed connection_closed) in
      Keeps-trans fs next (fail_all ps next) (Keeps-guarded fs p.fut (failed connection_closed))
        (fail_all-Keeps ps next)
