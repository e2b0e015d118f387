-- ===== src/Cli/Polling.antt =====
-- What `_write` of src/ddmp/__main__.py answers is decided by the first decisive event.
use mathlib.Core.List.{map-append}
use dometic_ddmp.Base.{
  ℕ, ◌≡◌, refl, ◌∙◌, Bool, true, false, Option, none, some, List, [], ◌∷◌, ◌++◌, map, arith,
}
use dometic_ddmp.Result.{Result, ok, err}
use dometic_ddmp.Value.{Floats}
use dometic_ddmp.Expectation.{Event, publish, nak, unhandled, WriteExpectation, matches}
use dometic_ddmp.Cli.{exit_code, judge_all, poll}

-- The first verdict that is not `None`, or the first exception, whichever comes first.
abbrev pub first_decisive : List (Result (Option Bool)) → Result (Option Bool)
first_decisive [] = ok none
first_decisive (err x ∷ verdicts) = err x
first_decisive (ok none ∷ verdicts) = first_decisive verdicts
first_decisive (ok (some b) ∷ verdicts) = ok (some b)

-- The exit code of what was decided until the time was up.
abbrev pub code_of : Result (Option Bool) → Result ℕ
code_of (err x) = err x
code_of (ok none) = ok 4
code_of (ok (some true)) = ok 0
code_of (ok (some false)) = ok 3

first_decisive-append :
    (vs ws : List (Result (Option Bool)))
    → first_decisive (vs ++ ws) ≡ first_decisive (first_decisive vs ∷ ws)
first_decisive-append [] ws = refl
first_decisive-append (err x ∷ vs) ws = refl
first_decisive-append (ok none ∷ vs) ws = first_decisive-append vs ws
first_decisive-append (ok (some b) ∷ vs) ws = refl

module _ {ℓ} {A : Type ℓ} where
  abbrev pub concat : List (List A) → List A
  concat [] = []
  concat (xs ∷ xss) = xs ++ concat xss

module _ {F : Type 0} ⦃fl : Floats F⦄ where
  abbrev pub verdict : WriteExpectation F → Event F → Result (Option Bool)
  verdict e event = (matches e event).1

  -- What an expectation has observed does not count for its verdicts.
  matches-observed :
      (e : WriteExpectation F) (event other : Event F)
      → verdict (matches e event).0 other ≡ verdict e other
  unfolding matches
  matches-observed e (nak a raw) other = refl
  matches-observed e (unhandled f) other = refl
  matches-observed e (publish p) (nak a raw) = ground arith
  matches-observed e (publish p) (unhandled f) = refl
  matches-observed e (publish p) (publish q) = ground arith

  -- A verdict from the loop's body on.
  abbrev onward :
      WriteExpectation F
      → Result (Option Bool)
      → WriteExpectation F × Result (Option Bool)
      → WriteExpectation F × Result (Option Bool)
  onward e (err x) rest = (e, err x)
  onward e (ok none) rest = rest
  onward e (ok (some b)) rest = (e, ok (some b))

  judge_all-cons :
      (e : WriteExpectation F) (event : Event F) (events : List (Event F))
      → judge_all e (event ∷ events)
        ≡ onward (matches e event).0 (verdict e event) (judge_all (matches e event).0 events)
  unfolding judge_all
  judge_all-cons e event events = ground arith

  -- An expectation that gives the verdicts of another one.
  abbrev IsLike : WriteExpectation F → WriteExpectation F → Type 0
  IsLike e' e = (event : Event F) → verdict e' event ≡ verdict e event

  onward_lem :
      (e e' : WriteExpectation F) (v : Result (Option Bool))
      (rest : WriteExpectation F × Result (Option Bool)) (verdicts : List (Result (Option Bool)))
      → IsLike e' e
      → IsLike rest.0 e
      → rest.1 ≡ first_decisive verdicts
      → ((onward e' v rest).1 ≡ first_decisive (v ∷ verdicts)) × IsLike (onward e' v rest).0 e
  onward_lem e e' (err x) rest verdicts same same_rest h = (refl, same)
  onward_lem e e' (ok none) rest verdicts same same_rest h = (h, same_rest)
  onward_lem e e' (ok (some b)) rest verdicts same same_rest h = (refl, same)

  judge_all-eq-first :
      (e e' : WriteExpectation F) (events : List (Event F))
      → IsLike e' e
      → ((judge_all e' events).1 ≡ first_decisive (map (verdict e) events))
        × IsLike (judge_all e' events).0 e
  judge_all-eq-first e e' [] same = unfold judge_all in (refl, same)
  judge_all-eq-first e e' (event ∷ events) same =
      let same' : IsLike (matches e' event).0 e =
        λ other. matches-observed e' event other ∙ same other in
      let (first, kept) = judge_all-eq-first e (matches e' event).0 events same' in
      rw (judge_all-cons e' event events, same event)
        (onward_lem e (matches e' event).0 (verdict e event) (judge_all (matches e' event).0 events)
          (map (verdict e) events) same' kept first)

  abbrev next_round :
      WriteExpectation F → Result (Option Bool) → WriteExpectation F × Result ℕ → Result ℕ
  next_round e (ok none) rest = rest.1
  next_round e (ok (some b)) rest = ok (exit_code b)
  next_round e (err x) rest = err x

  poll-cons :
      (e : WriteExpectation F) (pending : List (Event F)) (rounds : List (List (Event F)))
      → (poll e (pending ∷ rounds)).1
        ≡ next_round e (judge_all e pending).1 (poll (judge_all e pending).0 rounds)
  unfolding poll
  poll-cons e pending rounds = ground arith

  next_round_lem :
      (e : WriteExpectation F) (d : Result (Option Bool)) (rest : WriteExpectation F × Result ℕ)
      (verdicts : List (Result (Option Bool)))
      → rest.1 ≡ code_of (first_decisive verdicts)
      → next_round e d rest ≡ code_of (first_decisive (d ∷ verdicts))
  unfolding exit_code
  next_round_lem e (ok none) rest verdicts h = h
  next_round_lem e (ok (some true)) rest verdicts h = refl
  next_round_lem e (ok (some false)) rest verdicts h = refl
  next_round_lem e (err x) rest verdicts h = refl

  poll-like :
      (e e' : WriteExpectation F) (rounds : List (List (Event F)))
      → IsLike e' e
      → (poll e' rounds).1 ≡ code_of (first_decisive (map (verdict e) (concat rounds)))
  poll-like e e' [] same = unfold poll in refl
  poll-like e e' (pending ∷ rounds) same =
      let (first, kept) = judge_all-eq-first e e' pending same in
      let rest = poll-like e (judge_all e' pending).0 rounds kept in
      rw (
        poll-cons e' pending rounds,
        next_round_lem e' (judge_all e' pending).1 (poll (judge_all e' pending).0 rounds)
            (map (verdict e) (concat rounds)) rest,
        first,
        map-append (verdict e) pending (concat rounds),
        first_decisive-append (map (verdict e) pending) (map (verdict e) (concat rounds)),
      )

  -- However the events are spread over the turns of the loop, the exit code of a write is that of the
  -- first event with a verdict: 0 for a confirmation, 3 for a refusal, 4 where no event has one, and an
  -- exception where a comparison raises first.
  pub poll-eq-first_decisive :
      (e : WriteExpectation F) (rounds : List (List (Event F)))
      → (poll e rounds).1 ≡ code_of (first_decisive (map (verdict e) (concat rounds)))
  poll-eq-first_decisive e rounds = poll-like e e rounds (λ event. refl)
