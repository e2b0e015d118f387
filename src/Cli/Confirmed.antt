-- ===== src/Cli/Confirmed.antt =====
-- What a write of src/ddmp/__main__.py that exits with 0 prints.
use dometic_ddmp.Base.{
  ◌≡◌, refl, ap, ◌∙◌, sym, Bool, true, false, inl, inr, some, List, [], ◌∷◌, ◌++◌, Option-cases,
  arith,
}
use dometic_ddmp.Text.{Text, codes}
use dometic_ddmp.Result.{ok, Result-cases}
use dometic_ddmp.Address.{address_beq_iff}
use dometic_ddmp.Value.{Value, Floats}
use dometic_ddmp.Expectation.{Event, publish, nak, unhandled, WriteExpectation, close, matches}
use dometic_ddmp.Expectation.Verdicts.{IsEchoOf, last_seen, matches_outcome}
use dometic_ddmp.Cli.{judge_all, poll, exit_code}
use dometic_ddmp.Cli.Print.{out, Format, fmt_value, fmt_observed, verdict_line, poll_output}

exit_zero : (b : Bool) → ok (exit_code b) ≡ ok 0 → b ≡ true
unfolding exit_code
exit_zero true h = refl
exit_zero false h = absurd (ground arith)

module _ {F : Type 0} ⦃fl : Floats F⦄ where
  -- A value was observed that is close to the expected one.
  abbrev IsConfirmed : WriteExpectation F → WriteExpectation F → Type 0
  IsConfirmed e e' =
      (w : Value F) × (e'.observed ≡ some w) × (close w e.expected e.tolerance ≡ ok true)

  seen_of_echo :
      (e : WriteExpectation F) (event : Event F)
      → IsEchoOf e event
      → (w : Value F) × (last_seen e event ≡ some w) × (close w e.expected e.tolerance ≡ ok true)
  seen_of_echo e (publish p) (same, near) =
      (p.value, rw ((address_beq_iff p.address e.topic.address).1 same) refl, near)
  seen_of_echo e (nak a raw) h = absurd h
  seen_of_echo e (unhandled f) h = absurd h

  matches-IsConfirmed :
      (e : WriteExpectation F) (event : Event F)
      → (matches e event).1 ≡ ok (some true)
      → IsConfirmed e (matches e event).0
  matches-IsConfirmed e event h =
      let (refused, confirmed, after) = matches_outcome e event in
      let (w, seen, near) = seen_of_echo e event (confirmed.0 h) in
      (w, ap (λ x. x.observed) after ∙ seen, near)

  -- An expectation that differs in what it observed at most.
  abbrev IsLike : WriteExpectation F → WriteExpectation F → Type 0
  IsLike e e' = (e'.expected ≡ e.expected) × (e'.tolerance ≡ e.tolerance)

  matches-IsLike : (e : WriteExpectation F) (event : Event F) → IsLike e (matches e event).0
  matches-IsLike e event =
      let (refused, confirmed, after) = matches_outcome e event in
      (ap (λ x. x.expected) after, ap (λ x. x.tolerance) after)

  back : (e e' e'' : WriteExpectation F) → IsLike e e' → IsConfirmed e' e'' → IsConfirmed e e''
  back e e' e'' (expected, tolerance) (w, seen, near) = (
    w,
    seen,
    ap (λ x. close w x e.tolerance) (sym expected)
        ∙ ap (close w e'.expected) (sym tolerance)
        ∙ near,
  )

  judge_all-IsLike :
      (events : List (Event F)) (e : WriteExpectation F) → IsLike e (judge_all e events).0
  unfolding judge_all
  judge_all-IsLike [] e = (refl, refl)
  judge_all-IsLike (event ∷ events) e =
      let (expected, tolerance) = matches-IsLike e event in
      let rest = judge_all-IsLike events (matches e event).0 in
      elim (Result-cases (matches e event).1) [
        | inr (x, bad) ↦ rw (judge_all, bad) (expected, tolerance)
        | inl (verdict, good) ↦ elim (Option-cases verdict) [
          | inl undecided ↦
              rw (judge_all, good ∙ ap ok undecided) (rest.0 ∙ expected, rest.1 ∙ tolerance)
          | inr (b, decided) ↦ rw (judge_all, good ∙ ap ok decided) (expected, tolerance)
        ]
      ]

  judge_all-IsConfirmed :
      (events : List (Event F)) (e : WriteExpectation F)
      → (judge_all e events).1 ≡ ok (some true)
      → IsConfirmed e (judge_all e events).0
  unfolding judge_all
  judge_all-IsConfirmed [] e h = absurd (ground arith)
  judge_all-IsConfirmed (event ∷ events) e h = elim (Result-cases (matches e event).1) [
    | inr (x, bad) ↦ absurd (let h' = rw (judge_all, bad) at h in ground arith)
    | inl (verdict, good) ↦ elim (Option-cases verdict) [
      | inl undecided ↦
          let same = good ∙ ap ok undecided in
          let rest = judge_all-IsConfirmed events (matches e event).0 (rw (judge_all, same) at h) in
          rw (judge_all, same)
            (back e (matches e event).0 (judge_all (matches e event).0 events).0
              (matches-IsLike e event) rest)
      | inr (b, decided) ↦
          let same = good ∙ ap ok decided in
          let said : ok (some b) ≡ ok (some true) = rw (judge_all, same) at h in
          rw (judge_all, same) (matches-IsConfirmed e event (same ∙ said))
    ]
  ]

  poll-IsConfirmed :
      (rounds : List (List (Event F))) (e : WriteExpectation F)
      → (poll e rounds).1 ≡ ok 0
      → IsConfirmed e (poll e rounds).0
  unfolding poll
  poll-IsConfirmed [] e h = absurd (ground arith)
  poll-IsConfirmed (pending ∷ rounds) e h = elim (Result-cases (judge_all e pending).1) [
    | inr (x, bad) ↦ absurd (let h' = rw (poll, bad) at h in ground arith)
    | inl (decided, good) ↦ elim (Option-cases decided) [
      | inl undecided ↦
          let same = good ∙ ap ok undecided in
          let e' = (judge_all e pending).0 in
          let rest = poll-IsConfirmed rounds e' (rw (poll, same) at h) in
          rw (poll, same) (back e e' (poll e' rounds).0 (judge_all-IsLike pending e) rest)
      | inr (b, verdict) ↦
          let same = good ∙ ap ok verdict in
          let confirmed = exit_zero b (rw (poll, same) at h) in
          rw (poll, same) (judge_all-IsConfirmed pending e (same ∙ ap (λ b. ok (some b)) confirmed))
    ]
  ]

  -- Where the loop of `_write` answers 0, the one line that is printed behind the SET says
  -- `confirmed:`, the topic's name, and a value that is as close to the expected one as the
  -- expectation allows.
  pub poll_output_confirmed :
      (format : Format F) (topic_name echo_timeout : Text) (e : WriteExpectation F)
      (rounds : List (List (Event F)))
      → (poll e rounds).1 ≡ ok 0
      → (w : Value F) × (close w e.expected e.tolerance ≡ ok true)
        × (poll_output format topic_name echo_timeout e rounds
            ≡ out (codes "confirmed: " ++ topic_name ++ codes " = " ++ fmt_value format w) ∷ [])
  unfolding poll_output verdict_line fmt_observed
  poll_output_confirmed format topic_name echo_timeout e rounds h =
      let (w, seen, near) = poll-IsConfirmed rounds e h in
      (w, near, rw (poll_output, h) (rw seen refl))
