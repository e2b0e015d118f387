-- ===== src/Expectation/Verdicts.antt =====
-- Which events confirm a write, refuse it, or leave it open.
use dometic_ddmp.Base.{◌≡◌, ◌↔◌, refl, true, false, Option, some, if◌then◌else◌, arith}
use dometic_ddmp.Result.{ok}
use dometic_ddmp.Address.{Address, address_beq, address_beq_iff}
use dometic_ddmp.Value.{Value, Floats}
use dometic_ddmp.Expectation.{Event, publish, nak, unhandled, WriteExpectation, close, matches}

module _ {F : Type 0} ⦃fl : Floats F⦄ where
  -- The event is a NAK for the address.
  abbrev pub IsNakFor : Address → Event F → Type 0
  IsNakFor a (nak b raw) = b ≡ a
  IsNakFor a (publish p) = ⊥
  IsNakFor a (unhandled f) = ⊥

  -- The event is a publish for the expectation's address, of a value close to the expected one.
  abbrev pub IsEchoOf : WriteExpectation F → Event F → Type 0
  IsEchoOf e (publish p) =
      (p.address ≡ e.topic.address) × (close p.value e.expected e.tolerance ≡ ok true)
  IsEchoOf e (nak b raw) = ⊥
  IsEchoOf e (unhandled f) = ⊥

  refused_by_nak :
      (e : WriteExpectation F) (event : Event F)
      → (matches e event).1 ≡ ok (some false)
      → IsNakFor e.topic.address event
  unfolding matches
  refused_by_nak e (nak b raw) h = ground (arith, address_beq_iff b e.topic.address)
  refused_by_nak e (publish p) h = ground (arith, address_beq_iff p.address e.topic.address)
  refused_by_nak e (unhandled f) h = ground arith

  nak_refuses :
      (e : WriteExpectation F) (event : Event F)
      → IsNakFor e.topic.address event
      → (matches e event).1 ≡ ok (some false)
  unfolding matches
  nak_refuses e (nak b raw) h = ground (arith, address_beq_iff b e.topic.address)
  nak_refuses e (publish p) h = absurd h
  nak_refuses e (unhandled f) h = absurd h

  confirmed_by_echo :
      (e : WriteExpectation F) (event : Event F)
      → (matches e event).1 ≡ ok (some true)
      → IsEchoOf e event
  unfolding matches
  confirmed_by_echo e (nak b raw) h = ground (arith, address_beq_iff b e.topic.address)
  confirmed_by_echo e (publish p) h = ground (arith, address_beq_iff p.address e.topic.address)
  confirmed_by_echo e (unhandled f) h = ground arith

  pub echo_confirms :
      (e : WriteExpectation F) (event : Event F)
      → IsEchoOf e event
      → (matches e event).1 ≡ ok (some true)
  unfolding matches
  echo_confirms e (publish p) h = ground (arith, address_beq_iff p.address e.topic.address)
  echo_confirms e (nak b raw) h = absurd h
  echo_confirms e (unhandled f) h = absurd h

  -- An event refuses a write exactly if it is a NAK for the topic's address, and confirms it exactly
  -- if it is a publish for that address of a value close to the expected one.
  pub matches_verdicts :
      (e : WriteExpectation F) (event : Event F)
      → (((matches e event).1 ≡ ok (some false)) ↔ IsNakFor e.topic.address event)
        × (((matches e event).1 ≡ ok (some true)) ↔ IsEchoOf e event)
  matches_verdicts e event = (
    (refused_by_nak e event, nak_refuses e event),
    (confirmed_by_echo e event, echo_confirms e event),
  )

  -- The value that the cooler last published for the topic.
  abbrev pub last_seen : WriteExpectation F → Event F → Option (Value F)
  last_seen e (publish p) =
      if address_beq p.address e.topic.address then some p.value else e.observed
  last_seen e (nak b raw) = e.observed
  last_seen e (unhandled f) = e.observed

  -- After an event the expectation has the value that it published for the topic's address as the
  -- observed one, or what it had observed before, and nothing else changes.
  pub matches_observed :
      (e : WriteExpectation F) (event : Event F)
      → (matches e event).0 ≡ record e { observed = last_seen e event }
  unfolding matches
  matches_observed e (publish p) = ground arith
  matches_observed e (nak b raw) = refl
  matches_observed e (unhandled f) = refl

  -- An event refuses a write exactly if it is a NAK for the topic's address, and confirms it exactly
  -- if it is a publish for that address of a value close to the expected one. After it the expectation
  -- has the value that it published for the topic's address as the observed one, or what it had
  -- observed before, and nothing else changes.
  pub matches_outcome :
      (e : WriteExpectation F) (event : Event F)
      → (((matches e event).1 ≡ ok (some false)) ↔ IsNakFor e.topic.address event)
        × (((matches e event).1 ≡ ok (some true)) ↔ IsEchoOf e event)
        × ((matches e event).0 ≡ record e { observed = last_seen e event })
  matches_outcome e event =
      let verdicts = matches_verdicts e event in (verdicts.0, verdicts.1, matches_observed e event)
