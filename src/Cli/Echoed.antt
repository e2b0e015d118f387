-- ===== src/Cli/Echoed.antt =====
-- The write commands of src/ddmp/__main__.py against a cooler that publishes what it was sent.
use dometic_ddmp.Base.{
  Bool-cases, not, ◌||◌, ◌≡◌, ◌≢◌, refl, ap, ◌∙◌, Bool, true, none, some, List, [], ◌∷◌, ◌++◌, map,
  All, inl, inr, arith,
}
use dometic_ddmp.Result.{ok, >>=-eq-ok}
use dometic_ddmp.Bytes.{Bytes}
use dometic_ddmp.Action
use dometic_ddmp.Frame
use dometic_ddmp.Frame.{Frame}
use dometic_ddmp.Topic.{Topic, TopicRef, by_topic}
use dometic_ddmp.Value.{Value, Floats}
use dometic_ddmp.Value.Milli.{FloatLaws}
use dometic_ddmp.Expectation.{Event, WriteExpectation}
use dometic_ddmp.Session
use dometic_ddmp.Session.{Session, on_frame}
use dometic_ddmp.Session.Consistent.{IsConsistent}
use dometic_ddmp.Session.Confirm.{set_frame-echo_confirms}
use dometic_ddmp.SyncClient
use dometic_ddmp.SyncClient.{SyncClient}
use dometic_ddmp.Cli.{WriteArgs, World, connect, with_client, write, poll, exit_code}
use dometic_ddmp.Cli.Polling.{concat, verdict, first_decisive, code_of, poll-eq-first_decisive}
use dometic_ddmp.Cli.Writing.{write_body_sent}

module _ {F : Type 0} ⦃fl : Floats F⦄ where
  -- An event that neither confirms nor refuses a write.
  abbrev pub IsUndecided : WriteExpectation F → Event F → Type 0
  IsUndecided e event = verdict e event ≡ ok none

  first_decisive-undecided :
      (e : WriteExpectation F) (before after : List (Event F)) (event : Event F) (b : Bool)
      → All (IsUndecided e) before
      → verdict e event ≡ ok (some b)
      → first_decisive (map (verdict e) (before ++ event ∷ after)) ≡ ok (some b)
  first_decisive-undecided e [] after event b quiet decides = rw decides refl
  first_decisive-undecided e (u ∷ before) after event b quiet decides =
      rw quiet.0 (first_decisive-undecided e before after event b quiet.1 decides)

  send-encodes :
      (c d : SyncClient F) (f : Frame)
      → SyncClient.send c f ≡ ok d
      → (line : Bytes) × (Frame.encode_line f ≡ ok line)
  unfolding SyncClient.send
  send-encodes c d f sent = elim (Bool-cases (not c.has_sock || c.closed)) [
    | inl gone ↦ absurd (let refused = rw gone at sent in ground arith)
    | inr live ↦
        let (line, encoded, more) = >>=-eq-ok (Frame.encode_line f) _ (rw live at sent) in
        (line, encoded)
  ]

  -- Under the laws of floats: if a write with `--yes` has connected, the session is consistent when its
  -- pause is over, `set_frame` makes a frame for the topic, a name or an address and not a topic of the
  -- caller's own, which can be sent, and what the loop hears before its time is up is, behind events
  -- that neither confirm nor refuse the write, the event that any session makes of the publish of what
  -- was sent, then the write has sent the frame, answers 0 and leaves its client closed.
  pub write-echo_confirms :
      (laws : FloatLaws F) (w : World F) (args : WriteArgs) (ref : TopicRef) (v : Value F)
      (c d : SyncClient F) (r : Frame × WriteExpectation F) (later : Session F)
      (before after : List (Event F))
      → connect w true ≡ ok c
      → IsConsistent (w.waited c).session
      → ((u : Topic) → ref ≢ by_topic u)
      → Session.set_frame (w.waited c).session ref v args.compartment ≡ ok r
      → args.yes ≡ true
      → SyncClient.send (w.waited c) r.0 ≡ ok d
      → All (IsUndecided r.1) before
      → concat w.rounds
        ≡ before ++ (on_frame later (record r.0 { action = Action.code Action.publish })).0 ∷ after
      → write w args ref v ≡ record { client = some (SyncClient.shut d); code = ok 0 }
  unfolding write with_client exit_code
  write-echo_confirms laws w args ref v c d r later before after connected consistent other made
        agreed sent quiet heard =
      let echo = (on_frame later (record r.0 { action = Action.code Action.publish })).0 in
      let (line, encoded) = send-encodes (w.waited c) d r.0 sent in
      let confirms =
        set_frame-echo_confirms laws (w.waited c).session later ref v args.compartment r consistent
          other made in
      let decided = first_decisive-undecided r.1 before after echo true quiet confirms in
      let polled : (poll r.1 w.rounds).1 ≡ ok 0 =
        poll-eq-first_decisive r.1 w.rounds
        ∙ ap (λ events. code_of (first_decisive (map (verdict r.1) events))) heard
        ∙ ap code_of decided in
      let body =
        write_body_sent args ref v w.rounds (w.waited c) d r.0 r.1 line made encoded agreed sent in
      rw connected
        (rw body (ap (λ code. record { client = some (SyncClient.shut d); code = code }) polled))
