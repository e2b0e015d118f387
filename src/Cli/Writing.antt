-- ===== src/Cli/Writing.antt =====
-- What the write commands of src/ddmp/__main__.py send, and when they report a confirmation.
use dometic_ddmp.Base.{
  ℕ, ◌≤◌, ◌≡◌, ◌≢◌, refl, ◌∙◌, Bool, true, false, ◌⊎◌, inl, inr, Option, none, some, List, ◌++◌,
  map, Bool-cases, arith,
}
use dometic_ddmp.Bytes.{Bytes}
use dometic_ddmp.Result.{Result, ok, err, Error, Result-cases}
use dometic_ddmp.Frame
use dometic_ddmp.Frame.{Frame}
use dometic_ddmp.Topic.{TopicRef}
use dometic_ddmp.Value.{Value, Floats}
use dometic_ddmp.Expectation.{Event, WriteExpectation}
use dometic_ddmp.Session
use dometic_ddmp.SyncClient
use dometic_ddmp.SyncClient.{SyncClient}
use dometic_ddmp.Cli.{WriteArgs, exit_code, exit_status, write_body, poll}
use dometic_ddmp.Cli.Polling.{concat, verdict, first_decisive, code_of, poll-eq-first_decisive}

-- The process exits with a code from 0 to 4.
abbrev pub IsLow : Result ℕ → Type 0
IsLow r = exit_status r ≤ 4

code_of-IsLow : (d : Result (Option Bool)) → IsLow (code_of d)
unfolding exit_status exit_code
code_of-IsLow (ok none) = omega arith
code_of-IsLow (ok (some true)) = omega arith
code_of-IsLow (ok (some false)) = omega arith
code_of-IsLow (err x) = omega arith

err≢ok : (x : Error) (n : ℕ) → err x ≢ ok n
err≢ok x n h = ground arith

module _ {F : Type 0} ⦃fl : Floats F⦄ where
  -- One SET has been sent: the frame of `set_frame`, as one line.
  pub record Sent (args : WriteArgs) (ref : TopicRef) (v : Value F) (c d : SyncClient F)
      : Type 0 where
    pub asked : args.yes ≡ true
    pub f : Frame
    pub e : WriteExpectation F
    pub line : Bytes
    pub framed : Session.set_frame c.session ref v args.compartment ≡ ok (f, e)
    pub encoded : Frame.encode_line f ≡ ok line
    pub appended : d.written ≡ c.written ++ line

  -- How the body of `_write` ends: with nothing sent, and then not with 0, or after one SET.
  data Ending (args : WriteArgs) (ref : TopicRef) (v : Value F) (rounds : List (List (Event F)))
      (c d : SyncClient F) (code : Result ℕ) : Type 0 where
    unsent : d ≡ c → code ≢ ok 0 → IsLow code → Ending args ref v rounds c d code
    sent :
        (s : Sent args ref v c d) → code ≡ (poll s.e rounds).1 → Ending args ref v rounds c d code

  send_ok :
      (c d : SyncClient F) (f : Frame) (line : Bytes)
      → Frame.encode_line f ≡ ok line
      → SyncClient.send c f ≡ ok d
      → d.written ≡ c.written ++ line
  unfolding SyncClient.send
  send_ok c d f line h taken = ground arith

  pub write_body_sent :
      (args : WriteArgs) (ref : TopicRef) (v : Value F) (rounds : List (List (Event F)))
      (c d : SyncClient F) (f : Frame) (e : WriteExpectation F) (line : Bytes)
      → Session.set_frame c.session ref v args.compartment ≡ ok (f, e)
      → Frame.encode_line f ≡ ok line
      → args.yes ≡ true
      → SyncClient.send c f ≡ ok d
      → write_body args ref v rounds c ≡ (d, (poll e rounds).1)
  unfolding write_body
  write_body_sent args ref v rounds c d f e line framed encoded agreed taken =
      rw (write_body, framed) (rw (encoded, agreed) (rw taken refl))

  write_body-Ending :
      (args : WriteArgs) (ref : TopicRef) (v : Value F) (rounds : List (List (Event F)))
      (c : SyncClient F)
      → Ending args ref v rounds c
          (write_body args ref v rounds c).0
          (write_body args ref v rounds c).1
  unfolding write_body exit_status
  write_body-Ending args ref v rounds c =
      elim (Result-cases (Session.set_frame c.session ref v args.compartment)) [
        | inr (x, framed) ↦ rw (write_body, framed) (unsent refl (err≢ok x 0) (omega arith))
        | inl ((f, e), framed) ↦ elim (Result-cases (Frame.encode_line f)) [
          | inr (x, encoded) ↦
              rw (write_body, framed) (rw encoded (unsent refl (err≢ok x 0) (omega arith)))
          | inl (line, encoded) ↦ elim (Bool-cases args.yes) [
            | inr dry ↦
                rw (write_body, framed)
                  (rw (encoded, dry) (unsent refl (ground arith) (omega arith)))
            | inl agreed ↦ elim (Result-cases (SyncClient.send c f)) [
              | inr (x, refused) ↦
                  rw (write_body, framed)
                    (rw (encoded, agreed) (rw refused (unsent refl (err≢ok x 0) (omega arith))))
              | inl (d, taken) ↦
                  rw (write_body_sent args ref v rounds c d f e line framed encoded agreed taken) (
                    sent
                      (record {
                        asked = agreed;
                        f = f;
                        e = e;
                        line = line;
                        framed = framed;
                        encoded = encoded;
                        appended = send_ok c d f line encoded taken;
                      })
                      refl)
            ]
          ]
        ]
      ]

  Ending-IsLow :
      {args : WriteArgs} {ref : TopicRef} {v : Value F} {rounds : List (List (Event F))}
      {c d : SyncClient F} {code : Result ℕ}
      → Ending args ref v rounds c d code
      → IsLow code
  Ending-IsLow (unsent same h low) = low
  Ending-IsLow {rounds = rounds} (sent s h) =
      rw (h, poll-eq-first_decisive s.e rounds) (code_of-IsLow _)

  pub write_body-IsLow :
      (args : WriteArgs) (ref : TopicRef) (v : Value F) (rounds : List (List (Event F)))
      (c : SyncClient F)
      → IsLow (write_body args ref v rounds c).1
  write_body-IsLow args ref v rounds c = Ending-IsLow (write_body-Ending args ref v rounds c)

  Ending-cases :
      {args : WriteArgs} {ref : TopicRef} {v : Value F} {rounds : List (List (Event F))}
      {c d : SyncClient F} {code : Result ℕ}
      → Ending args ref v rounds c d code
      → ((d ≡ c) × (code ≢ ok 0))
        ⊎ ((s : Sent args ref v c d) × (code
              ≡ code_of (first_decisive (map (verdict s.e) (concat rounds)))))
  Ending-cases (unsent same h low) = inl (same, h)
  Ending-cases {rounds = rounds} (sent s h) = inr (s, h ∙ poll-eq-first_decisive s.e rounds)

  -- The body of `_write` either sends nothing, and then does not answer 0, or, with `--yes`, it sends the
  -- one line of the frame that `set_frame` gives for the topic and the value, and then answers by the
  -- first event with a verdict after it: 0 for a confirmation, 3 for a refusal, 4 where none has one.
  pub write_body_outcome :
      (args : WriteArgs) (ref : TopicRef) (v : Value F) (rounds : List (List (Event F)))
      (c : SyncClient F)
      → (((write_body args ref v rounds c).0 ≡ c) × ((write_body args ref v rounds c).1 ≢ ok 0))
        ⊎ ((s : Sent args ref v c (write_body args ref v rounds c).0) × ((write_body args ref v
                rounds c).1
              ≡ code_of (first_decisive (map (verdict s.e) (concat rounds)))))
  write_body_outcome args ref v rounds c = Ending-cases (write_body-Ending args ref v rounds c)
