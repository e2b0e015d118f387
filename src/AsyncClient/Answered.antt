-- ===== src/AsyncClient/Answered.antt =====
-- A write of `AsyncClient` of src/ddmp/aio.py is answered by its echo, whatever else is pending.
use dometic_ddmp.Base.{
  ℕ, ℤ, ◌≡◌, ◌≢◌, ◌<◌, ◌⊎◌, refl, ap, ◌∙◌, ◌==◌, ==_iff, Bool, true, false, inl, inr, Option, none,
  some, List, [], ◌∷◌, ◌++◌, length, set, member, nat_eq, Bool-cases, Option-cases, All,
  length-append, arith,
}
use dometic_ddmp.Bytes.{Bytes}
use dometic_ddmp.Result.{ok, Error}
use dometic_ddmp.Action
use dometic_ddmp.Frame
use dometic_ddmp.Frame.{Frame, IsByteFrame}
use dometic_ddmp.Topic.{TopicRef, by_topic, Topic}
use dometic_ddmp.Value.{Value, Floats}
use dometic_ddmp.Value.Milli.{FloatLaws}
use dometic_ddmp.Expectation.{Event, WriteExpectation, matches}
use dometic_ddmp.Session
use dometic_ddmp.Session.{Session, on_frame}
use dometic_ddmp.Session.Consistent.{IsConsistent}
use dometic_ddmp.Session.Confirm.{set_frame-echo_confirms}
use dometic_ddmp.AsyncClient.{
  AsyncClient, Reader, running, cancelling, ended, Future, waiting, result, Pending, done,
  future_at, resolve_one, resolve, deliver, receive, start_set, fail_all, end_reading,
}
use dometic_ddmp.AsyncClient.Futures.{future_at-set}
use dometic_ddmp.AsyncClient.Settled.{asked}
use dometic_ddmp.AsyncClient.Invariant.{futs, resolve-futs, resolve_one_elsewhere}
use dometic_ddmp.AsyncClient.Orderly.{IsBook, resolve-IsBook, resolve_one-length}
use dometic_ddmp.AsyncClient.Removal.{append-IsBook, fail_all_settles, member_fresh}
use dometic_ddmp.AsyncClient.Shut.{AreDone, IsShut}
use dometic_ddmp.AsyncClient.Steps.{Reach}
use dometic_ddmp.AsyncClient.Consistent.{Reach-IsConsistent}
use dometic_ddmp.AsyncClient.Reachable.{Reach-IsOrderly}
use dometic_ddmp.AsyncClient.Confirmed.{
  resolve_one_confirms, settles, feed_frame, start_set_sends, future_at-last,
}

module _ {F : Type 0} ⦃fl : Floats F⦄ where
  -- The future has this result, unless an exception stopped the loop.
  abbrev IsAnswered :
      ℕ → Option (Value F) → List (Pending F) × List (Future F) × Option Error → Type 0
  IsAnswered n o r = ((r.2 ≡ none) × (future_at r.1 n ≡ result o)) ⊎ ((x : Error) × (r.2 ≡ some x))

  future_at-set_here :
      (fs : List (Future F)) (n : ℕ) (f : Future F) → n < length fs → future_at (set fs n f) n ≡ f
  future_at-set_here fs n f h = future_at-set fs n n f ∙ ground (arith, ==_iff n n)

  resolve_among :
      (event : Event F) (e : WriteExpectation F) (n : ℕ) (ps : List (Pending F))
      (fs : List (Future F))
      → (matches e event).1 ≡ ok (some true)
      → member n (futs ps) ≡ false
      → done (future_at fs n) ≡ false
      → n < length fs
      → IsAnswered n
          (matches e event).0.observed
          (resolve event (ps ++ record { expectation = e; fut = n } ∷ []) fs)
  unfolding resolve
  resolve_among event e n [] fs confirms apart waits inside =
      let p : Pending F = record { expectation = e; fut = n } in
      let settled = resolve_one_confirms event p fs waits confirms in
      rw (resolve, settled) (rw settled (inl (refl, future_at-set_here fs n _ inside)))
  resolve_among event e n (q ∷ ps) fs confirms apart waits inside =
      let other : ((q.fut == n) ≡ false) × (member n (futs ps) ≡ false) = ground arith in
      let r = resolve_one event q fs in
      let same_future = resolve_one_elsewhere event q fs n other.0 in
      let same_length = resolve_one-length event q fs in
      elim (Option-cases r.2) [
        | inr (x, stopped) ↦ rw (resolve, stopped) (inr (x, refl))
        | inl on ↦
            let rest =
              resolve_among event e n ps r.1 confirms other.1 (ap done same_future ∙ waits)
                (rw same_length inside) in
            rw (resolve, on) rest
      ]

  done_of_pending :
      (n : ℕ) (ps : List (Pending F)) (fs : List (Future F))
      → member n (futs ps) ≡ true
      → AreDone ps fs
      → done (future_at fs n) ≡ true
  done_of_pending n [] fs here h = absurd (ground arith)
  done_of_pending n (p ∷ ps) fs here h = elim (Bool-cases (p.fut == n)) [
    | inl e ↦ rw⁻¹ ((==_iff p.fut n).0 e) h.0
    | inr e ↦ done_of_pending n ps fs (ground arith) h.1
  ]

  member_last :
      (e : WriteExpectation F) (n : ℕ) (ps : List (Pending F))
      → member n (futs (ps ++ record { expectation = e; fut = n } ∷ [])) ≡ true
  member_last e n [] = ground (arith, ==_iff n n)
  member_last e n (p ∷ ps) = ground (arith, member_last e n ps)

  -- The write of a number has a value, or the reader has ended and the write is done.
  abbrev pub IsSettled : ℕ → AsyncClient F → Type 0
  IsSettled n c =
      ((w : Value F) × (future_at c.futures n ≡ result (some w)))
      ⊎ ((c.reader ≡ ended) × (done (future_at c.futures n) ≡ true))

  end_reading-IsSettled :
      (c : AsyncClient F) (x : Error) (n : ℕ)
      → All (λ i. i < length c.futures) (futs c.pending)
      → member n (futs c.pending) ≡ true
      → IsSettled n (end_reading (some x) c)
  unfolding end_reading
  end_reading-IsSettled c x n numbered here = inr (
    refl,
    done_of_pending n c.pending (fail_all c.pending c.futures) here
        (fail_all_settles c.pending c.futures numbered),
  )

  receive_answers :
      (c : AsyncClient F) (e : WriteExpectation F) (f : Frame) (b : ℕ) (chunk : Bytes)
      → IsBook c.pending c.futures
      → c.session.decoder.buf ≡ []
      → IsByteFrame f
      → Frame.encode_line f ≡ ok (b ∷ chunk)
      → ((later : Session F) → (matches e (on_frame later f).0).1 ≡ ok (some true))
      → IsSettled (length c.futures) (receive (b ∷ chunk) (asked c e))
  unfolding receive deliver
  receive_answers c e f b chunk h empty plain encoded confirms =
      let n = length c.futures in
      let (later, heard) = feed_frame c.session f (b ∷ chunk) empty plain encoded in
      let event = (on_frame later f).0 in
      let (w, observed) = settles event e (confirms later) in
      let asked_book = append-IsBook c.pending c.futures e h in
      let r = resolve event (asked c e).pending (asked c e).futures in
      let book = resolve-IsBook event (asked c e).pending (asked c e).futures asked_book in
      let here : member n (futs r.0) ≡ true =
        ap (member n) (resolve-futs event (asked c e).pending (asked c e).futures)
        ∙ member_last e n c.pending in
      let answered : IsAnswered n (matches e event).0.observed r =
        resolve_among event e n c.pending (c.futures ++ waiting ∷ []) (confirms later)
          (member_fresh n c.pending h.numbered) (ap done (future_at-last c.futures))
          (omega (arith, length-append c.futures (waiting ∷ []))) in
      let later_session = (Session.feed c.session (b ∷ chunk)).1 in
      let stopped = record (asked c e) { session = later_session; pending = r.0; futures = r.1 } in
      elim answered [
        | inl (on, value) ↦
            rw (receive, heard) (rw (deliver, on) (inl (w, value ∙ ap result observed)))
        | inr (x, stop) ↦
            rw (receive, heard)
              (rw (deliver, stop) (end_reading-IsSettled stopped x n book.numbered here))
      ]

  running_open :
      (reader : Reader) (closed : Bool) (ps : List (Pending F)) (fs : List (Future F))
      → reader ≡ running
      → IsShut reader closed ps fs
      → closed ≡ false
  running_open running closed ps fs e h = h
  running_open cancelling closed ps fs e h = absurd (ground arith)
  running_open ended closed ps fs e h = absurd (ground arith)

  -- Under the laws of floats: a client whose session was consistent at the start has taken any steps,
  -- with any number of writes pending. Its reader runs, and it holds back no bytes of its stream. It is
  -- asked for a SET, for a name or an address and not a topic of the caller's own. Where the SET can be
  -- made and its line encoded, and its echo is a frame of bytes, the SET is sent, and when the line of
  -- the echo has been received, this `set` has a value as its result, or else the reader has ended and
  -- the future of this `set` is done.
  pub start_set-receive_answers :
      (laws : FloatLaws F) {s : Session F} {c : AsyncClient F} (ref : TopicRef) (v : Value F)
      (compartment : Option ℤ) (f : Frame) (e : WriteExpectation F) (line : Bytes) (b : ℕ)
      (echo : Bytes)
      → Reach s c
      → IsConsistent s
      → ((u : Topic) → ref ≢ by_topic u)
      → c.session.decoder.buf ≡ []
      → c.reader ≡ running
      → Session.set_frame c.session ref v compartment ≡ ok (f, e)
      → Frame.encode_line f ≡ ok line
      → IsByteFrame (record f { action = Action.code Action.publish })
      → Frame.encode_line (record f { action = Action.code Action.publish }) ≡ ok (b ∷ echo)
      → (start_set c ref v compartment
          ≡ (record (asked c e) { written = c.written ++ line }, ok (length c.futures)))
        × IsSettled (length c.futures) (receive (b ∷ echo) (start_set c ref v compartment).0)
  start_set-receive_answers laws {s} {c} ref v compartment f e line b echo r consistent other empty
        reading framed encoded plain echoed =
      let orderly = Reach-IsOrderly r in
      let open_still = running_open c.reader c.closed c.pending c.futures reading orderly.shut in
      let started = start_set_sends c ref v compartment f e line open_still framed encoded in
      let confirms : (later : Session F)
          → (matches e (on_frame later (record f { action = Action.code Action.publish })).0).1
            ≡ ok (some true) =
        λ later.
          set_frame-echo_confirms laws c.session later ref v compartment (f, e)
            (Reach-IsConsistent r consistent) other framed in
      (
        started,
        rw started (
            receive_answers (record c { written = c.written ++ line }) e
              (record f { action = Action.code Action.publish }) b echo orderly.book empty plain
              echoed confirms),
      )
