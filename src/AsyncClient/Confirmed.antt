-- ===== src/AsyncClient/Confirmed.antt =====
-- A write of `AsyncClient` of src/ddmp/aio.py from the SET to the echo that settles it.
use dometic_ddmp.Base.{
  ℕ, ℤ, ◌≡◌, ◌≢◌, refl, ap, sym, ◌∙◌, true, false, Option, none, some, List, [], ◌∷◌, ◌++◌, length,
  set, append-nil, arith,
}
use dometic_ddmp.Bytes.{Bytes}
use dometic_ddmp.Result.{ok}
use dometic_ddmp.Action
use dometic_ddmp.Frame
use dometic_ddmp.Frame.{Frame, IsByteFrame, line_terminator}
use dometic_ddmp.Frame.Laws.{raw_bytes}
use dometic_ddmp.Base64
use dometic_ddmp.LineDecoder
use dometic_ddmp.LineDecoder.{LineDecoder}
use dometic_ddmp.LineDecoder.Scan.{scan, IsPending, feed-eq-scan}
use dometic_ddmp.LineDecoder.Delivery.{encode_line_lem, scan-line}
use dometic_ddmp.Topic.{TopicRef, by_topic, Topic}
use dometic_ddmp.Value.{Value, Floats}
use dometic_ddmp.Value.Milli.{FloatLaws}
use dometic_ddmp.Expectation.{Event, WriteExpectation, matches}
use dometic_ddmp.Session
use dometic_ddmp.Session.{Session, on_frame, on_frames}
use dometic_ddmp.Session.Consistent.{IsConsistent}
use dometic_ddmp.Session.Confirm.{set_frame-echo_confirms}
use dometic_ddmp.AsyncClient.{
  AsyncClient, Future, waiting, result, Pending, done, future_at, judge, resolve_one, resolve,
  deliver, receive, start_set, send,
}
use dometic_ddmp.AsyncClient.Settled.{asked}
use dometic_ddmp.AsyncClient.Invariant.{IsSound, judge-IsSound}

-- The line of a frame, read by a decoder that holds nothing back.
feed_line :
    (d : LineDecoder) (f : Frame) (chunk : Bytes)
    → d.buf ≡ []
    → IsByteFrame f
    → Frame.encode_line f ≡ ok chunk
    → (LineDecoder.feed d chunk).0 ≡ f ∷ []
feed_line d f chunk empty plain encoded =
    let text = Base64.encode (raw_bytes f) ++ line_terminator ∷ [] in
    let same_text : chunk ≡ text = ground (arith, encoded, encode_line_lem f plain) in
    let pending : IsPending d = rw empty tt in
    let as_scan = feed-eq-scan d chunk pending in
    let fresh : d ≡ record { buf = []; dropped = d.dropped } =
      ap (λ b. record { buf = b; dropped = d.dropped }) empty in
    let read : scan d chunk ≡ scan (record { buf = []; dropped = d.dropped }) (text ++ []) =
      ap (λ d. scan d chunk) fresh
      ∙ ap (scan (record { buf = []; dropped = d.dropped })) (same_text ∙ sym (append-nil text)) in
    ap (λ r. r.0) (as_scan ∙ read ∙ scan-line f [] d.dropped plain) ∙ unfold scan in refl

module _ {F : Type 0} ⦃fl : Floats F⦄ where
  pub feed_frame :
      (s : Session F) (f : Frame) (chunk : Bytes)
      → s.decoder.buf ≡ []
      → IsByteFrame f
      → Frame.encode_line f ≡ ok chunk
      → (later : Session F) × ((Session.feed s chunk).0 ≡ (on_frame later f).0 ∷ [])
  unfolding Session.feed on_frames
  feed_frame s f chunk empty plain encoded = (
    record s { decoder = (LineDecoder.feed s.decoder chunk).1 },
    rw (feed_line s.decoder f chunk empty plain encoded) refl,
  )

  pub future_at-last : (fs : List (Future F)) → future_at (fs ++ waiting ∷ []) (length fs) ≡ waiting
  future_at-last [] = refl
  future_at-last (f ∷ fs) = future_at-last fs

  future_at-set_last :
      (fs : List (Future F)) (f : Future F)
      → future_at (set (fs ++ waiting ∷ []) (length fs) f) (length fs) ≡ f
  future_at-set_last [] f = refl
  future_at-set_last (g ∷ fs) f = future_at-set_last fs f

  pub resolve_one_confirms :
      (event : Event F) (p : Pending F) (fs : List (Future F))
      → done (future_at fs p.fut) ≡ false
      → (matches p.expectation event).1 ≡ ok (some true)
      → resolve_one event p fs ≡ (
        record p { expectation = (matches p.expectation event).0 },
        set fs p.fut (result (matches p.expectation event).0.observed),
        none,
      )
  unfolding resolve_one
  resolve_one_confirms event p fs waits confirms = rw (resolve_one, waits) (rw confirms refl)

  resolve_confirms :
      (event : Event F) (e : WriteExpectation F) (fs : List (Future F))
      → (matches e event).1 ≡ ok (some true)
      → resolve event (record { expectation = e; fut = length fs } ∷ []) (fs ++ waiting ∷ []) ≡ (
        record { expectation = (matches e event).0; fut = length fs } ∷ [],
        set (fs ++ waiting ∷ []) (length fs) (result (matches e event).0.observed),
        none,
      )
  unfolding resolve
  resolve_confirms event e fs confirms =
      let settled =
        resolve_one_confirms event (record { expectation = e; fut = length fs })
          (fs ++ waiting ∷ []) (ap done (future_at-last fs)) confirms in
      rw (resolve, settled) (rw settled refl)

  sound_value :
      (e : WriteExpectation F) (o : Option (Value F))
      → IsSound e (result o)
      → (w : Value F) × (o ≡ some w)
  sound_value e none h = absurd h
  sound_value e (some w) h = (w, refl)

  observed_value :
      (e : WriteExpectation F)
      → IsSound e (result e.observed)
      → (w : Value F) × (e.observed ≡ some w)
  observed_value e h = sound_value e e.observed h

  -- What settles a write is a value.
  pub settles :
      (event : Event F) (e : WriteExpectation F)
      → (matches e event).1 ≡ ok (some true)
      → (w : Value F) × ((matches e event).0.observed ≡ some w)
  settles event e confirms =
      let sound : IsSound (matches e event).0 (judge (matches e event).0 (matches e event).1) =
        judge-IsSound e event in
      observed_value (matches e event).0 (rw confirms at sound)

  receive_confirms :
      (c : AsyncClient F) (e : WriteExpectation F) (f : Frame) (b : ℕ) (chunk : Bytes)
      → c.session.decoder.buf ≡ []
      → IsByteFrame f
      → Frame.encode_line f ≡ ok (b ∷ chunk)
      → c.pending ≡ []
      → ((later : Session F) → (matches e (on_frame later f).0).1 ≡ ok (some true))
      → (w : Value F) × (future_at (receive (b ∷ chunk) (asked c e)).futures (length c.futures)
          ≡ result (some w))
  unfolding receive deliver
  receive_confirms c e f b chunk empty plain encoded quiet confirms =
      let (later, heard) = feed_frame c.session f (b ∷ chunk) empty plain encoded in
      let event = (on_frame later f).0 in
      let (w, observed) = settles event e (confirms later) in
      let settled = resolve_confirms event e c.futures (confirms later) in
      (
        w,
        rw (receive, heard, quiet)
            (rw (deliver, settled)
              (rw settled (
                future_at-set_last c.futures (result (matches e event).0.observed)
                ∙ ap result observed))),
      )

  pub start_set_sends :
      (c : AsyncClient F) (ref : TopicRef) (v : Value F) (compartment : Option ℤ) (f : Frame)
      (e : WriteExpectation F) (line : Bytes)
      → c.closed ≡ false
      → Session.set_frame c.session ref v compartment ≡ ok (f, e)
      → Frame.encode_line f ≡ ok line
      → start_set c ref v compartment
        ≡ (record (asked c e) { written = c.written ++ line }, ok (length c.futures))
  unfolding start_set send
  start_set_sends c ref v compartment f e line open_still framed encoded =
      rw (start_set, framed) (rw (send, open_still, encoded) refl)

  -- Under the laws of floats: an open client that waits for no write, and holds back no bytes of its
  -- stream, whose session is consistent, is asked for a SET, for a name or an address and not a topic of
  -- the caller's own. Where the SET can be made and sent, and its echo is a frame of bytes, the future of
  -- this `set` has a value as its result when the line of the echo has been received.
  pub start_set-receive_settles :
      (laws : FloatLaws F) (c : AsyncClient F) (ref : TopicRef) (v : Value F)
      (compartment : Option ℤ) (f : Frame) (e : WriteExpectation F) (line : Bytes) (b : ℕ)
      (echo : Bytes)
      → IsConsistent c.session
      → ((u : Topic) → ref ≢ by_topic u)
      → c.session.decoder.buf ≡ []
      → c.closed ≡ false
      → c.pending ≡ []
      → Session.set_frame c.session ref v compartment ≡ ok (f, e)
      → Frame.encode_line f ≡ ok line
      → IsByteFrame (record f { action = Action.code Action.publish })
      → Frame.encode_line (record f { action = Action.code Action.publish }) ≡ ok (b ∷ echo)
      → ((start_set c ref v compartment).1 ≡ ok (length c.futures))
        × ((w : Value F) × (future_at
                (receive (b ∷ echo) (start_set c ref v compartment).0).futures
                (length c.futures)
              ≡ result (some w)))
  start_set-receive_settles laws c ref v compartment f e line b echo consistent other empty
        open_still quiet framed encoded plain echoed =
      let started = start_set_sends c ref v compartment f e line open_still framed encoded in
      rw started (
        refl,
        receive_confirms (record c { written = c.written ++ line }) e
            (record f { action = Action.code Action.publish }) b echo empty plain echoed quiet
            (λ later.
              set_frame-echo_confirms laws c.session later ref v compartment (f, e) consistent other
                framed),
      )
