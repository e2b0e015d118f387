-- ===== src/AsyncClient/Settled.antt =====
-- A future that is done keeps its result, whatever happens next.
use dometic_ddmp.Base.{
  ℕ, ℤ, ◌≡◌, refl, ap, true, inl, inr, Option, none, some, List, [], ◌∷◌, ◌++◌, length, Bool-cases,
  Option-cases, arith,
}
use dometic_ddmp.Bytes.{Bytes}
use dometic_ddmp.Result.{ok, Error, Result-cases, connection_closed}
use dometic_ddmp.Frame
use dometic_ddmp.Frame.{Frame}
use dometic_ddmp.Topic.{TopicRef}
use dometic_ddmp.Value.{Value, Floats}
use dometic_ddmp.Expectation.{Event, WriteExpectation, matches}
use dometic_ddmp.Session
use dometic_ddmp.Session.{Session}
use dometic_ddmp.AsyncClient.{
  AsyncClient, Future, waiting, cancelled, Pending, done, future_at, judge, resolve_one, resolve,
  deliver, receive, start_set, send, leave, expire, close, end_closing, end_reading,
}
use dometic_ddmp.AsyncClient.Futures.{
  Keeps, Keeps-trans, Keeps-set, Keeps-guarded, fail_all-Keeps, future_at-append,
}
use dometic_ddmp.AsyncClient.Steps.{
  Step, receives, breaks, stops, closes, ends_closing, sends, starts, finishes, expires, abandons,
  takes,
}

module _ {F : Type 0} ⦃fl : Floats F⦄ where
  resolve_one-Keeps :
      (event : Event F) (p : Pending F) (fs : List (Future F)) → Keeps fs (resolve_one event p fs).1
  unfolding resolve_one
  resolve_one-Keeps event p fs = elim (Bool-cases (done (future_at fs p.fut))) [
    | inl e ↦ rw (e, resolve_one) (λ j h. refl)
    | inr e ↦
        rw (e, resolve_one)
          (Keeps-set fs p.fut
            (judge (matches p.expectation event).0 (matches p.expectation event).1) e)
  ]

  resolve-Keeps :
      (event : Event F) (ps : List (Pending F)) (fs : List (Future F))
      → Keeps fs (resolve event ps fs).1
  unfolding resolve
  resolve-Keeps event [] fs = λ j h. refl
  resolve-Keeps event (p ∷ ps) fs =
      let one = resolve_one event p fs in
      let first = resolve_one-Keeps event p fs in
      elim (Option-cases one.2) [
        | inl e ↦ rw (resolve, e) (Keeps-trans fs one.1 _ first (resolve-Keeps event ps one.1))
        | inr (x, e) ↦ rw (resolve, e) first
      ]

  deliver-Keeps :
      (events : List (Event F)) (c : AsyncClient F) → Keeps c.futures (deliver events c).0.futures
  unfolding deliver
  deliver-Keeps [] c = λ j h. refl
  deliver-Keeps (event ∷ rest) c =
      let r = resolve event c.pending c.futures in
      let first = resolve-Keeps event c.pending c.futures in
      elim (Option-cases r.2) [
        | inl e ↦
            let next = record c {
              pending = r.0;
              futures = r.1;
              events = c.events ++ some event ∷ [];
            } in
            rw (deliver, e) (Keeps-trans c.futures r.1 _ first (deliver-Keeps rest next))
        | inr (x, e) ↦ rw (deliver, e) first
      ]

  end_reading-Keeps :
      (reason : Option Error) (c : AsyncClient F) → Keeps c.futures (end_reading reason c).futures
  unfolding end_reading
  end_reading-Keeps reason c = fail_all-Keeps c.pending c.futures

  receive-Keeps : (chunk : Bytes) (c : AsyncClient F) → Keeps c.futures (receive chunk c).futures
  unfolding receive
  receive-Keeps [] c = end_reading-Keeps (some connection_closed) c
  receive-Keeps (b ∷ chunk) c =
      let (events, s) = Session.feed c.session (b ∷ chunk) in
      let r = deliver events (record c { session = s }) in
      let first = deliver-Keeps events (record c { session = s }) in
      elim (Option-cases r.1) [
        | inl e ↦ rw (receive, e) first
        | inr (x, e) ↦
            rw (receive, e)
              (Keeps-trans c.futures r.0.futures _ first (end_reading-Keeps (some x) r.0))
      ]

  send-futures : (c d : AsyncClient F) (f : Frame) → send c f ≡ ok d → d.futures ≡ c.futures
  unfolding send
  send-futures c d f h = ground (arith, Result-cases (Frame.encode_line f))

  -- The client while `set` sends its frame.
  abbrev pub asked : AsyncClient F → WriteExpectation F → AsyncClient F
  asked c e = record c {
    futures = c.futures ++ waiting ∷ [];
    pending = c.pending ++ record { expectation = e; fut = length c.futures } ∷ [];
  }

  pub asked-Keeps :
      (c : AsyncClient F) (e : WriteExpectation F) → Keeps c.futures (asked c e).futures
  asked-Keeps c e i h = future_at-append c.futures i

  start_set-Keeps :
      (c : AsyncClient F) (ref : TopicRef) (v : Value F) (compartment : Option ℤ)
      → Keeps c.futures (start_set c ref v compartment).0.futures
  unfolding start_set leave
  start_set-Keeps c ref v compartment =
      elim (Result-cases (Session.set_frame c.session ref v compartment)) [
        | inr (x, e) ↦ rw (start_set, e) (λ i h. refl)
        | inl ((f, e), r) ↦ elim (Result-cases (send (asked c e) f)) [
          | inr (x, sent) ↦ rw (start_set, r) (rw sent (asked-Keeps c e))
          | inl (d, sent) ↦
              rw (start_set, r) (rw (sent, send-futures (asked c e) d f sent) (asked-Keeps c e))
        ]
      ]

  expire-Keeps : (i : ℕ) (c : AsyncClient F) → Keeps c.futures (expire i c).futures
  unfolding expire leave
  expire-Keeps i c = Keeps-guarded c.futures i cancelled

  close-futures : (c : AsyncClient F) → (close c).futures ≡ c.futures
  unfolding close
  close-futures c = ground arith

  -- In every step a future that is done stays as it is: a write is settled at most once.
  pub Step-Keeps :
      {c d : AsyncClient F}
      → Step c d
      → (i : ℕ) → done (future_at c.futures i) ≡ true
      → future_at d.futures i ≡ future_at c.futures i
  unfolding leave end_closing
  Step-Keeps {c} (receives chunk h) i settled = receive-Keeps chunk c i settled
  Step-Keeps {c} (breaks x h) i settled = end_reading-Keeps (some x) c i settled
  Step-Keeps {c} (stops h) i settled = end_reading-Keeps none c i settled
  Step-Keeps {c} closes i settled = ap (λ fs. future_at fs i) (close-futures c)
  Step-Keeps (ends_closing h) i settled = refl
  Step-Keeps {c} {d} (sends f e h) i settled = ap (λ fs. future_at fs i) (send-futures c e f h)
  Step-Keeps {c} (starts ref v compartment) i settled =
      start_set-Keeps c ref v compartment i settled
  Step-Keeps (finishes j h) i settled = refl
  Step-Keeps {c} (expires j) i settled = expire-Keeps j c i settled
  Step-Keeps (abandons j) i settled = refl
  Step-Keeps (takes event rest h) i settled = refl
