-- ===== src/AsyncClient/Consistent.antt =====
-- The session that an `AsyncClient` of src/ddmp/aio.py keeps.
use dometic_ddmp.Base.{
  ℤ, ◌≡◌, refl, inl, inr, Option, some, List, [], ◌∷◌, ◌++◌, Option-cases, arith,
}
use dometic_ddmp.Bytes.{Bytes}
use dometic_ddmp.Result.{ok, Result-cases}
use dometic_ddmp.Frame
use dometic_ddmp.Frame.{Frame}
use dometic_ddmp.Topic.{TopicRef}
use dometic_ddmp.Value.{Value, Floats}
use dometic_ddmp.Expectation.{Event}
use dometic_ddmp.Session
use dometic_ddmp.Session.{Session}
use dometic_ddmp.Session.Consistent.{IsConsistent, feed-IsConsistent}
use dometic_ddmp.AsyncClient.{
  AsyncClient, init, send, leave, expire, close, end_closing, end_reading, resolve, deliver,
  receive, start_set,
}
use dometic_ddmp.AsyncClient.Settled.{asked}
use dometic_ddmp.AsyncClient.Steps.{
  Step, receives, breaks, stops, closes, ends_closing, sends, starts, finishes, expires, abandons,
  takes, Reach, start, later,
}

module _ {F : Type 0} ⦃fl : Floats F⦄ where
  deliver_session :
      (events : List (Event F)) (c : AsyncClient F) → (deliver events c).0.session ≡ c.session
  unfolding deliver
  deliver_session [] c = refl
  deliver_session (event ∷ rest) c =
      let r = resolve event c.pending c.futures in
      elim (Option-cases r.2) [
        | inl on ↦
            rw (deliver, on)
              (deliver_session rest
                (record c { pending = r.0; futures = r.1; events = c.events ++ some event ∷ [] }))
        | inr (x, stopped) ↦ rw (deliver, stopped) refl
      ]

  receive-IsConsistent :
      (chunk : Bytes) (c : AsyncClient F)
      → IsConsistent c.session
      → IsConsistent (receive chunk c).session
  unfolding receive end_reading
  receive-IsConsistent [] c h = h
  receive-IsConsistent (b ∷ chunk) c h =
      let (events, s) = Session.feed c.session (b ∷ chunk) in
      let same = deliver_session events (record c { session = s }) in
      let fed = feed-IsConsistent c.session (b ∷ chunk) h in
      elim (Option-cases (deliver events (record c { session = s })).1) [
        | inl on ↦ rw (receive, on) (rw same fed)
        | inr (x, stopped) ↦ rw (receive, stopped) (rw same fed)
      ]

  send_session : (c d : AsyncClient F) (f : Frame) → send c f ≡ ok d → d.session ≡ c.session
  unfolding send
  send_session c d f h = ground (arith, Result-cases (Frame.encode_line f))

  start_set_session :
      (c : AsyncClient F) (ref : TopicRef) (v : Value F) (compartment : Option ℤ)
      → (start_set c ref v compartment).0.session ≡ c.session
  unfolding start_set leave
  start_set_session c ref v compartment =
      elim (Result-cases (Session.set_frame c.session ref v compartment)) [
        | inr (x, e) ↦ rw (start_set, e) refl
        | inl ((f, e), r) ↦ elim (Result-cases (send (asked c e) f)) [
          | inr (x, sent) ↦ rw (start_set, r) (rw sent refl)
          | inl (d, sent) ↦ rw (start_set, r) (rw sent (send_session (asked c e) d f sent))
        ]
      ]

  close_session : (c : AsyncClient F) → (close c).session ≡ c.session
  unfolding close
  close_session c = ground arith

  Step-IsConsistent :
      {c d : AsyncClient F} → Step c d → IsConsistent c.session → IsConsistent d.session
  unfolding leave expire end_closing end_reading
  Step-IsConsistent {c} (receives chunk r) h = receive-IsConsistent chunk c h
  Step-IsConsistent (breaks x r) h = h
  Step-IsConsistent (stops r) h = h
  Step-IsConsistent {c} closes h = rw (close_session c) h
  Step-IsConsistent (ends_closing r) h = h
  Step-IsConsistent {c} {d} (sends f e sent) h = rw (send_session c e f sent) h
  Step-IsConsistent {c} (starts ref v compartment) h = rw (start_set_session c ref v compartment) h
  Step-IsConsistent (finishes i settled) h = h
  Step-IsConsistent (expires i) h = h
  Step-IsConsistent (abandons i) h = h
  Step-IsConsistent (takes event rest e) h = h

  -- The session of a client stays consistent, in whatever order the steps come.
  pub Reach-IsConsistent :
      {s : Session F} {c : AsyncClient F} → Reach s c → IsConsistent s → IsConsistent c.session
  unfolding init
  Reach-IsConsistent start h = h
  Reach-IsConsistent (later r st) h = Step-IsConsistent st (Reach-IsConsistent r h)
