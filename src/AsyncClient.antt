-- ===== src/AsyncClient.antt =====
-- `AsyncClient` of src/ddmp/aio.py: writes that wait for their echo, and the task that reads the
-- connection. The event loop runs one step between two awaits; a step here is such a piece of code.
pub mod Steps
pub mod Futures
pub mod Settled
pub mod Invariant
pub mod Orderly
pub mod Removal
pub mod Shut
pub mod Reachable
pub mod Confirmed
pub mod Consistent
pub mod Answered
pub mod Opened
use dometic_ddmp.Base.{
  ℕ, zero, suc, ℤ, Bool, true, false, not, Option, none, some, List, [], ◌∷◌, ◌++◌, length, set,
  get_elem?, ◌==◌, ◌≡◌, if◌then◌else◌,
}
use dometic_ddmp.Bytes.{Bytes}
use dometic_ddmp.Result.{
  Result, ok, err, Error, connection_closed, write_rejected, write_timeout, ◌>>=◌,
}
use dometic_ddmp.Frame
use dometic_ddmp.Frame.{Frame}
use dometic_ddmp.Topic.{TopicRef}
use dometic_ddmp.Value.{Value, Floats}
use dometic_ddmp.Expectation.{Event, WriteExpectation, matches}
use dometic_ddmp.Session
use dometic_ddmp.Session.{Session}

-- An `asyncio.Future`; one that is not waiting is done.
pub data Future (F : Type 0) : Type 0 where
  waiting cancelled : Future F
  result : Option (Value F) → Future F
  failed : Error → Future F

abbrev pub done : {F : Type 0} → Future F → Bool
done waiting = false
done cancelled = true
done (result v) = true
done (failed e) = true

-- An entry of `_pending`: the expectation, and the future by its number.
pub record Pending (F : Type 0) : Type 0 where
  pub expectation : WriteExpectation F
  pub fut : ℕ

-- The reader task: it may be cancelled before it has seen so.
pub data Reader : Type 0 where
  running cancelling ended : Reader

-- The futures are shared by `_pending` and the callers of `set`, so they stand in a store. `events` is
-- the queue, where `none` ends the iteration.
pub record AsyncClient (F : Type 0) : Type 0 where
  pub session : Session F
  pub events : List (Option (Event F))
  pub pending : List (Pending F)
  pub futures : List (Future F)
  pub closed : Bool
  pub close_reason : Option Error
  pub reader : Reader
  pub written : Bytes

-- `AsyncClient(reader, writer)`, with the reader task started.
unfoldable pub init : {F : Type 0} → Session F → AsyncClient F
init s = record {
  session = s;
  events = [];
  pending = [];
  futures = [];
  closed = false;
  close_reason = none;
  reader = running;
  written = [];
}

abbrev pub raised {ℓ} : {A : Type ℓ} → Result A → Option Error
raised (ok a) = none
raised (err x) = some x

module _ {F : Type 0} where
  -- `connected`
  abbrev pub connected : AsyncClient F → Bool
  connected c = not c.closed

  -- The future with a number; the ones that are still to be made count as waiting.
  abbrev pub future_at : List (Future F) → ℕ → Future F
  future_at [] i = waiting
  future_at (f ∷ fs) zero = f
  future_at (f ∷ fs) (suc i) = future_at fs i

  -- `send`
  unfoldable pub send : AsyncClient F → Frame → Result (AsyncClient F)
  send c f =
      if c.closed
      then err connection_closed
      else (do line ← Frame.encode_line f; ok (record c { written = c.written ++ line }))

  -- The loop of `subscribe_all`, up to the first frame that cannot be sent.
  unfoldable pub send_all : AsyncClient F → List Frame → Result (AsyncClient F)
  send_all c [] = ok c
  send_all c (f ∷ fs) = do sent ← send c f; send_all sent fs

  unfoldable pub subscribe_all : AsyncClient F → Result (AsyncClient F)
  subscribe_all c = send_all c (Session.subscribe_frames c.session)

  -- `connect`, once the connection is there.
  unfoldable pub connect : Session F → Bool → Result (AsyncClient F)
  connect s subscribe = if subscribe then subscribe_all (init s) else ok (init s)

  -- `self._pending.remove(...)`: the entry of one future.
  unfoldable pub remove : ℕ → List (Pending F) → List (Pending F)
  remove i [] = []
  remove i (p ∷ ps) = if p.fut == i then ps else p ∷ remove i ps

  -- `if not fut.done(): fut.set_exception(...)` for all that are pending.
  unfoldable pub fail_all : List (Pending F) → List (Future F) → List (Future F)
  fail_all [] futures = futures
  fail_all (p ∷ ps) futures = fail_all ps (
      if done (future_at futures p.fut)
      then futures
      else set futures p.fut (failed connection_closed))

  -- The `finally` of `_read_loop`.
  unfoldable pub end_reading : Option Error → AsyncClient F → AsyncClient F
  end_reading reason c = record c {
    close_reason = reason;
    closed = true;
    futures = fail_all c.pending c.futures;
    events = c.events ++ none ∷ [];
    reader = ended;
  }

  -- `close` up to the wait for the reader task, which it cancels.
  unfoldable pub close : AsyncClient F → AsyncClient F
  close c = if c.closed then c else record c { closed = true; reader = cancelling }

  -- The end of `close`.
  unfoldable pub end_closing : AsyncClient F → AsyncClient F
  end_closing c = record c { events = c.events ++ none ∷ [] }

  -- The `finally` of `set`, which every way out of it takes.
  unfoldable pub leave : ℕ → AsyncClient F → AsyncClient F
  leave i c = record c { pending = remove i c.pending }

  -- `wait_for` at the end of its time, unless the future is done: it cancels the future.
  unfoldable pub expire : ℕ → AsyncClient F → AsyncClient F
  expire i c = leave i (record c {
    futures = if done (future_at c.futures i) then c.futures else set c.futures i cancelled;
  })

  -- What `set` returns or raises when its future is done.
  unfoldable pub outcome : Future F → Option (Result (Option (Value F)))
  outcome waiting = none
  outcome cancelled = some (err write_timeout)
  outcome (result v) = some (ok v)
  outcome (failed e) = some (err e)

module _ {F : Type 0} ⦃fl : Floats F⦄ where
  -- What a verdict makes of the future; an exception of `matches` is passed on.
  abbrev pub judge : WriteExpectation F → Result (Option Bool) → Future F
  judge e (ok (some true)) = result e.observed
  judge e (ok (some false)) = failed write_rejected
  judge e (ok none) = waiting
  judge e (err x) = waiting

  -- One round of the loop of `_resolve`.
  unfoldable pub resolve_one :
      Event F → Pending F → List (Future F) → Pending F × List (Future F) × Option Error
  resolve_one event p futures =
      if done (future_at futures p.fut)
      then (p, futures, none)
      else (let (e, verdict) = matches p.expectation event in
          (record p { expectation = e }, set futures p.fut (judge e verdict), raised verdict))

  -- `_resolve`, which an exception of `matches` leaves.
  unfoldable pub resolve :
      Event F
      → List (Pending F)
      → List (Future F)
      → List (Pending F) × List (Future F) × Option Error
  resolve event [] futures = ([], futures, none)
  resolve event (p ∷ ps) futures =
      let (p', futures', stop) = resolve_one event p futures in
      elim stop [
        | some x ↦ (p' ∷ ps, futures', some x)
        | none ↦
            let (ps', futures'', stop') = resolve event ps futures' in (p' ∷ ps', futures'', stop')
      ]

  -- The loop over the events of one chunk.
  unfoldable pub deliver : List (Event F) → AsyncClient F → AsyncClient F × Option Error
  deliver [] c = (c, none)
  deliver (event ∷ rest) c =
      let (ps, futures, stop) = resolve event c.pending c.futures in
      let c' = record c { pending = ps; futures = futures } in
      elim stop [
        | some x ↦ (c', some x)
        | none ↦ deliver rest (record c' { events = c.events ++ some event ∷ [] })
      ]

  abbrev pub end_if : Option Error → AsyncClient F → AsyncClient F
  end_if none c = c
  end_if (some x) c = end_reading (some x) c

  -- One round of the loop of `_read_loop`.
  unfoldable pub receive : Bytes → AsyncClient F → AsyncClient F
  receive [] c = end_reading (some connection_closed) c
  receive (b ∷ chunk) c =
      let (events, s) = Session.feed c.session (b ∷ chunk) in
      let (c', stop) = deliver events (record c { session = s }) in end_if stop c'

  -- `set` up to its wait, with the number of its future.
  unfoldable pub start_set :
      AsyncClient F → TopicRef → Value F → Option ℤ → AsyncClient F × Result ℕ
  start_set c ref v compartment = elim (Session.set_frame c.session ref v compartment) [
    | err x ↦ (c, err x)
    | ok (f, e) ↦
        let i = length c.futures in
        let asked = record c {
          futures = c.futures ++ waiting ∷ [];
          pending = c.pending ++ record { expectation = e; fut = i } ∷ [];
        } in
        elim (send asked f) [ err x ↦ (leave i asked, err x) | ok sent ↦ (sent, ok i) ]
  ]
