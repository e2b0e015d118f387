-- ===== src/SyncClient.antt =====
-- `SyncClient` of src/ddmp/sync_client.py: the callers' threads and the reader thread over one
-- connection. What stands between two points where another thread can be seen is one function here.
pub mod Threads
pub mod Faithful
pub mod Callbacks
pub mod Keepalive
pub mod Burst
use dometic_ddmp.Base.{
  ℤ, Bool, true, false, not, ◌&&◌, ◌||◌, Option, none, some, List, [], ◌∷◌, ◌++◌, if◌then◌else◌,
}
use dometic_ddmp.Bytes.{Bytes}
use dometic_ddmp.Result.{Result, ok, err, Error, connection_closed, ◌>>=◌}
use dometic_ddmp.Frame
use dometic_ddmp.Frame.{Frame}
use dometic_ddmp.Topic.{TopicRef}
use dometic_ddmp.Value.{Value, Floats}
use dometic_ddmp.Expectation.{Event, WriteExpectation}
use dometic_ddmp.Session
use dometic_ddmp.Session.{Session}

-- Where the reader thread is: not started, at the test of its loop or in `recv`, in the loop over the
-- events of a chunk, in its `finally` with what ended it, or gone.
pub data Reader (F : Type 0) : Type 0 where
  idle polling finished : Reader F
  delivering : List (Event F) → Reader F
  leaving : Option Error → Reader F

-- A call of `on_event` or of `on_close`.
pub data Call (F : Type 0) : Type 0 where
  event : Event F → Call F
  close : Option Error → Call F

-- `calls` is the log of the callbacks; `has_on_event` and `has_on_close` say whether they are given.
pub record SyncClient (F : Type 0) : Type 0 where
  pub session : Session F
  pub has_on_event : Bool
  pub has_on_close : Bool
  pub has_sock : Bool
  pub closed : Bool
  pub reader : Reader F
  pub close_reason : Option Error
  pub calls : List (Call F)
  pub written : Bytes

-- `SyncClient(host, port, on_event=..., on_close=..., session=...)`
unfoldable pub init : {F : Type 0} → Session F → Bool → Bool → SyncClient F
init s has_on_event has_on_close = record {
  session = s;
  has_on_event = has_on_event;
  has_on_close = has_on_close;
  has_sock = false;
  closed = false;
  reader = idle;
  close_reason = none;
  calls = [];
  written = [];
}

module _ {F : Type 0} where
  -- `connected`
  unfoldable pub connected : SyncClient F → Bool
  connected c = c.has_sock && not c.closed

  -- `connect` up to the subscriptions, once the connection is there.
  unfoldable pub open_connection : SyncClient F → Result (SyncClient F)
  open_connection c =
      if c.has_sock
      then err connection_closed
      else ok (record c { has_sock = true; reader = polling })

  -- `close`: the shutdown wakes the reader.
  unfoldable pub shut : SyncClient F → SyncClient F
  shut c = if c.closed then c else record c { closed = true }

  -- `send`, under the lock, where the connection takes all bytes.
  unfoldable pub send : SyncClient F → Frame → Result (SyncClient F)
  send c f =
      if not c.has_sock || c.closed
      then err connection_closed
      else (do line ← Frame.encode_line f; ok (record c { written = c.written ++ line }))

  -- The loop of `subscribe_all`, up to the first frame that cannot be sent.
  unfoldable pub send_all : SyncClient F → List Frame → Result (SyncClient F)
  send_all c [] = ok c
  send_all c (f ∷ fs) = do sent ← send c f; send_all sent fs

  unfoldable pub subscribe_all : SyncClient F → Result (SyncClient F)
  subscribe_all c = send_all c (Session.subscribe_frames c.session)

  -- `connect`
  unfoldable pub connect : SyncClient F → Bool → Result (SyncClient F)
  connect c subscribe = do
    opened ← open_connection c
    if subscribe then subscribe_all opened else ok opened

  -- `recv` raised: the exception counts unless the client was closed.
  unfoldable pub recv_fails : Error → SyncClient F → SyncClient F
  recv_fails x c = record c { reader = leaving (if c.closed then none else some x) }

  -- One turn of the loop over the events: the callback, whose exceptions are logged and dropped.
  unfoldable pub call_event : Event F → List (Event F) → SyncClient F → SyncClient F
  call_event e rest c = record c {
    calls = if c.has_on_event then c.calls ++ event e ∷ [] else c.calls;
    reader = delivering rest;
  }

  -- The `finally` of `_read_loop`.
  unfoldable pub finish : Option Error → SyncClient F → SyncClient F
  finish reason c = record c {
    close_reason = reason;
    closed = true;
    calls = if c.has_on_close then c.calls ++ close reason ∷ [] else c.calls;
    reader = finished;
  }

module _ {F : Type 0} ⦃fl : Floats F⦄ where
  -- `recv` returned: no bytes at the end of the stream, else bytes for the session.
  unfoldable pub recv_returns : Bytes → SyncClient F → SyncClient F
  recv_returns [] c = recv_fails connection_closed c
  recv_returns (b ∷ chunk) c =
      let (events, s) = Session.feed c.session (b ∷ chunk) in
      record c { session = s; reader = delivering events }

  -- `set`
  unfoldable pub set :
      SyncClient F → TopicRef → Value F → Option ℤ → Result (SyncClient F × WriteExpectation F)
  set c ref v compartment = do
    (frame, expectation) ← Session.set_frame c.session ref v compartment
    sent ← send c frame
    ok (sent, expectation)
