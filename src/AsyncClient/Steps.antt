-- ===== src/AsyncClient/Steps.antt =====
-- Every order in which the callers of `set`, `send` and `close`, the reader task, the connection and
-- the clock can take turns.
use dometic_ddmp.Base.{ℕ, ℤ, ◌≡◌, true, Option, some, none, List, ◌∷◌}
use dometic_ddmp.Bytes.{Bytes}
use dometic_ddmp.Result.{Error, ok}
use dometic_ddmp.Frame.{Frame}
use dometic_ddmp.Topic.{TopicRef}
use dometic_ddmp.Value.{Value, Floats}
use dometic_ddmp.Expectation.{Event}
use dometic_ddmp.Session.{Session}
use dometic_ddmp.AsyncClient.{
  AsyncClient, running, cancelling, ended, done, future_at, init, send, leave, expire, close,
  end_closing, end_reading, receive, start_set,
}

module _ {F : Type 0} ⦃fl : Floats F⦄ where
  pub data Step (c : AsyncClient F) : AsyncClient F → Type 0 where
    -- The connection gives bytes, none at its end, or an exception.
    receives : (chunk : Bytes) → c.reader ≡ running → Step c (receive chunk c)
    breaks : (x : Error) → c.reader ≡ running → Step c (end_reading (some x) c)
    -- The reader task sees that it is cancelled.
    stops : c.reader ≡ cancelling → Step c (end_reading none c)
    closes : Step c (close c)
    ends_closing : c.reader ≡ ended → Step c (end_closing c)
    sends : (f : Frame) (d : AsyncClient F) → send c f ≡ ok d → Step c d
    starts :
        (ref : TopicRef) (v : Value F) (compartment : Option ℤ)
        → Step c (start_set c ref v compartment).0
    -- `set` returns or raises what its future holds, runs out of time or is cancelled, or leaves because
    -- the connection refused its bytes.
    finishes : (i : ℕ) → done (future_at c.futures i) ≡ true → Step c (leave i c)
    expires : (i : ℕ) → Step c (expire i c)
    abandons : (i : ℕ) → Step c (leave i c)
    -- A consumer of `events` takes the first one.
    takes :
        (event : Option (Event F)) (rest : List (Option (Event F)))
        → c.events ≡ event ∷ rest
        → Step c (record c { events = rest })

  pub data Reach (s : Session F) : AsyncClient F → Type 0 where
    start : Reach s (init s)
    later : {c d : AsyncClient F} → Reach s c → Step c d → Reach s d
