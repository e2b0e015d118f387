-- ===== src/SyncClient/Threads.antt =====
-- Every interleaving of the callers' threads with the reader thread.
use dometic_ddmp.Base.{◌≡◌, true, Option, none, List, [], ◌∷◌, ◌++◌}
use dometic_ddmp.Bytes.{Bytes}
use dometic_ddmp.Result.{Error, ok}
use dometic_ddmp.Frame
use dometic_ddmp.Frame.{Frame}
use dometic_ddmp.Value.{Floats}
use dometic_ddmp.Expectation.{Event}
use dometic_ddmp.SyncClient.{
  SyncClient, polling, delivering, leaving, open_connection, shut, send, recv_fails, recv_returns,
  call_event, finish,
}

module _ {F : Type 0} ⦃fl : Floats F⦄ where
  -- A step, with the bytes that the connection gave in it.
  pub data Step (c : SyncClient F) : Bytes → SyncClient F → Type 0 where
    opens : (d : SyncClient F) → open_connection c ≡ ok d → Step c [] d
    shuts : Step c [] (shut c)
    sends : (f : Frame) (d : SyncClient F) → send c f ≡ ok d → Step c [] d
    -- `sendall` raised after some of the bytes.
    sends_part :
        (f : Frame) (part rest : Bytes)
        → Frame.encode_line f ≡ ok (part ++ rest)
        → Step c [] (record c { written = c.written ++ part })
    -- The reader sees that the client is closed, or `recv` times out, raises, or returns.
    sees_closed :
        c.reader ≡ polling → c.closed ≡ true → Step c [] (record c { reader = leaving none })
    times_out : c.reader ≡ polling → Step c [] c
    fails : (x : Error) → c.reader ≡ polling → Step c [] (recv_fails x c)
    returns : (chunk : Bytes) → c.reader ≡ polling → Step c chunk (recv_returns chunk c)
    calls :
        (e : Event F) (rest : List (Event F))
        → c.reader ≡ delivering (e ∷ rest)
        → Step c [] (call_event e rest c)
    calls_no_more : c.reader ≡ delivering [] → Step c [] (record c { reader = polling })
    finishes : (reason : Option Error) → c.reader ≡ leaving reason → Step c [] (finish reason c)

  -- The clients that can be reached, with the bytes that the connection gave, in order.
  pub data Reach (start_state : SyncClient F) : Bytes → SyncClient F → Type 0 where
    start : Reach start_state [] start_state
    later :
        {bytes chunk : Bytes} {c d : SyncClient F}
        → Reach start_state bytes c
        → Step c chunk d
        → Reach start_state (bytes ++ chunk) d
