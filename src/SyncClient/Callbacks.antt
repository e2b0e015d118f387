-- ===== src/SyncClient/Callbacks.antt =====
-- What the callbacks of `SyncClient` of src/ddmp/sync_client.py are told, however the threads interleave.
use dometic_ddmp.Base.{
  ◌≡◌, refl, sym, ap, ◌∙◌, true, Option, none, List, [], ◌∷◌, ◌++◌, map, append_assoc, append-nil,
  arith,
}
use mathlib.Core.List.{map-append}
use dometic_ddmp.Bytes.{Bytes}
use dometic_ddmp.Result.{Error, connection_closed}
use dometic_ddmp.LineDecoder.Scan.{IsPending}
use dometic_ddmp.Value.{Floats}
use dometic_ddmp.Expectation.{Event}
use dometic_ddmp.Session
use dometic_ddmp.Session.{Session}
use dometic_ddmp.SyncClient.{
  SyncClient, polling, finished, delivering, leaving, event, close, init, recv_returns, call_event,
  finish,
}
use dometic_ddmp.SyncClient.Threads.{
  Step, opens, shuts, sends, sends_part, sees_closed, times_out, fails, returns, calls,
  calls_no_more, finishes, Reach, start, later,
}
use dometic_ddmp.SyncClient.Faithful.{
  feed-append, feed-nil, undelivered, farewell, IsOver, quiet-told, told_quiet, open-same,
  send-same, idle-IsQuiet, polling-IsQuiet, leaving-IsQuiet, moves-IsFaithful, opened,
  shut-IsFaithful, writes-IsFaithful, fail-IsFaithful, rests-IsFaithful, IsFaithful,
}

module _ {F : Type 0} ⦃fl : Floats F⦄ where
  receive-IsFaithful :
      {s : Session F} {bytes : Bytes} {c : SyncClient F} (chunk : Bytes)
      → IsPending s.decoder
      → c.reader ≡ polling
      → IsFaithful s bytes c
      → IsFaithful s (bytes ++ chunk) (recv_returns chunk c)
  unfolding recv_returns
  receive-IsFaithful {s} {bytes} {c} [] pend r h =
      rw (append-nil bytes) (fail-IsFaithful connection_closed r h)
  receive-IsFaithful {s} {bytes} {c} (b ∷ chunk) pend r h =
      let before = polling-IsQuiet c.reader r in
      let both = feed-append s bytes (b ∷ chunk) pend in
      record {
        on_event = h.on_event;
        on_close = h.on_close;
        told =
            rw (both, h.session)
              (ap
                  (λ calls.
                    calls ++ map event (Session.feed (Session.feed s bytes).1 (b ∷ chunk)).0)
                  (told_quiet h before)
                ∙ sym (map-append event (Session.feed s bytes).0 _)
                ∙ sym (append-nil _));
        session = rw (both, h.session) refl;
        over = tt;
        unopened = opened _ h (λ e. absurd (ground (arith, r, e)));
      }

  call-IsFaithful :
      {s : Session F} {bytes : Bytes} {c : SyncClient F} (e : Event F) (rest : List (Event F))
      → c.reader ≡ delivering (e ∷ rest)
      → IsFaithful s bytes c
      → IsFaithful s bytes (call_event e rest c)
  unfolding call_event
  call-IsFaithful {s} {bytes} {c} e rest r h = record {
    on_event = h.on_event;
    on_close = h.on_close;
    told = rw h.on_event (append_assoc c.calls (event e ∷ []) (map event rest) ∙ (rw r at h.told));
    session = h.session;
    over = tt;
    unopened = opened (delivering rest) h (λ e. absurd (ground (arith, r, e)));
  }

  finish-IsFaithful :
      {s : Session F} {bytes : Bytes} {c : SyncClient F} (reason : Option Error)
      → c.reader ≡ leaving reason
      → IsFaithful s bytes c
      → IsFaithful s bytes (finish reason c)
  unfolding finish
  finish-IsFaithful {s} {bytes} {c} reason r h = record {
    on_event = h.on_event;
    on_close = h.on_close;
    told = rw h.on_close (
        append-nil _
        ∙ ap (λ calls. calls ++ close reason ∷ [])
            (told_quiet h (leaving-IsQuiet c.reader reason r)));
    session = h.session;
    over = refl;
    unopened = opened finished h (λ e. absurd (ground (arith, r, e)));
  }

  Step-IsFaithful :
      {s : Session F} {bytes chunk : Bytes} {c d : SyncClient F}
      → IsPending s.decoder
      → Step c chunk d
      → IsFaithful s bytes c
      → IsFaithful s (bytes ++ chunk) d
  Step-IsFaithful {c = c} pend (opens d e) h =
      let (closed_sock, same) = open-same c d e in
      rw (append-nil _, same)
        (record {
          on_event = h.on_event;
          on_close = h.on_close;
          told =
              quiet-told polling c.close_reason h (idle-IsQuiet c.reader (h.unopened closed_sock))
                (polling-IsQuiet polling refl);
          session = h.session;
          over = tt;
          unopened = λ e. absurd (ground arith);
        })
  Step-IsFaithful {c = c} pend shuts h = rw (append-nil _) (shut-IsFaithful h)
  Step-IsFaithful {c = c} pend (sends f d e) h =
      rw (append-nil _, send-same c d f e) (writes-IsFaithful d.written h)
  Step-IsFaithful {c = c} pend (sends_part f part rest e) h =
      rw (append-nil _) (writes-IsFaithful (c.written ++ part) h)
  Step-IsFaithful {c = c} pend (sees_closed r e) h = rw (append-nil _) (
      moves-IsFaithful (leaving none) h (polling-IsQuiet c.reader r) (leaving-IsQuiet _ none refl)
        (opened (leaving none) h (λ e. absurd (ground (arith, r, e)))))
  Step-IsFaithful pend (times_out r) h = rw (append-nil _) h
  Step-IsFaithful {c = c} pend (fails x r) h = rw (append-nil _) (fail-IsFaithful x r h)
  Step-IsFaithful pend (returns chunk r) h = receive-IsFaithful chunk pend r h
  Step-IsFaithful pend (calls e rest r) h = rw (append-nil _) (call-IsFaithful e rest r h)
  Step-IsFaithful {c = c} pend (calls_no_more r) h = rw (append-nil _) (rests-IsFaithful r h)
  Step-IsFaithful pend (finishes reason r) h = rw (append-nil _) (finish-IsFaithful reason r h)

  Reach-IsFaithful :
      {s : Session F} {bytes : Bytes} {c : SyncClient F}
      → IsPending s.decoder
      → Reach (init s true true) bytes c
      → IsFaithful s bytes c
  unfolding init
  Reach-IsFaithful {s} pend start =
      let none_yet = feed-nil s pend in
      record {
        on_event = refl;
        on_close = refl;
        told = rw none_yet refl;
        session = rw none_yet refl;
        over = tt;
        unopened = λ e. refl;
      }
  Reach-IsFaithful pend (later r st) = Step-IsFaithful pend st (Reach-IsFaithful pend r)

  -- Whatever order the threads take their turns in, a client with both callbacks, whose session started
  -- with no complete line held back, has called `on_event` with the events of the stream it has read, in
  -- order, up to those that its reader is about to deliver, and then, exactly if its reader is gone,
  -- `on_close` with the reason; its session is that of the whole stream, and once its reader is gone it
  -- is closed.
  pub Reach-tells :
      (s : Session F) {bytes : Bytes} {c : SyncClient F}
      → IsPending s.decoder
      → Reach (init s true true) bytes c
      → (c.calls ++ map event (undelivered c.reader)
          ≡ map event (Session.feed s bytes).0 ++ farewell c.reader c.close_reason)
        × (c.session ≡ (Session.feed s bytes).1)
        × IsOver c.reader c.closed
  Reach-tells s pend r = let h = Reach-IsFaithful pend r in (h.told, h.session, h.over)
