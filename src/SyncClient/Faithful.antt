-- ===== src/SyncClient/Faithful.antt =====
-- What the reader thread has told the callbacks, at each point of its loop, and the steps that tell nothing.
use dometic_ddmp.Base.{
  ◌≡◌, refl, sym, ap, ◌∙◌, Bool, true, false, inl, inr, Option, List, [], ◌∷◌, ◌++◌, map,
  append-nil, Bool-cases, arith,
}
use dometic_ddmp.Bytes.{Bytes}
use dometic_ddmp.Result.{Error, ok, Result-cases}
use dometic_ddmp.Frame
use dometic_ddmp.Frame.{Frame}
use dometic_ddmp.LineDecoder.Scan.{IsPending}
use dometic_ddmp.Value.{Floats}
use dometic_ddmp.Expectation.{Event}
use dometic_ddmp.Session
use dometic_ddmp.Session.{Session}
use dometic_ddmp.Session.Inbound.{feed_all, session_feed_all-eq-feed}
use dometic_ddmp.SyncClient.{
  SyncClient, Reader, idle, polling, finished, delivering, leaving, Call, event, close,
  open_connection, shut, send, recv_fails,
}

module _ {F : Type 0} ⦃fl : Floats F⦄ where
  pub feed-append :
      (s : Session F) (b chunk : Bytes)
      → IsPending s.decoder
      → Session.feed s (b ++ chunk) ≡ (
        (Session.feed s b).0 ++ (Session.feed (Session.feed s b).1 chunk).0,
        (Session.feed (Session.feed s b).1 chunk).1,
      )
  unfolding feed_all
  feed-append s b chunk h =
      let split = session_feed_all-eq-feed s (b ∷ chunk ∷ []) h in
      ap (λ bs. Session.feed s (b ++ bs)) (sym (append-nil chunk))
      ∙ sym split
      ∙ ap (λ es. ((Session.feed s b).0 ++ es, (Session.feed (Session.feed s b).1 chunk).1))
          (append-nil (Session.feed (Session.feed s b).1 chunk).0)

  pub feed-nil : (s : Session F) → IsPending s.decoder → Session.feed s [] ≡ ([], s)
  unfolding feed_all
  feed-nil s h = sym (session_feed_all-eq-feed s [] h)

  -- The events of the last chunk that `on_event` has not been called with, and the call of `on_close`.
  abbrev pub undelivered : Reader F → List (Event F)
  undelivered (delivering events) = events
  undelivered idle = []
  undelivered polling = []
  undelivered (leaving reason) = []
  undelivered finished = []

  abbrev pub farewell : Reader F → Option Error → List (Call F)
  farewell finished reason = close reason ∷ []
  farewell idle reason = []
  farewell polling reason = []
  farewell (delivering events) reason = []
  farewell (leaving reason') reason = []

  abbrev pub IsOver : Reader F → Bool → Type 0
  IsOver finished closed = closed ≡ true
  IsOver idle closed = Unit
  IsOver polling closed = Unit
  IsOver (delivering events) closed = Unit
  IsOver (leaving reason) closed = Unit

  pub record IsFaithful (s : Session F) (bytes : Bytes) (c : SyncClient F) : Type 0 where
    pub on_event : c.has_on_event ≡ true
    pub on_close : c.has_on_close ≡ true
    pub told :
        c.calls ++ map event (undelivered c.reader)
        ≡ map event (Session.feed s bytes).0 ++ farewell c.reader c.close_reason
    pub session : c.session ≡ (Session.feed s bytes).1
    pub over : IsOver c.reader c.closed
    pub unopened : c.has_sock ≡ false → c.reader ≡ idle

  -- A reader that is neither in the loop over the events nor gone.
  abbrev pub IsQuiet : Reader F → Type 0
  IsQuiet r =
      (undelivered r ≡ [])
      × ((reason : Option Error) → farewell r reason ≡ [])
      × ((closed : Bool) → IsOver r closed)

  pub quiet-told :
      {s : Session F} {bytes : Bytes} {c : SyncClient F} (r : Reader F) (reason : Option Error)
      → IsFaithful s bytes c
      → IsQuiet c.reader
      → IsQuiet r
      → c.calls ++ map event (undelivered r)
        ≡ map event (Session.feed s bytes).0 ++ farewell r reason
  quiet-told {s} {bytes} {c} r reason h before after =
      rw (after.0, after.1 reason) (rw (before.0, before.1 c.close_reason) at h.told)

  pub told_quiet :
      {s : Session F} {bytes : Bytes} {c : SyncClient F}
      → IsFaithful s bytes c
      → IsQuiet c.reader
      → c.calls ≡ map event (Session.feed s bytes).0
  told_quiet {s} {bytes} {c} h before =
      sym (append-nil c.calls) ∙ (rw (before.0, before.1 c.close_reason) at h.told) ∙ append-nil _

  pub open-same :
      (c d : SyncClient F)
      → open_connection c ≡ ok d
      → (c.has_sock ≡ false) × (d ≡ record c { has_sock = true; reader = polling })
  unfolding open_connection
  open-same c d h = ground arith

  pub send-same :
      (c d : SyncClient F) (f : Frame) → send c f ≡ ok d → d ≡ record c { written = d.written }
  unfolding send
  send-same c d f h = ground (arith, Result-cases (Frame.encode_line f))

  pub idle-IsQuiet : (r : Reader F) → r ≡ idle → IsQuiet r
  idle-IsQuiet r e = rw e (refl, λ reason. refl, λ closed. tt)

  pub polling-IsQuiet : (r : Reader F) → r ≡ polling → IsQuiet r
  polling-IsQuiet r e = rw e (refl, λ reason. refl, λ closed. tt)

  pub leaving-IsQuiet : (r : Reader F) (x : Option Error) → r ≡ leaving x → IsQuiet r
  leaving-IsQuiet r x e = rw e (refl, λ reason. refl, λ closed. tt)

  -- The reader thread moves between the points where it has nothing to tell.
  pub moves-IsFaithful :
      {s : Session F} {bytes : Bytes} {c : SyncClient F} (r : Reader F)
      → IsFaithful s bytes c
      → IsQuiet c.reader
      → IsQuiet r
      → (c.has_sock ≡ false → r ≡ idle)
      → IsFaithful s bytes (record c { reader = r })
  moves-IsFaithful {c = c} r h before after unopened = record {
    on_event = h.on_event;
    on_close = h.on_close;
    told = quiet-told r c.close_reason h before after;
    session = h.session;
    over = after.2 c.closed;
    unopened = unopened;
  }

  -- A reader that is past its start has a connection.
  pub opened :
      {s : Session F} {bytes : Bytes} {c : SyncClient F} (r : Reader F)
      → IsFaithful s bytes c
      → (c.reader ≡ idle → r ≡ idle)
      → c.has_sock ≡ false
      → r ≡ idle
  opened r h f e = f (h.unopened e)

  pub IsOver-closed : (r : Reader F) (closed : Bool) → IsOver r closed → IsOver r true
  IsOver-closed finished closed o = refl
  IsOver-closed idle closed o = tt
  IsOver-closed polling closed o = tt
  IsOver-closed (delivering events) closed o = tt
  IsOver-closed (leaving reason) closed o = tt

  pub shut_again : (c : SyncClient F) → c.closed ≡ true → shut c ≡ c
  unfolding shut
  shut_again c e = ground arith

  pub shut_open : (c : SyncClient F) → c.closed ≡ false → shut c ≡ record c { closed = true }
  unfolding shut
  shut_open c e = ground arith

  pub shut-IsFaithful :
      {s : Session F} {bytes : Bytes} {c : SyncClient F}
      → IsFaithful s bytes c
      → IsFaithful s bytes (shut c)
  shut-IsFaithful {s} {bytes} {c} h = elim (Bool-cases c.closed) [
    | inl e ↦ rw (shut_again c e) h
    | inr e ↦ rw (shut_open c e) (record {
      on_event = h.on_event;
      on_close = h.on_close;
      told = h.told;
      session = h.session;
      over = IsOver-closed c.reader c.closed h.over;
      unopened = h.unopened;
    })
  ]

  pub writes-IsFaithful :
      {s : Session F} {bytes : Bytes} {c : SyncClient F} (written : Bytes)
      → IsFaithful s bytes c
      → IsFaithful s bytes (record c { written = written })
  writes-IsFaithful written h = record {
    on_event = h.on_event;
    on_close = h.on_close;
    told = h.told;
    session = h.session;
    over = h.over;
    unopened = h.unopened;
  }

  pub fail-IsFaithful :
      {s : Session F} {bytes : Bytes} {c : SyncClient F} (x : Error)
      → c.reader ≡ polling
      → IsFaithful s bytes c
      → IsFaithful s bytes (recv_fails x c)
  unfolding recv_fails
  fail-IsFaithful {c = c} x r h =
      moves-IsFaithful (leaving _) h (polling-IsQuiet c.reader r)
        (refl, λ reason. refl, λ closed. tt)
        (opened (leaving _) h (λ e. absurd (ground (arith, r, e))))

  pub rests-IsFaithful :
      {s : Session F} {bytes : Bytes} {c : SyncClient F}
      → c.reader ≡ delivering []
      → IsFaithful s bytes c
      → IsFaithful s bytes (record c { reader = polling })
  rests-IsFaithful {c = c} r h =
      moves-IsFaithful polling h (rw r (refl, λ reason. refl, λ closed. tt))
        (polling-IsQuiet polling refl) (opened polling h (λ e. absurd (ground (arith, r, e))))
