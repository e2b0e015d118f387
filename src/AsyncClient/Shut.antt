-- ===== src/AsyncClient/Shut.antt =====
-- What the steps of the reader task and of `close` keep: futures and entries stay in order, and a client
-- whose reader is gone is closed.
use dometic_ddmp.Base.{
  ℕ, ◌≡◌, refl, ap, ◌∙◌, Bool, true, false, inl, inr, Option, some, List, [], ◌∷◌, ◌++◌, Bool-cases,
  Option-cases, All, All-imp, arith,
}
use dometic_ddmp.Bytes.{Bytes}
use dometic_ddmp.Result.{ok, Error, Result-cases, connection_closed}
use dometic_ddmp.Frame
use dometic_ddmp.Frame.{Frame}
use dometic_ddmp.Value.{Floats}
use dometic_ddmp.Expectation.{Event}
use dometic_ddmp.Session
use dometic_ddmp.Session.{Session}
use dometic_ddmp.AsyncClient
use dometic_ddmp.AsyncClient.{
  AsyncClient, Reader, running, cancelling, ended, Future, waiting, cancelled, Pending, done,
  future_at, init, send, leave, expire, close, end_closing, end_reading, deliver, receive,
  start_set, end_if,
}
use dometic_ddmp.AsyncClient.Futures.{Keeps}
use dometic_ddmp.AsyncClient.Orderly.{IsBook, deliver-IsBook, fail_all-AreSound}
use dometic_ddmp.AsyncClient.Removal.{remove-All, remove-IsBook, length-fail_all, fail_all_settles}

module _ {F : Type 0} ⦃fl : Floats F⦄ where
  abbrev pub AreDone : List (Pending F) → List (Future F) → Type 0
  AreDone ps fs = All (λ p. done (future_at fs p.fut) ≡ true) ps

  -- The client is closed from the moment that its reader is cancelled or ends, and when it has ended no
  -- pending write waits.
  abbrev pub IsShut : Reader → Bool → List (Pending F) → List (Future F) → Type 0
  IsShut running closed ps fs = closed ≡ false
  IsShut cancelling closed ps fs = closed ≡ true
  IsShut ended closed ps fs = (closed ≡ true) × AreDone ps fs

  pub record IsOrderly (c : AsyncClient F) : Type 0 where
    pub book : IsBook c.pending c.futures
    pub shut : IsShut c.reader c.closed c.pending c.futures

  pub end_reading-IsOrderly :
      (reason : Option Error) (c : AsyncClient F)
      → IsBook c.pending c.futures
      → IsOrderly (end_reading reason c)
  unfolding end_reading
  end_reading-IsOrderly reason c h = record {
    book = record {
      numbered = rw (length-fail_all c.pending c.futures) h.numbered;
      apart = h.apart;
      sound = fail_all-AreSound c.pending c.pending c.futures h.sound;
    };
    shut = (refl, fail_all_settles c.pending c.futures h.numbered);
  }

  -- Delivering events changes only the pending writes, their futures and the queue.
  pub deliver_frame :
      (events : List (Event F)) (c : AsyncClient F)
      → ((deliver events c).0.reader ≡ c.reader) × ((deliver events c).0.closed ≡ c.closed)
  unfolding deliver
  deliver_frame [] c = (refl, refl)
  deliver_frame (event ∷ rest) c =
      let r = AsyncClient.resolve event c.pending c.futures in
      elim (Option-cases r.2) [
        | inl e ↦
            rw (deliver, e)
              (deliver_frame rest
                (record c { pending = r.0; futures = r.1; events = c.events ++ some event ∷ [] }))
        | inr (x, e) ↦ rw (deliver, e) (refl, refl)
      ]

  pub IsShut_running :
      (r : Reader) (closed : Bool) (ps qs : List (Pending F)) (fs gs : List (Future F))
      → r ≡ running
      → IsShut r closed ps fs
      → IsShut r closed qs gs
  IsShut_running running closed ps qs fs gs e h = h
  IsShut_running cancelling closed ps qs fs gs e h = absurd (ground arith)
  IsShut_running ended closed ps qs fs gs e h = absurd (ground arith)

  -- Futures that only become done, and entries that only leave.
  pub IsShut_less :
      (r : Reader) (closed : Bool) (ps : List (Pending F)) (fs gs : List (Future F))
      → Keeps fs gs
      → IsShut r closed ps fs
      → IsShut r closed ps gs
  IsShut_less running closed ps fs gs k h = h
  IsShut_less cancelling closed ps fs gs k h = h
  IsShut_less ended closed ps fs gs k h = (
    h.0,
    All-imp (λ p. done (future_at fs p.fut) ≡ true) _
        (λ p settled. ap done (k p.fut settled) ∙ settled) ps h.1,
  )

  pub IsShut-remove :
      (r : Reader) (closed : Bool) (i : ℕ) (ps : List (Pending F)) (fs : List (Future F))
      → IsShut r closed ps fs
      → IsShut r closed (AsyncClient.remove i ps) fs
  IsShut-remove running closed i ps fs h = h
  IsShut-remove cancelling closed i ps fs h = h
  IsShut-remove ended closed i ps fs h = (h.0, remove-All _ i ps h.1)

  pub leave-IsOrderly : (i : ℕ) (c : AsyncClient F) → IsOrderly c → IsOrderly (leave i c)
  unfolding leave
  leave-IsOrderly i c h = record {
    book = remove-IsBook i c.pending c.futures h.book;
    shut = IsShut-remove c.reader c.closed i c.pending c.futures h.shut;
  }

  pub receive-IsOrderly :
      (chunk : Bytes) (c : AsyncClient F)
      → c.reader ≡ running
      → IsOrderly c
      → IsOrderly (receive chunk c)
  unfolding receive
  receive-IsOrderly [] c reading h = end_reading-IsOrderly (some connection_closed) c h.book
  receive-IsOrderly (b ∷ chunk) c reading h =
      let (events, s) = Session.feed c.session (b ∷ chunk) in
      let c0 = record c { session = s } in
      let (same_reader, same_closed) = deliver_frame events c0 in
      let book = deliver-IsBook events c0 h.book in
      elim (Option-cases (deliver events c0).1) [
        | inl e ↦
            rw (receive, e)
              (record {
                book = book;
                shut =
                    rw (same_reader, same_closed)
                      (IsShut_running c.reader c.closed c.pending _ c.futures _ reading h.shut);
              })
        | inr (x, e) ↦ rw (receive, e) (end_reading-IsOrderly (some x) (deliver events c0).0 book)
      ]

  pub close_again : (c : AsyncClient F) → c.closed ≡ true → close c ≡ c
  unfolding close
  close_again c e = ground arith

  pub close_open :
      (c : AsyncClient F)
      → c.closed ≡ false
      → close c ≡ record c { closed = true; reader = cancelling }
  unfolding close
  close_open c e = ground arith

  pub close-IsOrderly : (c : AsyncClient F) → IsOrderly c → IsOrderly (close c)
  close-IsOrderly c h = elim (Bool-cases c.closed) [
    | inl e ↦ rw (close_again c e) h
    | inr e ↦ rw (close_open c e) (record { book = h.book; shut = refl })
  ]

  pub IsShut_closed :
      (r : Reader) (ps qs : List (Pending F)) (fs gs : List (Future F))
      → IsShut r false ps fs
      → IsShut r false qs gs
  IsShut_closed running ps qs fs gs h = h
  IsShut_closed cancelling ps qs fs gs h = absurd (ground arith)
  IsShut_closed ended ps qs fs gs h = absurd (ground arith)

  pub send-same :
      (c d : AsyncClient F) (f : Frame)
      → send c f ≡ ok d
      → (c.closed ≡ false)
        × (d.reader ≡ c.reader)
        × (d.closed ≡ c.closed)
        × (d.pending ≡ c.pending)
        × (d.futures ≡ c.futures)
  unfolding send
  send-same c d f h = ground (arith, Result-cases (Frame.encode_line f))
