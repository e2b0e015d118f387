-- ===== src/AsyncClient/Reachable.antt =====
-- The invariant holds of every client that the steps can reach.
use dometic_ddmp.Base.{
  ℕ, ℤ, ◌≡◌, refl, Bool, true, inl, inr, Option, none, some, List, [], ◌∷◌, ◌++◌, length,
  length-set, set, if◌then◌else◌, All-imp, arith,
}
use dometic_ddmp.Result.{Result-cases}
use dometic_ddmp.Topic.{TopicRef}
use dometic_ddmp.Value.{Value, Floats}
use dometic_ddmp.Session
use dometic_ddmp.Session.{Session}
use dometic_ddmp.AsyncClient.{
  AsyncClient, Reader, running, cancelling, ended, Future, waiting, cancelled, Pending, done,
  future_at, init, send, leave, expire, end_closing, start_set,
}
use dometic_ddmp.AsyncClient.Futures.{Keeps-guarded}
use dometic_ddmp.AsyncClient.Settled.{asked, asked-Keeps}
use dometic_ddmp.AsyncClient.Invariant.{IsSound, AreSound}
use dometic_ddmp.AsyncClient.Orderly.{IsSound-guarded}
use dometic_ddmp.AsyncClient.Removal.{remove-IsBook, append-IsBook, remove-append_fresh}
use dometic_ddmp.AsyncClient.Steps.{
  Step, receives, breaks, stops, closes, ends_closing, sends, starts, finishes, expires, abandons,
  takes, Reach, start, later,
}
use dometic_ddmp.AsyncClient.Shut.{
  AreDone, IsOrderly, IsShut, IsShut_closed, IsShut_less, close-IsOrderly, end_reading-IsOrderly,
  leave-IsOrderly, receive-IsOrderly, send-same,
}

module _ {F : Type 0} ⦃fl : Floats F⦄ where
  start_set-IsOrderly :
      (c : AsyncClient F) (ref : TopicRef) (v : Value F) (compartment : Option ℤ)
      → IsOrderly c
      → IsOrderly (start_set c ref v compartment).0
  unfolding start_set leave
  start_set-IsOrderly c ref v compartment h =
      elim (Result-cases (Session.set_frame c.session ref v compartment)) [
        | inr (x, e) ↦ rw (start_set, e) h
        | inl ((f, e), r) ↦
            let book = append-IsBook c.pending c.futures e h.book in
            elim (Result-cases (send (asked c e) f)) [
              | inr (x, refused) ↦
                  rw (start_set, r)
                    (rw refused (record {
                      book = remove-IsBook (length c.futures) _ (c.futures ++ waiting ∷ []) book;
                      shut = rw (remove-append_fresh c.pending c.futures e h.book) (
                          IsShut_less c.reader c.closed c.pending c.futures _ (asked-Keeps c e)
                            h.shut);
                    }))
              | inl (d, sent) ↦
                  let (open_still, same_reader, same_closed, same_pending, same_futures) =
                    send-same (asked c e) d f sent in
                  rw (start_set, r)
                    (rw sent (record {
                      book = rw (same_pending, same_futures) book;
                      shut =
                          rw (same_reader, same_closed, same_pending, same_futures, open_still)
                            (IsShut_closed c.reader c.pending _ c.futures _
                              (rw open_still at h.shut));
                    }))
            ]
      ]

  expire-IsOrderly : (i : ℕ) (c : AsyncClient F) → IsOrderly c → IsOrderly (expire i c)
  unfolding expire
  expire-IsOrderly i c h =
      let fs = if done (future_at c.futures i) then c.futures else set c.futures i cancelled in
      let same_length : length fs ≡ length c.futures =
        ground (arith, length-set c.futures i cancelled) in
      leave-IsOrderly i (record c { futures = fs })
        (record {
          book = record {
            numbered = rw same_length h.book.numbered;
            apart = h.book.apart;
            sound =
                All-imp (λ p. IsSound p.expectation (future_at c.futures p.fut)) _
                  (λ p found. IsSound-guarded p.expectation c.futures i p.fut cancelled tt found)
                  c.pending h.book.sound;
          };
          shut =
              IsShut_less c.reader c.closed c.pending c.futures fs
                (Keeps-guarded c.futures i cancelled) h.shut;
        })

  Step-IsOrderly : {c d : AsyncClient F} → Step c d → IsOrderly c → IsOrderly d
  unfolding end_closing
  Step-IsOrderly {c} (receives chunk r) h = receive-IsOrderly chunk c r h
  Step-IsOrderly {c} (breaks x r) h = end_reading-IsOrderly (some x) c h.book
  Step-IsOrderly {c} (stops r) h = end_reading-IsOrderly none c h.book
  Step-IsOrderly {c} closes h = close-IsOrderly c h
  Step-IsOrderly {c} (ends_closing r) h = record { book = h.book; shut = h.shut }
  Step-IsOrderly {c} {d} (sends f e sent) h =
      let (open_still, same_reader, same_closed, same_pending, same_futures) =
        send-same c e f sent in
      record {
        book = rw (same_pending, same_futures) h.book;
        shut = rw (same_reader, same_closed, same_pending, same_futures) h.shut;
      }
  Step-IsOrderly {c} (starts ref v compartment) h = start_set-IsOrderly c ref v compartment h
  Step-IsOrderly {c} (finishes i settled) h = leave-IsOrderly i c h
  Step-IsOrderly {c} (expires i) h = expire-IsOrderly i c h
  Step-IsOrderly {c} (abandons i) h = leave-IsOrderly i c h
  Step-IsOrderly (takes event rest e) h = record { book = h.book; shut = h.shut }

  pub Reach-IsOrderly : {s : Session F} {c : AsyncClient F} → Reach s c → IsOrderly c
  unfolding init
  Reach-IsOrderly start = record {
    book = record { numbered = tt; apart = refl; sound = tt };
    shut = refl;
  }
  Reach-IsOrderly (later r st) = Step-IsOrderly st (Reach-IsOrderly r)

  -- Whatever order the steps come in, a pending write whose future has a result has a value that is
  -- close to the expected one.
  pub Reach-AreSound :
      {s : Session F} {c : AsyncClient F} → Reach s c → AreSound c.pending c.futures
  Reach-AreSound r = (Reach-IsOrderly r).book.sound

  ended_settles :
      (reader : Reader) (closed : Bool) (ps : List (Pending F)) (fs : List (Future F))
      → reader ≡ ended
      → IsShut reader closed ps fs
      → (closed ≡ true) × AreDone ps fs
  ended_settles ended closed ps fs e h = h
  ended_settles running closed ps fs e h = absurd (ground arith)
  ended_settles cancelling closed ps fs e h = absurd (ground arith)

  -- Whatever order the steps come in, once the reader task has ended the client is closed, and the
  -- future of every pending write is done: no caller of `set` waits for a cooler that is gone.
  pub Reach-ended_settles :
      {s : Session F} {c : AsyncClient F}
      → Reach s c
      → c.reader ≡ ended
      → (c.closed ≡ true) × AreDone c.pending c.futures
  Reach-ended_settles {s} {c} r e =
      ended_settles c.reader c.closed c.pending c.futures e (Reach-IsOrderly r).shut
