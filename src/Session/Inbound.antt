-- ===== src/Session/Inbound.antt =====
-- `Session.feed` over a whole stream, and what the session remembers of it.
use dometic_ddmp.Base.{string_eq, ◌≡◌, refl, ap, ◌∙◌, List, [], ◌∷◌, ◌++◌, arith}
use dometic_ddmp.Bytes.{Bytes, concat}
use dometic_ddmp.Address.{address_eq}
use dometic_ddmp.Frame.{Frame}
use dometic_ddmp.LineDecoder
use dometic_ddmp.LineDecoder.{LineDecoder}
use dometic_ddmp.LineDecoder.Scan.{IsPending, feed_all-eq-feed}
use dometic_ddmp.Value.{Floats}
use dometic_ddmp.Expectation.{Event}
use dometic_ddmp.Session.{Session, feed, on_frame, on_frames, on_publish}

module _ {F : Type 0} ⦃fl : Floats F⦄ where
  -- Several chunks, one after the other, as a client reads them from its socket.
  unfoldable pub feed_all : Session F → List Bytes → List (Event F) × Session F
  feed_all s [] = ([], s)
  feed_all s (chunk ∷ chunks) =
      let (first, s') = feed s chunk in
      let (later, s'') = feed_all s' chunks in (first ++ later, s'')

  abbrev with_decoder : Session F → LineDecoder → Session F
  with_decoder s d = record s { decoder = d }

  on_frame-with_decoder :
      (s : Session F) (d : LineDecoder) (f : Frame)
      → on_frame (with_decoder s d) f ≡ ((on_frame s f).0, with_decoder (on_frame s f).1 d)
  unfolding on_frame on_publish
  on_frame-with_decoder s d f = ground arith

  on_frames-with_decoder :
      (s : Session F) (d : LineDecoder) (fs : List Frame)
      → on_frames (with_decoder s d) fs ≡ ((on_frames s fs).0, with_decoder (on_frames s fs).1 d)
  unfolding on_frames
  on_frames-with_decoder s d [] = refl
  on_frames-with_decoder s d (f ∷ fs) =
      rw (on_frame-with_decoder s d f, on_frames-with_decoder (on_frame s f).1 d fs)

  on_frames-append :
      (s : Session F) (fs gs : List Frame)
      → on_frames s (fs ++ gs) ≡ (
        (on_frames s fs).0 ++ (on_frames (on_frames s fs).1 gs).0,
        (on_frames (on_frames s fs).1 gs).1,
      )
  unfolding on_frames
  on_frames-append s [] gs = refl
  on_frames-append s (f ∷ fs) gs = rw (on_frames-append (on_frame s f).1 fs gs)

  -- The session reads its chunks as its decoder does, and then handles the frames.
  feed_all-eq-on_frames :
      (s : Session F) (chunks : List Bytes)
      → feed_all s chunks ≡ (
          let (frames, d) = LineDecoder.feed_all s.decoder chunks in
          on_frames (with_decoder s d) frames)
  unfolding feed_all feed LineDecoder.feed_all
  feed_all-eq-on_frames s [] = unfold on_frames in refl
  feed_all-eq-on_frames s (chunk ∷ chunks) =
      let (frames, d) = LineDecoder.feed s.decoder chunk in
      let (rest, d') = LineDecoder.feed_all d chunks in
      rw (
        on_frames-with_decoder s d frames,
        feed_all-eq-on_frames (with_decoder (on_frames s frames).1 d) chunks,
        on_frames-append (with_decoder s d') frames rest,
        on_frames-with_decoder s d' frames,
      )

  -- However a stream is split into chunks, a session whose decoder holds no complete line returns the
  -- events, and comes to the state, of the whole stream fed at once.
  pub session_feed_all-eq-feed :
      (s : Session F) (chunks : List Bytes)
      → IsPending s.decoder
      → feed_all s chunks ≡ feed s (concat chunks)
  unfolding feed
  session_feed_all-eq-feed s chunks h =
      feed_all-eq-on_frames s chunks
      ∙ ap (λ r. on_frames (with_decoder s r.1) r.0) (feed_all-eq-feed s.decoder chunks h)
