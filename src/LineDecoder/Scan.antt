-- ===== src/LineDecoder/Scan.antt =====
-- The decoder against a description that reads one byte at a time.
use dometic_ddmp.Base.{
  ℕ, zero, suc, ◌+◌, ◌<◌, ◌≡◌, refl, sym, ◌∙◌, true, false, inl, inr, none, some, List, [], ◌∷◌,
  ◌++◌, append_assoc, append-nil, length, length-append, All, All-append, Bool-cases, ==_iff, ◌==◌,
  arith,
}
use dometic_ddmp.Bytes.{Bytes, concat}
use dometic_ddmp.Frame.{Frame, line_terminator}
use dometic_ddmp.LineDecoder.{
  LineDecoder, cut, read_line, frames_of, drops_of, loop, feed, feed_all,
}

-- A terminator ends the line that is held back; any other byte is held back with it.
unfoldable pub push : LineDecoder → ℕ → List Frame × LineDecoder
push d c = elim (c == line_terminator) [
  | true ↦ (
    frames_of (read_line d.buf),
    record { buf = []; dropped = d.dropped + drops_of (read_line d.buf) },
  )
  | false ↦ ([], record d { buf = d.buf ++ c ∷ [] })
]

unfoldable pub scan : LineDecoder → Bytes → List Frame × LineDecoder
scan d [] = ([], d)
scan d (c ∷ s) = let (first, d') = push d c in let (later, d'') = scan d' s in (first ++ later, d'')

-- A byte that does not end a line.
abbrev pub IsInner : ℕ → Type 0
IsInner c = (c == line_terminator) ≡ false

-- What is held back has no terminator.
abbrev pub IsPending : LineDecoder → Type 0
IsPending d = All IsInner d.buf

cut-inner : (s : Bytes) → All IsInner s → cut s ≡ none
unfolding cut
cut-inner [] h = refl
cut-inner (c ∷ s) h = ground (arith, cut-inner s h.1)

cut-terminator :
    (line rest : Bytes)
    → All IsInner line
    → cut (line ++ line_terminator ∷ rest) ≡ some (line, rest)
unfolding cut
cut-terminator [] rest h = refl
cut-terminator (c ∷ line) rest h = ground (arith, cut-terminator line rest h.1)

abbrev at : Bytes → ℕ → LineDecoder
at b k = record { buf = b; dropped = k }

loop-none :
    (fuel : ℕ) (b : Bytes) (k : ℕ) (frames : List Frame)
    → All IsInner b
    → loop fuel (at b k) frames ≡ (frames, at b k)
unfolding loop
loop-none zero b k frames h = refl
loop-none (suc fuel) b k frames h = rw (cut-inner b h, loop)

loop-terminator :
    (fuel : ℕ) (b rest : Bytes) (k : ℕ) (frames : List Frame)
    → All IsInner b
    → loop (suc fuel) (at (b ++ line_terminator ∷ rest) k) frames
      ≡ loop fuel (at rest (k + drops_of (read_line b))) (frames ++ frames_of (read_line b))
unfolding loop
loop-terminator fuel b rest k frames h = rw (cut-terminator b rest h, loop)

scan-nil : (d : LineDecoder) → scan d [] ≡ ([], d)
unfolding scan
scan-nil d = refl

scan-terminator :
    (b s : Bytes) (k : ℕ)
    → scan (at b k) (line_terminator ∷ s) ≡ (
      frames_of (read_line b) ++ (scan (at [] (k + drops_of (read_line b))) s).0,
      (scan (at [] (k + drops_of (read_line b))) s).1,
    )
unfolding scan push
scan-terminator b s k = refl

scan-inner :
    (c : ℕ) (b s : Bytes) (k : ℕ) → IsInner c → scan (at b k) (c ∷ s) ≡ scan (at (b ++ c ∷ []) k) s
unfolding scan push
scan-inner c b s k h = ground arith

-- The loop, from a buffer whose first part has no terminator.
loop-eq-scan :
    (s : Bytes) (fuel : ℕ) (b : Bytes) (k : ℕ) (frames : List Frame)
    → All IsInner b
    → length (b ++ s) < fuel
    → loop fuel (at (b ++ s) k) frames ≡ (frames ++ (scan (at b k) s).0, (scan (at b k) s).1)
loop-eq-scan [] fuel b k frames h enough =
    rw (append-nil b, scan-nil, append-nil frames) (loop-none fuel b k frames h)
loop-eq-scan (c ∷ s) zero b k frames h enough = absurd (omega arith)
loop-eq-scan (c ∷ s) (suc fuel) b k frames h enough = elim (Bool-cases (c == line_terminator)) [
  | inl ends ↦ rw (
    (==_iff c line_terminator).0 ends,
    scan-terminator b s k,
    loop-terminator fuel b s k frames h,
    loop-eq-scan s fuel [] (k + drops_of (read_line b)) (frames ++ frames_of (read_line b)) tt
        (omega (arith, length-append b (c ∷ s))),
    append_assoc,
  )
  | inr inner ↦ rw (
    scan-inner c b s k inner,
    ← append_assoc b (c ∷ []) s,
    loop-eq-scan s (suc fuel) (b ++ c ∷ []) k frames (All-append IsInner b (c ∷ []) h (inner, tt)) (
        omega (
          arith,
          length-append b (c ∷ s),
          length-append (b ++ c ∷ []) s,
          length-append b (c ∷ []),
        )),
  )
]

-- Feeding a chunk to a decoder that holds no complete line is reading its bytes one at a time,
-- whatever lines the chunk holds or splits.
pub feed-eq-scan : (d : LineDecoder) (chunk : Bytes) → IsPending d → feed d chunk ≡ scan d chunk
unfolding feed
feed-eq-scan d chunk h =
    loop-eq-scan chunk (suc (length (d.buf ++ chunk))) d.buf d.dropped [] h (omega arith)

push-IsPending : (d : LineDecoder) (c : ℕ) → IsPending d → IsPending (push d c).1
unfolding push
push-IsPending d c h = elim (Bool-cases (c == line_terminator)) [
  | inl ends ↦ rw (ends, push) tt
  | inr inner ↦ rw (inner, push) (All-append IsInner d.buf (c ∷ []) h (inner, tt))
]

pub scan-IsPending : (d : LineDecoder) (s : Bytes) → IsPending d → IsPending (scan d s).1
unfolding scan
scan-IsPending d [] h = h
scan-IsPending d (c ∷ s) h = scan-IsPending (push d c).1 s (push-IsPending d c h)

-- A decoder that holds no complete line holds none after a chunk.
pub feed-IsPending : (d : LineDecoder) (chunk : Bytes) → IsPending d → IsPending (feed d chunk).1
feed-IsPending d chunk h = rw (feed-eq-scan d chunk h) (scan-IsPending d chunk h)

pub scan-append :
    (d : LineDecoder) (s t : Bytes)
    → scan d (s ++ t) ≡ ((scan d s).0 ++ (scan (scan d s).1 t).0, (scan (scan d s).1 t).1)
unfolding scan
scan-append d [] t = refl
scan-append d (c ∷ s) t = rw (scan-append (push d c).1 s t, append_assoc)

pub feed_all-eq-scan :
    (d : LineDecoder) (chunks : List Bytes)
    → IsPending d
    → feed_all d chunks ≡ scan d (concat chunks)
unfolding feed_all scan
feed_all-eq-scan d [] h = refl
feed_all-eq-scan d (chunk ∷ chunks) h =
    let ih = feed_all-eq-scan (scan d chunk).1 chunks (scan-IsPending d chunk h) in
    rw (feed-eq-scan d chunk h, ih, scan-append d chunk (concat chunks))

-- However a stream is split into chunks, a decoder that holds no complete line reads the frames,
-- counts the dropped lines and holds back the bytes of the whole stream fed at once.
pub feed_all-eq-feed :
    (d : LineDecoder) (chunks : List Bytes)
    → IsPending d
    → feed_all d chunks ≡ feed d (concat chunks)
feed_all-eq-feed d chunks h = feed_all-eq-scan d chunks h ∙ sym (feed-eq-scan d (concat chunks) h)
