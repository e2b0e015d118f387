-- ===== src/Session/Typed.antt =====
-- The types of the values that `Session` of src/ddmp/session.py hands out and remembers.
use dometic_ddmp.Base.{
  ℕ, ◌≡◌, refl, ◌⊎◌, inl, inr, ◌&&◌, ◌==◌, Bool-cases, Option-cases, none, some, List, [], ◌∷◌,
  get_elem?, All, All-append, arith,
}
use dometic_ddmp.Base.Dict
use dometic_ddmp.Bytes.{Bytes, IsBytes}
use dometic_ddmp.Result.{err, Error, Result-cases}
use dometic_ddmp.Action
use dometic_ddmp.Address.{address_beq, address_eq}
use dometic_ddmp.Frame.{Frame, IsByteFrame}
use dometic_ddmp.LineDecoder
use dometic_ddmp.LineDecoder.Range.{feed-AreByteFrames}
use dometic_ddmp.Value.{bytes, Value, one, Floats}
use dometic_ddmp.Codec
use dometic_ddmp.Codec.Normal.{decode-IsNormal}
use dometic_ddmp.Codec.RoundTrip.{IsNormal}
use dometic_ddmp.Topic.{Topic, topics, topic_by_address}
use dometic_ddmp.Expectation.{Event, publish, nak, unhandled}
use dometic_ddmp.Session.{Session, init, value, decoded, on_publish, on_frame, on_frames, feed}
use dometic_ddmp.Session.Inbound.{feed_all}
use dometic_ddmp.Session.Memory.{value_of_frame}

module _ {F : Type 0} ⦃fl : Floats F⦄ where
  -- A value of the topic's codec, or bytes that the codec cannot decode.
  abbrev pub IsTypedFor : Topic → Value F → Type 0
  IsTypedFor t v =
      IsNormal t.codec v
      ⊎ ((raw : Bytes) × (v ≡ one (bytes raw))
          × IsBytes raw
          × ((x : Error) × (Codec.decode {F = F} t.codec raw ≡ err x)))

  pub decoded-IsTypedFor : (t : Topic) (raw : Bytes) → IsBytes raw → IsTypedFor t (decoded t raw)
  unfolding decoded
  decoded-IsTypedFor t raw h = elim (Result-cases (Codec.decode {F = F} t.codec raw)) [
    | inl (v, e) ↦ rw (decoded, e) (inl (decode-IsNormal t.codec raw v h e))
    | inr (x, e) ↦ rw (decoded, e) (inr (raw, refl, h, (x, e)))
  ]

  -- The value of a publish has the type of its topic, and is bytes where the address has none.
  abbrev pub IsTypedEvent : Event F → Type 0
  IsTypedEvent (publish p) = elim p.topic [
    | some t ↦ IsTypedFor t p.value
    | none ↦ p.value ≡ one (bytes p.raw)
  ]
  IsTypedEvent (nak a raw) = IsBytes raw
  IsTypedEvent (unhandled f) = IsByteFrame f

  -- So has what is remembered of each topic of the table.
  abbrev pub IsTyped : Session F → Type 0
  IsTyped s =
      (i : ℕ) (t : Topic) (v : Value F)
      → get_elem? topics i ≡ some t
      → value s t.name ≡ some v
      → IsTypedFor t v

  on_frame-IsTypedEvent :
      (s : Session F) (f : Frame) → IsByteFrame f → IsTypedEvent (on_frame s f).0
  unfolding on_frame on_publish
  on_frame-IsTypedEvent s f h = elim (Bool-cases (f.action == Action.code Action.publish)) [
    | inl e ↦ elim (Option-cases (Dict.get f.address topic_by_address)) [
      | inl unknown ↦ rw (e, unknown) refl
      | inr (t, known) ↦ rw (e, known) (decoded-IsTypedFor t f.payload h.payload)
    ]
    | inr e ↦ elim (Bool-cases (f.action == Action.code Action.nak)) [
      | inl e1 ↦ rw (e, e1) h.payload
      | inr e1 ↦ rw (e, e1) h
    ]
  ]

  on_frame-IsTyped :
      (s : Session F) (f : Frame) → IsByteFrame f → IsTyped s → IsTyped (on_frame s f).1
  unfolding value
  on_frame-IsTyped s f h typed i t v at_i known =
      let stored = value_of_frame s f i t at_i in
      elim (Bool-cases
        (f.action == Action.code Action.publish && address_beq f.address t.address)) [
          | inl e ↦
              let same : decoded t f.payload ≡ v = ground arith in
              rw⁻¹ same (decoded-IsTypedFor t f.payload h.payload)
          | inr e ↦ typed i t v at_i (ground arith)
        ]

  pub on_frames-IsTyped :
      (s : Session F) (fs : List Frame)
      → All IsByteFrame fs
      → IsTyped s
      → All IsTypedEvent (on_frames s fs).0 × IsTyped (on_frames s fs).1
  unfolding on_frames
  on_frames-IsTyped s [] h typed = (tt, typed)
  on_frames-IsTyped s (f ∷ fs) h typed =
      let rest = on_frames-IsTyped (on_frame s f).1 fs h.1 (on_frame-IsTyped s f h.0 typed) in
      ((on_frame-IsTypedEvent s f h.0, rest.0), rest.1)

  feed-IsTyped :
      (s : Session F) (chunk : Bytes)
      → IsTyped s
      → All IsTypedEvent (feed s chunk).0 × IsTyped (feed s chunk).1
  unfolding feed value
  feed-IsTyped s chunk typed =
      let (frames, d) = LineDecoder.feed s.decoder chunk in
      on_frames-IsTyped (record s { decoder = d }) frames (feed-AreByteFrames s.decoder chunk) typed

  from-IsTyped :
      (s : Session F) (chunks : List Bytes)
      → IsTyped s
      → All IsTypedEvent (feed_all s chunks).0 × IsTyped (feed_all s chunks).1
  unfolding feed_all
  from-IsTyped s [] typed = (tt, typed)
  from-IsTyped s (chunk ∷ chunks) typed =
      let first = feed-IsTyped s chunk typed in
      let rest = from-IsTyped (feed s chunk).1 chunks first.1 in
      (All-append IsTypedEvent (feed s chunk).0 _ first.0 rest.0, rest.1)

module _ (F : Type 0) ⦃fl : Floats F⦄ where
  -- Whatever bytes a new session is fed, and however they are split: the value of each publish, and
  -- what is remembered of each topic of the table, is a value of the topic's codec, or bytes that the
  -- codec cannot decode; for an address without a topic the value is the payload. The payload of
  -- every refusal and every other frame are bytes.
  pub feed_all-IsTyped :
      (chunks : List Bytes)
      → All IsTypedEvent (feed_all (init F) chunks).0 × IsTyped (feed_all (init F) chunks).1
  unfolding init value Dict.get
  feed_all-IsTyped chunks = from-IsTyped (init F) chunks (λ i t v at_i known. absurd (ground arith))
