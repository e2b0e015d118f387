-- ===== src/Session/Ranged.antt =====
-- The events of `Session.feed` of src/ddmp/session.py have addresses and payloads of bytes, and so
-- have their values where they are bytes.
use dometic_ddmp.Base.{inl, inr, List, [], ◌∷◌, ◌==◌, All, Bool-cases, Option-cases}
use dometic_ddmp.Base.Dict
use dometic_ddmp.Bytes.{Bytes, IsBytes}
use dometic_ddmp.Action
use dometic_ddmp.Address.{IsByteAddress, address_eq}
use dometic_ddmp.Frame.{Frame, IsByteFrame}
use dometic_ddmp.LineDecoder
use dometic_ddmp.LineDecoder.Range.{feed-AreByteFrames}
use dometic_ddmp.Enums.{member_name}
use dometic_ddmp.Value.{bytes, Value, one, Floats}
use dometic_ddmp.Codec.{Codec, enum_value}
use dometic_ddmp.Codec.RoundTrip.{
  IsNormal, number, numbers, flag, flags, scaled, scaleds, ranges, text, hardware, codes, choice,
}
use dometic_ddmp.Topic.{Topic, topic_by_address}
use dometic_ddmp.Session.Typed.{IsTypedFor, decoded-IsTypedFor}
use dometic_ddmp.Expectation.{Event, publish, nak, unhandled}
use dometic_ddmp.Session.{Session, feed, on_frame, on_frames, on_publish}

module _ {F : Type 0} where
  -- A value, and if it is a payload that was kept as it was, then one of bytes.
  abbrev pub IsByteValue : Value F → Type 0
  IsByteValue (one (bytes raw)) = IsBytes raw
  IsByteValue v = Unit

  abbrev pub IsByteEvent : Event F → Type 0
  IsByteEvent (publish p) = IsByteAddress p.address × IsBytes p.raw × IsByteValue p.value
  IsByteEvent (nak a raw) = IsByteAddress a × IsBytes raw
  IsByteEvent (unhandled f) = IsByteFrame f

module _ {F : Type 0} ⦃fl : Floats F⦄ where
  IsNormal-IsByteValue : (c : Codec) (v : Value F) → IsNormal c v → IsByteValue v
  unfolding enum_value
  IsNormal-IsByteValue c v (number n h) = tt
  IsNormal-IsByteValue c v (numbers ns h) = tt
  IsNormal-IsByteValue c v (flag b) = tt
  IsNormal-IsByteValue c v (flags bs) = tt
  IsNormal-IsByteValue c v (scaled n h) = tt
  IsNormal-IsByteValue c v (scaleds ns h) = tt
  IsNormal-IsByteValue c v (ranges rs h) = tt
  IsNormal-IsByteValue c v (text s raw solid stripped e) = tt
  IsNormal-IsByteValue c v (hardware raw h six) = tt
  IsNormal-IsByteValue c v (codes ns h) = tt
  IsNormal-IsByteValue c v (choice cls n h) = elim (Option-cases (member_name cls n)) [
    | inl e ↦ rw (enum_value, e) tt
    | inr (name, e) ↦ rw (enum_value, e) tt
  ]

  IsTypedFor-IsByteValue : (t : Topic) (v : Value F) → IsTypedFor t v → IsByteValue v
  IsTypedFor-IsByteValue t v (inl h) = IsNormal-IsByteValue t.codec v h
  IsTypedFor-IsByteValue t v (inr (raw, same, h, refused)) = rw same h

  on_frame-IsByteEvent : (s : Session F) (f : Frame) → IsByteFrame f → IsByteEvent (on_frame s f).0
  unfolding on_frame on_publish
  on_frame-IsByteEvent s f h = elim (Bool-cases (f.action == Action.code Action.publish)) [
    | inl e ↦ elim (Option-cases (Dict.get f.address topic_by_address)) [
      | inl unknown ↦ rw (e, unknown) (h.address, h.payload, h.payload)
      | inr (t, known) ↦
          rw (e, known)
            (
              h.address,
              h.payload,
              IsTypedFor-IsByteValue t _ (decoded-IsTypedFor t f.payload h.payload),
            )
    ]
    | inr e ↦ elim (Bool-cases (f.action == Action.code Action.nak)) [
      | inl e1 ↦ rw (e, e1) (h.address, h.payload)
      | inr e1 ↦ rw (e, e1) h
    ]
  ]

  on_frames-AreByteEvents :
      (s : Session F) (fs : List Frame) → All IsByteFrame fs → All IsByteEvent (on_frames s fs).0
  unfolding on_frames
  on_frames-AreByteEvents s [] h = tt
  on_frames-AreByteEvents s (f ∷ fs) h =
      (on_frame-IsByteEvent s f h.0, on_frames-AreByteEvents (on_frame s f).1 fs h.1)

  pub feed-AreByteEvents : (s : Session F) (chunk : Bytes) → All IsByteEvent (feed s chunk).0
  unfolding feed
  feed-AreByteEvents s chunk =
      let (frames, d) = LineDecoder.feed s.decoder chunk in
      on_frames-AreByteEvents (record s { decoder = d }) frames (feed-AreByteFrames s.decoder chunk)
