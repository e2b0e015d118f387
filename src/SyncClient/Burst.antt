-- ===== src/SyncClient/Burst.antt =====
-- `SyncClient.connect` of src/ddmp/sync_client.py: what the subscriptions are on the wire.
use dometic_ddmp.Base.{
  String, string_eq, Option, none, some, Option-cases, inl, inr, map, ◌≡◌, refl, sym, ap, ◌∙◌, Bool,
  true, false, List, [], ◌∷◌, ◌++◌, append_assoc, append-nil, All, arith,
}
use dometic_ddmp.Bytes.{Bytes, concat}
use dometic_ddmp.Result.{ok, >>=-eq-ok}
use dometic_ddmp.Frame
use dometic_ddmp.Frame.{Frame, IsByteFrame}
use dometic_ddmp.LineDecoder
use dometic_ddmp.LineDecoder.Delivery.{encode_lines, encode_lines-total, feed_all-encode_lines}
use dometic_ddmp.Base.Dict
use dometic_ddmp.Base.Index
use dometic_ddmp.Topic.Table.{subscribe_names, topics}
use dometic_ddmp.Topic.Lookup.{every, topic_of_row}
use dometic_ddmp.Topic.{Topic, topic, by_address, collect, subscribe_topics, topic_by_name}
use dometic_ddmp.Session
use dometic_ddmp.Session.{Session, subscribe_frames}
use dometic_ddmp.SyncClient.{
  SyncClient, polling, init, send, send_all, subscribe_all, open_connection, connect,
}

module _ {F : Type 0} where
  send_line :
      (c : SyncClient F) (f : Frame) (line : Bytes)
      → c.has_sock ≡ true
      → c.closed ≡ false
      → Frame.encode_line f ≡ ok line
      → send c f ≡ ok (record c { written = c.written ++ line })
  unfolding send
  send_line c f line sock live encoded = rw (sock, live) (rw encoded refl)

  -- The loop of `subscribe_all` writes the lines of its frames.
  send_all-lines :
      (fs : List Frame) (c : SyncClient F) (stream : Bytes)
      → c.has_sock ≡ true
      → c.closed ≡ false
      → encode_lines fs ≡ ok stream
      → send_all c fs ≡ ok (record c { written = c.written ++ stream })
  unfolding send_all encode_lines
  send_all-lines [] c stream sock live encoded =
      let none_left : stream ≡ [] = ground arith in
      rw none_left (ap (λ w. ok (record c { written = w })) (sym (append-nil c.written)))
  send_all-lines (f ∷ fs) c stream sock live encoded =
      let (line, first, more) = >>=-eq-ok (Frame.encode_line f) _ encoded in
      let (rest, others, last) = >>=-eq-ok (encode_lines fs) _ more in
      let whole : line ++ rest ≡ stream = ground arith in
      rw (send_line c f line sock live first) (
        send_all-lines fs (record c { written = c.written ++ line }) rest sock live others
        ∙ ap (λ w. ok (record c { written = w }))
            (append_assoc c.written line rest ∙ ap (◌++◌ c.written) whole))

  -- A new client that connects has written the lines of its subscriptions, and reads.
  pub connect-lines :
      (s : Session F) (has_on_event has_on_close : Bool) (stream : Bytes)
      → encode_lines (subscribe_frames s) ≡ ok stream
      → connect (init s has_on_event has_on_close) true
        ≡ ok (record (init s has_on_event has_on_close) {
          has_sock = true;
          reader = polling;
          written = stream;
        })
  unfolding connect open_connection subscribe_all init
  connect-lines s has_on_event has_on_close stream encoded =
      send_all-lines (subscribe_frames s)
        (record (init s has_on_event has_on_close) { has_sock = true; reader = polling }) stream
        refl refl encoded

  -- A decoder reads the frames of the subscriptions, however the network cuts them.
  connect-heard :
      (s : Session F) (has_on_event has_on_close : Bool) (cut : Bytes → List Bytes)
      → All IsByteFrame (subscribe_frames s)
      → ((raw : Bytes) → concat (cut raw) ≡ raw)
      → (c : SyncClient F) × (connect (init s has_on_event has_on_close) true ≡ ok c)
        × (LineDecoder.feed_all LineDecoder.init (cut c.written)
            ≡ (subscribe_frames s, LineDecoder.init))
  connect-heard s has_on_event has_on_close cut byte_frames whole =
      let (stream, encoded) = encode_lines-total (subscribe_frames s) byte_frames in
      (
        _,
        connect-lines s has_on_event has_on_close stream encoded,
        feed_all-encode_lines (subscribe_frames s) (cut stream) byte_frames
            (encoded ∙ ap ok (sym (whole stream))),
      )

-- The topics of a session are of the table, whose addresses are of bytes.
pub subscribe_frames-AreBytes : (F : Type 0) → All IsByteFrame (subscribe_frames (Session.init F))
unfolding subscribe_frames Session.init subscribe_topics subscribe_names topic_by_name topics
    Index.index Dict.get Dict.put
subscribe_frames-AreBytes F = omega arith

-- A frame that asks for the values of the topic with a name: its code is that of SUBSCRIBE, it carries
-- nothing, and its address resolves to the topic.
abbrev pub IsSubscription : String → Frame → Type 0
IsSubscription name f =
    (f.action ≡ 0x12)
    × (f.payload ≡ [])
    × (t : Topic) × (topic (by_address f.address) ≡ ok t)
    × (t.name ≡ name)

-- One subscription for each name, in order, and no other frame.
abbrev pub AreSubscriptions : List String → List Frame → Type 0
AreSubscriptions [] [] = Unit
AreSubscriptions [] (f ∷ fs) = ⊥
AreSubscriptions (name ∷ names) [] = ⊥
AreSubscriptions (name ∷ names) (f ∷ fs) = IsSubscription name f × AreSubscriptions names fs

abbrev subscription : Topic → Frame
subscription t = record { action = 0x12; address = t.address; payload = [] }

abbrev is_some : Option Topic → Bool
is_some none = false
is_some (some t) = true

abbrev is_known : String → Bool
is_known name = is_some (Dict.get name topic_by_name)

all_known : every is_known subscribe_names ≡ true
unfolding subscribe_names topic_by_name topics Index.index Dict.get Dict.put
all_known = refl

collect-AreSubscriptions :
    (names : List String)
    → every is_known names ≡ true
    → AreSubscriptions names (map subscription (collect names))
unfolding topic_by_name
collect-AreSubscriptions [] h = tt
collect-AreSubscriptions (name ∷ names) h = elim (Option-cases (Dict.get name topic_by_name)) [
  | inl absent ↦ absurd (let known = rw absent at h in ground arith)
  | inr (t, found) ↦
      let (same_name, (i, at_i)) = Index.get-index_sound (λ t. t.name) name topics t found in
      let (named, addressed) = topic_of_row i t at_i in
      let rest = collect-AreSubscriptions names (let known = rw found at h in ground arith) in
      rw found ((refl, refl, t, addressed, same_name), rest)
]

-- A new client connects, whichever callbacks it has; and however the network cuts what it has written,
-- an empty decoder reads from it, for each name in `SUBSCRIBE_TOPICS`, in order, one frame with the code
-- of SUBSCRIBE and no payload, whose address resolves to the topic with the name; it reads no other
-- frame, drops nothing and holds nothing back.
pub connect-subscribes :
    {F : Type 0}
    → (has_on_event has_on_close : Bool) (cut : Bytes → List Bytes)
    → ((raw : Bytes) → concat (cut raw) ≡ raw)
    → (c : SyncClient F) × (connect (init (Session.init F) has_on_event has_on_close) true ≡ ok c)
      × (fs : List Frame) × (LineDecoder.feed_all LineDecoder.init (cut c.written)
          ≡ (fs, LineDecoder.init))
      × AreSubscriptions subscribe_names fs
unfolding subscribe_frames Session.init subscribe_topics
connect-subscribes {F} has_on_event has_on_close cut whole =
    let (c, connected, heard) =
      connect-heard (Session.init F) has_on_event has_on_close cut (subscribe_frames-AreBytes F)
        whole in
    (
      c,
      connected,
      subscribe_frames (Session.init F),
      heard,
      collect-AreSubscriptions subscribe_names all_known,
    )
