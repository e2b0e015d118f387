-- ===== src/Session/Confirm.antt =====
-- `Session.set_frame` as a whole: what it may send, and how the write is confirmed.
use dometic_ddmp.Base.{
  ℕ, ℤ, string_eq, ◌≡◌, ◌≢◌, refl, sym, ap, ◌∙◌, Bool, true, false, none, some, Option, member,
  get_elem?, if◌then◌else◌, arith,
}
use dometic_ddmp.Base.Dict
use dometic_ddmp.Result.{Result, ok, >>=-eq-ok}
use dometic_ddmp.Action
use dometic_ddmp.Address.{address_eq}
use dometic_ddmp.Frame.{Frame}
use dometic_ddmp.Value.{Value, Floats}
use dometic_ddmp.Value.Milli.{FloatLaws}
use dometic_ddmp.Codec.{Codec, boolean, boolean_array, milli_array, enum}
use dometic_ddmp.Topic.{Topic, topics, TopicRef, by_topic, assert_writable, never_write}
use dometic_ddmp.Topic.Guard.{shape, writable_shape, assert_writable_sound, assert_writable-safe}
use dometic_ddmp.Expectation.{WriteExpectation, matches}
use dometic_ddmp.Expectation.Verdicts.{echo_confirms}
use dometic_ddmp.Session.{
  Session, set_frame, set_compartment, set_single, on_frame, on_publish, decoded, value,
}
use dometic_ddmp.Session.Memory.{newer_value, row_of_address}
use dometic_ddmp.Session.Consistent.{IsConsistent, row-IsConsistent}
use dometic_ddmp.Session.Echo.{IsEchoed, flags_echo, floats_echo}
use dometic_ddmp.Session.Outbound.{set_compartment-steps}
use dometic_ddmp.Session.EchoSingle.{single_steps, flag_echo, choice_echo}

module _ {F : Type 0} ⦃fl : Floats F⦄ where
  abbrev write : Session F → Topic → Bool → Value F → Option ℤ → Result (Frame × WriteExpectation F)
  write s t per_compartment v c =
      if per_compartment then set_compartment s t v c else set_single t v c

  write-IsEchoed :
      (laws : FloatLaws F) (s : Session F) (t : Topic) (v : Value F) (c : Option ℤ)
      (r : Frame × WriteExpectation F) (codec : Codec) (per_compartment : Bool)
      → t.codec ≡ codec
      → shape codec per_compartment ≡ true
      → Dict.get t.name s.values ≡ newer_value t (Dict.get t.address s.raw) none
      → write s t per_compartment v c ≡ ok r
      → IsEchoed t r
  write-IsEchoed laws s t v c r boolean_array true e fits known h = flags_echo s t v c r e known h
  write-IsEchoed laws s t v c r milli_array true e fits known h =
      floats_echo laws s t v c r e known h
  write-IsEchoed laws s t v c r boolean false e fits known h = flag_echo t v c r e h
  write-IsEchoed laws s t v c r (enum cls) false e fits known h = choice_echo laws t v c r cls e h
  write-IsEchoed laws s t v c r codec per_compartment e fits known h = absurd (ground arith)

  -- The write of a consistent session goes to a row of the table.
  set_frame-IsEchoed :
      (laws : FloatLaws F) (s : Session F) (ref : TopicRef) (v : Value F) (c : Option ℤ)
      (r : Frame × WriteExpectation F)
      → IsConsistent s
      → ((u : Topic) → ref ≢ by_topic u)
      → set_frame s ref v c ≡ ok r
      → (i : ℕ) × (t : Topic) × (get_elem? topics i ≡ some t)
        × (assert_writable ref ≡ ok t)
        × IsEchoed t r
  unfolding set_frame value
  set_frame-IsEchoed laws s ref v c r consistent other h =
      let (t, allowed, written) = >>=-eq-ok (assert_writable ref) _ h in
      let (i, at_i, writable) = assert_writable_sound ref t other allowed in
      (
        i,
        t,
        at_i,
        allowed,
        write-IsEchoed laws s t v c r t.codec t.per_compartment refl
            (writable_shape i t at_i writable) (row-IsConsistent s i t consistent at_i) written,
      )

  write_sends :
      (s : Session F) (t : Topic) (v : Value F) (c : Option ℤ) (r : Frame × WriteExpectation F)
      (per_compartment : Bool)
      → write s t per_compartment v c ≡ ok r
      → (r.0.action ≡ Action.code Action.set) × (r.0.address ≡ t.address)
  write_sends s t v c r true h =
      let w = set_compartment-steps s t v c r h in rw w.result (refl, refl)
  write_sends s t v c r false h =
      let (coerced, payload, expected, encoded, back, result) = single_steps t v c r h in
      rw result (refl, refl)

  -- Whatever name or address, but no topic of the caller's own, value and compartment a caller gives, a frame that `set_frame` returns is
  -- a SET for the address of a row of the table that is marked writable, and for none of `NEVER_WRITE`.
  pub set_frame-safe :
      (s : Session F) (ref : TopicRef) (v : Value F) (c : Option ℤ) (r : Frame × WriteExpectation F)
      → ((u : Topic) → ref ≢ by_topic u)
      → set_frame s ref v c ≡ ok r
      → (r.0.action ≡ Action.code Action.set)
        × (member r.0.address never_write ≡ false)
        × ((i : ℕ) × (t : Topic) × (get_elem? topics i ≡ some t)
            × (t.writable ≡ true)
            × (r.0.address ≡ t.address))
  unfolding set_frame
  set_frame-safe s ref v c r other h =
      let (t, allowed, written) = >>=-eq-ok (assert_writable ref) _ h in
      let (i, at_i, writable) = assert_writable_sound ref t other allowed in
      let (action, address) = write_sends s t v c r t.per_compartment written in
      (
        action,
        ap (λ a. member a never_write) address ∙ (assert_writable-safe ref t other allowed).1,
        (i, t, at_i, writable, address),
      )

  publish_of_row :
      (s : Session F) (f : Frame) (i : ℕ) (t : Topic)
      → get_elem? topics i ≡ some t
      → f.address ≡ t.address
      → (on_publish s f).0 ≡ record {
        address = t.address;
        topic = some t;
        value = decoded t f.payload;
        raw = f.payload;
      }
  unfolding on_publish
  publish_of_row s f i t at_i e = rw (e, row_of_address i t at_i)

  -- Under the laws of floats: when the cooler publishes what a SET of a consistent session carried,
  -- for a name or an address and not a topic of the caller's own, the expectation that came
  -- with the SET takes the event that any session makes of it for the confirmation.
  pub set_frame-echo_confirms :
      (laws : FloatLaws F) (s later : Session F) (ref : TopicRef) (v : Value F) (c : Option ℤ)
      (r : Frame × WriteExpectation F)
      → IsConsistent s
      → ((u : Topic) → ref ≢ by_topic u)
      → set_frame s ref v c ≡ ok r
      → (matches r.1 (on_frame later (record r.0 { action = Action.code Action.publish })).0).1
        ≡ ok (some true)
  unfolding on_frame
  set_frame-echo_confirms laws s later ref v c r consistent other h =
      let (i, t, at_i, allowed, (action, address, topic, near)) =
        set_frame-IsEchoed laws s ref v c r consistent other h in
      rw
        (publish_of_row later (record r.0 { action = Action.code Action.publish }) i t at_i address)
        (echo_confirms r.1 _ (ap (λ u. u.address) (sym topic), near))
