-- ===== src/Session/Memory.antt =====
-- What `Session` remembers of the frames that it was fed.
use dometic_ddmp.Base.{
  ℕ, String, string_eq, ◌≡◌, refl, sym, ap, ◌∙◌, true, ◌&&◌, inl, inr, Option, none, some, List, [],
  ◌∷◌, get_elem?, Bool-cases, ◌==◌, if◌then◌else◌, arith,
}
use dometic_ddmp.Base.Dict
use dometic_ddmp.Base.Dict.{get-put}
use dometic_ddmp.Base.Index.{get-index, get-index_sound}
use dometic_ddmp.Bytes.{Bytes}
use dometic_ddmp.Action
use dometic_ddmp.Address.{Address, address_beq, address_beq_iff, address_eq}
use dometic_ddmp.Frame.{Frame}
use dometic_ddmp.Value.{Value, Floats}
use dometic_ddmp.Topic.{Topic, topics, topic_by_address}
use dometic_ddmp.Topic.Lookup.{names_distinct, addresses_distinct}
use dometic_ddmp.Session.{
  Session, on_frame, on_frames, on_publish, decoded, value, value_of, remember,
}

-- The payload of the last publish for the address.
abbrev pub last_payload : Address → List Frame → Option Bytes
last_payload a [] = none
last_payload a (f ∷ fs) = elim (last_payload a fs) [
  | some payload ↦ some payload
  | none ↦
      if f.action == Action.code Action.publish && address_beq f.address a
      then some f.payload
      else none
]

row_with_name :
    (i : ℕ) (t u : Topic) (a : Address)
    → get_elem? topics i ≡ some t
    → Dict.get a topic_by_address ≡ some u
    → u.name ≡ t.name
    → u ≡ t
unfolding topic_by_address
row_with_name i t u a at_i found same_name =
    let (key, (j, at_j)) = get-index_sound (λ t. t.address) a topics u found in
    let one = get-index (λ t. t.name) topics i t names_distinct at_i in
    let other = get-index (λ t. t.name) topics j u names_distinct at_j in ground (arith, one, other)

pub row_of_address :
    (i : ℕ) (t : Topic) → get_elem? topics i ≡ some t → Dict.get t.address topic_by_address ≡ some t
unfolding topic_by_address
row_of_address i t at_i = get-index (λ t. t.address) topics i t addresses_distinct at_i

address_of_found : (a : Address) (u : Topic) → Dict.get a topic_by_address ≡ some u → u.address ≡ a
unfolding topic_by_address
address_of_found a u found = (get-index_sound (λ t. t.address) a topics u found).0

abbrev pub newer : Option Bytes → Option Bytes → Option Bytes
newer (some payload) older = some payload
newer none older = older

module _ {F : Type 0} ⦃fl : Floats F⦄ where
  raw_of_frame :
      (s : Session F) (f : Frame) (a : Address)
      → Dict.get a (on_frame s f).1.raw ≡ (
          if f.action == Action.code Action.publish && address_beq f.address a
          then some f.payload
          else Dict.get a s.raw)
  unfolding on_frame on_publish
  raw_of_frame s f a = ground (arith, get-put f.address a f.payload s.raw)

  raw_of_frames :
      (s : Session F) (fs : List Frame) (a : Address)
      → Dict.get a (on_frames s fs).1.raw ≡ newer (last_payload a fs) (Dict.get a s.raw)
  unfolding on_frames
  raw_of_frames s [] a = refl
  raw_of_frames s (f ∷ fs) a =
      ground (arith, raw_of_frames (on_frame s f).1 fs a, raw_of_frame s f a)

  -- The decoded value of the payload, or the older value where there is none.
  abbrev pub newer_value : Topic → Option Bytes → Option (Value F) → Option (Value F)
  newer_value t (some payload) older = some (decoded t payload)
  newer_value t none older = older

  -- What a publish from an address writes to the dictionary, seen from one row of the table.
  get-remember :
      (i : ℕ) (t : Topic) (a : Address) (payload : Bytes) (values : Dict.Dict String (Value F))
      (tp : Option Topic)
      → get_elem? topics i ≡ some t
      → Dict.get a topic_by_address ≡ tp
      → Dict.get t.name (remember tp (value_of tp payload) values)
        ≡ (if address_beq a t.address then some (decoded t payload) else Dict.get t.name values)
  get-remember i t a payload values none at_i found = elim (Bool-cases (address_beq a t.address)) [
    | inl same ↦ absurd (
        let e = (address_beq_iff a t.address).0 same in
        let row = row_of_address i t at_i in
        ground (arith, sym found ∙ (ap (λ b. Dict.get b topic_by_address) e ∙ row)))
    | inr other ↦ rw other
  ]
  get-remember i t a payload values (some u) at_i found =
      elim (Bool-cases (address_beq a t.address)) [
        | inl same ↦
            let e = (address_beq_iff a t.address).0 same in
            let row = row_of_address i t at_i in
            let one : some u ≡ some t =
              sym found ∙ (ap (λ b. Dict.get b topic_by_address) e ∙ row) in
            let same_row : u ≡ t = ground (arith, one) in
            rw (
              same,
              same_row,
              get-put t.name t.name (decoded t payload) values,
              (string_eq.beq_iff t.name t.name).1 refl,
            )
        | inr other ↦ elim (Bool-cases (string_eq.beq u.name t.name)) [
          | inl clash ↦ absurd (
              let same_row =
                row_with_name i t u a at_i found ((string_eq.beq_iff u.name t.name).0 clash) in
              let key = address_of_found a u found in
              let same : address_beq a t.address ≡ true =
                (address_beq_iff a t.address).1 (sym key ∙ ap (λ v. v.address) same_row) in
              ground (arith, same))
          | inr apart ↦ rw (other, get-put u.name t.name (decoded u payload) values, apart)
        ]
      ]

  pub value_of_frame :
      (s : Session F) (f : Frame) (i : ℕ) (t : Topic)
      → get_elem? topics i ≡ some t
      → Dict.get t.name (on_frame s f).1.values ≡ (
          if f.action == Action.code Action.publish && address_beq f.address t.address
          then some (decoded t f.payload)
          else Dict.get t.name s.values)
  unfolding on_frame on_publish
  value_of_frame s f i t at_i =
      let stored =
        get-remember i t f.address f.payload s.values (Dict.get f.address topic_by_address) at_i
          refl in
      elim (Bool-cases (f.action == Action.code Action.publish)) [
        | inl publishes ↦ rw (publishes) stored
        | inr other ↦ elim (Bool-cases (f.action == Action.code Action.nak)) [
          | inl naks ↦ rw (other, naks)
          | inr unknown ↦ rw (other, unknown)
        ]
      ]

  -- After any frames, a topic of the table has the value of the last publish for its address, which is
  -- the payload itself where it cannot be decoded, and its address has that payload; without such a
  -- publish both are what they were.
  pub on_frames_remembers_last :
      (s : Session F) (fs : List Frame) (i : ℕ) (t : Topic)
      → get_elem? topics i ≡ some t
      → (value (on_frames s fs).1 t.name
          ≡ newer_value t (last_payload t.address fs) (value s t.name))
        × (Dict.get t.address (on_frames s fs).1.raw
            ≡ newer (last_payload t.address fs) (Dict.get t.address s.raw))
  unfolding value on_frames
  on_frames_remembers_last s [] i t at_i = (refl, refl)
  on_frames_remembers_last s (f ∷ fs) i t at_i =
      let ih = on_frames_remembers_last (on_frame s f).1 fs i t at_i in
      (ground (arith, ih.0, value_of_frame s f i t at_i), raw_of_frames s (f ∷ fs) t.address)
