-- ===== src/Topic/Lookup.antt =====
-- How names, addresses and texts are resolved to topics.
use dometic_ddmp.Base.{
  ℕ, zero, suc, String, string_eq, Bool, ◌&&◌, ltb, List, [], ◌∷◌, ◌≡◌, ◌≢◌, refl, true, inl, inr,
  none, some, map, get_elem?, ap, sym, ◌∙◌, Option-cases, arith,
}
use dometic_ddmp.Base.Dict.{get}
use dometic_ddmp.Base.Index.{distinct, get-index, get-index_sound}
use dometic_ddmp.Result.{ok, err, >>=-eq-ok, Result}
use dometic_ddmp.Text.{codes}
use dometic_ddmp.Address
use dometic_ddmp.Address.{Address, address_eq, IsByteAddress, fields}
use dometic_ddmp.Address.Laws.{parse-show}
use dometic_ddmp.Topic.{
  Topic, topics, topic_by_name, topic_by_address, TopicRef, or_key_error, as_key_error, or_by_text,
  topic_by_text, by_topic, by_address, by_name, topic,
}

pub names_distinct : distinct (map (λ t. t.name) topics) ≡ true
unfolding topics
names_distinct = refl

pub addresses_distinct : distinct (map (λ t. t.address) topics) ≡ true
unfolding topics
addresses_distinct = refl

-- The topic in any row of the table is what its name and its address resolve to.
pub topic_of_row :
    (i : ℕ) (t : Topic)
    → get_elem? topics i ≡ some t
    → (topic (by_name t.name) ≡ ok t) × (topic (by_address t.address) ≡ ok t)
unfolding topic topic_by_name topic_by_address
topic_of_row i t at_i = (
  ap (or_by_text t.name) (get-index (λ t. t.name) topics i t names_distinct at_i),
  ap or_key_error (get-index (λ t. t.address) topics i t addresses_distinct at_i),
)

-- A test that every element of a list passes.
abbrev pub every {ℓ} : {A : Type ℓ} → (A → Bool) → List A → Bool
every p [] = true
every p (x ∷ xs) = p x && every p xs

pub every_sound {ℓ} :
    {A : Type ℓ} (p : A → Bool) (xs : List A) (i : ℕ) (x : A)
    → every p xs ≡ true
    → get_elem? xs i ≡ some x
    → p x ≡ true
every_sound p [] i x h at_i = ground arith
every_sound p (y ∷ xs) zero x h at_i = ground arith
every_sound p (y ∷ xs) (suc i) x h at_i = every_sound p xs i x (ground arith) at_i

rows_are_bytes : every (λ t. every (λ b. ltb b 256) (fields t.address)) topics ≡ true
unfolding topics
rows_are_bytes = refl

row-IsByteAddress : (i : ℕ) (t : Topic) → get_elem? topics i ≡ some t → IsByteAddress t.address
row-IsByteAddress i t at_i =
    let small = every_sound _ topics i t rows_are_bytes at_i in ground (arith, small)

-- The text of a row's address, where it is no topic's name, resolves to the row too.
pub topic_of_text :
    (i : ℕ) (t : Topic) (name : String)
    → get_elem? topics i ≡ some t
    → get name topic_by_name ≡ none
    → codes name ≡ Address.show t.address
    → topic (by_name name) ≡ ok t
unfolding topic topic_by_text topic_by_address
topic_of_text i t name at_i absent shown =
    ap (or_by_text name) absent
    ∙ rw (shown, parse-show t.address (row-IsByteAddress i t at_i))
        (ap (λ o. as_key_error (or_key_error o))
          (get-index (λ t. t.address) topics i t addresses_distinct at_i))

-- The topic in any row of the table is what its name and its address resolve to, and what the text
-- of its address does, where that is no topic's name.
pub topic_resolves :
    (i : ℕ) (t : Topic) (name : String)
    → get_elem? topics i ≡ some t
    → get name topic_by_name ≡ none
    → codes name ≡ Address.show t.address
    → (topic (by_name t.name) ≡ ok t)
      × (topic (by_address t.address) ≡ ok t)
      × (topic (by_name name) ≡ ok t)
topic_resolves i t name at_i absent shown =
    let (named, addressed) = topic_of_row i t at_i in
    (named, addressed, topic_of_text i t name at_i absent shown)

found_at_address :
    (a : Address) (t : Topic)
    → or_key_error (get a topic_by_address) ≡ ok t
    → (i : ℕ) × (get_elem? topics i ≡ some t)
unfolding topic_by_address
found_at_address a t h = (get-index_sound (λ t. t.address) a topics t (ground arith)).1

ok_of_as_key_error : (r : Result Topic) (t : Topic) → as_key_error r ≡ ok t → r ≡ ok t
ok_of_as_key_error (ok u) t h = h
ok_of_as_key_error (err e) t h = ground arith

found_at_text :
    (name : String) (t : Topic)
    → topic_by_text name ≡ ok t
    → (i : ℕ) × (get_elem? topics i ≡ some t)
unfolding topic_by_text
found_at_text name t h =
    let (a, _, found) = >>=-eq-ok (Address.parse (codes name)) _ (ok_of_as_key_error _ t h) in
    found_at_address a t found

-- A reference that is no topic of the caller's own resolves, if at all, to a row of the table.
pub topic_sound :
    (ref : TopicRef) (t : Topic)
    → ((u : Topic) → ref ≢ by_topic u)
    → topic ref ≡ ok t
    → (i : ℕ) × (get_elem? topics i ≡ some t)
unfolding topic topic_by_name
topic_sound (by_topic u) t other h = absurd (other u refl)
topic_sound (by_address a) t other h = found_at_address a t h
topic_sound (by_name name) t other h = elim (Option-cases (get name topic_by_name)) [
  | inl absent ↦ found_at_text name t (sym (ap (or_by_text name) absent) ∙ h)
  | inr (u, found) ↦
      (get-index_sound (λ t. t.name) name topics t
        (found ∙ ground (arith, sym (ap (or_by_text name) found) ∙ h))).1
]
