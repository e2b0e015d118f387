-- ===== src/Topic/Guard.antt =====
-- The allow-list: what `assert_writable` lets through.
use dometic_ddmp.Base.{
  ℕ, ◌≡◌, ◌≢◌, refl, Bool, true, false, not, ◌&&◌, some, get_elem?, member, string_eq,
  if◌then◌else◌, arith,
}
use dometic_ddmp.Result.{Result, ok, err, not_writable, >>=-eq-ok}
use dometic_ddmp.Address.{address_eq}
use dometic_ddmp.Codec.{Codec, boolean, boolean_array, milli_array, enum}
use dometic_ddmp.Topic.{
  Topic, topics, never_write, writable, TopicRef, by_topic, by_name, topic, assert_writable,
}
use dometic_ddmp.Topic.Lookup.{every, every_sound, topic_of_row, topic_sound}

-- The set is made of the rows' own marks, and no marked row has a forbidden address.
abbrev agrees : Topic → Bool
agrees t =
    if member t.name writable
    then t.writable && not (member t.address never_write)
    else not t.writable

rows_agree : every agrees topics ≡ true
unfolding topics writable never_write
rows_agree = refl

row_agrees : (i : ℕ) (t : Topic) → get_elem? topics i ≡ some t → agrees t ≡ true
row_agrees i t at_i = every_sound agrees topics i t rows_agree at_i

-- The codecs of the rows that may be written, with a value for each compartment or a single one.
abbrev pub shape : Codec → Bool → Bool
shape boolean_array true = true
shape milli_array true = true
shape boolean false = true
shape (enum cls) false = true
shape c per_compartment = false

abbrev fits : Topic → Bool
fits t = if t.writable then shape t.codec t.per_compartment else true

rows_fit : every fits topics ≡ true
unfolding topics
rows_fit = refl

pub writable_shape :
    (i : ℕ) (t : Topic)
    → get_elem? topics i ≡ some t
    → t.writable ≡ true
    → shape t.codec t.per_compartment ≡ true
writable_shape i t at_i w =
    let fit = every_sound fits topics i t rows_fit at_i in ground (arith, fit)

abbrev check : Topic → Result Topic
check t = if member t.name writable then ok t else err not_writable

-- Given the name of a row of the table, `assert_writable` returns the row if it is marked writable,
-- and raises `NotWritable` if it is not.
pub assert_writable_row :
    (i : ℕ) (t : Topic)
    → get_elem? topics i ≡ some t
    → assert_writable (by_name t.name) ≡ (if t.writable then ok t else err not_writable)
unfolding assert_writable
assert_writable_row i t at_i = rw ((topic_of_row i t at_i).0) (ground (arith, row_agrees i t at_i))

-- Whatever name, text or address is given, but no topic of the caller's own, `assert_writable`
-- returns only a topic that is marked writable, and never one with an address of `NEVER_WRITE`.
pub assert_writable-safe :
    (ref : TopicRef) (t : Topic)
    → ((u : Topic) → ref ≢ by_topic u)
    → assert_writable ref ≡ ok t
    → (t.writable ≡ true) × (member t.address never_write ≡ false)
unfolding assert_writable
assert_writable-safe ref t other h =
    let (u, resolved, passed) = >>=-eq-ok (topic ref) _ h in
    let (i, at_i) = topic_sound ref u other resolved in ground (arith, passed, row_agrees i u at_i)

-- The same, with the row of the table.
pub assert_writable_sound :
    (ref : TopicRef) (t : Topic)
    → ((u : Topic) → ref ≢ by_topic u)
    → assert_writable ref ≡ ok t
    → (i : ℕ) × (get_elem? topics i ≡ some t) × (t.writable ≡ true)
unfolding assert_writable
assert_writable_sound ref t other h =
    let (u, resolved, passed) = >>=-eq-ok (topic ref) _ h in
    let (i, at_i) = topic_sound ref u other resolved in
    let same_row : u ≡ t = ground (arith, passed) in
    (i, rw same_row at at_i, ground (arith, passed, row_agrees i u at_i))
