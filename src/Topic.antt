-- ===== src/Topic.antt =====
-- The topics of src/ddmp/protocol.py: the table, the two dictionaries made from it, the allow-list.
pub mod Table
pub mod Lookup
pub mod Short
pub mod Guard
use dometic_ddmp.Base.{
  ℕ, String, ◌++◌, Option, none, some, List, [], ◌∷◌, map, member, string_eq, if◌then◌else◌,
}
use dometic_ddmp.Base.Dict.{Dict, get}
use dometic_ddmp.Base.Index.{index}
use dometic_ddmp.Result.{Result, ok, err, Error, value_error, key_error, not_writable, ◌>>=◌}
use dometic_ddmp.Text.{codes}
use dometic_ddmp.Action
use dometic_ddmp.Address
use dometic_ddmp.Address.{Address, address_eq}
use dometic_ddmp.Frame.{Frame}
use dometic_ddmp.Value.{Value, Floats}
use dometic_ddmp.Codec
pub use Table.{Topic}
unfoldable pub use Table.{topics, subscribe_names, never_write}

-- `TOPIC_BY_NAME` and `TOPIC_BY_ADDRESS`
unfoldable pub topic_by_name : Dict String Topic
topic_by_name = index (λ t. t.name) topics

unfoldable pub topic_by_address : Dict Address Topic
topic_by_address = index (λ t. t.address) topics

abbrev pub found : Option Topic → List Topic
found none = []
found (some t) = t ∷ []

-- `SUBSCRIBE_TOPICS`
abbrev pub collect : List String → List Topic
collect [] = []
collect (n ∷ ns) = found (get n topic_by_name) ++ collect ns

unfoldable pub subscribe_topics : List Topic
subscribe_topics = collect subscribe_names

-- The names of the topics that may be written: the set `WRITABLE`.
unfoldable pub writable_names : List Topic → List String
writable_names [] = []
writable_names (t ∷ ts) = let rest = writable_names ts in if t.writable then t.name ∷ rest else rest

unfoldable pub writable : List String
unfolding writable_names
writable = writable_names topics

-- What a caller may pass for a topic.
pub data TopicRef : Type 0 where
  by_topic : Topic → TopicRef
  by_address : Address → TopicRef
  by_name : String → TopicRef

-- `d[k]`
abbrev pub or_key_error : Option Topic → Result Topic
or_key_error none = err key_error
or_key_error (some t) = ok t

-- `except (ValueError, KeyError): raise KeyError(...)`
abbrev pub as_key_error : Result Topic → Result Topic
as_key_error (ok t) = ok t
as_key_error (err value_error) = err key_error
as_key_error (err e) = err e

unfoldable pub topic_by_text : String → Result Topic
topic_by_text name =
    as_key_error (do a ← Address.parse (codes name); or_key_error (get a topic_by_address))

abbrev pub or_by_text : String → Option Topic → Result Topic
or_by_text name (some t) = ok t
or_by_text name none = topic_by_text name

unfoldable pub topic : TopicRef → Result Topic
topic (by_topic t) = ok t
topic (by_address a) = or_key_error (get a topic_by_address)
topic (by_name name) = or_by_text name (get name topic_by_name)

unfoldable pub assert_writable : TopicRef → Result Topic
assert_writable ref = do t ← topic ref; if member t.name writable then ok t else err not_writable

abbrev frame : Action.Action → Address → List ℕ → Frame
frame action address payload = record {
  action = Action.code action;
  address = address;
  payload = payload;
}

unfoldable pub subscribe_frame : TopicRef → Result Frame
subscribe_frame ref = do t ← topic ref; ok (frame Action.subscribe t.address [])

module _ {F : Type 0} ⦃fl : Floats F⦄ where
  unfoldable pub publish_frame : TopicRef → Value F → Result Frame
  publish_frame ref value = do
    t ← topic ref
    payload ← Codec.encode t.codec value
    ok (frame Action.publish t.address payload)
