-- ===== src/Tests/Finding.antt =====
-- The discovery of src/ddmp/discovery.py on one cooler, and on one malformed answer.
use mathlib.Core.List.{Memᴰ, Perm}
use dometic_ddmp.Base.{
  zero, suc, ℕ, pos, ◌*◌, ◌≤◌, ◌≡◌, refl, true, false, some, [], ◌∷◌, map, length, text_eq, All,
  List,
}
use dometic_ddmp.Base.Dict
use dometic_ddmp.Bytes.{Bytes}
use dometic_ddmp.Result.{ok, err, struct_error, value_error}
use dometic_ddmp.Text.{Text, codes, is_space, remove, split, lower}
use dometic_ddmp.Text.Utf8
use dometic_ddmp.Mdns.{read_name, read_labels}
use dometic_ddmp.Mdns.Message.{
  build_query, encode_questions, pack16, name_at, named, encode_name, encode_labels, be16,
  parse_response, sections, skip_questions, read_records, read_record,
}
use dometic_ddmp.Mdns.Collector.{
  Collector, init, add, add_records, add_record, add_srv, with_name, missing, missing_of,
  missing_all, services, sorted_texts, insert_text, lookup, lookup_lowered,
}
use dometic_ddmp.Mdns.Browse.{
  Turn, silence, Browse, browse, browse_loop, send_due, send_query, hear, not_asked,
}
use dometic_ddmp.Mdns.Browse.Frugal.{Apart, browse-Apart}
use dometic_ddmp.Mdns.Bounds.{parse_response_room}
use dometic_ddmp.Mdns.Ordered.{AreSorted}
use dometic_ddmp.Mdns.Resolved.{IsFull, missing-IsFull}
use dometic_ddmp.Discovery.{
  DdmdReply, Discovered, Network, from_reply, finds, of_services, of_hosts, normalize_id, matches,
  key, merged, discover, find_cooler,
}
use dometic_ddmp.Discovery.Complete.{find_cooler_complete}
use dometic_ddmp.Discovery.Sorting.{IsSorted}
use dometic_ddmp.Discovery.Unique.{discover_unique}

abbrev host : Text
host = codes "MC1.local"

-- An answer with one SRV record at the root, whose target is cut off inside a pointer.
abbrev cut_answer : Bytes
cut_answer =
    0 ∷ 0 ∷ 0 ∷ 0 ∷ 0 ∷ 0 ∷ 0 ∷ 1 ∷ 0 ∷ 0 ∷ 0 ∷ 0 ∷ 0 ∷ 0 ∷ 33 ∷ 0 ∷ 1 ∷ 0 ∷ 0 ∷ 0 ∷ 0 ∷ 0 ∷ 7 ∷ 0
    ∷ 0 ∷ 0 ∷ 0 ∷ 51 ∷ 87 ∷ 192 ∷ []

parse_response_room_example : 11 * length (parse_response cut_answer) ≤ length cut_answer
parse_response_room_example = parse_response_room cut_answer

abbrev dotted : Bytes → Text
dotted raw = codes "10.0.0.7"

cut_answer_raises :
    add lower dotted cut_answer (init lower dotted (codes "_ddmp._tcp.local")) ≡ err struct_error
unfolding add add_records add_record add_srv with_name parse_response sections skip_questions
    read_records read_record name_at named read_name read_labels be16 init lower
cut_answer_raises = refl

abbrev replaced : ℕ → Text
replaced zero = []
replaced (suc n) = 0xfffd ∷ replaced n

-- A label of 86 bytes that are no text is read as 86 characters, which are 258 bytes.
long_label_raises : encode_labels (replaced 86 ∷ []) ≡ err value_error
unfolding encode_labels Utf8.encode Utf8.encode_char
long_label_raises = refl

abbrev cfx : Text
cfx = codes "cfx._ddmp._tcp.local"

-- What three answers have said about one cooler.
abbrev full : Collector
full = record {
  service = codes "_ddmp._tcp.local";
  instances = cfx ∷ [];
  srv = (cfx, (13143, host)) ∷ [];
  txt = (cfx, (codes "sku", codes "9700") ∷ []) ∷ [];
  addresses = (codes "mc1.local", codes "10.0.0.7" ∷ []) ∷ [];
}

nothing_missing : missing lower dotted full ≡ []
unfolding missing missing_all missing_of sorted_texts insert_text lookup lookup_lowered lower
    Dict.get
nothing_missing = refl

missing-IsFull_example :
    (names : List Text) × (map (λ svc. svc.instance_name) (services lower dotted full) ≡ names)
    × (names ≡ sorted_texts full.instances)
    × Perm names full.instances
    × AreSorted names
    × All (IsFull lower dotted full) (services lower dotted full)
missing-IsFull_example = missing-IsFull lower dotted full nothing_missing

abbrev reply : DdmdReply
reply = record {
  cooler_id = codes "14335c34f12c";
  name = codes "MC1_34f12c";
  sku = codes "9700";
  version = pos 2;
  pid = pos 4;
  f = pos 0;
  host = codes "10.0.0.7";
  port = 13143;
}

-- One cooler, that only the broadcast reaches.
abbrev network : Network
network = record { services = ok []; probe = λ ip port. ok []; broadcast_replies = ok (reply ∷ []) }

abbrev wanted : Text
wanted = codes "14:33:5C:34:F1:2C"

wanted_normal : normalize_id lower wanted ≡ codes "14335c34f12c"
unfolding normalize_id remove is_space lower
wanted_normal = refl

abbrev tail_of_id : Text
tail_of_id = codes "4335c34f12c"

abbrev broadcast_finds : List Discovered
broadcast_finds = from_reply reply (codes "broadcast") ∷ []

broadcast_only : finds network true true [] ≡ ok broadcast_finds
unfolding finds of_services of_hosts
broadcast_only = refl

broadcast_found : Memᴰ (from_reply reply (codes "broadcast")) broadcast_finds
broadcast_found = Memᴰ.head refl

reply_id : (from_reply reply (codes "broadcast")).cooler_id ≡ b'1' ∷ tail_of_id
unfolding from_reply
reply_id = refl

find_cooler_complete_example :
    (e : Discovered) × (find_cooler lower network wanted [] ≡ ok (some e))
    × (matches lower e wanted ≡ true)
find_cooler_complete_example =
    find_cooler_complete lower network [] wanted broadcast_finds
      (from_reply reply (codes "broadcast")) b'1' tail_of_id broadcast_only broadcast_found reply_id
      refl wanted_normal

discovered : discover lower network true true [] ≡ ok (merged lower broadcast_finds)
unfolding discover finds of_services of_hosts
discovered = refl

discover_unique_example :
    IsSorted (merged lower broadcast_finds)
    × ((d e : Discovered)
        → Memᴰ d (merged lower broadcast_finds)
        → Memᴰ e (merged lower broadcast_finds)
        → key lower d ≡ key lower e
        → d ≡ e)
discover_unique_example =
    discover_unique lower network true true [] (merged lower broadcast_finds) discovered

-- A browse that nothing answers asks twice for services.
abbrev unanswered : List Turn
unanswered = record { due = true; heard = silence } ∷ record { due = false; heard = silence } ∷ []

abbrev asked_twice : Browse
asked_twice = record {
  collector = init lower dotted (codes "_ddmp._tcp.local");
  asked = [];
  sent = [] ∷ [] ∷ [];
}

browsed : browse lower dotted (codes "_ddmp._tcp.local") false unanswered ≡ ok asked_twice
unfolding browse browse_loop send_due send_query hear not_asked build_query encode_questions
    encode_name encode_labels pack16 split Utf8.encode Utf8.encode_char init missing missing_all
    sorted_texts lower
browsed = refl

browse-Apart_example : Apart [] asked_twice.sent
browse-Apart_example =
    browse-Apart lower dotted (codes "_ddmp._tcp.local") false unanswered asked_twice browsed
