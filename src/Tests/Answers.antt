-- ===== src/Tests/Answers.antt =====
-- One response that advertises a cooler, with its question repeated, and the search that hears it.
use dometic_ddmp.Base.{
  pos, some, true, false, ℕ, ◌+◌, ◌≡◌, refl, [], ◌∷◌, ◌++◌, List, All, length, arith,
}
use dometic_ddmp.Bytes.{Bytes}
use dometic_ddmp.Result.{ok}
use dometic_ddmp.Text.{Text, codes, split, lower, remove, is_space, before_first}
use dometic_ddmp.Text.Utf8
use dometic_ddmp.Mdns.Message.{encode_name, encode_labels, encode_questions, pack16, parse_response}
use dometic_ddmp.Mdns.RoundTrip.{Fits}
use dometic_ddmp.Mdns.Answers.{plain_name, records_at}
use dometic_ddmp.Mdns.Responses.{response, parse_response-records_at}
use dometic_ddmp.Mdns.Adverts.{Advert, IsAdvert, answers_of, answers-AreAnswers}
use dometic_ddmp.Mdns.Advertised.{service_of_advert}
use dometic_ddmp.Mdns.Browse.{Turn, silence, answer, query_mdns}
use dometic_ddmp.Discovery.{DdmdReply, Network, last_six, after_last, normalize_id, find_cooler}
use dometic_ddmp.Discovery.Located.{located, find_cooler-query_mdns}

abbrev service : Text
service = codes "_ddmp.local"

abbrev service_bytes : Bytes
service_bytes = 5 ∷ codes "_ddmp" ++ 5 ∷ codes "local" ++ 0 ∷ []

service_encoded : encode_name service ≡ ok service_bytes
unfolding encode_name encode_labels split Utf8.encode Utf8.encode_char
service_encoded = refl

service-Fits : All Fits (split b'.' (plain_name service))
unfolding split Utf8.encode Utf8.encode_char
service-Fits = (
  (codes "_ddmp", refl, omega arith, omega arith),
  ((codes "local", refl, omega arith, omega arith), tt),
)

abbrev cooler : Text
cooler = codes "C1._ddmp.local"

abbrev cooler_bytes : Bytes
cooler_bytes = 2 ∷ codes "C1" ++ service_bytes

cooler_encoded : encode_name cooler ≡ ok cooler_bytes
unfolding encode_name encode_labels split Utf8.encode Utf8.encode_char
cooler_encoded = refl

cooler-Fits : All Fits (split b'.' (plain_name cooler))
unfolding split Utf8.encode Utf8.encode_char
cooler-Fits = ((codes "C1", refl, omega arith, omega arith), service-Fits)

abbrev host : Text
host = codes "MC1_34f12c.local"

abbrev host_bytes : Bytes
host_bytes = 10 ∷ codes "MC1_34f12c" ++ 5 ∷ codes "local" ++ 0 ∷ []

host_encoded : encode_name host ≡ ok host_bytes
unfolding encode_name encode_labels split Utf8.encode Utf8.encode_char
host_encoded = refl

host-Fits : All Fits (split b'.' (plain_name host))
unfolding split Utf8.encode Utf8.encode_char
host-Fits = (
  (codes "MC1_34f12c", refl, omega arith, omega arith),
  ((codes "local", refl, omega arith, omega arith), tt),
)

abbrev advert : Advert
advert = record {
  service = service;
  instance_name = cooler;
  host = host;
  service_bytes = service_bytes;
  instance_bytes = cooler_bytes;
  host_bytes = host_bytes;
  class_ttl = 0 ∷ 1 ∷ 0 ∷ 0 ∷ 0 ∷ 120 ∷ [];
  rank = 0 ∷ 0 ∷ 0 ∷ 0 ∷ [];
  port = 13143;
  txt = 6 ∷ codes "id=A-1";
  ip = 192 ∷ 168 ∷ 1 ∷ 7 ∷ [];
}

advert-IsAdvert : IsAdvert advert
advert-IsAdvert = record {
  service = (service-Fits, service_encoded);
  instance_name = (cooler-Fits, cooler_encoded);
  host = (host-Fits, host_encoded);
  six = refl;
  rank = refl;
  ip = refl;
}

abbrev asked : List (Text × ℕ)
asked = (service, 12) ∷ []

abbrev question : Bytes
question = service_bytes ++ 0 ∷ 12 ∷ 0 ∷ 1 ∷ []

question_encoded : encode_questions 1 asked ≡ ok question
unfolding encode_questions encode_name encode_labels pack16 split Utf8.encode Utf8.encode_char
question_encoded = refl

parse_response-records_at_example :
    parse_response (response 0 0 0x84 0 1 1 0 3 question (answers_of advert) [])
    ≡ records_at (12 + length question) (answers_of advert)
parse_response-records_at_example =
    parse_response-records_at 0 0 0x84 0 1 0 3 1 asked question (answers_of advert) []
      (service-Fits, tt) question_encoded (answers-AreAnswers advert advert-IsAdvert) refl

abbrev heard_once : List Turn
heard_once =
    record { due = true; heard = silence }
    ∷ record {
      due = false;
      heard = answer (response 0 0 0x84 0 1 1 0 3 question (answers_of advert) []);
    }
    ∷ []

abbrev reply : DdmdReply
reply = record {
  cooler_id = codes "14335c34f12c";
  name = codes "MC1_34f12c";
  sku = codes "9700";
  version = pos 2;
  pid = pos 4;
  f = pos 0;
  host = codes "192.168.1.7";
  port = 13143;
}

abbrev network : Network
network = record {
  services = query_mdns lower (λ raw. raw) service false heard_once;
  probe = λ ip port. ok (reply ∷ []);
  broadcast_replies = ok (reply ∷ []);
}

abbrev wanted : Text
wanted = codes "14:33:5C:34:F1:2C"

wanted_normal : normalize_id lower wanted ≡ codes "14335c34f12c"
unfolding normalize_id remove is_space lower
wanted_normal = refl

end_of_id : last_six (codes "14335c34f12c") ≡ codes "34f12c"
unfolding last_six
end_of_id = refl

end_of_host :
    (let name = before_first b'.' (plain_name host) in lower (after_last b'_' name name))
    ≡ codes "34f12c"
unfolding before_first after_last lower Utf8.encode Utf8.encode_char
end_of_host = refl

find_cooler-query_mdns_example :
    find_cooler lower network wanted []
    ≡ ok (some (located (service_of_advert lower (λ raw. raw) advert) reply reply))
find_cooler-query_mdns_example =
    find_cooler-query_mdns lower (λ raw. raw) advert 0 0 0x84 0 1 0 3 1 asked question [] false
      (record { due = true; heard = silence } ∷ []) []
      (record {
        due = false;
        heard = answer (response 0 0 0x84 0 1 1 0 3 question (answers_of advert) []);
      })
      network reply reply wanted 192 b'1' b'3' (168 ∷ 1 ∷ 7 ∷ []) (codes "4335c34f12c")
      (codes "4f12c") advert-IsAdvert (service-Fits, tt) question_encoded refl (refl, tt) tt refl
      refl refl refl refl refl refl end_of_id end_of_host wanted_normal
