-- ===== src/Mdns/Advertised.antt =====
-- What `_MdnsCollector` of src/ddmp/discovery.py makes of a response that advertises a service.
use dometic_ddmp.Base.{
  ℕ, ◌+◌, ◌≡◌, refl, sym, ap, true, some, List, [], ◌∷◌, ◌++◌, length, length-append, append_assoc,
  same, same_iff, text_eq, leb, arith,
}
use dometic_ddmp.Base.Dict
use dometic_ddmp.Bytes.{Bytes}
use dometic_ddmp.Result.{ok, ◌>>=◌}
use dometic_ddmp.Text.{Text}
use dometic_ddmp.Mdns.Message.{Record, encode_questions, name_at, be16, parse_txt}
use dometic_ddmp.Mdns.Answers.{
  plain_name, high_low, bytes_of, bytes_of_all, records_at, be16-high_low,
}
use dometic_ddmp.Mdns.Responses.{FitQuestions, response, parse_response-records_at}
use dometic_ddmp.Mdns.Collector.{
  MdnsService, Collector, init, add, add_record, add_records, add_ptr, add_srv, add_address,
  with_name, add_once, services, service_of, services_of, missing, missing_all, missing_of,
  sorted_texts, insert_text, lookup, unique,
}
use dometic_ddmp.Mdns.Adverts.{
  Advert, IsAdvert, ptr_of, answers_of, answers-AreAnswers, instance_read, host_read,
}

same_refl : (t : Text) → same t t ≡ true
same_refl t = (same_iff t t).1 refl

get_single : {V : Type 0} (k : Text) (v : V) → Dict.get k ((k, v) ∷ []) ≡ some v
unfolding Dict.get
get_single k v = rw (same_refl k) refl

module _ (lower : Text → Text) (inet_ntoa : Bytes → Text) where
  add_ptr_record :
      (msg : Bytes) (c : Collector) (name target : Text) (rdata : Bytes) (i end : ℕ)
      → c.service ≡ lower name
      → name_at msg i ≡ ok (target, end)
      → add_record lower inet_ntoa msg
          (record { name = name; rtype = 12; rdata = rdata; rd_off = i })
          c
        ≡ ok (record c { instances = add_once target c.instances })
  unfolding add_record add_ptr with_name
  add_ptr_record msg c name target rdata i end own read =
      rw (own, same_refl (lower name), read) refl

  add_srv_record :
      (msg : Bytes) (c : Collector) (name target : Text) (rdata : Bytes) (i end port : ℕ)
      → leb 6 (length rdata) ≡ true
      → be16 rdata 4 ≡ ok port
      → name_at msg (i + 6) ≡ ok (target, end)
      → add_record lower inet_ntoa msg
          (record { name = name; rtype = 33; rdata = rdata; rd_off = i })
          c
        ≡ ok (record c { srv = Dict.put name (port, target) c.srv })
  unfolding add_record add_srv with_name
  add_srv_record msg c name target rdata i end port long number read = rw (long, number, read) refl

  -- What the collector holds after the four records of an advert.
  abbrev pub heard : Advert → Collector
  heard a = record {
    service = lower (plain_name a.service);
    instances = plain_name a.instance_name ∷ [];
    srv = (plain_name a.instance_name, (a.port, plain_name a.host)) ∷ [];
    txt = (plain_name a.instance_name, parse_txt a.txt) ∷ [];
    addresses = (lower (plain_name a.host), inet_ntoa a.ip ∷ []) ∷ [];
  }

  abbrev pub service_of_advert : Advert → MdnsService
  service_of_advert a = record {
    instance_name = plain_name a.instance_name;
    hostname = plain_name a.host;
    port = a.port;
    addresses = inet_ntoa a.ip ∷ [];
    txt = parse_txt a.txt;
  }

  lookup_single : {V : Type 0} (k : Text) (v : V) → lookup lower inet_ntoa ((k, v) ∷ []) k ≡ some v
  unfolding lookup
  lookup_single k v = rw (lookup, get_single k v) refl

  service_of_known :
      (c : Collector) (name : Text) (port : ℕ) (target : Text) (txt : Dict.Dict Text Text)
      (addresses : List Text)
      → lookup lower inet_ntoa c.srv name ≡ some (port, target)
      → lookup lower inet_ntoa c.txt name ≡ some txt
      → Dict.get (lower target) c.addresses ≡ some addresses
      → service_of lower inet_ntoa c name
        ≡ record {
          instance_name = name;
          hostname = target;
          port = port;
          addresses = unique [] addresses;
          txt = txt;
        }
          ∷ []
  unfolding service_of
  service_of_known c name port target txt addresses h h' h'' =
      rw (service_of, h) (rw (h', h'') refl)

  pub services_heard : (a : Advert) → services lower inet_ntoa (heard a) ≡ service_of_advert a ∷ []
  unfolding services sorted_texts insert_text services_of unique add_once
  services_heard a =
      let name = plain_name a.instance_name in
      let found : service_of lower inet_ntoa (heard a) name ≡ service_of_advert a ∷ [] =
        service_of_known (heard a) name a.port (plain_name a.host) (parse_txt a.txt)
          (inet_ntoa a.ip ∷ []) (lookup_single name (a.port, plain_name a.host))
          (lookup_single name (parse_txt a.txt))
          (get_single (lower (plain_name a.host)) (inet_ntoa a.ip ∷ [])) in
      rw found refl

  add_host_record :
      (msg : Bytes) (c : Collector) (name : Text) (ip : Bytes) (i : ℕ)
      → c.addresses ≡ []
      → length ip ≡ 4
      → add_record lower inet_ntoa msg (record { name = name; rtype = 1; rdata = ip; rd_off = i }) c
        ≡ ok (record c { addresses = (lower name, inet_ntoa ip ∷ []) ∷ [] })
  unfolding add_record add_address Dict.get Dict.put
  add_host_record msg c name ip i none_yet four = rw (four, none_yet) refl

  four_records :
      (msg : Bytes) (r1 r2 r3 r4 : Record) (c c1 c2 c3 c4 : Collector)
      → add_record lower inet_ntoa msg r1 c ≡ ok c1
      → add_record lower inet_ntoa msg r2 c1 ≡ ok c2
      → add_record lower inet_ntoa msg r3 c2 ≡ ok c3
      → add_record lower inet_ntoa msg r4 c3 ≡ ok c4
      → add_records lower inet_ntoa msg (r1 ∷ r2 ∷ r3 ∷ r4 ∷ []) c ≡ ok c4
  unfolding add_records
  four_records msg r1 r2 r3 r4 c c1 c2 c3 c4 h1 h2 h3 h4 = rw (h1, h2, h3, h4) refl

  add_records_of_advert :
      (msg : Bytes) (a : Advert) (offset i j : ℕ)
      → IsAdvert a
      → name_at msg (offset + length a.service_bytes + 10) ≡ ok (plain_name a.instance_name, i)
      → name_at msg (offset + length (bytes_of (ptr_of a)) + length a.instance_bytes + 10 + 6)
        ≡ ok (plain_name a.host, j)
      → add_records lower inet_ntoa msg
          (records_at offset (answers_of a))
          (init lower inet_ntoa a.service)
        ≡ ok (heard a)
  unfolding init add_once Dict.put add_record
  add_records_of_advert msg a offset i j h instance_read host_read =
      let rdata = a.rank ++ (high_low a.port ++ a.host_bytes) in
      let long : leb 6 (length rdata) ≡ true =
        ground (arith, h.rank, length-append a.rank (high_low a.port ++ a.host_bytes)) in
      let number = be16-high_low a.rank a.host_bytes rdata a.port 4 refl (sym h.rank) in
      let name = plain_name a.instance_name in
      let c = init lower inet_ntoa a.service in
      let c1 : Collector = record c { instances = name ∷ [] } in
      let c2 : Collector = record c1 { srv = (name, (a.port, plain_name a.host)) ∷ [] } in
      let c3 : Collector = record c2 { txt = (name, parse_txt a.txt) ∷ [] } in
      four_records msg _ _ _ _ c c1 c2 c3 (heard a)
        (add_ptr_record msg c (plain_name a.service) name a.instance_bytes _ i refl instance_read)
        (add_srv_record msg c1 name (plain_name a.host) rdata _ j a.port long number host_read) refl
        (add_host_record msg c3 (plain_name a.host) a.ip _ refl h.ip)

  -- What the collector for the service holds when it has heard the response.
  pub add-heard :
      (a : Advert) (i i' f f' an ns ar qclass : ℕ) (questions : List (Text × ℕ)) (raw s : Bytes)
      → IsAdvert a
      → FitQuestions questions
      → encode_questions qclass questions ≡ ok raw
      → an + ns + ar ≡ 4
      → add lower inet_ntoa
          (response i i' f f' (length questions) an ns ar raw (answers_of a) s)
          (init lower inet_ntoa a.service)
        ≡ ok (heard a)
  unfolding add
  add-heard a i i' f f' an ns ar qclass questions raw s h fits encoded counts =
      let msg = response i i' f f' (length questions) an ns ar raw (answers_of a) s in
      let header =
        i
        ∷ i'
        ∷ f
        ∷ f'
        ∷ (high_low (length questions) ++ high_low an ++ high_low ns ++ high_low ar) in
      let start : length (header ++ raw) ≡ 12 + length raw =
        omega (arith, length-append header raw) in
      let layout : msg ≡ (header ++ raw) ++ (bytes_of_all (answers_of a) ++ s) =
        sym (append_assoc header raw (bytes_of_all (answers_of a) ++ s)) in
      let parsed =
        parse_response-records_at i i' f f' an ns ar qclass questions raw (answers_of a) s fits
          encoded (answers-AreAnswers a h) counts in
      let added =
        add_records_of_advert msg a (length (header ++ raw)) _ _ h
          (instance_read a h (header ++ raw) s msg layout)
          (host_read a h (header ++ raw) s msg layout) in
      rw (parsed, ← start) added

  missing_of_known :
      (c : Collector) (name : Text) (port : ℕ) (target : Text) (txt : Dict.Dict Text Text)
      (address : Text)
      → lookup lower inet_ntoa c.srv name ≡ some (port, target)
      → lookup lower inet_ntoa c.txt name ≡ some txt
      → Dict.get (lower target) c.addresses ≡ some (address ∷ [])
      → missing_of lower inet_ntoa c name ≡ []
  unfolding missing_of
  missing_of_known c name port target txt address h h' h'' = rw (missing_of, h) (rw (h', h'') refl)

  -- There is nothing left to ask for.
  pub missing-heard : (a : Advert) → missing lower inet_ntoa (heard a) ≡ []
  unfolding missing missing_all sorted_texts insert_text
  missing-heard a =
      let name = plain_name a.instance_name in
      let nothing : missing_of lower inet_ntoa (heard a) name ≡ [] =
        missing_of_known (heard a) name a.port (plain_name a.host) (parse_txt a.txt)
          (inet_ntoa a.ip) (lookup_single name (a.port, plain_name a.host))
          (lookup_single name (parse_txt a.txt))
          (get_single (lower (plain_name a.host)) (inet_ntoa a.ip ∷ [])) in
      rw nothing refl

  -- A collector for the service that hears the response lists this one instance.
  add-services_heard :
      (a : Advert) (i i' f f' an ns ar qclass : ℕ) (questions : List (Text × ℕ)) (raw s : Bytes)
      → IsAdvert a
      → FitQuestions questions
      → encode_questions qclass questions ≡ ok raw
      → an + ns + ar ≡ 4
      → (do
        c ←
            add lower inet_ntoa
              (response i i' f f' (length questions) an ns ar raw (answers_of a) s)
              (init lower inet_ntoa a.service)
        ok (services lower inet_ntoa c))
        ≡ ok (service_of_advert a ∷ [])
  add-services_heard a i i' f f' an ns ar qclass questions raw s h fits encoded counts =
      rw (add-heard a i i' f f' an ns ar qclass questions raw s h fits encoded counts)
        (ap ok (services_heard a))
