-- ===== src/Mdns/Adverts.antt =====
-- The four records that advertise a service to `browse` of src/ddmp/discovery.py.
use dometic_ddmp.Base.{
  ℕ, ◌+◌, ◌≡◌, sym, ap, ◌∙◌, List, [], ◌∷◌, ◌++◌, length, length-append, append_assoc, append-nil,
  All, text_eq, arith,
}
use dometic_ddmp.Bytes.{Bytes}
use dometic_ddmp.Result.{ok}
use dometic_ddmp.Text.{Text, split}
use dometic_ddmp.Mdns.Message.{encode_name, name_at}
use dometic_ddmp.Mdns.RoundTrip.{Fits, name_at-encode_name}
use dometic_ddmp.Mdns.Answers.{Answer, IsAnswer, plain_name, high_low, bytes_of, bytes_of_all}

-- A name inside the data of a record is read where it stands.
pub name_in_rdata :
    (pre s u v encoded msg : Bytes) (a : Answer) (name : Text) (i : ℕ)
    → All Fits (split b'.' (plain_name name))
    → encode_name name ≡ ok encoded
    → length a.class_ttl ≡ 6
    → a.rdata ≡ u ++ (encoded ++ v)
    → msg ≡ pre ++ (bytes_of a ++ s)
    → i ≡ length pre + length a.encoded + 10 + length u
    → name_at msg i ≡ ok (plain_name name, i + length encoded)
name_in_rdata pre s u v encoded msg a name i fits named six shape layout place =
    let front = a.encoded ++ (high_low a.rtype ++ (a.class_ttl ++ high_low (length a.rdata))) in
    let behind = encoded ++ (v ++ s) in
    let split_rdata : a.rdata ++ s ≡ u ++ behind =
      ap (λ bs. bs ++ s) shape
      ∙ append_assoc u (encoded ++ v) s
      ∙ ap (◌++◌ u) (append_assoc encoded v s) in
    let split_bytes : bytes_of a ++ s ≡ front ++ (a.rdata ++ s) =
      ap (λ bs. bs ++ s)
        (ap (λ bs. a.encoded ++ (high_low a.rtype ++ bs))
            (sym (append_assoc a.class_ttl (high_low (length a.rdata)) a.rdata))
          ∙ sym (
              append_assoc a.encoded
                (high_low a.rtype ++ (a.class_ttl ++ high_low (length a.rdata))) a.rdata))
      ∙ append_assoc front a.rdata s in
    let whole : msg ≡ ((pre ++ front) ++ u) ++ behind =
      layout
      ∙ ap (◌++◌ pre) (split_bytes ∙ ap (◌++◌ front) split_rdata)
      ∙ sym (append_assoc pre front (u ++ behind))
      ∙ sym (append_assoc (pre ++ front) u behind) in
    let here : i ≡ length ((pre ++ front) ++ u) =
      place
      ∙ omega (
        arith,
        six,
        length-append (pre ++ front) u,
        length-append pre front,
        length-append a.encoded (high_low a.rtype ++ (a.class_ttl ++ high_low (length a.rdata))),
        length-append a.class_ttl (high_low (length a.rdata)),
      ) in
    rw (whole, here) (name_at-encode_name name encoded ((pre ++ front) ++ u) (v ++ s) fits named)

-- What a cooler says of itself: its instance of a service, the port and the host that it runs on, with
-- the four bytes of priority and weight before the port, its texts, and the address of the host.
pub record Advert : Type 0 where
  pub service : Text
  pub instance_name : Text
  pub host : Text
  pub service_bytes : Bytes
  pub instance_bytes : Bytes
  pub host_bytes : Bytes
  pub class_ttl : Bytes
  pub rank : Bytes
  pub port : ℕ
  pub txt : Bytes
  pub ip : Bytes

pub record IsAdvert (a : Advert) : Type 0 where
  pub service :
      All Fits (split b'.' (plain_name a.service)) × (encode_name a.service ≡ ok a.service_bytes)
  pub instance_name :
      All Fits (split b'.' (plain_name a.instance_name))
      × (encode_name a.instance_name ≡ ok a.instance_bytes)
  pub host : All Fits (split b'.' (plain_name a.host)) × (encode_name a.host ≡ ok a.host_bytes)
  pub six : length a.class_ttl ≡ 6
  pub rank : length a.rank ≡ 4
  pub ip : length a.ip ≡ 4

abbrev pub answer : Text → Bytes → ℕ → Bytes → Bytes → Answer
answer name encoded rtype class_ttl rdata = record {
  name = name;
  encoded = encoded;
  rtype = rtype;
  class_ttl = class_ttl;
  rdata = rdata;
}

abbrev pub ptr_of : Advert → Answer
ptr_of a = answer a.service a.service_bytes 12 a.class_ttl a.instance_bytes

abbrev pub srv_of : Advert → Answer
srv_of a =
    answer a.instance_name a.instance_bytes 33 a.class_ttl
      (a.rank ++ (high_low a.port ++ a.host_bytes))

abbrev pub txt_of : Advert → Answer
txt_of a = answer a.instance_name a.instance_bytes 16 a.class_ttl a.txt

abbrev pub host_of : Advert → Answer
host_of a = answer a.host a.host_bytes 1 a.class_ttl a.ip

abbrev pub answers_of : Advert → List Answer
answers_of a = ptr_of a ∷ srv_of a ∷ txt_of a ∷ host_of a ∷ []

pub answers-AreAnswers : (a : Advert) → IsAdvert a → All IsAnswer (answers_of a)
answers-AreAnswers a h =
    let named : IsAnswer (srv_of a) = record {
      fits = h.instance_name.0;
      named = h.instance_name.1;
      six = h.six;
    } in
    (
      record { fits = h.service.0; named = h.service.1; six = h.six },
      (
        named,
        (
          record { fits = named.fits; named = named.named; six = named.six },
          (record { fits = h.host.0; named = h.host.1; six = h.six }, tt),
        ),
      ),
    )

-- The names inside the four records are read where the records stand.
module _ (a : Advert) (h : IsAdvert a) (pre s msg : Bytes)
    (layout : msg ≡ pre ++ (bytes_of_all (answers_of a) ++ s)) where
  pub instance_read :
      name_at msg (length pre + length a.service_bytes + 10)
      ≡ ok (
        plain_name a.instance_name,
        length pre + length a.service_bytes + 10 + length a.instance_bytes,
      )
  instance_read =
      let others = bytes_of_all (srv_of a ∷ txt_of a ∷ host_of a ∷ []) in
      name_in_rdata pre (others ++ s) [] [] a.instance_bytes msg (ptr_of a) a.instance_name _
        h.instance_name.0 h.instance_name.1 h.six (sym (append-nil a.instance_bytes))
        (layout ∙ ap (◌++◌ pre) (append_assoc (bytes_of (ptr_of a)) others s)) (omega arith)

  pub host_read :
      name_at msg (length pre + length (bytes_of (ptr_of a)) + length a.instance_bytes + 10 + 6)
      ≡ ok (
        plain_name a.host,
        length pre
            + length (bytes_of (ptr_of a))
            + length a.instance_bytes
            + 10
            + 6
            + length a.host_bytes,
      )
  host_read =
      let first = bytes_of (ptr_of a) in
      let others = bytes_of_all (srv_of a ∷ txt_of a ∷ host_of a ∷ []) in
      let last = bytes_of_all (txt_of a ∷ host_of a ∷ []) in
      let behind_first : msg ≡ (pre ++ first) ++ (bytes_of (srv_of a) ++ (last ++ s)) =
        layout
        ∙ ap (◌++◌ pre) (append_assoc first others s)
        ∙ ap (λ bs. pre ++ (first ++ bs)) (append_assoc (bytes_of (srv_of a)) last s)
        ∙ sym (append_assoc pre first (bytes_of (srv_of a) ++ (last ++ s))) in
      let shape : (srv_of a).rdata ≡ (a.rank ++ high_low a.port) ++ (a.host_bytes ++ []) =
        ap (λ bs. a.rank ++ (high_low a.port ++ bs)) (sym (append-nil a.host_bytes))
        ∙ sym (append_assoc a.rank (high_low a.port) (a.host_bytes ++ [])) in
      name_in_rdata (pre ++ first) (last ++ s) (a.rank ++ high_low a.port) [] a.host_bytes msg
        (srv_of a) a.host _ h.host.0 h.host.1 h.six shape behind_first
        (omega (arith, h.rank, length-append pre first, length-append a.rank (high_low a.port)))
