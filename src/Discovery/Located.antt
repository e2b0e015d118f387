-- ===== src/Discovery/Located.antt =====
-- `find_cooler` of src/ddmp/discovery.py where one cooler advertises itself and answers the probes.
use dometic_ddmp.Base.{
  ℕ, ◌+◌, ◌≡◌, refl, sym, ap, ◌∙◌, true, Bool, some, List, [], ◌∷◌, ◌++◌, length, same, same_iff,
  text_eq, All,
}
use dometic_ddmp.Base.Dict
use dometic_ddmp.Base.Dict.{Dict}
use dometic_ddmp.Bytes.{Bytes}
use dometic_ddmp.Result.{ok}
use dometic_ddmp.Text.{Text, codes, before_first}
use dometic_ddmp.Mdns.Message.{encode_questions}
use dometic_ddmp.Mdns.Collector.{MdnsService}
use dometic_ddmp.Mdns.Responses.{FitQuestions, response}
use dometic_ddmp.Mdns.Adverts.{Advert, IsAdvert, answers_of}
use dometic_ddmp.Mdns.Answers.{plain_name}
use dometic_ddmp.Mdns.Advertised.{service_of_advert}
use dometic_ddmp.Mdns.Browse.{Turn, answer, query_mdns}
use dometic_ddmp.Mdns.Browse.Found.{IsSilent, query_mdns-heard}
use dometic_ddmp.Discovery.{
  DdmdReply, Discovered, Network, merge, text_or, after_last, last_six, from_reply, from_service,
  option_or, of_service, of_services, of_hosts, finds, sorted, insert, normalize_id, short_id_of,
  matches, key_of, key, remember, remember_all, merged, discover, first_match, find_cooler,
}

-- The entry of a cooler that a probe, the browse and the broadcast find.
abbrev pub located : MdnsService → DdmdReply → DdmdReply → Discovered
located svc probed heard =
    merge (merge (from_reply probed (codes "probe")) (from_service svc))
      (from_reply heard (codes "broadcast"))

same_refl : (t : Text) → same t t ≡ true
same_refl t = (same_iff t t).1 refl

finds_of_one :
    (net : Network) (svc : MdnsService) (c : ℕ) (ip : Text) (probed heard : DdmdReply)
    → svc.addresses ≡ (c ∷ ip) ∷ []
    → net.services ≡ ok (svc ∷ [])
    → net.probe (c ∷ ip) svc.port ≡ ok (probed ∷ [])
    → net.broadcast_replies ≡ ok (heard ∷ [])
    → finds net true true []
      ≡ ok (
          from_reply probed (codes "probe")
          ∷ from_service svc
          ∷ from_reply heard (codes "broadcast")
          ∷ [])
unfolding finds of_services of_service of_hosts option_or
finds_of_one net svc c ip probed heard address browsed answered called =
    rw (browsed, address, answered, called) refl

module _ (lower : Text → Text) where
  remember_first : (d : Discovered) → remember lower [] d ≡ (key lower d, d) ∷ []
  unfolding remember Dict.get Dict.put
  remember_first d = refl

  remember_again :
      (k : Text) (v e : Discovered)
      → key lower e ≡ k
      → remember lower ((k, v) ∷ []) e ≡ (k, merge v e) ∷ []
  unfolding remember Dict.get Dict.put
  remember_again k v e same_key =
      let h : same k (key lower e) ≡ true = (same_iff k (key lower e)).1 (sym same_key) in
      rw (remember, h) (rw (Dict.put, h) refl)

  -- Three finds with one key become one entry.
  merged_three :
      (d e f : Discovered)
      → key lower e ≡ key lower d
      → key lower f ≡ key lower d
      → merged lower (d ∷ e ∷ f ∷ []) ≡ merge (merge d e) f ∷ []
  unfolding merged remember_all sorted insert
  merged_three d e f same_key same_key' =
      rw
        (
          remember_first d,
          remember_again (key lower d) d e same_key,
          remember_again (key lower d) (merge d e) f same_key',
        )
        refl

  key_of_reply :
      (r : DdmdReply) (source : Text) (x y : ℕ) (id tail : Text)
      → r.cooler_id ≡ x ∷ id
      → last_six (x ∷ id) ≡ y ∷ tail
      → key lower (from_reply r source) ≡ y ∷ tail
  unfolding key from_reply text_or key_of short_id_of
  key_of_reply r source x y id tail own short = rw (own, short) refl

  key_of_service :
      (svc : MdnsService) (y : ℕ) (tail : Text)
      → lower (after_last b'_' (from_service svc).name (from_service svc).name) ≡ y ∷ tail
      → key lower (from_service svc) ≡ y ∷ tail
  unfolding key text_or from_service key_of short_id_of
  key_of_service svc y tail short = rw short refl

  -- The entry answers to the identifier of the reply to the probe.
  matches-located :
      (svc : MdnsService) (probed heard : DdmdReply) (wanted : Text) (x : ℕ) (id : Text)
      → probed.cooler_id ≡ x ∷ id
      → normalize_id lower wanted ≡ x ∷ id
      → matches lower (located svc probed heard) wanted ≡ true
  unfolding matches merge from_reply text_or
  matches-located svc probed heard wanted x id own named = rw (own, named, same_refl (x ∷ id)) refl

  first_match_single :
      (d : Discovered) (wanted : Text)
      → matches lower d wanted ≡ true
      → first_match lower wanted (d ∷ []) ≡ some d
  unfolding first_match
  first_match_single d wanted h = rw h refl

  -- However texts are put in lower case: if the browse finds one service with one address, one reply
  -- from this address and port and one to the broadcast have the same identifier, and the last six
  -- characters of it are what the name of the service's host ends in, then `find_cooler` of a text that
  -- is normalised to the identifier returns the one entry that the three finds merge into.
  pub find_cooler-located :
      (net : Network) (svc : MdnsService) (probed heard : DdmdReply) (wanted : Text) (c x y : ℕ)
      (ip id tail : Text)
      → net.services ≡ ok (svc ∷ [])
      → svc.addresses ≡ (c ∷ ip) ∷ []
      → net.probe (c ∷ ip) svc.port ≡ ok (probed ∷ [])
      → net.broadcast_replies ≡ ok (heard ∷ [])
      → probed.cooler_id ≡ x ∷ id
      → heard.cooler_id ≡ x ∷ id
      → last_six (x ∷ id) ≡ y ∷ tail
      → lower (after_last b'_' (from_service svc).name (from_service svc).name) ≡ y ∷ tail
      → normalize_id lower wanted ≡ x ∷ id
      → find_cooler lower net wanted [] ≡ ok (some (located svc probed heard))
  unfolding find_cooler discover
  find_cooler-located net svc probed heard wanted c x y ip id tail browsed address answered called
        own own' short short' named =
      let key' = key_of_reply probed (codes "probe") x y id tail own short in
      let merged_one =
        merged_three (from_reply probed (codes "probe")) (from_service svc)
          (from_reply heard (codes "broadcast")) (key_of_service svc y tail short' ∙ sym key')
          (key_of_reply heard (codes "broadcast") x y id tail own' short ∙ sym key') in
      rw (finds_of_one net svc c ip probed heard address browsed answered called, merged_one)
        (ap ok (
          first_match_single (located svc probed heard) wanted
            (matches-located svc probed heard wanted x id own named)))

  -- However texts are put in lower case, whatever `inet_ntoa` does and whenever it is time to send: if
  -- the browse hears one response that advertises a service as `IsAdvert` says and nothing else, its
  -- address is not empty, one reply from this address and port and one to the broadcast have the same
  -- identifier, and the last six characters of it are what the first label of the service's host ends
  -- in, then `find_cooler` of a text that is normalised to the identifier returns the one entry that the
  -- three finds merge into.
  pub find_cooler-query_mdns :
      (inet_ntoa : Bytes → Text) (a : Advert) (i i' f f' an ns ar qclass : ℕ)
      (questions : List (Text × ℕ)) (raw s : Bytes) (unicast : Bool) (before after : List Turn)
      (t : Turn) (net : Network) (probed heard : DdmdReply) (wanted : Text) (c x y : ℕ)
      (ip id tail : Text)
      → IsAdvert a
      → FitQuestions questions
      → encode_questions qclass questions ≡ ok raw
      → an + ns + ar ≡ 4
      → All IsSilent before
      → All IsSilent after
      → t.heard ≡ answer (response i i' f f' (length questions) an ns ar raw (answers_of a) s)
      → net.services ≡ query_mdns lower inet_ntoa a.service unicast (before ++ t ∷ after)
      → inet_ntoa a.ip ≡ c ∷ ip
      → net.probe (c ∷ ip) a.port ≡ ok (probed ∷ [])
      → net.broadcast_replies ≡ ok (heard ∷ [])
      → probed.cooler_id ≡ x ∷ id
      → heard.cooler_id ≡ x ∷ id
      → last_six (x ∷ id) ≡ y ∷ tail
      → (let name = before_first b'.' (plain_name a.host) in lower (after_last b'_' name name))
        ≡ y ∷ tail
      → normalize_id lower wanted ≡ x ∷ id
      → find_cooler lower net wanted []
        ≡ ok (some (located (service_of_advert lower inet_ntoa a) probed heard))
  find_cooler-query_mdns inet_ntoa a i i' f f' an ns ar qclass questions raw s unicast before after
        t net probed heard wanted c x y ip id tail h fits encoded counts quiet quiet' said browsed
        address answered called own own' short short' named =
      find_cooler-located net (service_of_advert lower inet_ntoa a) probed heard wanted c x y ip id
        tail
        (browsed
          ∙ query_mdns-heard lower inet_ntoa a i i' f f' an ns ar qclass questions raw s unicast
              before after t h fits encoded counts quiet quiet' said)
        (ap (λ address. address ∷ []) address) answered called own own' short
        (unfold from_service in short') named
