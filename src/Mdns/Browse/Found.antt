-- ===== src/Mdns/Browse/Found.antt =====
-- A browse of src/ddmp/discovery.py that hears one response which advertises a service.
use dometic_ddmp.Base.{
  ℕ, ◌+◌, ◌≡◌, refl, ap, ◌∙◌, Bool, true, false, inl, inr, List, [], ◌∷◌, ◌++◌, length, All, arith,
}
use dometic_ddmp.Bytes.{Bytes}
use dometic_ddmp.Result.{ok, Result-cases}
use dometic_ddmp.Text.{Text}
use dometic_ddmp.Mdns.Message.{build_query, encode_name, encode_questions, pack16}
use dometic_ddmp.Mdns.Collector.{Collector, init, add, missing, missing_all, sorted_texts, services}
use dometic_ddmp.Mdns.Responses.{FitQuestions, response}
use dometic_ddmp.Mdns.Adverts.{Advert, IsAdvert, answers_of}
use dometic_ddmp.Mdns.Advertised.{
  service_of_advert, heard, add-heard, missing-heard, services_heard,
}
use dometic_ddmp.Mdns.Browse.{
  Turn, silence, answer, Browse, not_asked, send_query, send_due, hear, browse_loop, browse,
  query_mdns,
}

-- Nothing is received in the turn.
abbrev pub IsSilent : Turn → Type 0
IsSilent t = t.heard ≡ silence

module _ (lower : Text → Text) (inet_ntoa : Bytes → Text) where
  send_for :
      (unicast : Bool) (b : Browse) (names : List Text)
      → b.collector.instances ≡ names
      → (b' : Browse) × (send_query unicast b [] ≡ ok b') × (b'.collector ≡ b.collector)
  unfolding send_query
  send_for unicast b [] e = (record b { sent = b.sent ++ [] ∷ [] }, ground (arith, e), refl)
  send_for unicast b (name ∷ names) e = (b, ground (arith, e), refl)

  send_nothing :
      (unicast : Bool) (b : Browse)
      → (b' : Browse) × (send_query unicast b [] ≡ ok b') × (b'.collector ≡ b.collector)
  send_nothing unicast b = send_for unicast b b.collector.instances refl

  send_due_idle :
      (unicast due : Bool) (b : Browse)
      → missing lower inet_ntoa b.collector ≡ []
      → (b' : Browse) × (send_due lower inet_ntoa unicast due b ≡ ok b')
        × (b'.collector ≡ b.collector)
  unfolding send_due not_asked
  send_due_idle unicast true b h =
      let (b', sent, same) = send_nothing unicast b in (b', rw (send_due, h) sent, same)
  send_due_idle unicast false b h = (b, refl, refl)

  -- Turns in which nothing is received change nothing of what is known.
  stays :
      (unicast : Bool) (turns : List Turn) (b : Browse)
      → All IsSilent turns
      → missing lower inet_ntoa b.collector ≡ []
      → (b' : Browse) × (browse_loop lower inet_ntoa unicast turns b ≡ ok b')
        × (b'.collector ≡ b.collector)
  unfolding browse_loop hear
  stays unicast [] b quiet h = (b, refl, refl)
  stays unicast (t ∷ turns) b quiet h =
      let (asking, sent, same) = send_due_idle unicast t.due b h in
      let (b', rest, same') = stays unicast turns asking quiet.1 (rw same h) in
      (b', rw (sent, quiet.0) rest, same' ∙ same)

  hears :
      (unicast : Bool) (before after : List Turn) (t : Turn) (msg : Bytes) (b : Browse)
      (c : Collector)
      → All IsSilent before
      → All IsSilent after
      → t.heard ≡ answer msg
      → missing lower inet_ntoa b.collector ≡ []
      → add lower inet_ntoa msg b.collector ≡ ok c
      → missing lower inet_ntoa c ≡ []
      → (b' : Browse) × (browse_loop lower inet_ntoa unicast (before ++ t ∷ after) b ≡ ok b')
        × (b'.collector ≡ c)
  unfolding browse_loop hear
  hears unicast [] after t msg b c quiet quiet' said h added h' =
      let (asking, sent, same) = send_due_idle unicast t.due b h in
      let added' : add lower inet_ntoa msg asking.collector ≡ ok c = rw same added in
      let (b', rest, same') = stays unicast after (record asking { collector = c }) quiet' h' in
      (b', rw (sent, said) (rw added' rest), same')
  hears unicast (u ∷ before) after t msg b c quiet quiet' said h added h' =
      let (asking, sent, same) = send_due_idle unicast u.due b h in
      let (b', rest, same') =
        hears unicast before after t msg asking c quiet.1 quiet' said (rw same h) (rw same added)
          h' in
      (b', rw (sent, quiet.0) rest, same')

  query_made :
      (service : Text) (encoded : Bytes) (unicast : Bool)
      → encode_name service ≡ ok encoded
      → (query : Bytes) × (build_query service unicast [] ≡ ok query)
  unfolding build_query encode_questions pack16
  query_made service encoded unicast h = elim (Result-cases (build_query service unicast [])) [
    | inl made ↦ made
    | inr (x, refused) ↦ absurd (let refused' = rw (build_query, h) at refused in ground arith)
  ]

  missing-init : (service : Text) → missing lower inet_ntoa (init lower inet_ntoa service) ≡ []
  unfolding missing missing_all sorted_texts init
  missing-init service = refl

  -- Whatever `lower` and `inet_ntoa` do, whenever it is time to send, and whatever questions a response
  -- repeats and whatever stands behind its records: where its counts are right, its names have labels
  -- that fit, and its four records are the pointer from the service to an instance, the instance's port
  -- and host, its texts and the host's address, a browse for that service that hears this response and
  -- nothing else returns this one instance, with the port, the host, the texts and the address.
  pub query_mdns-heard :
      (a : Advert) (i i' f f' an ns ar qclass : ℕ) (questions : List (Text × ℕ)) (raw s : Bytes)
      (unicast : Bool) (before after : List Turn) (t : Turn)
      → IsAdvert a
      → FitQuestions questions
      → encode_questions qclass questions ≡ ok raw
      → an + ns + ar ≡ 4
      → All IsSilent before
      → All IsSilent after
      → t.heard ≡ answer (response i i' f f' (length questions) an ns ar raw (answers_of a) s)
      → query_mdns lower inet_ntoa a.service unicast (before ++ t ∷ after)
        ≡ ok (service_of_advert lower inet_ntoa a ∷ [])
  unfolding query_mdns browse
  query_mdns-heard a i i' f f' an ns ar qclass questions raw s unicast before after t h fits encoded
        counts quiet quiet' said =
      let msg = response i i' f f' (length questions) an ns ar raw (answers_of a) s in
      let first : Browse = record {
        collector = init lower inet_ntoa a.service;
        asked = [];
        sent = [] ∷ [];
      } in
      let (query, made) = query_made a.service a.service_bytes unicast h.service.1 in
      let added =
        add-heard lower inet_ntoa a i i' f f' an ns ar qclass questions raw s h fits encoded
          counts in
      let (b, browsed, same) =
        hears unicast before after t msg first (heard lower inet_ntoa a) quiet quiet' said
          (missing-init a.service) added (missing-heard lower inet_ntoa a) in
      rw (made, browsed)
        (ap (λ c. ok (services lower inet_ntoa c)) same ∙ ap ok (services_heard lower inet_ntoa a))
