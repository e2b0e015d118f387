-- ===== src/Mdns/Browse/Frugal.antt =====
-- A browse of src/ddmp/discovery.py does not repeat its follow-up questions.
use dometic_ddmp.Base.{
  ◌≡◌, refl, sym, ap, ◌∙◌, Bool, true, false, inl, inr, ◌⊎◌, List, [], ◌∷◌, ◌++◌, append_assoc,
  append-nil, All, Bool-cases, arith,
}
use dometic_ddmp.Bytes.{Bytes}
use dometic_ddmp.Result.{ok, >>=-eq-ok}
use dometic_ddmp.Text.{Text}
use dometic_ddmp.Mdns.Message.{build_query}
use dometic_ddmp.Mdns.Collector.{add, missing}
use dometic_ddmp.Mdns.Browse.{
  Question, Heard, silence, failure, answer, Turn, Browse, has_question, not_asked, send_query,
  send_due, hear, browse_loop, browse,
}

abbrev concat : List (List Question) → List Question
concat [] = []
concat (qs ∷ qss) = qs ++ concat qss

List-cases : (ts : List Text) → (ts ≡ []) ⊎ ((u : Text) × (us : List Text) × (ts ≡ u ∷ us))
List-cases [] = inl refl
List-cases (u ∷ us) = inr (u, us, refl)

-- No query has a question that is in `so_far` or in a query before it.
abbrev pub Apart : List Question → List (List Question) → Type 0
Apart so_far [] = Unit
Apart so_far (qs ∷ rest) = All (λ q. has_question q so_far ≡ false) qs × Apart (so_far ++ qs) rest

not_asked-All :
    (asked qs : List Question) → All (λ q. has_question q asked ≡ false) (not_asked asked qs)
unfolding not_asked
not_asked-All asked [] = tt
not_asked-All asked (q ∷ qs) = elim (Bool-cases (has_question q asked)) [
  | inl known ↦ rw (not_asked, known) (not_asked-All asked qs)
  | inr new ↦ rw (not_asked, new) (new, not_asked-All asked qs)
]

concat-append :
    (qss : List (List Question)) (qs : List Question) → concat (qss ++ qs ∷ []) ≡ concat qss ++ qs
concat-append [] qs = append-nil qs
concat-append (rs ∷ qss) qs =
    ap (λ l. rs ++ l) (concat-append qss qs) ∙ sym (append_assoc rs (concat qss) qs)

Apart-append :
    (so_far : List Question) (qss : List (List Question)) (qs : List Question)
    → Apart so_far qss
    → All (λ q. has_question q (so_far ++ concat qss) ≡ false) qs
    → Apart so_far (qss ++ qs ∷ [])
Apart-append so_far [] qs h new = (rw (append-nil so_far) at new, tt)
Apart-append so_far (rs ∷ qss) qs h new = (
  h.0,
  Apart-append (so_far ++ rs) qss qs h.1 (rw (sym (append_assoc so_far rs (concat qss))) at new),
)

-- `asked` holds the questions of the queries, and no query repeats one.
record IsFrugal (b : Browse) : Type 0 where
  pub asked : concat b.sent ≡ b.asked
  pub apart : Apart [] b.sent

grow-IsFrugal :
    (b : Browse) (qs : List Question)
    → All (λ q. has_question q b.asked ≡ false) qs
    → IsFrugal b
    → IsFrugal (record b { asked = b.asked ++ qs; sent = b.sent ++ qs ∷ [] })
grow-IsFrugal b qs new h = record {
  asked = concat-append b.sent qs ∙ ap (λ l. l ++ qs) h.asked;
  apart = Apart-append [] b.sent qs h.apart (rw h.asked new);
}

browse_again-IsFrugal : (b : Browse) → IsFrugal b → IsFrugal (record b { sent = b.sent ++ [] ∷ [] })
browse_again-IsFrugal b h = record {
  asked = concat-append b.sent [] ∙ append-nil (concat b.sent) ∙ h.asked;
  apart = Apart-append [] b.sent [] h.apart tt;
}

send_query_nothing :
    (unicast : Bool) (b b' : Browse)
    → send_query unicast b [] ≡ ok b'
    → (b' ≡ b) ⊎ (b' ≡ record b { sent = b.sent ++ [] ∷ [] })
unfolding send_query
send_query_nothing unicast b b' h = elim (List-cases b.collector.instances) [
  | inl none_yet ↦ inr (ground (arith, rw none_yet at h))
  | inr (name, names, some_known) ↦ inl (ground (arith, rw some_known at h))
]

send_query-IsFrugal :
    (unicast : Bool) (b b' : Browse) (qs : List Question)
    → All (λ q. has_question q b.asked ≡ false) qs
    → send_query unicast b qs ≡ ok b'
    → IsFrugal b
    → IsFrugal b'
unfolding send_query
send_query-IsFrugal unicast b b' [] new h frugal = elim (send_query_nothing unicast b b' h) [
  | inl same_browse ↦ rw same_browse frugal
  | inr again ↦ rw again (browse_again-IsFrugal b frugal)
]
send_query-IsFrugal unicast b b' (q ∷ qs) new h frugal =
    let (query, built, sent) = >>=-eq-ok (build_query [] unicast (q ∷ qs)) _ h in
    let grown : b' ≡ record b { asked = b.asked ++ q ∷ qs; sent = b.sent ++ (q ∷ qs) ∷ [] } =
      ground arith in
    rw grown (grow-IsFrugal b (q ∷ qs) new frugal)

module _ (lower : Text → Text) (inet_ntoa : Bytes → Text) where
  send_due-IsFrugal :
      (unicast due : Bool) (b b' : Browse)
      → send_due lower inet_ntoa unicast due b ≡ ok b'
      → IsFrugal b
      → IsFrugal b'
  unfolding send_due
  send_due-IsFrugal unicast false b b' h frugal =
      let same_browse : b' ≡ b = ground arith in rw same_browse frugal
  send_due-IsFrugal unicast true b b' h frugal =
      send_query-IsFrugal unicast b b' _
        (not_asked-All b.asked (missing lower inet_ntoa b.collector)) h frugal

  hear-IsFrugal :
      (heard : Heard) (b b' : Browse) (more : Bool)
      → hear lower inet_ntoa heard b ≡ ok (b', more)
      → IsFrugal b
      → IsFrugal b'
  unfolding hear
  hear-IsFrugal silence b b' more h frugal =
      let same_browse : b' ≡ b = ground arith in rw same_browse frugal
  hear-IsFrugal failure b b' more h frugal =
      let same_browse : b' ≡ b = ground arith in rw same_browse frugal
  hear-IsFrugal (answer msg) b b' more h frugal =
      let (c, added, kept) = >>=-eq-ok (add lower inet_ntoa msg b.collector) _ h in
      let heard : b' ≡ record b { collector = c } = ground arith in
      rw heard (record { asked = frugal.asked; apart = frugal.apart })

  browse_loop-IsFrugal :
      (unicast : Bool) (ts : List Turn) (b b' : Browse)
      → browse_loop lower inet_ntoa unicast ts b ≡ ok b'
      → IsFrugal b
      → IsFrugal b'
  unfolding browse_loop
  browse_loop-IsFrugal unicast [] b b' h frugal =
      let same_browse : b' ≡ b = ground arith in rw same_browse frugal
  browse_loop-IsFrugal unicast (t ∷ ts) b b' h frugal =
      let (asking, sent, h1) = >>=-eq-ok (send_due lower inet_ntoa unicast t.due b) _ h in
      let ((next, more), heard, h2) = >>=-eq-ok (hear lower inet_ntoa t.heard asking) _ h1 in
      let frugal' =
        hear-IsFrugal t.heard asking next more heard
          (send_due-IsFrugal unicast t.due b asking sent frugal) in
      elim (Bool-cases more) [
        | inl on ↦ browse_loop-IsFrugal unicast ts next b' (rw on at h2) frugal'
        | inr off ↦
            let same_browse : b' ≡ next = ground (arith, rw off at h2) in rw same_browse frugal'
      ]

  -- Whatever is received and whenever it is time to send, a browse that does not raise sends no
  -- follow-up question in two of its queries.
  pub browse-Apart :
      (service : Text) (unicast : Bool) (turns : List Turn) (b : Browse)
      → browse lower inet_ntoa service unicast turns ≡ ok b
      → Apart [] b.sent
  unfolding browse
  browse-Apart service unicast turns b h =
      let (query, built, looped) = >>=-eq-ok (build_query service unicast []) _ h in
      (browse_loop-IsFrugal unicast turns _ b looped
        (record { asked = refl; apart = (tt, tt) })).apart
