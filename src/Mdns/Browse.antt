-- ===== src/Mdns/Browse.antt =====
-- `query_mdns` of src/ddmp/discovery.py: the queries of one browse, and the answers to them.
pub mod Frugal
pub mod Found
use dometic_ddmp.Base.{
  ℕ, ◌≡◌, refl, sym, ap, ◌∙◌, Bool, true, false, ◌&&◌, ◌||◌, inl, inr, ◌⊎◌, List, [], ◌∷◌, ◌++◌,
  append_assoc, append-nil, same, ◌==◌, All, Bool-cases, if◌then◌else◌, arith,
}
use dometic_ddmp.Bytes.{Bytes}
use dometic_ddmp.Result.{Result, ok, err, Result-cases, ◌>>=◌, >>=-eq-ok}
use dometic_ddmp.Text.{Text}
use dometic_ddmp.Mdns.Message.{build_query}
use dometic_ddmp.Mdns.Collector.{MdnsService, Collector, init, add, services, missing}

-- A question: a name and a record type.
abbrev pub Question : Type 0
Question = Text × ℕ

-- What one turn of the loop finds: whether it is time to send, and what `recvfrom` does. The turns end
-- when the time is up.
pub data Heard : Type 0 where
  silence failure : Heard
  answer : Bytes → Heard

pub record Turn : Type 0 where
  pub due : Bool
  pub heard : Heard

-- `asked` is a set, kept as a list; `sent` has the follow-up questions of each query that was sent, none
-- for one that browses.
pub record Browse : Type 0 where
  pub collector : Collector
  pub asked : List Question
  pub sent : List (List Question)

-- `q in asked`
unfoldable pub has_question : Question → List Question → Bool
has_question q [] = false
has_question q (r ∷ asked) = same q.0 r.0 && q.1 == r.1 || has_question q asked

-- `[q for q in questions if q not in asked]`
unfoldable pub not_asked : List Question → List Question → List Question
not_asked asked [] = []
not_asked asked (q ∷ qs) =
    let rest = not_asked asked qs in if has_question q asked then rest else q ∷ rest

-- The query of a turn, with the follow-up questions that have not been asked.
unfoldable pub send_query : Bool → Browse → List Question → Result Browse
send_query unicast b [] = elim b.collector.instances [
  | [] ↦ ok (record b { sent = b.sent ++ [] ∷ [] })
  | name ∷ names ↦ ok b
]
send_query unicast b (q ∷ qs) = do
  query ← build_query [] unicast (q ∷ qs)
  ok (record b { asked = b.asked ++ q ∷ qs; sent = b.sent ++ (q ∷ qs) ∷ [] })

module _ (lower : Text → Text) (inet_ntoa : Bytes → Text) where
  unfoldable pub send_due : Bool → Bool → Browse → Result Browse
  send_due unicast due b =
      if due
      then send_query unicast b (not_asked b.asked (missing lower inet_ntoa b.collector))
      else ok b

  -- What was received, and whether the loop goes on.
  unfoldable pub hear : Heard → Browse → Result (Browse × Bool)
  hear silence b = ok (b, true)
  hear failure b = ok (b, false)
  hear (answer msg) b = do
    c ← add lower inet_ntoa msg b.collector
    ok (record b { collector = c }, true)

  -- The `while` loop.
  unfoldable pub browse_loop : Bool → List Turn → Browse → Result Browse
  browse_loop unicast [] b = ok b
  browse_loop unicast (t ∷ ts) b = do
    asking ← send_due unicast t.due b
    (next, more) ← hear t.heard asking
    let rest = browse_loop unicast ts next
    if more then rest else ok next

  unfoldable pub browse : Text → Bool → List Turn → Result Browse
  browse service unicast turns = do
    query ← build_query service unicast []
    browse_loop unicast turns
        (record { collector = init lower inet_ntoa service; asked = []; sent = [] ∷ [] })

  -- `query_mdns`
  unfoldable pub query_mdns : Text → Bool → List Turn → Result (List MdnsService)
  query_mdns service unicast turns = do
    b ← browse service unicast turns
    ok (services lower inet_ntoa b.collector)
