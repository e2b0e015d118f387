-- ===== src/Discovery/Replies.antt =====
-- `probe_ddmd` of src/ddmp/discovery.py: the replies to one probe. The JSON library is a
-- parameter.
use dometic_ddmp.Base.{
  ℕ, ℤ, pos, negsuc, ◌≡◌, refl, ◌∙◌, ==_iff, Bool, true, false, not, ◌&&◌, ◌||◌, inl, inr, Option,
  none, some, List, [], ◌∷◌, ◌++◌, same, beq_ℤ, ◌==◌, Bool-cases, text_eq, if◌then◌else◌, arith,
}
use dometic_ddmp.Base.Dict
use dometic_ddmp.Base.Dict.{Dict}
use dometic_ddmp.Bytes.{Bytes, strip}
use dometic_ddmp.Result.{Result, ok, err, value_error, Result-cases, ◌>>=◌}
use dometic_ddmp.Text.{Text, codes, is_space}
use dometic_ddmp.Text.Utf8
use dometic_ddmp.Discovery.{DdmdReply, normalize_id}

-- What one turn of the loop finds in `recvfrom`: a datagram with its sender, nothing in time, or an
-- exception.
pub data Datagram : Type 0 where
  timed_out broken : Datagram
  datagram : Bytes → Text → ℕ → Datagram

-- `reply == other`
unfoldable pub reply_beq : DdmdReply → DdmdReply → Bool
reply_beq r s =
    same r.cooler_id s.cooler_id
    && same r.name s.name
    && same r.sku s.sku
    && beq_ℤ r.version s.version
    && beq_ℤ r.pid s.pid
    && beq_ℤ r.f s.f
    && same r.host s.host
    && r.port == s.port

-- `reply in replies`
unfoldable pub has_reply : DdmdReply → List DdmdReply → Bool
has_reply r [] = false
has_reply r (s ∷ replies) = reply_beq s r || has_reply r replies

-- What the JSON library and `str` and `int` do: an object or another value, or an exception; the text of
-- a value; `int(value or 0)`, which may raise.
pub record Json (J : Type 0) : Type 0 where
  pub loads : Text → Result (Option (Dict Text J))
  pub str_of : J → Text
  pub int_or_zero : J → Result ℤ

module _ {J : Type 0} (json : Json J) (lower : Text → Text) where
  -- `str(obj.get(key, ""))`, `int(obj.get(key, 0) or 0)`
  abbrev text_field : Option J → Text
  text_field none = []
  text_field (some v) = json.str_of v

  abbrev int_field : Option J → Result ℤ
  int_field none = ok (pos 0)
  int_field (some v) = json.int_or_zero v

  -- The reply of an object, where it has an identifier.
  unfoldable pub of_object : Dict Text J → Text → ℕ → Option J → Result (Option DdmdReply)
  of_object obj host port none = ok none
  of_object obj host port (some id) = do
    version ← int_field (Dict.get (codes "version") obj)
    pid ← int_field (Dict.get (codes "pid") obj)
    f ← int_field (Dict.get (codes "f") obj)
    ok (
        some (record {
          cooler_id = normalize_id lower (json.str_of id);
          name = text_field (Dict.get (codes "name") obj);
          sku = strip is_space (text_field (Dict.get (codes "sku") obj));
          version = version;
          pid = pid;
          f = f;
          host = host;
          port = port;
        }))

  -- `DdmdReply.parse`
  unfoldable pub parse : Bytes → Text → ℕ → Result (Option DdmdReply)
  parse payload host port = elim (json.loads (Utf8.decode payload)) [
    | err value_error ↦ ok none
    | err x ↦ err x
    | ok none ↦ ok none
    | ok (some obj) ↦ of_object obj host port (Dict.get (codes "id") obj)
  ]

module _ (parse_reply : Bytes → Text → ℕ → Result (Option DdmdReply)) (first_only : Bool) where
  -- The replies after one that was parsed, and whether the loop goes on.
  unfoldable pub take_reply : List DdmdReply → Option DdmdReply → List DdmdReply × Bool
  take_reply replies none = (replies, true)
  take_reply replies (some r) =
      if has_reply r replies then (replies, true) else (replies ++ r ∷ [], not first_only)

  -- The loop of `probe_ddmd`, until the end of the datagrams that come in time.
  unfoldable pub collect : List DdmdReply → List Datagram → Result (List DdmdReply)
  collect replies [] = ok replies
  collect replies (timed_out ∷ rest) = collect replies rest
  collect replies (broken ∷ rest) = ok replies
  collect replies (datagram raw host port ∷ rest) =
      if same raw (codes "DDMD") then collect replies rest else elim (parse_reply raw host port) [
        | err x ↦ err x
        | ok parsed ↦
            let (replies', more) = take_reply replies parsed in
            if more then collect replies' rest else ok replies'
      ]

  unfoldable pub probe_ddmd : List Datagram → Result (List DdmdReply)
  probe_ddmd datagrams = collect [] datagrams

-- No reply is there twice.
abbrev pub Distinct : List DdmdReply → Type 0
Distinct [] = Unit
Distinct (r ∷ replies) = (has_reply r replies ≡ false) × Distinct replies

==_comm : (a b : ℕ) → (a == b) ≡ (b == a)
==_comm a b = ground (arith, ==_iff a b, ==_iff b a)

same_comm : (s t : Text) → same s t ≡ same t s
same_comm [] [] = refl
same_comm [] (y ∷ t) = refl
same_comm (x ∷ s) [] = refl
same_comm (x ∷ s) (y ∷ t) = rw (==_comm x y, same_comm s t) refl

beq_ℤ_comm : (m n : ℤ) → beq_ℤ m n ≡ beq_ℤ n m
beq_ℤ_comm (pos m) (pos n) = ==_comm m n
beq_ℤ_comm (pos m) (negsuc n) = refl
beq_ℤ_comm (negsuc m) (pos n) = refl
beq_ℤ_comm (negsuc m) (negsuc n) = ==_comm m n

reply_beq_comm : (r s : DdmdReply) → reply_beq r s ≡ reply_beq s r
unfolding reply_beq
reply_beq_comm r s =
    rw
      (
        same_comm r.cooler_id s.cooler_id,
        same_comm r.name s.name,
        same_comm r.sku s.sku,
        beq_ℤ_comm r.version s.version,
        beq_ℤ_comm r.pid s.pid,
        beq_ℤ_comm r.f s.f,
        same_comm r.host s.host,
        ==_comm r.port s.port,
      )
      refl

has_reply-append :
    (x r : DdmdReply) (replies : List DdmdReply)
    → has_reply x (replies ++ r ∷ []) ≡ (has_reply x replies || reply_beq r x)
unfolding has_reply
has_reply-append x r [] = ground arith
has_reply-append x r (s ∷ replies) = ground (arith, has_reply-append x r replies)

Distinct-append :
    (replies : List DdmdReply) (r : DdmdReply)
    → has_reply r replies ≡ false
    → Distinct replies
    → Distinct (replies ++ r ∷ [])
unfolding has_reply
Distinct-append [] r fresh h = (refl, tt)
Distinct-append (s ∷ replies) r fresh h =
    let tests : (reply_beq s r ≡ false) × (has_reply r replies ≡ false) = ground arith in
    (
      has_reply-append s r replies ∙ ground (arith, reply_beq_comm s r, h.0, tests.0),
      Distinct-append replies r tests.1 h.1,
    )

module _ (parse_reply : Bytes → Text → ℕ → Result (Option DdmdReply)) (first_only : Bool) where
  take_reply-Distinct :
      (replies : List DdmdReply) (o : Option DdmdReply)
      → Distinct replies
      → Distinct (take_reply parse_reply first_only replies o).0
  unfolding take_reply
  take_reply-Distinct replies none h = h
  take_reply-Distinct replies (some r) h = elim (Bool-cases (has_reply r replies)) [
    | inl known ↦ rw (take_reply, known) h
    | inr fresh ↦ rw (take_reply, fresh) (Distinct-append replies r fresh h)
  ]

  abbrev pub IsClean : Result (List DdmdReply) → Type 0
  IsClean (ok replies) = Distinct replies
  IsClean (err x) = Unit

  collect-IsClean :
      (replies : List DdmdReply) (datagrams : List Datagram)
      → Distinct replies
      → IsClean (collect parse_reply first_only replies datagrams)
  unfolding collect
  collect-IsClean replies [] h = h
  collect-IsClean replies (timed_out ∷ rest) h = collect-IsClean replies rest h
  collect-IsClean replies (broken ∷ rest) h = h
  collect-IsClean replies (datagram raw host port ∷ rest) h =
      elim (Bool-cases (same raw (codes "DDMD"))) [
        | inl echo ↦ rw (collect, echo) (collect-IsClean replies rest h)
        | inr other ↦ elim (Result-cases (parse_reply raw host port)) [
          | inr (x, e) ↦ rw (collect, other) (rw e tt)
          | inl (parsed, e) ↦
              let kept = take_reply parse_reply first_only replies parsed in
              let h' = take_reply-Distinct replies parsed h in
              elim (Bool-cases kept.1) [
                | inl more ↦ rw (collect, other) (rw e (rw more (collect-IsClean kept.0 rest h')))
                | inr enough ↦ rw (collect, other) (rw e (rw enough h'))
              ]
        ]
      ]

  -- Whatever datagrams come, and however they are parsed, a probe that returns has no reply twice.
  pub probe_ddmd-Distinct :
      (datagrams : List Datagram) (replies : List DdmdReply)
      → probe_ddmd parse_reply first_only datagrams ≡ ok replies
      → Distinct replies
  unfolding probe_ddmd
  probe_ddmd-Distinct datagrams replies h = rw h at (collect-IsClean [] datagrams tt)
