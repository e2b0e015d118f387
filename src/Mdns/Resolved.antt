-- ===== src/Mdns/Resolved.antt =====
-- Where `missing` of src/ddmp/discovery.py asks for nothing, `services` lists every instance in full.
use mathlib.Core.List.{Perm}
use dometic_ddmp.Base.{
  ◌≡◌, ◌≢◌, refl, inl, inr, Option, none, some, List, [], ◌∷◌, ◌++◌, map, All, text_eq,
  Option-cases, arith,
}
use dometic_ddmp.Base.Dict.{Dict}
use dometic_ddmp.Bytes.{Bytes}
use dometic_ddmp.Text.{Text}
use dometic_ddmp.Mdns.Collector.{
  MdnsService, Collector, add_once, unique, sorted_texts, lookup, service_of, services_of, services,
  unresolved_txt, unresolved_host, missing_of, missing_all, missing,
}
use dometic_ddmp.Mdns.Ordered.{AreSorted, sorted_texts-AreSorted, sorted_texts-perm}

append-nil_cases : {A : Type 0} → (xs ys : List A) → xs ++ ys ≡ [] → (xs ≡ []) × (ys ≡ [])
append-nil_cases [] ys h = (refl, h)
append-nil_cases (x ∷ xs) ys h = absurd (ground arith)

add_once_keeps : (so_far : List Text) (t : Text) → add_once t so_far ≢ []
unfolding add_once
add_once_keeps [] t e = absurd (ground arith)
add_once_keeps (u ∷ so_far) t e = absurd (ground arith)

-- The addresses of a service are none only where none were given.
unique_keeps : (so_far ts : List Text) → so_far ≢ [] → unique so_far ts ≢ []
unfolding unique
unique_keeps so_far [] h = h
unique_keeps so_far (t ∷ ts) h = unique_keeps (add_once t so_far) ts (add_once_keeps so_far t)

module _ (lower : Text → Text) (inet_ntoa : Bytes → Text) where
  unresolved_host_keeps :
      (target : Text) (addresses : List Text)
      → unresolved_host lower inet_ntoa target addresses ≡ []
      → unique [] addresses ≢ []
  unfolding unique
  unresolved_host_keeps target [] h = absurd (ground arith)
  unresolved_host_keeps target (a ∷ addresses) h =
      unique_keeps (add_once a []) addresses (add_once_keeps [] a)

  unresolved_txt_knows :
      (name : Text) (o : Option (Dict Text Text))
      → unresolved_txt lower inet_ntoa name o ≡ []
      → (txt : Dict Text Text) × (o ≡ some txt)
  unresolved_txt_knows name none h = absurd (ground arith)
  unresolved_txt_knows name (some txt) h = (txt, refl)

  -- A service whose port, host, texts and addresses the answers gave.
  pub record IsFull (c : Collector) (svc : MdnsService) : Type 0 where
    pub srv : lookup lower inet_ntoa c.srv svc.instance_name ≡ some (svc.port, svc.hostname)
    pub txt : lookup lower inet_ntoa c.txt svc.instance_name ≡ some svc.txt
    pub addresses : svc.addresses ≢ []

  missing_of-IsFull :
      (c : Collector) (name : Text)
      → missing_of lower inet_ntoa c name ≡ []
      → (svc : MdnsService) × (service_of lower inet_ntoa c name ≡ svc ∷ [])
        × (svc.instance_name ≡ name)
        × IsFull c svc
  unfolding missing_of service_of
  missing_of-IsFull c name h = elim (Option-cases (lookup lower inet_ntoa c.srv name)) [
    | inl e ↦ absurd (ground arith)
    | inr ((port, target), e) ↦
        let (no_txt, no_host) = append-nil_cases _ _ (rw (missing_of, e) at h) in
        let (txt, known) = unresolved_txt_knows name (lookup lower inet_ntoa c.txt name) no_txt in
        rw (service_of, e)
          (
            _,
            refl,
            refl,
            record {
              srv = e;
              txt = rw known refl;
              addresses = unresolved_host_keeps target _ no_host;
            },
          )
  ]

  missing_all-IsFull :
      (c : Collector) (names : List Text)
      → missing_all lower inet_ntoa c names ≡ []
      → (map (λ svc. svc.instance_name) (services_of lower inet_ntoa c names) ≡ names)
        × All (IsFull c) (services_of lower inet_ntoa c names)
  unfolding missing_all services_of
  missing_all-IsFull c [] h = (refl, tt)
  missing_all-IsFull c (name ∷ names) h =
      let (none_here, none_later) = append-nil_cases _ _ h in
      let (svc, e, same_name, full) = missing_of-IsFull c name none_here in
      let (rest, all_full) = missing_all-IsFull c names none_later in
      rw e (rw (same_name, rest) refl, (full, all_full))

  -- Where `missing` has no question left, `services` lists every instance that was announced, as often
  -- as it is in `instances`, in the order of `sorted`, in which none stands before a lesser one; each
  -- with its port, host and texts as they were answered, and with an address at least.
  pub missing-IsFull :
      (c : Collector)
      → missing lower inet_ntoa c ≡ []
      → (names : List Text) × (map (λ svc. svc.instance_name) (services lower inet_ntoa c) ≡ names)
        × (names ≡ sorted_texts c.instances)
        × Perm names c.instances
        × AreSorted names
        × All (IsFull c) (services lower inet_ntoa c)
  unfolding missing services
  missing-IsFull c h =
      let (listed, full) = missing_all-IsFull c (sorted_texts c.instances) h in
      (
        sorted_texts c.instances,
        listed,
        refl,
        sorted_texts-perm c.instances,
        sorted_texts-AreSorted c.instances,
        full,
      )
