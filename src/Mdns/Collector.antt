-- ===== src/Mdns/Collector.antt =====
-- `_MdnsCollector` of src/ddmp/discovery.py: what the records of the answers say about the services.
use dometic_ddmp.Base.{
  ℕ, ◌+◌, ◌&&◌, Option, none, some, List, [], ◌∷◌, ◌++◌, length, member, text_eq, same, leb, ◌==◌,
  if◌then◌else◌,
}
use dometic_ddmp.Base.Dict
use dometic_ddmp.Base.Dict.{Dict}
use dometic_ddmp.Bytes.{Bytes, strip}
use dometic_ddmp.Result.{Result, ok, err, value_error, ◌>>=◌}
use dometic_ddmp.Text.{Text, text_leb}
use dometic_ddmp.Mdns.Message.{Record, be16, name_at, parse_txt, parse_response}

pub record MdnsService : Type 0 where
  pub instance_name : Text
  pub hostname : Text
  pub port : ℕ
  pub addresses : List Text
  pub txt : Dict Text Text

-- `instances` is a set, kept as a list without repetitions.
pub record Collector : Type 0 where
  pub service : Text
  pub instances : List Text
  pub srv : Dict Text (ℕ × Text)
  pub txt : Dict Text (Dict Text Text)
  pub addresses : Dict Text (List Text)

-- `self.instances.add(...)`
unfoldable pub add_once : Text → List Text → List Text
add_once t ts = if member t ts then ts else ts ++ t ∷ []

-- `sorted` of texts.
unfoldable pub insert_text : Text → List Text → List Text
insert_text t [] = t ∷ []
insert_text t (u ∷ us) =
    let rest = insert_text t us in if text_leb t u then t ∷ u ∷ us else u ∷ rest

unfoldable pub sorted_texts : List Text → List Text
sorted_texts [] = []
sorted_texts (t ∷ ts) = insert_text t (sorted_texts ts)

-- `tuple(dict.fromkeys(...))`, from the ones that are already there.
unfoldable pub unique : List Text → List Text → List Text
unique so_far [] = so_far
unique so_far (t ∷ ts) = unique (add_once t so_far) ts

abbrev pub or_empty : {A : Type 0} → Option (List A) → List A
or_empty none = []
or_empty (some xs) = xs

-- `str.lower` on all of Unicode, and `inet_ntoa`, are parameters.
module _ (lower : Text → Text) (inet_ntoa : Bytes → Text) where
  -- `_MdnsCollector(service)`
  unfoldable pub init : Text → Collector
  init service = record {
    service = lower (strip (λ c. c == b'.') service);
    instances = [];
    srv = [];
    txt = [];
    addresses = [];
  }

  -- What `add` does with a name inside a record: `except ValueError: continue`, which lets a
  -- `struct.error` through.
  unfoldable pub with_name : Result (Text × ℕ) → Collector → (Text → Collector) → Result Collector
  with_name (ok (name, end)) c use_name = ok (use_name name)
  with_name (err value_error) c use_name = ok c
  with_name (err x) c use_name = err x

  -- The branches of `add`.
  unfoldable pub add_ptr : Bytes → Record → Collector → Result Collector
  add_ptr msg r c =
      with_name (name_at msg r.rd_off) c
        (λ name. record c { instances = add_once name c.instances })

  unfoldable pub add_srv : Bytes → Record → Collector → Result Collector
  add_srv msg r c = do
    port ← be16 r.rdata 4
    with_name (name_at msg (r.rd_off + 6)) c
        (λ target. record c { srv = Dict.put r.name (port, target) c.srv })

  unfoldable pub add_address : Record → Collector → Collector
  add_address r c =
      let key = lower r.name in
      record c {
        addresses =
            Dict.put key (or_empty (Dict.get key c.addresses) ++ inet_ntoa r.rdata ∷ [])
              c.addresses;
      }

  -- One round of the loop of `add`.
  unfoldable pub add_record : Bytes → Record → Collector → Result Collector
  add_record msg r c =
      if r.rtype == 12 && same (lower r.name) c.service
      then add_ptr msg r c
      else if r.rtype == 33 && leb 6 (length r.rdata)
      then add_srv msg r c
      else if r.rtype == 16
      then ok (record c { txt = Dict.put r.name (parse_txt r.rdata) c.txt })
      else if r.rtype == 1 && length r.rdata == 4
      then ok (add_address r c)
      else ok c

  unfoldable pub add_records : Bytes → List Record → Collector → Result Collector
  add_records msg [] c = ok c
  add_records msg (r ∷ rs) c = do added ← add_record msg r c; add_records msg rs added

  -- `add`
  unfoldable pub add : Bytes → Collector → Result Collector
  add msg c = add_records msg (parse_response msg) c

  -- The loop of `_lookup` over the entries.
  unfoldable pub lookup_lowered : {A : Type 0} → Text → Dict Text A → Option A
  lookup_lowered name [] = none
  lookup_lowered name ((key, v) ∷ table) =
      let rest = lookup_lowered name table in if same (lower key) (lower name) then some v else rest

  -- `_lookup`
  unfoldable pub lookup : {A : Type 0} → Dict Text A → Text → Option A
  lookup table name = elim (Dict.get name table) [
    | some v ↦ some v
    | none ↦ lookup_lowered name table
  ]

  -- One round of the loop of `services`.
  unfoldable pub service_of : Collector → Text → List MdnsService
  service_of c instance_name = elim (lookup c.srv instance_name) [
    | none ↦ []
    | some (port, target) ↦
        record {
          instance_name = instance_name;
          hostname = target;
          port = port;
          addresses = unique [] (or_empty (Dict.get (lower target) c.addresses));
          txt = or_empty (lookup c.txt instance_name);
        }
        ∷ []
  ]

  unfoldable pub services_of : Collector → List Text → List MdnsService
  services_of c [] = []
  services_of c (name ∷ names) = service_of c name ++ services_of c names

  -- `services`
  unfoldable pub services : Collector → List MdnsService
  services c = services_of c (sorted_texts c.instances)

  abbrev pub unresolved_txt : Text → Option (Dict Text Text) → List (Text × ℕ)
  unresolved_txt name none = (name, 16) ∷ []
  unresolved_txt name (some txt) = []

  abbrev pub unresolved_host : Text → List Text → List (Text × ℕ)
  unresolved_host target [] = (target, 1) ∷ []
  unresolved_host target (a ∷ addresses) = []

  -- One round of the loop of `missing`.
  unfoldable pub missing_of : Collector → Text → List (Text × ℕ)
  missing_of c name = elim (lookup c.srv name) [
    | none ↦ (name, 33) ∷ (name, 16) ∷ []
    | some (port, target) ↦
        unresolved_txt name (lookup c.txt name)
        ++ unresolved_host target (or_empty (Dict.get (lower target) c.addresses))
  ]

  unfoldable pub missing_all : Collector → List Text → List (Text × ℕ)
  missing_all c [] = []
  missing_all c (name ∷ names) = missing_of c name ++ missing_all c names

  -- `missing`
  unfoldable pub missing : Collector → List (Text × ℕ)
  missing c = missing_all c (sorted_texts c.instances)
