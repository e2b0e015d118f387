-- ===== src/Discovery.antt =====
-- The merged view of src/ddmp/discovery.py: the replies to probes and the advertised services become
-- one entry for each cooler.
pub mod Replies
pub mod Sorting
pub mod Keyed
pub mod Complete
pub mod Unique
pub mod Located
use dometic_ddmp.Base.{
  ℕ, ℤ, ◌-◌, String, Bool, true, false, not, ◌&&◌, ◌||◌, Option, none, some, List, [], ◌∷◌, ◌++◌,
  map, length, drop, member, same, text_eq, ltb, ◌==◌, if◌then◌else◌,
}
use dometic_ddmp.Base.Dict
use dometic_ddmp.Base.Dict.{Dict}
use dometic_ddmp.Result.{Result, ok, err, ◌>>=◌}
use dometic_ddmp.Text.{Text, codes, is_space, remove, before_first, text_leb}
use dometic_ddmp.Bytes.{strip}
use dometic_ddmp.Frame.{default_port}
use dometic_ddmp.Mdns.Collector.{MdnsService}

pub record DdmdReply : Type 0 where
  pub cooler_id : Text
  pub name : Text
  pub sku : Text
  pub version : ℤ
  pub pid : ℤ
  pub f : ℤ
  pub host : Text
  pub port : ℕ

-- `sources` is a set, kept as a list without repetitions.
pub record Discovered : Type 0 where
  pub cooler_id : Text
  pub name : Text
  pub hostname : Option Text
  pub ip : Option Text
  pub port : ℕ
  pub firmware : Option Text
  pub sku : Option Text
  pub instance_name : Option Text
  pub sources : List Text

-- What the network gives, or the exception that it ends in: the services that `query_mdns` finds, the
-- replies of one address to a probe that stops at the first one, and the replies to a broadcast.
pub record Network : Type 0 where
  pub services : Result (List MdnsService)
  pub probe : Text → ℕ → Result (List DdmdReply)
  pub broadcast_replies : Result (List DdmdReply)

-- `text[-6:]`
unfoldable pub last_six : Text → Text
last_six s = drop (length s - 6) s

-- `text.rpartition(c)[2]`, from a text that is a candidate so far.
unfoldable pub after_last : ℕ → Text → Text → Text
after_last c [] so_far = so_far
after_last c (x ∷ s) so_far = after_last c s (if x == c then s else so_far)

-- `a or b`
unfoldable pub text_or : Text → Text → Text
text_or [] b = b
text_or (x ∷ a) b = x ∷ a

unfoldable pub option_or : Option Text → Option Text → Option Text
option_or none b = b
option_or (some []) b = b
option_or (some (x ∷ a)) b = some (x ∷ a)

unfoldable pub port_or : ℕ → ℕ → ℕ
port_or p q = if p == 0 then q else p

-- `text or None`
unfoldable pub or_none : Text → Option Text
or_none [] = none
or_none (x ∷ s) = some (x ∷ s)

-- `a | b`
unfoldable pub union : List Text → List Text → List Text
union xs [] = xs
union xs (y ∷ ys) = union (if member y xs then xs else xs ++ y ∷ []) ys

-- The entry that two finds of one cooler give: what the first one has not, the second one fills in.
unfoldable pub merge : Discovered → Discovered → Discovered
merge prev d = record {
  cooler_id = text_or prev.cooler_id d.cooler_id;
  name = text_or prev.name d.name;
  hostname = option_or prev.hostname d.hostname;
  ip = option_or prev.ip d.ip;
  port = port_or prev.port d.port;
  firmware = option_or prev.firmware d.firmware;
  sku = option_or prev.sku d.sku;
  instance_name = option_or prev.instance_name d.instance_name;
  sources = union prev.sources d.sources;
}

-- `from_reply`
unfoldable pub from_reply : DdmdReply → Text → Discovered
from_reply r source = record {
  cooler_id = r.cooler_id;
  name = r.name;
  hostname = elim (or_none r.name) [ none ↦ none | some name ↦ some (name ++ codes ".local") ];
  ip = some r.host;
  port = r.port;
  firmware = none;
  sku = or_none r.sku;
  instance_name = none;
  sources = source ∷ [];
}

-- `svc.addresses[0] if svc.addresses else None`
abbrev first_address : List Text → Option Text
first_address [] = none
first_address (a ∷ addresses) = some a

unfoldable pub from_service : MdnsService → Discovered
from_service svc = record {
  cooler_id = [];
  name = before_first b'.' svc.hostname;
  hostname = some svc.hostname;
  ip = first_address svc.addresses;
  port = svc.port;
  firmware = Dict.get (codes "fwversion") svc.txt;
  sku = Dict.get (codes "sku") svc.txt;
  instance_name = some svc.instance_name;
  sources = codes "mdns" ∷ [];
}

-- What is remembered of one service, in order: the replies of its address, then the service.
unfoldable pub of_service : Network → MdnsService → Result (List Discovered)
of_service net svc = elim (option_or (first_address svc.addresses) none) [
  | none ↦ ok (from_service svc ∷ [])
  | some ip ↦ do
    replies ← net.probe ip svc.port
    ok (map (λ r. from_reply r (codes "probe")) replies ++ from_service svc ∷ [])
]

unfoldable pub of_services : Network → List MdnsService → Result (List Discovered)
of_services net [] = ok []
of_services net (svc ∷ svcs) = do
  first ← of_service net svc
  rest ← of_services net svcs
  ok (first ++ rest)

unfoldable pub of_hosts : Network → List Text → Result (List Discovered)
of_hosts net [] = ok []
of_hosts net (host ∷ hosts) = do
  replies ← net.probe host default_port
  rest ← of_hosts net hosts
  ok (map (λ r. from_reply r (codes "probe")) replies ++ rest)

-- Everything that `discover` remembers, in order.
unfoldable pub finds : Network → (mdns broadcast : Bool) → List Text → Result (List Discovered)
finds net mdns broadcast hosts = do
  browsed ← if mdns then (net.services >>= of_services net) else ok []
  replies ← if broadcast then net.broadcast_replies else ok []
  probed ← of_hosts net hosts
  ok (browsed ++ map (λ r. from_reply r (codes "broadcast")) replies ++ probed)

abbrev pub text_of : Option Text → Text
text_of none = []
text_of (some a) = a

-- The order of `sorted(..., key=lambda d: (d.name, d.ip or ""))`.
unfoldable pub entry_leb : Discovered → Discovered → Bool
entry_leb d e =
    if same d.name e.name then text_leb (text_of d.ip) (text_of e.ip) else text_leb d.name e.name

-- `sorted`, which keeps the order of equal elements.
unfoldable pub insert : Discovered → List Discovered → List Discovered
insert d [] = d ∷ []
insert d (e ∷ es) = let rest = insert d es in if entry_leb d e then d ∷ e ∷ es else e ∷ rest

unfoldable pub sorted : List Discovered → List Discovered
sorted [] = []
sorted (d ∷ ds) = insert d (sorted ds)

-- `str.lower` on all of Unicode is a parameter.
module _ (lower : Text → Text) where
  -- `normalize_id`
  unfoldable pub normalize_id : Text → Text
  normalize_id t = lower (strip is_space (remove b'-' (remove b':' t)))

  -- `Discovered.short_id`, from the two fields that it reads.
  unfoldable pub short_id_of : Text → Text → Text
  short_id_of [] name = lower (after_last b'_' name name)
  short_id_of (x ∷ cooler_id) name = last_six (x ∷ cooler_id)

  unfoldable pub short_id : Discovered → Text
  short_id d = short_id_of d.cooler_id d.name

  -- `Discovered.matches`
  unfoldable pub matches : Discovered → Text → Bool
  matches d cooler_id =
      let wanted = normalize_id cooler_id in
      (not (same d.cooler_id []) && same wanted d.cooler_id)
      || (not (same wanted []) && same (last_six wanted) (short_id d))

  -- The key of an entry, from the two fields that it depends on.
  unfoldable pub key_of : Text → Text → Text
  key_of cooler_id name = text_or (short_id_of cooler_id name) (codes "name:" ++ lower name)

  unfoldable pub key : Discovered → Text
  key d = key_of d.cooler_id d.name

  -- `remember`
  unfoldable pub remember : Dict Text Discovered → Discovered → Dict Text Discovered
  remember found d = elim (Dict.get (key d) found) [
    | none ↦ Dict.put (key d) d found
    | some prev ↦ Dict.put (key d) (merge prev d) found
  ]

  unfoldable pub remember_all : Dict Text Discovered → List Discovered → Dict Text Discovered
  remember_all found [] = found
  remember_all found (d ∷ ds) = remember_all (remember found d) ds

  -- The entries in the end, in order.
  unfoldable pub merged : List Discovered → List Discovered
  merged ds = sorted (map (λ entry. entry.1) (remember_all [] ds))

  -- `discover`
  unfoldable pub discover : Network → (mdns broadcast : Bool) → List Text → Result (List Discovered)
  discover net mdns broadcast hosts = do ds ← finds net mdns broadcast hosts; ok (merged ds)

  -- The loop of `find_cooler`.
  unfoldable pub first_match : Text → List Discovered → Option Discovered
  first_match cooler_id [] = none
  first_match cooler_id (d ∷ ds) =
      let rest = first_match cooler_id ds in if matches d cooler_id then some d else rest

  -- `find_cooler`
  unfoldable pub find_cooler : Network → Text → List Text → Result (Option Discovered)
  find_cooler net cooler_id hosts = do
    ds ← discover net true true hosts
    ok (first_match cooler_id ds)
