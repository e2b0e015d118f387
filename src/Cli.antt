-- ===== src/Cli.antt =====
-- The commands of src/ddmp/__main__.py: what they send and the codes they exit with. What they print is
-- in Print.
pub mod Print
pub mod Readable
pub mod Printed
pub mod Confirmed
pub mod Polling
pub mod Writing
pub mod Codes
pub mod Arguments
pub mod Echoed
use dometic_ddmp.Base.{
  ℕ, ℤ, String, Bool, true, false, not, Option, none, some, List, [], ◌∷◌, member, string_eq,
  if◌then◌else◌,
}
use dometic_ddmp.Result.{Result, ok, err, ◌>>=◌}
use dometic_ddmp.Text.{Text}
use dometic_ddmp.Frame
use dometic_ddmp.Topic.{TopicRef, by_name, topic, writable}
use dometic_ddmp.Value.{Value, one, float, str, Floats}
use dometic_ddmp.Expectation.{Event, WriteExpectation, matches}
use dometic_ddmp.Session
use dometic_ddmp.Mdns.Collector.{MdnsService}
use dometic_ddmp.Discovery
use dometic_ddmp.Discovery.{DdmdReply, Discovered, Network}
use dometic_ddmp.SyncClient
use dometic_ddmp.SyncClient.{SyncClient}

-- The options that `set` and `set-temp` share, as far as they decide anything.
pub record WriteArgs : Type 0 where
  pub compartment : Option ℤ
  pub yes : Bool

-- The options of `discover`, as far as they decide anything.
pub record DiscoverArgs : Type 0 where
  pub mdns_only : Bool
  pub host : Option Text
  pub port : ℤ
  pub no_broadcast : Bool

-- What the network and the other threads do while a command runs: what a search finds, the replies of
-- one address to a probe that goes on until its time is up, whether the connection can be opened,
-- how the client changes while the command sleeps, the events that each turn of the loop of `_write`
-- finds until its time is up, and whether Ctrl-C comes before the connection is gone.
pub record World (F : Type 0) : Type 0 where
  pub network : Network
  pub probe_all : Text → ℤ → Result (List DdmdReply)
  pub reached : Result (Unit {0})
  pub waited : SyncClient F → SyncClient F
  pub rounds : List (List (Event F))
  pub interrupted : Bool

-- What a command leaves: the client that it has made, if any, and its exit code.
pub record Run (F : Type 0) : Type 0 where
  pub client : Option (SyncClient F)
  pub code : Result ℕ

pub data Command (F : Type 0) : Type 0 where
  discover : DiscoverArgs → Command F
  watch state : Command F
  set_temp : F → WriteArgs → Command F
  set : String → Text → WriteArgs → Command F

-- The exit codes of a verdict.
unfoldable pub exit_code : Bool → ℕ
exit_code true = 0
exit_code false = 3

module _ {F : Type 0} where
  -- `_connect`
  unfoldable pub connect : World F → Bool → Result (SyncClient F)
  connect w has_on_event = do
    reached ← w.reached
    SyncClient.connect (SyncClient.init (Session.init F) has_on_event true) true

  -- A command on its client: `try: ... finally: client.close()`.
  unfoldable pub with_client :
      Result (SyncClient F) → (SyncClient F → SyncClient F × Result ℕ) → Run F
  with_client (err x) body = record { client = none; code = err x }
  with_client (ok c) body =
      let (d, code) = body c in record { client = some (SyncClient.shut d); code = code }

  -- `cmd_watch`
  unfoldable pub cmd_watch : World F → Run F
  cmd_watch w =
      with_client (connect w true) (λ c. (w.waited c, ok (if w.interrupted then 0 else 1)))

module _ {F : Type 0} ⦃fl : Floats F⦄ where
  -- The loop over the pending events, up to the first verdict or exception.
  unfoldable pub judge_all :
      WriteExpectation F → List (Event F) → WriteExpectation F × Result (Option Bool)
  judge_all e [] = (e, ok none)
  judge_all e (event ∷ events) =
      let (e', verdict) = matches e event in
      let rest = judge_all e' events in
      elim verdict [ err x ↦ (e', err x) | ok none ↦ rest | ok (some b) ↦ (e', ok (some b)) ]

  -- The `while` loop of `_write`, with the events that each turn finds.
  unfoldable pub poll : WriteExpectation F → List (List (Event F)) → WriteExpectation F × Result ℕ
  poll e [] = (e, ok 4)
  poll e (pending ∷ rounds) =
      let (e', decided) = judge_all e pending in
      let rest = poll e' rounds in
      elim decided [ err x ↦ (e', err x) | ok none ↦ rest | ok (some b) ↦ (e', ok (exit_code b)) ]

  -- The body of `_write`, from the end of its sleep.
  unfoldable pub write_body :
      WriteArgs
      → TopicRef
      → Value F
      → List (List (Event F))
      → SyncClient F
      → SyncClient F × Result ℕ
  write_body args ref v rounds c = elim (Session.set_frame c.session ref v args.compartment) [
    | err x ↦ (c, err x)
    | ok (f, e) ↦ elim (Frame.encode_line f) [
      | err x ↦ (c, err x)
      | ok line ↦ if not args.yes then (c, ok 2) else elim (SyncClient.send c f) [
        | err x ↦ (c, err x)
        | ok sent ↦ (sent, (poll e rounds).1)
      ]
    ]
  ]

  -- `_write`
  unfoldable pub write : World F → WriteArgs → TopicRef → Value F → Run F
  write w args ref v =
      with_client (connect w true) (λ c. write_body args ref v w.rounds (w.waited c))

  -- `cmd_state`
  unfoldable pub cmd_state : World F → Run F
  cmd_state w =
      with_client (connect w false)
        (λ c. let d = w.waited c in (d, (do cooler ← Session.state d.session; ok 0)))

  -- `cmd_set_temp`
  unfoldable pub cmd_set_temp : World F → F → WriteArgs → Run F
  cmd_set_temp w celsius args = write w args (by_name "csettemp") (one (float celsius))

  -- `cmd_set`
  unfoldable pub cmd_set : World F → String → Text → WriteArgs → Run F
  cmd_set w name v args = elim (topic (by_name name)) [
    | err x ↦ record { client = none; code = err x }
    | ok t ↦
        if not (member t.name writable)
        then record { client = none; code = ok 2 }
        else write w args (by_name t.name) (one (str v))
  ]

-- What `cmd_discover` goes over.
pub data Found : Type 0 where
  services : List MdnsService → Found
  replies : List DdmdReply → Found
  coolers : List Discovered → Found

-- The exit code of `cmd_discover`.
unfoldable pub found_code : Found → ℕ
found_code (coolers []) = 1
found_code (coolers (d ∷ found)) = 0
found_code (services svcs) = 0
found_code (replies rs) = 0

module _ {F : Type 0} (lower : Text → Text) where
  -- `if args.mdns_only`, `if args.host`, and the search.
  unfoldable pub look : World F → DiscoverArgs → Result Found
  look w args =
      let everywhere : Result Found = (do
        found ← Discovery.discover lower w.network true (not args.no_broadcast) []
        ok (coolers found)) in
      if args.mdns_only
      then (do svcs ← w.network.services; ok (services svcs))
      else elim args.host [
        | none ↦ everywhere
        | some [] ↦ everywhere
        | some (c ∷ host) ↦ do rs ← w.probe_all (c ∷ host) args.port; ok (replies rs)
      ]

  -- `cmd_discover`
  unfoldable pub cmd_discover : World F → DiscoverArgs → Run F
  cmd_discover w args = record {
    client = none;
    code = (do found ← look w args; ok (found_code found));
  }

module _ {F : Type 0} ⦃fl : Floats F⦄ (lower : Text → Text) where
  -- `args.func(args)`
  unfoldable pub run : World F → Command F → Run F
  run w (discover args) = cmd_discover lower w args
  run w watch = cmd_watch w
  run w state = cmd_state w
  run w (set_temp celsius args) = cmd_set_temp w celsius args
  run w (set name v args) = cmd_set w name v args

-- The two `except` clauses of `main`.
unfoldable pub exit_status : Result ℕ → ℕ
exit_status (ok code) = code
exit_status (err x) = 1

-- `main`, from the parsed arguments.
unfoldable pub main : {F : Type 0} → ⦃fl : Floats F⦄ → (Text → Text) → World F → Command F → ℕ
main lower w command = exit_status (run lower w command).code
