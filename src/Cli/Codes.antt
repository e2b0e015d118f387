-- ===== src/Cli/Codes.antt =====
-- Every command of src/ddmp/__main__.py closes its client, and exits with one of five codes.
use dometic_ddmp.Base.{
  ℕ, String, ◌≡◌, ◌≤◌, true, false, inl, inr, Option, none, some, [], ◌∷◌, member, string_eq,
  Bool-cases, arith,
}
use dometic_ddmp.Result.{Result, ok, err, Result-cases, ◌>>=◌}
use dometic_ddmp.Text.{Text}
use dometic_ddmp.Topic.{TopicRef, by_name, topic, writable}
use dometic_ddmp.Value.{Value, Floats}
use dometic_ddmp.Session
use dometic_ddmp.SyncClient
use dometic_ddmp.SyncClient.{SyncClient}
use dometic_ddmp.Cli.{
  World, WriteArgs, DiscoverArgs, Found, services, replies, coolers, found_code, look, cmd_discover,
  Run, Command, discover, watch, state, set_temp, set, connect, with_client, write, cmd_watch,
  cmd_state, cmd_set_temp, cmd_set, run, exit_status, main,
}
use dometic_ddmp.Cli.Writing.{IsLow, write_body-IsLow}

abbrev pub IsShut : {F : Type 0} → Option (SyncClient F) → Type 0
IsShut none = Unit
IsShut (some c) = c.closed ≡ true

module _ {F : Type 0} where
  pub shut_closed : (c : SyncClient F) → (SyncClient.shut c).closed ≡ true
  unfolding SyncClient.shut
  shut_closed c = ground arith

  -- A run that has closed its client and exits with a code of the list.
  abbrev IsTidy : Run F → Type 0
  IsTidy r = IsShut r.client × IsLow r.code

  with_client-IsTidy :
      (r : Result (SyncClient F)) (body : SyncClient F → SyncClient F × Result ℕ)
      → ((c : SyncClient F) → IsLow (body c).1)
      → IsTidy (with_client r body)
  unfolding with_client exit_status
  with_client-IsTidy (err x) body h = (tt, omega arith)
  with_client-IsTidy (ok c) body h = (shut_closed (body c).0, h c)

  cmd_watch-IsTidy : (w : World F) → IsTidy (cmd_watch w)
  unfolding cmd_watch exit_status
  cmd_watch-IsTidy w = with_client-IsTidy (connect w true) _ (λ c. ground arith)

found_code-IsLow : (r : Result Found) → IsLow (r >>= (λ found. ok (found_code found)))
unfolding exit_status found_code
found_code-IsLow (err x) = omega arith
found_code-IsLow (ok (services svcs)) = omega arith
found_code-IsLow (ok (replies rs)) = omega arith
found_code-IsLow (ok (coolers [])) = omega arith
found_code-IsLow (ok (coolers (d ∷ found))) = omega arith

cmd_discover-IsTidy :
    {F : Type 0}
    → (lower : Text → Text) (w : World F) (args : DiscoverArgs) → IsTidy (cmd_discover lower w args)
unfolding cmd_discover
cmd_discover-IsTidy lower w args = (tt, found_code-IsLow (look lower w args))

answers-IsLow : {A : Type 0} → (r : Result A) → IsLow (r >>= (λ cooler. ok 0))
unfolding exit_status
answers-IsLow (ok a) = omega arith
answers-IsLow (err x) = omega arith

module _ {F : Type 0} ⦃fl : Floats F⦄ where
  write-IsTidy :
      (w : World F) (args : WriteArgs) (ref : TopicRef) (v : Value F) → IsTidy (write w args ref v)
  unfolding write
  write-IsTidy w args ref v =
      with_client-IsTidy (connect w true) _ (λ c. write_body-IsLow args ref v w.rounds (w.waited c))

  cmd_state-IsTidy : (w : World F) → IsTidy (cmd_state w)
  unfolding cmd_state exit_status
  cmd_state-IsTidy w =
      with_client-IsTidy (connect w false) _
        (λ c. answers-IsLow (Session.state (w.waited c).session))

  cmd_set-IsTidy :
      (w : World F) (name : String) (v : Text) (args : WriteArgs) → IsTidy (cmd_set w name v args)
  unfolding cmd_set exit_status
  cmd_set-IsTidy w name v args = elim (Result-cases (topic (by_name name))) [
    | inr (x, e) ↦ rw (cmd_set, e) (tt, omega arith)
    | inl (t, e) ↦ elim (Bool-cases (member t.name writable)) [
      | inr no_write ↦ rw (cmd_set, e) (rw no_write (tt, omega arith))
      | inl may_write ↦ rw (cmd_set, e) (rw may_write (write-IsTidy w args _ _))
    ]
  ]

  run-IsTidy :
      (lower : Text → Text) (w : World F) (command : Command F) → IsTidy (run lower w command)
  unfolding run cmd_set_temp
  run-IsTidy lower w (discover args) = cmd_discover-IsTidy lower w args
  run-IsTidy lower w watch = cmd_watch-IsTidy w
  run-IsTidy lower w state = cmd_state-IsTidy w
  run-IsTidy lower w (set_temp celsius args) = write-IsTidy w args _ _
  run-IsTidy lower w (set name v args) = cmd_set-IsTidy w name v args

  -- Whatever the network, the cooler and the other threads do, and however texts are put in lower case, a
  -- command has closed the client that it got from `_connect`, if it got one, and `main` exits with a
  -- code from 0 to 4.
  pub main_tidy :
      (lower : Text → Text) (w : World F) (command : Command F)
      → IsShut (run lower w command).client × (main lower w command ≤ 4)
  unfolding main
  main_tidy lower w command = run-IsTidy lower w command
